-- ===== src/Upgrade/Prompt.antt =====
-- pkg/upgrade/prompt.go: when the user is asked, and what the answers mean. The input is the list of
-- its lines, after the last of which it ends. What is printed is not modelled.
pub mod Dialogue
use mup.Base.{ℕ, Bool, true, false, ◌||◌, List, [], ◌∷◌, ◌++◌, not, if◌then◌else◌}
use mup.Base.Text.{Text, codes, text_eq}
use mup.Base.Text.Case.{to_lower, trim_space}
use mup.Base.Results.{Error, Result, ok, err}
use mup.Topology.{is_empty}
use mup.Upgrade.{UpgradeState, get_completed_node_count, get_total_node_count}

-- `other` is a level that is none of the constants.
pub data PromptLevel : Type 0 where
  none : PromptLevel
  phase : PromptLevel
  node : PromptLevel
  critical : PromptLevel
  other : Text → PromptLevel

pub data PromptResponse : Type 0 where
  continue : PromptResponse
  skip : PromptResponse
  pause : PromptResponse
  abort : PromptResponse

pub record PromptContext : Type 0 where
  pub phase : Text
  pub node_host_port : Text
  pub node_role : Text
  pub completed_nodes : ℕ
  pub total_nodes : ℕ
  pub is_critical : Bool
  pub operation_name : Text

unfoldable pub should_prompt : PromptLevel → PromptContext → Bool
should_prompt PromptLevel.none c = false
should_prompt PromptLevel.phase c = is_empty c.node_host_port
should_prompt PromptLevel.node c = not (is_empty c.node_host_port)
should_prompt PromptLevel.critical c = c.is_critical
should_prompt (PromptLevel.other s) c = is_empty c.node_host_port

unfoldable pub is_node_level : PromptLevel → Bool
is_node_level PromptLevel.node = true
is_node_level PromptLevel.none = false
is_node_level PromptLevel.phase = false
is_node_level PromptLevel.critical = false
is_node_level (PromptLevel.other s) = false

-- A line as it is compared.
unfoldable pub clean : Text → Text
clean line = trim_space (to_lower line)

abbrev pub one_of : Text → Text → Text → Bool
one_of s a b = text_eq s a || text_eq s b

unfoldable pub is_yes : Text → Bool
is_yes line = one_of (clean line) (codes "yes") (codes "y")

-- What a line chooses. Health, status and an invalid choice only print.
pub data Choice : Type 0 where
  answer : PromptResponse → Choice
  print_only : Choice

unfoldable pub choice_of : Text → Choice
choice_of line =
    let s = clean line in
    if one_of s (codes "c") (codes "continue")
    then answer PromptResponse.continue
    else if one_of s (codes "s") (codes "skip")
    then answer PromptResponse.skip
    else if one_of s (codes "p") (codes "pause")
    then answer PromptResponse.pause
    else if one_of s (codes "a") (codes "abort")
    then answer PromptResponse.abort
    else print_only

abbrev pub Reply : Type 0
Reply = Result PromptResponse × List Text

abbrev pub read_error : Error
read_error = codes "failed to read input: EOF"

-- The end of a round, where `again` is the loop from the next line on and `after_confirm` what
-- follows the line that confirms an abort.
unfoldable pub answer_round : PromptLevel → Choice → List Text → Reply → Reply → Reply
answer_round level print_only rest again after_confirm = again
answer_round level (answer PromptResponse.continue) rest again after_confirm =
    (ok PromptResponse.continue, rest)
answer_round level (answer PromptResponse.skip) rest again after_confirm =
    if is_node_level level then (ok PromptResponse.skip, rest) else again
answer_round level (answer PromptResponse.pause) rest again after_confirm =
    (ok PromptResponse.pause, rest)
answer_round level (answer PromptResponse.abort) rest again after_confirm = after_confirm

-- The loop of Prompt. At the end of the input the question whether to abort counts as a no.
unfoldable pub prompt_loop : PromptLevel → List Text → Reply
prompt_loop level [] = (err read_error, [])
prompt_loop level (line ∷ []) =
    answer_round level (choice_of line) [] (err read_error, []) (err read_error, [])
prompt_loop level (line ∷ confirm ∷ rest) =
    let again = prompt_loop level (confirm ∷ rest) in
    let refused = prompt_loop level rest in
    answer_round level (choice_of line) (confirm ∷ rest) again
      (if is_yes confirm then (ok PromptResponse.abort, rest) else refused)

unfoldable pub prompt : PromptLevel → PromptContext → List Text → Reply
prompt level c lines =
    if should_prompt level c then prompt_loop level lines else (ok PromptResponse.continue, lines)

unfoldable pub phase_context : Text → UpgradeState → PromptContext
phase_context name s = record {
  phase = name;
  node_host_port = [];
  node_role = [];
  completed_nodes = get_completed_node_count s;
  total_nodes = get_total_node_count s;
  is_critical = false;
  operation_name = [];
}

unfoldable pub node_context : Text → Text → UpgradeState → PromptContext
node_context host role s = record (phase_context s.current_phase s) {
  node_host_port = host;
  node_role = role;
}

unfoldable pub critical_context : Text → UpgradeState → PromptContext
critical_context operation s = record (phase_context s.current_phase s) {
  is_critical = true;
  operation_name = operation;
}

-- A line that is asked for as a yes or no.
unfoldable pub prompt_for_failover : List Text → Reply
prompt_for_failover [] = (err read_error, [])
prompt_for_failover (line ∷ rest) =
    (ok (if is_yes line then PromptResponse.continue else PromptResponse.abort), rest)

abbrev expected_levels : Text
expected_levels = codes " (expected 'none', 'phase', 'node', or 'critical')"

unfoldable pub parse_prompt_level : Text → Result PromptLevel
parse_prompt_level s =
    let t = to_lower s in
    if one_of t (codes "none") []
    then ok PromptLevel.none
    else if text_eq t (codes "phase")
    then ok PromptLevel.phase
    else if text_eq t (codes "node")
    then ok PromptLevel.node
    else if text_eq t (codes "critical")
    then ok PromptLevel.critical
    else err (codes "invalid prompt level: " ++ s ++ expected_levels)
