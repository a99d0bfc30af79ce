-- ===== src/Upgrade/Prompt/Dialogue.antt =====
-- What a dialogue of pkg/upgrade/prompt.go comes to.
use mup.Base.{◌≡◌, refl, true, false, ◌⊎◌, inl, inr, List, [], ◌∷◌, Bool-cases}
use mup.Base.Text.{Text}
use mup.Base.Results.{ok, err}
use mup.Upgrade.Prompt.{
  PromptLevel, PromptResponse, PromptContext, Choice, Reply, answer, print_only, choice_of, is_yes,
  is_node_level, prompt_loop, prompt, should_prompt, answer_round, read_error,
}

-- A line after which the loop asks again: one that only prints, or a skip at a level other than that
-- of nodes.
pub data AsksAgain (level : PromptLevel) (line : Text) : Type 0 where
  printed : choice_of line ≡ print_only → AsksAgain level line
  no_skip :
      choice_of line ≡ answer PromptResponse.skip
      → is_node_level level ≡ false
      → AsksAgain level line

-- A dialogue: the first line that gives an answer ends it, and what follows is left. An abort takes
-- the next line too: one that is no yes is used up, and the loop asks again. At the end of the input
-- the dialogue ends with an error.
pub data Ends (level : PromptLevel) : List Text → Reply → Type 0 where
  continued :
      {line : Text} {rest : List Text}
      → choice_of line ≡ answer PromptResponse.continue
      → Ends level (line ∷ rest) (ok PromptResponse.continue, rest)
  skipped :
      {line : Text} {rest : List Text}
      → choice_of line ≡ answer PromptResponse.skip
      → is_node_level level ≡ true
      → Ends level (line ∷ rest) (ok PromptResponse.skip, rest)
  paused :
      {line : Text} {rest : List Text}
      → choice_of line ≡ answer PromptResponse.pause
      → Ends level (line ∷ rest) (ok PromptResponse.pause, rest)
  aborted :
      {line confirm : Text} {rest : List Text}
      → choice_of line ≡ answer PromptResponse.abort
      → is_yes confirm ≡ true
      → Ends level (line ∷ confirm ∷ rest) (ok PromptResponse.abort, rest)
  asked_again :
      {line : Text} {rest : List Text} {r : Reply}
      → AsksAgain level line
      → Ends level rest r
      → Ends level (line ∷ rest) r
  not_confirmed :
      {line confirm : Text} {rest : List Text} {r : Reply}
      → choice_of line ≡ answer PromptResponse.abort
      → is_yes confirm ≡ false
      → Ends level rest r
      → Ends level (line ∷ confirm ∷ rest) r
  cut_off :
      {line : Text}
      → choice_of line ≡ answer PromptResponse.abort
      → Ends level (line ∷ []) (err read_error, [])
  at_end : Ends level [] (err read_error, [])

answer_round-Ends :
    (level : PromptLevel) (line : Text) (lines : List Text) (again after : Reply) (c : Choice)
    → choice_of line ≡ c
    → Ends level lines again
    → (c ≡ answer PromptResponse.abort → Ends level (line ∷ lines) after)
    → Ends level (line ∷ lines) (answer_round level c lines again after)
unfolding answer_round
answer_round-Ends level line lines again after print_only e h k = asked_again (printed e) h
answer_round-Ends level line lines again after (answer PromptResponse.continue) e h k = continued e
answer_round-Ends level line lines again after (answer PromptResponse.skip) e h k =
    elim (Bool-cases (is_node_level level)) [
      | inl b ↦ rw b (skipped e b)
      | inr b ↦ rw b (asked_again (no_skip e b) h)
    ]
answer_round-Ends level line lines again after (answer PromptResponse.pause) e h k = paused e
answer_round-Ends level line lines again after (answer PromptResponse.abort) e h k = k refl

prompt_loop-Ends :
    (level : PromptLevel) (lines : List Text) → Ends level lines (prompt_loop level lines)
unfolding prompt_loop
prompt_loop-Ends level [] = at_end
prompt_loop-Ends level (line ∷ []) =
    answer_round-Ends level line [] _ _ (choice_of line) refl at_end (λ e. cut_off e)
prompt_loop-Ends level (line ∷ confirm ∷ rest) =
    answer_round-Ends level line (confirm ∷ rest) _ _ (choice_of line) refl
      (prompt_loop-Ends level (confirm ∷ rest))
      (λ e. elim (Bool-cases (is_yes confirm)) [
        | inl b ↦ rw b (aborted e b)
        | inr b ↦ rw b (not_confirmed e b (prompt_loop-Ends level rest))
      ])

-- Where the level and the context call for a prompt, it ends on any input: with the first answer that
-- a line gives, after which the input is left, or with an error when the input ends before. Lines
-- that only print are passed over. A skip counts only at the level of nodes, and an abort only when the
-- next line confirms it; where that line does not, both are passed over. Elsewhere the prompt reads nothing and says to continue.
pub prompt-Ends :
    (level : PromptLevel) (c : PromptContext) (lines : List Text)
    → (should_prompt level c ≡ true × Ends level lines (prompt level c lines))
      ⊎ (should_prompt level c ≡ false
          × (prompt level c lines ≡ (ok PromptResponse.continue, lines)))
unfolding prompt
prompt-Ends level c lines = elim (Bool-cases (should_prompt level c)) [
  | inl e ↦ inl (e, rw (e, prompt) (prompt_loop-Ends level lines))
  | inr e ↦ inr (e, rw (e, prompt) refl)
]
