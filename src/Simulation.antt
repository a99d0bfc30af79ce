-- ===== src/Simulation.antt =====
-- pkg/simulation: the executor that records operations and keeps files, directories and processes in
-- memory. Times and the metadata of an operation are left out. Texts are split at ASCII white space. `read_file` and `stat` are the real file system, which
-- is asked only if the configuration allows it.
pub mod Executor
pub mod Parents
pub mod Failures
pub mod Numbers
pub mod Files
mod Tests
use mup.Base.{
  ℕ, zero, suc, ◌+◌, ◌-◌, Bool, true, false, ◌&&◌, ◌||◌, not, List, [], ◌∷◌, ◌++◌, Option, none,
  some, length, ◌==◌, if◌then◌else◌,
}
use mup.Base.Text.{Text, codes, text_eq, show_nat, push_front}
use mup.Base.Text.Case.{is_space}
use mup.Base.Text.Path.{dir_name}
use mup.Base.Dict.{Dict, lookup, insert, delete}
use mup.Base.Results.{Error, Result, ok, err}
use mup.Topology.{is_empty}

pub record Operation : Type 0 where
  pub id : Text
  pub operation_type : Text
  pub target : Text
  pub details : Text
  pub result : Text
  pub error : Text

pub record SimulatedFile : Type 0 where
  pub path : Text
  pub content : Text
  pub mode : ℕ

pub record SimulatedDirectory : Type 0 where
  pub path : Text
  pub mode : ℕ

pub data ProcessState : Type 0 where
  running : ProcessState
  stopped : ProcessState
  failed : ProcessState

pub record SimulatedProcess : Type 0 where
  pub pid : ℕ
  pub command : Text
  pub args : List Text
  pub state : ProcessState

pub record ConfiguredFailure : Type 0 where
  pub operation : Text
  pub target : Text
  pub error : Text

pub record Config : Type 0 where
  pub responses : Dict Text
  pub failures : List ConfiguredFailure
  pub allow_real_file_reads : Bool
  pub existing_files : Dict Text
  pub existing_directories : List Text
  pub running_processes : List Text

abbrev pub Processes : Type 0
Processes = List (ℕ × SimulatedProcess)

pub record SimulationState : Type 0 where
  pub operations : List Operation
  pub files : Dict SimulatedFile
  pub dirs : Dict SimulatedDirectory
  pub processes : Processes
  pub next_pid : ℕ

unfoldable pub find_process : ℕ → Processes → Option SimulatedProcess
find_process pid [] = none
find_process pid ((other, p) ∷ ps) =
    let rest = find_process pid ps in if other == pid then some p else rest

unfoldable pub put_process : ℕ → SimulatedProcess → Processes → Processes
put_process pid p [] = (pid, p) ∷ []
put_process pid p ((other, q) ∷ ps) =
    let rest = put_process pid p ps in if other == pid then (pid, p) ∷ ps else (other, q) ∷ rest

unfoldable pub new_simulation_state : SimulationState
new_simulation_state = record {
  operations = [];
  files = [];
  dirs = [];
  processes = [];
  next_pid = 1000;
}

abbrev pub pad_zeros : ℕ → Text → Text
pad_zeros zero t = t
pad_zeros (suc n) t = b'0' ∷ pad_zeros n t

unfoldable pub pad_left : ℕ → ℕ → Text
pad_left n width = pad_zeros (width - length (show_nat n)) (show_nat n)

unfoldable pub generate_operation_id : ℕ → Text
generate_operation_id index = codes "op-" ++ pad_left (index + 1) 4

unfoldable pub add_operation : Text → Text → Text → Text → Text → SimulationState → SimulationState
add_operation type target details result error s = record s {
  operations =
      s.operations
      ++ record {
        id = generate_operation_id (length s.operations);
        operation_type = type;
        target = target;
        details = details;
        result = result;
        error = error;
      }
        ∷ [];
}

unfoldable pub record_operation : Text → Text → Text → SimulationState → SimulationState
record_operation type target details = add_operation type target details (codes "success") []

unfoldable pub record_failure : Text → Text → Text → Text → SimulationState → SimulationState
record_failure type target details error = add_operation type target details (codes "failure") error

-- AllocatePID, with the next number.
unfoldable pub allocate_pid : SimulationState → ℕ × SimulationState
allocate_pid s = (s.next_pid, record s { next_pid = suc s.next_pid })

unfoldable pub find_failure : Text → Text → List ConfiguredFailure → Option Text
find_failure operation target [] = none
find_failure operation target (f ∷ failures) =
    let rest = find_failure operation target failures in
    if text_eq f.operation operation && text_eq f.target target then some f.error else rest

unfoldable pub should_fail : Config → Text → Text → Option Text
should_fail c operation target = find_failure operation target c.failures

unfoldable pub get_response : Config → Text → Text
get_response c command = elim (lookup command c.responses) [ none ↦ [] | some r ↦ r ]

unfoldable pub set_response : Text → Text → Config → Config
set_response command response c = record c { responses = insert command response c.responses }

unfoldable pub set_failure : Text → Text → Text → Config → Config
set_failure operation target message c = record c {
  failures = c.failures ++ record { operation = operation; target = target; error = message } ∷ [];
}

-- strings.Fields
unfoldable pub words : Text → List Text
words [] = [] ∷ []
words (c ∷ s) = let rest = words s in if is_space c then [] ∷ rest else push_front c rest

unfoldable pub without_empty : List Text → List Text
without_empty [] = []
without_empty (t ∷ ts) = let rest = without_empty ts in if is_empty t then rest else t ∷ rest

unfoldable pub fields : Text → List Text
fields s = without_empty (words s)

unfoldable pub is_top : Text → Bool
is_top path = text_eq path (codes ".") || text_eq path (codes "/")

unfoldable pub ensure_dir : ℕ → Text → Dict SimulatedDirectory → Dict SimulatedDirectory
ensure_dir mode path dirs = elim (lookup path dirs) [
  | none ↦ insert path (record { path = path; mode = mode }) dirs
  | some d ↦ dirs
]

-- The loop of CreateDirectory, on fuel. A path and its separator never equal the path.
unfoldable pub create_parents : ℕ → ℕ → Text → Dict SimulatedDirectory → Dict SimulatedDirectory
create_parents zero mode path dirs = dirs
create_parents (suc fuel) mode path dirs =
    let rest = create_parents fuel mode (dir_name path) (ensure_dir mode path dirs) in
    if is_top path then dirs else rest

abbrev pub dir_fuel : Text → ℕ
dir_fuel path = length path + 2
