-- ===== src/Apply.antt =====
-- pkg/apply/state.go: the state that an apply keeps, and its methods.
-- A method takes the time that it reads from the clock as `now`; one that reads it twice gets one
-- reading. The mutex makes each method one step. Ids that the code draws from uuid are arguments.
pub mod Hooks
pub mod Env
pub mod Checkpoints
pub mod Applier
pub mod Store
mod Tests
use mup.Base.{
  ℕ, ◌≡◌, Bool, true, false, ◌||◌, List, [], ◌∷◌, ◌++◌, Option, none, some, if◌then◌else◌,
}
use mup.Base.Text.{Text, codes}
use mup.Base.Dict.{Dict, lookup, insert}
use mup.Base.Results.{Error}

pub data ApplyStatus : Type 0 where
  pending running paused completed failed rolled_back : ApplyStatus

pub record PhaseState : Type 0 where
  pub name : Text
  pub status : ApplyStatus
  pub started_at : Option ℕ
  pub completed_at : Option ℕ
  pub error : Text

-- The expected changes and the metadata of a result are left out.
pub record OperationResult : Type 0 where
  pub success : Bool
  pub output : Text

pub record OperationState : Type 0 where
  pub id : Text
  pub status : ApplyStatus
  pub started_at : Option ℕ
  pub completed_at : Option ℕ
  pub error : Text
  pub result : Option OperationResult
  pub retries : ℕ

pub record Checkpoint : Type 0 where
  pub id : Text
  pub description : Text
  pub timestamp : ℕ
  pub phase : Text
  pub operation : Text
  pub state_path : Text

pub record ExecutionError : Type 0 where
  pub timestamp : ℕ
  pub phase : Text
  pub operation : Text
  pub error : Text
  pub recoverable : Bool

pub data Level : Type 0 where
  info warn error debug : Level

pub record LogEntry : Type 0 where
  pub timestamp : ℕ
  pub level : Level
  pub phase : Text
  pub operation : Text
  pub message : Text

pub record ApplyState : Type 0 where
  pub state_id : Text
  pub plan_id : Text
  pub cluster_name : Text
  pub operation : Text
  pub status : ApplyStatus
  pub started_at : ℕ
  pub updated_at : ℕ
  pub completed_at : Option ℕ
  pub current_phase : Text
  pub phase_states : Dict PhaseState
  pub operation_states : Dict OperationState
  pub checkpoints : List Checkpoint
  pub errors : List ExecutionError
  pub execution_log : List LogEntry

unfoldable pub new_apply_state : ℕ → Text → Text → Text → Text → ApplyState
new_apply_state now state_id plan_id cluster_name operation = record {
  state_id = state_id;
  plan_id = plan_id;
  cluster_name = cluster_name;
  operation = operation;
  status = pending;
  started_at = now;
  updated_at = now;
  completed_at = none;
  current_phase = [];
  phase_states = [];
  operation_states = [];
  checkpoints = [];
  errors = [];
  execution_log = [];
}

-- The statuses after which nothing more happens; `is_complete` tests the same three.
abbrev pub is_final : ApplyStatus → Bool
is_final completed = true
is_final failed = true
is_final rolled_back = true
is_final _ = false

unfoldable pub update_status : ℕ → ApplyStatus → ApplyState → ApplyState
update_status now status s =
    let t = record s { status = status; updated_at = now } in
    if is_final status then record t { completed_at = some now } else t

unfoldable pub log : ℕ → Level → Text → Text → Text → ApplyState → ApplyState
log now level phase operation message s =
    let entry : LogEntry = record {
      timestamp = now;
      level = level;
      phase = phase;
      operation = operation;
      message = message;
    } in
    record s { execution_log = s.execution_log ++ entry ∷ []; updated_at = now }

unfoldable pub start_phase : ℕ → Text → ApplyState → ApplyState
unfolding log
start_phase now name s =
    let started : PhaseState = record {
      name = name;
      status = running;
      started_at = some now;
      completed_at = none;
      error = [];
    } in
    log now info name [] (codes "Starting phase: " ++ name) (record s {
      current_phase = name;
      phase_states = insert name started s.phase_states;
      updated_at = now;
    })

-- Writes through the pointer that the map holds; a missing key changes nothing.
abbrev pub adjust {ℓ} : {V : Type ℓ} → Text → (V → V) → Dict V → Dict V
adjust k f m = elim (lookup k m) [ none ↦ m | some v ↦ insert k (f v) m ]

unfoldable pub complete_phase : ℕ → Text → ApplyState → ApplyState
unfolding log
complete_phase now name s = log now info name [] (codes "Completed phase: " ++ name) (record s {
  phase_states =
      adjust name (λ p. record p { status = completed; completed_at = some now }) s.phase_states;
  updated_at = now;
})

unfoldable pub fail_phase : ℕ → Text → Error → ApplyState → ApplyState
unfolding log
fail_phase now name err s =
    log now error name [] (codes "Phase failed: " ++ name ++ codes " - " ++ err) (record s {
      phase_states =
          adjust name (λ p. record p { status = failed; completed_at = some now; error = err })
            s.phase_states;
      updated_at = now;
    })

unfoldable pub start_operation : ℕ → Text → ApplyState → ApplyState
start_operation now id s =
    let started : OperationState = record {
      id = id;
      status = running;
      started_at = some now;
      completed_at = none;
      error = [];
      result = none;
      retries = 0;
    } in
    record s { operation_states = insert id started s.operation_states; updated_at = now }

unfoldable pub complete_operation : ℕ → Text → OperationResult → ApplyState → ApplyState
complete_operation now id result s = record s {
  operation_states =
      adjust id
        (λ o. record o { status = completed; completed_at = some now; result = some result })
        s.operation_states;
  updated_at = now;
}

unfoldable pub fail_operation : ℕ → Text → Error → Bool → ApplyState → ApplyState
fail_operation now id err recoverable s =
    let failure : ExecutionError = record {
      timestamp = now;
      phase = s.current_phase;
      operation = id;
      error = err;
      recoverable = recoverable;
    } in
    record s {
      operation_states =
          adjust id (λ o. record o { status = failed; completed_at = some now; error = err })
            s.operation_states;
      errors = s.errors ++ failure ∷ [];
      updated_at = now;
    }

unfoldable pub create_checkpoint : ℕ → Text → Text → Text → ApplyState → ApplyState
unfolding log
create_checkpoint now id description state_path s =
    let checkpoint : Checkpoint = record {
      id = id;
      description = description;
      timestamp = now;
      phase = s.current_phase;
      operation = [];
      state_path = state_path;
    } in
    log now info s.current_phase [] (codes "Checkpoint created: " ++ description)
      (record s { checkpoints = s.checkpoints ++ checkpoint ∷ [] })

unfoldable pub get_last : List Checkpoint → Option Checkpoint
get_last [] = none
get_last (c ∷ []) = some c
get_last (c ∷ d ∷ rest) = get_last (d ∷ rest)

unfoldable pub get_last_checkpoint : ApplyState → Option Checkpoint
unfolding get_last
get_last_checkpoint s = get_last s.checkpoints

unfoldable pub is_complete : ApplyState → Bool
is_complete s = is_final s.status

abbrev pub is_resumable : ApplyStatus → Bool
is_resumable paused = true
is_resumable failed = true
is_resumable _ = false

unfoldable pub can_resume : ApplyState → Bool
can_resume s = is_resumable s.status

-- (completed, total)
unfoldable pub get_phase_progress : Text → ApplyState → ℕ × ℕ
get_phase_progress name s = elim (lookup name s.phase_states) [
  | none ↦ (0, 1)
  | some p ↦ elim p.status [ completed ↦ (1, 1) | _ ↦ (0, 1) ]
]
