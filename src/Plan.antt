-- ===== src/Plan.antt =====
-- pkg/plan/plan.go: plans, their phases and operations, and the queries over them.
-- Fields of type `interface{}` (Params, Config, Changes, Details) and the topology and resource
-- estimate that a plan carries are left out: no function modelled here reads them.
pub mod Queries
pub mod Validator
pub mod Store
mod Tests
use mup.Base.{ℕ, ◌+◌, Bool, List, [], ◌∷◌, Option, none, some, length, ltb, if◌then◌else◌}
use mup.Base.Text.{Text, text_eq}
use mup.Base.Dict.{Dict}

pub data OperationType : Type 0 where
  download_binary copy_binary create_directory create_symlink upload_file : OperationType
  generate_config generate_supervisor_config start_supervisor start_process : OperationType
  wait_for_process init_replica_set add_shard verify_health save_metadata : OperationType
  stop_process remove_directory backup_data restore_data set_fcv wait_for_ready : OperationType
  drain_node import_data validate_data : OperationType

-- `kind` is the field `Type`.
pub record OperationTarget : Type 0 where
  pub kind : Text
  pub name : Text
  pub host : Text
  pub port : ℕ

pub record SafetyCheck : Type 0 where
  pub id : Text
  pub description : Text
  pub check_type : Text
  pub target : Text
  pub required : Bool

pub record PlannedOperation : Type 0 where
  pub id : Text
  pub operation_type : OperationType
  pub description : Text
  pub target : OperationTarget
  pub pre_conditions : List SafetyCheck
  pub depends_on : List Text
  pub parallel : Bool

pub record Hook : Type 0 where
  pub name : Text
  pub command : Text
  pub timeout : ℕ
  pub environment : Dict Text
  pub continue_on_error : Bool

pub data HookEvent : Type 0 where
  before_plan after_plan before_apply after_apply before_phase after_phase : HookEvent
  before_operation after_operation on_error on_success : HookEvent

pub record PlannedPhase : Type 0 where
  pub name : Text
  pub description : Text
  pub order : ℕ
  pub operations : List PlannedOperation
  pub before_hook : Option Hook
  pub after_hook : Option Hook
  pub estimated_duration : Text

pub data Severity : Type 0 where
  error warning info : Severity

pub record ValidationIssue : Type 0 where
  pub code : Text
  pub message : Text
  pub host : Text
  pub severity : Severity

-- A status other than the three is neither an error nor a warning.
pub data CheckStatus : Type 0 where
  passed failed warned : CheckStatus
  other : Text → CheckStatus

pub record CheckResult : Type 0 where
  pub name : Text
  pub status : CheckStatus
  pub message : Text
  pub host : Text
  pub duration : ℕ

pub record ValidationResult : Type 0 where
  pub valid : Bool
  pub errors : List ValidationIssue
  pub warnings : List ValidationIssue
  pub checks : List CheckResult

pub record Plan : Type 0 where
  pub plan_id : Text
  pub operation : Text
  pub cluster_name : Text
  pub created_at : ℕ
  pub version : Text
  pub variant : Text
  pub topology_file : Text
  pub validation : ValidationResult
  pub phases : List PlannedPhase
  pub dry_run : Bool
  pub environment : Dict Text

unfoldable pub is_valid : Plan → Bool
is_valid p = p.validation.valid

unfoldable pub has_errors : Plan → Bool
has_errors p = ltb 0 (length p.validation.errors)

unfoldable pub has_warnings : Plan → Bool
has_warnings p = ltb 0 (length p.validation.warnings)

-- The loop with its accumulator.
unfoldable pub total_from : ℕ → List PlannedPhase → ℕ
total_from total [] = total
total_from total (phase ∷ phases) = total_from (total + length phase.operations) phases

unfoldable pub total_operations : Plan → ℕ
unfolding total_from
total_operations p = total_from 0 p.phases

unfoldable pub find_operation : Text → List PlannedOperation → Option PlannedOperation
find_operation id [] = none
find_operation id (op ∷ ops) = if text_eq op.id id then some op else find_operation id ops

unfoldable pub find_in_phases : Text → List PlannedPhase → Option PlannedOperation
unfolding find_operation
find_in_phases id [] = none
find_in_phases id (phase ∷ phases) = elim (find_operation id phase.operations) [
  | some op ↦ some op
  | none ↦ find_in_phases id phases
]

unfoldable pub get_operation_by_id : Plan → Text → Option PlannedOperation
unfolding find_in_phases
get_operation_by_id p id = find_in_phases id p.phases

unfoldable pub find_phase : Text → List PlannedPhase → Option PlannedPhase
find_phase name [] = none
find_phase name (phase ∷ phases) =
    if text_eq phase.name name then some phase else find_phase name phases

unfoldable pub get_phase_by_name : Plan → Text → Option PlannedPhase
unfolding find_phase
get_phase_by_name p name = find_phase name p.phases
