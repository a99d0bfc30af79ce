-- ===== src/Plan/Tests.antt =====
-- A plan of two phases, and the theorem on its queries.
use mup.Base.{◌≡◌, refl, true, false, List, [], ◌∷◌, none, some, length}
use mup.Base.Text.{Text, codes, text_eq}
use mup.Plan.{
  Plan, PlannedPhase, PlannedOperation, create_directory, total_operations, total_from,
  get_operation_by_id, find_in_phases, find_operation,
}
use mup.Plan.Queries.{operations_of, Finds, get_operation_by_id-Finds}
use mathlib.Core.List.{flatten}
use mup.Base.{map, ◌↔◌, false}
use mup.Plan.{CheckStatus, CheckResult, passed, warned, failed}
use mup.Plan.Validator.{
  run_validators, combine_validation_results, combine_from, note_checks, note_check, note_status,
}
use mup.Plan.Validator.Combination.{NoneFailed, combine_validation_results-run_validators}

abbrev small_op : Text → Text → PlannedOperation
small_op id host = record {
  id = id;
  operation_type = create_directory;
  description = [];
  target = record { kind = codes "host"; name = host; host = host; port = 22 };
  pre_conditions = [];
  depends_on = [];
  parallel = false;
}

abbrev small_phase : Text → List PlannedOperation → PlannedPhase
small_phase name ops = record {
  name = name;
  description = [];
  order = 0;
  operations = ops;
  before_hook = none;
  after_hook = none;
  estimated_duration = [];
}

abbrev small_plan : Plan
small_plan = record {
  plan_id = codes "p";
  operation = codes "deploy";
  cluster_name = codes "c";
  created_at = 0;
  version = [];
  variant = [];
  topology_file = [];
  validation = record { valid = true; errors = []; warnings = []; checks = [] };
  phases =
      small_phase (codes "prepare") (small_op (codes "a") (codes "h1") ∷ [])
      ∷ small_phase (codes "deploy")
          (small_op (codes "b") (codes "h1") ∷ small_op (codes "b") (codes "h2") ∷ [])
      ∷ [];
  dry_run = false;
  environment = [];
}

first_b : get_operation_by_id small_plan (codes "b") ≡ some (small_op (codes "b") (codes "h1"))
unfolding get_operation_by_id find_in_phases find_operation text_eq
first_b = refl

three_operations : total_operations small_plan ≡ 3
unfolding total_operations total_from
three_operations = refl

get_operation_by_id-Finds_example :
    (total_operations small_plan ≡ length (operations_of small_plan.phases))
    × Finds
        (codes "b")
        (operations_of small_plan.phases)
        (get_operation_by_id small_plan (codes "b"))
get_operation_by_id-Finds_example = get_operation_by_id-Finds small_plan (codes "b")

abbrev small_check : CheckStatus → CheckResult
small_check status = record {
  name = codes "disk";
  status = status;
  message = [];
  host = [];
  duration = 0;
}

abbrev two_runs : List (List CheckResult)
two_runs = (small_check passed ∷ small_check warned ∷ []) ∷ (small_check failed ∷ []) ∷ []

combined_is_invalid : (combine_validation_results (map run_validators two_runs)).valid ≡ false
unfolding combine_validation_results combine_from run_validators note_checks note_check note_status
combined_is_invalid = refl

combine_validation_results-run_validators_example :
    (combine_validation_results (map run_validators two_runs) ≡ run_validators (flatten two_runs))
    × (((combine_validation_results (map run_validators two_runs)).valid ≡ true)
        ↔ NoneFailed (flatten two_runs))
combine_validation_results-run_validators_example =
    combine_validation_results-run_validators two_runs
