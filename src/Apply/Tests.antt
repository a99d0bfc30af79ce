-- ===== src/Apply/Tests.antt =====
-- A plan with a failing operation, run in a small world, and the theorems at such runs.
use mathlib.Core.List.{flatten}
use mathlib.Core.List.Perm
use mup.Base.{ℕ, ◌+◌, ◌≡◌, ◌≢◌, refl, Bool, true, false, List, [], ◌∷◌, none, some, if◌then◌else◌}
use mup.Base.Text.{Text, codes, text_eq, show_nat}
use mup.Base.Dict.{lookup, insert}
use mup.Base.Results.{ok, err}
use mup.Plan.{Plan, PlannedPhase, PlannedOperation, create_directory}
use mup.Apply.{
  completed, new_apply_state, update_status, log, start_phase, complete_phase, fail_phase,
  start_operation, complete_operation, fail_operation, can_resume,
}
use mup.Apply.Env.{
  Env, World, update, save_state, call, on_failure, wrap_error, ◌>>◌, get_plan_path,
}
use mup.Apply.Hooks.{execute_custom_hook, execute_hook, show_status}
use mup.Apply.Checkpoints.{
  create_checkpoint_file, write_checkpoint, add_checkpoint, checkpoint_id_at,
}
use mup.Apply.Applier.{
  group_operations_by_parallelization, find_phase_index, execute_operation, begin_operation,
  refuse_operation, abort_operation, finish_operation, run_operation, note_operation, note_phase,
  execute_sequential, execute_all, execute_parallel, execute_operation_group, execute_groups,
  run_phase_hook, finish_phase, run_phase, execute_phase, run_apply_hook, set_status,
  save_or_give_up, fail_apply, pause_apply, complete_apply, apply_phases, start_apply, apply,
  fail_resume, complete_resume, resume_phases, resume_plan, load_and_resume, resume,
}
use mup.Apply.Applier.Groups.{AreGroups, AreSeparate, group_operations_correct}
use mup.Apply.Applier.Progress.{status_of, ending, ops_of}
use mup.Apply.Applier.Records.{execute_operation-Recorded}
use mup.Apply.Applier.Completion.{operations_of, Ends, apply-Ends}
use mup.Apply.{ApplyState}
use mup.Apply.Store.{
  Listing, entries, list_states, states_of, is_skipped, extension, latest_from, get_current_state,
  mark_restored, restore_from_checkpoint,
}
use mup.Apply.Store.Latest
use mup.Apply.Store.Latest.{get_current_state-Ends}
use mup.Apply.Store.Restored.{IsRestored, restore_from_checkpoint-IsRestored}

program : Unit {0}
unfolding text_eq show_nat lookup insert new_apply_state update_status log start_phase
    complete_phase fail_phase start_operation complete_operation fail_operation can_resume update
    save_state call on_failure wrap_error ◌>>◌ get_plan_path execute_custom_hook execute_hook
    show_status create_checkpoint_file write_checkpoint add_checkpoint checkpoint_id_at
    group_operations_by_parallelization find_phase_index execute_operation begin_operation
    refuse_operation abort_operation finish_operation run_operation note_operation note_phase
    execute_sequential execute_all execute_parallel execute_operation_group execute_groups
    run_phase_hook finish_phase run_phase execute_phase run_apply_hook set_status save_or_give_up
    fail_apply pause_apply complete_apply apply_phases start_apply apply fail_resume complete_resume
    resume_phases resume_plan load_and_resume resume
program = tt

abbrev make_op : Text → Bool → PlannedOperation
make_op id parallel = record {
  id = id;
  operation_type = create_directory;
  description = codes "d";
  target = record { kind = codes "host"; name = codes "a"; host = codes "a"; port = 22 };
  pre_conditions = [];
  depends_on = [];
  parallel = parallel;
}

abbrev sample_ops : List PlannedOperation
sample_ops =
    make_op (codes "a") false
    ∷ make_op (codes "b") true
    ∷ make_op (codes "c") true
    ∷ make_op (codes "d") false
    ∷ []

abbrev make_phase : Text → List PlannedOperation → PlannedPhase
make_phase name ops = record {
  name = name;
  description = [];
  order = 0;
  operations = ops;
  before_hook = none;
  after_hook = none;
  estimated_duration = [];
}

abbrev make_plan : List PlannedPhase → Plan
make_plan phases = record {
  plan_id = codes "p";
  operation = codes "deploy";
  cluster_name = codes "c";
  created_at = 0;
  version = [];
  variant = [];
  topology_file = [];
  validation = record { valid = true; errors = []; warnings = []; checks = [] };
  phases = phases;
  dry_run = false;
  environment = [];
}

abbrev good_plan : Plan
good_plan = make_plan (make_phase (codes "prepare") sample_ops ∷ [])

abbrev bad_plan : Plan
bad_plan = make_plan (
    make_phase (codes "prepare") sample_ops
    ∷ make_phase (codes "deploy") (make_op (codes "x") false ∷ [])
    ∷ [])

-- The world is a clock. The operation "x" fails.
abbrev small : Env ℕ
small = record {
  clock = λ t. (t, t + 1);
  new_uuid = λ t. (codes "s", t);
  make_dir = λ path t. (none, t);
  write_state = λ path s t. (none, t);
  load_plan = λ path t. (ok bad_plan, t);
  run_command = λ hook vars t. (([], none), t);
  validate = λ op t. (none, t);
  execute = λ op t. (
    if text_eq op.id (codes "x")
        then err (codes "no disk")
        else ok (record { success = true; output = [] }),
    t,
  );
  arrange = λ ops t. ops;
  arrange_perm = λ ops t. Perm.refl ops;
  is_paused = λ t. false;
  hooks = λ event. none;
  cluster_dir = codes "/c";
}

good_plan_completes : (apply small good_plan 0).1.state.status ≡ completed
unfolding program
good_plan_completes = refl

bad_plan_fails :
    (apply small bad_plan 0).0.error
    ≡ some (codes "phase deploy failed: operation group 0 failed: operation x failed: no disk")
unfolding program
bad_plan_fails = refl

abbrev after_failure : World ℕ
after_failure = (apply small bad_plan 0).1

group_operations_correct_example :
    (flatten (group_operations_by_parallelization sample_ops) ≡ sample_ops)
    × AreGroups (group_operations_by_parallelization sample_ops)
    × AreSeparate (group_operations_by_parallelization sample_ops)
group_operations_correct_example = group_operations_correct sample_ops

execute_operation-Recorded_example :
    (status_of (codes "x") (execute_operation small (make_op (codes "x") false) after_failure).1
      ≡ some (ending (execute_operation small (make_op (codes "x") false) after_failure).0))
    × ((j : Text)
        → codes "x" ≢ j
        → lookup j (ops_of (execute_operation small (make_op (codes "x") false) after_failure).1)
          ≡ lookup j (ops_of after_failure))
execute_operation-Recorded_example =
    execute_operation-Recorded small (make_op (codes "x") false) after_failure

apply-Ends_example : Ends (operations_of bad_plan.phases) (apply small bad_plan 0)
apply-Ends_example = apply-Ends small bad_plan 0

-- Two saved states, and a file that is none.
abbrev state_at : ℕ → ApplyState
state_at time = new_apply_state time (codes "s") (codes "p") (codes "c") (codes "deploy")

abbrev saved_states : Listing
saved_states = entries (
    record { name = codes "a.json"; is_dir = false; content = ok (state_at 5) }
    ∷ record { name = codes "b.json"; is_dir = false; content = ok (state_at 9) }
    ∷ record { name = codes "c.txt"; is_dir = false; content = ok (state_at 12) }
    ∷ record { name = codes "d.json"; is_dir = false; content = err (codes "bad") }
    ∷ [])

current_is_latest : get_current_state saved_states ≡ ok (some (state_at 9))
unfolding program get_current_state list_states states_of is_skipped extension latest_from
current_is_latest = refl

get_current_state-Ends_example : Latest.Ends saved_states (get_current_state saved_states)
get_current_state-Ends_example = get_current_state-Ends saved_states

abbrev restored : ApplyState
restored = (mark_restored small (codes "x") (record { state = state_at 5; outside = 0 })).state

restores : (restore_from_checkpoint small (ok (state_at 5)) (codes "x") 0).0 ≡ ok restored
unfolding program restore_from_checkpoint mark_restored
restores = refl

restore_from_checkpoint-IsRestored_example :
    (begin : ApplyState) × (ok (state_at 5) ≡ ok begin) × IsRestored begin restored
restore_from_checkpoint-IsRestored_example =
    restore_from_checkpoint-IsRestored small (ok (state_at 5)) (codes "x") 0 restored restores
