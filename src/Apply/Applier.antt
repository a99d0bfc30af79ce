-- ===== src/Apply/Applier.antt =====
-- pkg/apply/applier.go: `DefaultApplier`. The state and the world are passed from step to step.
-- An operation of a parallel group takes effect as one step, and the environment picks the order.
pub mod Groups
pub mod Progress
pub mod Records
pub mod Quiet
pub mod Contract
pub mod Completion
pub mod Resumption
use mup.Base.{
  ℕ, zero, suc, ◌+◌, ◌≡◌, Bool, true, false, ◌&&◌, List, [], ◌∷◌, ◌++◌, Option, none, some, ltb,
  length, if◌then◌else◌,
}
use mup.Base.Text.{Text, codes, text_eq, show_nat}
use mup.Base.Results.{Error, Result, ok, err}
use mup.Plan.{
  Plan, PlannedPhase, PlannedOperation, Hook, HookEvent, before_apply, after_apply, on_error,
  on_success,
}
use mup.Apply.{
  ApplyState, ApplyStatus, Level, OperationResult, pending, running, paused, completed, failed,
  info, warn, error, new_apply_state, update_status, log, start_phase, complete_phase, fail_phase,
  start_operation, complete_operation, fail_operation, can_resume,
}
use mup.Apply.Env.{
  Env, World, Action, ◌>>◌, wrap_error, on_failure, call, update, save_state, get_plan_path,
}
use mup.Apply.Hooks.{execute_custom_hook, execute_hook, show_status}
use mup.Apply.Checkpoints.{create_checkpoint_file}

-- A group is closed: put it behind the finished ones unless it is empty.
abbrev close_group :
    List (List PlannedOperation) → List PlannedOperation → List (List PlannedOperation)
close_group groups [] = groups
close_group groups (op ∷ ops) = groups ++ (op ∷ ops) ∷ []

-- `op.Parallel && len(currentGroup) > 0 && currentGroup[0].Parallel`
abbrev joins : PlannedOperation → List PlannedOperation → Bool
joins op [] = false
joins op (first ∷ _) = op.parallel && first.parallel

-- The loop, with the finished groups and the current one.
unfoldable pub group_from :
    List (List PlannedOperation)
    → List PlannedOperation
    → List PlannedOperation
    → List (List PlannedOperation)
group_from groups current [] = close_group groups current
group_from groups current (op ∷ ops) =
    group_from (if joins op current then groups else close_group groups current)
      (if joins op current then current ++ op ∷ [] else op ∷ []) ops

unfoldable pub group_operations_by_parallelization :
    List PlannedOperation → List (List PlannedOperation)
unfolding group_from
group_operations_by_parallelization ops = group_from [] [] ops

-- The position of the first phase of that name, and the phases from there on.
unfoldable pub find_phase_index : Text → List PlannedPhase → Option (List PlannedPhase)
find_phase_index name [] = none
find_phase_index name (phase ∷ phases) =
    if text_eq phase.name name then some (phase ∷ phases) else find_phase_index name phases

-- `if res.err != nil && firstError == nil`
abbrev pub first_error : Option Error → Option Error → Option Error
first_error none e = e
first_error (some d) _ = some d

-- `operations[0].Parallel && len(operations) > 1`
abbrev pub is_parallel : List PlannedOperation → Bool
is_parallel [] = false
is_parallel (op ∷ ops) = op.parallel && ltb 1 (length (op ∷ ops))

-- What `Apply` and `Resume` return.
pub record Outcome : Type 0 where
  pub state : Option ApplyState
  pub error : Option Error

abbrev pub phase_failed : PlannedPhase → Error → Error
phase_failed phase e = codes "phase " ++ phase.name ++ codes " failed: " ++ e

abbrev pub give_up : {W : Type 0} → Error → World W → Outcome × World W
give_up e w = (record { state = none; error = some e }, w)

module _ {W : Type 0} (env : Env W) where
  -- A log line about an operation, in the current phase.
  unfoldable pub note_operation : Level → PlannedOperation → Text → World W → World W
  note_operation level op message =
      update env (λ now s. log now level s.current_phase op.id message s)

  -- A log line about a phase.
  unfoldable pub note_phase : Level → Text → Text → World W → World W
  note_phase level phase message = update env (λ now s. log now level phase [] message s)

  -- The three endings of an operation, each with a save that may fail with no more than a line.
  unfoldable pub refuse_operation : PlannedOperation → Error → Action W
  refuse_operation op e w = (
    some (codes "operation " ++ op.id ++ codes " pre-condition check failed: " ++ e),
    on_failure (λ x. note_operation error op (codes "failed to save state: " ++ x)) (save_state env)
        (update env
          (λ now s. fail_operation now op.id (codes "pre-condition check failed: " ++ e) true s) w),
  )

  unfoldable pub abort_operation : PlannedOperation → Error → Action W
  abort_operation op e w = (
    some (codes "operation " ++ op.id ++ codes " failed: " ++ e),
    on_failure (λ x. note_operation error op (codes "failed to save state: " ++ x)) (save_state env)
        (update env (λ now s. fail_operation now op.id e false s) w),
  )

  unfoldable pub finish_operation : PlannedOperation → OperationResult → Action W
  finish_operation op result w = (
    none,
    on_failure (λ x. note_operation warn op (codes "failed to save state: " ++ x)) (save_state env)
        (note_operation info op (codes "Completed: " ++ op.description)
          (update env (λ now s. complete_operation now op.id result s) w)),
  )

  -- `executor.Execute` and what follows it.
  unfoldable pub run_operation : PlannedOperation → Action W
  run_operation op w =
      let (result, v) = env.execute op w.outside in
      elim result [
        | err e ↦ abort_operation op e (record w { outside = v })
        | ok r ↦ finish_operation op r (record w { outside = v })
      ]

  -- `StartOperation` and the first log line.
  unfoldable pub begin_operation : PlannedOperation → World W → World W
  begin_operation op w =
      note_operation info op (codes "Executing: " ++ op.description)
        (update env (λ now s. start_operation now op.id s) w)

  unfoldable pub execute_operation : PlannedOperation → Action W
  execute_operation op w =
      let w1 = begin_operation op w in
      let (bad, v) = env.validate op w1.outside in
      elim bad [
        | some e ↦ refuse_operation op e (record w1 { outside = v })
        | none ↦ run_operation op (record w1 { outside = v })
      ]

  -- Stops at the first error.
  unfoldable pub execute_sequential : List PlannedOperation → Action W
  execute_sequential [] w = (none, w)
  execute_sequential (op ∷ ops) w = (execute_operation op >> execute_sequential ops) w

  -- Runs them all, and keeps the first error.
  unfoldable pub execute_all : List PlannedOperation → Option Error → Action W
  execute_all [] e w = (e, w)
  execute_all (op ∷ ops) e w =
      let (x, w') = execute_operation op w in execute_all ops (first_error e x) w'

  unfoldable pub execute_parallel : List PlannedOperation → Action W
  execute_parallel ops w = execute_all (env.arrange ops w.outside) none w

  unfoldable pub execute_operation_group : List PlannedOperation → Action W
  execute_operation_group ops w = elim (is_parallel ops) [
    | true ↦ execute_parallel ops w
    | false ↦ execute_sequential ops w
  ]

  unfoldable pub execute_groups : ℕ → List (List PlannedOperation) → Action W
  execute_groups index [] w = (none, w)
  execute_groups index (group ∷ groups) w =
      (wrap_error (λ e. codes "operation group " ++ show_nat index ++ codes " failed: " ++ e)
            (execute_operation_group group)
          >> execute_groups (index + 1) groups)
        w

  -- The hook before or after a phase; `which` is part of the messages.
  unfoldable pub run_phase_hook : Text → Option Hook → PlannedPhase → Plan → Action W
  run_phase_hook which none phase p w = (none, w)
  run_phase_hook which (some hook) phase p w =
      let (result, w') = execute_custom_hook env hook p w in
      elim result [
        | none ↦ (none, w')
        | some e ↦
            if hook.continue_on_error
            then (
              none,
              note_phase warn phase.name (which ++ codes " hook failed but continuing: " ++ e) w',
            )
            else (some (which ++ codes " hook failed: " ++ e), w')
      ]

  -- The checkpoint, the mark and the save that end a phase.
  unfoldable pub finish_phase : PlannedPhase → Action W
  finish_phase phase w =
      wrap_error (λ e. codes "failed to save state after phase: " ++ e) (save_state env)
        (update env (λ now s. complete_phase now phase.name s)
          (on_failure (λ e. note_phase warn phase.name (codes "failed to create checkpoint: " ++ e))
            (create_checkpoint_file env (codes "Completed phase: " ++ phase.name)) w))

  unfoldable pub run_phase : PlannedPhase → Plan → Action W
  run_phase phase p =
      run_phase_hook (codes "before_phase") phase.before_hook phase p
      >> execute_groups 0 (group_operations_by_parallelization phase.operations)
      >> run_phase_hook (codes "after_phase") phase.after_hook phase p
      >> finish_phase phase

  unfoldable pub execute_phase : PlannedPhase → Plan → Action W
  execute_phase phase p w = run_phase phase p (update env (λ now s. start_phase now phase.name s) w)

  -- A hook of the whole apply, whose failure is only logged.
  unfoldable pub run_apply_hook : HookEvent → Text → Text → Plan → World W → World W
  run_apply_hook event which phase p =
      on_failure (λ e. note_phase error phase (which ++ codes " hook failed: " ++ e))
        (execute_hook env event p)

  unfoldable pub set_status : ApplyStatus → World W → World W
  set_status status = update env (λ now s. update_status now status s)

  -- What `Apply` does when a phase fails.
  unfoldable pub fail_apply : PlannedPhase → Error → Plan → World W → Outcome × World W
  fail_apply phase e p w =
      let w1 = update env (λ now s. fail_phase now phase.name e s) (set_status failed w) in
      let w2 =
        on_failure (λ x. note_phase error phase.name (codes "failed to save state: " ++ x))
          (save_state env) w1 in
      let w3 = run_apply_hook on_error (codes "on_error") phase.name p w2 in
      (record { state = some w3.state; error = some (phase_failed phase e) }, w3)

  -- A save whose failure is returned with no state; otherwise the rest.
  unfoldable pub save_or_give_up :
      Text → (World W → Outcome × World W) → World W → Outcome × World W
  save_or_give_up message rest w =
      let (e, w') = save_state env w in
      elim e [
        | some x ↦ (record { state = none; error = some (message ++ x) }, w')
        | none ↦ rest w'
      ]

  unfoldable pub pause_apply : World W → Outcome × World W
  pause_apply w =
      save_or_give_up (codes "failed to save paused state: ")
        (λ w'. (record { state = some w'.state; error = some (codes "apply paused by user") }, w'))
        (set_status paused w)

  unfoldable pub complete_apply : Plan → World W → Outcome × World W
  complete_apply p w =
      save_or_give_up (codes "failed to save completed state: ")
        (λ w1.
          let w2 = run_apply_hook after_apply (codes "after_apply") [] p w1 in
          let w3 = run_apply_hook on_success (codes "on_success") [] p w2 in
          (record { state = some w3.state; error = none }, w3))
        (set_status completed w)

  -- The loop over the phases, which looks for a pause after each.
  unfoldable pub apply_phases : List PlannedPhase → Plan → World W → Outcome × World W
  apply_phases [] p w = complete_apply p w
  apply_phases (phase ∷ phases) p w =
      let (e, w') = execute_phase phase p w in
      elim e [
        | some x ↦ fail_apply phase x p w'
        | none ↦ elim (env.is_paused w'.outside) [
          | true ↦ pause_apply w'
          | false ↦ apply_phases phases p w'
        ]
      ]

  -- The new state has the status `running` and an id drawn from `new_uuid`.
  unfoldable pub start_apply : Plan → W → World W
  start_apply p v =
      let (now, v1) = env.clock v in
      let (id, v2) = env.new_uuid v1 in
      set_status running (record {
        state = new_apply_state now id p.plan_id p.cluster_name p.operation;
        outside = v2;
      })

  unfoldable pub apply : Plan → W → Outcome × World W
  apply p v =
      save_or_give_up (codes "failed to save initial state: ")
        (λ w. apply_phases p.phases p (run_apply_hook before_apply (codes "before_apply") [] p w))
        (start_apply p v)

  -- `Resume` marks the failure of a phase by the status alone, and looks for no pause.
  unfoldable pub fail_resume : PlannedPhase → Error → World W → Outcome × World W
  fail_resume phase e w =
      let w1 =
        on_failure (λ x. note_phase error phase.name (codes "failed to save state: " ++ x))
          (save_state env) (set_status failed w) in
      (record { state = some w1.state; error = some (phase_failed phase e) }, w1)

  unfoldable pub complete_resume : World W → Outcome × World W
  complete_resume w =
      save_or_give_up (codes "failed to save completed state: ")
        (λ w1. (record { state = some w1.state; error = none }, w1)) (set_status completed w)

  unfoldable pub resume_phases : List PlannedPhase → Plan → World W → Outcome × World W
  resume_phases [] p w = complete_resume w
  resume_phases (phase ∷ phases) p w =
      let (e, w') = execute_phase phase p w in
      elim e [ some x ↦ fail_resume phase x w' | none ↦ resume_phases phases p w' ]

  -- The phases from the current one on, if the plan has it.
  unfoldable pub resume_plan : Plan → World W → Outcome × World W
  resume_plan p w = elim (find_phase_index w.state.current_phase p.phases) [
    | none ↦ give_up (codes "could not find current phase: " ++ w.state.current_phase) w
    | some phases ↦ resume_phases phases p w
  ]

  unfoldable pub load_and_resume : World W → Outcome × World W
  load_and_resume w =
      let (loaded, v) = env.load_plan (get_plan_path env w.state.plan_id) w.outside in
      elim loaded [
        | err e ↦ give_up (codes "failed to load plan: " ++ e) (record w { outside = v })
        | ok p ↦ resume_plan p (record w { outside = v })
      ]

  unfoldable pub resume : World W → Outcome × World W
  resume w = elim (can_resume w.state) [
    | false ↦ give_up (codes "cannot resume apply in status: " ++ show_status w.state.status) w
    | true ↦
        save_or_give_up (codes "failed to save resumed state: ") load_and_resume
          (set_status running w)
  ]
