-- ===== src/Apply/Applier/Contract.antt =====
-- What an action that returns no error has done: the operations on its list are completed, and
-- what was completed before still is.
use mathlib.Core.List.{flatten, append-nil, Mem, not-mem-nil, mem-append, mem-cons}
use mathlib.Core.List.Perm
use mathlib.Core.Logic.Or
use mathlib.Core.Path.{subst}
use mup.Base.{
  ℕ, ◌+◌, ◌≡◌, refl, ◌∙◌, List, [], ◌∷◌, ◌++◌, Option, none, some, inl, inr, arith, Bool-cases,
  Option-cases, if◌then◌else◌,
}
use mup.Base.Text.{Text, text_eq, text_eq_refl, codes}
use mup.Base.Results.{Error}
use mup.Plan.{Plan, PlannedPhase, PlannedOperation}
use mup.Apply.{completed, warn, start_phase, complete_phase, log}
use mup.Apply.Env.{Env, World, Action, update, save_state, wrap_error, ◌>>◌}
use mup.Apply.Checkpoints.{create_checkpoint_file}
use mup.Apply.Applier.{
  note_phase, execute_operation, execute_sequential, execute_all, first_error, execute_parallel,
  is_parallel, execute_operation_group, execute_groups, run_phase_hook, finish_phase, run_phase,
  execute_phase, group_operations_by_parallelization,
}
use mup.Apply.Applier.Groups.{Ops, group_operations_correct}
use mup.Apply.Applier.Progress.{IsDone, status_of, ops_of, execute_operation-status}
use mup.Apply.Applier.Quiet.{
  IsQuiet, run_phase_hook-Quiet, on_failure-Quiet, note_phase-Quiet, create_checkpoint_file-Quiet,
  wrap_error-Quiet, save_state-Quiet,
}

pub IsDone-prop : {W : Type 0} (id : Text) (w : World W) → IsProp (IsDone id w)
IsDone-prop id w = hlevel

abbrev pub AllDone : {W : Type 0} → Ops → World W → Type 0
AllDone ops w = (op : PlannedOperation) → Mem op ops → IsDone op.id w

abbrev pub Grows : {W : Type 0} → World W → World W → Type 0
Grows w w' = (id : Text) → IsDone id w → IsDone id w'

-- The contract of an action that runs the listed operations.
abbrev pub Completes : {W : Type 0} → Ops → Action W → Type 0
Completes {W} ops m = (w : World W) → (m w).0 ≡ none → AllDone ops (m w).1 × Grows w (m w).1

-- Rules.
module _ {W : Type 0} where
  AllDone-append : (xs ys : Ops) (w : World W) → AllDone xs w → AllDone ys w → AllDone (xs ++ ys) w
  AllDone-append xs ys w h k op m = Or.elim (IsDone-prop op.id w) (mem-append.0 m) (h op) (k op)

  >>-none :
      (m k : Action W) (w : World W)
      → ((m >> k) w).0 ≡ none
      → ((m w).0 ≡ none) × ((m >> k) w ≡ k (m w).1)
  unfolding ◌>>◌
  >>-none m k w h = elim (Option-cases (m w).0) [
    | inl e ↦ (e, rw (e, ◌>>◌))
    | inr (x, e) ↦ absurd (cc (rw (e, ◌>>◌) at h))
  ]

  wrap_error-none :
      (f : Error → Error) (m : Action W) (w : World W)
      → (wrap_error f m w).0 ≡ none
      → ((m w).0 ≡ none) × ((wrap_error f m w).1 ≡ (m w).1)
  unfolding wrap_error
  wrap_error-none f m w h = elim (Option-cases (m w).0) [
    | inl e ↦ (e, rw (e, wrap_error))
    | inr (x, e) ↦ absurd (cc (rw (e, wrap_error) at h))
  ]

  >>-Completes :
      (xs ys : Ops) (m k : Action W)
      → Completes xs m
      → Completes ys k
      → Completes (xs ++ ys) (m >> k)
  >>-Completes xs ys m k h i w e =
      let (first, same) = >>-none m k w e in
      let (done_xs, grows) = h w first in
      let (done_ys, grows') = i (m w).1 (rw same at e) in
      let all =
        AllDone-append xs ys (k (m w).1).1 (λ op at. grows' op.id (done_xs op at)) done_ys in
      rw same (all, λ id d. grows' id (grows id d))

  wrap_error-Completes :
      (xs : Ops) (f : Error → Error) (m : Action W) → Completes xs m → Completes xs (wrap_error f m)
  wrap_error-Completes xs f m h w e =
      let (first, same) = wrap_error-none f m w e in rw same (h w first)

  -- An action that changes no record of an operation.
  Completes-eq : {xs ys : Ops} (m : Action W) → xs ≡ ys → Completes xs m → Completes ys m
  Completes-eq m e h = subst (λ (l : Ops). Completes l m) e h

  Completes-Quiet : (m : Action W) → IsQuiet m → Completes [] m
  Completes-Quiet m h w e = (λ op at. absurd (not-mem-nil at), λ id d. rw (h w).same_operations d)

-- The parts of a phase.
module _ {W : Type 0} (env : Env W) where
  -- What `execute_operation-status` says of an operation that returned no error.
  completed_only :
      (op : PlannedOperation) (id : Text) (w : World W)
      → (execute_operation env op w).0 ≡ none
      → status_of id (execute_operation env op w).1
        ≡ (if text_eq op.id id then some completed else status_of id w)
  completed_only op id w e = ground (arith, execute_operation-status env op id w)

  execute_operation-Completes :
      (op : PlannedOperation) → Completes (op ∷ []) (execute_operation env op)
  execute_operation-Completes op w e =
      let w' = (execute_operation env op w).1 in
      (
        λ op' at.
            Or.elim (IsDone-prop op'.id w') (mem-cons.0 at)
              (λ same. rw same (completed_only op op.id w e ∙ (rw (text_eq_refl op.id))))
              (λ none_left. absurd (not-mem-nil none_left)),
        λ id d. ground (arith, completed_only op id w e),
      )

  execute_sequential-Completes : (ops : Ops) → Completes ops (execute_sequential env ops)
  unfolding execute_sequential
  execute_sequential-Completes [] w e = (λ op at. absurd (not-mem-nil at), λ id d. d)
  execute_sequential-Completes (op ∷ ops) w e =
      >>-Completes (op ∷ []) ops _ _ (execute_operation-Completes op)
        (execute_sequential-Completes ops) w e

  -- An error that was met is kept to the end.
  execute_all-none :
      (ops : Ops) (x : Option Error) (w : World W) → (execute_all env ops x w).0 ≡ none → x ≡ none
  unfolding execute_all
  execute_all-none [] x w e = e
  execute_all-none (op ∷ ops) none w e = refl
  execute_all-none (op ∷ ops) (some d) w e =
      execute_all-none ops (some d) (execute_operation env op w).1 e

  first_error-none : (x y : Option Error) → first_error x y ≡ none → y ≡ none
  first_error-none none y e = e
  first_error-none (some d) y e = cc

  execute_all-Completes : (ops : Ops) (x : Option Error) → Completes ops (execute_all env ops x)
  unfolding execute_all
  execute_all-Completes [] x w e = (λ op at. absurd (not-mem-nil at), λ id d. d)
  execute_all-Completes (op ∷ ops) x w e =
      let w' = (execute_operation env op w).1 in
      let y = (execute_operation env op w).0 in
      let first = first_error-none x y (execute_all-none ops (first_error x y) w' e) in
      let (done, grows) = execute_operation-Completes op w first in
      let (rest, grows') = execute_all-Completes ops (first_error x y) w' e in
      let w'' = (execute_all env ops (first_error x y) w').1 in
      (
        AllDone-append (op ∷ []) ops w'' (λ o at. grows' o.id (done o at)) rest,
        λ id d. grows' id (grows id d),
      )

  execute_parallel-Completes : (ops : Ops) → Completes ops (execute_parallel env ops)
  unfolding execute_parallel
  execute_parallel-Completes ops w e =
      let (done, grows) = execute_all-Completes (env.arrange ops w.outside) none w e in
      (λ op at. done op ((Perm.mem_iff (env.arrange_perm ops w.outside)).1 at), grows)

  execute_operation_group-Completes : (ops : Ops) → Completes ops (execute_operation_group env ops)
  unfolding execute_operation_group
  execute_operation_group-Completes ops w e = elim (Bool-cases (is_parallel ops)) [
    | inl p ↦
        rw (p, execute_operation_group)
          (execute_parallel-Completes ops w (rw (p, execute_operation_group) at e))
    | inr p ↦
        rw (p, execute_operation_group)
          (execute_sequential-Completes ops w (rw (p, execute_operation_group) at e))
  ]

  execute_groups-Completes :
      (index : ℕ) (groups : List Ops) → Completes (flatten groups) (execute_groups env index groups)
  unfolding execute_groups flatten
  execute_groups-Completes index [] w e = (λ op at. absurd (not-mem-nil at), λ id d. d)
  execute_groups-Completes index (group ∷ groups) w e =
      >>-Completes group (flatten groups) _ _
        (wrap_error-Completes group _ _ (execute_operation_group-Completes group))
        (execute_groups-Completes (index + 1) groups) w e

  start_phase-ops :
      (name : Text) (w : World W)
      → ops_of (update env (λ now s. start_phase now name s) w) ≡ ops_of w
  unfolding update start_phase log
  start_phase-ops name w = refl

  complete_phase-ops :
      (name : Text) (w : World W)
      → ops_of (update env (λ now s. complete_phase now name s) w) ≡ ops_of w
  unfolding update complete_phase log
  complete_phase-ops name w = refl

  finish_phase-ops :
      (phase : PlannedPhase) (w : World W) → ops_of (finish_phase env phase w).1 ≡ ops_of w
  unfolding finish_phase
  finish_phase-ops phase w =
      let checkpoint = create_checkpoint_file env (codes "Completed phase: " ++ phase.name) in
      let noted =
        on_failure-Quiet
          (λ e. note_phase env warn phase.name (codes "failed to create checkpoint: " ++ e))
          checkpoint w (λ e. note_phase-Quiet env warn phase.name _)
          (create_checkpoint_file-Quiet env _ w) in
      let saved =
        wrap_error-Quiet (λ e. codes "failed to save state after phase: " ++ e) (save_state env)
          (save_state-Quiet env) _ in
      saved.same_operations ∙ (complete_phase-ops phase.name _ ∙ noted.same_operations)

  Completes-ops : (m : Action W) → ((w : World W) → ops_of (m w).1 ≡ ops_of w) → Completes [] m
  Completes-ops m h w e = (λ op at. absurd (not-mem-nil at), λ id d. rw (h w) d)

  run_phase-Completes :
      (phase : PlannedPhase) (p : Plan) → Completes phase.operations (run_phase env phase p)
  unfolding run_phase
  run_phase-Completes phase p =
      let groups = group_operations_by_parallelization phase.operations in
      let run = execute_groups env 0 groups in
      let before = run_phase_hook env (codes "before_phase") phase.before_hook phase p in
      let after = run_phase_hook env (codes "after_phase") phase.after_hook phase p in
      let quiet_before = Completes-Quiet before (run_phase_hook-Quiet env _ _ phase p) in
      let quiet_after = Completes-Quiet after (run_phase_hook-Quiet env _ _ phase p) in
      let ends = Completes-ops (finish_phase env phase) (finish_phase-ops phase) in
      let xs : Ops = flatten groups in
      let first = >>-Completes [] xs before run quiet_before (execute_groups-Completes 0 groups) in
      let second = >>-Completes xs [] (before >> run) after first quiet_after in
      let all : Completes ((xs ++ []) ++ []) (before >> run >> after >> finish_phase env phase) =
        >>-Completes (xs ++ []) [] (before >> run >> after) (finish_phase env phase) second ends in
      Completes-eq (before >> run >> after >> finish_phase env phase)
        (append-nil (xs ++ []) ∙ append-nil xs ∙ (group_operations_correct phase.operations).0) all

  -- A phase that returns no error has completed each of its operations.
  pub execute_phase-Completes :
      (phase : PlannedPhase) (p : Plan) → Completes phase.operations (execute_phase env phase p)
  unfolding execute_phase
  execute_phase-Completes phase p w e =
      let w1 = update env (λ now s. start_phase now phase.name s) w in
      let (done, grows) = run_phase-Completes phase p w1 e in
      (done, λ id d. grows id (rw (start_phase-ops phase.name w) d))
