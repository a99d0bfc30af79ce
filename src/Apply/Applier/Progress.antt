-- ===== src/Apply/Applier/Progress.antt =====
-- What an operation, a group and a phase do to the recorded states of operations.
use mup.Base.{
  ◌≡◌, refl, ◌∙◌, ◌++◌, Option, none, some, inl, inr, arith, Bool-cases, Option-cases,
  if◌then◌else◌,
}
use mup.Base.Text.{Text, text_eq, text_eq_refl, codes}
use mup.Base.Dict.{Dict, lookup, insert, lookup-insert}
use mup.Base.Results.{Error, Result-cases}
use mup.Plan.{PlannedOperation}
use mup.Apply.{
  ApplyStatus, Level, OperationState, completed, failed, running, error, warn, OperationResult, log,
  start_operation, complete_operation, fail_operation, adjust,
}
use mup.Apply.Env.{Env, World, Action, update, save_state, call, on_failure}
use mup.Apply.Applier.{
  note_operation, begin_operation, refuse_operation, abort_operation, finish_operation,
  run_operation, execute_operation,
}

abbrev pub status_in : Text → Dict OperationState → Option ApplyStatus
status_in id m = elim (lookup id m) [ none ↦ none | some o ↦ some o.status ]

-- The recorded status of an operation.
abbrev pub status_of : {W : Type 0} → Text → World W → Option ApplyStatus
status_of id w = status_in id w.state.operation_states

abbrev pub IsDone : {W : Type 0} → Text → World W → Type 0
IsDone id w = status_of id w ≡ some completed

status-insert :
    (k j : Text) (o : OperationState) (m : Dict OperationState)
    → status_in j (insert k o m) ≡ (if text_eq k j then some o.status else status_in j m)
status-insert k j o m = ground (arith, lookup-insert k j o m)

-- A write through the map's pointer, to an operation that was started.
status-adjust :
    (k j : Text) (f : OperationState → OperationState) (x : ApplyStatus) (m : Dict OperationState)
    → ((o : OperationState) → (f o).status ≡ x)
    → status_in k m ≡ some running
    → status_in j (adjust k f m) ≡ (if text_eq k j then some x else status_in j m)
status-adjust k j f x m h r = elim (Option-cases (lookup k m)) [
  | inl e ↦ absurd (ground arith)
  | inr (o, e) ↦ rw (e, adjust) (ground (arith, lookup-insert k j (f o) m, h o))
]

abbrev pub ops_of : {W : Type 0} → World W → Dict OperationState
ops_of w = w.state.operation_states

-- How an operation ends, by the error that it returns.
abbrev pub ending : Option Error → ApplyStatus
ending none = completed
ending (some _) = failed

-- The status of `j` after an action `m` on an operation `id`.
abbrev pub Records : {W : Type 0} → Text → Text → World W → Option Error × World W → Type 0
Records id j w (e, w') = status_of j w' ≡ (if text_eq id j then some (ending e) else status_of j w)

module _ {W : Type 0} (env : Env W) where
  note_operation-ops :
      (level : Level) (op : PlannedOperation) (message : Text) (w : World W)
      → ops_of (note_operation env level op message w) ≡ ops_of w
  unfolding note_operation update log
  note_operation-ops level op message w = refl

  save_state-ops : (w : World W) → ops_of (save_state env w).1 ≡ ops_of w
  unfolding save_state call
  save_state-ops w = refl

  on_failure-ops :
      (handle : Error → World W → World W) (m : Action W) (w : World W)
      → ((e : Error) (v : World W) → ops_of (handle e v) ≡ ops_of v)
      → ops_of (m w).1 ≡ ops_of w
      → ops_of (on_failure handle m w) ≡ ops_of w
  unfolding on_failure
  on_failure-ops handle m w h k = elim (Option-cases (m w).0) [
    | inl e ↦ rw (e, on_failure, ops_of) k
    | inr (x, e) ↦ rw (e, on_failure, ops_of) (h x (m w).1 ∙ k)
  ]

  -- A save whose failure is only noted.
  pub save_noted-ops :
      (level : Level) (op : PlannedOperation) (message : Error → Text) (w : World W)
      → ops_of (on_failure (λ x. note_operation env level op (message x)) (save_state env) w)
        ≡ ops_of w
  save_noted-ops level op message w =
      on_failure-ops (λ x. note_operation env level op (message x)) (save_state env) w
        (λ e. note_operation-ops level op (message e)) (save_state-ops w)

  begin-status :
      (op : PlannedOperation) (j : Text) (w : World W)
      → status_of j (begin_operation env op w)
        ≡ (if text_eq op.id j then some running else status_of j w)
  unfolding begin_operation note_operation update start_operation log
  begin-status op j w = status-insert op.id j _ w.state.operation_states

-- What an action does after a step that set the operation running.
Records-after :
    {W : Type 0} (id j : Text) (w w' : World W) (r : Option Error × World W)
    → status_of j w' ≡ (if text_eq id j then some running else status_of j w)
    → Records id j w' r
    → Records id j w r
Records-after id j w w' r b h = elim (Bool-cases (text_eq id j)) [
  | inl e ↦ rw e (rw e at h)
  | inr e ↦ rw e ((rw e at h) ∙ (rw e at b))
]

module _ {W : Type 0} (env : Env W) (op : PlannedOperation) (j : Text) where
  refuse-status :
      (w : World W) (e : Error)
      → status_of op.id w ≡ some running
      → Records op.id j w (refuse_operation env op e w)
  unfolding refuse_operation
  refuse-status w e r =
      rw (save_noted-ops env error op (λ x. codes "failed to save state: " ++ x) _) (
        unfold update fail_operation in
        status-adjust op.id j _ failed w.state.operation_states (λ o. refl) r)

  abort-status :
      (w : World W) (e : Error)
      → status_of op.id w ≡ some running
      → Records op.id j w (abort_operation env op e w)
  unfolding abort_operation
  abort-status w e r =
      rw (save_noted-ops env error op (λ x. codes "failed to save state: " ++ x) _) (
        unfold update fail_operation in
        status-adjust op.id j _ failed w.state.operation_states (λ o. refl) r)

  finish-status :
      (w : World W) (result : OperationResult)
      → status_of op.id w ≡ some running
      → Records op.id j w (finish_operation env op result w)
  unfolding finish_operation
  finish-status w result r =
      rw (save_noted-ops env warn op (λ x. codes "failed to save state: " ++ x) _) (
        unfold note_operation update complete_operation log in
        status-adjust op.id j _ completed w.state.operation_states (λ o. refl) r)

  run-status :
      (w : World W) → status_of op.id w ≡ some running → Records op.id j w (run_operation env op w)
  unfolding run_operation
  run-status w r = elim (Result-cases (env.execute op w.outside).0) [
    | inl (x, e) ↦ rw (e, run_operation, Records) (abort-status _ x r)
    | inr (result, e) ↦ rw (e, run_operation, Records) (finish-status _ result r)
  ]

  pub execute_operation-status : (w : World W) → Records op.id j w (execute_operation env op w)
  unfolding execute_operation
  execute_operation-status w =
      let w1 = begin_operation env op w in
      let v = (env.validate op w1.outside).1 in
      let w2 : World W = record w1 { outside = v } in
      let started : status_of op.id w2 ≡ some running =
        begin-status env op op.id w ∙ (rw (text_eq_refl op.id)) in
      Records-after op.id j w w2 (execute_operation env op w) (begin-status env op j w)
        (elim (Option-cases (env.validate op w1.outside).0) [
          | inl e ↦ rw (e, execute_operation, Records) (run-status w2 started)
          | inr (x, e) ↦ rw (e, execute_operation, Records) (refuse-status w2 x started)
        ])
