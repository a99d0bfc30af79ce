-- ===== src/Apply/Applier/Records.antt =====
-- An operation changes its own record only.
use mup.Base.{◌≡◌, ◌≢◌, false, refl, ◌∙◌, ◌++◌, some, inl, inr, arith, Option-cases}
use mup.Base.Text.{Text, text_eq, text_eq_iff, text_eq_refl, codes}
use mup.Base.Dict.{Dict, lookup, lookup-insert}
use mup.Base.Results.{Error, Result-cases}
use mup.Plan.{PlannedOperation}
use mup.Apply.{
  OperationState, error, warn, OperationResult, log, start_operation, complete_operation,
  fail_operation, adjust,
}
use mup.Apply.Env.{Env, World, update}
use mup.Apply.Applier.{
  note_operation, begin_operation, refuse_operation, abort_operation, finish_operation,
  run_operation, execute_operation,
}
use mup.Apply.Applier.Progress.{status_of, ending, ops_of, save_noted-ops, execute_operation-status}

text_ne : (a b : Text) → a ≢ b → text_eq a b ≡ false
text_ne a b h = ground (arith, text_eq_iff a b)

-- The whole record of `j` is what it was.
abbrev pub SameRecord : {W : Type 0} → Text → World W → World W → Type 0
SameRecord j w w' = lookup j (ops_of w') ≡ lookup j (ops_of w)

lookup-adjust_other :
    (k j : Text) (f : OperationState → OperationState) (m : Dict OperationState)
    → text_eq k j ≡ false
    → lookup j (adjust k f m) ≡ lookup j m
lookup-adjust_other k j f m ne = elim (Option-cases (lookup k m)) [
  | inl e ↦ rw (e, adjust) refl
  | inr (o, e) ↦ rw (e, adjust) (rw (lookup-insert k j (f o) m, ne) refl)
]

module _ {W : Type 0} (env : Env W) (op : PlannedOperation) (j : Text)
    (ne : text_eq op.id j ≡ false) where
  begin-SameRecord : (w : World W) → SameRecord j w (begin_operation env op w)
  unfolding begin_operation note_operation update start_operation log
  begin-SameRecord w = rw (lookup-insert op.id j _ w.state.operation_states, ne) refl

  refuse-SameRecord : (w : World W) (e : Error) → SameRecord j w (refuse_operation env op e w).1
  unfolding refuse_operation
  refuse-SameRecord w e =
      rw (save_noted-ops env error op (λ x. codes "failed to save state: " ++ x) _)
        (unfold update fail_operation in lookup-adjust_other op.id j _ w.state.operation_states ne)

  abort-SameRecord : (w : World W) (e : Error) → SameRecord j w (abort_operation env op e w).1
  unfolding abort_operation
  abort-SameRecord w e =
      rw (save_noted-ops env error op (λ x. codes "failed to save state: " ++ x) _)
        (unfold update fail_operation in lookup-adjust_other op.id j _ w.state.operation_states ne)

  finish-SameRecord :
      (w : World W) (result : OperationResult) → SameRecord j w (finish_operation env op result w).1
  unfolding finish_operation
  finish-SameRecord w result =
      rw (save_noted-ops env warn op (λ x. codes "failed to save state: " ++ x) _) (
        unfold note_operation update complete_operation log in
        lookup-adjust_other op.id j _ w.state.operation_states ne)

  run-SameRecord : (w : World W) → SameRecord j w (run_operation env op w).1
  unfolding run_operation
  run-SameRecord w = elim (Result-cases (env.execute op w.outside).0) [
    | inl (x, e) ↦ rw (e, run_operation) (abort-SameRecord _ x)
    | inr (result, e) ↦ rw (e, run_operation) (finish-SameRecord _ result)
  ]

  execute_operation-SameRecord : (w : World W) → SameRecord j w (execute_operation env op w).1
  unfolding execute_operation
  execute_operation-SameRecord w =
      let w1 = begin_operation env op w in
      let w2 : World W = record w1 { outside = (env.validate op w1.outside).1 } in
      elim (Option-cases (env.validate op w1.outside).0) [
        | inl e ↦ rw (e, execute_operation) (run-SameRecord w2 ∙ begin-SameRecord w)
        | inr (x, e) ↦ rw (e, execute_operation) (refuse-SameRecord w2 x ∙ begin-SameRecord w)
      ]

-- An operation that ends is recorded as completed if it returned no error and as failed if it
-- returned one. The record of an operation with another id, with its result, error and times, is what it was.
pub execute_operation-Recorded :
    {W : Type 0} (env : Env W) (op : PlannedOperation) (w : World W)
    → (status_of op.id (execute_operation env op w).1
        ≡ some (ending (execute_operation env op w).0))
      × ((j : Text)
          → op.id ≢ j
          → lookup j (ops_of (execute_operation env op w).1) ≡ lookup j (ops_of w))
execute_operation-Recorded env op w = (
  execute_operation-status env op op.id w ∙ (rw (text_eq_refl op.id) refl),
  λ j ne. execute_operation-SameRecord env op j (text_ne op.id j ne) w,
)
