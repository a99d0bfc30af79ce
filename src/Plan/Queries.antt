-- ===== src/Plan/Queries.antt =====
-- The queries over the operations of a plan.
use mup.Base.{
  ℕ, ◌+◌, ◌≡◌, ◌≢◌, refl, ap, inl, inr, arith, List, [], ◌∷◌, ◌++◌, Option, none, some, length,
  length-append, Bool-cases, Option-cases,
}
use mup.Base.Text.{Text, text_eq, text_eq_iff}
use mup.Plan.{
  Plan, PlannedPhase, PlannedOperation, find_operation, find_in_phases, get_operation_by_id,
  total_from, total_operations,
}

-- The operations of the phases, one phase after another.
abbrev pub operations_of : List PlannedPhase → List PlannedOperation
operations_of [] = []
operations_of (phase ∷ phases) = phase.operations ++ operations_of phases

abbrev pub LacksId : Text → List PlannedOperation → Type 0
LacksId id [] = Unit
LacksId id (op ∷ ops) = (op.id ≢ id) × LacksId id ops

-- The first operation with the id, if there is one.
pub data Finds (id : Text) (ops : List PlannedOperation) : Option PlannedOperation → Type 0 where
  nothing : LacksId id ops → Finds id ops none
  first :
      (before after : List PlannedOperation) (op : PlannedOperation)
      → ops ≡ before ++ op ∷ after
      → LacksId id before
      → op.id ≡ id
      → Finds id ops (some op)

Finds-cons :
    (id : Text) (x : PlannedOperation) (ops : List PlannedOperation) (r : Option PlannedOperation)
    → x.id ≢ id
    → Finds id ops r
    → Finds id (x ∷ ops) r
Finds-cons id x ops _ ne (nothing h) = nothing (ne, h)
Finds-cons id x ops _ ne (first before after op e h same) =
    first (x ∷ before) after op (ap (λ l. x ∷ l) e) (ne, h) same

find_operation-Finds :
    (id : Text) (ops : List PlannedOperation) → Finds id ops (find_operation id ops)
unfolding find_operation
find_operation-Finds id [] = nothing tt
find_operation-Finds id (op ∷ ops) = elim (Bool-cases (text_eq op.id id)) [
  | inl e ↦ rw e (first [] ops op refl tt ((text_eq_iff op.id id).0 e))
  | inr e ↦ rw e (
      Finds-cons id op ops _ (λ same. absurd (cc ((text_eq_iff op.id id).1 same, e)))
        (find_operation-Finds id ops))
]

find_operation-append :
    (id : Text) (xs ys : List PlannedOperation)
    → find_operation id (xs ++ ys)
      ≡ elim (find_operation id xs) [ none ↦ find_operation id ys | some op ↦ some op ]
unfolding find_operation
find_operation-append id [] ys = refl
find_operation-append id (op ∷ xs) ys = elim (Bool-cases (text_eq op.id id)) [
  | inl e ↦ rw e
  | inr e ↦ rw e (find_operation-append id xs ys)
]

find_in_phases-operations :
    (id : Text) (phases : List PlannedPhase)
    → find_in_phases id phases ≡ find_operation id (operations_of phases)
unfolding find_in_phases
find_in_phases-operations id [] = refl
find_in_phases-operations id (phase ∷ phases) =
    elim (Option-cases (find_operation id phase.operations)) [
      | inl e ↦
          rw (find_operation-append id phase.operations (operations_of phases), e, find_in_phases)
            (find_in_phases-operations id phases)
      | inr (op, e) ↦
          rw (find_operation-append id phase.operations (operations_of phases), e, find_in_phases)
    ]

total_from-operations :
    (total : ℕ) (phases : List PlannedPhase)
    → total_from total phases ≡ total + length (operations_of phases)
unfolding total_from
total_from-operations total [] = omega arith
total_from-operations total (phase ∷ phases) = omega (
  arith,
  total_from-operations (total + length phase.operations) phases,
  length-append phase.operations (operations_of phases),
)

-- The queries see the operations of the phases one after another: `TotalOperations` is their number,
-- and `GetOperationByID` returns the first with the id, or nil if none has it.
pub get_operation_by_id-Finds :
    (p : Plan) (id : Text)
    → (total_operations p ≡ length (operations_of p.phases))
      × Finds id (operations_of p.phases) (get_operation_by_id p id)
unfolding get_operation_by_id total_operations
get_operation_by_id-Finds p id = (
  omega (arith, total_from-operations 0 p.phases),
  rw (find_in_phases-operations id p.phases) (find_operation-Finds id (operations_of p.phases)),
)
