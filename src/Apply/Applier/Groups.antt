-- ===== src/Apply/Applier/Groups.antt =====
-- The groups that `groupOperationsByParallelization` makes.
use mathlib.Core.List.{flatten, append-nil, append_assoc}
use mup.Base.{
  ◌≡◌, refl, sym, ◌∙◌, Bool, true, false, ◌&&◌, List, [], ◌∷◌, ◌++◌, inl, inr, arith, Bool-cases,
}
use mup.Plan.{PlannedOperation}
use mup.Apply.Applier.{close_group, joins, group_from, group_operations_by_parallelization}

abbrev pub Ops : Type 0
Ops = List PlannedOperation

-- Every operation may run beside its siblings.
abbrev pub AllParallel : Ops → Type 0
AllParallel [] = Unit
AllParallel (op ∷ ops) = (op.parallel ≡ true) × AllParallel ops

-- A group is one operation, or several that are all parallel.
abbrev pub IsGroup : Ops → Type 0
IsGroup [] = ⊥
IsGroup (op ∷ []) = Unit
IsGroup (op ∷ next ∷ ops) = AllParallel (op ∷ next ∷ ops)

abbrev pub AreGroups : List Ops → Type 0
AreGroups [] = Unit
AreGroups (g ∷ gs) = IsGroup g × AreGroups gs

abbrev pub starts_parallel : Ops → Bool
starts_parallel [] = false
starts_parallel (op ∷ _) = op.parallel

-- No two neighbours could be one group.
abbrev pub AreSeparate : List Ops → Type 0
AreSeparate [] = Unit
AreSeparate (g ∷ []) = Unit
AreSeparate (g ∷ h ∷ gs) = ((starts_parallel g && starts_parallel h) ≡ false) × AreSeparate (h ∷ gs)

flatten-snoc : (gs : List Ops) (g : Ops) → flatten (gs ++ g ∷ []) ≡ flatten gs ++ g
unfolding flatten
flatten-snoc [] g = append-nil g
flatten-snoc (h ∷ gs) g = rw (flatten-snoc gs g) (sym (append_assoc h (flatten gs) g))

flatten-close_group : (gs : List Ops) (g : Ops) → flatten (close_group gs g) ≡ flatten gs ++ g
flatten-close_group gs [] = sym (append-nil (flatten gs))
flatten-close_group gs (op ∷ ops) = flatten-snoc gs (op ∷ ops)

flatten-group_from :
    (gs : List Ops) (g ops : Ops) → flatten (group_from gs g ops) ≡ flatten gs ++ (g ++ ops)
unfolding group_from
flatten-group_from gs g [] = rw (append-nil g) (flatten-close_group gs g)
flatten-group_from gs g (op ∷ ops) = elim (Bool-cases (joins op g)) [
  | inl e ↦ rw e (flatten-group_from gs (g ++ op ∷ []) ops ∙ rw (append_assoc g (op ∷ []) ops))
  | inr e ↦ rw e (
      flatten-group_from (close_group gs g) (op ∷ []) ops
      ∙ rw (flatten-close_group gs g) (append_assoc (flatten gs) g (op ∷ ops)))
]

AreGroups-snoc : (gs : List Ops) (g : Ops) → AreGroups gs → IsGroup g → AreGroups (gs ++ g ∷ [])
AreGroups-snoc [] g h k = (k, tt)
AreGroups-snoc (x ∷ gs) g h k = (h.0, AreGroups-snoc gs g h.1 k)

AllParallel-snoc :
    (ops : Ops) (op : PlannedOperation)
    → AllParallel ops
    → op.parallel ≡ true
    → AllParallel (ops ++ op ∷ [])
AllParallel-snoc [] op h k = (k, tt)
AllParallel-snoc (x ∷ ops) op h k = (h.0, AllParallel-snoc ops op h.1 k)

IsGroup-joins :
    (g : Ops) (op : PlannedOperation) → IsGroup g → joins op g ≡ true → IsGroup (g ++ op ∷ [])
IsGroup-joins [] op h e = elim h [ ]
IsGroup-joins (x ∷ []) op h e = ground arith
IsGroup-joins (x ∷ y ∷ g) op h e = AllParallel-snoc (x ∷ y ∷ g) op h (ground arith)

-- The part of the loop's state that is closed already.
AreSeparate-snoc :
    (gs : List Ops) (g h : Ops)
    → AreSeparate (gs ++ g ∷ [])
    → (starts_parallel g && starts_parallel h) ≡ false
    → AreSeparate (gs ++ g ∷ [] ++ h ∷ [])
AreSeparate-snoc [] g h k e = (e, tt)
AreSeparate-snoc (x ∷ []) g h k e = (k.0, (e, tt))
AreSeparate-snoc (x ∷ y ∷ gs) g h k e = (k.0, AreSeparate-snoc (y ∷ gs) g h k.1 e)

-- What holds of the closed groups and the current one, which is not empty after the first round.
pub record Sound (gs : List Ops) (g : Ops) : Type 0 where
  pub closed : AreGroups gs
  pub current : IsGroup g
  pub separate : AreSeparate (gs ++ g ∷ [])

-- The last group grows by a parallel operation that joins it.
AreSeparate-grow :
    (gs : List Ops) (x : PlannedOperation) (g h : Ops)
    → AreSeparate (gs ++ (x ∷ g) ∷ [])
    → AreSeparate (gs ++ (x ∷ h) ∷ [])
AreSeparate-grow [] x g h k = tt
AreSeparate-grow (y ∷ []) x g h k = (k.0, tt)
AreSeparate-grow (y ∷ z ∷ gs) x g h k = (k.0, AreSeparate-grow (z ∷ gs) x g h k.1)

Sound-join :
    (gs : List Ops) (g : Ops) (op : PlannedOperation)
    → Sound gs g
    → joins op g ≡ true
    → Sound gs (g ++ op ∷ [])
Sound-join gs [] op s e = elim s.current [ ]
Sound-join gs (x ∷ g) op s e = record {
  closed = s.closed;
  current = IsGroup-joins (x ∷ g) op s.current e;
  separate = AreSeparate-grow gs x g (g ++ op ∷ []) s.separate;
}

Sound-close :
    (gs : List Ops) (g : Ops) (op : PlannedOperation)
    → Sound gs g
    → joins op g ≡ false
    → Sound (close_group gs g) (op ∷ [])
Sound-close gs [] op s e = elim s.current [ ]
Sound-close gs (x ∷ g) op s e = record {
  closed = AreGroups-snoc gs (x ∷ g) s.closed s.current;
  current = tt;
  separate = AreSeparate-snoc gs (x ∷ g) (op ∷ []) s.separate (ground arith);
}

AreGroups-group_from :
    (gs : List Ops) (g ops : Ops)
    → Sound gs g
    → AreGroups (group_from gs g ops) × AreSeparate (group_from gs g ops)
unfolding group_from
AreGroups-group_from gs [] ops s = elim s.current [ ]
AreGroups-group_from gs (x ∷ g) [] s = (AreGroups-snoc gs (x ∷ g) s.closed s.current, s.separate)
AreGroups-group_from gs (x ∷ g) (op ∷ ops) s = elim (Bool-cases (joins op (x ∷ g))) [
  | inl e ↦ rw e (AreGroups-group_from gs (x ∷ g ++ op ∷ []) ops (Sound-join gs (x ∷ g) op s e))
  | inr e ↦
      rw e (
        AreGroups-group_from (close_group gs (x ∷ g)) (op ∷ []) ops (Sound-close gs (x ∷ g) op s e))
]

-- The groups hold the operations of the phase, each once and in the same order. Each group is one
-- operation or several that are all parallel, and no two neighbours could have been one group.
pub group_operations_correct :
    (ops : Ops)
    → (flatten (group_operations_by_parallelization ops) ≡ ops)
      × AreGroups (group_operations_by_parallelization ops)
      × AreSeparate (group_operations_by_parallelization ops)
unfolding group_operations_by_parallelization flatten
group_operations_correct [] = (refl, tt, tt)
group_operations_correct (op ∷ ops) =
    let (groups, separate) =
      AreGroups-group_from [] (op ∷ []) ops (record { closed = tt; current = tt; separate = tt }) in
    (flatten-group_from [] [] (op ∷ ops), groups, separate)
