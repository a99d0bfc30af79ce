-- ===== src/Simulation/Parents.antt =====
-- The loop of CreateDirectory in pkg/simulation/executor.go ends, and makes a path with its parents.
use mup.Base.{
  ℕ, zero, suc, ◌<◌, ◌≡◌, sym, refl, true, false, none, some, inl, inr, length, arith, Bool-cases,
  Option-cases,
}
use mup.Base.Text.{Text, text_eq, text_eq_iff}
use mup.Base.Dict.{Dict, lookup, lookup-insert, lookup-insert_self}
use mup.Base.Text.Path.{dir_name}
use mup.Base.Text.Path.Length.{IsTop, dir_name-shorter}
use mup.Simulation.{SimulatedDirectory, is_top, ensure_dir, create_parents}

-- A path, and the parents of a path below the top.
pub data IsParent : Text → Text → Type 0 where
  itself : {path : Text} → IsParent path path
  above :
      {path other : Text}
      → is_top path ≡ false
      → IsParent (dir_name path) other
      → IsParent path other

is_top-IsTop : (path : Text) → IsTop path → is_top path ≡ true
unfolding is_top text_eq
is_top-IsTop path (inl e) = rw e refl
is_top-IsTop path (inr e) = rw e refl

abbrev Dirs : Type 0
Dirs = Dict SimulatedDirectory

-- The loop as it is written, with no bound on its rounds.
pub data Loop (mode : ℕ) : Text → Dirs → Dirs → Type 0 where
  stop : {path : Text} {dirs : Dirs} → is_top path ≡ true → Loop mode path dirs dirs
  round :
      {path : Text} {dirs out : Dirs}
      → is_top path ≡ false
      → Loop mode (dir_name path) (ensure_dir mode path dirs) out
      → Loop mode path dirs out

top-Loop :
    (mode fuel : ℕ) (path : Text) (dirs : Dirs)
    → is_top path ≡ true
    → Loop mode path dirs (create_parents fuel mode path dirs)
unfolding create_parents
top-Loop mode zero path dirs e = stop e
top-Loop mode (suc fuel) path dirs e = rw e (stop e)

create_parents-Loop :
    (mode fuel : ℕ) (path : Text) (dirs : Dirs)
    → length path < fuel
    → Loop mode path dirs (create_parents fuel mode path dirs)
unfolding create_parents
create_parents-Loop mode zero path dirs h = absurd (omega (arith, h))
create_parents-Loop mode (suc fuel) path dirs h = elim (Bool-cases (is_top path)) [
  | inl e ↦ rw e (stop e)
  | inr e ↦ elim (dir_name-shorter path) [
    | inl t ↦ rw e (round e (top-Loop mode fuel (dir_name path) _ (is_top-IsTop (dir_name path) t)))
    | inr l ↦ rw e (round e (create_parents-Loop mode fuel (dir_name path) _ (omega (arith, h, l))))
  ]
]

ensure_dir-old :
    (mode : ℕ) (path j : Text) (dirs : Dirs) (d : SimulatedDirectory)
    → lookup j dirs ≡ some d
    → lookup j (ensure_dir mode path dirs) ≡ some d
unfolding ensure_dir
ensure_dir-old mode path j dirs d e = elim (Option-cases (lookup path dirs)) [
  | inr (x, n) ↦ rw (n, ensure_dir) e
  | inl n ↦ elim (Bool-cases (text_eq path j)) [
    | inr b ↦
        rw (n, ensure_dir)
          (rw (lookup-insert path j (record { path = path; mode = mode }) dirs, b) e)
    | inl b ↦
        let f : lookup path dirs ≡ some d = rw ((text_eq_iff path j).0 b) e in absurd (cc (n, f))
  ]
]

ensure_dir-new :
    (mode : ℕ) (path : Text) (dirs : Dirs)
    → (d : SimulatedDirectory) × (lookup path (ensure_dir mode path dirs) ≡ some d)
unfolding ensure_dir
ensure_dir-new mode path dirs = elim (Option-cases (lookup path dirs)) [
  | inr (x, n) ↦ rw (n, ensure_dir) (x, n)
  | inl n ↦
      let d : SimulatedDirectory = record { path = path; mode = mode } in
      rw (n, ensure_dir) (d, lookup-insert_self path d dirs)
]

Loop-old :
    {mode : ℕ} {path : Text} {dirs out : Dirs} (j : Text) (d : SimulatedDirectory)
    → Loop mode path dirs out
    → lookup j dirs ≡ some d
    → lookup j out ≡ some d
Loop-old j d (stop t) e = e
Loop-old {mode} {path} {dirs} j d (round t l) e =
    Loop-old j d l (ensure_dir-old mode path j dirs d e)

Loop-parents :
    {mode : ℕ} {path other : Text} {dirs out : Dirs}
    → Loop mode path dirs out
    → IsParent path other
    → is_top other ≡ false
    → (d : SimulatedDirectory) × (lookup other out ≡ some d)
Loop-parents (stop t) itself n = absurd (cc (t, n))
Loop-parents (stop t) (above t' p) n = absurd (cc (t, t'))
Loop-parents {mode} {path} {other} {dirs} (round t l) itself n =
    let (d, e) = ensure_dir-new mode path dirs in (d, Loop-old path d l e)
Loop-parents (round t l) (above t' p) n = Loop-parents l p n

ensure_dir-none :
    (mode : ℕ) (path j : Text) (dirs : Dirs)
    → lookup j dirs ≡ none
    → text_eq path j ≡ false
    → lookup j (ensure_dir mode path dirs) ≡ none
unfolding ensure_dir
ensure_dir-none mode path j dirs e ne = elim (Option-cases (lookup path dirs)) [
  | inr (x, n) ↦ rw (n, ensure_dir) e
  | inl n ↦
      rw (n, ensure_dir)
        (rw (lookup-insert path j (record { path = path; mode = mode }) dirs, ne) e)
]

ensure_dir_self :
    (mode : ℕ) (path : Text) (dirs : Dirs)
    → lookup path dirs ≡ none
    → lookup path (ensure_dir mode path dirs) ≡ some (record { path = path; mode = mode })
unfolding ensure_dir
ensure_dir_self mode path dirs n =
    rw (n, ensure_dir) (lookup-insert_self path (record { path = path; mode = mode }) dirs)

-- A directory that the loop makes, for the given path and mode.
pub record IsMade (mode : ℕ) (path j : Text) (d : SimulatedDirectory) : Type 0 where
  pub is_parent : IsParent path j
  pub as_given : d ≡ record { path = j; mode = mode }

Loop-IsMade :
    {mode : ℕ} {path : Text} {dirs out : Dirs} (j : Text) (d : SimulatedDirectory)
    → Loop mode path dirs out
    → lookup j dirs ≡ none
    → lookup j out ≡ some d
    → IsMade mode path j d
Loop-IsMade j d (stop t) e f = absurd (cc (e, f))
Loop-IsMade {mode} {path} {dirs} {out} j d (round t l) e f = elim (Bool-cases (text_eq path j)) [
  | inl b ↦
      let same : path ≡ j = (text_eq_iff path j).0 b in
      let new : lookup path dirs ≡ none = rw same e in
      let made = Loop-old path _ l (ensure_dir_self mode path dirs new) in
      let g : lookup path out ≡ some d = rw same f in
      rw (sym same) (record { is_parent = itself; as_given = cc (made, g) })
  | inr b ↦
      let rest = Loop-IsMade j d l (ensure_dir-none mode path j dirs e b) f in
      record { is_parent = above t rest.is_parent; as_given = rest.as_given }
]

-- With more fuel than the length of the path, the bounded loop is the loop as it is written: it ends at
-- `.` or `/`. Then the path and each of its parents below the top, by filepath.Dir, are directories. Those
-- that were there before are as they were, and those that are new are the path or a parent and have the given mode.
pub create_parents-Loops :
    (mode fuel : ℕ) (path : Text) (dirs : Dirs)
    → length path < fuel
    → Loop mode path dirs (create_parents fuel mode path dirs)
      × ((other : Text)
          → IsParent path other
          → is_top other ≡ false
          → (d : SimulatedDirectory) × (lookup other (create_parents fuel mode path dirs) ≡ some d))
      × ((j : Text) (d : SimulatedDirectory)
          → lookup j dirs ≡ some d
          → lookup j (create_parents fuel mode path dirs) ≡ some d)
      × ((j : Text) (d : SimulatedDirectory)
          → lookup j dirs ≡ none
          → lookup j (create_parents fuel mode path dirs) ≡ some d
          → IsMade mode path j d)
create_parents-Loops mode fuel path dirs h =
    let l = create_parents-Loop mode fuel path dirs h in
    (
      l,
      λ other p n. Loop-parents l p n,
      λ j d e. Loop-old j d l e,
      λ j d e f. Loop-IsMade j d l e f,
    )
