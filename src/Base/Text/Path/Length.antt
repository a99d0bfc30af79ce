-- ===== src/Base/Text/Path/Length.antt =====
-- The directory of a path is shorter than the path, or it is the top.
use mup.Base.{
  ℕ, suc, ◌+◌, ◌≤◌, ◌<◌, ◌≡◌, sym, refl, ap, Bool, true, false, List, [], ◌∷◌, ◌++◌, some, inl, inr,
  ◌⊎◌, length, arith, ◌==◌, Bool-cases, Option-cases,
}
use mup.Base.Lists.{length-append}
use mup.Base.Text.{Text, codes, text_eq, text_eq_iff, split}
use mup.Base.Text.Path.{
  is_blank, pop_part, push_part, clean_parts, join_parts, is_rooted, finish_path, clean_path,
  before_slash, dir_name,
}

-- What parts take in a path, each with its separator.
weight : List Text → ℕ
weight [] = 0
weight (part ∷ parts) = suc (length part + weight parts)

blanks : List Text → ℕ
blanks [] = 0
blanks ([] ∷ parts) = suc (blanks parts)
blanks ((c ∷ s) ∷ parts) = blanks parts

pop_part-weight :
    (rooted : Bool) (stack : List Text) → weight (pop_part rooted stack) ≤ 3 + weight stack
unfolding pop_part weight
pop_part-weight true [] = omega arith
pop_part-weight false [] = omega arith
pop_part-weight true (top ∷ stack) = elim (Bool-cases (text_eq top (codes ".."))) [
  | inl e ↦ rw e (omega arith)
  | inr e ↦ rw e (omega arith)
]
pop_part-weight false (top ∷ stack) = elim (Bool-cases (text_eq top (codes ".."))) [
  | inl e ↦ rw e (omega arith)
  | inr e ↦ rw e (omega arith)
]

push_part-weight :
    (rooted : Bool) (part : Text) (stack : List Text)
    → weight (push_part rooted part stack) + blanks (part ∷ []) ≤ suc (length part + weight stack)
unfolding push_part is_blank weight blanks
push_part-weight rooted [] stack = omega arith
push_part-weight rooted (c ∷ s) stack = elim (Bool-cases (text_eq (c ∷ s) (codes "."))) [
  | inl e ↦ rw e (omega arith)
  | inr e ↦ elim (Bool-cases (text_eq (c ∷ s) (codes ".."))) [
    | inl f ↦
        let same : c ∷ s ≡ codes ".." = (text_eq_iff (c ∷ s) (codes "..")).0 f in
        let two : suc (length s) ≡ 2 = ap (λ (t : Text). length t) same in
        rw (e, f) (omega (arith, pop_part-weight rooted stack, two))
    | inr f ↦ rw (e, f) (omega arith)
  ]
]

blanks-cons :
    (part : Text) (parts : List Text) → blanks (part ∷ parts) ≡ blanks (part ∷ []) + blanks parts
unfolding blanks
blanks-cons [] parts = omega arith
blanks-cons (c ∷ s) parts = omega arith

weight-cons :
    (part : Text) (parts : List Text) → weight (part ∷ parts) ≡ suc (length part + weight parts)
unfolding weight
weight-cons part parts = refl

clean_parts-weight :
    (rooted : Bool) (parts stack : List Text)
    → weight (clean_parts rooted parts stack) + blanks parts ≤ weight parts + weight stack
unfolding clean_parts
clean_parts-weight rooted [] stack = unfold weight blanks in omega arith
clean_parts-weight rooted (part ∷ parts) stack = omega (
  arith,
  clean_parts-weight rooted parts (push_part rooted part stack),
  push_part-weight rooted part stack,
  blanks-cons part parts,
  weight-cons part parts,
)

join_parts-length :
    (top : Text) (stack : List Text)
    → suc (length (join_parts (top ∷ stack))) ≤ weight (top ∷ stack)
unfolding join_parts weight
join_parts-length top [] = omega arith
join_parts-length top (next ∷ stack) =
    omega
      (arith, length-append (join_parts (next ∷ stack)) (b'/' ∷ top), join_parts-length next stack)

-- What a split weighs, and the blank parts that it has.
split-weight :
    (s : Text)
    → (first : Text) × (rest : List Text) × (split b'/' s ≡ first ∷ rest)
      × (length first + weight rest ≡ length s)
unfolding split weight
split-weight [] = ([], [], refl, refl)
split-weight (c ∷ s) =
    let (first, rest, e, w) = split-weight s in
    elim (Bool-cases (c == b'/')) [
      | inl b ↦ rw (b, e) ([], first ∷ rest, refl, omega (arith, w))
      | inr b ↦ rw (b, e) (c ∷ first, rest, refl, omega (arith, w))
    ]

-- A text that ends in a slash has a blank part after its first one.
split-ends :
    (s : Text)
    → (first : Text) × (rest : List Text) × (split b'/' (s ++ b'/' ∷ []) ≡ first ∷ rest)
      × (1 ≤ blanks rest)
unfolding split blanks
split-ends [] = ([], [] ∷ [], refl, omega arith)
split-ends (c ∷ s) =
    let (first, rest, e, w) = split-ends s in
    elim (Bool-cases (c == b'/')) [
      | inl b ↦ rw (b, e) ([], first ∷ rest, refl, omega (arith, w, blanks-cons first rest))
      | inr b ↦ rw (b, e) (c ∷ first, rest, refl, w)
    ]

split_total : (s : Text) → weight (split b'/' s) ≡ suc (length s)
unfolding weight
split_total s = let (first, rest, e, w) = split-weight s in rw e (omega (arith, w))

split_blanks : (s : Text) → 1 ≤ blanks (split b'/' (s ++ b'/' ∷ []))
split_blanks s =
    let (first, rest, e, w) = split-ends s in rw e (omega (arith, w, blanks-cons first rest))

blanks_rooted :
    (p : Text) → is_rooted (p ++ b'/' ∷ []) ≡ true → 2 ≤ blanks (split b'/' (p ++ b'/' ∷ []))
unfolding is_rooted split blanks
blanks_rooted [] e = omega arith
blanks_rooted (c ∷ s) e = rw e (omega (arith, split_blanks s))

weight-nil : weight [] ≡ 0
unfolding weight
weight-nil = refl

-- The paths at which a walk upwards ends.
abbrev pub IsTop : Text → Type 0
IsTop path = (path ≡ codes ".") ⊎ (path ≡ codes "/")

finish_path-shorter :
    (rooted : Bool) (stack : List Text) (n : ℕ)
    → weight stack ≤ n
    → (rooted ≡ true → weight stack < n)
    → IsTop (finish_path rooted stack) ⊎ (length (finish_path rooted stack) < n)
unfolding finish_path
finish_path-shorter true [] n h k = inl (inr (unfold join_parts in refl))
finish_path-shorter true (top ∷ stack) n h k =
    inr (omega (arith, k refl, join_parts-length top stack))
finish_path-shorter false [] n h k = inl (inl refl)
finish_path-shorter false (top ∷ stack) n h k = inr (omega (arith, h, join_parts-length top stack))

-- The cleaned path is the top, or shorter than the path, which ends in a slash.
clean_path-shorter :
    (p : Text)
    → IsTop (clean_path (p ++ b'/' ∷ [])) ⊎ (length (clean_path (p ++ b'/' ∷ [])) < suc (length p))
unfolding clean_path
clean_path-shorter p =
    let path = p ++ b'/' ∷ [] in
    let rooted = is_rooted path in
    let parts = split b'/' path in
    let total = clean_parts-weight rooted parts [] in
    finish_path-shorter rooted (clean_parts rooted parts []) (suc (length p))
      (omega
        (arith, total, split_total path, split_blanks p, length-append p (b'/' ∷ []), weight-nil))
      (λ r. omega (
        arith,
        total,
        split_total path,
        blanks_rooted p r,
        length-append p (b'/' ∷ []),
        weight-nil,
      ))

before_slash-shorter : (s p : Text) → before_slash s ≡ some p → length p < length s
unfolding before_slash
before_slash-shorter [] p e = absurd (cc e)
before_slash-shorter (c ∷ s) p e = elim (Option-cases (before_slash s)) [
  | inl n ↦ elim (Bool-cases (c == b'/')) [
    | inl b ↦
        let f : some [] ≡ some p = rw (n, b) at e in let g : [] ≡ p = cc in rw (sym g) (omega arith)
    | inr b ↦ absurd (cc (rw (n, b) at e))
  ]
  | inr (q, n) ↦
      let f : some (c ∷ q) ≡ some p = rw n at e in
      let g : c ∷ q ≡ p = cc in rw (sym g) (omega (arith, before_slash-shorter s q n))
]

clean_path-nil : clean_path [] ≡ codes "."
unfolding clean_path finish_path is_rooted clean_parts split push_part is_blank
clean_path-nil = refl

pub dir_name-shorter :
    (path : Text) → IsTop (dir_name path) ⊎ (length (dir_name path) < length path)
unfolding dir_name
dir_name-shorter path = elim (Option-cases (before_slash path)) [
  | inl n ↦ rw n (inl (inl clean_path-nil))
  | inr (p, n) ↦ elim (clean_path-shorter p) [
    | inl t ↦ rw n (inl t)
    | inr l ↦ rw n (inr (omega (arith, l, before_slash-shorter path p n)))
  ]
]
