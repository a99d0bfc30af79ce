-- ===== src/Version/Series.antt =====
-- The supported path as a list of series, and the table of keys that the code looks a series up in.
use mup.Base.{
  ◌≡◌, refl, ap, ◌↔◌, inl, inr, Bool, true, ◌&&◌, List, [], ◌∷◌, Option, none, some, arith, Bool_eq,
  Bool-cases, if◌then◌else◌,
}
use mup.Base.Int.{ℤ, pos, eqb_ℤ, eqb_ℤ_iff}
use mup.Base.Text.{Text, text_eq, text_eq_iff, split, show_int, read_int}
use mup.Base.Text.Decimal.{read_int-show_int, show_int-Lacks}
use mup.Base.Text.Split.{split-append, split_whole}
use mup.Base.Dict.{Dict, lookup}
use mup.Version.{MongoVersion, series_key, allowed_transitions}

pub record Series : Type 0 where
  pub major : ℤ
  pub minor : ℤ

abbrev pub series : MongoVersion → Series
series v = record { major = v.major; minor = v.minor }

abbrev pub at : ℤ → ℤ → Series
at major minor = record { major = major; minor = minor }

abbrev pub ladder : List Series
ladder =
    at (pos 3) (pos 6)
    ∷ at (pos 4) (pos 0)
    ∷ at (pos 4) (pos 2)
    ∷ at (pos 4) (pos 4)
    ∷ at (pos 5) (pos 0)
    ∷ at (pos 6) (pos 0)
    ∷ at (pos 7) (pos 0)
    ∷ at (pos 8) (pos 0)
    ∷ []

-- `t` stands directly behind `s` in the list.
pub data Adjacent (s t : Series) : List Series → Type 0 where
  here : {rest : List Series} → Adjacent s t (s ∷ t ∷ rest)
  there : {x : Series} {rest : List Series} → Adjacent s t rest → Adjacent s t (x ∷ rest)

abbrev pub key : Series → Text
key s = series_key s.major s.minor

-- A key determines its series: split it at the point and read both parts.
read_parts : List Text → Option Series
read_parts (p ∷ q ∷ []) = elim (read_int p) [
  | none ↦ none
  | some major ↦ elim (read_int q) [ none ↦ none | some minor ↦ some (at major minor) ]
]
read_parts _ = none

read_key : Text → Option Series
unfolding read_parts
read_key k = read_parts (split b'.' k)

read_key-key : (s : Series) → read_key (key s) ≡ some s
unfolding read_key series_key
read_key-key s =
    rw
      (split-append b'.' (show_int s.major) (show_int s.minor)
        (show_int-Lacks b'.' s.major refl refl))
      (rw (split_whole b'.' (show_int s.minor) (show_int-Lacks b'.' s.minor refl refl))
        (rw (read_int-show_int s.major, read_parts) (rw (read_int-show_int s.minor))))

key_injective : (s t : Series) → key s ≡ key t → s ≡ t
key_injective s t e = ground (arith, read_key-key s, read_key-key t, ap read_key e)

unfoldable pub same : Series → Series → Bool
same s t = eqb_ℤ s.major t.major && eqb_ℤ s.minor t.minor

pub same_iff : (s t : Series) → (same s t ≡ true) ↔ (s ≡ t)
unfolding same
same_iff s t = ground (arith, eqb_ℤ_iff s.major t.major, eqb_ℤ_iff s.minor t.minor)

pub text_eq-key : (s t : Series) → text_eq (key s) (key t) ≡ same s t
text_eq-key s t =
    Bool_eq _ _ (λ e. (same_iff s t).1 (key_injective s t ((text_eq_iff (key s) (key t)).0 e)))
      (λ e. (text_eq_iff (key s) (key t)).1 (ap key ((same_iff s t).0 e)))

-- The successor of a series in a list, and the list as a table of keys.
unfoldable pub next_in : Series → List Series → Option Series
unfolding same
next_in s [] = none
next_in s (a ∷ []) = none
next_in s (a ∷ b ∷ rest) = if same a s then some b else next_in s (b ∷ rest)

pub table : List Series → Dict Text
table [] = []
table (a ∷ []) = []
table (a ∷ b ∷ rest) = (key a, key b) ∷ table (b ∷ rest)

abbrev pub map_key : Option Series → Option Text
map_key none = none
map_key (some s) = some (key s)

pub lookup-table : (s : Series) (l : List Series) → lookup (key s) (table l) ≡ map_key (next_in s l)
unfolding lookup table next_in
lookup-table s [] = refl
lookup-table s (a ∷ []) = refl
lookup-table s (a ∷ b ∷ rest) = ground (arith, text_eq-key a s, lookup-table s (b ∷ rest))

pub table-ladder : table ladder ≡ allowed_transitions
unfolding table allowed_transitions series_key show_int
table-ladder = refl

pub Adjacent-next_in : (s t : Series) (l : List Series) → next_in s l ≡ some t → Adjacent s t l
unfolding next_in
Adjacent-next_in s t [] e = cc
Adjacent-next_in s t (a ∷ []) e = cc
Adjacent-next_in s t (a ∷ b ∷ rest) e = elim (Bool-cases (same a s)) [
  | inl h ↦
      let found : some b ≡ some t = (rw h at e) in
      let last : b ≡ t = cc found in rw ((same_iff a s).0 h, last) here
  | inr h ↦ there (Adjacent-next_in s t (b ∷ rest) (rw h at e))
]

-- In `ladder` no series stands twice, so the walk finds the neighbour.
pub next_in-Adjacent : (s t : Series) → Adjacent s t ladder → next_in s ladder ≡ some t
unfolding next_in same
next_in-Adjacent s t here = refl
next_in-Adjacent s t (there here) = refl
next_in-Adjacent s t (there (there here)) = refl
next_in-Adjacent s t (there (there (there here))) = refl
next_in-Adjacent s t (there (there (there (there here)))) = refl
next_in-Adjacent s t (there (there (there (there (there here))))) = refl
next_in-Adjacent s t (there (there (there (there (there (there here)))))) = refl
next_in-Adjacent s t (there (there (there (there (there (there (there (there h)))))))) = elim h [ ]
