-- ===== src/Base/Text.antt =====
-- A Go string is a list of bytes. Decimal printing and reading are fmt's %d and strconv.Atoi,
-- and `split` is strings.Split with a separator of one byte.
pub mod Decimal
pub mod Split
pub mod Case
pub mod Path
use Prim.Native.Char.{code}
use Prim.Native.String.{String}
use mup.Base.{
  ℕ, zero, suc, ◌+◌, ◌-◌, ◌*◌, ◌/◌, ◌%◌, ◌≡◌, refl, ◌↔◌, Bool, true, false, ◌&&◌, ◌||◌, List, [],
  ◌∷◌, ◌++◌, Option, none, some, arith, ltb, leb, ◌==◌, if◌then◌else◌, ◌^◌,
}
use mup.Base.Int.{ℤ, pos, negsuc}

abbrev pub Text : Type 0
Text = List ℕ

-- The bytes of a literal, which is ASCII wherever the program compares or parses it.
abbrev pub codes : String → Text
codes String.[] = []
codes (String.◌∷◌ c s) = code c ∷ codes s

unfoldable pub text_eq : Text → Text → Bool
text_eq [] [] = true
text_eq [] (y ∷ ys) = false
text_eq (x ∷ xs) [] = false
text_eq (x ∷ xs) (y ∷ ys) = x == y && text_eq xs ys

pub text_eq_iff : (s t : Text) → (text_eq s t ≡ true) ↔ (s ≡ t)
unfolding text_eq
text_eq_iff [] [] = ground arith
text_eq_iff [] (y ∷ ys) = ground arith
text_eq_iff (x ∷ xs) [] = ground arith
text_eq_iff (x ∷ xs) (y ∷ ys) = ground (arith, text_eq_iff xs ys)

pub text_eq_refl : (s : Text) → text_eq s s ≡ true
text_eq_refl s = (text_eq_iff s s).1 refl

abbrev pub is_digit : ℕ → Bool
is_digit c = leb b'0' c && leb c b'9'

-- Every round divides by ten, so `n + 1` rounds are enough.
unfoldable pub show_fuel : ℕ → ℕ → Text
show_fuel zero n = []
show_fuel (suc f) n =
    let front = show_fuel f (n / 10) in
    if ltb n 10 then (b'0' + n) ∷ [] else front ++ (b'0' + n % 10) ∷ []

unfoldable pub show_nat : ℕ → Text
unfolding show_fuel
show_nat n = show_fuel (suc n) n

unfoldable pub show_int : ℤ → Text
unfolding show_nat
show_int (pos n) = show_nat n
show_int (negsuc n) = b'-' ∷ show_nat (suc n)

unfoldable pub read_digits : ℕ → Text → Option ℕ
read_digits acc [] = some acc
read_digits acc (c ∷ s) =
    let rest = read_digits (acc * 10 + (c - b'0')) s in if is_digit c then rest else none

-- One digit at least.
unfoldable pub read_nat : Text → Option ℕ
unfolding read_digits
read_nat [] = none
read_nat (c ∷ s) = read_digits 0 (c ∷ s)

abbrev pub negate : ℕ → ℤ
negate zero = pos 0
negate (suc n) = negsuc n

-- An optional sign, then digits, with no bound on the value.
unfoldable pub read_int : Text → Option ℤ
unfolding read_nat
read_int [] = none
read_int (c ∷ s) =
    if c == b'-'
    then elim (read_nat s) [ none ↦ none | some n ↦ some (negate n) ]
    else if c == b'+'
    then elim (read_nat s) [ none ↦ none | some n ↦ some (pos n) ]
    else elim (read_nat (c ∷ s)) [ none ↦ none | some n ↦ some (pos n) ]

-- The range of a 64-bit int.
abbrev pub in_int64 : ℤ → Bool
in_int64 (pos n) = ltb n (2 ^ 63)
in_int64 (negsuc n) = ltb n (2 ^ 63)

unfoldable pub atoi : Text → Option ℤ
unfolding read_int
atoi s = elim (read_int s) [ none ↦ none | some v ↦ if in_int64 v then some v else none ]

abbrev pub push_front : ℕ → List Text → List Text
push_front x [] = (x ∷ []) ∷ []
push_front x (part ∷ parts) = (x ∷ part) ∷ parts

unfoldable pub split : ℕ → Text → List Text
split sep [] = [] ∷ []
split sep (x ∷ xs) = let parts = split sep xs in if x == sep then [] ∷ parts else push_front x parts

-- fmt.Sscanf with the format "%d": white space other than newlines (only ASCII here), then a sign
-- and digits, and what follows is not read.
unfoldable pub skip_space : Text → Text
skip_space [] = []
skip_space (c ∷ s) =
    let rest = skip_space s in
    if c == 32 || c == 9 || c == 11 || c == 12 || c == 13 then rest else c ∷ s

unfoldable pub digits_of : Text → Text
digits_of [] = []
digits_of (c ∷ s) = let rest = digits_of s in if is_digit c then c ∷ rest else []

unfoldable pub integer_of : Text → Text
unfolding digits_of
integer_of [] = []
integer_of (c ∷ s) = if c == b'-' || c == b'+' then c ∷ digits_of s else digits_of (c ∷ s)

unfoldable pub scan_int : Text → Option ℤ
scan_int s = atoi (integer_of (skip_space s))
