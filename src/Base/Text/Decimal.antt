-- ===== src/Base/Text/Decimal.antt =====
-- Reading a printed number gives it back, and a printed number holds only digits.
use mup.Base.{
  ap, ℕ, zero, suc, ◌+◌, ◌-◌, ◌*◌, ◌/◌, ◌%◌, ◌<◌, ◌≡◌, refl, ◌≢◌, inl, inr, true, false, [], ◌∷◌,
  ◌++◌, some, arith, ltb, ◌==◌, Bool-cases, ◌∙◌,
}
use mup.Base.Int.{ℤ, pos, negsuc}
use mup.Base.Text.{
  digits_of, integer_of, skip_space, scan_int, Text, is_digit, show_fuel, show_nat, show_int,
  read_digits, read_nat, read_int, atoi, in_int64,
}
use mup.Base.Text.Split.{Lacks}

read_digits-snoc :
    (acc : ℕ) (s : Text) (c : ℕ) {v : ℕ}
    → read_digits acc s ≡ some v
    → is_digit c ≡ true
    → read_digits acc (s ++ c ∷ []) ≡ some (v * 10 + (c - b'0'))
unfolding read_digits
read_digits-snoc acc [] c {v = v} h d = ground arith
read_digits-snoc acc (x ∷ s) c {v = v} h d =
    ground (arith, read_digits-snoc (acc * 10 + (x - b'0')) s c {v = v})

read_digits-show_fuel : (f n : ℕ) → n < f → read_digits 0 (show_fuel f n) ≡ some n
unfolding show_fuel
read_digits-show_fuel zero n h = absurd (omega arith)
read_digits-show_fuel (suc f) n h = elim (Bool-cases (ltb n 10)) [
  | inl small ↦ rw small (unfold read_digits in ground arith)
  | inr large ↦ rw large (
      read_digits-snoc 0 (show_fuel f (n / 10)) (b'0' + n % 10)
        (read_digits-show_fuel f (n / 10) (ground arith)) (ground arith)
      ∙ (ground arith))
]

-- Every byte of the text is a digit.
abbrev pub IsDigits : Text → Type 0
IsDigits [] = Unit
IsDigits (c ∷ s) = (is_digit c ≡ true) × IsDigits s

IsDigits-append : (s t : Text) → IsDigits s → IsDigits t → IsDigits (s ++ t)
IsDigits-append [] t hs ht = ht
IsDigits-append (c ∷ s) t hs ht = (hs.0, IsDigits-append s t hs.1 ht)

show_fuel-IsDigits : (f n : ℕ) → IsDigits (show_fuel f n)
unfolding show_fuel
show_fuel-IsDigits zero n = tt
show_fuel-IsDigits (suc f) n = elim (Bool-cases (ltb n 10)) [
  | inl small ↦ rw small (ground arith, tt)
  | inr large ↦ rw large (
      IsDigits-append (show_fuel f (n / 10)) (_ ∷ []) (show_fuel-IsDigits f (n / 10))
        (ground arith, tt))
]

pub show_nat-IsDigits : (n : ℕ) → IsDigits (show_nat n)
unfolding show_nat
show_nat-IsDigits n = show_fuel-IsDigits (suc n) n

-- A byte that is neither a digit nor the sign occurs in no printed number.
IsDigits-Lacks : (c : ℕ) (s : Text) → is_digit c ≡ false → IsDigits s → Lacks c s
IsDigits-Lacks c [] h d = tt
IsDigits-Lacks c (x ∷ s) h d = (ground arith, IsDigits-Lacks c s h d.1)

pub show_int-Lacks :
    (c : ℕ) (v : ℤ) → is_digit c ≡ false → (c == b'-') ≡ false → Lacks c (show_int v)
unfolding show_int
show_int-Lacks c (pos n) h _ = IsDigits-Lacks c (show_nat n) h (show_nat-IsDigits n)
show_int-Lacks c (negsuc n) h m =
    (ground arith, IsDigits-Lacks c (show_nat (suc n)) h (show_nat-IsDigits (suc n)))

snoc-ne-nil : (s : Text) (c : ℕ) → s ++ c ∷ [] ≢ []
snoc-ne-nil [] c e = cc
snoc-ne-nil (x ∷ s) c e = cc

show_nat-ne-nil : (n : ℕ) → show_nat n ≢ []
unfolding show_nat show_fuel
show_nat-ne-nil n = elim (Bool-cases (ltb n 10)) [
  | inl small ↦ rw small (λ e. cc)
  | inr large ↦ rw large (snoc-ne-nil (show_fuel n (n / 10)) (b'0' + n % 10))
]

read_nat_digits : (s : Text) (n : ℕ) → s ≢ [] → read_digits 0 s ≡ some n → read_nat s ≡ some n
unfolding read_nat
read_nat_digits [] n h e = absurd (h refl)
read_nat_digits (c ∷ s) n h e = e

pub read_nat-show_nat : (n : ℕ) → read_nat (show_nat n) ≡ some n
read_nat-show_nat n =
    read_nat_digits (show_nat n) n (show_nat-ne-nil n)
      (unfold show_nat in read_digits-show_fuel (suc n) n (omega arith))

read_int_digits : (s : Text) (n : ℕ) → IsDigits s → read_nat s ≡ some n → read_int s ≡ some (pos n)
unfolding read_int
read_int_digits [] n d e = ground arith
read_int_digits (c ∷ s) n d e = ground arith

-- Reading a printed integer gives it back.
pub read_int-show_int : (v : ℤ) → read_int (show_int v) ≡ some v
unfolding show_int
read_int-show_int (pos n) =
    read_int_digits (show_nat n) n (show_nat-IsDigits n) (read_nat-show_nat n)
read_int-show_int (negsuc n) = unfold read_int in rw (read_nat-show_nat (suc n))

pub atoi-show_int : (v : ℤ) → in_int64 v ≡ true → atoi (show_int v) ≡ some v
unfolding atoi
atoi-show_int v h = rw (read_int-show_int v, atoi) (rw h)

digits_of-IsDigits : (s : Text) → IsDigits s → digits_of s ≡ s
unfolding digits_of
digits_of-IsDigits [] h = refl
digits_of-IsDigits (c ∷ s) h = rw (h.0, digits_of-IsDigits s h.1)

integer_of-IsDigits : (s : Text) → IsDigits s → integer_of (skip_space s) ≡ s
unfolding integer_of skip_space digits_of
integer_of-IsDigits [] h = refl
integer_of-IsDigits (c ∷ s) h = ground (arith, digits_of-IsDigits s h.1)

integer_of-negative : (s : Text) → IsDigits s → integer_of (skip_space (b'-' ∷ s)) ≡ b'-' ∷ s
unfolding integer_of skip_space
integer_of-negative s h = ap (λ t. b'-' ∷ t) (digits_of-IsDigits s h)

integer_of-show_int : (v : ℤ) → integer_of (skip_space (show_int v)) ≡ show_int v
unfolding show_int
integer_of-show_int (pos n) = integer_of-IsDigits (show_nat n) (show_nat-IsDigits n)
integer_of-show_int (negsuc n) = integer_of-negative (show_nat (suc n)) (show_nat-IsDigits (suc n))

pub scan_int-show_int : (v : ℤ) → in_int64 v ≡ true → scan_int (show_int v) ≡ some v
unfolding scan_int
scan_int-show_int v h = rw (integer_of-show_int v) (atoi-show_int v h)
