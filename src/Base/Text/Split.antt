-- ===== src/Base/Text/Split.antt =====
-- Splitting a text at a byte that its parts do not hold.
use mup.Base.{ℕ, ◌≡◌, false, [], ◌∷◌, ◌++◌, arith, ◌==◌}
use mup.Base.Text.{Text, split}

-- The byte does not occur in the text.
abbrev pub Lacks : ℕ → Text → Type 0
Lacks c [] = Unit
Lacks c (x ∷ xs) = ((x == c) ≡ false) × Lacks c xs

pub Lacks-append : (c : ℕ) (s t : Text) → Lacks c s → Lacks c t → Lacks c (s ++ t)
Lacks-append c [] t hs ht = ht
Lacks-append c (x ∷ s) t hs ht = (hs.0, Lacks-append c s t hs.1 ht)

pub split-append : (c : ℕ) (s t : Text) → Lacks c s → split c (s ++ c ∷ t) ≡ s ∷ split c t
unfolding split
split-append c [] t h = ground arith
split-append c (x ∷ s) t h = ground (arith, split-append c s t h.1)

pub split_whole : (c : ℕ) (s : Text) → Lacks c s → split c s ≡ s ∷ []
unfolding split
split_whole c [] h = ground arith
split_whole c (x ∷ s) h = ground (arith, split_whole c s h.1)
