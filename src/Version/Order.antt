-- ===== src/Version/Order.antt =====
-- `compare` is the lexicographic order of (major, minor, patch).
use mup.Base.{◌≡◌, sym, ◌∙◌, ◌↔◌, ◌⊎◌, inl, inr, arith}
use mup.Base.Int.{ℤ, pos, negsuc, ◌<ℤ◌}
use mup.Version.{MongoVersion, compare}

pub data Precedes (v w : MongoVersion) : Type 0 where
  by_major : v.major <ℤ w.major → Precedes v w
  by_minor : v.major ≡ w.major → v.minor <ℤ w.minor → Precedes v w
  by_patch : v.major ≡ w.major → v.minor ≡ w.minor → v.patch <ℤ w.patch → Precedes v w

-- The fields that `compare` reads are equal.
pub record Agrees (v w : MongoVersion) : Type 0 where
  pub same_major : v.major ≡ w.major
  pub same_minor : v.minor ≡ w.minor
  pub same_patch : v.patch ≡ w.patch

apart : {a : ℤ} → a ≡ negsuc 0 → a ≡ pos 0 → ⊥
apart e f = cc

apart2 : {a : ℤ} → a ≡ negsuc 0 → a ≡ pos 1 → ⊥
apart2 e f = cc

apart3 : {a : ℤ} → a ≡ pos 0 → a ≡ pos 1 → ⊥
apart3 e f = ground arith

three_way : (a b : ℤ) → (a <ℤ b) ⊎ ((a ≡ b) ⊎ (b <ℤ a))
three_way (pos a) (pos b) = grind arith
three_way (negsuc a) (negsuc b) = grind arith
three_way (pos a) (negsuc b) = inr (inr (omega arith))
three_way (negsuc a) (pos b) = inl (omega arith)

Precedes-compare : {v w : MongoVersion} → Precedes v w → compare v w ≡ negsuc 0
unfolding compare
Precedes-compare (by_major h) = ground arith
Precedes-compare (by_minor e h) = ground arith
Precedes-compare (by_patch e f h) = ground arith

Precedes-compare_flip : {v w : MongoVersion} → Precedes v w → compare w v ≡ pos 1
unfolding compare
Precedes-compare_flip (by_major h) = ground arith
Precedes-compare_flip (by_minor e h) = ground arith
Precedes-compare_flip (by_patch e f h) = ground arith

Agrees-compare : {v w : MongoVersion} → Agrees v w → compare v w ≡ pos 0
unfolding compare
Agrees-compare h = ground arith

-- One of the three holds of any two versions.
pub order3 : (v w : MongoVersion) → Precedes v w ⊎ (Agrees v w ⊎ Precedes w v)
order3 v w = elim (three_way v.major w.major) [
  | inl h ↦ inl (by_major h)
  | inr (inr h) ↦ inr (inr (by_major h))
  | inr (inl e) ↦ elim (three_way v.minor w.minor) [
    | inl h ↦ inl (by_minor e h)
    | inr (inr h) ↦ inr (inr (by_minor (sym e) h))
    | inr (inl f) ↦ elim (three_way v.patch w.patch) [
      | inl h ↦ inl (by_patch e f h)
      | inr (inr h) ↦ inr (inr (by_patch (sym e) (sym f) h))
      | inr (inl g) ↦ inr (inl (record { same_major = e; same_minor = f; same_patch = g }))
    ]
  ]
]

-- `compare` returns -1, 0 or 1, and says by it which of the three orders holds.
pub compare_correct :
    (v w : MongoVersion)
    → ((compare v w ≡ negsuc 0) ↔ Precedes v w)
      × ((compare v w ≡ pos 0) ↔ Agrees v w)
      × ((compare v w ≡ pos 1) ↔ Precedes w v)
compare_correct v w = elim (order3 v w) [
  | inl h ↦
      let c = Precedes-compare h in
      (
        (λ _. h, λ _. c),
        (λ e. absurd (apart c e), λ a. Agrees-compare a),
        (λ e. absurd (apart2 c e), λ k. Precedes-compare_flip k),
      )
  | inr (inl a) ↦
      let c = Agrees-compare a in
      (
        (λ e. absurd (apart e c), λ k. Precedes-compare k),
        (λ _. a, λ _. c),
        (λ e. absurd (apart3 c e), λ k. Precedes-compare_flip k),
      )
  | inr (inr h) ↦
      let c = Precedes-compare_flip h in
      (
        (λ e. absurd (apart2 e c), λ k. Precedes-compare k),
        (λ e. absurd (apart3 e c), λ a. Agrees-compare a),
        (λ _. h, λ _. c),
      )
]

-- The order is transitive.
pub Precedes-trans : {u v w : MongoVersion} → Precedes u v → Precedes v w → Precedes u w
Precedes-trans (by_major h) (by_major k) = by_major (omega arith)
Precedes-trans (by_major h) (by_minor e k) = by_major (rw (← e) h)
Precedes-trans (by_major h) (by_patch e f k) = by_major (rw (← e) h)
Precedes-trans (by_minor e h) (by_major k) = by_major (rw e k)
Precedes-trans (by_patch e f h) (by_major k) = by_major (rw e k)
Precedes-trans (by_minor e h) (by_minor f k) = by_minor (e ∙ f) (omega arith)
Precedes-trans (by_minor e h) (by_patch f g k) = by_minor (e ∙ f) (rw (← g) h)
Precedes-trans (by_patch e f h) (by_minor g k) = by_minor (e ∙ g) (rw f k)
Precedes-trans (by_patch e f h) (by_patch g i k) = by_patch (e ∙ g) (f ∙ i) (omega arith)
