-- ===== src/Topology/Ports.antt =====
-- The ports that a validation has seen: when the claims of a list of nodes all succeed.
use mathlib.Core.Path.{subst}
use mup.Base.{
  ◌≡◌, ◌≢◌, refl, ap, ◌∙◌, sym, Bool, true, false, List, [], ◌∷◌, arith, inl, inr, ◌↔◌, Bool-cases,
  if◌then◌else◌,
}
use mup.Base.Int.{ℤ, pos, ◌<ℤ◌, ltb_ℤ}
use mup.Base.Text.{Text, text_eq, text_eq_iff}
use mup.Base.Dict.{Dict, lookup, insert, lookup-insert}
use mup.Base.Results.{Result, ok, err, is_ok, ◌>>=◌}
use mup.Topology.{check_all, claim_port, is_seen, port_key}
use mup.Topology.NodeId.{port_key-injective}

abbrev pub Endpoint : Type 0
Endpoint = Text × ℤ

abbrev pub All {ℓ} : {A : Type ℓ} → (A → Type 0) → List A → Type 0
All P [] = Unit
All P (x ∷ xs) = P x × All P xs

-- No two places of the list have the same host and the same positive port.
abbrev pub Distinct : List Endpoint → Type 0
Distinct [] = Unit
Distinct (e ∷ es) = (pos 0 <ℤ e.1 → All (λ e'. e ≢ e') es) × Distinct es

unfoldable pub claim : Endpoint → Dict Bool → Result (Dict Bool)
claim e seen = claim_port e.0 e.1 seen

is_seen-insert :
    (k j : Text) (seen : Dict Bool)
    → is_seen j (insert k true seen) ≡ (if text_eq k j then true else is_seen j seen)
unfolding is_seen
is_seen-insert k j seen = elim (Bool-cases (text_eq k j)) [
  | inl e ↦ rw (is_seen, lookup-insert k j true seen, e)
  | inr e ↦ rw (is_seen, lookup-insert k j true seen, e)
]

claim-free :
    (host : Text) (port : ℤ) (seen : Dict Bool)
    → ltb_ℤ (pos 0) port ≡ true
    → is_seen (port_key host port) seen ≡ false
    → claim (host, port) seen ≡ ok (insert (port_key host port) true seen)
unfolding claim claim_port
claim-free host port seen p f = rw (p, f)

claim-taken :
    (host : Text) (port : ℤ) (seen : Dict Bool)
    → ltb_ℤ (pos 0) port ≡ true
    → is_seen (port_key host port) seen ≡ true
    → is_ok (claim (host, port) seen) ≡ false
unfolding claim claim_port
claim-taken host port seen p f = rw (p, f)

claim-skipped :
    (host : Text) (port : ℤ) (seen : Dict Bool)
    → ltb_ℤ (pos 0) port ≡ false
    → claim (host, port) seen ≡ ok seen
unfolding claim claim_port
claim-skipped host port seen p = rw p

All-always {ℓ} : {A : Type ℓ} {P : A → Type 0} (xs : List A) → ((x : A) → P x) → All P xs
All-always [] f = tt
All-always (x ∷ xs) f = (f x, All-always xs f)

not_positive : (p : ℤ) → ltb_ℤ (pos 0) p ≡ false → ¬ (pos 0 <ℤ p)
not_positive p h q = ground arith

is_positive : (p : ℤ) → ltb_ℤ (pos 0) p ≡ true → pos 0 <ℤ p
is_positive p h = ground arith

pair_eq : (e e' : Endpoint) → e.0 ≡ e'.0 → e.1 ≡ e'.1 → e ≡ e'
pair_eq e e' h k = cc (h, k)

All-map {ℓ} :
    {A : Type ℓ} {P Q : A → Type 0} (xs : List A) → ((x : A) → P x → Q x) → All P xs → All Q xs
All-map [] f h = tt
All-map (x ∷ xs) f h = (f x h.0, All-map xs f h.1)

All-both {ℓ} :
    {A : Type ℓ} {P Q R : A → Type 0} (xs : List A)
    → ((x : A) → P x → Q x → R x)
    → All P xs
    → All Q xs
    → All R xs
All-both [] f h k = tt
All-both (x ∷ xs) f h k = (f x h.0 k.0, All-both xs f h.1 k.1)

pub bind-err :
    (r : Result (Dict Bool)) (f : Dict Bool → Result (Dict Bool))
    → is_ok r ≡ false
    → is_ok (r >>= f) ≡ false
bind-err (ok a) f h = absurd (cc h)
bind-err (err e) f h = refl

check_all-nil {ℓ} :
    {A : Type ℓ} (check : A → Dict Bool → Result (Dict Bool)) (seen : Dict Bool)
    → is_ok (check_all check [] seen) ≡ true
unfolding check_all
check_all-nil check seen = refl

pub check_all-cons {ℓ} :
    {A : Type ℓ} (check : A → Dict Bool → Result (Dict Bool)) (x : A) (xs : List A)
    (seen : Dict Bool)
    → check_all check (x ∷ xs) seen ≡ (check x seen >>= check_all check xs)
unfolding check_all
check_all-cons check x xs seen = refl

is_seen-new :
    (k j : Text) (seen : Dict Bool)
    → is_seen j (insert k true seen) ≡ false
    → (k ≢ j) × (is_seen j seen ≡ false)
is_seen-new k j seen h =
    let q = is_seen-insert k j seen in
    elim (Bool-cases (text_eq k j)) [
      | inl e ↦ absurd (cc (rw e at q, h))
      | inr e ↦ (λ same. absurd (cc ((text_eq_iff k j).1 same, e)), sym (rw e at q) ∙ h)
    ]

is_seen-old :
    (k j : Text) (seen : Dict Bool)
    → k ≢ j
    → is_seen j seen ≡ false
    → is_seen j (insert k true seen) ≡ false
is_seen-old k j seen ne h =
    let q = is_seen-insert k j seen in
    elim (Bool-cases (text_eq k j)) [
      | inl e ↦ absurd (ne ((text_eq_iff k j).0 e))
      | inr e ↦ (rw e at q) ∙ h
    ]

-- The endpoint's key, where its port is positive, is not among those seen.
abbrev IsNew : Dict Bool → Endpoint → Type 0
IsNew seen e = pos 0 <ℤ e.1 → is_seen (port_key e.0 e.1) seen ≡ false

IsNew-before :
    (e : Endpoint) (seen : Dict Bool) (e' : Endpoint)
    → IsNew (insert (port_key e.0 e.1) true seen) e'
    → IsNew seen e'
IsNew-before e seen e' h p = (is_seen-new (port_key e.0 e.1) (port_key e'.0 e'.1) seen (h p)).1

IsNew-differs :
    (e : Endpoint) (seen : Dict Bool)
    → pos 0 <ℤ e.1
    → (e' : Endpoint) → IsNew (insert (port_key e.0 e.1) true seen) e'
    → e ≢ e'
IsNew-differs e seen p e' h same =
    (is_seen-new (port_key e.0 e.1) (port_key e'.0 e'.1) seen
        (h (subst (λ (x : Endpoint). pos 0 <ℤ x.1) same p))).0
      (ap (λ (x : Endpoint). port_key x.0 x.1) same)

IsNew-after :
    (e : Endpoint) (seen : Dict Bool) (e' : Endpoint)
    → e ≢ e'
    → IsNew seen e'
    → IsNew (insert (port_key e.0 e.1) true seen) e'
IsNew-after e seen e' ne h p =
    is_seen-old (port_key e.0 e.1) (port_key e'.0 e'.1) seen
      (λ same.
        let parts = port_key-injective e.0 e'.0 e.1 e'.1 same in ne (pair_eq e e' parts.0 parts.1))
      (h p)

-- If all claims succeed then the endpoints are new and distinct.
claims_sound :
    (es : List Endpoint) (seen : Dict Bool)
    → is_ok (check_all claim es seen) ≡ true
    → All (IsNew seen) es × Distinct es
claims_sound [] seen h = (tt, tt)
claims_sound (e ∷ es) seen h = elim (Bool-cases (ltb_ℤ (pos 0) e.1)) [
  | inr p ↦
      let rest =
        claims_sound es seen
          (rw (claim-skipped e.0 e.1 seen p) at (rw (check_all-cons claim e es seen) at h)) in
      ((λ q. absurd (not_positive e.1 p q), rest.0), (λ q. absurd (not_positive e.1 p q), rest.1))
  | inl p ↦ elim (Bool-cases (is_seen (port_key e.0 e.1) seen)) [
    | inl f ↦
        let failed = bind-err _ (check_all claim es) (claim-taken e.0 e.1 seen p f) in
        absurd (cc (failed, rw (check_all-cons claim e es seen) at h))
    | inr f ↦
        let rest =
          claims_sound es (insert (port_key e.0 e.1) true seen)
            (rw (claim-free e.0 e.1 seen p f) at (rw (check_all-cons claim e es seen) at h)) in
        (
          (λ q. f, All-map es (IsNew-before e seen) rest.0),
          (λ q. All-map es (IsNew-differs e seen q) rest.0, rest.1),
        )
  ]
]

claims_complete :
    (es : List Endpoint) (seen : Dict Bool)
    → All (IsNew seen) es
    → Distinct es
    → is_ok (check_all claim es seen) ≡ true
claims_complete [] seen new distinct = check_all-nil claim seen
claims_complete (e ∷ es) seen new distinct = elim (Bool-cases (ltb_ℤ (pos 0) e.1)) [
  | inr p ↦
      rw (check_all-cons claim e es seen, claim-skipped e.0 e.1 seen p)
        (claims_complete es seen new.1 distinct.1)
  | inl p ↦
      rw (check_all-cons claim e es seen, claim-free e.0 e.1 seen p (new.0 (is_positive e.1 p)))
        (claims_complete es (insert (port_key e.0 e.1) true seen)
          (All-both es (IsNew-after e seen) (distinct.0 (is_positive e.1 p)) new.1) distinct.1)
]

pub claims_correct : (es : List Endpoint) → (is_ok (check_all claim es []) ≡ true) ↔ Distinct es
unfolding is_seen lookup
claims_correct es =
    ((λ h. (claims_sound es [] h).1), (λ d. claims_complete es [] (All-always es (λ e p. refl)) d))
