-- ===== src/Topology/Checks.antt =====
-- The loops of a validation: when they accept all nodes of a list.
use mup.Base.{
  ◌≡◌, ◌≢◌, refl, Bool, true, false, not, ◌&&◌, List, [], ◌∷◌, ◌++◌, map, Option, none, some, arith,
  inl, inr, ◌↔◌, Bool-cases, if◌then◌else◌, length, ◌==◌,
}
use mup.Base.Int.{ℤ, pos, eqb_ℤ, eqb_ℤ_iff}
use mup.Base.Text.{Text}
use mup.Base.Dict.{Dict}
use mup.Base.Results.{Error, Result, ok, err, is_ok, ◌>>=◌, Result-cases}
use mup.Topology.{check_all, is_empty, error_of}
use mup.Topology.Ports.{Endpoint, All, claim, check_all-cons}

-- A check of a node passes exactly if the node is fine and its claim of a port passes.
pub record Checks {A : Type 0} (fine : A → Type 0) (endpoint : A → Endpoint)
    (check : A → Dict Bool → Result (Dict Bool)) : Type 0 where
  pub only_fine : (x : A) (seen : Dict Bool) → is_ok (check x seen) ≡ true → fine x
  pub then_claims : (x : A) (seen : Dict Bool) → fine x → check x seen ≡ claim (endpoint x) seen

pub is_ok-bind :
    (r : Result (Dict Bool)) (f : Dict Bool → Result (Dict Bool))
    → is_ok (r >>= f) ≡ true
    → is_ok r ≡ true
is_ok-bind (ok a) f h = refl
is_ok-bind (err e) f h = h

pub bind-claims :
    {f g : Dict Bool → Result (Dict Bool)} (r : Result (Dict Bool))
    → ((s : Dict Bool) → f s ≡ g s)
    → (r >>= f) ≡ (r >>= g)
bind-claims (ok s) h = h s
bind-claims (err e) h = refl

pub bind-append :
    (r : Result (Dict Bool)) (es fs : List Endpoint)
    → ((s : Dict Bool)
        → check_all claim (es ++ fs) s ≡ (check_all claim es s >>= check_all claim fs))
    → (r >>= check_all claim (es ++ fs)) ≡ (r >>= check_all claim es >>= check_all claim fs)
bind-append (ok s) es fs h = h s
bind-append (err e) es fs h = refl

check_all-empty :
    {A : Type 0} (check : A → Dict Bool → Result (Dict Bool)) (seen : Dict Bool)
    → check_all check [] seen ≡ ok seen
unfolding check_all
check_all-empty check seen = refl

module _ {A : Type 0} {fine : A → Type 0} {endpoint : A → Endpoint}
    {check : A → Dict Bool → Result (Dict Bool)} (rule : Checks fine endpoint check) where
  pub check_all-claims :
      (xs : List A) (seen : Dict Bool)
      → All fine xs
      → check_all check xs seen ≡ check_all claim (map endpoint xs) seen
  check_all-claims [] seen h = rw (check_all-empty check seen, check_all-empty claim seen)
  check_all-claims (x ∷ xs) seen h =
      rw
        (
          check_all-cons check x xs seen,
          check_all-cons claim (endpoint x) (map endpoint xs) seen,
          rule.then_claims x seen h.0,
        )
        (bind-claims (claim (endpoint x) seen) (λ s. check_all-claims xs s h.1))

  pub check_all-fine :
      (xs : List A) (seen : Dict Bool) → is_ok (check_all check xs seen) ≡ true → All fine xs
  check_all-fine [] seen h = tt
  check_all-fine (x ∷ xs) seen h =
      let both = rw (check_all-cons check x xs seen) at h in
      elim (Result-cases (check x seen)) [
        | inl (e, r) ↦ absurd (cc (rw r at both))
        | inr (s, r) ↦ (rule.only_fine x seen (rw r), check_all-fine xs s (rw r at both))
      ]

pub check_all-append :
    (es fs : List Endpoint) (seen : Dict Bool)
    → check_all claim (es ++ fs) seen ≡ (check_all claim es seen >>= check_all claim fs)
check_all-append [] fs seen = rw (check_all-empty claim seen)
check_all-append (e ∷ es) fs seen =
    rw (check_all-cons claim e es seen, check_all-cons claim e (es ++ fs) seen)
      (bind-append (claim e seen) es fs (λ s. check_all-append es fs s))

-- A node has a host, and a port unless the deployment is local.
abbrev pub HasAddress : Bool → Endpoint → Type 0
HasAddress is_local (host, port) = (host ≢ []) × (port ≡ pos 0 → is_local ≡ true)

pub only_fine_address :
    (is_local : Bool) (host : Text) (port : ℤ) (e e' : Error) (r : Result (Dict Bool))
    → is_ok
        (if is_empty host then err e else if eqb_ℤ port (pos 0) && not is_local then err e' else r)
      ≡ true
    → HasAddress is_local (host, port) × (is_ok r ≡ true)
only_fine_address is_local [] port e e' r h = absurd (cc h)
only_fine_address true (c ∷ host) port e e' r h = elim (Bool-cases (eqb_ℤ port (pos 0))) [
  | inl q ↦ (((λ n. absurd (cc n)), (λ p. refl)), rw q at h)
  | inr q ↦ (((λ n. absurd (cc n)), (λ p. refl)), rw q at h)
]
only_fine_address false (c ∷ host) port e e' r h = elim (Bool-cases (eqb_ℤ port (pos 0))) [
  | inl q ↦ absurd (cc (rw q at h))
  | inr q ↦
      (((λ n. absurd (cc n)), (λ p. absurd (cc ((eqb_ℤ_iff port (pos 0)).1 p, q)))), rw q at h)
]

pub then_claims_address :
    (is_local : Bool) (host : Text) (port : ℤ) (e e' : Error) (r : Result (Dict Bool))
    → HasAddress is_local (host, port)
    → (if is_empty host then err e else if eqb_ℤ port (pos 0) && not is_local then err e' else r)
      ≡ r
then_claims_address is_local [] port e e' r h = absurd (h.0 refl)
then_claims_address true (c ∷ host) port e e' r h = elim (Bool-cases (eqb_ℤ port (pos 0))) [
  | inl q ↦ rw q
  | inr q ↦ rw q
]
then_claims_address false (c ∷ host) port e e' r h = elim (Bool-cases (eqb_ℤ port (pos 0))) [
  | inl q ↦ absurd (cc (h.1 ((eqb_ℤ_iff port (pos 0)).0 q)))
  | inr q ↦ rw q
]

pub if_set :
    (name : Text) (e : Error) (r : Result (Dict Bool))
    → is_ok (if is_empty name then err e else r) ≡ true
    → name ≢ []
if_set [] e r h = absurd (cc h)
if_set (c ∷ name) e r h = λ n. absurd (cc n)

pub claims_if_set :
    (name : Text) (e : Error) (r : Result (Dict Bool))
    → name ≢ []
    → (if is_empty name then err e else r) ≡ r
claims_if_set [] e r h = absurd (h refl)
claims_if_set (c ∷ name) e r h = refl

pub All-map :
    {A : Type 0} (P : Endpoint → Type 0) (f : A → Endpoint) (xs : List A)
    → All (λ x. P (f x)) xs ↔ All P (map f xs)
All-map P f [] = ((λ h. h), (λ h. h))
All-map P f (x ∷ xs) =
    let rest = All-map P f xs in ((λ h. (h.0, rest.0 h.1)), (λ h. (h.0, rest.1 h.1)))

pub All-both :
    {A : Type 0} (P Q : A → Type 0) (xs : List A) → All (λ x. P x × Q x) xs ↔ (All P xs × All Q xs)
All-both P Q [] = ((λ h. (tt, tt)), (λ h. tt))
All-both P Q (x ∷ xs) =
    let rest = All-both P Q xs in
    (
      (λ h. ((h.0.0, (rest.0 h.1).0), (h.0.1, (rest.0 h.1).1))),
      (λ h. ((h.0.0, h.1.0), rest.1 (h.0.1, h.1.1))),
    )

pub All-append :
    (P : Endpoint → Type 0) (es fs : List Endpoint) → All P (es ++ fs) ↔ (All P es × All P fs)
All-append P [] fs = ((λ h. (tt, h)), (λ h. h.1))
All-append P (e ∷ es) fs =
    let rest = All-append P es fs in
    ((λ h. ((h.0, (rest.0 h.1).0), (rest.0 h.1).1)), (λ h. (h.0.0, rest.1 (h.0.1, h.1))))

pub error_of-none : (r : Result (Dict Bool)) → (error_of r ≡ none) ↔ (is_ok r ≡ true)
error_of-none (ok x) = ((λ h. refl), (λ h. refl))
error_of-none (err e) = ((λ h. absurd (cc h)), (λ h. absurd (cc h)))

pub is_empty-false : (s : Text) → (is_empty s ≡ false) ↔ (s ≢ [])
is_empty-false [] = ((λ h. absurd (cc h)), (λ h. absurd (h refl)))
is_empty-false (c ∷ s) = ((λ h n. absurd (cc n)), (λ h. refl))

pub all_empty :
    {A B C : Type 0} (f : A → Endpoint) (g : B → Endpoint) (h : C → Endpoint) (xs : List A)
    (ys : List B) (zs : List C)
    → ((length xs == 0 && length ys == 0 && length zs == 0) ≡ false)
      ↔ ((map f xs ++ (map g ys ++ map h zs)) ≢ [])
all_empty f g h' [] [] [] = ((λ h. absurd (cc h)), (λ h. absurd (h refl)))
all_empty f g h' [] [] (z ∷ zs) = ((λ h n. absurd (cc n)), (λ h. ground arith))
all_empty f g h' [] (y ∷ ys) zs = ((λ h n. absurd (cc n)), (λ h. ground arith))
all_empty f g h' (x ∷ xs) ys zs = ((λ h n. absurd (cc n)), (λ h. ground arith))

pub guards_pass :
    {T : Type 0} (a b c : Bool) (e e' e'' : Error) (t t' : T) (r : Option Error)
    → ((if◌then◌else◌ {A = Option Error × T} a
          (some e, t)
          (if b then (some e', t) else if c then (some e'', t) else (r, t'))).0
        ≡ none)
      ↔ ((a ≡ false) × (b ≡ false) × (c ≡ false) × (r ≡ none))
guards_pass true b c e e' e'' t t' r = ((λ h. absurd (cc h)), (λ h. absurd (cc h.0)))
guards_pass false true c e e' e'' t t' r = ((λ h. absurd (cc h)), (λ h. absurd (cc h.1)))
guards_pass false false true e e' e'' t t' r = ((λ h. absurd (cc h)), (λ h. absurd (cc h.2)))
guards_pass false false false e e' e'' t t' r = ((λ h. (refl, refl, refl, h)), (λ h. h.3))

pub fine_after :
    {A : Type 0} {fine : A → Type 0} {endpoint : A → Endpoint}
    {check : A → Dict Bool → Result (Dict Bool)}
    → Checks fine endpoint check
    → (r : Result (Dict Bool)) (xs : List A) → is_ok (r >>= check_all check xs) ≡ true
    → All fine xs
fine_after rule (ok s) xs h = check_all-fine rule xs s h
fine_after rule (err e) xs h = absurd (cc h)
