-- ===== src/Apply/Store/Latest.antt =====
-- The current state is the one that was started last.
use mathlib.Core.List.{append-nil, append_assoc}
use mup.Base.{
  ◌≤◌, ◌<◌, ◌≡◌, refl, sym, ap, ◌∙◌, inl, inr, arith, List, [], ◌∷◌, ◌++◌, Option, some, ltb,
  Bool-cases,
}
use mup.Base.Results.{Error, Result, ok, err, Result-cases}
use mup.Apply.{ApplyState}
use mup.Apply.Store.{Listing, list_states, latest_from, get_current_state}

abbrev pub All : (ApplyState → Type 0) → List ApplyState → Type 0
All P [] = Unit
All P (x ∷ xs) = P x × All P xs

All-append :
    (P : ApplyState → Type 0) (xs ys : List ApplyState) → All P xs → All P ys → All P (xs ++ ys)
All-append P [] ys h k = k
All-append P (x ∷ xs) ys h k = (h.0, All-append P xs ys h.1 k)

All-weaken :
    {P Q : ApplyState → Type 0} (xs : List ApplyState)
    → ((x : ApplyState) → P x → Q x)
    → All P xs
    → All Q xs
All-weaken [] f h = tt
All-weaken (x ∷ xs) f h = (f x h.0, All-weaken xs f h.1)

-- The state is the first of those that were started last.
pub record IsLatest (s : ApplyState) (states : List ApplyState) : Type 0 where
  pub before : List ApplyState
  pub after : List ApplyState
  pub is_split : states ≡ before ++ s ∷ after
  pub earlier : All (λ t. t.started_at < s.started_at) before
  pub no_later : All (λ t. t.started_at ≤ s.started_at) after

IsLatest-keep :
    (s x : ApplyState) (seen : List ApplyState)
    → x.started_at ≤ s.started_at
    → IsLatest s seen
    → IsLatest s (seen ++ x ∷ [])
IsLatest-keep s x seen le h = record {
  before = h.before;
  after = h.after ++ x ∷ [];
  is_split = ap (λ l. l ++ x ∷ []) h.is_split ∙ append_assoc h.before (s ∷ h.after) (x ∷ []);
  earlier = h.earlier;
  no_later = All-append (λ t. t.started_at ≤ s.started_at) h.after (x ∷ []) h.no_later (le, tt);
}

IsLatest-All :
    (s : ApplyState) (seen : List ApplyState)
    → IsLatest s seen
    → All (λ t. t.started_at ≤ s.started_at) seen
IsLatest-All s seen h = rw h.is_split (
    All-append (λ t. t.started_at ≤ s.started_at) h.before (s ∷ h.after)
      (All-weaken h.before (λ t k. omega arith) h.earlier) (omega arith, h.no_later))

IsLatest-replace :
    (s x : ApplyState) (seen : List ApplyState)
    → s.started_at < x.started_at
    → IsLatest s seen
    → IsLatest x (seen ++ x ∷ [])
IsLatest-replace s x seen lt h = record {
  before = seen;
  after = [];
  is_split = refl;
  earlier = All-weaken seen (λ t k. omega arith) (IsLatest-All s seen h);
  no_later = tt;
}

latest_from-IsLatest :
    (s : ApplyState) (seen states : List ApplyState)
    → IsLatest s seen
    → (r : ApplyState) × (latest_from (some s) states ≡ some r) × IsLatest r (seen ++ states)
unfolding latest_from
latest_from-IsLatest s seen [] h = (s, refl, rw (append-nil seen) h)
latest_from-IsLatest s seen (x ∷ states) h = elim (Bool-cases (ltb s.started_at x.started_at)) [
  | inl e ↦
      rw (e, sym (append_assoc seen (x ∷ []) states))
        (latest_from-IsLatest x (seen ++ x ∷ []) states
          (IsLatest-replace s x seen (ground arith) h))
  | inr e ↦
      rw (e, sym (append_assoc seen (x ∷ []) states))
        (latest_from-IsLatest s (seen ++ x ∷ []) states (IsLatest-keep s x seen (ground arith) h))
]

-- What `GetCurrentState` comes to.
pub data Ends (listing : Listing) : Result (Option ApplyState) → Type 0 where
  fails : (e : Error) → list_states listing ≡ err e → Ends listing (err e)
  finds_none : (e : Error) → list_states listing ≡ ok [] → Ends listing (err e)
  finds :
      (states : List ApplyState) (s : ApplyState)
      → list_states listing ≡ ok states
      → IsLatest s states
      → Ends listing (ok (some s))

-- `GetCurrentState` returns an error if the directory cannot be listed or holds no state that can be
-- loaded. Otherwise it returns a state of the directory: the first of those that were started last.
pub get_current_state-Ends : (listing : Listing) → Ends listing (get_current_state listing)
unfolding get_current_state latest_from
get_current_state-Ends listing = elim (Result-cases (list_states listing)) [
  | inl (e, h) ↦ rw (h, get_current_state) (fails e h)
  | inr ([], h) ↦ rw (h, get_current_state) (finds_none _ h)
  | inr (s ∷ rest, h) ↦
      let (r, found, latest) =
        latest_from-IsLatest s (s ∷ []) rest
          (record { before = []; after = []; is_split = refl; earlier = tt; no_later = tt }) in
      rw (h, get_current_state, found) (finds (s ∷ rest) r h latest)
]
