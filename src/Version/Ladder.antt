-- ===== src/Version/Ladder.antt =====
-- What `validate_upgrade_path` accepts: a newer patch of one series, or the next series of the
-- supported path, which is written here once more as a list of numbers.
use mup.Base.{
  ◌≡◌, refl, sym, ap, ◌≢◌, ◌↔◌, ◌⊎◌, inl, inr, true, [], Option, none, some, arith, Bool-cases,
  if◌then◌else◌,
}
use mup.Base.Int.{ℤ, pos, ◌<ℤ◌, leb_ℤ}
use mup.Base.Text.{text_eq_iff}
use mup.Base.Dict.{lookup}
use mup.Version.{
  MongoVersion, compare, series_key, allowed_transitions, check_transition, validate_upgrade_path,
}
use mup.Version.Order.{
  Precedes, by_major, by_minor, by_patch, order3, compare_correct, Precedes-trans,
}
use mup.Version.Series.{
  Series, series, at, ladder, Adjacent, here, there, key, map_key, same, same_iff, text_eq-key,
  next_in, table-ladder, lookup-table, Adjacent-next_in, next_in-Adjacent,
}

-- The upgrades that MongoDB supports.
pub data Allowed (s t : MongoVersion) : Type 0 where
  patch_upgrade : s.major ≡ t.major → s.minor ≡ t.minor → s.patch <ℤ t.patch → Allowed s t
  series_upgrade : Adjacent (series s) (series t) ladder → Allowed s t

lookup-allowed :
    (v : MongoVersion)
    → lookup (series_key v.major v.minor) allowed_transitions ≡ map_key (next_in (series v) ladder)
lookup-allowed v = rw (← table-ladder) (lookup-table (series v) ladder)

check_transition-none :
    (s t : MongoVersion) (o : Option Series)
    → check_transition s t (map_key o) ≡ none
    → o ≡ some (series t)
unfolding check_transition
check_transition-none s t none e = cc
check_transition-none s t (some b) e =
    ground (arith, text_eq-key (series t) b, same_iff (series t) b)

check_transition-some : (s t : MongoVersion) → check_transition s t (some (key (series t))) ≡ none
unfolding check_transition
check_transition-some s t = ground (arith, text_eq_iff (key (series t)) (key (series t)))

Adjacent-lt :
    (s t : Series)
    → Adjacent s t ladder
    → (s.major <ℤ t.major) ⊎ ((s.major ≡ t.major) × (s.minor <ℤ t.minor))
Adjacent-lt s t here = omega arith
Adjacent-lt s t (there here) = inr (refl, omega arith)
Adjacent-lt s t (there (there here)) = inr (refl, omega arith)
Adjacent-lt s t (there (there (there here))) = omega arith
Adjacent-lt s t (there (there (there (there here)))) = omega arith
Adjacent-lt s t (there (there (there (there (there here))))) = omega arith
Adjacent-lt s t (there (there (there (there (there (there here)))))) = omega arith
Adjacent-lt s t (there (there (there (there (there (there (there (there h)))))))) = elim h [ ]

-- Every supported upgrade is to a later version.
pub Allowed-Precedes : (s t : MongoVersion) → Allowed s t → Precedes s t
Allowed-Precedes s t (patch_upgrade e f h) = by_patch e f h
Allowed-Precedes s t (series_upgrade adj) = elim (Adjacent-lt (series s) (series t) adj) [
  | inl h ↦ by_major h
  | inr (e, h) ↦ by_minor e h
]

validate_later :
    (s t : MongoVersion)
    → Precedes s t
    → validate_upgrade_path s t ≡ (
        if same (series s) (series t)
        then none
        else check_transition s t (map_key (next_in (series s) ladder)))
unfolding validate_upgrade_path same
validate_later s t h = let later = (compare_correct t s).2.1 h in rw (later, lookup-allowed s) refl

validate_not_later :
    (s t : MongoVersion) {k : ℤ}
    → compare t s ≡ k
    → leb_ℤ k (pos 0) ≡ true
    → validate_upgrade_path s t ≢ none
unfolding validate_upgrade_path
validate_not_later s t c l e = ground arith

Allowed-validate : (s t : MongoVersion) → Allowed s t → validate_upgrade_path s t ≡ none
Allowed-validate s t (patch_upgrade e f h) =
    let agree = (same_iff (series s) (series t)).1 (ground arith) in
    rw (validate_later s t (by_patch e f h)) (rw agree)
Allowed-validate s t (series_upgrade adj) =
    rw (validate_later s t (Allowed-Precedes s t (series_upgrade adj))) (
      rw (next_in-Adjacent (series s) (series t) adj)
        (rw (check_transition-some s t) (ground arith)))

Precedes-patch :
    (s t : MongoVersion) → s.major ≡ t.major → s.minor ≡ t.minor → Precedes s t → s.patch <ℤ t.patch
Precedes-patch s t e f (by_major h) = absurd (ground arith)
Precedes-patch s t e f (by_minor _ h) = absurd (ground arith)
Precedes-patch s t e f (by_patch _ _ h) = h

validate_later-Allowed :
    (s t : MongoVersion) → Precedes s t → validate_upgrade_path s t ≡ none → Allowed s t
validate_later-Allowed s t h e = elim (Bool-cases (same (series s) (series t))) [
  | inl agree ↦
      let one : series s ≡ series t = (same_iff (series s) (series t)).0 agree in
      let major : s.major ≡ t.major = ap (λ (x : Series). x.major) one in
      let minor : s.minor ≡ t.minor = ap (λ (x : Series). x.minor) one in
      patch_upgrade major minor (Precedes-patch s t major minor h)
  | inr differ ↦ series_upgrade (
      Adjacent-next_in (series s) (series t) ladder (
        check_transition-none s t (next_in (series s) ladder)
          (rw (validate_later s t h, differ) at e)))
]

validate-Allowed : (s t : MongoVersion) → validate_upgrade_path s t ≡ none → Allowed s t
validate-Allowed s t e = elim (order3 s t) [
  | inl h ↦ validate_later-Allowed s t h e
  | inr (inl a) ↦ absurd (
      validate_not_later s t
        ((compare_correct t s).1.1 (record {
          same_major = sym a.same_major;
          same_minor = sym a.same_minor;
          same_patch = sym a.same_patch;
        }))
        refl e)
  | inr (inr h) ↦ absurd (validate_not_later s t ((compare_correct t s).0.1 h) refl e)
]

-- The check accepts an upgrade exactly when it goes to a newer patch of the same series or to
-- the series that stands next on the supported path 3.6, 4.0, 4.2, 4.4, 5.0, 6.0, 7.0, 8.0.
pub validate_upgrade_path-Allowed :
    (s t : MongoVersion) → (validate_upgrade_path s t ≡ none) ↔ Allowed s t
validate_upgrade_path-Allowed s t = (validate-Allowed s t, Allowed-validate s t)

-- Upgrades one after another.
pub data Upgrades (s : MongoVersion) : MongoVersion → Type 0 where
  stay : Upgrades s s
  upgrade : {t u : MongoVersion} → Upgrades s t → validate_upgrade_path t u ≡ none → Upgrades s u

-- A chain of accepted upgrades never comes back: it ends at its start, or at a later version.
pub Upgrades-Precedes : {s t : MongoVersion} → Upgrades s t → (s ≡ t) ⊎ Precedes s t
Upgrades-Precedes stay = inl refl
Upgrades-Precedes (upgrade {t = t} {u = u} chain e) = elim (Upgrades-Precedes chain) [
  | inl same_version ↦ inr (rw same_version (Allowed-Precedes t u (validate-Allowed t u e)))
  | inr h ↦ inr (Precedes-trans h (Allowed-Precedes t u (validate-Allowed t u e)))
]

-- The least version of a series.
abbrev base_of : Series → MongoVersion
base_of s = record { major = s.major; minor = s.minor; patch = pos 0; raw = [] }

Upgrades-trans : {s t u : MongoVersion} → Upgrades s t → Upgrades t u → Upgrades s u
Upgrades-trans a stay = a
Upgrades-trans a (upgrade b e) = upgrade (Upgrades-trans a b) e

step : (s t : MongoVersion) → Adjacent (series s) (series t) ladder → Upgrades s t
step s t adj = upgrade stay (Allowed-validate s t (series_upgrade adj))

-- The ways to a version of the last series, from the top down.
module _ (t : MongoVersion) (last : at (pos 8) (pos 0) ≡ series t) where
  from_7_0 : (s : MongoVersion) → at (pos 7) (pos 0) ≡ series s → Upgrades s t
  from_7_0 s e = step s t (rw (← e, ← last) (there (there (there (there (there (there here)))))))

  from_6_0 : (s : MongoVersion) → at (pos 6) (pos 0) ≡ series s → Upgrades s t
  from_6_0 s e =
      let next = base_of (at (pos 7) (pos 0)) in
      Upgrades-trans (step s next (rw (← e) (there (there (there (there (there here)))))))
        (from_7_0 next refl)

  from_5_0 : (s : MongoVersion) → at (pos 5) (pos 0) ≡ series s → Upgrades s t
  from_5_0 s e =
      let next = base_of (at (pos 6) (pos 0)) in
      Upgrades-trans (step s next (rw (← e) (there (there (there (there here))))))
        (from_6_0 next refl)

  from_4_4 : (s : MongoVersion) → at (pos 4) (pos 4) ≡ series s → Upgrades s t
  from_4_4 s e =
      let next = base_of (at (pos 5) (pos 0)) in
      Upgrades-trans (step s next (rw (← e) (there (there (there here))))) (from_5_0 next refl)

  from_4_2 : (s : MongoVersion) → at (pos 4) (pos 2) ≡ series s → Upgrades s t
  from_4_2 s e =
      let next = base_of (at (pos 4) (pos 4)) in
      Upgrades-trans (step s next (rw (← e) (there (there here)))) (from_4_4 next refl)

  from_4_0 : (s : MongoVersion) → at (pos 4) (pos 0) ≡ series s → Upgrades s t
  from_4_0 s e =
      let next = base_of (at (pos 4) (pos 2)) in
      Upgrades-trans (step s next (rw (← e) (there here))) (from_4_2 next refl)

  from_3_6 : (s : MongoVersion) → at (pos 3) (pos 6) ≡ series s → Upgrades s t
  from_3_6 s e =
      let next = base_of (at (pos 4) (pos 0)) in
      Upgrades-trans (step s next (rw (← e) (here))) (from_4_0 next refl)

  from_rung : (s : MongoVersion) (x y : Series) → Adjacent x y ladder → x ≡ series s → Upgrades s t
  from_rung s x y here e = from_3_6 s e
  from_rung s x y (there here) e = from_4_0 s e
  from_rung s x y (there (there here)) e = from_4_2 s e
  from_rung s x y (there (there (there here))) e = from_4_4 s e
  from_rung s x y (there (there (there (there here)))) e = from_5_0 s e
  from_rung s x y (there (there (there (there (there here))))) e = from_6_0 s e
  from_rung s x y (there (there (there (there (there (there here)))))) e = from_7_0 s e
  from_rung s x y (there (there (there (there (there (there (there (there h)))))))) e = elim h [ ]

-- From any version whose series is on the path and is not the last one, each version of the last
-- series can be reached by upgrades that the check accepts.
pub Upgrades-latest :
    (s t : MongoVersion) {next : Series}
    → Adjacent (series s) next ladder
    → at (pos 8) (pos 0) ≡ series t
    → Upgrades s t
Upgrades-latest s t {next} adj last = from_rung t last s (series s) next adj refl
