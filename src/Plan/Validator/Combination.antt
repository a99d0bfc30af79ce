-- ===== src/Plan/Validator/Combination.antt =====
-- Several runs that are combined are as good as one run of all checks.
use mathlib.Core.List.{append_assoc, append-nil, flatten}
use mup.Base.{
  ◌≡◌, ◌≢◌, ◌↔◌, refl, sym, ap, ◌∙◌, Bool, true, false, not, List, [], ◌∷◌, ◌++◌, map,
  if◌then◌else◌,
}
use mup.Plan.{ValidationResult, CheckResult, CheckStatus, passed, failed, warned, other}
use mup.Plan.Validator.{
  new_result, note_status, note_check, note_checks, run_validators, combine_from,
  combine_validation_results,
}

-- Two results put together.
merge : ValidationResult → ValidationResult → ValidationResult
merge r s = record {
  valid = if not s.valid then false else r.valid;
  errors = r.errors ++ s.errors;
  warnings = r.warnings ++ s.warnings;
  checks = r.checks ++ s.checks;
}

result_eq :
    (r s : ValidationResult)
    → r.valid ≡ s.valid
    → r.errors ≡ s.errors
    → r.warnings ≡ s.warnings
    → r.checks ≡ s.checks
    → r ≡ s
result_eq r s a b c d = cc (a, b, c, d)

both_assoc :
    (a b c : Bool)
    → (if not c then false else if not b then false else a)
      ≡ (if not (if not c then false else b) then false else a)
both_assoc a b true = refl
both_assoc a b false = refl

merge_assoc : (r s t : ValidationResult) → merge (merge r s) t ≡ merge r (merge s t)
unfolding merge
merge_assoc r s t =
    result_eq _ _ (both_assoc r.valid s.valid t.valid) (append_assoc r.errors s.errors t.errors)
      (append_assoc r.warnings s.warnings t.warnings) (append_assoc r.checks s.checks t.checks)

merge_new : (r : ValidationResult) → merge r new_result ≡ r
unfolding merge
merge_new r = result_eq _ _ refl (append-nil r.errors) (append-nil r.warnings) (append-nil r.checks)

note_status-merge :
    (status : CheckStatus) (r : ValidationResult) (c : CheckResult)
    → note_status status c (record r { checks = r.checks ++ c ∷ [] })
      ≡ merge r (note_status status c (record new_result { checks = c ∷ [] }))
unfolding note_status merge
note_status-merge failed r c = result_eq _ _ refl refl (sym (append-nil r.warnings)) refl
note_status-merge warned r c = result_eq _ _ refl (sym (append-nil r.errors)) refl refl
note_status-merge passed r c =
    result_eq _ _ refl (sym (append-nil r.errors)) (sym (append-nil r.warnings)) refl
note_status-merge (other s) r c =
    result_eq _ _ refl (sym (append-nil r.errors)) (sym (append-nil r.warnings)) refl

note_check-merge :
    (r : ValidationResult) (c : CheckResult) → note_check r c ≡ merge r (note_check new_result c)
unfolding note_check
note_check-merge r c = note_status-merge c.status r c

note_checks-merge :
    (r : ValidationResult) (cs : List CheckResult) → note_checks r cs ≡ merge r (run_validators cs)
unfolding note_checks run_validators
note_checks-merge r [] = sym (merge_new r)
note_checks-merge r (c ∷ cs) =
    note_checks-merge (note_check r c) cs
    ∙ ap (λ x. merge x (run_validators cs)) (note_check-merge r c)
    ∙ merge_assoc r (note_check new_result c) (run_validators cs)
    ∙ ap (merge r) (sym (note_checks-merge (note_check new_result c) cs))

note_checks-append :
    (r : ValidationResult) (cs ds : List CheckResult)
    → note_checks r (cs ++ ds) ≡ note_checks (note_checks r cs) ds
unfolding note_checks
note_checks-append r [] ds = refl
note_checks-append r (c ∷ cs) ds = note_checks-append (note_check r c) cs ds

combine_from-note_checks :
    (r : ValidationResult) (runs : List (List CheckResult))
    → combine_from r (map run_validators runs) ≡ note_checks r (flatten runs)
unfolding combine_from note_checks flatten merge
combine_from-note_checks r [] = refl
combine_from-note_checks r (cs ∷ runs) =
    combine_from-note_checks (merge r (run_validators cs)) runs
    ∙ ap (λ x. note_checks x (flatten runs)) (sym (note_checks-merge r cs))
    ∙ sym (note_checks-append r cs (flatten runs))

-- No check of the list has failed.
abbrev pub NoneFailed : List CheckResult → Type 0
NoneFailed [] = Unit
NoneFailed (c ∷ cs) = (c.status ≢ failed) × NoneFailed cs

valid-status :
    (status : CheckStatus) (r : ValidationResult) (c : CheckResult)
    → ((note_status status c r).valid ≡ true) ↔ ((r.valid ≡ true) × (status ≢ failed))
unfolding note_status
valid-status failed r c = ((λ h. absurd (cc h)), (λ h. absurd (h.1 refl)))
valid-status warned r c = ((λ h. (h, λ e. cc e)), (λ h. h.0))
valid-status passed r c = ((λ h. (h, λ e. cc e)), (λ h. h.0))
valid-status (other s) r c = ((λ h. (h, λ e. cc e)), (λ h. h.0))

valid-note_checks :
    (r : ValidationResult) (cs : List CheckResult)
    → ((note_checks r cs).valid ≡ true) ↔ ((r.valid ≡ true) × NoneFailed cs)
unfolding note_checks note_check
valid-note_checks r [] = ((λ h. (h, tt)), (λ h. h.0))
valid-note_checks r (c ∷ cs) =
    let here = valid-status c.status (record r { checks = r.checks ++ c ∷ [] }) c in
    let rest = valid-note_checks (note_check r c) cs in
    (
      (λ h. let k = rest.0 h in let l = here.0 k.0 in (l.0, (l.1, k.1))),
      (λ h. rest.1 (here.1 (h.0, h.1.0), h.1.1)),
    )

-- Combining the results of several runs gives the result of one run of all their checks, one run
-- after another; and that is valid exactly if no check has failed.
pub combine_validation_results-run_validators :
    (runs : List (List CheckResult))
    → (combine_validation_results (map run_validators runs) ≡ run_validators (flatten runs))
      × (((combine_validation_results (map run_validators runs)).valid ≡ true)
          ↔ NoneFailed (flatten runs))
unfolding combine_validation_results run_validators
combine_validation_results-run_validators runs =
    let same = combine_from-note_checks new_result runs in
    let all = valid-note_checks new_result (flatten runs) in
    (same, rw same ((λ h. (all.0 h).1), (λ h. all.1 (refl, h))))
