-- ===== src/Plan/Validator.antt =====
-- pkg/plan/validator.go: the runner of validation checks, and the combination of results. A check
-- is outside, so the runner gets the results of the checks, in the order in which the loop receives
-- them: in parallel mode that is the order of their arrival.
pub mod Combination
use mup.Base.{◌≡◌, Bool, true, false, not, List, [], ◌∷◌, ◌++◌, if◌then◌else◌}
use mup.Base.Text.{Text}
use mup.Plan.{
  ValidationResult, ValidationIssue, CheckResult, CheckStatus, Severity, passed, failed, warned,
  other, error, warning,
}

abbrev pub new_result : ValidationResult
new_result = record { valid = true; errors = []; warnings = []; checks = [] }

abbrev pub issue_of : Severity → CheckResult → ValidationIssue
issue_of severity c = record {
  code = c.name;
  message = c.message;
  host = c.host;
  severity = severity;
}

-- The switch on the status, after the check itself has been added.
unfoldable pub note_status : CheckStatus → CheckResult → ValidationResult → ValidationResult
note_status failed c result = record result {
  valid = false;
  errors = result.errors ++ issue_of error c ∷ [];
}
note_status warned c result = record result {
  warnings = result.warnings ++ issue_of warning c ∷ [];
}
note_status passed c result = result
note_status (other _) c result = result

-- The body of the loop.
unfoldable pub note_check : ValidationResult → CheckResult → ValidationResult
note_check result c = note_status c.status c (record result { checks = result.checks ++ c ∷ [] })

unfoldable pub note_checks : ValidationResult → List CheckResult → ValidationResult
note_checks result [] = result
note_checks result (c ∷ received) = note_checks (note_check result c) received

-- Both modes; `received` is in the order of the validators or in that of their arrival.
unfoldable pub run_validators : List CheckResult → ValidationResult
run_validators received = note_checks new_result received

unfoldable pub combine_from : ValidationResult → List ValidationResult → ValidationResult
combine_from combined [] = combined
combine_from combined (result ∷ results) =
    combine_from
      (record {
        valid = if not result.valid then false else combined.valid;
        errors = combined.errors ++ result.errors;
        warnings = combined.warnings ++ result.warnings;
        checks = combined.checks ++ result.checks;
      })
      results

unfoldable pub combine_validation_results : List ValidationResult → ValidationResult
combine_validation_results results = combine_from new_result results
