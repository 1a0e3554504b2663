-- ===== src/Reports.antt =====
-- The reports of a validation: challenge_ingestion/validation.py.
use itp2_group6_the_pond.Prelude.{
  ℕ, Bool, true, false, ◌||◌, Option, none, List, [], ◌∷◌, String, String_eq, Text, Text_eq, ◌==◌,
  ℕ_eq, if◌then◌else◌, any,
}
use itp2_group6_the_pond.Ingestion.{
  SubmissionStatus, validation_failed, needs_changes, ready_for_review,
}

pub record Finding : Type 0 where
  pub error_code : String
  pub message : String
  pub field_path : Option Text
  pub file_id : Option ℕ
  pub severity : String

-- ValidationReport: its findings.
abbrev pub Report : Type 0
Report = List Finding

unfoldable pub report_passed : Report → Bool
report_passed [] = true
report_passed (f ∷ fs) = false

unfoldable pub is_infrastructure : Finding → Bool
is_infrastructure f =
    f.error_code == "CHECK_UNAVAILABLE"
    || (f.error_code == "STORAGE_UNAVAILABLE" || f.error_code == "INVALID_INVENTORY")

unfoldable pub suggested_status : Report → SubmissionStatus
suggested_status report =
    if any is_infrastructure report
    then validation_failed
    else if report_passed report
    then ready_for_review
    else needs_changes

-- A finding about the whole submission.
abbrev pub finding : String → String → Finding
finding code message = record {
  error_code = code;
  message = message;
  field_path = none;
  file_id = none;
  severity = "error";
}

abbrev pub limit_reached : Report
limit_reached =
    finding "CHECK_UNAVAILABLE"
      "Validation attempt limit was reached; administrator review is required."
    ∷ []

abbrev pub content_changed : Report
content_changed =
    finding "CONTENT_CHANGED" "Submission changed during validation; submit a corrected revision."
    ∷ []
