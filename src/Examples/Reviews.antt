-- ===== src/Examples/Reviews.antt =====
-- A review of a submission, and the theorems on it.
use itp2_group6_the_pond.Prelude.{
  ◌≡◌, refl, true, none, some, [], ◌∷◌, Text, codes, any, all, find?, filter, text_eq,
}
use itp2_group6_the_pond.Examples.Data.{users}
use itp2_group6_the_pond.Strings.{strip}
use itp2_group6_the_pond.Ingestion.{
  Ingestion, ChallengeSubmission, SubmissionJob, SubmissionFile, passed, validate, succeeded,
  ready_for_review, validation_entry,
}
use itp2_group6_the_pond.Digest.{Json, content_digest}
use itp2_group6_the_pond.Review.{
  ReviewForm, decide_review, decided, stored_review, well_formed, may_review, latest,
  latest_validation, agrees, is_unchanged, current, status_eq, last_attestation, approvable,
}
use itp2_group6_the_pond.Review.Approval.{IsBacked, decide_review-IsBacked}

abbrev digest : Text
digest = codes "aaaaaaaaaaaaaaaaaaaaaaaaaaaaaaaaaaaaaaaaaaaaaaaaaaaaaaaaaaaaaaaa"

-- A reading of JSON that knows one manifest, and gives every inventory one digest.
abbrev json : Json
json = record {
  is_dict = λ t. true;
  challenge_type = λ t. some (codes "vm");
  schema_version = λ t. some 1;
  seal = λ t items. some digest;
}

abbrev submission : ChallengeSubmission
submission = record {
  submission_id = 7;
  uploaded_by_user_id = 2;
  challenge_type = codes "vm";
  schema_version = 1;
  manifest = codes "{}";
  content_digest = some digest;
  status = ready_for_review;
  approved_by_user_id = none;
  approved_at = none;
  updated_at = 0;
}

abbrev file : SubmissionFile
file = record {
  file_id = 3;
  submission_id = 7;
  logical_path = codes "flag.txt";
  file_role = codes "handout";
  storage_key = codes "k";
  size_bytes = 4;
  sha256 = codes "h";
  validation_status = passed;
  validated_at = some 4;
}

abbrev job : SubmissionJob
job = record {
  job_id = 5;
  submission_id = 7;
  action = validate;
  status = succeeded;
  attempt_count = 1;
  max_attempts = 3;
  available_at = 4;
  locked_by = none;
  lease_token = none;
  lease_expires_at = none;
  heartbeat_at = none;
  error_code = none;
  started_at = some 2;
  completed_at = some 4;
}

abbrev tables : Ingestion
tables = record {
  jobs = job ∷ [];
  submissions = submission ∷ [];
  files = file ∷ [];
  issues = [];
  outbox = [];
  log = validation_entry 7 5 1 ready_for_review 0 (some digest) ∷ [];
}

abbrev form : ReviewForm
form = record {
  submission_id = 7;
  actor_user_id = 1;
  decision = "approve";
  expected_digest = digest;
  expected_job_id = 5;
  note = codes "fine";
}

abbrev approved_tables : Ingestion
approved_tables = stored_review form 9 submission job tables

form_is_stored : decide_review json form users 9 tables ≡ decided approved_tables
unfolding decide_review current well_formed may_review latest latest_validation agrees is_unchanged
    status_eq last_attestation approvable content_digest all any find? filter text_eq strip
form_is_stored = refl

decide_review-IsBacked_example :
    IsBacked json form users tables
    × (approved_tables.jobs ≡ tables.jobs)
    × (approved_tables.files ≡ tables.files)
    × (approved_tables.issues ≡ tables.issues)
decide_review-IsBacked_example =
    decide_review-IsBacked json form users 9 tables approved_tables refl form_is_stored
