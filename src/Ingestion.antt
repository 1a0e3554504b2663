-- ===== src/Ingestion.antt =====
-- The tables of the intake of challenges: db/submission_models.py, submission_file_models.py,
-- submission_issue_models.py, submission_job_models.py and notification_models.py.
use itp2_group6_the_pond.Prelude.{
  ℕ, Bool, true, false, ◌&&◌, Option, none, some, List, String, Text, Text_eq, ◌==◌, ℕ_eq, Bool_eq,
}

-- SUBMISSION_STATUSES
pub data SubmissionStatus : Type 0 where
  draft validating validation_failed needs_changes ready_for_review : SubmissionStatus
  approved importing import_failed published rejected : SubmissionStatus

-- What a worker reads of a submission and compares later: the metadata without the files.
pub record ChallengeSubmission : Type 0 where
  pub submission_id : ℕ
  pub uploaded_by_user_id : ℕ
  pub challenge_type : Text
  pub schema_version : ℕ
  pub manifest : Text
  pub content_digest : Option Text
  pub status : SubmissionStatus
  pub approved_by_user_id : Option ℕ
  pub approved_at : Option ℕ
  pub updated_at : ℕ

pub data FileStatus : Type 0 where
  pending passed failed review_required : FileStatus

pub record SubmissionFile : Type 0 where
  pub file_id : ℕ
  pub submission_id : ℕ
  pub logical_path : Text
  pub file_role : Text
  pub storage_key : Text
  pub size_bytes : ℕ
  pub sha256 : Text
  pub validation_status : FileStatus
  pub validated_at : Option ℕ

pub record SubmissionIssue : Type 0 where
  pub submission_id : ℕ
  pub job_id : ℕ
  pub file_id : Option ℕ
  pub severity : String
  pub error_code : String
  pub message : String
  pub field_path : Option Text

pub data Action : Type 0 where
  validate publish cleanup : Action

pub data JobStatus : Type 0 where
  queued running retry_wait succeeded failed_job cancelled : JobStatus

-- `error_message` is left out: each error code has one fixed message.
pub record SubmissionJob : Type 0 where
  pub job_id : ℕ
  pub submission_id : ℕ
  pub action : Action
  pub status : JobStatus
  pub attempt_count : ℕ
  pub max_attempts : ℕ
  pub available_at : ℕ
  pub locked_by : Option Text
  pub lease_token : Option Text
  pub lease_expires_at : Option ℕ
  pub heartbeat_at : Option ℕ
  pub error_code : Option String
  pub started_at : Option ℕ
  pub completed_at : Option ℕ

-- The deduplication keys, by what their texts are made of.
pub data DeduplicationKey : Type 0 where
  validation_key : ℕ → ℕ → DeduplicationKey
  review_key : ℕ → Text → Bool → DeduplicationKey

pub record NotificationOutbox : Type 0 where
  pub submission_id : ℕ
  pub recipient_user_id : ℕ
  pub event_type : SubmissionStatus
  pub deduplication_key : DeduplicationKey

-- The rows of the audit log that the intake writes, with what their JSON holds.
pub data IngestionLog : Type 0 where
  validation_entry :
      (submission_id job_id attempt : ℕ)
      → SubmissionStatus
      → (issue_count : ℕ) → Option Text
      → IngestionLog
  review_entry :
      (actor submission_id : ℕ) → Bool → (note digest : Text) → (job_id : ℕ) → IngestionLog

pub record Ingestion : Type 0 where
  pub jobs : List SubmissionJob
  pub submissions : List ChallengeSubmission
  pub files : List SubmissionFile
  pub issues : List SubmissionIssue
  pub outbox : List NotificationOutbox
  pub log : List IngestionLog

abbrev pub has_job : ℕ → SubmissionJob → Bool
has_job id j = j.job_id == id

abbrev pub has_submission : ℕ → ChallengeSubmission → Bool
has_submission id s = s.submission_id == id

-- Comparisons of an optional text and of an enumeration.
abbrev pub text_is : Text → Option Text → Bool
text_is t none = false
text_is t (some u) = u == t

abbrev pub is_validating : SubmissionStatus → Bool
is_validating validating = true
is_validating _ = false

abbrev pub is_failed : SubmissionStatus → Bool
is_failed validation_failed = true
is_failed _ = false

abbrev pub key_eq : DeduplicationKey → DeduplicationKey → Bool
key_eq (validation_key a b) (validation_key c d) = a == c && b == d
key_eq (review_key a t x) (review_key c u y) = a == c && (t == u && x == y)
key_eq _ _ = false
