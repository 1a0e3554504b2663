-- ===== src/Intake/Tables.antt =====
-- The rows and limits of the intake, and the guards of IntakeService.
use itp2_group6_the_pond.Prelude.{
  ℕ, ◌+◌, ◌*◌, Bool, true, false, ◌&&◌, ◌||◌, Option, none, some, List, [], ◌∷◌, String_eq, Text,
  Text_eq, ◌==◌, ℕ_eq, count, filter, find?, any, leb, ltb, if◌then◌else◌,
}
use itp2_group6_the_pond.Accounts.{User, Users}
use itp2_group6_the_pond.Ingestion.{
  SubmissionStatus, draft, needs_changes, validation_failed, rejected, ChallengeSubmission,
  SubmissionFile, SubmissionJob, has_submission,
}
use itp2_group6_the_pond.Intake.Package.{Manifest}

-- What storage.save or storage.copy makes of the bytes.
pub record StoredUpload : Type 0 where
  pub storage_key : Text
  pub size_bytes : ℕ
  pub sha256 : Text

-- The tables, with the keys in the storage. `initial` has the jobs whose idempotency key is that of
-- a submission's first validation, by the submission.
pub record Desk : Type 0 where
  pub submissions : List ChallengeSubmission
  pub files : List SubmissionFile
  pub jobs : List SubmissionJob
  pub initial : List (ℕ × ℕ)
  pub vault : List Text
  -- The keys whose objects the storage fails to delete.
  pub is_stuck : Text → Bool

-- The quotas, and the manifest that a stored or uploaded text is, if it is valid: json and
-- jsonschema are third-party.
pub record Policy : Type 0 where
  pub user_bytes : ℕ
  pub total_bytes : ℕ
  pub read : Text → Option Manifest

-- MAX_IMAGE_BYTES and MAX_TOTAL_IMAGE_BYTES
unfoldable pub max_image_bytes : ℕ
max_image_bytes = 20 * 1024 * 1024 * 1024

unfoldable pub max_total_image_bytes : ℕ
max_total_image_bytes = 40 * 1024 * 1024 * 1024

-- actor: whether it passes.
unfoldable pub is_staff : User → Bool
is_staff u = u.is_active && (u.role_name == "manager" || u.role_name == "sysadmin")

unfoldable pub actor : Users → ℕ → Option User
actor users user_id = elim (find? (λ (u : User). u.user_id == user_id) users) [
  | none ↦ none
  | some u ↦ if is_staff u then some u else none
]

abbrev pub may_own : User → ChallengeSubmission → Bool
may_own u row = row.uploaded_by_user_id == u.user_id || u.role_name == "sysadmin"

-- owned: `none` is PermissionError or LookupError.
unfoldable pub owned_submission :
    Users → (user_id submission_id : ℕ) → Desk → Option ChallengeSubmission
owned_submission users user_id submission_id desk = elim (actor users user_id) [
  | none ↦ none
  | some u ↦ elim (find? (has_submission submission_id) desk.submissions) [
    | none ↦ none
    | some row ↦ if may_own u row then some row else none
  ]
]

-- _draft
unfoldable pub is_draft : SubmissionStatus → Bool
is_draft draft = true
is_draft _ = false

-- The statuses that revise accepts.
unfoldable pub is_correctable : SubmissionStatus → Bool
is_correctable needs_changes = true
is_correctable validation_failed = true
is_correctable rejected = true
is_correctable _ = false

-- SUM(size_bytes)
unfoldable pub sum_sizes : List SubmissionFile → ℕ
sum_sizes [] = 0
sum_sizes (f ∷ files) = f.size_bytes + sum_sizes files

-- JOIN ChallengeSubmission, of one owner
unfoldable pub is_file_of_user : ℕ → Desk → SubmissionFile → Bool
is_file_of_user user_id desk f =
    any
      (λ (s : ChallengeSubmission).
        s.submission_id == f.submission_id && s.uploaded_by_user_id == user_id)
      desk.submissions

abbrev pub is_file_of : ℕ → SubmissionFile → Bool
is_file_of submission_id f = f.submission_id == submission_id

abbrev pub submission_bytes : Option ℕ → Desk → ℕ
submission_bytes none desk = 0
submission_bytes (some submission_id) desk =
    sum_sizes (filter (is_file_of submission_id) desk.files)

-- _quota: whether it passes; `free` are the bytes that the file system has left.
unfoldable pub has_quota :
    Policy → (free owner : ℕ) → (submission_id : Option ℕ) → (additional : ℕ) → Desk → Bool
has_quota policy free owner submission_id additional desk =
    leb (sum_sizes desk.files + additional) policy.total_bytes
    && (leb (sum_sizes (filter (is_file_of_user owner desk) desk.files) + additional)
          policy.user_bytes
        && (leb (submission_bytes submission_id desk + additional) max_total_image_bytes
            && leb (additional + 512 * 1024 * 1024) free))

abbrev pub is_draft_of : ℕ → ChallengeSubmission → Bool
is_draft_of owner s = s.uploaded_by_user_id == owner && is_draft s.status

-- _draft_capacity: whether it passes.
unfoldable pub has_capacity : ℕ → Desk → Bool
has_capacity owner desk = ltb (count (is_draft_of owner) desk.submissions) 20
