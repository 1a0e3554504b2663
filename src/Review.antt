-- ===== src/Review.antt =====
-- The review of submissions: challenge_ingestion/review.py. The reading of stored JSON is an
-- argument. One decision is one write transaction, and an exception rolls it back.
pub mod Approval
pub mod Repetition
use itp2_group6_the_pond.Prelude.{
  ℕ, suc, ◌+◌, Bool, true, false, ◌&&◌, ◌||◌, not, Option, none, some, List, [], ◌∷◌, ◌++◌, map,
  String, String_eq, Text, Text_eq, text_eq, ◌==◌, ℕ_eq, if◌then◌else◌, ltb, leb, length, any, all,
  filter, find?, update_first,
}
use itp2_group6_the_pond.Strings.{strip}
use itp2_group6_the_pond.Accounts.{User, Users}
use itp2_group6_the_pond.Ingestion.{
  SubmissionStatus, ready_for_review, needs_changes, validation_failed, approved, rejected,
  ChallengeSubmission, SubmissionFile, FileStatus, passed, SubmissionIssue, Action, validate,
  JobStatus, queued, running, retry_wait, succeeded, failed_job, SubmissionJob, DeduplicationKey,
  review_key, key_eq, NotificationOutbox, IngestionLog, validation_entry, review_entry, Ingestion,
  has_submission, text_is,
}
use itp2_group6_the_pond.Digest.{Json, content_digest}

pub record ReviewForm : Type 0 where
  pub submission_id : ℕ
  pub actor_user_id : ℕ
  pub decision : String
  pub expected_digest : Text
  pub expected_job_id : ℕ
  pub note : Text

abbrev pub is_hex : ℕ → Bool
is_hex c = (leb b'0' c && leb c b'9') || (leb b'a' c && leb c b'f')

abbrev pub is_control : ℕ → Bool
is_control c = ltb c 32 && not (c == 10 || (c == 13 || c == 9))

abbrev pub is_empty : Text → Bool
is_empty [] = true
is_empty (c ∷ cs) = false

-- The checks before the transaction.
unfoldable pub well_formed : ReviewForm → Bool
well_formed form =
    (form.decision == "approve" || form.decision == "reject")
    && (ltb 0 form.expected_job_id
        && ((length form.expected_digest == 64 && all is_hex form.expected_digest)
            && (leb (length form.note) 2000
                && (not (any is_control (strip form.note))
                    && not (form.decision == "reject" && is_empty (strip form.note))))))

abbrev pub has_user : ℕ → User → Bool
has_user id u = u.user_id == id

unfoldable pub may_review : ℕ → Users → Bool
may_review id users = elim (find? (has_user id) users) [
  | none ↦ false
  | some u ↦ u.is_active && u.role_name == "sysadmin"
]

abbrev pub is_validate_job : Action → Bool
is_validate_job validate = true
is_validate_job _ = false

-- The row with the highest key.
unfoldable pub latest : List SubmissionJob → Option SubmissionJob
latest [] = none
latest (j ∷ js) = elim (latest js) [
  | none ↦ some j
  | some k ↦ some (if ltb j.job_id k.job_id then k else j)
]

unfoldable pub latest_validation : ℕ → List SubmissionJob → Option SubmissionJob
latest_validation id jobs =
    latest (filter (λ j. j.submission_id == id && is_validate_job j.action) jobs)

abbrev pub is_active : JobStatus → Bool
is_active queued = true
is_active running = true
is_active retry_wait = true
is_active _ = false

abbrev pub files_of : ℕ → Ingestion → List SubmissionFile
files_of id db = filter (λ f. f.submission_id == id) db.files

abbrev pub is_version : ℕ → Option ℕ → Bool
is_version n none = false
is_version n (some m) = m == n

-- The manifest agrees with the columns, and the digest with the one that the form expects.
unfoldable pub is_unchanged : Json → ReviewForm → ChallengeSubmission → Ingestion → Bool
is_unchanged json form s db =
    (json.is_dict s.manifest
      && (text_is s.challenge_type (json.challenge_type s.manifest)
          && is_version s.schema_version (json.schema_version s.manifest)))
    && text_is form.expected_digest
        (content_digest json s.manifest (files_of form.submission_id db))

-- The checks on the rows that the form is compared with.
unfoldable pub agrees : Json → ReviewForm → ChallengeSubmission → SubmissionJob → Ingestion → Bool
agrees json form s job db =
    text_is form.expected_digest s.content_digest
    && (job.job_id == form.expected_job_id
        && (not (any (λ j. j.submission_id == form.submission_id && is_active j.status) db.jobs)
            && is_unchanged json form s db))

-- What the checks before the comparison with the final status let through: the submission and its
-- last validation run.
unfoldable pub current :
    Json → ReviewForm → Users → Ingestion → Option (ChallengeSubmission × SubmissionJob)
current json form users db =
    if not (well_formed form && may_review form.actor_user_id users)
    then none
    else elim (find? (has_submission form.submission_id) db.submissions) [
      | none ↦ none
      | some s ↦ elim (latest_validation form.submission_id db.jobs) [
        | none ↦ none
        | some job ↦ if agrees json form s job db then some (s, job) else none
      ]
    ]

unfoldable pub status_eq : SubmissionStatus → SubmissionStatus → Bool
status_eq ready_for_review ready_for_review = true
status_eq approved approved = true
status_eq rejected rejected = true
status_eq _ _ = false

abbrev pub is_reviewable : SubmissionStatus → Bool
is_reviewable ready_for_review = true
is_reviewable needs_changes = true
is_reviewable validation_failed = true
is_reviewable _ = false

abbrev pub has_succeeded : JobStatus → Bool
has_succeeded succeeded = true
has_succeeded _ = false

abbrev pub is_over : JobStatus → Bool
is_over succeeded = true
is_over failed_job = true
is_over _ = false

abbrev pub is_set {ℓ} : {A : Type ℓ} → Option A → Bool
is_set none = false
is_set (some a) = true

abbrev pub has_passed : FileStatus → Bool
has_passed passed = true
has_passed _ = false

-- The entries of the worker for a submission, the last of them, and the test of it.
abbrev pub attests : ℕ → IngestionLog → Bool
attests id (validation_entry s j n status count digest) = s == id
attests id (review_entry actor s d note digest j) = false

unfoldable pub last_attestation : ℕ → List IngestionLog → Option IngestionLog
last_attestation id [] = none
last_attestation id (e ∷ es) = elim (last_attestation id es) [
  | none ↦ if attests id e then some e else none
  | some f ↦ some f
]

abbrev pub is_evidence : ReviewForm → ℕ → Option IngestionLog → Bool
is_evidence form job_id none = false
is_evidence form job_id (some (review_entry actor s d note digest j)) = false
is_evidence form job_id (some (validation_entry s j n status count digest)) =
    j == job_id
    && (status_eq status ready_for_review && (text_is form.expected_digest digest && count == 0))

-- The further checks of an approval.
unfoldable pub approvable : ReviewForm → ChallengeSubmission → SubmissionJob → Ingestion → Bool
approvable form s job db =
    (status_eq s.status ready_for_review && has_succeeded job.status)
    && (not (any (λ i. i.job_id == job.job_id) db.issues)
        && (all (λ (f : SubmissionFile). has_passed f.validation_status && is_set f.validated_at)
              (files_of form.submission_id db)
            && is_evidence form job.job_id (last_attestation form.submission_id db.log)))

abbrev pub approves : ReviewForm → Bool
approves form = form.decision == "approve"

abbrev pub final_status : ReviewForm → SubmissionStatus
final_status form = if approves form then approved else rejected

-- The submission's row after the decision.
abbrev pub reviewed : ReviewForm → ℕ → ChallengeSubmission → ChallengeSubmission
reviewed form now s = record s {
  status = final_status form;
  approved_by_user_id = if approves form then some form.actor_user_id else none;
  approved_at = if approves form then some now else none;
  updated_at = now;
}

abbrev pub decision_key : ReviewForm → DeduplicationKey
decision_key form = review_key form.submission_id form.expected_digest (approves form)

unfoldable pub stored_review :
    ReviewForm → ℕ → ChallengeSubmission → SubmissionJob → Ingestion → Ingestion
stored_review form now s job db = record db {
  submissions = update_first (has_submission form.submission_id) (reviewed form now) db.submissions;
  log =
      db.log
      ++ (review_entry form.actor_user_id form.submission_id (approves form) (strip form.note)
            form.expected_digest job.job_id
          ∷ []);
  outbox =
      db.outbox
      ++ (record {
        submission_id = form.submission_id;
        recipient_user_id = s.uploaded_by_user_id;
        event_type = final_status form;
        deduplication_key = decision_key form;
      }
          ∷ []);
}

pub data Reviewed : Type 0 where
  refused repeated : Reviewed
  decided : Ingestion → Reviewed

-- ReviewService.decide, with the unique key of the notifications, where the table of users is read only; `now` is the time it stores.
unfoldable pub decide_review : Json → ReviewForm → Users → ℕ → Ingestion → Reviewed
decide_review json form users now db = elim (current json form users db) [
  | none ↦ refused
  | some (s, job) ↦
      if status_eq s.status (final_status form)
      then repeated
      else if is_reviewable s.status
          && ((is_over job.status && is_set job.completed_at)
              && (not (approves form) || approvable form s job db))
      then if any (λ m. key_eq m.deduplication_key (decision_key form)) db.outbox
        then refused
        else decided (stored_review form now s job db)
      else refused
]
