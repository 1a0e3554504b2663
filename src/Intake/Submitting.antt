-- ===== src/Intake/Submitting.antt =====
-- submit and revise of IntakeService.
use itp2_group6_the_pond.Prelude.{
  ℕ, suc, Bool, true, false, ◌&&◌, Option, none, some, List, [], ◌∷◌, ◌++◌, Text, Text_eq, ◌==◌,
  ℕ_eq, filter, find?, update_first, if◌then◌else◌,
}
use itp2_group6_the_pond.Accounts.{Users}
use itp2_group6_the_pond.Ingestion.{
  validating, ChallengeSubmission, SubmissionFile, SubmissionJob, validate, queued, has_submission,
}
use itp2_group6_the_pond.Digest.{Json, content_digest}
use itp2_group6_the_pond.Intake.Package.{Manifest}
use itp2_group6_the_pond.Intake.Tables.{
  StoredUpload, Desk, Policy, owned_submission, is_draft, is_correctable, sum_sizes, is_file_of,
  has_quota, has_capacity,
}
use itp2_group6_the_pond.Intake.Uploading.{drop_key, new_submission, new_file}

abbrev pub new_job : (id submission_id now : ℕ) → SubmissionJob
new_job id submission_id now = record {
  job_id = id;
  submission_id = submission_id;
  action = validate;
  status = queued;
  attempt_count = 0;
  max_attempts = 3;
  available_at = now;
  locked_by = none;
  lease_token = none;
  lease_expires_at = none;
  heartbeat_at = none;
  error_code = none;
  started_at = none;
  completed_at = none;
}

abbrev pub freeze : Text → ℕ → ChallengeSubmission → ChallengeSubmission
freeze digest now s = record s {
  content_digest = some digest;
  status = validating;
  updated_at = now;
}

-- submit, on a draft
unfoldable pub submit_draft :
    Json → (id submission_id now : ℕ) → ChallengeSubmission → Desk → Option (ℕ × Desk)
submit_draft json id submission_id now row desk =
    elim (content_digest json row.manifest (filter (is_file_of submission_id) desk.files)) [
      | none ↦ none
      | some digest ↦ some (
        id,
        record desk {
          submissions =
              update_first (has_submission submission_id) (freeze digest now) desk.submissions;
          jobs = desk.jobs ++ (new_job id submission_id now ∷ []);
          initial = desk.initial ++ ((submission_id, id) ∷ []);
        },
      )
    ]

-- submit: the job's id
unfoldable pub submit : Json → Users → (id user_id submission_id now : ℕ) → Desk → Option (ℕ × Desk)
submit json users id user_id submission_id now desk =
    elim (owned_submission users user_id submission_id desk) [
      | none ↦ none
      | some row ↦ elim (find? (λ (j : ℕ × ℕ). j.0 == submission_id) desk.initial) [
        | some (key, job_id) ↦ some (job_id, desk)
        | none ↦
            if is_draft row.status then submit_draft json id submission_id now row desk else none
      ]
    ]

-- A copy is what was stored before.
unfoldable pub is_same_copy : SubmissionFile → StoredUpload → Bool
is_same_copy f stored = stored.size_bytes == f.size_bytes && stored.sha256 == f.sha256

-- The loop of copies: what was copied, and whether nothing was raised. A copy that differs is among
-- those that are deleted again.
unfoldable pub copy_all :
    (SubmissionFile → Option StoredUpload)
    → List SubmissionFile
    → List (SubmissionFile × StoredUpload) × Bool
copy_all copies [] = ([], true)
copy_all copies (f ∷ files) = elim (copies f) [
  | none ↦ ([], false)
  | some stored ↦
      let (rest, done) = copy_all copies files in
      if is_same_copy f stored then ((f, stored) ∷ rest, done) else ((f, stored) ∷ [], false)
]

unfoldable pub copy_keys : List (SubmissionFile × StoredUpload) → List Text
copy_keys [] = []
copy_keys ((f, stored) ∷ copied) = stored.storage_key ∷ copy_keys copied

-- The deletions of the copies, up to the first that raises.
unfoldable pub delete_keys : (Text → Bool) → List Text → List Text → List Text
delete_keys is_stuck [] vault = vault
delete_keys is_stuck (key ∷ keys) vault =
    let rest = delete_keys is_stuck keys (drop_key key vault) in
    if is_stuck key then vault else rest

-- The rows of the copies, under the keys from `id` on.
unfoldable pub copy_rows :
    (id submission_id : ℕ) → List (SubmissionFile × StoredUpload) → List SubmissionFile
copy_rows id submission_id [] = []
copy_rows id submission_id ((f, stored) ∷ copied) =
    new_file id submission_id f.logical_path f.file_role stored
    ∷ copy_rows (suc id) submission_id copied

abbrev pub record_copies :
    (later : Users)
    → (id file_id user_id submission_id now : ℕ) → Text
    → Manifest
    → Desk
    → List (SubmissionFile × StoredUpload) × Bool
    → Desk × Bool
record_copies later id file_id user_id submission_id now text manifest desk (copied, done) =
    let vault = desk.vault ++ copy_keys copied in
    let kept : Bool = elim (owned_submission later user_id submission_id desk) [
      | none ↦ false
      | some row ↦ done
    ] in
    if kept
    then (
      record desk {
        submissions = desk.submissions ++ (new_submission id user_id text manifest now ∷ []);
        files = desk.files ++ copy_rows file_id id copied;
        vault = vault;
      },
      true,
    )
    else (record desk { vault = delete_keys desk.is_stuck (copy_keys copied) vault }, false)

-- The checks of revise.
unfoldable pub may_revise :
    Policy → (free user_id submission_id : ℕ) → ChallengeSubmission → Desk → Bool
may_revise policy free user_id submission_id old desk =
    is_correctable old.status
    && (has_capacity user_id desk
        && has_quota policy free user_id none
            (sum_sizes (filter (is_file_of submission_id) desk.files)) desk)

-- revise: `copies` is what storage.copy returns.
unfoldable pub revise :
    Policy
    → (users later : Users) → (id file_id user_id submission_id now free : ℕ)
    → (SubmissionFile → Option StoredUpload)
    → Desk
    → Desk × Bool
revise policy users later id file_id user_id submission_id now free copies desk =
    elim (owned_submission users user_id submission_id desk) [
      | none ↦ (desk, false)
      | some old ↦ elim (policy.read old.manifest) [
        | none ↦ (desk, false)
        | some manifest ↦
            if may_revise policy free user_id submission_id old desk
            then record_copies later id file_id user_id submission_id now old.manifest manifest desk
                (copy_all copies (filter (is_file_of submission_id) desk.files))
            else (desk, false)
      ]
    ]
