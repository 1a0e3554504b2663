-- ===== src/Worker/Results.antt =====
-- What an attempt stores: _notify and _result of worker.py.
use itp2_group6_the_pond.Prelude.{
  ℕ, ◌+◌, ◌*◌, Bool, false, ◌&&◌, ◌||◌, not, Option, none, some, List, [], ◌∷◌, ◌++◌, map,
  String_eq, Text_eq, ◌==◌, ℕ_eq, if◌then◌else◌, ltb, length, any, filter, update, update_first,
  second,
}
use itp2_group6_the_pond.Ingestion.{
  SubmissionStatus, validating, ChallengeSubmission, pending, passed, failed, SubmissionFile,
  SubmissionIssue, retry_wait, succeeded, failed_job, SubmissionJob, validation_key,
  NotificationOutbox, validation_entry, Ingestion, has_job, has_submission, is_failed, key_eq,
}
use itp2_group6_the_pond.Reports.{Finding, Report, report_passed, suggested_status}
use itp2_group6_the_pond.Worker.Rows.{Worker}

abbrev pub notification :
    SubmissionJob → ChallengeSubmission → SubmissionStatus → NotificationOutbox
notification job submission status = record {
  submission_id = submission.submission_id;
  recipient_user_id = submission.uploaded_by_user_id;
  event_type = status;
  deduplication_key = validation_key job.job_id submission.uploaded_by_user_id;
}

-- _notify: one row for each job and uploader.
unfoldable pub notify :
    SubmissionJob
    → ChallengeSubmission
    → SubmissionStatus
    → List NotificationOutbox
    → List NotificationOutbox
notify job submission status outbox =
    let n = notification job submission status in
    if any (λ m. key_eq m.deduplication_key n.deduplication_key) outbox
    then outbox
    else outbox ++ (n ∷ [])

-- Whether a report sends the job back to wait for another attempt.
unfoldable pub retries : SubmissionJob → Report → Bool → Bool
retries job report exhausted =
    is_failed (suggested_status report) && (not exhausted && ltb job.attempt_count job.max_attempts)

-- The job's row after _result.
unfoldable pub settle : Worker → ℕ → Report → Bool → SubmissionJob → SubmissionJob
unfolding retries
settle worker now report exhausted job =
    let technical = is_failed (suggested_status report) in
    let retry = retries job report exhausted in
    record job {
      status = if retry then retry_wait else if technical then failed_job else succeeded;
      available_at = now + worker.retry_seconds * second;
      completed_at = if retry then none else some now;
      error_code = if technical then some "VALIDATION_INFRASTRUCTURE" else none;
      locked_by = none;
      lease_token = none;
      lease_expires_at = none;
    }

abbrev pub issue_of : ChallengeSubmission → SubmissionJob → Finding → SubmissionIssue
issue_of submission job f = record {
  submission_id = submission.submission_id;
  job_id = job.job_id;
  file_id = f.file_id;
  severity = f.severity;
  error_code = f.error_code;
  message = f.message;
  field_path = f.field_path;
}

abbrev pub is_id : ℕ → Option ℕ → Bool
is_id id none = false
is_id id (some i) = i == id

-- file_id in failed_ids
unfoldable pub blames : ℕ → Finding → Bool
blames id f =
    is_id id f.file_id
    && not (f.error_code == "CHECK_UNAVAILABLE" || f.error_code == "STORAGE_UNAVAILABLE")

unfoldable pub check_file : ℕ → Report → SubmissionFile → SubmissionFile
check_file now report file =
    let blamed = any (blames file.file_id) report in
    if report_passed report
    then record file { validation_status = passed; validated_at = some now }
    else if blamed
    then record file { validation_status = failed; validated_at = some now }
    else record file { validation_status = pending; validated_at = none }

-- _result: the findings, statuses, files, log and notification of one attempt.
unfoldable pub result :
    Worker → ℕ → SubmissionJob → ChallengeSubmission → Report → Bool → Ingestion → Ingestion
result worker now job submission report exhausted db =
    let retry = retries job report exhausted in
    let status = if retry then validating else suggested_status report in
    record {
      jobs = update_first (has_job job.job_id) (settle worker now report exhausted) db.jobs;
      submissions =
          update_first (has_submission submission.submission_id)
            (λ s. record s { status = status; updated_at = now }) db.submissions;
      files =
          update (λ f. f.submission_id == submission.submission_id) (check_file now report)
            db.files;
      issues =
          filter (λ i. not (i.job_id == job.job_id)) db.issues
          ++ map (issue_of submission job) report;
      outbox = if retry then db.outbox else notify job submission status db.outbox;
      log =
          db.log
          ++ (validation_entry submission.submission_id job.job_id job.attempt_count status
                (length report) (if report_passed report then submission.content_digest else none)
              ∷ []);
    }
