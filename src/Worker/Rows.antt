-- ===== src/Worker/Rows.antt =====
-- A job's row and who holds it: _owned of worker.py, and the query and changes of claim().
use itp2_group6_the_pond.Prelude.{
  ℕ, ◌+◌, ◌*◌, Bool, true, false, ◌&&◌, ◌||◌, Option, none, some, List, [], ◌∷◌, String_eq, Text,
  Text_eq, ◌==◌, ℕ_eq, if◌then◌else◌, ltb, leb, filter, find?, second,
}
use itp2_group6_the_pond.Ingestion.{
  Action, validate, JobStatus, queued, running, retry_wait, cancelled, SubmissionJob, Ingestion,
  has_job, text_is,
}

-- The settings of a ValidationWorker.
pub record Worker : Type 0 where
  pub worker_id : Text
  pub lease_seconds : ℕ
  pub retry_seconds : ℕ

pub record Claim : Type 0 where
  pub job_id : ℕ
  pub submission_id : ℕ
  pub token : Text

abbrev pub is_validate : Action → Bool
is_validate validate = true
is_validate _ = false

abbrev pub is_running : JobStatus → Bool
is_running running = true
is_running _ = false

abbrev pub is_waiting : JobStatus → Bool
is_waiting queued = true
is_waiting retry_wait = true
is_waiting _ = false

abbrev pub unexpired : ℕ → Option ℕ → Bool
unexpired now none = false
unexpired now (some t) = ltb now t

abbrev pub expired : ℕ → Option ℕ → Bool
expired now none = false
expired now (some t) = leb t now

-- The test of _owned.
unfoldable pub owns : Claim → ℕ → SubmissionJob → Bool
owns claim now j =
    is_validate j.action
    && (is_running j.status
        && (j.submission_id == claim.submission_id
            && (text_is claim.token j.lease_token && unexpired now j.lease_expires_at)))

-- _owned: `none` is LeaseLost.
unfoldable pub owned : Claim → ℕ → Ingestion → Option SubmissionJob
owned claim now db = elim (find? (has_job claim.job_id) db.jobs) [
  | none ↦ none
  | some j ↦ if owns claim now j then some j else none
]

-- The WHERE of claim(): waiting and due, or running with a lease that is over.
unfoldable pub eligible : ℕ → SubmissionJob → Bool
eligible now j =
    is_validate j.action
    && ((is_waiting j.status && leb j.available_at now)
        || (is_running j.status && expired now j.lease_expires_at))

-- The ORDER BY of claim().
abbrev pub sooner : SubmissionJob → SubmissionJob → Bool
sooner a b =
    ltb a.available_at b.available_at || (a.available_at == b.available_at && ltb a.job_id b.job_id)

unfoldable pub earliest : List SubmissionJob → Option SubmissionJob
earliest [] = none
earliest (j ∷ js) = elim (earliest js) [
  | none ↦ some j
  | some k ↦ some (if sooner k j then k else j)
]

unfoldable pub select : ℕ → List SubmissionJob → Option SubmissionJob
select now jobs = earliest (filter (eligible now) jobs)

abbrev pub cancel : ℕ → SubmissionJob → SubmissionJob
cancel now job = record job {
  status = cancelled;
  completed_at = some now;
  error_code = some "SUBMISSION_NOT_VALIDATING";
  locked_by = none;
  lease_token = none;
  lease_expires_at = none;
}

-- job.started_at or now
abbrev pub or_now : ℕ → Option ℕ → ℕ
or_now now none = now
or_now now (some t) = t

abbrev pub lease : Worker → Text → ℕ → SubmissionJob → SubmissionJob
lease worker token now job = record job {
  status = running;
  attempt_count = job.attempt_count + 1;
  locked_by = some worker.worker_id;
  lease_token = some token;
  lease_expires_at = some (now + worker.lease_seconds * second);
  heartbeat_at = some now;
  started_at = some (or_now now job.started_at);
  completed_at = none;
}
