-- ===== src/Worker/Transactions.antt =====
-- The write transactions claim(), renew() and finish() of worker.py.
use itp2_group6_the_pond.Prelude.{
  ℕ, suc, zero, ◌+◌, ◌*◌, true, false, not, Option, none, some, String_eq, Text, Text_eq, ℕ_eq,
  if◌then◌else◌, leb, find?, update_first, count, Clock, second,
}
use itp2_group6_the_pond.Ingestion.{
  ChallengeSubmission, SubmissionJob, Ingestion, has_job, has_submission, is_validating,
}
use itp2_group6_the_pond.Reports.{Report, limit_reached}
use itp2_group6_the_pond.Worker.Rows.{Worker, Claim, owned, eligible, select, cancel, lease}
use itp2_group6_the_pond.Worker.Results.{result}
use itp2_group6_the_pond.Worker.Snapshots.{Snapshot, final_report}

-- How a turn of claim()'s loop ends: it returns a claim, or goes on.
pub data Turn : Type 0 where
  returns : Claim → Ingestion → Turn
  continues : Ingestion → Turn

-- Reading 0 of the clock is for the whole call; `later` is the reading of _result.
unfoldable pub turn : Worker → Text → ℕ → ℕ → SubmissionJob → ChallengeSubmission → Ingestion → Turn
turn worker token now later job submission db =
    if not (is_validating submission.status)
    then continues (record db { jobs = update_first (has_job job.job_id) (cancel now) db.jobs })
    else if leb job.max_attempts job.attempt_count
    then continues (result worker later job submission limit_reached true db)
    else returns (record { job_id = job.job_id; submission_id = job.submission_id; token = token })
        (record db { jobs = update_first (has_job job.job_id) (lease worker token now) db.jobs })

pub data Claimed : Type 0 where
  out_of_fuel raised : Claimed
  nothing : Ingestion → Claimed
  claimed : Claim → Ingestion → Claimed

-- claim() with fuel for its loop; `later n` is the reading that the n-th turn from the end makes.
unfoldable pub claim_loop : ℕ → Worker → Text → ℕ → Clock → Ingestion → Claimed
claim_loop zero worker token now later db = out_of_fuel
claim_loop (suc fuel) worker token now later db = elim (select now db.jobs) [
  | none ↦ nothing db
  | some job ↦ elim (find? (has_submission job.submission_id) db.submissions) [
    | none ↦ raised
    | some submission ↦ elim (turn worker token now (later fuel) job submission db) [
      | returns claim db' ↦ claimed claim db'
      | continues db' ↦ claim_loop fuel worker token now later db'
    ]
  ]
]

-- One turn for each eligible job, and one to find none.
unfoldable pub claim : Worker → Text → ℕ → Clock → Ingestion → Claimed
claim worker token now later db =
    claim_loop (suc (count (eligible now) db.jobs)) worker token now later db

abbrev pub extend : Worker → ℕ → SubmissionJob → SubmissionJob
extend worker now job = record job {
  heartbeat_at = some now;
  lease_expires_at = some (now + worker.lease_seconds * second);
}

unfoldable pub renew : Worker → Claim → Clock → Ingestion → Option Ingestion
renew worker claim clock db = elim (owned claim (clock 0) db) [
  | none ↦ none
  | some job ↦
      some
        (record db { jobs = update_first (has_job job.job_id) (extend worker (clock 1)) db.jobs })
]

unfoldable pub finish : Worker → Claim → Report → Snapshot → Clock → Ingestion → Option Ingestion
finish worker claim report seen clock db = elim (owned claim (clock 0) db) [
  | none ↦ none
  | some job ↦ elim (find? (has_submission job.submission_id) db.submissions) [
    | none ↦ none
    | some submission ↦
        if is_validating submission.status
        then some (
            result worker (clock 1) job submission (final_report db submission seen report) false
              db)
        else none
  ]
]
