-- ===== src/Examples/Jobs.antt =====
-- Jobs of the validation worker, and the theorems on them.
use itp2_group6_the_pond.Prelude.{
  ℕ, true, false, none, some, List, [], ◌∷◌, ◌≡◌, refl, codes, Clock, All, count, find?, any,
  filter, text_eq, arith,
}
use itp2_group6_the_pond.Ingestion.{
  Ingestion, SubmissionJob, ChallengeSubmission, validate, queued, running, succeeded, validating,
  has_job, has_submission,
}
use itp2_group6_the_pond.Reports.{report_passed}
use itp2_group6_the_pond.Worker.{
  Worker, Claim, Snapshot, claim, finish, renew, result, snapshot, owned, owns, final_report,
  snapshot_eq, files_eq, file_eq,
}
use itp2_group6_the_pond.Jobs.Keys.{IsKeyed}
use itp2_group6_the_pond.Jobs.Operations.{Op, claims, finishes, run}
use itp2_group6_the_pond.Jobs.Diagram.{Trace, stage, run-Trace}
use itp2_group6_the_pond.Jobs.Settled.{run-settled}
use itp2_group6_the_pond.Jobs.Leases.{is_foreign, run-leased}
use itp2_group6_the_pond.Jobs.Finishing.{is_fresh, finish-finish}
use itp2_group6_the_pond.Jobs.Claiming.{Ends, claim-Ends}
use itp2_group6_the_pond.Jobs.Invariant.{IsSound, run-IsSound}
use itp2_group6_the_pond.Jobs.Notices.{IsSingle, run-IsSingle}
use itp2_group6_the_pond.Jobs.Outcome.{verdict, finish-verdict}

abbrev worker : Worker
worker = record { worker_id = codes "w"; lease_seconds = 120; retry_seconds = 60 }

abbrev waiting_job : ℕ → SubmissionJob
waiting_job id = record {
  job_id = id;
  submission_id = 7;
  action = validate;
  status = queued;
  attempt_count = 0;
  max_attempts = 3;
  available_at = 0;
  locked_by = none;
  lease_token = none;
  lease_expires_at = none;
  heartbeat_at = none;
  error_code = none;
  started_at = none;
  completed_at = none;
}

abbrev leased_job : SubmissionJob
leased_job = record (waiting_job 1) {
  status = running;
  attempt_count = 1;
  locked_by = some (codes "w");
  lease_token = some (codes "t");
  lease_expires_at = some 120000000;
  heartbeat_at = some 0;
  started_at = some 0;
}

abbrev finished_job : SubmissionJob
finished_job = record (waiting_job 1) {
  status = succeeded;
  attempt_count = 1;
  started_at = some 0;
  completed_at = some 5;
}

abbrev submission : ChallengeSubmission
submission = record {
  submission_id = 7;
  uploaded_by_user_id = 2;
  challenge_type = codes "vm";
  schema_version = 1;
  manifest = codes "{}";
  content_digest = some (codes "d");
  status = validating;
  approved_by_user_id = none;
  approved_at = none;
  updated_at = 0;
}

abbrev tables : SubmissionJob → Ingestion
tables job = record {
  jobs = job ∷ waiting_job 2 ∷ [];
  submissions = submission ∷ [];
  files = [];
  issues = [];
  outbox = [];
  log = [];
}

abbrev still : Clock
still n = 1000

abbrev token_claim : Claim
token_claim = record { job_id = 1; submission_id = 7; token = codes "t" }

abbrev seen : Snapshot
seen = snapshot (tables leased_job) submission

abbrev calls : List Op
calls =
    claims worker (codes "u") 1000 still
    ∷ finishes worker (record token_claim { token = codes "x" }) [] seen still
    ∷ []

tables-IsKeyed : (job : SubmissionJob) → job.job_id ≡ 1 → IsKeyed (tables job).jobs
unfolding count
tables-IsKeyed job e id = ground arith

run-Trace_example :
    (k : SubmissionJob) × (find? (has_job 1) (run calls (tables leased_job)).jobs ≡ some k)
    × Trace calls (stage leased_job) (stage k)
unfolding find?
run-Trace_example =
    run-Trace calls (tables leased_job) 1 leased_job (tables-IsKeyed leased_job refl) refl

run-settled_example : find? (has_job 1) (run calls (tables finished_job)).jobs ≡ some finished_job
unfolding find?
run-settled_example =
    run-settled calls (tables finished_job) 1 finished_job (tables-IsKeyed finished_job refl) refl
      refl

run-leased_example : find? (has_job 1) (run calls (tables leased_job)).jobs ≡ some leased_job
unfolding find? is_foreign text_eq
run-leased_example =
    run-leased calls (tables leased_job) 1 leased_job (codes "t") 120000000
      (tables-IsKeyed leased_job refl) refl refl refl refl (refl, (refl, tt))

waiting-IsSound : (id : ℕ) → IsSound (waiting_job id)
waiting-IsSound id = record {
  attempts = omega arith;
  token = refl;
  expiry = refl;
  owner = refl;
  completion = refl;
}

run-IsSound_example : All IsSound (run calls (tables leased_job)).jobs
run-IsSound_example = run-IsSound calls (tables leased_job) (tables-IsKeyed leased_job refl) (
  record { attempts = omega arith; token = refl; expiry = refl; owner = refl; completion = refl },
  (waiting-IsSound 2, tt),
)

claim-Ends_example :
    Ends worker (codes "u") 1000 (claim worker (codes "u") 1000 still (tables leased_job))
unfolding any
claim-Ends_example =
    claim-Ends worker (codes "u") 1000 still (tables leased_job) (tables-IsKeyed leased_job refl)
      (refl, (refl, tt))

abbrev finished_tables : Ingestion
finished_tables = result worker 1000 leased_job submission [] false (tables leased_job)

finish-finish_example :
    (finish worker token_claim [] seen still
        (run (claims worker (codes "u") 1000 still ∷ []) finished_tables)
      ≡ none)
    × (renew worker token_claim still
          (run (claims worker (codes "u") 1000 still ∷ []) finished_tables)
        ≡ none)
unfolding finish owned find? owns text_eq final_report snapshot_eq snapshot files_eq filter is_fresh
finish-finish_example =
    finish-finish worker token_claim [] seen still (tables leased_job) finished_tables
      (tables-IsKeyed leased_job refl) refl (claims worker (codes "u") 1000 still ∷ []) (refl, tt)
      worker [] seen still

finish-verdict_example :
    (job' : SubmissionJob) × (s' : ChallengeSubmission) × (find? (has_job 1) finished_tables.jobs
      ≡ some job')
    × (find? (has_submission 7) finished_tables.submissions ≡ some s')
    × ((s'.status, job'.status) ≡ verdict true false true true)
unfolding finish owned find? owns text_eq final_report snapshot_eq snapshot files_eq file_eq filter
    any report_passed
finish-verdict_example =
    finish-verdict worker token_claim [] seen still (tables leased_job) finished_tables leased_job
      submission refl refl refl

run-IsSingle_example :
    IsSingle (run (finishes worker token_claim [] seen still ∷ calls) (tables leased_job)).outbox
unfolding count
run-IsSingle_example =
    run-IsSingle (finishes worker token_claim [] seen still ∷ calls) (tables leased_job)
      (λ k. omega arith)
