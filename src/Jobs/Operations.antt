-- ===== src/Jobs/Operations.antt =====
-- The transactions as data, a run of them, and the moves of a job's row that each may make.
use itp2_group6_the_pond.Prelude.{
  ℕ, Bool, true, false, ◌&&◌, Option, none, some, List, [], ◌∷◌, ◌≡◌, Text, ℕ_eq, Clock, leb, find?,
  update_first,
}
use itp2_group6_the_pond.Ingestion.{Ingestion, SubmissionJob, has_job}
use itp2_group6_the_pond.Reports.{Report, limit_reached}
use itp2_group6_the_pond.Worker.{
  Worker, Claim, Snapshot, owns, eligible, lease, cancel, extend, settle, claim, renew, finish,
  Claimed, out_of_fuel, raised, nothing, claimed,
}

-- The calls of any number of workers, with what each reads of the clock and the random generator.
pub data Op : Type 0 where
  claims : Worker → Text → ℕ → Clock → Op
  renews : Worker → Claim → Clock → Op
  finishes : Worker → Claim → Report → Snapshot → Clock → Op

-- What a call that raises rolls back to.
abbrev pub committed : Ingestion → Option Ingestion → Ingestion
committed db none = db
committed db (some db') = db'

-- What claim() commits, if it returns.
unfoldable pub after : Claimed → Option Ingestion
after out_of_fuel = none
after raised = none
after (nothing db) = some db
after (claimed _ db) = some db

unfoldable pub apply : Op → Ingestion → Ingestion
apply (claims worker token now later) db = committed db (after (claim worker token now later db))
apply (renews worker claim clock) db = committed db (renew worker claim clock db)
apply (finishes worker claim report seen clock) db =
    committed db (finish worker claim report seen clock db)

unfoldable pub run : List Op → Ingestion → Ingestion
run [] db = db
run (op ∷ ops) db = run ops (apply op db)

-- Whether a call may change a job's row.
unfoldable pub touches : Op → SubmissionJob → Bool
touches (claims worker token now later) j = eligible now j
touches (renews worker claim clock) j = has_job claim.job_id j && owns claim (clock 0) j
touches (finishes worker claim report seen clock) j =
    has_job claim.job_id j && owns claim (clock 0) j

-- The changes of a job's row.
pub data Move : Op → SubmissionJob → SubmissionJob → Type 0 where
  leased :
      {worker : Worker} {token : Text} {now : ℕ} {later : Clock} {job : SubmissionJob}
      → eligible now job ≡ true
      → leb job.max_attempts job.attempt_count ≡ false
      → Move (claims worker token now later) job (lease worker token now job)
  dropped :
      {worker : Worker} {token : Text} {now : ℕ} {later : Clock} {job : SubmissionJob}
      → eligible now job ≡ true
      → Move (claims worker token now later) job (cancel now job)
  exhausted :
      {worker : Worker} {token : Text} {now : ℕ} {later : Clock} {job : SubmissionJob} (time : ℕ)
      → eligible now job ≡ true
      → Move (claims worker token now later) job (settle worker time limit_reached true job)
  renewed :
      {worker : Worker} {claim : Claim} {clock : Clock} {job : SubmissionJob}
      → owns claim (clock 0) job ≡ true
      → job.job_id ≡ claim.job_id
      → Move (renews worker claim clock) job (extend worker (clock 1) job)
  finished :
      {worker : Worker} {claim : Claim} {report : Report} {seen : Snapshot} {clock : Clock}
      {job : SubmissionJob} (stored : Report)
      → owns claim (clock 0) job ≡ true
      → job.job_id ≡ claim.job_id
      → Move
          (finishes worker claim report seen clock)
          job
          (settle worker (clock 1) stored false job)

-- The rows before and after a call: the change of one row after the other, each found by its key.
pub data Changes (op : Op) : List SubmissionJob → List SubmissionJob → Type 0 where
  unchanged : {jobs : List SubmissionJob} → Changes op jobs jobs
  changed :
      {jobs jobs' : List SubmissionJob} (job : SubmissionJob) (f : SubmissionJob → SubmissionJob)
      → find? (has_job job.job_id) jobs ≡ some job
      → Move op job (f job)
      → ((j : SubmissionJob) → (f j).job_id ≡ j.job_id)
      → Changes op (update_first (has_job job.job_id) f jobs) jobs'
      → Changes op jobs jobs'
