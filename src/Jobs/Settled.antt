-- ===== src/Jobs/Settled.antt =====
-- A settled job of challenge_ingestion/worker.py is final.
use mathlib.Core.Path.{subst}
use itp2_group6_the_pond.Prelude.{
  ℕ, Bool, true, false, some, List, [], ◌∷◌, ◌≡◌, refl, ap, ◌∙◌, ℕ_eq, Text_eq, find?, All,
  every_holds, arith,
}
use itp2_group6_the_pond.Ingestion.{
  Ingestion, SubmissionJob, JobStatus, queued, running, retry_wait, succeeded, failed_job,
  cancelled, has_job,
}
use itp2_group6_the_pond.Worker.{eligible, owns, is_waiting, is_running}
use itp2_group6_the_pond.Jobs.Keys.{IsKeyed}
use itp2_group6_the_pond.Jobs.Operations.{Op, claims, renews, finishes, run, touches}
use itp2_group6_the_pond.Jobs.Following.{Goes, run-follows, Move-touches}

-- The row that no call touches stays.
module _ (job : SubmissionJob) where
  Same : SubmissionJob → SubmissionJob → Type 0
  Same j k = j ≡ job → k ≡ job

  untouched-Goes : (op : Op) → touches op job ≡ false → Goes Same op
  unfolding Same
  untouched-Goes op spared j k move e =
      let touched = subst (λ x. touches op x ≡ true) e (Move-touches op j k move) in cc

  All-untouched : (ops : List Op) → All (λ op. touches op job ≡ false) ops → All (Goes Same) ops
  All-untouched [] h = tt
  All-untouched (op ∷ ops) h = (untouched-Goes op h.0, All-untouched ops h.1)

  pub run-untouched :
      (ops : List Op)
      → All (λ op. touches op job ≡ false) ops
      → (db : Ingestion) → IsKeyed db.jobs
      → (id : ℕ) → find? (has_job id) db.jobs ≡ some job
      → find? (has_job id) (run ops db).jobs ≡ some job
  unfolding Same
  run-untouched ops spared db keyed id e =
      let (k, found, same) =
        run-follows Same (λ j h. h) (λ j k l f g h. g (f h)) ops (All-untouched ops spared) db keyed
          id job e in
      found ∙ ap some (same refl)

abbrev pub is_settled : JobStatus → Bool
is_settled succeeded = true
is_settled failed_job = true
is_settled cancelled = true
is_settled _ = false

settled-closed :
    (s : JobStatus) → is_settled s ≡ true → (is_waiting s ≡ false) × (is_running s ≡ false)
settled-closed succeeded h = (refl, refl)
settled-closed failed_job h = (refl, refl)
settled-closed cancelled h = (refl, refl)
settled-closed queued h = absurd (ground arith)
settled-closed running h = absurd (ground arith)
settled-closed retry_wait h = absurd (ground arith)

settled-untouched :
    (job : SubmissionJob) → is_settled job.status ≡ true → (op : Op) → touches op job ≡ false
unfolding touches eligible owns
settled-untouched job h (claims worker token now later) =
    let (a, b) = settled-closed job.status h in ground arith
settled-untouched job h (renews worker c clock) =
    let (a, b) = settled-closed job.status h in ground arith
settled-untouched job h (finishes worker c report seen clock) =
    let (a, b) = settled-closed job.status h in ground arith

-- If no two jobs have the same id, a job that succeeded, failed or was cancelled keeps its whole
-- row through any run of claim(), renew() and finish().
pub run-settled :
    (ops : List Op) (db : Ingestion) (id : ℕ) (job : SubmissionJob)
    → IsKeyed db.jobs
    → find? (has_job id) db.jobs ≡ some job
    → is_settled job.status ≡ true
    → find? (has_job id) (run ops db).jobs ≡ some job
run-settled ops db id job keyed e settled =
    run-untouched job ops (every_holds (settled-untouched job settled) ops) db keyed id e
