-- ===== src/Jobs/Turns.antt =====
-- A turn of the loop of claim() in challenge_ingestion/worker.py.
use itp2_group6_the_pond.Prelude.{
  ℕ, true, false, List, [], ◌∷◌, ◌≡◌, refl, inl, inr, Text, ℕ_eq, Text_eq, any, update_first, leb,
  Bool-cases, arith,
}
use itp2_group6_the_pond.Ingestion.{
  Ingestion, SubmissionJob, ChallengeSubmission, has_job, has_submission, is_validating,
}
use itp2_group6_the_pond.Reports.{limit_reached, suggested_status, is_infrastructure}
use itp2_group6_the_pond.Worker.{
  Claim, Worker, eligible, settle, retries, cancel, lease, result, Turn, returns, continues, turn,
}

-- What a turn of the loop comes to.
pub data Turned (worker : Worker) (token : Text) (now : ℕ) (job : SubmissionJob) (db : Ingestion)
    : Turn → Type 0 where
  took :
      {c : Claim} {d : Ingestion}
      → c.token ≡ token
      → c.job_id ≡ job.job_id
      → c.submission_id ≡ job.submission_id
      → d.jobs ≡ update_first (has_job job.job_id) (lease worker token now) db.jobs
      → Turned worker token now job db (returns c d)
  passed_on :
      {d : Ingestion} (f : SubmissionJob → SubmissionJob)
      → d.jobs ≡ update_first (has_job job.job_id) f db.jobs
      → ((j : SubmissionJob) → (f j).job_id ≡ j.job_id)
      → ((j : SubmissionJob) → (f j).submission_id ≡ j.submission_id)
      → eligible now (f job) ≡ false
      → ((id : ℕ) → any (has_submission id) d.submissions ≡ any (has_submission id) db.submissions)
      → Turned worker token now job db (continues d)

any-update_first :
    (id other : ℕ) (f : ChallengeSubmission → ChallengeSubmission) (xs : List ChallengeSubmission)
    → ((s : ChallengeSubmission) → (f s).submission_id ≡ s.submission_id)
    → any (has_submission id) (update_first (has_submission other) f xs)
      ≡ any (has_submission id) xs
unfolding any update_first
any-update_first id other f [] keeps = refl
any-update_first id other f (x ∷ xs) keeps =
    ground (arith, keeps x, any-update_first id other f xs keeps)

exhausted-ineligible :
    (worker : Worker) (now time : ℕ) (job : SubmissionJob)
    → eligible now (settle worker time limit_reached true job) ≡ false
unfolding eligible settle retries suggested_status is_infrastructure any
exhausted-ineligible worker now time job = ground arith

cancelled-ineligible : (now : ℕ) (job : SubmissionJob) → eligible now (cancel now job) ≡ false
unfolding eligible
cancelled-ineligible now job = ground arith

-- A turn returns a claim of the job with its row leased, or goes on with the job out of reach.
pub turn-Turned :
    (worker : Worker) (token : Text) (now time : ℕ) (job : SubmissionJob) (s : ChallengeSubmission)
    (db : Ingestion)
    → Turned worker token now job db (turn worker token now time job s db)
unfolding turn result settle
turn-Turned worker token now time job s db = elim (Bool-cases (is_validating s.status)) [
  | inr left ↦ rw left (
      passed_on (cancel now) refl (λ j. refl) (λ j. refl) (cancelled-ineligible now job)
        (λ id. refl))
  | inl here ↦ elim (Bool-cases (leb job.max_attempts job.attempt_count)) [
    | inl over ↦
        rw (here, over)
          (passed_on (settle worker time limit_reached true) refl (λ j. refl) (λ j. refl)
            (exhausted-ineligible worker now time job)
            (λ id. any-update_first id s.submission_id _ db.submissions (λ x. refl)))
    | inr under ↦ rw (here, under) (took refl refl refl refl)
  ]
]
