-- ===== src/Jobs/Claiming.antt =====
-- claim() of challenge_ingestion/worker.py ends, and what it ends with.
use mathlib.Core.Path.{subst}
use itp2_group6_the_pond.Prelude.{
  ℕ, zero, suc, ◌+◌, ◌*◌, ◌<◌, true, false, none, some, List, [], ◌∷◌, ◌≡◌, ◌≢◌, refl, sym, ◌∙◌,
  inl, inr, Text, ◌==◌, ℕ_eq, Text_eq, text_eq_refl, Clock, second, find?, any-find?, All-find?,
  count, any, update_first, count-update_first, Bool-cases, Option-cases, All, arith, filter,
}
use itp2_group6_the_pond.Ingestion.{
  Ingestion, SubmissionJob, ChallengeSubmission, has_job, has_submission,
}
use itp2_group6_the_pond.Worker.{
  Claim, Worker, eligible, owns, lease, select, earliest, Turn, returns, continues, turn, Claimed,
  nothing, claimed, claim_loop, claim,
}
use itp2_group6_the_pond.Jobs.Keys.{IsKeyed, IsKeyed-update_first, select-eligible, select-find?}
use itp2_group6_the_pond.Jobs.Following.{find?-changed}
use itp2_group6_the_pond.Jobs.Turns.{Turned, took, passed_on, turn-Turned}

-- The foreign key of submission_jobs.
abbrev pub IsLinked : Ingestion → Type 0
IsLinked db =
    All (λ (j : SubmissionJob). any (has_submission j.submission_id) db.submissions ≡ true) db.jobs

-- How a claim() that started at `now` ends: nothing is left to claim, or the claim of its token
-- owns its job until the lease is over.
pub data Ends (worker : Worker) (token : Text) (now : ℕ) : Claimed → Type 0 where
  idle : {db : Ingestion} → count (eligible now) db.jobs ≡ 0 → Ends worker token now (nothing db)
  holds :
      {c : Claim} {db : Ingestion} (job : SubmissionJob)
      → c.token ≡ token
      → find? (has_job c.job_id) db.jobs ≡ some job
      → ((time : ℕ) → time < now + worker.lease_seconds * second → owns c time job ≡ true)
      → Ends worker token now (claimed c db)

-- The job of a new claim.
lease-owns :
    (worker : Worker) (token : Text) (now time : ℕ) (job : SubmissionJob) (c : Claim)
    → eligible now job ≡ true
    → c.token ≡ token
    → c.submission_id ≡ job.submission_id
    → time < now + worker.lease_seconds * second
    → owns c time (lease worker token now job) ≡ true
unfolding owns eligible
lease-owns worker token now time job c due t s early =
    let mine : (token == c.token) ≡ true = rw t (text_eq_refl token) in ground arith

-- A turn that goes on leaves fewer eligible jobs, and the keys as they were.
passed_on-count :
    (now : ℕ) (f : SubmissionJob → SubmissionJob) (jobs : List SubmissionJob) (job : SubmissionJob)
    → find? (has_job job.job_id) jobs ≡ some job
    → eligible now job ≡ true
    → eligible now (f job) ≡ false
    → count (eligible now) (update_first (has_job job.job_id) f jobs) + 1
      ≡ count (eligible now) jobs
passed_on-count now f jobs job found due over =
    let change = count-update_first (eligible now) (has_job job.job_id) f jobs job found in
    ground arith

linked_after :
    (before after : List ChallengeSubmission)
    → ((k : ℕ) → any (has_submission k) after ≡ any (has_submission k) before)
    → (jobs : List SubmissionJob)
    → All (λ (j : SubmissionJob). any (has_submission j.submission_id) before ≡ true) jobs
    → All (λ (j : SubmissionJob). any (has_submission j.submission_id) after ≡ true) jobs
linked_after before after same [] linked = tt
linked_after before after same (j ∷ js) linked =
    (same j.submission_id ∙ linked.0, linked_after before after same js linked.1)

earliest-some : (j : SubmissionJob) (js : List SubmissionJob) → earliest (j ∷ js) ≢ none
unfolding earliest
earliest-some j js e = elim (Option-cases (earliest js)) [
  | inl last ↦ let bad = rw (earliest, last) at e in cc
  | inr (k, found) ↦ let bad = rw (earliest, found) at e in cc
]

-- A job's submission is there.
linked-find? :
    (db : Ingestion) (job : SubmissionJob)
    → IsLinked db
    → find? (has_job job.job_id) db.jobs ≡ some job
    → (s : ChallengeSubmission) × (find? (has_submission job.submission_id) db.submissions ≡ some s)
linked-find? db job linked found = any-find? (has_submission job.submission_id) db.submissions (
    All-find? (λ (j : SubmissionJob). any (has_submission j.submission_id) db.submissions ≡ true)
      (has_job job.job_id) db.jobs job linked found)

passed_on-linked :
    (f : SubmissionJob → SubmissionJob) (id : ℕ) (before after : List ChallengeSubmission)
    → ((j : SubmissionJob) → (f j).submission_id ≡ j.submission_id)
    → ((k : ℕ) → any (has_submission k) after ≡ any (has_submission k) before)
    → (jobs : List SubmissionJob)
    → All (λ (j : SubmissionJob). any (has_submission j.submission_id) before ≡ true) jobs
    → All
        (λ (j : SubmissionJob). any (has_submission j.submission_id) after ≡ true)
        (update_first (has_job id) f jobs)
unfolding update_first
passed_on-linked f id before after keeps same [] linked = tt
passed_on-linked f id before after keeps same (j ∷ js) linked = elim (Bool-cases (has_job id j)) [
  | inl here ↦ rw here (
    subst (λ i. any (has_submission i) after ≡ true) (sym (keeps j))
        (same j.submission_id ∙ linked.0),
    linked_after before after same js linked.1,
  )
  | inr there ↦
      rw there
        (same j.submission_id ∙ linked.0, passed_on-linked f id before after keeps same js linked.1)
]

-- The query of claim() finds a job if there is an eligible one.
select-none :
    (now : ℕ) (jobs : List SubmissionJob) → select now jobs ≡ none → count (eligible now) jobs ≡ 0
unfolding select earliest filter count
select-none now [] e = refl
select-none now (j ∷ js) e = elim (Bool-cases (eligible now j)) [
  | inr over ↦ rw over (select-none now js (rw over at e))
  | inl due ↦ absurd (earliest-some j (filter (eligible now) js) (rw due at e))
]

-- How the loop goes on after a turn.
abbrev next : Turn → (Ingestion → Claimed) → Claimed
next t rest = elim t [ returns c db ↦ claimed c db | continues db ↦ rest db ]

turn-Ends :
    (worker : Worker) (token : Text) (now : ℕ) (job : SubmissionJob) (db : Ingestion)
    (rest : Ingestion → Claimed) (t : Turn)
    → Turned worker token now job db t
    → IsKeyed db.jobs
    → IsLinked db
    → find? (has_job job.job_id) db.jobs ≡ some job
    → eligible now job ≡ true
    → ((d : Ingestion)
        → IsKeyed d.jobs
        → IsLinked d
        → count (eligible now) d.jobs < count (eligible now) db.jobs
        → Ends worker token now (rest d))
    → Ends worker token now (next t rest)
turn-Ends worker token now job db rest _ (took {c} {d} t i s rows) keyed linked found due on =
    let f = lease worker token now in
    holds (f job) t
      (subst (λ js. find? (has_job c.job_id) js ≡ some (f job)) (sym rows)
        (subst
          (λ id. find? (has_job id) (update_first (has_job job.job_id) f db.jobs) ≡ some (f job))
          (sym i) (find?-changed db.jobs job f found (λ j. refl))))
      (λ time early. lease-owns worker token now time job c due t s early)
turn-Ends worker token now job db rest _ (passed_on {d} f rows ids keeps over same) keyed linked
      found due on =
    let fewer = passed_on-count now f db.jobs job found due over in
    on d (subst IsKeyed (sym rows) (IsKeyed-update_first job.job_id f ids db.jobs keyed))
      (subst
        (All (λ (j : SubmissionJob). any (has_submission j.submission_id) d.submissions ≡ true))
        (sym rows)
        (passed_on-linked f job.job_id db.submissions d.submissions keeps same db.jobs linked))
      (rw rows (omega arith))

claim_loop-Ends :
    (fuel : ℕ) (worker : Worker) (token : Text) (now : ℕ) (later : Clock) (db : Ingestion)
    → IsKeyed db.jobs
    → IsLinked db
    → count (eligible now) db.jobs < fuel
    → Ends worker token now (claim_loop fuel worker token now later db)
unfolding claim_loop
claim_loop-Ends zero worker token now later db keyed linked enough = absurd (omega arith)
claim_loop-Ends (suc fuel) worker token now later db keyed linked enough =
    elim (Option-cases (select now db.jobs)) [
      | inl none_left ↦ rw (claim_loop, none_left) (idle (select-none now db.jobs none_left))
      | inr (job, due) ↦
          let found = select-find? now db.jobs job keyed due in
          let (s, there) = linked-find? db job linked found in
          rw (claim_loop, due, there)
            (turn-Ends worker token now job db (claim_loop fuel worker token now later)
              (turn worker token now (later fuel) job s db)
              (turn-Turned worker token now (later fuel) job s db) keyed linked found
              (select-eligible now db.jobs job due)
              (λ d keyed' linked' fewer.
                claim_loop-Ends fuel worker token now later d keyed' linked' (omega arith)))
    ]

-- If no two jobs have the same id and the submission of every job is there, then claim() ends
-- without an exception: with nothing, and then no job is eligible at its reading of the clock, or
-- with a claim of its token, which owns its job at any time before the end of the lease.
pub claim-Ends :
    (worker : Worker) (token : Text) (now : ℕ) (later : Clock) (db : Ingestion)
    → IsKeyed db.jobs
    → IsLinked db
    → Ends worker token now (claim worker token now later db)
unfolding claim
claim-Ends worker token now later db keyed linked =
    claim_loop-Ends (suc (count (eligible now) db.jobs)) worker token now later db keyed linked
      (omega arith)
