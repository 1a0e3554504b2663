-- ===== src/Jobs/Changing.antt =====
-- Each transaction of challenge_ingestion/worker.py changes job rows by moves only.
use mathlib.Core.Path.{subst}
use itp2_group6_the_pond.Prelude.{
  ℕ, zero, suc, true, false, Option, none, some, List, ◌≡◌, refl, sym, ap, ◌∙◌, ◌⊎◌, inl, inr, Text,
  ℕ_eq, Clock, leb, find?, find?-sound, count, update_first, Bool-cases, Option-cases,
  some-injective, arith,
}
use itp2_group6_the_pond.Ingestion.{
  Ingestion, SubmissionJob, ChallengeSubmission, has_job, has_submission, is_validating,
}
use itp2_group6_the_pond.Reports.{Report, limit_reached}
use itp2_group6_the_pond.Worker.{
  Worker, Claim, Snapshot, owns, owned, eligible, select, lease, cancel, extend, settle, result,
  Turn, returns, continues, turn, claim_loop, claim, renew, final_report, finish,
}
use itp2_group6_the_pond.Jobs.Keys.{IsKeyed, IsKeyed-update_first, select-eligible, select-find?}
use itp2_group6_the_pond.Jobs.Operations.{
  Op, claims, renews, finishes, after, committed, apply, Move, leased, dropped, exhausted, renewed,
  finished, Changes, unchanged, changed,
}

-- The rows after a turn of claim()'s loop.
abbrev jobs_of : Turn → List SubmissionJob
jobs_of (returns _ db) = db.jobs
jobs_of (continues db) = db.jobs

turn-Move :
    (worker : Worker) (token : Text) (now : ℕ) (later : Clock) (time : ℕ) (job : SubmissionJob)
    (submission : ChallengeSubmission) (db : Ingestion)
    → eligible now job ≡ true
    → (f : SubmissionJob → SubmissionJob) × Move (claims worker token now later) job (f job)
      × ((j : SubmissionJob) → (f j).job_id ≡ j.job_id)
      × (jobs_of (turn worker token now time job submission db)
          ≡ update_first (has_job job.job_id) f db.jobs)
unfolding turn result settle
turn-Move worker token now later time job submission db due =
    elim (Bool-cases (is_validating submission.status)) [
      | inr left ↦ (cancel now, dropped due, (λ j. refl), rw left refl)
      | inl here ↦ elim (Bool-cases (leb job.max_attempts job.attempt_count)) [
        | inl over ↦ (
          settle worker time limit_reached true,
          exhausted time due,
          (λ j. refl),
          rw (here, over) refl,
        )
        | inr under ↦ (lease worker token now, leased due under, (λ j. refl), rw (here, under) refl)
      ]
    ]

Turn-cases :
    (t : Turn)
    → ((c : Claim) × (db : Ingestion) × (t ≡ returns c db))
      ⊎ ((db : Ingestion) × (t ≡ continues db))
Turn-cases (returns c db) = inl (c, db, refl)
Turn-cases (continues db) = inr (db, refl)

claim_loop-Changes :
    (fuel : ℕ) (worker : Worker) (token : Text) (now : ℕ) (later : Clock) (db db' : Ingestion)
    → IsKeyed db.jobs
    → after (claim_loop fuel worker token now later db) ≡ some db'
    → Changes (claims worker token now later) db.jobs db'.jobs
unfolding after claim_loop
claim_loop-Changes zero worker token now later db db' keyed e = cc
claim_loop-Changes (suc fuel) worker token now later db db' keyed e =
    elim (Option-cases (select now db.jobs)) [
      | inl idle ↦
          subst (λ (d : Ingestion). Changes (claims worker token now later) db.jobs d.jobs)
            (some-injective (rw (after, claim_loop, idle) at e)) unchanged
      | inr (job, due) ↦
          elim (Option-cases (find? (has_submission job.submission_id) db.submissions)) [
            | inl missing ↦ let bad = rw (after, claim_loop, due, missing) at e in cc
            | inr (submission, found) ↦
                let (f, move, keeps, rows) =
                  turn-Move worker token now later (later fuel) job submission db
                    (select-eligible now db.jobs job due) in
                let changed_first =
                  changed job f (select-find? now db.jobs job keyed due) move keeps in
                elim (Turn-cases (turn worker token now (later fuel) job submission db)) [
                  | inl (c, d, ends) ↦
                      let same : d ≡ db' =
                        some-injective (rw (after, claim_loop, due, found, ends) at e) in
                      changed_first (
                        subst
                          (Changes (claims worker token now later)
                            (update_first (has_job job.job_id) f db.jobs))
                          (sym (rw ends at rows) ∙ ap (λ (x : Ingestion). x.jobs) same) unchanged)
                  | inr (d, goes_on) ↦
                      let d_rows : d.jobs ≡ update_first (has_job job.job_id) f db.jobs =
                        rw goes_on at rows in
                      changed_first (
                        subst (λ js. Changes (claims worker token now later) js db'.jobs) d_rows
                          (claim_loop-Changes fuel worker token now later d db'
                            (subst IsKeyed (sym d_rows)
                              (IsKeyed-update_first job.job_id f keeps db.jobs keyed))
                            (rw (claim_loop, due, found, goes_on) at e)))
                ]
          ]
    ]

-- A worker's own job is the row of its key.
pub owned-find? :
    (c : Claim) (now : ℕ) (db : Ingestion) (job : SubmissionJob)
    → owned c now db ≡ some job
    → (find? (has_job job.job_id) db.jobs ≡ some job)
      × (owns c now job ≡ true)
      × (job.job_id ≡ c.job_id)
unfolding owned
owned-find? c now db job e = elim (Option-cases (find? (has_job c.job_id) db.jobs)) [
  | inl missing ↦ let bad = rw (owned, missing) at e in cc
  | inr (j, found) ↦ elim (Bool-cases (owns c now j)) [
    | inr lost ↦ let bad = rw (owned, found, lost) at e in cc
    | inl held ↦
        let same : j ≡ job = some-injective (rw (owned, found, held) at e) in
        let key : j.job_id ≡ c.job_id =
          ground (arith, find?-sound (has_job c.job_id) db.jobs j found) in
        rw (← same) (subst (λ id. find? (has_job id) db.jobs ≡ some j) (sym key) found, held, key)
  ]
]

renew-Changes :
    (worker : Worker) (c : Claim) (clock : Clock) (db db' : Ingestion)
    → renew worker c clock db ≡ some db'
    → Changes (renews worker c clock) db.jobs db'.jobs
unfolding renew
renew-Changes worker c clock db db' e = elim (Option-cases (owned c (clock 0) db)) [
  | inl lost ↦ let bad = rw (renew, lost) at e in cc
  | inr (job, own) ↦
      let (found, held, key) = owned-find? c (clock 0) db job own in
      changed job (extend worker (clock 1)) found (renewed held key) (λ j. refl)
        (subst
          (λ (d : Ingestion).
            Changes (renews worker c clock)
              (update_first (has_job job.job_id) (extend worker (clock 1)) db.jobs) d.jobs)
          (some-injective (rw (renew, own) at e)) unchanged)
]

-- What a finish() that returns has found, and what it stores.
pub finish-result :
    (worker : Worker) (c : Claim) (report : Report) (seen : Snapshot) (clock : Clock)
    (db db' : Ingestion)
    → finish worker c report seen clock db ≡ some db'
    → (job : SubmissionJob) × (s : ChallengeSubmission) × (owned c (clock 0) db ≡ some job)
      × (find? (has_submission job.submission_id) db.submissions ≡ some s)
      × (is_validating s.status ≡ true)
      × (result worker (clock 1) job s (final_report db s seen report) false db ≡ db')
unfolding finish
finish-result worker c report seen clock db db' e = elim (Option-cases (owned c (clock 0) db)) [
  | inl lost ↦ let bad = rw (finish, lost) at e in cc
  | inr (job, own) ↦ elim (Option-cases (find? (has_submission job.submission_id) db.submissions)) [
    | inl missing ↦ let bad = rw (finish, own, missing) at e in cc
    | inr (s, there) ↦ elim (Bool-cases (is_validating s.status)) [
      | inr left ↦ let bad = rw (finish, own, there, left) at e in cc
      | inl here ↦ (job, s, own, there, here, some-injective (rw (finish, own, there, here) at e))
    ]
  ]
]

pub finish-Changes :
    (worker : Worker) (c : Claim) (report : Report) (seen : Snapshot) (clock : Clock)
    (db db' : Ingestion)
    → finish worker c report seen clock db ≡ some db'
    → Changes (finishes worker c report seen clock) db.jobs db'.jobs
unfolding result settle
finish-Changes worker c report seen clock db db' e =
    let (job, s, own, there, here, stores) = finish-result worker c report seen clock db db' e in
    let (found, held, key) = owned-find? c (clock 0) db job own in
    let stored = final_report db s seen report in
    changed job (settle worker (clock 1) stored false) found (finished stored held key) (λ j. refl)
      (subst
        (λ (d : Ingestion).
          Changes (finishes worker c report seen clock)
            (update_first (has_job job.job_id) (settle worker (clock 1) stored false) db.jobs)
            d.jobs)
        stores unchanged)

committed-Changes :
    (op : Op) (db : Ingestion) (after : Option Ingestion)
    → ((db' : Ingestion) → after ≡ some db' → Changes op db.jobs db'.jobs)
    → Changes op db.jobs (committed db after).jobs
committed-Changes op db none h = unchanged
committed-Changes op db (some db') h = h db' refl

-- Every call changes the rows of the jobs by moves only.
pub apply-Changes :
    (op : Op) (db : Ingestion) → IsKeyed db.jobs → Changes op db.jobs (apply op db).jobs
unfolding apply claim
apply-Changes (claims worker token now later) db keyed =
    committed-Changes _ db (after (claim worker token now later db)) (λ db' e.
      claim_loop-Changes (suc (count (eligible now) db.jobs)) worker token now later db db' keyed e)
apply-Changes (renews worker c clock) db keyed =
    committed-Changes _ db _ (λ db' e. renew-Changes worker c clock db db' e)
apply-Changes (finishes worker c report seen clock) db keyed =
    committed-Changes _ db _ (λ db' e. finish-Changes worker c report seen clock db db' e)
