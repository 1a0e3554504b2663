-- ===== src/Jobs/Frames.antt =====
-- What the transactions of challenge_ingestion/worker.py keep, if a change of jobs and _result keep it.
use mathlib.Core.Path.{subst}
use itp2_group6_the_pond.Prelude.{
  ℕ, zero, suc, inl, inr, Bool, true, false, Option, none, some, List, [], ◌∷◌, Text, Clock, count,
  find?, leb, Bool-cases, Option-cases,
}
use itp2_group6_the_pond.Ingestion.{
  Ingestion, SubmissionJob, ChallengeSubmission, has_submission, is_validating,
}
use itp2_group6_the_pond.Reports.{Report, limit_reached}
use itp2_group6_the_pond.Worker.{
  Worker, Claim, Snapshot, owned, eligible, select, result, Turn, returns, continues, turn,
  claim_loop, claim, renew, final_report, finish, Claimed, claimed,
}
use itp2_group6_the_pond.Jobs.Operations.{
  Op, claims, renews, finishes, after, committed, apply, run,
}
use itp2_group6_the_pond.Jobs.Changing.{finish-result}

module _ (P : Ingestion → Type 0)
    (jobs_only : (jobs : List SubmissionJob) (db : Ingestion)
      → P db
      → P (record db { jobs = jobs }))
    (results : (worker : Worker) (now : ℕ) (job : SubmissionJob) (s : ChallengeSubmission)
        (report : Report) (over : Bool) (db : Ingestion)
      → P db
      → P (result worker now job s report over db)) where
  abbrev of_turn : Turn → Ingestion
  of_turn (returns _ db) = db
  of_turn (continues db) = db

  turn-frame :
      (worker : Worker) (token : Text) (now later : ℕ) (job : SubmissionJob)
      (s : ChallengeSubmission) (db : Ingestion)
      → P db
      → P (of_turn (turn worker token now later job s db))
  unfolding turn
  turn-frame worker token now later job s db h = elim (Bool-cases (is_validating s.status)) [
    | inr left ↦ rw left (jobs_only _ db h)
    | inl here ↦ elim (Bool-cases (leb job.max_attempts job.attempt_count)) [
      | inl over ↦ rw (here, over) (results worker later job s limit_reached true db h)
      | inr under ↦ rw (here, under) (jobs_only _ db h)
    ]
  ]

  -- What holds of the table that a call commits.
  Holds : Option Ingestion → Type 0
  Holds none = Unit
  Holds (some db) = P db

  abbrev next : Turn → (Ingestion → Claimed) → Claimed
  next t rest = elim t [ returns c db ↦ claimed c db | continues db ↦ rest db ]

  next-frame :
      (t : Turn) (rest : Ingestion → Claimed)
      → P (of_turn t)
      → ((db : Ingestion) → P db → Holds (after (rest db)))
      → Holds (after (next t rest))
  unfolding Holds after
  next-frame (returns c db) rest h on = h
  next-frame (continues db) rest h on = on db h

  claim_loop-frame :
      (fuel : ℕ) (worker : Worker) (token : Text) (now : ℕ) (later : Clock) (db : Ingestion)
      → P db
      → Holds (after (claim_loop fuel worker token now later db))
  unfolding Holds after claim_loop
  claim_loop-frame zero worker token now later db h = tt
  claim_loop-frame (suc fuel) worker token now later db h =
      elim (Option-cases (select now db.jobs)) [
        | inl idle ↦ rw (claim_loop, idle) h
        | inr (job, due) ↦
            elim (Option-cases (find? (has_submission job.submission_id) db.submissions)) [
              | inl missing ↦ rw (claim_loop, due, missing) tt
              | inr (s, there) ↦
                  rw (claim_loop, due, there)
                    (next-frame (turn worker token now (later fuel) job s db)
                      (claim_loop fuel worker token now later)
                      (turn-frame worker token now (later fuel) job s db h)
                      (λ d hd. claim_loop-frame fuel worker token now later d hd))
            ]
      ]

  renew-frame :
      (worker : Worker) (c : Claim) (clock : Clock) (db : Ingestion)
      → P db
      → Holds (renew worker c clock db)
  unfolding Holds renew
  renew-frame worker c clock db h = elim (Option-cases (owned c (clock 0) db)) [
    | inl lost ↦ rw (renew, lost) tt
    | inr (job, own) ↦ rw (renew, own) (jobs_only _ db h)
  ]

  finish-frame :
      (worker : Worker) (c : Claim) (report : Report) (seen : Snapshot) (clock : Clock)
      (db : Ingestion)
      → P db
      → Holds (finish worker c report seen clock db)
  unfolding Holds
  finish-frame worker c report seen clock db h =
      elim (Option-cases (finish worker c report seen clock db)) [
        | inl lost ↦ rw lost tt
        | inr (db', e) ↦
            let (job, s, own, there, here, stores) =
              finish-result worker c report seen clock db db' e in
            rw e (
              subst P stores
                (results worker (clock 1) job s (final_report db s seen report) false db h))
      ]

  committed-frame : (db : Ingestion) (o : Option Ingestion) → P db → Holds o → P (committed db o)
  unfolding Holds
  committed-frame db none h _ = h
  committed-frame db (some d) _ h = h

  apply-frame : (op : Op) (db : Ingestion) → P db → P (apply op db)
  unfolding apply claim
  apply-frame (claims worker token now later) db h =
      committed-frame db (after (claim worker token now later db)) h
        (claim_loop-frame (suc (count (eligible now) db.jobs)) worker token now later db h)
  apply-frame (renews worker c clock) db h =
      committed-frame db (renew worker c clock db) h (renew-frame worker c clock db h)
  apply-frame (finishes worker c report seen clock) db h =
      committed-frame db (finish worker c report seen clock db) h
        (finish-frame worker c report seen clock db h)

  pub run-frame : (ops : List Op) (db : Ingestion) → P db → P (run ops db)
  unfolding run
  run-frame [] db h = h
  run-frame (op ∷ ops) db h = run-frame ops (apply op db) (apply-frame op db h)
