-- ===== src/Jobs/Invariant.antt =====
-- The invariant of a job's row under the transactions of challenge_ingestion/worker.py.
use itp2_group6_the_pond.Prelude.{
  ℕ, ◌≤◌, Bool, true, false, Option, none, some, List, [], ◌∷◌, ◌≡◌, refl, inl, inr, ℕ_eq,
  update_first, All-update_first, All-find?, Bool-cases, All, arith,
}
use itp2_group6_the_pond.Ingestion.{Ingestion, SubmissionJob, has_job, is_failed}
use itp2_group6_the_pond.Reports.{Report, limit_reached, suggested_status}
use itp2_group6_the_pond.Worker.{Worker, is_running, settle, retries}
use itp2_group6_the_pond.Jobs.Keys.{IsKeyed}
use itp2_group6_the_pond.Jobs.Operations.{
  Op, apply, run, Move, leased, dropped, exhausted, renewed, finished, Changes, unchanged, changed,
}
use itp2_group6_the_pond.Jobs.Changing.{apply-Changes}
use itp2_group6_the_pond.Jobs.Following.{Changes-IsKeyed}
use itp2_group6_the_pond.Jobs.Settled.{is_settled}
use itp2_group6_the_pond.Jobs.Diagram.{owns-running}

abbrev pub is_some {ℓ} : {A : Type ℓ} → Option A → Bool
is_some none = false
is_some (some a) = true

-- The attempts are within their limit; exactly a running job is leased; exactly a settled job has
-- a time of completion.
pub record IsSound (j : SubmissionJob) : Type 0 where
  pub attempts : j.attempt_count ≤ j.max_attempts
  pub token : is_some j.lease_token ≡ is_running j.status
  pub expiry : is_some j.lease_expires_at ≡ is_running j.status
  pub owner : is_some j.locked_by ≡ is_running j.status
  pub completion : is_some j.completed_at ≡ is_settled j.status

settle-IsSound :
    (worker : Worker) (time : ℕ) (report : Report) (over : Bool) (j : SubmissionJob)
    → j.attempt_count ≤ j.max_attempts
    → IsSound (settle worker time report over j)
unfolding settle
settle-IsSound worker time report over j h = elim (Bool-cases (retries j report over)) [
  | inl again ↦
      rw again
        (record { attempts = h; token = refl; expiry = refl; owner = refl; completion = refl })
  | inr no_more ↦ elim (Bool-cases (is_failed (suggested_status report))) [
    | inl technical ↦
        rw (no_more, technical)
          (record { attempts = h; token = refl; expiry = refl; owner = refl; completion = refl })
    | inr decided ↦
        rw (no_more, decided)
          (record { attempts = h; token = refl; expiry = refl; owner = refl; completion = refl })
  ]
]

Move-IsSound : (op : Op) (j k : SubmissionJob) → Move op j k → IsSound j → IsSound k
Move-IsSound _ j _ (leased due under) s = record {
  attempts = ground arith;
  token = refl;
  expiry = refl;
  owner = refl;
  completion = refl;
}
Move-IsSound _ j _ (dropped due) s = record {
  attempts = s.attempts;
  token = refl;
  expiry = refl;
  owner = refl;
  completion = refl;
}
Move-IsSound _ j _ (exhausted {worker} time due) s =
    settle-IsSound worker time limit_reached true j s.attempts
Move-IsSound _ j _ (renewed {claim = c} {clock} held key) s = record {
  attempts = s.attempts;
  token = s.token;
  expiry = rw (owns-running c (clock 0) j held) refl;
  owner = s.owner;
  completion = s.completion;
}
Move-IsSound _ j _ (finished {worker} {clock} stored held key) s =
    settle-IsSound worker (clock 1) stored false j s.attempts

Changes-IsSound :
    {op : Op} (jobs jobs' : List SubmissionJob)
    → Changes op jobs jobs'
    → All IsSound jobs
    → All IsSound jobs'
Changes-IsSound jobs _ unchanged sound = sound
Changes-IsSound {op} jobs jobs' (changed job f found move keeps rest) sound =
    Changes-IsSound (update_first (has_job job.job_id) f jobs) jobs' rest (
      All-update_first IsSound (has_job job.job_id) f jobs job found
        (Move-IsSound op job (f job) move
          (All-find? IsSound (has_job job.job_id) jobs job sound found))
        sound)

-- If no two jobs have the same id, any run of claim(), renew() and finish() keeps every row
-- sound: the attempts are within their limit, exactly a running job has a token, an end of its
-- lease and an owner, and exactly a settled job has a time of completion.
pub run-IsSound :
    (ops : List Op) (db : Ingestion)
    → IsKeyed db.jobs
    → All IsSound db.jobs
    → All IsSound (run ops db).jobs
unfolding run
run-IsSound [] db keyed sound = sound
run-IsSound (op ∷ ops) db keyed sound =
    let changes = apply-Changes op db keyed in
    run-IsSound ops (apply op db) (Changes-IsKeyed db.jobs (apply op db).jobs changes keyed)
      (Changes-IsSound db.jobs (apply op db).jobs changes sound)
