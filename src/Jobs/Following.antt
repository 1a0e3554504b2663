-- ===== src/Jobs/Following.antt =====
-- One job's row through a run.
use mathlib.Core.Path.{subst}
use itp2_group6_the_pond.Prelude.{
  ℕ, true, false, some, List, [], ◌∷◌, ◌≡◌, sym, ◌∙◌, inl, inr, ◌==◌, ℕ_eq, find?, find?-sound,
  update_first, find?-update_first, find?-update_first_other, Bool-cases, some-injective, All,
  arith,
}
use itp2_group6_the_pond.Ingestion.{Ingestion, SubmissionJob, has_job}
use itp2_group6_the_pond.Jobs.Keys.{IsKeyed, IsKeyed-update_first}
use itp2_group6_the_pond.Jobs.Operations.{
  Op, apply, run, touches, Move, leased, dropped, exhausted, renewed, finished, Changes, unchanged,
  changed,
}
use itp2_group6_the_pond.Jobs.Changing.{apply-Changes}

pub Changes-IsKeyed :
    {op : Op} (jobs jobs' : List SubmissionJob)
    → Changes op jobs jobs'
    → IsKeyed jobs
    → IsKeyed jobs'
Changes-IsKeyed jobs _ unchanged keyed = keyed
Changes-IsKeyed jobs jobs' (changed job f found move keeps rest) keyed =
    Changes-IsKeyed (update_first (has_job job.job_id) f jobs) jobs' rest
      (IsKeyed-update_first job.job_id f keeps jobs keyed)

pub run-IsKeyed : (ops : List Op) (db : Ingestion) → IsKeyed db.jobs → IsKeyed (run ops db).jobs
unfolding run
run-IsKeyed [] db keyed = keyed
run-IsKeyed (op ∷ ops) db keyed =
    run-IsKeyed ops (apply op db)
      (Changes-IsKeyed db.jobs (apply op db).jobs (apply-Changes op db keyed) keyed)

pub Move-touches : (op : Op) (j k : SubmissionJob) → Move op j k → touches op j ≡ true
unfolding touches
Move-touches _ _ _ (leased due under) = due
Move-touches _ _ _ (dropped due) = due
Move-touches _ _ _ (exhausted time due) = due
Move-touches _ j _ (renewed held key) = ground arith
Move-touches _ j _ (finished stored held key) = ground arith

-- The row of another job is not changed.
find?-other :
    (id other : ℕ) (f : SubmissionJob → SubmissionJob) (jobs : List SubmissionJob)
    → ((j : SubmissionJob) → (f j).job_id ≡ j.job_id)
    → (other == id) ≡ false
    → find? (has_job id) (update_first (has_job other) f jobs) ≡ find? (has_job id) jobs
find?-other id other f jobs keeps apart =
    find?-update_first_other (has_job id) (has_job other) f
      (λ j e. let same = keeps j in (ground arith, ground arith)) jobs

pub find?-id :
    (id : ℕ) (jobs : List SubmissionJob) (j : SubmissionJob)
    → find? (has_job id) jobs ≡ some j
    → j.job_id ≡ id
find?-id id jobs j e = ground (arith, find?-sound (has_job id) jobs j e)

pub find?-changed :
    (jobs : List SubmissionJob) (job : SubmissionJob) (f : SubmissionJob → SubmissionJob)
    → find? (has_job job.job_id) jobs ≡ some job
    → ((j : SubmissionJob) → (f j).job_id ≡ j.job_id)
    → find? (has_job job.job_id) (update_first (has_job job.job_id) f jobs) ≡ some (f job)
find?-changed jobs job f found keeps =
    let same = keeps job in find?-update_first (has_job job.job_id) f jobs job found (ground arith)

-- A relation that holds between a row and what a call makes of it.
abbrev pub Goes : (SubmissionJob → SubmissionJob → Type 0) → Op → Type 0
Goes R op = (j k : SubmissionJob) → Move op j k → R j k

module _ (R : SubmissionJob → SubmissionJob → Type 0) (stays : (j : SubmissionJob) → R j j)
    (joins : (j k l : SubmissionJob) → R j k → R k l → R j l) where
  -- The row that a key finds, and what it has become.
  abbrev pub Found : ℕ → List SubmissionJob → SubmissionJob → Type 0
  Found id jobs j = (k : SubmissionJob) × (find? (has_job id) jobs ≡ some k) × R j k

  pub Changes-follows :
      {op : Op}
      → Goes R op
      → (jobs jobs' : List SubmissionJob) → Changes op jobs jobs'
      → (id : ℕ) (j : SubmissionJob) → find? (has_job id) jobs ≡ some j
      → Found id jobs' j
  Changes-follows goes jobs _ unchanged id j e = (j, e, stays j)
  Changes-follows goes jobs jobs' (changed job f found move keeps rest) id j e =
      elim (Bool-cases (job.job_id == id)) [
        | inr apart ↦
            Changes-follows goes (update_first (has_job job.job_id) f jobs) jobs' rest id j
              (find?-other id job.job_id f jobs keeps apart ∙ e)
        | inl here ↦
            let key : job.job_id ≡ id = ground arith in
            let same : job ≡ j =
              some-injective
                (sym found ∙ subst (λ i. find? (has_job i) jobs ≡ some j) (sym key) e) in
            let (k, k_found, reached) =
              Changes-follows goes (update_first (has_job job.job_id) f jobs) jobs' rest id (f job)
                (subst
                  (λ i. find? (has_job i) (update_first (has_job job.job_id) f jobs) ≡ some (f job))
                  key (find?-changed jobs job f found keeps)) in
            (
              k,
              k_found,
              subst (λ i. R i k) same (joins job (f job) k (goes job (f job) move) reached),
            )
      ]

  pub run-follows :
      (ops : List Op)
      → All (Goes R) ops
      → (db : Ingestion) → IsKeyed db.jobs
      → (id : ℕ) (j : SubmissionJob) → find? (has_job id) db.jobs ≡ some j
      → Found id (run ops db).jobs j
  unfolding run
  run-follows [] goes db keyed id j e = (j, e, stays j)
  run-follows (op ∷ ops) goes db keyed id j e =
      let changes = apply-Changes op db keyed in
      let next = apply op db in
      let (k, k_found, first) = Changes-follows goes.0 db.jobs next.jobs changes id j e in
      let (l, l_found, later) =
        run-follows ops goes.1 next (Changes-IsKeyed db.jobs next.jobs changes keyed) id k
          k_found in
      (l, l_found, joins j k l first later)
