-- ===== src/Jobs/Keys.antt =====
-- The primary key of submission_jobs, and the job that claim() selects.
use mathlib.Core.Path.{subst}
use itp2_group6_the_pond.Prelude.{
  ℕ, ◌≤◌, ◌≡◌, Bool, true, some, List, [], ◌∷◌, inl, inr, ap, ◌∙◌, ◌==◌, ℕ_eq, Bool-cases,
  Option-cases, some-injective, filter, find?, find?-count, count, update_first,
  count-update_first_same, All, All-map, All-filter, arith,
}
use itp2_group6_the_pond.Ingestion.{SubmissionJob, has_job}
use itp2_group6_the_pond.Worker.{eligible, earliest, sooner, select}

-- No two rows have the same id.
abbrev pub IsKeyed : List SubmissionJob → Type 0
IsKeyed jobs = (id : ℕ) → count (has_job id) jobs ≤ 1

-- A change of rows that keeps their ids keeps the key.
pub IsKeyed-update_first :
    (id : ℕ) (f : SubmissionJob → SubmissionJob)
    → ((j : SubmissionJob) → (f j).job_id ≡ j.job_id)
    → (jobs : List SubmissionJob) → IsKeyed jobs
    → IsKeyed (update_first (has_job id) f jobs)
IsKeyed-update_first id f keeps jobs keyed other =
    rw
      (count-update_first_same (has_job other) (has_job id) f jobs
        (λ j _. ap (λ i. i == other) (keeps j)))
      (keyed other)

IsKeyed-tail : (j : SubmissionJob) (js : List SubmissionJob) → IsKeyed (j ∷ js) → IsKeyed js
unfolding count
IsKeyed-tail j js keyed id = let k = keyed id in ground arith

-- Behind the first row, a row is found by its key.
find?-behind :
    (j k : SubmissionJob) (js : List SubmissionJob)
    → IsKeyed (j ∷ js)
    → find? (has_job k.job_id) js ≡ some k
    → find? (has_job k.job_id) (j ∷ js) ≡ some k
unfolding find? count
find?-behind j k js keyed h =
    let most = keyed k.job_id in let least = find?-count (has_job k.job_id) js k h in ground arith

-- Every row is the one its key finds.
pub All-find?_self :
    (jobs : List SubmissionJob)
    → IsKeyed jobs
    → All (λ j. find? (has_job j.job_id) jobs ≡ some j) jobs
unfolding find?
All-find?_self [] keyed = tt
All-find?_self (j ∷ js) keyed = (
  ground arith,
  All-map (λ k. find? (has_job k.job_id) js ≡ some k)
      (λ k. find? (has_job k.job_id) (j ∷ js) ≡ some k) (λ k h. find?-behind j k js keyed h) js
      (All-find?_self js (IsKeyed-tail j js keyed)),
)

All-earliest {κ} :
    (P : SubmissionJob → Type κ) (jobs : List SubmissionJob) (j : SubmissionJob)
    → All P jobs
    → earliest jobs ≡ some j
    → P j
unfolding earliest
All-earliest P [] j h e = cc
All-earliest P (x ∷ xs) j h e = elim (Option-cases (earliest xs)) [
  | inl last ↦ subst P (some-injective (rw last at e)) h.0
  | inr (k, found) ↦ elim (Bool-cases (sooner k x)) [
    | inl before ↦
        All-earliest P xs j h.1 (found ∙ ap some (some-injective (rw (found, before) at e)))
    | inr after ↦ subst P (some-injective (rw (found, after) at e)) h.0
  ]
]

All-filter_self :
    (p : SubmissionJob → Bool) (jobs : List SubmissionJob) → All (λ j. p j ≡ true) (filter p jobs)
unfolding filter
All-filter_self p [] = tt
All-filter_self p (j ∷ js) = elim (Bool-cases (p j)) [
  | inl e ↦ rw e (e, All-filter_self p js)
  | inr e ↦ rw e (All-filter_self p js)
]

-- The selected job is eligible, and is the row of its key.
pub select-eligible :
    (now : ℕ) (jobs : List SubmissionJob) (j : SubmissionJob)
    → select now jobs ≡ some j
    → eligible now j ≡ true
unfolding select
select-eligible now jobs j e =
    All-earliest (λ k. eligible now k ≡ true) (filter (eligible now) jobs) j
      (All-filter_self (eligible now) jobs) e

pub select-find? :
    (now : ℕ) (jobs : List SubmissionJob) (j : SubmissionJob)
    → IsKeyed jobs
    → select now jobs ≡ some j
    → find? (has_job j.job_id) jobs ≡ some j
unfolding select
select-find? now jobs j keyed e =
    All-earliest (λ k. find? (has_job k.job_id) jobs ≡ some k) (filter (eligible now) jobs) j
      (All-filter (λ k. find? (has_job k.job_id) jobs ≡ some k) (eligible now) jobs
        (All-find?_self jobs keyed))
      e
