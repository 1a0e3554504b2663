-- ===== src/Jobs/Outcome.antt =====
-- What finish() of challenge_ingestion/worker.py makes of a submission.
use mathlib.Core.Path.{subst, ap₂}
use itp2_group6_the_pond.Prelude.{
  ℕ, Bool, true, false, ◌&&◌, some, ◌≡◌, refl, sym, inl, inr, ℕ_eq, String_eq, find?, find?-sound,
  find?-update_first, any, Clock, ltb, Bool-cases, some-injective, ◌∙◌, if◌then◌else◌, arith,
}
use itp2_group6_the_pond.Ingestion.{
  Ingestion, SubmissionJob, ChallengeSubmission, SubmissionStatus, JobStatus, succeeded, failed_job,
  retry_wait, validating, validation_failed, needs_changes, ready_for_review, has_job,
  has_submission, is_failed,
}
use itp2_group6_the_pond.Reports.{
  Report, report_passed, content_changed, suggested_status, is_infrastructure,
}
use itp2_group6_the_pond.Worker.{
  Claim, Worker, Snapshot, snapshot, snapshot_eq, final_report, owns, settle, retries, result,
  finish,
}
use itp2_group6_the_pond.Jobs.Following.{find?-changed, find?-id}
use itp2_group6_the_pond.Jobs.Changing.{finish-result, owned-find?}

-- The decision on a submission and its job: whether the content is what was checked, whether a
-- check could not be made, whether attempts are left, and whether nothing was found.
unfoldable pub verdict : (same technical more clean : Bool) → SubmissionStatus × JobStatus
verdict false _ _ _ = (needs_changes, succeeded)
verdict true true true _ = (validating, retry_wait)
verdict true true false _ = (validation_failed, failed_job)
verdict true false _ true = (ready_for_review, succeeded)
verdict true false _ false = (needs_changes, succeeded)

-- The statuses that _result stores.
abbrev stored : Report → Bool → SubmissionStatus × JobStatus
stored report more =
    let technical = is_failed (suggested_status report) in
    let retry = technical && more in
    (
      if retry then validating else suggested_status report,
      if retry then retry_wait else if technical then failed_job else succeeded,
    )

stored-verdict :
    (report : Report) (more : Bool)
    → stored report more ≡ verdict true (any is_infrastructure report) more (report_passed report)
unfolding suggested_status verdict
stored-verdict report more = elim (Bool-cases (any is_infrastructure report)) [
  | inl e ↦ elim (Bool-cases more) [ inl m ↦ rw (e, m) refl | inr m ↦ rw (e, m) refl ]
  | inr e ↦ elim (Bool-cases (report_passed report)) [
    | inl m ↦ rw (e, m) refl
    | inr m ↦ rw (e, m) refl
  ]
]

changed-verdict :
    (technical more clean : Bool) → stored content_changed more ≡ verdict false technical more clean
unfolding suggested_status verdict any is_infrastructure report_passed
changed-verdict technical more clean = refl

final-verdict :
    (db : Ingestion) (s : ChallengeSubmission) (seen : Snapshot) (report : Report) (more : Bool)
    → stored (final_report db s seen report) more
      ≡ verdict
          (snapshot_eq (snapshot db s) seen)
          (any is_infrastructure report)
          more
          (report_passed report)
unfolding final_report
final-verdict db s seen report more = elim (Bool-cases (snapshot_eq (snapshot db s) seen)) [
  | inl same ↦ rw same (stored-verdict report more)
  | inr other ↦
      rw other (changed-verdict (any is_infrastructure report) more (report_passed report))
]

owns-submission :
    (c : Claim) (now : ℕ) (j : SubmissionJob)
    → owns c now j ≡ true
    → j.submission_id ≡ c.submission_id
unfolding owns
owns-submission c now j h = ground arith

-- The statuses after _result.
result-stored :
    (worker : Worker) (time : ℕ) (job : SubmissionJob) (s : ChallengeSubmission) (report : Report)
    (db : Ingestion)
    → find? (has_job job.job_id) db.jobs ≡ some job
    → find? (has_submission s.submission_id) db.submissions ≡ some s
    → (job' : SubmissionJob) × (s' : ChallengeSubmission) × (find?
          (has_job job.job_id)
          (result worker time job s report false db).jobs
        ≡ some job')
      × (find?
            (has_submission s.submission_id)
            (result worker time job s report false db).submissions
          ≡ some s')
      × ((s'.status, job'.status) ≡ stored report (ltb job.attempt_count job.max_attempts))
unfolding result settle retries
result-stored worker time job s report db e1 e2 = (
  settle worker time report false job,
  _,
  find?-changed db.jobs job (settle worker time report false) e1 (λ j. refl),
  find?-update_first (has_submission s.submission_id) _ db.submissions s e2 (ground arith),
  refl,
)

-- A finish() that returns is _result of the rows of its claim's keys.
finish-stores :
    (worker : Worker) (c : Claim) (report : Report) (seen : Snapshot) (clock : Clock)
    (db db' : Ingestion) (job : SubmissionJob) (s : ChallengeSubmission)
    → find? (has_job c.job_id) db.jobs ≡ some job
    → find? (has_submission c.submission_id) db.submissions ≡ some s
    → finish worker c report seen clock db ≡ some db'
    → result worker (clock 1) job s (final_report db s seen report) false db ≡ db'
finish-stores worker c report seen clock db db' job s e1 e2 e =
    let (j, t, own, there, here, stores) = finish-result worker c report seen clock db db' e in
    let (found, held, key) = owned-find? c (clock 0) db j own in
    let same_job : j ≡ job =
      some-injective (sym (subst (λ i. find? (has_job i) db.jobs ≡ some j) key found) ∙ e1) in
    let same : t ≡ s = some-injective (
      sym (
        subst (λ i. find? (has_submission i) db.submissions ≡ some t)
          (owns-submission c (clock 0) j held) there)
      ∙ e2) in
    subst (λ i. result worker (clock 1) i s (final_report db s seen report) false db ≡ db') same_job
      (subst (λ i. result worker (clock 1) j i (final_report db i seen report) false db ≡ db') same
        stores)

-- If finish() returns, the submission and the job of its claim are stored with the statuses of
-- the decision: needs_changes if the content is not what was checked; otherwise, if a check could
-- not be made, back to waiting while attempts are left and failed when they are not; otherwise
-- ready_for_review if nothing was found, and needs_changes if something was.
pub finish-verdict :
    (worker : Worker) (c : Claim) (report : Report) (seen : Snapshot) (clock : Clock)
    (db db' : Ingestion) (job : SubmissionJob) (s : ChallengeSubmission)
    → find? (has_job c.job_id) db.jobs ≡ some job
    → find? (has_submission c.submission_id) db.submissions ≡ some s
    → finish worker c report seen clock db ≡ some db'
    → (job' : SubmissionJob) × (s' : ChallengeSubmission) × (find? (has_job c.job_id) db'.jobs
        ≡ some job')
      × (find? (has_submission c.submission_id) db'.submissions ≡ some s')
      × ((s'.status, job'.status)
          ≡ verdict
              (snapshot_eq (snapshot db s) seen)
              (any is_infrastructure report)
              (ltb job.attempt_count job.max_attempts)
              (report_passed report))
finish-verdict worker c report seen clock db db' job s e1 e2 e =
    let key = find?-id c.job_id db.jobs job e1 in
    let key' : s.submission_id ≡ c.submission_id =
      ground (arith, find?-sound (has_submission c.submission_id) db.submissions s e2) in
    let (job', s', f1, f2, statuses) =
      result-stored worker (clock 1) job s (final_report db s seen report) db
        (subst (λ i. find? (has_job i) db.jobs ≡ some job) (sym key) e1)
        (subst (λ i. find? (has_submission i) db.submissions ≡ some s) (sym key') e2) in
    let stores = finish-stores worker c report seen clock db db' job s e1 e2 e in
    (
      job',
      s',
      subst (λ (x : ℕ × Ingestion). find? (has_job x.0) x.1.jobs ≡ some job')
          (ap₂ (λ i d. (i, d)) key stores) f1,
      subst (λ (x : ℕ × Ingestion). find? (has_submission x.0) x.1.submissions ≡ some s')
          (ap₂ (λ i d. (i, d)) key' stores) f2,
      statuses ∙ final-verdict db s seen report (ltb job.attempt_count job.max_attempts),
    )
