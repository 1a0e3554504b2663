-- ===== src/Jobs/Diagram.antt =====
-- What the model of the jobs promises: the statuses that a job may pass through, and that the jobs
-- of db/submission_job_models.py keep to it under challenge_ingestion/worker.py.
use itp2_group6_the_pond.Prelude.{
  any, ℕ, ◌+◌, [], ◌∷◌, Text, Clock, true, false, ◌||◌, some, List, ◌≡◌, refl, inl, inr, ℕ_eq,
  find?, Bool-cases, arith,
}
use itp2_group6_the_pond.Ingestion.{
  Ingestion, SubmissionJob, JobStatus, queued, running, retry_wait, succeeded, failed_job,
  cancelled, has_job, is_failed,
}
use itp2_group6_the_pond.Reports.{Report, suggested_status, is_infrastructure}
use itp2_group6_the_pond.Worker.{
  Claim, Worker, Snapshot, eligible, owns, is_waiting, is_running, settle, retries,
}
use itp2_group6_the_pond.Jobs.Keys.{IsKeyed}
use itp2_group6_the_pond.Jobs.Operations.{
  Op, claims, renews, finishes, apply, run, Move, leased, dropped, exhausted, renewed, finished,
}
use itp2_group6_the_pond.Jobs.Changing.{apply-Changes}
use itp2_group6_the_pond.Jobs.Following.{Changes-IsKeyed, Changes-follows}

-- A job that some worker may still take up or hold.
pub data IsOpen : JobStatus → Type 0 where
  queued_open : IsOpen queued
  waiting_open : IsOpen retry_wait
  running_open : IsOpen running

-- The status of a job, and how often it was taken up.
abbrev pub Stage : Type 0
Stage = JobStatus × ℕ

abbrev pub stage : SubmissionJob → Stage
stage j = (j.status, j.attempt_count)

-- The edges of the diagram, by the call that goes along them: claim() takes up, gives up or calls off
-- an open job, renew() leaves a running one as it is, and finish() settles a running one.
pub data Edge : Op → Stage → Stage → Type 0 where
  take_up :
      {worker : Worker} {token : Text} {now : ℕ} {later : Clock} {s : JobStatus} {n : ℕ}
      → IsOpen s
      → Edge (claims worker token now later) (s, n) (running, n + 1)
  give_up :
      {worker : Worker} {token : Text} {now : ℕ} {later : Clock} {s : JobStatus} {n : ℕ}
      → IsOpen s
      → Edge (claims worker token now later) (s, n) (failed_job, n)
  call_off :
      {worker : Worker} {token : Text} {now : ℕ} {later : Clock} {s : JobStatus} {n : ℕ}
      → IsOpen s
      → Edge (claims worker token now later) (s, n) (cancelled, n)
  beat :
      {worker : Worker} {claim : Claim} {clock : Clock} {n : ℕ}
      → Edge (renews worker claim clock) (running, n) (running, n)
  succeed :
      {worker : Worker} {claim : Claim} {report : Report} {seen : Snapshot} {clock : Clock} {n : ℕ}
      → Edge (finishes worker claim report seen clock) (running, n) (succeeded, n)
  fail :
      {worker : Worker} {claim : Claim} {report : Report} {seen : Snapshot} {clock : Clock} {n : ℕ}
      → Edge (finishes worker claim report seen clock) (running, n) (failed_job, n)
  put_back :
      {worker : Worker} {claim : Claim} {report : Report} {seen : Snapshot} {clock : Clock} {n : ℕ}
      → Edge (finishes worker claim report seen clock) (running, n) (retry_wait, n)

pub data Edges (op : Op) : Stage → Stage → Type 0 where
  here : {s : Stage} → Edges op s s
  onward : {s t u : Stage} → Edge op s t → Edges op t u → Edges op s u

-- A way through the diagram, with the edges that each call goes along.
pub data Trace : List Op → Stage → Stage → Type 0 where
  ended : {s : Stage} → Trace [] s s
  during :
      {op : Op} {ops : List Op} {s t u : Stage}
      → Edges op s t
      → Trace ops t u
      → Trace (op ∷ ops) s u

Edges-trans : (op : Op) (s t u : Stage) → Edges op s t → Edges op t u → Edges op s u
Edges-trans op s _ u here r = r
Edges-trans op s t u (onward {t = m} e q) r = onward e (Edges-trans op m t u q r)

waiting-IsOpen : (s : JobStatus) → (is_waiting s || is_running s) ≡ true → IsOpen s
waiting-IsOpen queued h = queued_open
waiting-IsOpen retry_wait h = waiting_open
waiting-IsOpen running h = running_open
waiting-IsOpen succeeded h = cc
waiting-IsOpen failed_job h = cc
waiting-IsOpen cancelled h = cc

is_running-running : (s : JobStatus) → is_running s ≡ true → s ≡ running
is_running-running queued h = cc
is_running-running retry_wait h = cc
is_running-running running h = refl
is_running-running succeeded h = cc
is_running-running failed_job h = cc
is_running-running cancelled h = cc

eligible-IsOpen : (now : ℕ) (j : SubmissionJob) → eligible now j ≡ true → IsOpen j.status
unfolding eligible
eligible-IsOpen now j h = waiting-IsOpen j.status (ground arith)

pub owns-running :
    (c : Claim) (now : ℕ) (j : SubmissionJob) → owns c now j ≡ true → j.status ≡ running
unfolding owns
owns-running c now j h = is_running-running j.status (ground arith)

settle-Edge :
    (worker : Worker) (claim : Claim) (report : Report) (seen : Snapshot) (clock : Clock) (time : ℕ)
    (stored : Report) (j : SubmissionJob)
    → Edge
        (finishes worker claim report seen clock)
        (running, j.attempt_count)
        (stage (settle worker time stored false j))
unfolding settle
settle-Edge worker claim report seen clock time stored j =
    elim (Bool-cases (retries j stored false)) [
      | inl again ↦ rw again put_back
      | inr no_more ↦ elim (Bool-cases (is_failed (suggested_status stored))) [
        | inl technical ↦ rw (no_more, technical) fail
        | inr decided ↦ rw (no_more, decided) succeed
      ]
    ]

-- What a call makes of a job is an edge of that call.
Move-Edge : (op : Op) (j k : SubmissionJob) → Move op j k → Edge op (stage j) (stage k)
unfolding settle retries suggested_status is_infrastructure any
Move-Edge _ _ _ (leased due under) = take_up (eligible-IsOpen _ _ due)
Move-Edge _ _ _ (dropped due) = call_off (eligible-IsOpen _ _ due)
Move-Edge _ _ _ (exhausted time due) = give_up (eligible-IsOpen _ _ due)
Move-Edge _ j _ (renewed held key) = rw (owns-running _ _ j held) beat
Move-Edge _ j _ (finished {worker} {claim} {report} {seen} {clock} stored held key) =
    rw (owns-running _ _ j held) (settle-Edge worker claim report seen clock (clock 1) stored j)

-- If no two jobs have the same id, then after any run of claim(), renew() and finish() by any
-- workers a job's row is still there, and each call has taken it only along its own edges of the
-- diagram: claim() makes an open job running, with one more attempt, or gives it up or calls it off,
-- renew() keeps it running, and finish() makes a running one succeed, fail or wait for a retry.
pub run-Trace :
    (ops : List Op) (db : Ingestion) (id : ℕ) (j : SubmissionJob)
    → IsKeyed db.jobs
    → find? (has_job id) db.jobs ≡ some j
    → (k : SubmissionJob) × (find? (has_job id) (run ops db).jobs ≡ some k)
      × Trace ops (stage j) (stage k)
unfolding run
run-Trace [] db id j keyed e = (j, e, ended)
run-Trace (op ∷ ops) db id j keyed e =
    let changes = apply-Changes op db keyed in
    let next = apply op db in
    let (k, k_found, edges) =
      Changes-follows (λ x y. Edges op (stage x) (stage y)) (λ x. here)
        (λ x y z. Edges-trans op (stage x) (stage y) (stage z))
        (λ x y move. onward (Move-Edge op x y move) here) db.jobs next.jobs changes id j e in
    let (l, l_found, later) =
      run-Trace ops next id k (Changes-IsKeyed db.jobs next.jobs changes keyed) k_found in
    (l, l_found, during edges later)
