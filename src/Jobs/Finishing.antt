-- ===== src/Jobs/Finishing.antt =====
-- finish() of challenge_ingestion/worker.py ends a claim.
use mathlib.Core.Path.{subst}
use itp2_group6_the_pond.Prelude.{
  ℕ, Bool, true, false, not, none, some, List, [], ◌∷◌, ◌≡◌, refl, Text, ◌==◌, ℕ_eq, Text_eq, Clock,
  find?, update_first, All, arith,
}
use itp2_group6_the_pond.Ingestion.{Ingestion, SubmissionJob, has_job, text_is}
use itp2_group6_the_pond.Reports.{Report}
use itp2_group6_the_pond.Worker.{
  Claim, Worker, Snapshot, owns, owned, settle, result, final_report, renew, finish,
}
use itp2_group6_the_pond.Jobs.Keys.{IsKeyed}
use itp2_group6_the_pond.Jobs.Operations.{
  Op, claims, run, leased, dropped, exhausted, renewed, finished,
}
use itp2_group6_the_pond.Jobs.Following.{Goes, run-follows, Changes-IsKeyed, find?-changed}
use itp2_group6_the_pond.Jobs.Changing.{owned-find?, finish-result, finish-Changes}

-- A call that does not draw the token again.
unfoldable pub is_fresh : Text → Op → Bool
is_fresh token (claims worker fresh now later) = not (fresh == token)
is_fresh token _ = true

-- A row without the token stays so.
Without : Text → SubmissionJob → SubmissionJob → Type 0
Without token j k = text_is token j.lease_token ≡ false → text_is token k.lease_token ≡ false

fresh-Goes : (token : Text) (op : Op) → is_fresh token op ≡ true → Goes (Without token) op
unfolding Without is_fresh settle
fresh-Goes token _ h _ _ (leased due under) old = ground arith
fresh-Goes token _ h _ _ (dropped due) old = refl
fresh-Goes token _ h _ _ (exhausted time due) old = refl
fresh-Goes token _ h _ _ (renewed held key) old = old
fresh-Goes token _ h _ _ (finished stored held key) old = refl

All-fresh :
    (token : Text) (ops : List Op)
    → All (λ op. is_fresh token op ≡ true) ops
    → All (Goes (Without token)) ops
All-fresh token [] h = tt
All-fresh token (op ∷ ops) h = (fresh-Goes token op h.0, All-fresh token ops h.1)

-- No call of a claim gets past _owned where the row does not hold its token.
owned-without :
    (c : Claim) (now : ℕ) (db : Ingestion) (job : SubmissionJob)
    → find? (has_job c.job_id) db.jobs ≡ some job
    → text_is c.token job.lease_token ≡ false
    → owned c now db ≡ none
unfolding owned owns
owned-without c now db job e h = rw (owned, e) (ground arith)

-- The row of a finished job holds no token.
finish-released :
    (worker : Worker) (c : Claim) (report : Report) (seen : Snapshot) (clock : Clock)
    (db db' : Ingestion)
    → finish worker c report seen clock db ≡ some db'
    → (job : SubmissionJob) × (find? (has_job c.job_id) db'.jobs ≡ some job)
      × (job.lease_token ≡ none)
unfolding result settle
finish-released worker c report seen clock db db' e =
    let (job, s, own, there, here, stores) = finish-result worker c report seen clock db db' e in
    let (found, held, key) = owned-find? c (clock 0) db job own in
    let f = settle worker (clock 1) (final_report db s seen report) false in
    (
      f job,
      subst (λ (d : Ingestion). find? (has_job c.job_id) d.jobs ≡ some (f job)) stores
          (subst
            (λ id. find? (has_job id) (update_first (has_job job.job_id) f db.jobs) ≡ some (f job))
            key (find?-changed db.jobs job f found (λ j. refl))),
      refl,
    )

-- If no two jobs have the same id, then after a finish() that returned, and any calls whose
-- claims draw other tokens, both finish() and renew() with the same claim raise, whoever calls
-- them.
pub finish-finish :
    (worker : Worker) (c : Claim) (report : Report) (seen : Snapshot) (clock : Clock)
    (db db' : Ingestion)
    → IsKeyed db.jobs
    → finish worker c report seen clock db ≡ some db'
    → (ops : List Op) → All (λ op. is_fresh c.token op ≡ true) ops
    → (other : Worker) (again : Report) (at_that : Snapshot) (later : Clock)
    → (finish other c again at_that later (run ops db') ≡ none)
      × (renew other c later (run ops db') ≡ none)
unfolding Without finish renew
finish-finish worker c report seen clock db db' keyed e ops fresh other again at_that later =
    let (job, found, released) = finish-released worker c report seen clock db db' e in
    let keyed' =
      Changes-IsKeyed db.jobs db'.jobs (finish-Changes worker c report seen clock db db' e) keyed in
    let (k, k_found, without) =
      run-follows (Without c.token) (λ j h. h) (λ j k l f g h. g (f h)) ops
        (All-fresh c.token ops fresh) db' keyed' c.job_id job found in
    let lost = owned-without c (later 0) (run ops db') k k_found (without (rw released refl)) in
    (rw (finish, lost) refl, rw (renew, lost) refl)
