-- ===== src/Jobs/Leases.antt =====
-- What the leases of challenge_ingestion/worker.py protect.
use itp2_group6_the_pond.Prelude.{
  ℕ, Bool, true, false, not, Option, some, List, [], ◌∷◌, ◌≡◌, Text, ◌==◌, ℕ_eq, Text_eq, find?,
  ltb, All, arith,
}
use itp2_group6_the_pond.Ingestion.{Ingestion, SubmissionJob, running, has_job, text_is}
use itp2_group6_the_pond.Worker.{eligible, owns}
use itp2_group6_the_pond.Jobs.Keys.{IsKeyed}
use itp2_group6_the_pond.Jobs.Operations.{Op, claims, renews, finishes, run, touches}
use itp2_group6_the_pond.Jobs.Settled.{run-untouched}

-- A call that leaves a lease alone: a claim made before it ends, or a call with another token.
unfoldable pub is_foreign : Text → ℕ → Op → Bool
is_foreign token until (claims worker fresh now later) = ltb now until
is_foreign token until (renews worker c clock) = not (token == c.token)
is_foreign token until (finishes worker c report seen clock) = not (token == c.token)

token_test :
    (token other : Text) (o : Option Text)
    → o ≡ some token
    → (token == other) ≡ false
    → text_is other o ≡ false
token_test token other o e h = rw e h

foreign-untouched :
    (job : SubmissionJob) (token : Text) (until : ℕ)
    → job.status ≡ running
    → job.lease_token ≡ some token
    → job.lease_expires_at ≡ some until
    → (op : Op) → is_foreign token until op ≡ true
    → touches op job ≡ false
unfolding touches eligible owns is_foreign
foreign-untouched job token until r t u (claims worker fresh now later) h = rw (r, u) (ground arith)
foreign-untouched job token until r t u (renews worker c clock) h =
    let other = token_test token c.token job.lease_token t (ground arith) in ground arith
foreign-untouched job token until r t u (finishes worker c report seen clock) h =
    let other = token_test token c.token job.lease_token t (ground arith) in ground arith

All-foreign :
    (job : SubmissionJob) (token : Text) (until : ℕ)
    → job.status ≡ running
    → job.lease_token ≡ some token
    → job.lease_expires_at ≡ some until
    → (ops : List Op) → All (λ op. is_foreign token until op ≡ true) ops
    → All (λ op. touches op job ≡ false) ops
All-foreign job token until r t u [] h = tt
All-foreign job token until r t u (op ∷ ops) h =
    (foreign-untouched job token until r t u op h.0, All-foreign job token until r t u ops h.1)

-- If no two jobs have the same id, a running job whose lease has a token and an end keeps its
-- whole row through any run of calls, if the claims among them read the clock before that end and
-- the other calls carry other tokens.
pub run-leased :
    (ops : List Op) (db : Ingestion) (id : ℕ) (job : SubmissionJob) (token : Text) (until : ℕ)
    → IsKeyed db.jobs
    → find? (has_job id) db.jobs ≡ some job
    → job.status ≡ running
    → job.lease_token ≡ some token
    → job.lease_expires_at ≡ some until
    → All (λ op. is_foreign token until op ≡ true) ops
    → find? (has_job id) (run ops db).jobs ≡ some job
run-leased ops db id job token until keyed e r t u foreign =
    run-untouched job ops (All-foreign job token until r t u ops foreign) db keyed id e
