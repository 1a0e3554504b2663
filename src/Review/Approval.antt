-- ===== src/Review/Approval.antt =====
-- What an approval by challenge_ingestion/review.py rests on.
use mathlib.Core.Path.{subst}
use itp2_group6_the_pond.Prelude.{
  ℕ, ◌≡◌, refl, sym, ap, inl, inr, Bool, true, false, ◌&&◌, ◌||◌, not, Option, none, some, List, [],
  ◌∷◌, String_eq, Text, Text_eq, text_eq_iff, ◌==◌, ℕ_eq, any, all, All, find?, Bool-cases,
  Option-cases, some-injective, arith,
}
use itp2_group6_the_pond.Accounts.{Users}
use itp2_group6_the_pond.Ingestion.{
  ChallengeSubmission, SubmissionFile, SubmissionJob, SubmissionStatus, draft, validating,
  validation_failed, needs_changes, ready_for_review, approved, importing, import_failed, published,
  rejected, Ingestion, has_submission, text_is, key_eq,
}
use itp2_group6_the_pond.Digest.{Json, content_digest}
use itp2_group6_the_pond.Review.{
  ReviewForm, well_formed, may_review, latest_validation, files_of, is_unchanged, current,
  status_eq, is_reviewable, has_succeeded, is_over, is_set, has_passed, last_attestation,
  is_evidence, approvable, approves, stored_review, decided, decide_review, decision_key,
  final_status, agrees,
}

-- The state that a form's transaction finds: its reviewer, its submission, and the last run.
pub record IsCurrent (json : Json) (form : ReviewForm) (users : Users) (db : Ingestion)
    (s : ChallengeSubmission) (job : SubmissionJob) : Type 0 where
  pub proper : well_formed form ≡ true
  pub reviewer : may_review form.actor_user_id users ≡ true
  pub found : find? (has_submission form.submission_id) db.submissions ≡ some s
  pub run : latest_validation form.submission_id db.jobs ≡ some job
  pub guards : agrees json form s job db ≡ true

pub current-IsCurrent :
    (json : Json) (form : ReviewForm) (users : Users) (db : Ingestion) (s : ChallengeSubmission)
    (job : SubmissionJob)
    → current json form users db ≡ some (s, job)
    → IsCurrent json form users db s job
unfolding current
current-IsCurrent json form users db s job e =
    elim (Bool-cases (not (well_formed form && may_review form.actor_user_id users))) [
      | inl bad ↦ let no_row = rw (current, bad) at e in cc
      | inr good ↦ elim (Option-cases (find? (has_submission form.submission_id) db.submissions)) [
        | inl missing ↦ let no_row = rw (current, good, missing) at e in cc
        | inr (t, there) ↦ elim (Option-cases (latest_validation form.submission_id db.jobs)) [
          | inl missing ↦ let no_row = rw (current, good, there, missing) at e in cc
          | inr (j, last) ↦ elim (Bool-cases (agrees json form t j db)) [
            | inr other ↦ let no_row = rw (current, good, there, last, other) at e in cc
            | inl same ↦
                let is_proper : well_formed form ≡ true = ground arith in
                let allowed : may_review form.actor_user_id users ≡ true = ground arith in
                let pair : (t, j) ≡ (s, job) =
                  some-injective (rw (current, good, there, last, same) at e) in
                subst
                  (λ (x : ChallengeSubmission × SubmissionJob).
                    IsCurrent json form users db x.0 x.1)
                  pair
                  (record {
                    proper = is_proper;
                    reviewer = allowed;
                    found = there;
                    run = last;
                    guards = same;
                  })
          ]
        ]
      ]
    ]

decided-injective : {a b : Ingestion} → decided a ≡ decided b → a ≡ b
decided-injective e = cc

-- The guards of a decision that is stored.
pub decide_review-decided :
    (json : Json) (form : ReviewForm) (users : Users) (now : ℕ) (db db' : Ingestion)
    → decide_review json form users now db ≡ decided db'
    → (s : ChallengeSubmission) × (job : SubmissionJob) × IsCurrent json form users db s job
      × ((not (approves form) || approvable form s job db) ≡ true)
      × (stored_review form now s job db ≡ db')
unfolding decide_review
decide_review-decided json form users now db db' e =
    elim (Option-cases (current json form users db)) [
      | inl bad ↦ let wrong = rw (decide_review, bad) at e in cc
      | inr ((s, job), there) ↦ elim (Bool-cases (status_eq s.status (final_status form))) [
        | inl again ↦ let wrong = rw (decide_review, there, again) at e in cc
        | inr fresh ↦
            elim (Bool-cases (
              is_reviewable s.status
              && ((is_over job.status && is_set job.completed_at)
                  && (not (approves form) || approvable form s job db)))) [
                    | inr bad ↦ let wrong = rw (decide_review, there, fresh, bad) at e in cc
                    | inl good ↦
                        elim (Bool-cases
                          (any (λ m. key_eq m.deduplication_key (decision_key form)) db.outbox)) [
                            | inl doubled ↦
                                let wrong = rw (decide_review, there, fresh, good, doubled) at e in
                                cc
                            | inr single ↦ (
                              s,
                              job,
                              current-IsCurrent json form users db s job there,
                              ground arith,
                              decided-injective
                                  (rw (decide_review, there, fresh, good, single) at e),
                            )
                          ]
                  ]
      ]
    ]

text_is-some : (t : Text) (o : Option Text) → text_is t o ≡ true → o ≡ some t
text_is-some t none h = cc
text_is-some t (some u) h = ap some ((text_eq_iff u t).0 h)

all-All :
    (p : SubmissionFile → Bool) (xs : List SubmissionFile)
    → all p xs ≡ true
    → All (λ x. p x ≡ true) xs
unfolding all
all-All p [] h = tt
all-All p (x ∷ xs) h = (ground arith, all-All p xs (ground arith))

status_eq-ready :
    (s : SubmissionStatus) → status_eq s ready_for_review ≡ true → s ≡ ready_for_review
unfolding status_eq
status_eq-ready ready_for_review h = refl
status_eq-ready draft h = cc
status_eq-ready validating h = cc
status_eq-ready validation_failed h = cc
status_eq-ready needs_changes h = cc
status_eq-ready approved h = cc
status_eq-ready importing h = cc
status_eq-ready import_failed h = cc
status_eq-ready published h = cc
status_eq-ready rejected h = cc

-- What an approval rests on: a reviewer with the right, a submission that awaits it, whose stored
-- manifest and files still have the digest that the reviewer saw, whose last validation succeeded
-- without findings and left a log entry for that digest, and whose files all passed.
pub record IsBacked (json : Json) (form : ReviewForm) (users : Users) (db : Ingestion)
    : Type 0 where
  pub reviewer : may_review form.actor_user_id users ≡ true
  pub submission : ChallengeSubmission
  pub found : find? (has_submission form.submission_id) db.submissions ≡ some submission
  pub ready : submission.status ≡ ready_for_review
  pub sealed :
      content_digest json submission.manifest (files_of form.submission_id db)
      ≡ some form.expected_digest
  pub job : SubmissionJob
  pub run : latest_validation form.submission_id db.jobs ≡ some job
  pub succeeded_run : has_succeeded job.status ≡ true
  pub findings : any (λ i. i.job_id == job.job_id) db.issues ≡ false
  pub files :
      All
        (λ (f : SubmissionFile). has_passed f.validation_status && is_set f.validated_at ≡ true)
        (files_of form.submission_id db)
  pub attested : is_evidence form job.job_id (last_attestation form.submission_id db.log) ≡ true

IsCurrent-IsBacked :
    (json : Json) (form : ReviewForm) (users : Users) (db : Ingestion) (s : ChallengeSubmission)
    (job : SubmissionJob)
    → IsCurrent json form users db s job
    → approvable form s job db ≡ true
    → IsBacked json form users db
unfolding approvable agrees is_unchanged
IsCurrent-IsBacked json form users db s job here ok =
    let same = here.guards in
    record {
      reviewer = here.reviewer;
      submission = s;
      found = here.found;
      ready = status_eq-ready s.status (ground arith);
      sealed = text_is-some form.expected_digest _ (ground arith);
      job = job;
      run = here.run;
      succeeded_run = ground arith;
      findings = ground arith;
      files =
          all-All (λ (f : SubmissionFile). has_passed f.validation_status && is_set f.validated_at)
            (files_of form.submission_id db) (ground arith);
      attested = ground arith;
    }

-- If an approval is stored, the state that it found had an active system administrator as its
-- reviewer, a submission that was ready for review and whose manifest and files have the digest
-- that the form expects, a last validation that succeeded without findings and left a log entry
-- for that digest, and only files that passed; and the approval changes no job, file or finding.
pub decide_review-IsBacked :
    (json : Json) (form : ReviewForm) (users : Users) (now : ℕ) (db db' : Ingestion)
    → approves form ≡ true
    → decide_review json form users now db ≡ decided db'
    → IsBacked json form users db
      × (db'.jobs ≡ db.jobs)
      × (db'.files ≡ db.files)
      × (db'.issues ≡ db.issues)
unfolding stored_review
decide_review-IsBacked json form users now db db' approving e =
    let (s, job, here, ok, stores) = decide_review-decided json form users now db db' e in
    (
      IsCurrent-IsBacked json form users db s job here (ground arith),
      sym (ap (λ (d : Ingestion). d.jobs) stores),
      sym (ap (λ (d : Ingestion). d.files) stores),
      sym (ap (λ (d : Ingestion). d.issues) stores),
    )
