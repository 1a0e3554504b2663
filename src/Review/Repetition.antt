-- ===== src/Review/Repetition.antt =====
-- A review of challenge_ingestion/review.py that is sent again.
use itp2_group6_the_pond.Prelude.{
  ℕ, ◌≡◌, refl, sym, ap, ◌∙◌, inl, inr, true, some, String_eq, Text_eq, ℕ_eq, find?-update_first,
  find?-sound, Bool-cases,
}
use itp2_group6_the_pond.Accounts.{Users}
use itp2_group6_the_pond.Ingestion.{ChallengeSubmission, SubmissionJob, Ingestion, has_submission}
use itp2_group6_the_pond.Digest.{Json}
use itp2_group6_the_pond.Review.{
  ReviewForm, agrees, is_unchanged, current, status_eq, approves, reviewed, stored_review, repeated,
  decided, decide_review, final_status,
}
use itp2_group6_the_pond.Review.Approval.{IsCurrent, decide_review-decided}

final_status-same : (form : ReviewForm) → status_eq (final_status form) (final_status form) ≡ true
unfolding status_eq
final_status-same form = elim (Bool-cases (approves form)) [ inl e ↦ rw e refl | inr e ↦ rw e refl ]

-- The rows that a stored review leaves are still those that its form expects.
stored_review-current :
    (json : Json) (form : ReviewForm) (users : Users) (now : ℕ) (db : Ingestion)
    (s : ChallengeSubmission) (job : SubmissionJob)
    → IsCurrent json form users db s job
    → current json form users (stored_review form now s job db) ≡ some (reviewed form now s, job)
unfolding current stored_review agrees is_unchanged
stored_review-current json form users now db s job here =
    let found =
      find?-update_first (has_submission form.submission_id) (reviewed form now) db.submissions s
        here.found (find?-sound (has_submission form.submission_id) db.submissions s here.found) in
    let same = here.guards in rw (here.proper, here.reviewer, found, here.run, same) refl

-- The same form, sent again by the same reviewer after it was stored, changes nothing.
pub decide_review-decide_review :
    (json : Json) (form : ReviewForm) (users : Users) (now later : ℕ) (db db' : Ingestion)
    → decide_review json form users now db ≡ decided db'
    → decide_review json form users later db' ≡ repeated
unfolding decide_review
decide_review-decide_review json form users now later db db' e =
    let (s, job, here, ok, stores) = decide_review-decided json form users now db db' e in
    let again =
      ap (current json form users) (sym stores)
      ∙ stored_review-current json form users now db s job here in
    rw (decide_review, again, final_status-same form) refl
