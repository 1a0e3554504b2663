-- ===== src/Quarantine/Submitted.antt =====
-- A submit of intake.py that is repeated.
use mathlib.Core.Path.{subst}
use itp2_group6_the_pond.Prelude.{
  ℕ, ◌≡◌, refl, inl, inr, ap, ◌∙◌, Bool, true, none, some, List, [], ◌∷◌, ◌++◌, Text, ◌==◌, ℕ_eq,
  filter, find?, find?-sound, find?-update_first, Bool-cases, Option-cases, arith, some-injective,
  update_first,
}
use itp2_group6_the_pond.Accounts.{User, Users}
use itp2_group6_the_pond.Ingestion.{ChallengeSubmission, has_submission}
use itp2_group6_the_pond.Digest.{Json, content_digest}
use itp2_group6_the_pond.Intake.{
  Desk, is_draft, freeze, actor, owned_submission, may_own, submit, submit_draft, new_job,
  is_file_of,
}

abbrev is_initial : ℕ → ℕ × ℕ → Bool
is_initial submission_id j = j.0 == submission_id

-- What owned_submission finds.
owned_submission-may_own :
    (users : Users) (user_id submission_id : ℕ) (desk : Desk) (row : ChallengeSubmission)
    → owned_submission users user_id submission_id desk ≡ some row
    → (u : User) × (actor users user_id ≡ some u)
      × (find? (has_submission submission_id) desk.submissions ≡ some row)
      × (may_own u row ≡ true)
unfolding owned_submission
owned_submission-may_own users user_id submission_id desk row h =
    elim (Option-cases (actor users user_id)) [
      | inl refused ↦ let bad = rw (owned_submission, refused) at h in cc
      | inr (u, passed) ↦
          elim (Option-cases (find? (has_submission submission_id) desk.submissions)) [
            | inl absent ↦ let bad = rw (owned_submission, passed, absent) at h in cc
            | inr (found_row, found) ↦ elim (Bool-cases (may_own u found_row)) [
              | inr foreign ↦ let bad = rw (owned_submission, passed, found, foreign) at h in cc
              | inl own ↦
                  let same : found_row ≡ row =
                    some-injective (rw (owned_submission, passed, found, own) at h) in
                  (u, passed, found ∙ ap some same, subst (λ r. may_own u r ≡ true) same own)
            ]
          ]
    ]

-- After its submission is frozen, the actor still owns it.
owned_submission-freeze :
    (users : Users) (user_id submission_id now : ℕ) (digest : Text) (desk after : Desk)
    (row : ChallengeSubmission)
    → owned_submission users user_id submission_id desk ≡ some row
    → after.submissions
      ≡ update_first (has_submission submission_id) (freeze digest now) desk.submissions
    → owned_submission users user_id submission_id after ≡ some (freeze digest now row)
unfolding owned_submission
owned_submission-freeze users user_id submission_id now digest desk after row h changed =
    let (u, passed, found, own) = owned_submission-may_own users user_id submission_id desk row h in
    let key = find?-sound (has_submission submission_id) desk.submissions row found in
    let there : find? (has_submission submission_id) after.submissions
        ≡ some (freeze digest now row) =
      ap (find? (has_submission submission_id)) changed
      ∙ find?-update_first (has_submission submission_id) (freeze digest now) desk.submissions row
          found key in
    let still : may_own u (freeze digest now row) ≡ true = own in
    rw (owned_submission, passed, there, still) refl

find?-last :
    (submission_id id : ℕ) (jobs : List (ℕ × ℕ))
    → find? (is_initial submission_id) jobs ≡ none
    → find? (is_initial submission_id) (jobs ++ ((submission_id, id) ∷ []))
      ≡ some (submission_id, id)
unfolding find?
find?-last submission_id id [] h = ground arith
find?-last submission_id id (j ∷ jobs) h = ground (arith, find?-last submission_id id jobs)

-- A submit that returned can be repeated at any time by the same account, whatever key would be
-- given to a new job: it answers the same job and changes nothing more.
pub submit-submit :
    (json : Json) (users : Users) (id again user_id submission_id now later job_id : ℕ)
    (desk after : Desk)
    → submit json users id user_id submission_id now desk ≡ some (job_id, after)
    → submit json users again user_id submission_id later after ≡ some (job_id, after)
unfolding submit submit_draft
submit-submit json users id again user_id submission_id now later job_id desk after h =
    elim (Option-cases (owned_submission users user_id submission_id desk)) [
      | inl refused ↦ let bad = rw (submit, refused) at h in cc
      | inr (row, found) ↦ elim (Option-cases (find? (is_initial submission_id) desk.initial)) [
        | inr ((key, known), queued_before) ↦
            let same : (known, desk) ≡ (job_id, after) =
              some-injective (rw (submit, found, queued_before) at h) in
            subst
              (λ (x : ℕ × Desk). submit json users again user_id submission_id later x.1 ≡ some x)
              same (rw (submit, found, queued_before) refl)
        | inl new_one ↦ elim (Bool-cases (is_draft row.status)) [
          | inr frozen ↦ let bad = rw (submit, found, new_one, frozen) at h in cc
          | inl editable ↦
              elim (Option-cases
                (content_digest json row.manifest (filter (is_file_of submission_id) desk.files))) [
                  | inl unsealed ↦
                      let bad =
                        rw (submit, submit_draft, found, new_one, editable, unsealed) at h in
                      cc
                  | inr (digest, sealed) ↦
                      let frozen_desk = record desk {
                        submissions =
                            update_first (has_submission submission_id) (freeze digest now)
                              desk.submissions;
                        jobs = desk.jobs ++ (new_job id submission_id now ∷ []);
                        initial = desk.initial ++ ((submission_id, id) ∷ []);
                      } in
                      let same : (id, frozen_desk) ≡ (job_id, after) =
                        some-injective
                          (rw (submit, submit_draft, found, new_one, editable, sealed) at h) in
                      let own =
                        owned_submission-freeze users user_id submission_id now digest desk
                          frozen_desk row found refl in
                      let known = find?-last submission_id id desk.initial new_one in
                      subst
                        (λ (x : ℕ × Desk).
                          submit json users again user_id submission_id later x.1 ≡ some x)
                        same (rw (submit, own, known) refl)
                ]
        ]
      ]
    ]
