-- ===== src/Quarantine/Calls.antt =====
-- What each call of intake.py does to the rows of submissions: the cases of create, update_manifest,
-- submit and revise.
use itp2_group6_the_pond.Prelude.{
  ℕ, ◌≡◌, inl, inr, true, List, [], ◌∷◌, ◌++◌, Text, ◌==◌, ℕ_eq, filter, find?, Bool-cases,
  Option-cases, update_first,
}
use itp2_group6_the_pond.Accounts.{Users}
use itp2_group6_the_pond.Ingestion.{ChallengeSubmission, has_submission}
use itp2_group6_the_pond.Digest.{Json, content_digest}
use itp2_group6_the_pond.Intake.{
  Desk, Policy, is_draft, has_capacity, rewrite, new_submission, actor, owned_submission, create,
  update_manifest, submit, submit_draft, or_before, desk_after, IntakeRequest, creates, rewrites,
  uploads, removes, submits, revises, taken, taken_all, Manifest, is_file_of,
}
use itp2_group6_the_pond.Quarantine.Stored.{
  IsStored, upload-IsStored, remove_file-IsStored, revise-IsStored,
}

-- A predicate of the tables that the calls keep which store nothing.
module _ (P : Desk → Type 0)
    (adds : (users : Users) (id user_id now : ℕ) (text : Text) (manifest : Manifest) (desk : Desk)
      → has_capacity user_id desk ≡ true
      → P desk
      → P (record desk {
        submissions = desk.submissions ++ (new_submission id user_id text manifest now ∷ []);
      }))
    (changes : (id now : ℕ) (text : Text) (manifest : Manifest) (desk : Desk)
      → P desk
      → P (record desk {
        submissions = update_first (has_submission id) (rewrite text manifest now) desk.submissions;
      }))
    (freezes : (json : Json) (id submission_id now : ℕ) (row : ChallengeSubmission) (desk : Desk)
      → P desk
      → P (desk_after desk (submit_draft json id submission_id now row desk))) where
  pub create_kept :
      (policy : Policy) (users : Users) (id user_id now : ℕ) (text : Text) (desk : Desk)
      → P desk
      → P (or_before desk (create policy users id user_id now text desk))
  unfolding create
  create_kept policy users id user_id now text desk h = elim (Option-cases (policy.read text)) [
    | inl unreadable ↦ rw (create, unreadable) h
    | inr (manifest, parsed) ↦ elim (Option-cases (actor users user_id)) [
      | inl refused ↦ rw (create, parsed, refused) h
      | inr (u, passed) ↦ elim (Bool-cases (has_capacity user_id desk)) [
        | inr full ↦ rw (create, parsed, passed, full) h
        | inl room ↦
            rw (create, parsed, passed, room) (adds users id user_id now text manifest desk room h)
      ]
    ]
  ]

  pub update_manifest_kept :
      (policy : Policy) (users : Users) (user_id submission_id now : ℕ) (text : Text) (desk : Desk)
      → P desk
      → P (or_before desk (update_manifest policy users user_id submission_id now text desk))
  unfolding update_manifest
  update_manifest_kept policy users user_id submission_id now text desk h =
      elim (Option-cases (policy.read text)) [
        | inl unreadable ↦ rw (update_manifest, unreadable) h
        | inr (manifest, parsed) ↦
            elim (Option-cases (owned_submission users user_id submission_id desk)) [
              | inl refused ↦ rw (update_manifest, parsed, refused) h
              | inr (row, found) ↦ elim (Bool-cases (is_draft row.status)) [
                | inr frozen ↦ rw (update_manifest, parsed, found, frozen) h
                | inl editable ↦
                    rw (update_manifest, parsed, found, editable)
                      (changes submission_id now text manifest desk h)
              ]
            ]
      ]

  pub submit_kept :
      (json : Json) (users : Users) (id user_id submission_id now : ℕ) (desk : Desk)
      → P desk
      → P (desk_after desk (submit json users id user_id submission_id now desk))
  unfolding submit
  submit_kept json users id user_id submission_id now desk h =
      elim (Option-cases (owned_submission users user_id submission_id desk)) [
        | inl refused ↦ rw (submit, refused) h
        | inr (row, found) ↦
            elim (Option-cases (find? (λ (j : ℕ × ℕ). j.0 == submission_id) desk.initial)) [
              | inr ((key, job_id), queued_before) ↦ rw (submit, found, queued_before) h
              | inl new_one ↦ elim (Bool-cases (is_draft row.status)) [
                | inr frozen ↦ rw (submit, found, new_one, frozen) h
                | inl editable ↦
                    rw (submit, found, new_one, editable)
                      (freezes json id submission_id now row desk h)
              ]
            ]
      ]

submit_draft-IsStored :
    (json : Json) (id submission_id now : ℕ) (row : ChallengeSubmission) (desk : Desk)
    → IsStored desk
    → IsStored (desk_after desk (submit_draft json id submission_id now row desk))
unfolding submit_draft IsStored
submit_draft-IsStored json id submission_id now row desk h =
    elim (Option-cases
      (content_digest json row.manifest (filter (is_file_of submission_id) desk.files))) [
        | inl unsealed ↦ rw (submit_draft, unsealed) h
        | inr (digest, sealed) ↦ rw (submit_draft, sealed) h
      ]

taken-IsStored :
    (policy : Policy) (json : Json) (request : IntakeRequest) (desk : Desk)
    → IsStored desk
    → IsStored (taken policy json request desk)
unfolding taken IsStored
taken-IsStored policy json (creates users id user_id now text) desk h =
    create_kept IsStored (λ us i u n t m d room k. k) (λ i n t m d k. k) submit_draft-IsStored
      policy users id user_id now text desk h
taken-IsStored policy json (rewrites users user_id submission_id now text) desk h =
    update_manifest_kept IsStored (λ us i u n t m d room k. k) (λ i n t m d k. k)
      submit_draft-IsStored policy users user_id submission_id now text desk h
taken-IsStored policy json
      (uploads users later id user_id submission_id path name declared free saved) desk h =
    upload-IsStored policy users later id user_id submission_id path name declared free saved desk h
taken-IsStored policy json (removes users user_id submission_id file_id) desk h =
    remove_file-IsStored users user_id submission_id file_id desk h
taken-IsStored policy json (submits users id user_id submission_id now) desk h =
    submit_kept IsStored (λ us i u n t m d room k. k) (λ i n t m d k. k) submit_draft-IsStored json
      users id user_id submission_id now desk h
taken-IsStored policy json (revises users later id file_id user_id submission_id now free copies)
      desk h =
    revise-IsStored policy users later id file_id user_id submission_id now free copies desk h

-- With a storage that deletes whatever it is told to, whatever calls follow each other, those that
-- fail at any of their other steps included, every object of the storage stays named by as many files
-- as it is there times, if that was so before: no upload and no copy is left behind, and no file
-- loses its object.
pub taken_all-IsStored :
    (policy : Policy) (json : Json) (requests : List IntakeRequest) (desk : Desk)
    → IsStored desk
    → IsStored (taken_all policy json requests desk)
unfolding taken_all
taken_all-IsStored policy json [] desk h = h
taken_all-IsStored policy json (r ∷ rs) desk h =
    taken_all-IsStored policy json rs (taken policy json r desk)
      (taken-IsStored policy json r desk h)
