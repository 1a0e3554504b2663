-- ===== src/Quarantine/Drafts.antt =====
-- The limit of drafts in intake.py, and a submit that is repeated.
use mathlib.Core.Path.{subst}
use itp2_group6_the_pond.Prelude.{
  ℕ, ◌≡◌, ◌≤◌, refl, sym, inl, inr, Bool, true, false, ◌&&◌, Option, none, some, List, [], ◌∷◌,
  ◌++◌, Text, ◌==◌, ℕ_eq, count, count-append, filter, find?, Bool-cases, Option-cases, arith,
  update_first, leb, ltb,
}
use itp2_group6_the_pond.Accounts.{Users}
use itp2_group6_the_pond.Ingestion.{SubmissionFile, ChallengeSubmission, has_submission}
use itp2_group6_the_pond.Digest.{Json, content_digest}
use itp2_group6_the_pond.Intake.{
  StoredUpload, Desk, Policy, is_draft, is_draft_of, has_capacity, rewrite, freeze, new_submission,
  owned_submission, submit_draft, desk_after, keep_upload, save_upload, upload, may_upload,
  remove_file, is_file, record_copies, revise, may_revise, IntakeRequest, creates, rewrites,
  uploads, removes, submits, revises, taken, taken_all, Manifest, max_image_bytes, is_filename,
  is_file_of, is_still_own,
}
use itp2_group6_the_pond.Quarantine.Calls.{create_kept, update_manifest_kept, submit_kept}

-- Nobody has more than 20 drafts.
unfoldable pub IsWithin : Desk → Type 0
IsWithin desk = (owner : ℕ) → count (is_draft_of owner) desk.submissions ≤ 20

-- A new draft of a user who has room.
added-IsWithin :
    (rows : List ChallengeSubmission) (row : ChallengeSubmission) (user_id : ℕ)
    → row.uploaded_by_user_id ≡ user_id
    → ltb (count (is_draft_of user_id) rows) 20 ≡ true
    → ((owner : ℕ) → count (is_draft_of owner) rows ≤ 20)
    → (owner : ℕ) → count (is_draft_of owner) (rows ++ (row ∷ [])) ≤ 20
unfolding count
added-IsWithin rows row user_id same room h owner =
    let sum = count-append (is_draft_of owner) rows (row ∷ []) in
    let before = h owner in
    elim (Bool-cases (user_id == owner)) [
      | inl own ↦
          let one : user_id ≡ owner = ground arith in
          let there : ltb (count (is_draft_of owner) rows) 20 ≡ true =
            subst (λ u. ltb (count (is_draft_of u) rows) 20 ≡ true) one room in
          ground arith
      | inr other ↦ ground arith
    ]

-- A change that keeps the owner and makes no draft adds none.
changed-drafts :
    (owner id : ℕ) (f : ChallengeSubmission → ChallengeSubmission) (rows : List ChallengeSubmission)
    → ((s : ChallengeSubmission) → is_draft_of owner (f s) ≡ true → is_draft_of owner s ≡ true)
    → count (is_draft_of owner) (update_first (has_submission id) f rows)
      ≤ count (is_draft_of owner) rows
unfolding count update_first
changed-drafts owner id f [] keeps = omega arith
changed-drafts owner id f (s ∷ rows) keeps =
    ground (arith, keeps s, changed-drafts owner id f rows keeps)

create-IsWithin :
    (users : Users) (id user_id now : ℕ) (text : Text) (manifest : Manifest) (desk : Desk)
    → has_capacity user_id desk ≡ true
    → IsWithin desk
    → IsWithin (record desk {
      submissions = desk.submissions ++ (new_submission id user_id text manifest now ∷ []);
    })
unfolding has_capacity IsWithin
create-IsWithin users id user_id now text manifest desk room h =
    added-IsWithin desk.submissions (new_submission id user_id text manifest now) user_id refl room
      h

rewrite-IsWithin :
    (id now : ℕ) (text : Text) (manifest : Manifest) (desk : Desk)
    → IsWithin desk
    → IsWithin (record desk {
      submissions = update_first (has_submission id) (rewrite text manifest now) desk.submissions;
    })
unfolding IsWithin
rewrite-IsWithin id now text manifest desk h owner =
    let fewer = changed-drafts owner id (rewrite text manifest now) desk.submissions (λ s e. e) in
    let before = h owner in omega arith

submit_draft-IsWithin :
    (json : Json) (id submission_id now : ℕ) (row : ChallengeSubmission) (desk : Desk)
    → IsWithin desk
    → IsWithin (desk_after desk (submit_draft json id submission_id now row desk))
unfolding submit_draft IsWithin is_draft
submit_draft-IsWithin json id submission_id now row desk h =
    elim (Option-cases
      (content_digest json row.manifest (filter (is_file_of submission_id) desk.files))) [
        | inl unsealed ↦ rw (submit_draft, unsealed) h
        | inr (digest, sealed) ↦
            rw (submit_draft, sealed)
              (λ owner.
                let fewer =
                  changed-drafts owner submission_id (freeze digest now) desk.submissions
                    (λ s e. ground arith) in
                let before = h owner in omega arith)
      ]

saved-submissions :
    (later : Users) (id user_id submission_id declared : ℕ) (path : Text)
    (saved : Option StoredUpload) (desk : Desk)
    → (save_upload later id user_id submission_id declared path saved desk).0.submissions
      ≡ desk.submissions
unfolding keep_upload
saved-submissions later id user_id submission_id declared path none desk = refl
saved-submissions later id user_id submission_id declared path (some stored) desk =
    elim (Bool-cases
      (stored.size_bytes == declared && is_still_own later user_id submission_id desk)) [
        | inl kept ↦ rw (keep_upload, kept) refl
        | inr given_up ↦ rw (keep_upload, given_up) refl
      ]

-- An upload and a removal leave the submissions.
upload-submissions :
    (policy : Policy) (users later : Users) (id user_id submission_id : ℕ) (path filename : Text)
    (declared free : ℕ) (saved : Option StoredUpload) (desk : Desk)
    → (upload policy users later id user_id submission_id path filename declared free saved
        desk).0.submissions
      ≡ desk.submissions
unfolding upload keep_upload
upload-submissions policy users later id user_id submission_id path filename declared free saved
      desk =
    elim (Bool-cases (ltb 0 declared && (leb declared max_image_bytes && is_filename filename))) [
      | inr bad ↦ rw (upload, bad) refl
      | inl good ↦ elim (Option-cases (owned_submission users user_id submission_id desk)) [
        | inl refused ↦ rw (upload, good, refused) refl
        | inr (row, found) ↦
            elim (Bool-cases (may_upload policy free submission_id declared path row desk)) [
              | inr refused ↦ rw (upload, good, found, refused) refl
              | inl granted ↦
                  rw (upload, good, found, granted)
                    (saved-submissions later id user_id submission_id declared path saved desk)
            ]
      ]
    ]

remove_file-submissions :
    (users : Users) (user_id submission_id file_id : ℕ) (desk : Desk)
    → (remove_file users user_id submission_id file_id desk).0.submissions ≡ desk.submissions
unfolding remove_file
remove_file-submissions users user_id submission_id file_id desk =
    elim (Option-cases (owned_submission users user_id submission_id desk)) [
      | inl refused ↦ rw (remove_file, refused) refl
      | inr (row, found) ↦ elim (Bool-cases (is_draft row.status)) [
        | inr frozen ↦ rw (remove_file, found, frozen) refl
        | inl editable ↦ elim (Option-cases (find? (is_file file_id submission_id) desk.files)) [
          | inl absent ↦ rw (remove_file, found, editable, absent) refl
          | inr (f, here) ↦ rw (remove_file, found, editable, here) refl
        ]
      ]
    ]

same-IsWithin :
    (desk after : Desk) → after.submissions ≡ desk.submissions → IsWithin desk → IsWithin after
unfolding IsWithin
same-IsWithin desk after same h owner =
    subst (λ rows. count (is_draft_of owner) rows ≤ 20) (sym same) (h owner)

record_copies-IsWithin :
    (later : Users) (id file_id user_id submission_id now : ℕ) (text : Text) (manifest : Manifest)
    (desk : Desk) (x : List (SubmissionFile × StoredUpload) × Bool)
    → has_capacity user_id desk ≡ true
    → IsWithin desk
    → IsWithin (record_copies later id file_id user_id submission_id now text manifest desk x).0
unfolding IsWithin has_capacity
record_copies-IsWithin later id file_id user_id submission_id now text manifest desk (copied, done)
      room h =
    let kept : Bool = elim (owned_submission later user_id submission_id desk) [
      | none ↦ false
      | some row ↦ done
    ] in
    elim (Bool-cases kept) [
      | inl all_kept ↦ rw all_kept (
          added-IsWithin desk.submissions (new_submission id user_id text manifest now) user_id refl
            room h)
      | inr given_up ↦ rw given_up h
    ]

revise-IsWithin :
    (policy : Policy) (users later : Users) (id file_id user_id submission_id now free : ℕ)
    (copies : SubmissionFile → Option StoredUpload) (desk : Desk)
    → IsWithin desk
    → IsWithin (revise policy users later id file_id user_id submission_id now free copies desk).0
unfolding revise may_revise
revise-IsWithin policy users later id file_id user_id submission_id now free copies desk h =
    elim (Option-cases (owned_submission users user_id submission_id desk)) [
      | inl refused ↦ rw (revise, refused) h
      | inr (old, found) ↦ elim (Option-cases (policy.read old.manifest)) [
        | inl unreadable ↦ rw (revise, found, unreadable) h
        | inr (manifest, parsed) ↦
            elim (Bool-cases (may_revise policy free user_id submission_id old desk)) [
              | inr refused ↦ rw (revise, found, parsed, refused) h
              | inl granted ↦
                  rw (revise, found, parsed, granted)
                    (record_copies-IsWithin later id file_id user_id submission_id now old.manifest
                      manifest desk _ (ground arith) h)
            ]
      ]
    ]

taken-IsWithin :
    (policy : Policy) (json : Json) (request : IntakeRequest) (desk : Desk)
    → IsWithin desk
    → IsWithin (taken policy json request desk)
unfolding taken
taken-IsWithin policy json (creates users id user_id now text) desk h =
    create_kept IsWithin create-IsWithin rewrite-IsWithin submit_draft-IsWithin policy users id
      user_id now text desk h
taken-IsWithin policy json (rewrites users user_id submission_id now text) desk h =
    update_manifest_kept IsWithin create-IsWithin rewrite-IsWithin submit_draft-IsWithin policy
      users user_id submission_id now text desk h
taken-IsWithin policy json
      (uploads users later id user_id submission_id path name declared free saved) desk h =
    same-IsWithin desk _
      (upload-submissions policy users later id user_id submission_id path name declared free saved
        desk)
      h
taken-IsWithin policy json (removes users user_id submission_id file_id) desk h =
    same-IsWithin desk _ (remove_file-submissions users user_id submission_id file_id desk) h
taken-IsWithin policy json (submits users id user_id submission_id now) desk h =
    submit_kept IsWithin create-IsWithin rewrite-IsWithin submit_draft-IsWithin json users id
      user_id submission_id now desk h
taken-IsWithin policy json (revises users later id file_id user_id submission_id now free copies)
      desk h =
    revise-IsWithin policy users later id file_id user_id submission_id now free copies desk h

-- Whatever calls follow each other, nobody ever has more than 20 drafts, if that was so before.
pub taken_all-IsWithin :
    (policy : Policy) (json : Json) (requests : List IntakeRequest) (desk : Desk)
    → IsWithin desk
    → IsWithin (taken_all policy json requests desk)
unfolding taken_all
taken_all-IsWithin policy json [] desk h = h
taken_all-IsWithin policy json (r ∷ rs) desk h =
    taken_all-IsWithin policy json rs (taken policy json r desk)
      (taken-IsWithin policy json r desk h)
