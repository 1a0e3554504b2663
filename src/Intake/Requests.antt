-- ===== src/Intake/Requests.antt =====
-- A sequence of calls of IntakeService, one after the other, as its lock makes them.
use itp2_group6_the_pond.Prelude.{ℕ, Option, none, some, List, [], ◌∷◌, Text}
use itp2_group6_the_pond.Accounts.{Users}
use itp2_group6_the_pond.Ingestion.{SubmissionFile}
use itp2_group6_the_pond.Digest.{Json}
use itp2_group6_the_pond.Intake.Tables.{StoredUpload, Desk, Policy}
use itp2_group6_the_pond.Intake.Uploading.{create, update_manifest, upload, remove_file}
use itp2_group6_the_pond.Intake.Submitting.{submit, revise}

pub data IntakeRequest : Type 0 where
  creates : Users → (id user_id now : ℕ) → Text → IntakeRequest
  rewrites : Users → (user_id submission_id now : ℕ) → Text → IntakeRequest
  uploads :
      (users later : Users)
      → (id user_id submission_id : ℕ) → (path filename : Text) → (declared free : ℕ)
      → Option StoredUpload
      → IntakeRequest
  removes : Users → (user_id submission_id file_id : ℕ) → IntakeRequest
  submits : Users → (id user_id submission_id now : ℕ) → IntakeRequest
  revises :
      (users later : Users)
      → (id file_id user_id submission_id now free : ℕ) → (SubmissionFile → Option StoredUpload)
      → IntakeRequest

-- An exception of a call that stores nothing leaves everything as it was.
abbrev pub or_before : Desk → Option Desk → Desk
or_before desk none = desk
or_before desk (some after) = after

abbrev pub desk_after : Desk → Option (ℕ × Desk) → Desk
desk_after desk none = desk
desk_after desk (some (job_id, after)) = after

unfoldable pub taken : Policy → Json → IntakeRequest → Desk → Desk
taken policy json (creates users id user_id now text) desk =
    or_before desk (create policy users id user_id now text desk)
taken policy json (rewrites users user_id submission_id now text) desk =
    or_before desk (update_manifest policy users user_id submission_id now text desk)
taken policy json (uploads users later id user_id submission_id path name declared free saved)
      desk =
    (upload policy users later id user_id submission_id path name declared free saved desk).0
taken policy json (removes users user_id submission_id file_id) desk =
    (remove_file users user_id submission_id file_id desk).0
taken policy json (submits users id user_id submission_id now) desk =
    desk_after desk (submit json users id user_id submission_id now desk)
taken policy json (revises users later id file_id user_id submission_id now free copies) desk =
    (revise policy users later id file_id user_id submission_id now free copies desk).0

unfoldable pub taken_all : Policy → Json → List IntakeRequest → Desk → Desk
taken_all policy json [] desk = desk
taken_all policy json (r ∷ rs) desk = taken_all policy json rs (taken policy json r desk)
