-- ===== src/Examples/Quarantine.antt =====
-- A draft with one image, and the theorems on the calls of the intake.
use itp2_group6_the_pond.Prelude.{
  false, ◌≡◌, ◌*◌, refl, true, some, List, [], ◌∷◌, codes, arith, count, find?, filter,
  update_first,
}
use itp2_group6_the_pond.Digest.{Json, content_digest, sort_items}
use itp2_group6_the_pond.Intake.{
  Manifest, image, Desk, Policy, StoredUpload, creates, uploads, submits, taken_all, IntakeRequest,
  submit, owned_submission, actor, is_staff, is_draft, submit_draft, new_submission, freeze,
  new_job,
}
use itp2_group6_the_pond.Quarantine.Stored.{IsStored}
use itp2_group6_the_pond.Quarantine.Calls.{taken_all-IsStored}
use itp2_group6_the_pond.Quarantine.Drafts.{IsWithin, taken_all-IsWithin}
use itp2_group6_the_pond.Quarantine.Submitted.{submit-submit}
use itp2_group6_the_pond.Examples.Data.{users}

abbrev manifest : Manifest
manifest = record {
  schema_version = 1;
  challenge_type = codes "vm";
  vms = record { role = codes "web"; source = image (codes "images/a.qcow2") } ∷ [];
}

abbrev policy : Policy
policy = record { user_bytes = 1000; total_bytes = 2000; read = λ text. some manifest }

abbrev json : Json
json = record {
  is_dict = λ text. true;
  challenge_type = λ text. some (codes "vm");
  schema_version = λ text. some 1;
  seal = λ text items. some (codes "digest");
}

abbrev empty_desk : Desk
empty_desk = record {
  submissions = [];
  files = [];
  jobs = [];
  initial = [];
  vault = [];
  is_stuck = λ key. false;
}

abbrev stored : StoredUpload
stored = record { storage_key = codes "k1"; size_bytes = 100; sha256 = codes "d" }

abbrev short : StoredUpload
short = record { storage_key = codes "k2"; size_bytes = 60; sha256 = codes "e" }

-- An upload that was cut off, one that was not, and a submit.
abbrev requests : List IntakeRequest
requests =
    creates users 1 1 10 (codes "text")
    ∷ uploads users users 5 1 1 (codes "images/a.qcow2") (codes "a.qcow2") 100 (1024 * 1024 * 1024)
        (some short)
    ∷ uploads users users 6 1 1 (codes "images/a.qcow2") (codes "a.qcow2") 100 (1024 * 1024 * 1024)
        (some stored)
    ∷ submits users 7 1 1 20
    ∷ []

empty_desk-IsStored : IsStored empty_desk
unfolding IsStored count
empty_desk-IsStored key = (refl, refl)

empty_desk-IsWithin : IsWithin empty_desk
unfolding IsWithin count
empty_desk-IsWithin owner = omega arith

taken_all-IsStored_example : IsStored (taken_all policy json requests empty_desk)
taken_all-IsStored_example = taken_all-IsStored policy json requests empty_desk empty_desk-IsStored

taken_all-IsWithin_example : IsWithin (taken_all policy json requests empty_desk)
taken_all-IsWithin_example = taken_all-IsWithin policy json requests empty_desk empty_desk-IsWithin

-- A draft without files, before and after its submit.
abbrev drafted : Desk
drafted = record empty_desk { submissions = new_submission 1 1 (codes "text") manifest 10 ∷ [] }

abbrev submitted : Desk
submitted = record drafted {
  submissions = freeze (codes "digest") 20 (new_submission 1 1 (codes "text") manifest 10) ∷ [];
  jobs = new_job 7 1 20 ∷ [];
  initial = (1, 7) ∷ [];
}

submit-submit_example : submit json users 8 1 1 30 submitted ≡ some (7, submitted)
unfolding submit submit_draft owned_submission actor find? is_staff is_draft content_digest filter
    sort_items update_first
submit-submit_example = submit-submit json users 7 8 1 1 20 30 7 drafted submitted refl
