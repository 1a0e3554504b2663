-- ===== src/Intake/Uploading.antt =====
-- create, update_manifest, upload and remove_file of IntakeService. Each call runs under the lock
-- of the storage; the Boolean, or the option, of the result says whether the call returns. `id` is
-- a key that the database gives.
use itp2_group6_the_pond.Prelude.{
  ℕ, Bool, true, false, ◌&&◌, not, Option, none, some, List, [], ◌∷◌, ◌++◌, Text, codes, Text_eq,
  ◌==◌, ℕ_eq, all, any, find?, update_first, length, leb, ltb, if◌then◌else◌,
}
use itp2_group6_the_pond.Accounts.{Users}
use itp2_group6_the_pond.Ingestion.{
  draft, ChallengeSubmission, SubmissionFile, pending, has_submission,
}
use itp2_group6_the_pond.Intake.Package.{Manifest, required_image_files, is_wanted}
use itp2_group6_the_pond.Intake.Tables.{
  StoredUpload, Desk, Policy, max_image_bytes, actor, owned_submission, is_draft, has_quota,
  has_capacity,
}

unfoldable pub drop_key : Text → List Text → List Text
drop_key key [] = []
drop_key key (k ∷ keys) = let rest = drop_key key keys in if k == key then keys else k ∷ rest

-- storage.delete: the object of the key, unless it raises.
abbrev pub delete_key : (Text → Bool) → Text → List Text → List Text
delete_key is_stuck key keys = if is_stuck key then keys else drop_key key keys

abbrev pub new_submission : (id user_id : ℕ) → Text → Manifest → ℕ → ChallengeSubmission
new_submission id user_id text manifest now = record {
  submission_id = id;
  uploaded_by_user_id = user_id;
  challenge_type = manifest.challenge_type;
  schema_version = manifest.schema_version;
  manifest = text;
  content_digest = none;
  status = draft;
  approved_by_user_id = none;
  approved_at = none;
  updated_at = now;
}

-- create
unfoldable pub create : Policy → Users → (id user_id now : ℕ) → Text → Desk → Option Desk
create policy users id user_id now text desk = elim (policy.read text) [
  | none ↦ none
  | some manifest ↦ elim (actor users user_id) [
    | none ↦ none
    | some u ↦
        if has_capacity user_id desk
        then some (record desk {
          submissions = desk.submissions ++ (new_submission id user_id text manifest now ∷ []);
        })
        else none
  ]
]

abbrev pub rewrite : Text → Manifest → ℕ → ChallengeSubmission → ChallengeSubmission
rewrite text manifest now s = record s {
  manifest = text;
  challenge_type = manifest.challenge_type;
  schema_version = manifest.schema_version;
  updated_at = now;
}

-- update_manifest
unfoldable pub update_manifest :
    Policy → Users → (user_id submission_id now : ℕ) → Text → Desk → Option Desk
update_manifest policy users user_id submission_id now text desk = elim (policy.read text) [
  | none ↦ none
  | some manifest ↦ elim (owned_submission users user_id submission_id desk) [
    | none ↦ none
    | some row ↦
        if is_draft row.status
        then some (record desk {
          submissions =
              update_first (has_submission submission_id) (rewrite text manifest now)
                desk.submissions;
        })
        else none
  ]
]

-- A file name of 1 to 255 characters without control characters
unfoldable pub is_filename : Text → Bool
is_filename name = leb 1 (length name) && (leb (length name) 255 && all (λ c. leb 32 c) name)

-- The checks of upload before anything is stored.
unfoldable pub may_upload :
    Policy → (free submission_id declared : ℕ) → Text → ChallengeSubmission → Desk → Bool
may_upload policy free submission_id declared path row desk =
    is_draft row.status
    && (is_wanted path (elim (policy.read row.manifest) [
      | none ↦ none
      | some manifest ↦ required_image_files manifest
    ])
        && (not (
              any
                (λ (f : SubmissionFile). f.submission_id == submission_id && f.logical_path == path)
                desk.files)
            && has_quota policy free row.uploaded_by_user_id (some submission_id) declared desk))

abbrev pub new_file : (id submission_id : ℕ) → (path role : Text) → StoredUpload → SubmissionFile
new_file id submission_id path role stored = record {
  file_id = id;
  submission_id = submission_id;
  logical_path = path;
  file_role = role;
  storage_key = stored.storage_key;
  size_bytes = stored.size_bytes;
  sha256 = stored.sha256;
  validation_status = pending;
  validated_at = none;
}

-- The second transaction: its draft is still there under the lock, its account may have changed.
unfoldable pub is_still_own : Users → (user_id submission_id : ℕ) → Desk → Bool
is_still_own users user_id submission_id desk =
    elim (owned_submission users user_id submission_id desk) [
      | none ↦ false
      | some row ↦ is_draft row.status
    ]

-- After storage.save: an upload that is not recorded is deleted again.
unfoldable pub keep_upload :
    Users → (id user_id submission_id declared : ℕ) → Text → StoredUpload → Desk → Desk × Bool
keep_upload later id user_id submission_id declared path stored desk =
    let vault = desk.vault ++ (stored.storage_key ∷ []) in
    if stored.size_bytes == declared && is_still_own later user_id submission_id desk
    then (
      record desk {
        files = desk.files ++ (new_file id submission_id path (codes "image") stored ∷ []);
        vault = vault;
      },
      true,
    )
    else (record desk { vault = delete_key desk.is_stuck stored.storage_key vault }, false)

abbrev pub save_upload :
    Users
    → (id user_id submission_id declared : ℕ) → Text
    → Option StoredUpload
    → Desk
    → Desk × Bool
save_upload later id user_id submission_id declared path none desk = (desk, false)
save_upload later id user_id submission_id declared path (some stored) desk =
    keep_upload later id user_id submission_id declared path stored desk

-- upload: `saved` is what storage.save returns, none where it raises, and `later` the accounts that
-- the second transaction finds.
unfoldable pub upload :
    Policy
    → (users later : Users) → (id user_id submission_id : ℕ) → (path filename : Text)
    → (declared free : ℕ) → Option StoredUpload
    → Desk
    → Desk × Bool
upload policy users later id user_id submission_id path filename declared free saved desk =
    if ltb 0 declared && (leb declared max_image_bytes && is_filename filename)
    then elim (owned_submission users user_id submission_id desk) [
      | none ↦ (desk, false)
      | some row ↦
          if may_upload policy free submission_id declared path row desk
          then save_upload later id user_id submission_id declared path saved desk
          else (desk, false)
    ]
    else (desk, false)

abbrev pub is_file : (file_id submission_id : ℕ) → SubmissionFile → Bool
is_file file_id submission_id f = f.file_id == file_id && f.submission_id == submission_id

-- session.delete(file): the first row of the test
unfoldable pub delete_file : (SubmissionFile → Bool) → List SubmissionFile → List SubmissionFile
delete_file p [] = []
delete_file p (f ∷ files) = let rest = delete_file p files in if p f then files else f ∷ rest

-- remove_file: the row is gone also where the deletion of its object raises.
unfoldable pub remove_file : Users → (user_id submission_id file_id : ℕ) → Desk → Desk × Bool
remove_file users user_id submission_id file_id desk =
    elim (owned_submission users user_id submission_id desk) [
      | none ↦ (desk, false)
      | some row ↦
          if is_draft row.status
          then elim (find? (is_file file_id submission_id) desk.files) [
            | none ↦ (desk, false)
            | some f ↦ (
              record desk {
                files = delete_file (is_file file_id submission_id) desk.files;
                vault = delete_key desk.is_stuck f.storage_key desk.vault;
              },
              not (desk.is_stuck f.storage_key),
            )
          ]
          else (desk, false)
    ]
