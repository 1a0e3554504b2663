-- ===== src/Quarantine/Stored.antt =====
-- The storage holds what the table of files names: calls of intake.py that fail leave nothing behind.
use itp2_group6_the_pond.Prelude.{
  ℕ, suc, ◌+◌, ◌≡◌, ◌≤◌, refl, inl, inr, ◌∙◌, Bool, true, false, ◌&&◌, Option, none, some, List, [],
  ◌∷◌, ◌++◌, Text, codes, Text_eq, text_eq, leb, ltb, text_eq_iff, text_eq_refl, ◌==◌, ℕ_eq, count,
  count-append, find?, Bool-cases, Option-cases, arith, if◌then◌else◌, some-injective,
}
use itp2_group6_the_pond.Accounts.{Users}
use itp2_group6_the_pond.Ingestion.{SubmissionFile}
use itp2_group6_the_pond.Intake.{
  StoredUpload, Desk, Policy, drop_key, keep_upload, save_upload, upload, may_upload, new_file,
  is_still_own, is_file, delete_file, remove_file, copy_keys, delete_keys, copy_rows, record_copies,
  revise, may_revise, owned_submission, is_draft, Manifest, max_image_bytes, is_filename,
}

abbrev pub is_key : Text → Text → Bool
is_key key k = k == key

abbrev pub has_storage_key : Text → SubmissionFile → Bool
has_storage_key key f = f.storage_key == key

abbrev one_if : Bool → ℕ
one_if b = if b then 1 else 0

-- The storage deletes whatever it is told to, and every object of it is named by as many files as it
-- is there times: none is left behind, and no file is without its object.
unfoldable pub IsStored : Desk → Type 0
IsStored desk =
    (key : Text)
    → (desk.is_stuck key ≡ false)
      × (count (is_key key) desk.vault ≡ count (has_storage_key key) desk.files)

-- The removal of an object that is there.
count-drop_key :
    (key other : Text) (keys : List Text)
    → 1 ≤ count (is_key key) keys
    → count (is_key other) (drop_key key keys) + one_if (is_key other key)
      ≡ count (is_key other) keys
unfolding count drop_key
count-drop_key key other [] h = ground arith
count-drop_key key other (k ∷ keys) h = elim (Bool-cases (k == key)) [
  | inl here ↦ let same : k ≡ key = (text_eq_iff k key).0 here in rw here (rw same (ground arith))
  | inr there ↦ rw there (ground (arith, count-drop_key key other keys (rw there at h)))
]

count-delete_file :
    (key : Text) (p : SubmissionFile → Bool) (files : List SubmissionFile) (f : SubmissionFile)
    → find? p files ≡ some f
    → count (has_storage_key key) (delete_file p files) + one_if (has_storage_key key f)
      ≡ count (has_storage_key key) files
unfolding count delete_file find?
count-delete_file key p [] f h = cc
count-delete_file key p (g ∷ files) f h = elim (Bool-cases (p g)) [
  | inl here ↦ let same : g ≡ f = some-injective (rw here at h) in rw (here, ← same) (ground arith)
  | inr there ↦ rw there (ground (arith, count-delete_file key p files f (rw there at h)))
]

count-copy_rows :
    (key : Text) (id submission_id : ℕ) (copied : List (SubmissionFile × StoredUpload))
    → count (has_storage_key key) (copy_rows id submission_id copied)
      ≡ count (is_key key) (copy_keys copied)
unfolding count copy_rows copy_keys
count-copy_rows key id submission_id [] = refl
count-copy_rows key id submission_id ((f, stored) ∷ copied) =
    ground (arith, count-copy_rows key (suc id) submission_id copied)

count-delete_keys :
    (key : Text) (is_stuck : Text → Bool) (keys vault all_keys : List Text)
    → ((k : Text) → is_stuck k ≡ false)
    → ((k : Text) → count (is_key k) all_keys ≡ count (is_key k) vault + count (is_key k) keys)
    → count (is_key key) (delete_keys is_stuck keys all_keys) ≡ count (is_key key) vault
unfolding count delete_keys
count-delete_keys key is_stuck [] vault all_keys free h = let here = h key in ground arith
count-delete_keys key is_stuck (k ∷ keys) vault all_keys free h = rw (free k) (
    count-delete_keys key is_stuck keys vault (drop_key k all_keys) free (λ other.
      let sum = h other in
      let own = h k in
      let self : text_eq k k ≡ true = text_eq_refl k in
      let removed = count-drop_key k other all_keys (ground arith) in ground arith))

keep_upload-IsStored :
    (later : Users) (id user_id submission_id declared : ℕ) (path : Text) (stored : StoredUpload)
    (desk : Desk)
    → IsStored desk
    → IsStored (keep_upload later id user_id submission_id declared path stored desk).0
unfolding keep_upload IsStored count
keep_upload-IsStored later id user_id submission_id declared path stored desk h key =
    let vault = desk.vault ++ (stored.storage_key ∷ []) in
    let added = count-append (is_key key) desk.vault (stored.storage_key ∷ []) in
    elim (Bool-cases
      (stored.size_bytes == declared && is_still_own later user_id submission_id desk)) [
        | inl kept ↦
            let row = new_file id submission_id path (codes "image") stored in
            let named = count-append (has_storage_key key) desk.files (row ∷ []) in
            let before = (h key).1 in rw kept ((h key).0, ground arith)
        | inr given_up ↦
            let own =
              count-append (is_key stored.storage_key) desk.vault (stored.storage_key ∷ []) in
            let self = text_eq_refl stored.storage_key in
            let removed = count-drop_key stored.storage_key key vault (ground arith) in
            let before = (h key).1 in
            let (free, _) = h stored.storage_key in rw given_up ((h key).0, rw free (ground arith))
      ]

saved-IsStored :
    (later : Users) (id user_id submission_id declared : ℕ) (path : Text)
    (saved : Option StoredUpload) (desk : Desk)
    → IsStored desk
    → IsStored (save_upload later id user_id submission_id declared path saved desk).0
saved-IsStored later id user_id submission_id declared path none desk h = h
saved-IsStored later id user_id submission_id declared path (some stored) desk h =
    keep_upload-IsStored later id user_id submission_id declared path stored desk h

pub upload-IsStored :
    (policy : Policy) (users later : Users) (id user_id submission_id : ℕ) (path filename : Text)
    (declared free : ℕ) (saved : Option StoredUpload) (desk : Desk)
    → IsStored desk
    → IsStored
        (upload policy users later id user_id submission_id path filename declared free saved
          desk).0
unfolding upload
upload-IsStored policy users later id user_id submission_id path filename declared free saved desk
      h =
    elim (Bool-cases (ltb 0 declared && (leb declared max_image_bytes && is_filename filename))) [
      | inr bad ↦ rw (upload, bad) h
      | inl good ↦ elim (Option-cases (owned_submission users user_id submission_id desk)) [
        | inl refused ↦ rw (upload, good, refused) h
        | inr (row, found) ↦
            elim (Bool-cases (may_upload policy free submission_id declared path row desk)) [
              | inr refused ↦ rw (upload, good, found, refused) h
              | inl granted ↦
                  rw (upload, good, found, granted)
                    (saved-IsStored later id user_id submission_id declared path saved desk h)
            ]
      ]
    ]

pub remove_file-IsStored :
    (users : Users) (user_id submission_id file_id : ℕ) (desk : Desk)
    → IsStored desk
    → IsStored (remove_file users user_id submission_id file_id desk).0
unfolding remove_file IsStored
remove_file-IsStored users user_id submission_id file_id desk h =
    elim (Option-cases (owned_submission users user_id submission_id desk)) [
      | inl refused ↦ rw (remove_file, refused) h
      | inr (row, found) ↦ elim (Bool-cases (is_draft row.status)) [
        | inr frozen ↦ rw (remove_file, found, frozen) h
        | inl open_draft ↦ elim (Option-cases (find? (is_file file_id submission_id) desk.files)) [
          | inl absent ↦ rw (remove_file, found, open_draft, absent) h
          | inr (f, here) ↦
              rw (remove_file, found, open_draft, here)
                (λ key.
                  let rows =
                    count-delete_file key (is_file file_id submission_id) desk.files f here in
                  let own =
                    count-delete_file f.storage_key (is_file file_id submission_id) desk.files f
                      here in
                  let self = text_eq_refl f.storage_key in
                  let (free, there) = h f.storage_key in
                  let objects = count-drop_key f.storage_key key desk.vault (ground arith) in
                  let before = (h key).1 in ((h key).0, rw free (ground arith)))
        ]
      ]
    ]

record_copies-IsStored :
    (later : Users) (id file_id user_id submission_id now : ℕ) (text : Text) (manifest : Manifest)
    (desk : Desk) (x : List (SubmissionFile × StoredUpload) × Bool)
    → IsStored desk
    → IsStored (record_copies later id file_id user_id submission_id now text manifest desk x).0
unfolding IsStored
record_copies-IsStored later id file_id user_id submission_id now text manifest desk (copied, done)
      h key =
    let kept : Bool = elim (owned_submission later user_id submission_id desk) [
      | none ↦ false
      | some row ↦ done
    ] in
    elim (Bool-cases kept) [
      | inl all_kept ↦
          let objects = count-append (is_key key) desk.vault (copy_keys copied) in
          let rows = count-append (has_storage_key key) desk.files (copy_rows file_id id copied) in
          let same = count-copy_rows key file_id id copied in
          let before = (h key).1 in rw all_kept ((h key).0, ground arith)
      | inr given_up ↦ rw given_up (
        (h key).0,
        count-delete_keys key desk.is_stuck (copy_keys copied) desk.vault
              (desk.vault ++ copy_keys copied) (λ k. (h k).0)
              (λ k. count-append (is_key k) desk.vault (copy_keys copied))
            ∙ (h key).1,
      )
    ]

pub revise-IsStored :
    (policy : Policy) (users later : Users) (id file_id user_id submission_id now free : ℕ)
    (copies : SubmissionFile → Option StoredUpload) (desk : Desk)
    → IsStored desk
    → IsStored (revise policy users later id file_id user_id submission_id now free copies desk).0
unfolding revise
revise-IsStored policy users later id file_id user_id submission_id now free copies desk h =
    elim (Option-cases (owned_submission users user_id submission_id desk)) [
      | inl refused ↦ rw (revise, refused) h
      | inr (old, found) ↦ elim (Option-cases (policy.read old.manifest)) [
        | inl unreadable ↦ rw (revise, found, unreadable) h
        | inr (manifest, parsed) ↦
            elim (Bool-cases (may_revise policy free user_id submission_id old desk)) [
              | inr refused ↦ rw (revise, found, parsed, refused) h
              | inl granted ↦
                  rw (revise, found, parsed, granted)
                    (record_copies-IsStored later id file_id user_id submission_id now old.manifest
                      manifest desk _ h)
            ]
      ]
    ]
