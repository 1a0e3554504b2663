-- ===== src/Worker/Snapshots.antt =====
-- What a worker validated, compared with what is there: _snapshot of worker.py.
use itp2_group6_the_pond.Prelude.{
  ℕ, Bool, true, false, ◌&&◌, Option, none, some, List, [], ◌∷◌, String_eq, Text, Text_eq, ◌==◌,
  ℕ_eq, if◌then◌else◌, filter,
}
use itp2_group6_the_pond.Ingestion.{ChallengeSubmission, SubmissionFile, Ingestion}
use itp2_group6_the_pond.Reports.{Report, content_changed}

-- The tuple of _snapshot.
pub record Snapshot : Type 0 where
  pub content_digest : Option Text
  pub challenge_type : Text
  pub schema_version : ℕ
  pub uploaded_by_user_id : ℕ
  pub manifest : Text
  pub files : List SubmissionFile

unfoldable pub snapshot : Ingestion → ChallengeSubmission → Snapshot
snapshot db s = record {
  content_digest = s.content_digest;
  challenge_type = s.challenge_type;
  schema_version = s.schema_version;
  uploaded_by_user_id = s.uploaded_by_user_id;
  manifest = s.manifest;
  files = filter (λ f. f.submission_id == s.submission_id) db.files;
}

abbrev pub digest_eq : Option Text → Option Text → Bool
digest_eq none none = true
digest_eq (some a) (some b) = a == b
digest_eq _ _ = false

-- A FileRecord has no validation state.
unfoldable pub file_eq : SubmissionFile → SubmissionFile → Bool
file_eq a b =
    a.file_id == b.file_id
    && (a.submission_id == b.submission_id
        && (a.logical_path == b.logical_path
            && (a.file_role == b.file_role
                && (a.storage_key == b.storage_key
                    && (a.size_bytes == b.size_bytes && a.sha256 == b.sha256)))))

unfoldable pub files_eq : List SubmissionFile → List SubmissionFile → Bool
files_eq [] [] = true
files_eq (a ∷ as') (b ∷ bs) = file_eq a b && files_eq as' bs
files_eq _ _ = false

unfoldable pub snapshot_eq : Snapshot → Snapshot → Bool
snapshot_eq a b =
    digest_eq a.content_digest b.content_digest
    && (a.challenge_type == b.challenge_type
        && (a.schema_version == b.schema_version
            && (a.uploaded_by_user_id == b.uploaded_by_user_id
                && (a.manifest == b.manifest && files_eq a.files b.files))))

-- The report that finish() stores.
unfoldable pub final_report : Ingestion → ChallengeSubmission → Snapshot → Report → Report
final_report db submission seen report =
    if snapshot_eq (snapshot db submission) seen then report else content_changed
