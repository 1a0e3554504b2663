-- ===== src/Digest.antt =====
-- The digest of a revision: content_digest of challenge_ingestion/validation.py, on what json and
-- hashlib answer.
use itp2_group6_the_pond.Prelude.{
  ℕ, Bool, true, false, ◌&&◌, ◌||◌, Option, List, [], ◌∷◌, map, String_eq, Text, Text_eq, ◌==◌,
  ℕ_eq, if◌then◌else◌, ltb,
}
use itp2_group6_the_pond.Ingestion.{SubmissionFile}

-- What a file contributes to the digest.
pub record InventoryItem : Type 0 where
  pub logical_path : Text
  pub file_role : Text
  pub storage_key : Text
  pub size_bytes : ℕ
  pub sha256 : Text

-- Python's order of strings
unfoldable pub text_less : Text → Text → Bool
text_less [] [] = false
text_less [] (y ∷ ys) = true
text_less (x ∷ xs) [] = false
text_less (x ∷ xs) (y ∷ ys) = ltb x y || (x == y && text_less xs ys)

unfoldable pub insert_item : InventoryItem → List InventoryItem → List InventoryItem
insert_item i [] = i ∷ []
insert_item i (j ∷ js) =
    let rest = insert_item i js in
    if text_less j.logical_path i.logical_path then j ∷ rest else i ∷ j ∷ js

-- sorted, with key=logical_path
unfoldable pub sort_items : List InventoryItem → List InventoryItem
sort_items [] = []
sort_items (i ∷ is) = insert_item i (sort_items is)

abbrev pub item_of : SubmissionFile → InventoryItem
item_of f = record {
  logical_path = f.logical_path;
  file_role = f.file_role;
  storage_key = f.storage_key;
  size_bytes = f.size_bytes;
  sha256 = f.sha256;
}

-- What json and hashlib make of stored text: the fields of a manifest, if it is a dict that has
-- them, and the digest of a manifest and an inventory; `none` is an exception.
pub record Json : Type 0 where
  pub is_dict : Text → Bool
  pub challenge_type : Text → Option Text
  pub schema_version : Text → Option ℕ
  pub seal : Text → List InventoryItem → Option Text

unfoldable pub content_digest : Json → Text → List SubmissionFile → Option Text
content_digest json manifest files = json.seal manifest (sort_items (map item_of files))
