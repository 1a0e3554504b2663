-- ===== src/Intake/Package.antt =====
-- required_image_files and execution_type of requirements.py, on a manifest that has been read.
use itp2_group6_the_pond.Prelude.{
  ℕ, Bool, false, ◌&&◌, ◌||◌, Option, none, some, List, [], ◌∷◌, ◌++◌, Text, codes, Text_eq, ◌==◌,
  ℕ_eq, any, if◌then◌else◌,
}
use itp2_group6_the_pond.Digest.{text_less}

-- _SOURCE
pub data Source : Type 0 where
  approved_template image : Text → Source

pub record Vm : Type 0 where
  pub role : Text
  pub source : Source

pub record Manifest : Type 0 where
  pub schema_version : ℕ
  pub challenge_type : Text
  pub vms : List Vm

-- CHALLENGE_TYPES
unfoldable pub challenge_types : List Text
challenge_types = codes "vm" ∷ codes "scored_vm" ∷ codes "container_lab" ∷ codes "offline" ∷ []

-- A path with the roles that need it: paths.setdefault(path, []).append(role)
unfoldable pub add_role : Text → Text → List (Text × List Text) → List (Text × List Text)
add_role path role [] = (path, role ∷ []) ∷ []
add_role path role ((p, roles) ∷ paths) =
    let rest = add_role path role paths in
    if p == path then (p, roles ++ (role ∷ [])) ∷ paths else (p, roles) ∷ rest

abbrev pub add_source : Text → Source → List (Text × List Text) → List (Text × List Text)
add_source role (approved_template reference) paths = paths
add_source role (image path) paths = add_role path role paths

unfoldable pub collect : List Vm → List (Text × List Text) → List (Text × List Text)
collect [] paths = paths
collect (vm ∷ vms) paths = collect vms (add_source vm.role vm.source paths)

-- sorted(paths.items()): the paths differ.
unfoldable pub insert_required :
    Text × List Text → List (Text × List Text) → List (Text × List Text)
insert_required p [] = p ∷ []
insert_required p (q ∷ qs) =
    let rest = insert_required p qs in if text_less q.0 p.0 then q ∷ rest else p ∷ q ∷ qs

unfoldable pub sort_required : List (Text × List Text) → List (Text × List Text)
sort_required [] = []
sort_required (p ∷ ps) = insert_required p (sort_required ps)

-- required_image_files: the paths with their roles; `none` is ValueError.
unfoldable pub required_image_files : Manifest → Option (List (Text × List Text))
required_image_files manifest =
    if manifest.schema_version == 1 && any (λ t. t == manifest.challenge_type) challenge_types
    then some (sort_required (collect manifest.vms []))
    else none

-- logical_path in wanted
unfoldable pub is_wanted : Text → Option (List (Text × List Text)) → Bool
is_wanted path none = false
is_wanted path (some required) = any (λ (r : Text × List Text). r.0 == path) required

-- execution_type
unfoldable pub execution_type : Text → Text
execution_type challenge_type =
    if challenge_type == codes "vm" || challenge_type == codes "scored_vm"
    then codes "vm"
    else challenge_type
