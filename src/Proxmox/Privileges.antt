-- ===== src/Proxmox/Privileges.antt =====
-- What the adapter's token may hold: allowed_privileges, excess_privileges, pool_membership and
-- _check_token_privileges of proxmox.py.
use itp2_group6_the_pond.Prelude.{
  ℕ, ◌-◌, Bool, true, false, ◌&&◌, ◌||◌, not, Option, none, some, List, [], ◌∷◌, Text, codes,
  Text_eq, ◌==◌, ℕ_eq, any, all, find?, leb, ltb, take, if◌then◌else◌, filter,
}
use itp2_group6_the_pond.Strings.{split_on, is_blank, comma_list, int_of}
use itp2_group6_the_pond.Provisioner.{is_in}
use itp2_group6_the_pond.Proxmox.Settings.{ProxmoxConfig, read_protected}
use itp2_group6_the_pond.Scoring.Board.{text_lt}

-- x in a set of texts
unfoldable pub has_text : Text → List Text → Bool
has_text t ts = any (λ u. u == t) ts

-- _VM_PRIVS_CLONES, _VM_PRIVS_TEMPLATES, _SDN_ZONE_PRIVS and DANGEROUS_PRIVILEGES
abbrev pub clone_privileges : List Text
clone_privileges =
    codes "VM.Allocate"
    ∷ codes "VM.Audit"
    ∷ codes "VM.Config.Network"
    ∷ codes "VM.PowerMgmt"
    ∷ codes "VM.Console"
    ∷ codes "Pool.Audit"
    ∷ []

abbrev pub template_privileges : List Text
template_privileges = codes "VM.Audit" ∷ codes "VM.Clone" ∷ codes "Pool.Audit" ∷ []

abbrev pub zone_privileges : List Text
zone_privileges = codes "SDN.Allocate" ∷ codes "SDN.Audit" ∷ codes "SDN.Use" ∷ []

unfoldable pub dangerous_privileges : List Text
dangerous_privileges =
    codes "Permissions.Modify"
    ∷ codes "Sys.Modify"
    ∷ codes "Sys.Console"
    ∷ codes "Sys.PowerMgmt"
    ∷ codes "Sys.Incoming"
    ∷ codes "User.Modify"
    ∷ codes "Realm.Allocate"
    ∷ codes "Realm.AllocateUser"
    ∷ codes "Group.Allocate"
    ∷ codes "Pool.Allocate"
    ∷ codes "Datastore.Allocate"
    ∷ codes "Mapping.Modify"
    ∷ []

-- A list of texts == another
unfoldable pub is_path : List Text → List Text → Bool
is_path [] [] = true
is_path (t ∷ ts) (u ∷ us) = t == u && is_path ts us
is_path _ _ = false

-- [p for p in path.split("/") if p]
unfoldable pub path_parts : Text → List Text
path_parts path = filter (λ t. not (is_blank t)) (split_on b'/' path)

-- A row of the hypervisor's resources, `none` where int(r["vmid"]) raises.
pub record Resource : Type 0 where
  pub resource_vmid : Option ℕ
  pub resource_pool : Text

-- The dictionary of pool_membership as its items, the last one of a key first.
abbrev pub Membership : Type 0
Membership = List (ℕ × Text)

unfoldable pub membership_from : Membership → List Resource → Option Membership
membership_from items [] = some items
membership_from items (r ∷ rs) = elim r.resource_vmid [
  | none ↦ none
  | some vmid ↦ membership_from ((vmid, r.resource_pool) ∷ items) rs
]

-- pool_membership: the outer `none` of the reply is another shape.
unfoldable pub pool_membership : Option (List Resource) → Option Membership
pool_membership none = none
pool_membership (some resources) = membership_from [] resources

-- membership.get(vmid)
unfoldable pub pool_of : Membership → ℕ → Option Text
pool_of membership vmid = elim (find? (λ (item : ℕ × Text). item.0 == vmid) membership) [
  | none ↦ none
  | some (v, pool) ↦ some pool
]

-- re.fullmatch("[0-9]+", part)
unfoldable pub is_number : Text → Bool
is_number t = not (is_blank t) && all (λ c. leb b'0' c && leb c b'9') t

unfoldable pub pool_privileges : ProxmoxConfig → Option Text → List Text
pool_privileges cfg none = []
pool_privileges cfg (some pool) =
    if pool == cfg.pool
    then clone_privileges
    else if pool == cfg.template_pool
    then template_privileges
    else []

-- The case of /vms/<id>; `none` is the exception of a bad protected list.
unfoldable pub vm_privileges : ProxmoxConfig → Membership → Option ℕ → Option (List Text)
vm_privileges cfg membership none = none
vm_privileges cfg membership (some vmid) = elim (read_protected cfg.protected) [
  | none ↦ none
  | some protected ↦
      some (if is_in vmid protected then [] else pool_privileges cfg (pool_of membership vmid))
]

-- The cases of two parts whose first is not that of a machine with a number.
unfoldable pub pair_privileges : ProxmoxConfig → Text → Text → List Text
pair_privileges cfg kind name =
    if kind == codes "storage"
    then (if has_text name (comma_list cfg.template_storages) || name == cfg.storage
        then codes "Datastore.AllocateSpace" ∷ []
        else [])
    else if kind == codes "nodes" && name == cfg.node
    then codes "Sys.Audit" ∷ []
    else []

unfoldable pub two_parts : ProxmoxConfig → Membership → List Text → Option (List Text)
two_parts cfg membership (kind ∷ name ∷ []) =
    if kind == codes "vms" && is_number name
    then vm_privileges cfg membership (int_of name)
    else some (pair_privileges cfg kind name)
two_parts cfg membership _ = some []

-- parts[:3] == ["sdn", "zones", zone]
unfoldable pub in_zone : Text → List Text → Bool
in_zone zone parts = is_path (take 3 parts) (codes "sdn" ∷ codes "zones" ∷ zone ∷ [])

-- The case of a bridge: four parts, the last of them the bridge.
unfoldable pub bridge_of : List Text → Option Text
bridge_of (a ∷ b ∷ c ∷ bridge ∷ []) =
    if in_zone (codes "localnetwork") (a ∷ b ∷ c ∷ []) then some bridge else none
bridge_of _ = none

-- allowed_privileges, on the parts of the path
unfoldable pub allowed_parts : ProxmoxConfig → Membership → List Text → Option (List Text)
allowed_parts cfg membership parts =
    if is_path parts []
    then some (codes "Sys.Audit" ∷ [])
    else if is_path parts (codes "sdn" ∷ [])
    then some (codes "SDN.Allocate" ∷ [])
    else if in_zone cfg.sdn_zone parts
    then some zone_privileges
    else if not (is_blank cfg.workstation_zone) && in_zone cfg.workstation_zone parts
    then some (codes "SDN.Use" ∷ [])
    else elim (bridge_of parts) [
      | some bridge ↦
          some
            (if has_text bridge (comma_list cfg.template_bridges) then codes "SDN.Use" ∷ [] else [])
      | none ↦
          if is_path parts (codes "pool" ∷ cfg.pool ∷ [])
          then some clone_privileges
          else if is_path parts (codes "pool" ∷ cfg.template_pool ∷ [])
          then some template_privileges
          else two_parts cfg membership parts
    ]

unfoldable pub allowed_privileges : ProxmoxConfig → Membership → Text → Option (List Text)
allowed_privileges cfg membership path = allowed_parts cfg membership (path_parts path)

-- sorted, of texts
unfoldable pub insert_text : Text → List Text → List Text
insert_text t [] = t ∷ []
insert_text t (u ∷ us) = let rest = insert_text t us in if text_lt u t then u ∷ rest else t ∷ u ∷ us

unfoldable pub sorted_texts : List Text → List Text
sorted_texts [] = []
sorted_texts (t ∷ ts) = insert_text t (sorted_texts ts)

abbrev pub Permissions : Type 0
Permissions = List (Text × List Text)

-- sorted(perms), with the privileges of each path
unfoldable pub insert_path : Text × List Text → Permissions → Permissions
insert_path p [] = p ∷ []
insert_path p (q ∷ qs) =
    let rest = insert_path p qs in if text_lt q.0 p.0 then q ∷ rest else p ∷ q ∷ qs

unfoldable pub sorted_paths : Permissions → Permissions
sorted_paths [] = []
sorted_paths (p ∷ ps) = insert_path p (sorted_paths ps)

-- p in DANGEROUS_PRIVILEGES or p not in allowed
unfoldable pub is_excess : List Text → Text → Bool
is_excess allowed p = has_text p dangerous_privileges || not (has_text p allowed)

abbrev pub add_extra : Text → List Text → Permissions → Permissions
add_extra path [] rest = rest
add_extra path (p ∷ ps) rest = (path, p ∷ ps) ∷ rest

-- The loop of excess_privileges
unfoldable pub excess_from : ProxmoxConfig → Membership → Permissions → Option Permissions
excess_from cfg membership [] = some []
excess_from cfg membership ((path, held) ∷ rest) = elim (allowed_privileges cfg membership path) [
  | none ↦ none
  | some allowed ↦ elim (excess_from cfg membership rest) [
    | none ↦ none
    | some more ↦ some (add_extra path (sorted_texts (filter (is_excess allowed) held)) more)
  ]
]

-- excess_privileges: `none` of the reply is another shape, `none` of the result ProxmoxError.
unfoldable pub excess_privileges :
    Option Permissions → ProxmoxConfig → Membership → Option Permissions
excess_privileges none cfg membership = none
excess_privileges (some perms) cfg membership = excess_from cfg membership (sorted_paths perms)

-- _privilege_cache: the host and the token of a passed check, and its time, the last one first.
abbrev pub Cache : Type 0
Cache = List ((Text × Text) × ℕ)

unfoldable pub passed_at : ProxmoxConfig → Cache → Option ℕ
passed_at cfg cache =
    elim (find? (λ (item : (Text × Text) × ℕ). item.0.0 == cfg.host && item.0.1 == cfg.token_id)
      cache) [ none ↦ none | some (key, time) ↦ some time ]

unfoldable pub is_recent_check : ProxmoxConfig → ℕ → Option ℕ → Bool
is_recent_check cfg now none = false
is_recent_check cfg now (some time) = ltb (now - time) cfg.privilege_check_ttl

-- What the hypervisor says of the token; `none` is a call that raised or a reply of another shape.
pub record Replies : Type 0 where
  pub permissions : Option Permissions
  pub resources : Option (List Resource)

abbrev pub remember : ProxmoxConfig → ℕ → Cache → Option Permissions → Option Cache
remember cfg now cache none = none
remember cfg now cache (some []) = some (((cfg.host, cfg.token_id), now) ∷ cache)
remember cfg now cache (some (p ∷ ps)) = none

-- _check_token_privileges: the cache afterwards; `none` is ProxmoxError.
unfoldable pub check_token_privileges : ProxmoxConfig → Replies → ℕ → Cache → Option Cache
check_token_privileges cfg replies now cache =
    if is_recent_check cfg now (passed_at cfg cache)
    then some cache
    else elim (pool_membership replies.resources) [
      | none ↦ none
      | some membership ↦
          remember cfg now cache (excess_privileges replies.permissions cfg membership)
    ]
