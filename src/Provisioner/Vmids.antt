-- ===== src/Provisioner/Vmids.antt =====
-- Protected machines and the choice of a machine's id: _refuse_protected, next_free_vmid and
-- claim_vmid of provisioner.py. What the hypervisor lists is an argument.
use itp2_group6_the_pond.Prelude.{
  ℕ, zero, suc, ◌-◌, Bool, true, false, ◌&&◌, Option, none, some, List, [], ◌∷◌, ◌++◌, map, Text,
  ◌==◌, ℕ_eq, any, filter, if◌then◌else◌,
}

pub data VmStatus : Type 0 where
  reserving running_vm error_vm destroyed stopped : VmStatus

pub record VmInstance : Type 0 where
  pub vm_instance_id : ℕ
  pub instance_id : ℕ
  pub template_id : ℕ
  pub challenge_template_id : Option ℕ
  pub proxmox_vmid : ℕ
  pub proxmox_node : Text
  pub hostname : Option Text
  pub status : VmStatus
  pub started_at : Option ℕ
  pub stopped_at : Option ℕ
  pub deleted_at : Option ℕ

-- PROTECTED_VMIDS
unfoldable pub protected_vmids : List ℕ
protected_vmids = 300 ∷ 301 ∷ 302 ∷ 303 ∷ 1000 ∷ 9999 ∷ 9997 ∷ []

-- vmid in a set
abbrev pub is_in : ℕ → List ℕ → Bool
is_in v vmids = any (λ u. u == v) vmids

-- _refuse_protected raises.
unfoldable pub refuses : ℕ → Bool
refuses vmid = is_in vmid protected_vmids

abbrev pub is_kept : Option ℕ → Bool
is_kept none = true
is_kept (some t) = false

-- A row that is not deleted, with the id.
abbrev pub holds_vmid : ℕ → VmInstance → Bool
holds_vmid v row = is_kept row.deleted_at && row.proxmox_vmid == v

-- ledger_used
unfoldable pub ledger_used : List VmInstance → List ℕ
ledger_used table =
    map (λ (row : VmInstance). row.proxmox_vmid) (filter (λ row. is_kept row.deleted_at) table)

-- used, of the two functions that choose an id
unfoldable pub used_hint : List ℕ → List VmInstance → List ℕ
used_hint visible table = visible ++ (ledger_used table ++ protected_vmids)

-- The loop of next_free_vmid over `n` candidates.
unfoldable pub first_free : List ℕ → ℕ → ℕ → Option ℕ
first_free used start zero = none
first_free used start (suc n) =
    let rest = first_free used (suc start) n in if is_in start used then rest else some start

-- next_free_vmid: `none` is its exception.
unfoldable pub next_free_vmid : List ℕ → List VmInstance → ℕ → ℕ → List ℕ → Option ℕ
next_free_vmid visible table start end extra_used =
    first_free (used_hint visible table ++ extra_used) start (suc end - start)

-- The commit of a new row under the unique index on the ids of the rows that are not deleted;
-- `none` is IntegrityError.
unfoldable pub commit_row : VmInstance → List VmInstance → Option (List VmInstance)
commit_row row table =
    if any (holds_vmid row.proxmox_vmid) table then none else some (table ++ (row ∷ []))

-- The loop of claim_vmid over `n` candidates. Others may write between its commits: `tables v` is
-- the table that the commit for the candidate v meets, and `make v` the row for it.
unfoldable pub claim_from :
    List ℕ
    → (ℕ → VmInstance)
    → (ℕ → List VmInstance)
    → ℕ
    → ℕ
    → Option (VmInstance × List VmInstance)
claim_from hint make tables start zero = none
claim_from hint make tables start (suc n) =
    let rest = claim_from hint make tables (suc start) n in
    if is_in start hint then rest else elim (commit_row (make start) (tables start)) [
      | none ↦ rest
      | some table ↦ some (make start, table)
    ]

abbrev pub reserved_row : ℕ → ℕ → ℕ → Option ℕ → Text → ℕ → VmInstance
reserved_row id instance template challenge node vmid = record {
  vm_instance_id = id;
  instance_id = instance;
  template_id = template;
  challenge_template_id = challenge;
  proxmox_vmid = vmid;
  proxmox_node = node;
  hostname = none;
  status = reserving;
  started_at = none;
  stopped_at = none;
  deleted_at = none;
}

-- claim_vmid: `ledger` is the table that it reads at first, `id` the new row's key.
unfoldable pub claim_vmid :
    List ℕ
    → List VmInstance
    → (ℕ → List VmInstance)
    → (id instance template : ℕ) → Option ℕ
    → Text
    → (start end : ℕ) → Option (VmInstance × List VmInstance)
claim_vmid visible ledger tables id instance template challenge node start end =
    claim_from (used_hint visible ledger) (reserved_row id instance template challenge node) tables
      start (suc end - start)
