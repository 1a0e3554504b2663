-- ===== src/Allocation/Unique.antt =====
-- The ids of the machines that are not deleted stay apart, and off the protected ones
-- (claim_vmid of provisioner.py and the unique index of db/runtime_models.py).
use mathlib.Core.Path.{subst}
use itp2_group6_the_pond.Prelude.{
  ℕ, suc, ◌+◌, ◌-◌, ◌≤◌, ◌≡◌, refl, inl, inr, true, false, ◌||◌, Option, some, List, [], ◌∷◌, ◌++◌,
  Text, ◌==◌, ℕ_eq, any, count, count-append, Bool-cases, some-injective, sym, ap, ◌∙◌, any-count,
  arith,
}
use itp2_group6_the_pond.Provisioner.{
  VmInstance, protected_vmids, is_in, refuses, holds_vmid, ledger_used, used_hint, reserved_row,
  claim_vmid,
}
use itp2_group6_the_pond.Allocation.Lowest.{is_free, Lowest, full, lowest, claim_from-Lowest}

-- No two rows that are not deleted have the same id.
abbrev pub IsUnique : List VmInstance → Type 0
IsUnique table = (v : ℕ) → count (holds_vmid v) table ≤ 1

pub is_in-append : (v : ℕ) (us vs : List ℕ) → is_in v (us ++ vs) ≡ (is_in v us || is_in v vs)
unfolding any
is_in-append v [] vs = refl
is_in-append v (u ∷ us) vs = ground (arith, is_in-append v us vs)

-- An id that is in use by the hint is not free.
free-unprotected :
    (visible : List ℕ) (ledger : List VmInstance) (tables : ℕ → List VmInstance) (v : ℕ)
    → is_free (used_hint visible ledger) tables v ≡ true
    → (refuses v ≡ false) × (is_in v visible ≡ false)
unfolding is_free used_hint refuses
free-unprotected visible ledger tables v h =
    let a = is_in-append v visible (ledger_used ledger ++ protected_vmids) in
    let b = is_in-append v (ledger_used ledger) protected_vmids in ground arith

commit-IsUnique :
    (v : ℕ) (row : VmInstance) (table : List VmInstance)
    → IsUnique table
    → row.proxmox_vmid ≡ v
    → any (holds_vmid v) table ≡ false
    → IsUnique (table ++ (row ∷ []))
unfolding count
commit-IsUnique v row table unique e spare w =
    let total = count-append (holds_vmid w) table (row ∷ []) in
    elim (Bool-cases (row.proxmox_vmid == w)) [
      | inl same ↦
          let none_yet =
            any-count (holds_vmid w) table
              (subst (λ u. any (holds_vmid u) table ≡ false) (ground arith) spare) in
          ground arith
      | inr other ↦ let old = unique w in ground arith
    ]

free-spare :
    (hint : List ℕ) (tables : ℕ → List VmInstance) (v : ℕ)
    → is_free hint tables v ≡ true
    → any (holds_vmid v) (tables v) ≡ false
unfolding is_free
free-spare hint tables v h = ground arith

Lowest-safe :
    (visible : List ℕ) (ledger : List VmInstance) (tables : ℕ → List VmInstance)
    (make : ℕ → VmInstance) (start bound : ℕ) (found : Option (VmInstance × List VmInstance))
    (row : VmInstance) (table : List VmInstance)
    → ((v : ℕ) → (make v).proxmox_vmid ≡ v)
    → ((v : ℕ) → IsUnique (tables v))
    → Lowest (is_free (used_hint visible ledger) tables) make tables start bound found
    → found ≡ some (row, table)
    → (refuses row.proxmox_vmid ≡ false) × (is_in row.proxmox_vmid visible ≡ false) × IsUnique table
unfolding is_free
Lowest-safe visible ledger tables make start bound _ row table id unique (full h) e = cc
Lowest-safe visible ledger tables make start bound _ row table id unique (lowest v a b free below)
      e =
    let same : (make v, tables v ++ (make v ∷ [])) ≡ (row, table) = some-injective e in
    let (safe, unseen) = free-unprotected visible ledger tables v free in
    let key : v ≡ row.proxmox_vmid =
      sym (id v) ∙ ap (λ (x : VmInstance × List VmInstance). x.0.proxmox_vmid) same in
    (
      subst (λ u. refuses u ≡ false) key safe,
      subst (λ u. is_in u visible ≡ false) key unseen,
      subst IsUnique (ap (λ (x : VmInstance × List VmInstance). x.1) same) (
          commit-IsUnique v (make v) (tables v) (unique v) (id v)
            (free-spare (used_hint visible ledger) tables v free)),
    )

-- If no table that its commits meet holds an id twice, then the id that claim_vmid reserves is
-- neither protected nor shown by the hypervisor, and the table afterwards holds no id twice, however
-- the table changed since its first reading.
pub claim_vmid-IsUnique :
    (visible : List ℕ) (ledger : List VmInstance) (tables : ℕ → List VmInstance)
    (id instance template : ℕ) (challenge : Option ℕ) (node : Text) (start end : ℕ)
    (row : VmInstance) (table : List VmInstance)
    → ((v : ℕ) → IsUnique (tables v))
    → claim_vmid visible ledger tables id instance template challenge node start end
      ≡ some (row, table)
    → (refuses row.proxmox_vmid ≡ false) × (is_in row.proxmox_vmid visible ≡ false) × IsUnique table
unfolding claim_vmid
claim_vmid-IsUnique visible ledger tables id instance template challenge node start end row table
      unique e =
    Lowest-safe visible ledger tables (reserved_row id instance template challenge node) start
      (start + (suc end - start)) _ row table (λ v. refl) unique
      (claim_from-Lowest (used_hint visible ledger)
        (reserved_row id instance template challenge node) tables start (suc end - start)
        (λ v. refl))
      e
