-- ===== src/Allocation/Agreement.antt =====
-- next_free_vmid and claim_vmid of provisioner.py choose alike.
use mathlib.Core.Path.{subst}
use itp2_group6_the_pond.Prelude.{
  ℕ, zero, suc, ◌-◌, ◌≡◌, refl, inl, inr, true, false, ◌||◌, Option, none, some, List, [], ◌∷◌,
  ◌++◌, Text, ◌==◌, ℕ_eq, any, filter, Bool-cases, sym, ap, arith,
}
use itp2_group6_the_pond.Provisioner.{
  VmInstance, protected_vmids, is_in, is_kept, holds_vmid, ledger_used, used_hint, first_free,
  next_free_vmid, commit_row, claim_from, reserved_row, claim_vmid,
}
use itp2_group6_the_pond.Allocation.Unique.{is_in-append}

-- The id of a reservation.
abbrev pub vmid_of : Option (VmInstance × List VmInstance) → Option ℕ
vmid_of none = none
vmid_of (some (row, table)) = some row.proxmox_vmid

is_in-ledger_used :
    (v : ℕ) (table : List VmInstance) → is_in v (ledger_used table) ≡ any (holds_vmid v) table
unfolding any filter ledger_used
is_in-ledger_used v [] = refl
is_in-ledger_used v (row ∷ table) = elim (Bool-cases (is_kept row.deleted_at)) [
  | inl kept ↦ rw kept (ap (λ b. (row.proxmox_vmid == v) || b) (is_in-ledger_used v table))
  | inr gone ↦ rw gone (is_in-ledger_used v table)
]

-- An id that the hint does not show has no row in the table that the hint was read from.
hint-spare :
    (visible : List ℕ) (table : List VmInstance) (v : ℕ)
    → is_in v (used_hint visible table) ≡ false
    → any (holds_vmid v) table ≡ false
unfolding used_hint
hint-spare visible table v h =
    let a = is_in-append v visible (ledger_used table ++ protected_vmids) in
    let b = is_in-append v (ledger_used table) protected_vmids in
    let c = is_in-ledger_used v table in ground arith

claim_from-first_free :
    (visible : List ℕ) (ledger : List VmInstance) (make : ℕ → VmInstance) (start n : ℕ)
    → ((v : ℕ) → (make v).proxmox_vmid ≡ v)
    → vmid_of (claim_from (used_hint visible ledger) make (λ v. ledger) start n)
      ≡ first_free (used_hint visible ledger ++ []) start n
unfolding claim_from first_free commit_row any
claim_from-first_free visible ledger make start zero id = refl
claim_from-first_free visible ledger make start (suc n) id =
    let more = is_in-append start (used_hint visible ledger) [] in
    let rest = claim_from-first_free visible ledger make (suc start) n id in
    elim (Bool-cases (is_in start (used_hint visible ledger))) [
      | inl used ↦
          let used' : is_in start (used_hint visible ledger ++ []) ≡ true = ground arith in
          rw (used, used') rest
      | inr unused ↦
          let unused' : is_in start (used_hint visible ledger ++ []) ≡ false = ground arith in
          let spare =
            subst (λ v. any (holds_vmid v) ledger ≡ false) (sym (id start))
              (hint-spare visible ledger start unused) in
          rw (unused, unused', commit_row, spare) (ap some (id start))
    ]

-- next_free_vmid picks what claim_vmid reserves, where nobody else writes and no ids are added.
pub next_free_vmid-claim_vmid :
    (visible : List ℕ) (ledger : List VmInstance) (id instance template : ℕ) (challenge : Option ℕ)
    (node : Text) (start end : ℕ)
    → vmid_of
        (claim_vmid visible ledger (λ v. ledger) id instance template challenge node start end)
      ≡ next_free_vmid visible ledger start end []
unfolding claim_vmid next_free_vmid
next_free_vmid-claim_vmid visible ledger id instance template challenge node start end =
    claim_from-first_free visible ledger (reserved_row id instance template challenge node) start
      (suc end - start) (λ v. refl)
