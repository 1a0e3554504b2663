-- ===== src/Allocation/Lowest.antt =====
-- The ids that claim_vmid of provisioner.py reserves, compared with a search for the lowest free one.
use mathlib.Core.Path.{subst}
use itp2_group6_the_pond.Prelude.{
  ℕ, zero, suc, ◌+◌, ◌-◌, ◌≤◌, ◌<◌, ◌≡◌, refl, inl, inr, Bool, true, false, ◌&&◌, not, Option, none,
  some, List, [], ◌∷◌, ◌++◌, Text, ◌==◌, ℕ_eq, any, Bool-cases, arith,
}
use itp2_group6_the_pond.Provisioner.{
  VmInstance, is_in, holds_vmid, used_hint, commit_row, claim_from, reserved_row, claim_vmid,
}

-- An id that the first reading does not show as used, and that no row holds at its commit.
unfoldable pub is_free : List ℕ → (ℕ → List VmInstance) → ℕ → Bool
is_free hint tables v = not (is_in v hint) && not (any (holds_vmid v) (tables v))

-- The result of a search from `start` for the lowest id below `bound` that is free: none, if there
-- is none, or the id's row, added to the table that its commit met.
pub data Lowest (free : ℕ → Bool) (make : ℕ → VmInstance) (tables : ℕ → List VmInstance)
    (start bound : ℕ) : Option (VmInstance × List VmInstance) → Type 0 where
  full :
      ((v : ℕ) → start ≤ v → v < bound → free v ≡ false) → Lowest free make tables start bound none
  lowest :
      (v : ℕ)
      → start ≤ v
      → v < bound
      → free v ≡ true
      → ((u : ℕ) → start ≤ u → u < v → free u ≡ false)
      → Lowest free make tables start bound (some (make v, tables v ++ (make v ∷ [])))

free_below :
    (free : ℕ → Bool) (start bound v : ℕ)
    → free start ≡ false
    → ((u : ℕ) → suc start ≤ u → u < bound → free u ≡ false)
    → start ≤ v
    → v < bound
    → free v ≡ false
free_below free start bound v taken above a b = elim (Bool-cases (start == v)) [
  | inl first ↦ subst (λ u. free u ≡ false) (ground arith) taken
  | inr later ↦ above v (ground arith) b
]

-- A candidate that is not free is passed over.
Lowest-suc :
    (free : ℕ → Bool) (make : ℕ → VmInstance) (tables : ℕ → List VmInstance) (start bound : ℕ)
    (found : Option (VmInstance × List VmInstance))
    → free start ≡ false
    → Lowest free make tables (suc start) bound found
    → Lowest free make tables start bound found
Lowest-suc free make tables start bound _ taken (full none_free) =
    full (λ v a b. free_below free start bound v taken none_free a b)
Lowest-suc free make tables start bound _ taken (lowest v a b is_free_v below) =
    lowest v (omega arith) b is_free_v (λ u c d. free_below free start v u taken below c d)

row_held :
    (row : VmInstance) (v : ℕ) (table : List VmInstance) {b : Bool}
    → row.proxmox_vmid ≡ v
    → any (holds_vmid row.proxmox_vmid) table ≡ b
    → any (holds_vmid v) table ≡ b
row_held row v table {b} e h = subst (λ u. any (holds_vmid u) table ≡ b) e h

pub claim_from-Lowest :
    (hint : List ℕ) (make : ℕ → VmInstance) (tables : ℕ → List VmInstance) (start n : ℕ)
    → ((v : ℕ) → (make v).proxmox_vmid ≡ v)
    → Lowest
        (is_free hint tables)
        make
        tables
        start
        (start + n)
        (claim_from hint make tables start n)
unfolding claim_from is_free commit_row
claim_from-Lowest hint make tables start zero id = full (λ v a b. absurd (omega arith))
claim_from-Lowest hint make tables start (suc n) id =
    let bound : suc start + n ≡ start + suc n = omega arith in
    let rest =
      subst
        (λ b.
          Lowest (is_free hint tables) make tables (suc start) b
            (claim_from hint make tables (suc start) n))
        bound (claim_from-Lowest hint make tables (suc start) n id) in
    elim (Bool-cases (is_in start hint)) [
      | inl used ↦
          rw used (
            Lowest-suc (is_free hint tables) make tables start (start + suc n) _ (rw used refl)
              rest)
      | inr unused ↦ elim (Bool-cases (any (holds_vmid (make start).proxmox_vmid) (tables start))) [
        | inl held ↦
            rw (unused, commit_row, held)
              (Lowest-suc (is_free hint tables) make tables start (start + suc n) _
                (rw (unused, row_held (make start) start (tables start) (id start) held) refl) rest)
        | inr spare ↦
            rw (unused, commit_row, spare)
              (lowest start (omega arith) (omega arith)
                (rw (unused, row_held (make start) start (tables start) (id start) spare) refl)
                (λ u c d. absurd (omega arith)))
      ]
    ]

-- claim_vmid reserves the lowest id of its range that is not in use: none of the protected ids, none
-- that the hypervisor or the first reading of the table shows, none that a row holds at its commit.
pub claim_vmid-Lowest :
    (visible : List ℕ) (ledger : List VmInstance) (tables : ℕ → List VmInstance)
    (id instance template : ℕ) (challenge : Option ℕ) (node : Text) (start end : ℕ)
    → start ≤ suc end
    → Lowest
        (is_free (used_hint visible ledger) tables)
        (reserved_row id instance template challenge node)
        tables
        start
        (suc end)
        (claim_vmid visible ledger tables id instance template challenge node start end)
unfolding claim_vmid
claim_vmid-Lowest visible ledger tables id instance template challenge node start end ordered =
    let total : start + (suc end - start) ≡ suc end = omega arith in
    subst
      (λ b.
        Lowest (is_free (used_hint visible ledger) tables)
          (reserved_row id instance template challenge node) tables start b
          (claim_vmid visible ledger tables id instance template challenge node start end))
      total
      (claim_from-Lowest (used_hint visible ledger)
        (reserved_row id instance template challenge node) tables start (suc end - start)
        (λ v. refl))
