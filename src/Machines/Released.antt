-- ===== src/Machines/Released.antt =====
-- A clone_and_start of provisioner.py that raises gives back the id that it reserved.
use mathlib.Core.Path.{subst}
use itp2_group6_the_pond.Prelude.{
  ℕ, suc, ◌-◌, ◌+◌, ◌≡◌, refl, sym, ap, ◌∙◌, inl, inr, Bool, true, false, ◌||◌, ◌&&◌, not, Option,
  none, some, List, [], ◌∷◌, ◌++◌, Text, ℕ_eq, any, count, update_first, Bool-cases, Option-cases,
  some-injective, arith,
}
use itp2_group6_the_pond.Provisioner.{
  VmInstance, holds_vmid, refuses, used_hint, claim_vmid, reserved_row, Call, Cloud, Site, perform,
  refuse_protected, Launch, is_given, has_key, fail_row, close_launch, tried, with_row, reserve,
  after_reserve, clone_and_start, get_console_url,
}
use itp2_group6_the_pond.Allocation.Lowest.{is_free, Lowest, full, lowest, claim_from-Lowest}
use itp2_group6_the_pond.Machines.Guards.{aims, Keeps, tried-Keeps}

-- Only mark changes the table.
HasTable : List VmInstance → Site → Type 0
HasTable table s = s.table ≡ table

calls_only :
    (cloud : Cloud) (table : List VmInstance) (c : Call)
    → any refuses (aims c) ≡ false
    → (s : Site) → HasTable table s
    → HasTable table (perform cloud c s).0
unfolding perform HasTable
calls_only cloud table c safe s h = h

-- The row of a reservation is added at the end, with the key.
Lowest-row :
    (free : ℕ → Bool) (make : ℕ → VmInstance) (table : List VmInstance) (start bound id : ℕ)
    (found : Option (VmInstance × List VmInstance)) (row : VmInstance) (after : List VmInstance)
    → ((v : ℕ) → (make v).vm_instance_id ≡ id)
    → Lowest free make (λ v. table) start bound found
    → found ≡ some (row, after)
    → (row.vm_instance_id ≡ id) × (after ≡ table ++ (row ∷ []))
Lowest-row free make table start bound id _ row after key (full h) e = cc
Lowest-row free make table start bound id _ row after key (lowest v a b c d) e =
    let same : (make v, table ++ (make v ∷ [])) ≡ (row, after) = some-injective e in
    let same_row : make v ≡ row = ap (λ (x : VmInstance × List VmInstance). x.0) same in
    (
      subst (λ (r : VmInstance). r.vm_instance_id ≡ id) same_row (key v),
      sym (ap (λ (x : VmInstance × List VmInstance). x.1) same)
          ∙ ap (λ r. table ++ (r ∷ [])) same_row,
    )

reserve-row :
    (visible : List ℕ) (launch : Launch) (id : ℕ) (s : Site) (row : VmInstance)
    (after : List VmInstance)
    → reserve visible launch id s ≡ some (row, after)
    → (row.vm_instance_id ≡ id) × (after ≡ s.table ++ (row ∷ []))
unfolding claim_vmid
reserve-row visible launch id s row after e =
    let make =
      reserved_row id launch.instance_id launch.template_id launch.challenge_template_id
        launch.node in
    let n = suc launch.end - launch.start in
    Lowest-row (is_free (used_hint visible s.table) (λ v. s.table)) make s.table launch.start
      (launch.start + n) id _ row after (λ v. refl)
      (claim_from-Lowest (used_hint visible s.table) make (λ v. s.table) launch.start n (λ v. refl))
      e

-- A failed row holds no id.
count-failed :
    (v id now : ℕ) (row : VmInstance) (table : List VmInstance)
    → count (has_key id) table ≡ 0
    → row.vm_instance_id ≡ id
    → count (holds_vmid v) (update_first (has_key id) (fail_row now) (table ++ (row ∷ [])))
      ≡ count (holds_vmid v) table
unfolding count update_first
count-failed v id now row [] fresh key = ground arith
count-failed v id now row (r ∷ rs) fresh key = ground (arith, count-failed v id now row rs)

close_launch-count :
    (launch : Launch) (v id now : ℕ) (row : VmInstance) (table : List VmInstance)
    (url : Option Text) (x : Site × Option Unit)
    → is_given url ≡ true
    → count (has_key id) table ≡ 0
    → row.vm_instance_id ≡ id
    → HasTable (table ++ (row ∷ [])) x.0
    → (close_launch launch url row.vm_instance_id now x).1 ≡ none
    → count (holds_vmid v) (close_launch launch url row.vm_instance_id now x).0.table
      ≡ count (holds_vmid v) table
unfolding HasTable
close_launch-count launch v id now row table url (s, none) given fresh key t e =
    ap
      (λ rows. count (holds_vmid v) (update_first (has_key row.vm_instance_id) (fail_row now) rows))
      t
    ∙ subst
        (λ i.
          count (holds_vmid v) (update_first (has_key i) (fail_row now) (table ++ (row ∷ [])))
          ≡ count (holds_vmid v) table)
        (sym key) (count-failed v id now row table fresh key)
close_launch-count launch v id now row table none (s, some _) given fresh key t e = cc
close_launch-count launch v id now row table (some url) (s, some _) given fresh key t e = cc

get_console_url-given :
    (cloud : Cloud) (node : Text) (vmid : ℕ) (host : Text)
    → cloud.api_host ≡ some host
    → is_given (get_console_url cloud node vmid) ≡ true
unfolding get_console_url
get_console_url-given cloud node vmid host named = simp (get_console_url, named)

after_reserve-count :
    (cloud : Cloud) (visible : List ℕ) (launch : Launch) (v id now : ℕ) (s : Site) (host : Text)
    → cloud.api_host ≡ some host
    → count (has_key id) s.table ≡ 0
    → refuses launch.template_vmid ≡ false
    → (after_reserve cloud launch now (reserve visible launch id s) s).1 ≡ none
    → count (holds_vmid v) (after_reserve cloud launch now (reserve visible launch id s) s).0.table
      ≡ count (holds_vmid v) s.table
unfolding with_row Keeps HasTable get_console_url
after_reserve-count cloud visible launch v id now s host named fresh template e =
    elim (Option-cases (reserve visible launch id s)) [
      | inl exhausted ↦ rw (after_reserve, exhausted) refl
      | inr ((row, after), found) ↦
          let (key, added) = reserve-row visible launch id s row after found in
          let kept =
            tried-Keeps cloud (HasTable (s.table ++ (row ∷ [])))
              (calls_only cloud (s.table ++ (row ∷ []))) launch row.proxmox_vmid template
              (record s { table = after }) added in
          rw (after_reserve, found)
            (close_launch-count launch v id now row s.table _
              (tried cloud launch row.proxmox_vmid (record s { table = after }))
              (get_console_url-given cloud launch.node row.proxmox_vmid host named) fresh key kept
              (rw (after_reserve, found) at e))
    ]

-- Where the host of the console's address can be read and the key of its row is new, a
-- clone_and_start that raises, at whichever of its steps, leaves each id reserved by as many rows as
-- before.
pub clone_and_start-count :
    (cloud : Cloud) (visible : List ℕ) (launch : Launch) (id now v : ℕ) (s : Site) (host : Text)
    → cloud.api_host ≡ some host
    → count (has_key id) s.table ≡ 0
    → (clone_and_start cloud visible launch id now s).1 ≡ none
    → count (holds_vmid v) (clone_and_start cloud visible launch id now s).0.table
      ≡ count (holds_vmid v) s.table
unfolding clone_and_start refuse_protected
clone_and_start-count cloud visible launch id now v s host named fresh e =
    elim (Bool-cases
      ((is_given launch.network || is_given launch.firstboot) && not launch.can_write)) [
        | inl bad ↦ rw (clone_and_start, bad) refl
        | inr good ↦ elim (Bool-cases (refuses launch.template_vmid)) [
          | inl guarded ↦ rw (clone_and_start, good, guarded) refl
          | inr template ↦
              rw (clone_and_start, good, template)
                (after_reserve-count cloud visible launch v id now s host named fresh template
                  (rw (clone_and_start, refuse_protected, good, template) at e))
        ]
      ]
