-- ===== src/Examples/Machines.antt =====
-- Machines and networks of sessions, and the theorems on them.
use itp2_group6_the_pond.Prelude.{
  ℕ, ◌≡◌, refl, Bool, true, false, none, some, List, [], ◌∷◌, Text, codes, All, any, all, count,
  filter, text_eq, update_first, arith,
}
use itp2_group6_the_pond.Strings.{starts_with}
use itp2_group6_the_pond.Provisioner.{
  VmInstance, refuses, protected_vmids, is_in, used_hint, ledger_used, commit_row, claim_from,
  reserved_row, claim_vmid, session_vnet_name, is_vnet_id, hex, hex_from, firewall_nics,
  is_isolated, Call, put_options, Cloud, Site, Launch, clone_and_start, refuse_protected, with_row,
  tried, perform, prepare, isolate_cards, ask, destroy_instance, enable_vm_firewall, firewalled_nic,
  is_dropped, isolated_parts, join, split, wrong_bridge, holds_vmid,
}
use itp2_group6_the_pond.Allocation.Unique.{IsUnique, claim_vmid-IsUnique}
use itp2_group6_the_pond.Networks.Names.{value_after, session_vnet_name-value_after}
use itp2_group6_the_pond.Machines.Protected.{
  IsSafe, launches, destroys, opens, handled_all, handled_all-IsSafe,
}
use itp2_group6_the_pond.Machines.Released.{clone_and_start-count}
use itp2_group6_the_pond.Networks.Cards.{rewritten, firewall_nics-is_isolated}

-- 299 is in use on the hypervisor, and 300 to 303 are protected.
abbrev visible : List ℕ
visible = 299 ∷ []

abbrev machine : ℕ → VmInstance
machine vmid = reserved_row 1 4 2 none (codes "pve") vmid

-- Another session takes 304 after the first reading.
abbrev others : ℕ → List VmInstance
others v = machine 304 ∷ []

abbrev new_machine : VmInstance
new_machine = reserved_row 2 5 2 none (codes "pve") 305

others-IsUnique : (v : ℕ) → IsUnique (others v)
unfolding count
others-IsUnique v w = ground arith

claim_vmid-IsUnique_example :
    (refuses 305 ≡ false) × (is_in 305 visible ≡ false) × IsUnique (machine 304 ∷ new_machine ∷ [])
unfolding claim_vmid claim_from used_hint ledger_used commit_row any filter protected_vmids
claim_vmid-IsUnique_example =
    claim_vmid-IsUnique visible [] others 2 5 2 none (codes "pve") 299 310 new_machine
      (machine 304 ∷ new_machine ∷ []) others-IsUnique refl

session_vnet_name-value_after_example : (◌≡◌ {A = ℕ} b's' b's') × (value_after 0 (codes "1f") ≡ 31)
unfolding session_vnet_name is_vnet_id hex hex_from all
session_vnet_name-value_after_example = session_vnet_name-value_after 31 b's' (codes "1f") refl

abbrev card : Text × Text
card = (codes "net0", codes "virtio=AA,bridge=vmbr0,tag=7")

firewall_nics-is_isolated_example :
    (firewall_nics (λ sent. sent) (some (codes "s1f")) (card ∷ [])
      ≡ some (rewritten (some (codes "s1f")) (card ∷ [])))
    × All
        (λ (item : Text × Text). is_isolated (some (codes "s1f")) item.1 ≡ true)
        (rewritten (some (codes "s1f")) (card ∷ []))
unfolding session_vnet_name is_vnet_id hex hex_from all
firewall_nics-is_isolated_example =
    firewall_nics-is_isolated (λ sent. sent) 31 (codes "s1f") card [] (λ sent. refl) refl

abbrev is_options : Call → Bool
is_options (put_options v) = true
is_options _ = false

-- A hypervisor that refuses the options of a firewall.
abbrev strict : Cloud
strict = record {
  raises = λ calls c. is_options c;
  exists = λ calls v. some true;
  machines = λ calls. [];
  disk = λ calls v. none;
  api_host = some (codes "pve");
  cards = λ calls v. (codes "net0", codes "virtio=AA,bridge=s1f,firewall=1") ∷ [];
  egress = λ calls v. [];
}

abbrev launch : Launch
launch = record {
  template_vmid = 120;
  node = codes "pve";
  label = codes "web";
  start = 299;
  end = 310;
  instance_id = 31;
  template_id = 2;
  challenge_template_id = none;
  vnet = some (codes "s1f");
  network = none;
  firstboot = none;
  can_write = false;
  egress_rules = none;
}

abbrev idle_site : Site
idle_site = record { calls = []; table = machine 304 ∷ [] }

handled_all-IsSafe_example : IsSafe (
    handled_all strict
      (launches visible launch 2 9 ∷ destroys 300 none 10 ∷ opens 304 ∷ [])
      idle_site)
handled_all-IsSafe_example =
    handled_all-IsSafe strict (launches visible launch 2 9 ∷ destroys 300 none 10 ∷ opens 304 ∷ [])
      idle_site tt

launch_fails : (clone_and_start strict visible launch 2 9 idle_site).1 ≡ none
unfolding clone_and_start refuse_protected refuses any protected_vmids claim_vmid claim_from
    used_hint ledger_used filter commit_row with_row tried perform prepare isolate_cards ask
    is_isolated text_eq update_first destroy_instance enable_vm_firewall firewalled_nic is_dropped
    isolated_parts join split wrong_bridge starts_with
launch_fails = refl

clone_and_start-count_example :
    count (holds_vmid 305) (clone_and_start strict visible launch 2 9 idle_site).0.table
    ≡ count (holds_vmid 305) idle_site.table
unfolding count
clone_and_start-count_example =
    clone_and_start-count strict visible launch 2 9 305 idle_site (codes "pve") refl refl
      launch_fails
