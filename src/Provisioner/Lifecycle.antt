-- ===== src/Provisioner/Lifecycle.antt =====
-- A machine from its clone to its removal: clone_and_start and stop_and_destroy of provisioner.py.
use itp2_group6_the_pond.Prelude.{
  ℕ, Bool, true, false, ◌&&◌, ◌||◌, not, Option, none, some, List, [], ◌∷◌, ◌++◌, map, Text, codes,
  ◌==◌, ℕ_eq, any, filter, update, update_first, one_or_none, if◌then◌else◌,
}
use itp2_group6_the_pond.Strings.{decimal}
use itp2_group6_the_pond.Provisioner.Vmids.{
  VmInstance, running_vm, error_vm, destroyed, holds_vmid, claim_vmid,
}
use itp2_group6_the_pond.Provisioner.Cards.{firewalled_nic, is_isolated}
use itp2_group6_the_pond.Provisioner.Calls.{
  clone_vm, wait_task, apply_sdn, start_vm, put_cards, delete_vnet, Cloud, Site, Proc, ◌▸◌, done,
  failed, ask, perform, refuse_protected, require, destroy_instance, inject, enable_vm_firewall,
}

-- _firewall_nics: the cards are rewritten, read back and tested.
abbrev pub rewrite_cards : Cloud → ℕ → Option Text → List (Text × Text) → Proc Unit
rewrite_cards cloud vmid vnet [] = failed
rewrite_cards cloud vmid vnet (n ∷ ns) =
    perform cloud
      (put_cards vmid (map (λ (item : Text × Text). (item.0, firewalled_nic item.1 vnet)) (n ∷ ns)))
    ▸ λ _. ask (λ calls.
      require (
        not (any (λ (item : Text × Text). not (is_isolated vnet item.1)) (cloud.cards calls vmid))))

unfoldable pub isolate_cards : Cloud → ℕ → Option Text → Proc Unit
isolate_cards cloud vmid vnet =
    ask (λ calls. some (cloud.cards calls vmid)) ▸ λ cards. rewrite_cards cloud vmid vnet cards

-- The arguments of clone_and_start. `network` and `firstboot` are what is written into the disk
-- for the static address and the first command; `can_write` says whether proxmox_host is given.
pub record Launch : Type 0 where
  pub template_vmid : ℕ
  pub node : Text
  pub label : Text
  pub start : ℕ
  pub end : ℕ
  pub instance_id : ℕ
  pub template_id : ℕ
  pub challenge_template_id : Option ℕ
  pub vnet : Option Text
  pub network : Option Text
  pub firstboot : Option Text
  pub can_write : Bool
  pub egress_rules : Option (List Text)

abbrev pub is_given : Option Text → Bool
is_given none = false
is_given (some t) = true

abbrev pub inject_if : Cloud → ℕ → Option Text → Proc Unit
inject_if cloud vmid none = done
inject_if cloud vmid (some content) = inject cloud vmid content

-- What follows the clone's request in the try block.
unfoldable pub prepare : Cloud → Launch → ℕ → Proc Unit
prepare cloud launch vmid = perform cloud wait_task ▸ λ _.
    inject_if cloud vmid launch.network ▸ λ _. inject_if cloud vmid launch.firstboot ▸ λ _.
    isolate_cards cloud vmid launch.vnet ▸ λ _.
    enable_vm_firewall cloud vmid launch.egress_rules ▸ λ _. perform cloud (start_vm vmid)

abbrev pub has_key : ℕ → VmInstance → Bool
has_key id row = row.vm_instance_id == id

-- The row of a failed launch.
abbrev pub fail_row : ℕ → VmInstance → VmInstance
fail_row now row = record row { status = error_vm; deleted_at = some now }

abbrev pub run_row : ℕ → Text → VmInstance → VmInstance
run_row now label row = record row {
  hostname = some label;
  status = running_vm;
  started_at = some now;
}

-- _get_console_url, with the host that it reads.
unfoldable pub get_console_url : Cloud → Text → ℕ → Option Text
get_console_url cloud node vmid = elim cloud.api_host [
  | none ↦ none
  | some host ↦ some (
      codes "https://"
      ++ (host
          ++ (codes ":8006/?console=kvm&novnc=1&vmid="
              ++ (decimal vmid ++ (codes "&node=" ++ node)))))
]

-- The except block, after the removal of the clone, and the end of the function, which raises
-- where the address of the console cannot be built.
abbrev pub mark : ℕ → (VmInstance → VmInstance) → Site → Site
mark id f s = record s { table = update_first (has_key id) f s.table }

abbrev pub finish_launch : Launch → ℕ → ℕ → Option Text → Proc ℕ
finish_launch launch id now none s = (s, none)
finish_launch launch id now (some url) s = (mark id (run_row now launch.label) s, some id)

abbrev pub close_launch : Launch → Option Text → ℕ → ℕ → Site × Option (Unit {0}) → Site × Option ℕ
close_launch launch url id now (s, none) = (mark id (fail_row now) s, none)
close_launch launch url id now (s, some _) = finish_launch launch id now url s

-- Removes the clone if what follows its request raised; an error of the removal is swallowed.
abbrev pub with_cleanup : Cloud → ℕ → Site × Option (Unit {0}) → Site × Option (Unit {0})
with_cleanup cloud vmid (s, some _) = (s, some tt)
with_cleanup cloud vmid (s, none) = ((destroy_instance cloud vmid s).0, none)

-- The try block from the clone's request on.
abbrev pub cloned : Cloud → Launch → ℕ → Site × Option (Unit {0}) → Site × Option (Unit {0})
cloned cloud launch vmid (s, none) = (s, none)
cloned cloud launch vmid (s, some _) = with_cleanup cloud vmid (prepare cloud launch vmid s)

-- The try block.
unfoldable pub tried : Cloud → Launch → ℕ → Proc Unit
tried cloud launch vmid s =
    cloned cloud launch vmid
      ((refuse_protected vmid ▸ λ _. perform cloud (clone_vm launch.template_vmid vmid)) s)

unfoldable pub with_row : Cloud → Launch → ℕ → VmInstance → Proc ℕ
with_row cloud launch now row s =
    close_launch launch (get_console_url cloud launch.node row.proxmox_vmid) row.vm_instance_id now
      (tried cloud launch row.proxmox_vmid s)

-- The reservation, on what the hypervisor shows.
abbrev pub reserve : List ℕ → Launch → ℕ → Site → Option (VmInstance × List VmInstance)
reserve visible launch id s =
    claim_vmid visible s.table (λ v. s.table) id launch.instance_id launch.template_id
      launch.challenge_template_id launch.node launch.start launch.end

abbrev pub after_reserve : Cloud → Launch → ℕ → Option (VmInstance × List VmInstance) → Proc ℕ
after_reserve cloud launch now none s = (s, none)
after_reserve cloud launch now (some (row, table)) s =
    with_row cloud launch now row (record s { table = table })

-- clone_and_start: `id` is the key of the row that is added, `now` the time that is stored.
unfoldable pub clone_and_start : Cloud → List ℕ → Launch → (id now : ℕ) → Proc ℕ
clone_and_start cloud visible launch id now s =
    if (is_given launch.network || is_given launch.firstboot) && not launch.can_write
    then (s, none)
    else (refuse_protected launch.template_vmid ▸ λ _.
          λ t. after_reserve cloud launch now (reserve visible launch id t) t)
        s

-- stop_and_destroy, after destroy_instance: the row, and the network of the session.
abbrev pub retire : ℕ → ℕ → Proc Unit
retire vmid now s = elim (one_or_none (filter (holds_vmid vmid) s.table)) [
  | none ↦ (s, none)
  | some _ ↦ (
    record s {
      table =
          update (holds_vmid vmid)
            (λ row. record row { stopped_at = some now; deleted_at = some now; status = destroyed })
            s.table;
    },
    some tt,
  )
]

abbrev pub drop_vnet : Cloud → Option Text → Proc Unit
drop_vnet cloud none = done
drop_vnet cloud (some vnet) = perform cloud (delete_vnet vnet) ▸ λ _. perform cloud apply_sdn

unfoldable pub stop_and_destroy : Cloud → ℕ → Option Text → ℕ → Proc Unit
stop_and_destroy cloud vmid vnet now = refuse_protected vmid ▸ λ _.
    destroy_instance cloud vmid ▸ λ _. retire vmid now ▸ λ _. drop_vnet cloud vnet
