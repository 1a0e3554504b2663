-- ===== src/Provisioner/Calls.antt =====
-- The calls of provisioner.py on the hypervisor, each behind its guard. A procedure maps what has
-- been called and the table of machines to the same afterwards, with its value; `none` is an
-- exception.
use itp2_group6_the_pond.Prelude.{
  ℕ, suc, Bool, true, false, ◌&&◌, Option, none, some, List, [], ◌∷◌, ◌++◌, Text, ◌==◌, ℕ_eq,
  filter, Text_eq, if◌then◌else◌,
}
use itp2_group6_the_pond.Provisioner.Vmids.{VmInstance, refuses}
use itp2_group6_the_pond.Provisioner.Names.{session_vnet_name}

-- The calls that change something; the other calls are questions, whose answers are in `Cloud`.
pub data Call : Type 0 where
  clone_vm : (template new : ℕ) → Call
  wait_task apply_sdn : Call
  start_vm stop_vm delete_vm put_options open_console : ℕ → Call
  put_cards : ℕ → List (Text × Text) → Call
  post_egress : ℕ → ℕ → Text → Call
  post_ingress : ℕ → Text → ℕ → Call
  write_disk : ℕ → (volume content : Text) → Call
  post_vnet delete_vnet : Text → Call

-- A machine as the hypervisor lists it.
pub record Listed : Type 0 where
  pub vmid : ℕ
  pub name : Text
  pub template : Bool

abbrev pub only_vmid : List Listed → Option ℕ
only_vmid (vm ∷ []) = some vm.vmid
only_vmid _ = none

-- _resolve_template_vmid: the only template of the name, or the only machine of the name if none
-- is a template.
unfoldable pub resolve_template_vmid : Text → List Listed → Option ℕ
resolve_template_vmid name machines =
    let matches = filter (λ vm. vm.name == name) machines in
    let templates = filter (λ (vm : Listed). vm.template) matches in
    only_vmid (elim templates [ [] ↦ matches | t ∷ ts ↦ t ∷ ts ])

-- The hypervisor: whether a call raises, and its answers, after the calls that were made.
pub record Cloud : Type 0 where
  pub raises : List Call → Call → Bool
  pub exists : List Call → ℕ → Option Bool
  pub machines : List Call → List Listed
  pub disk : List Call → ℕ → Option Text
  pub cards : List Call → ℕ → List (Text × Text)
  -- What _get_console_url reads: proxmox_api_host of group_vars, or "pve" where there is no such
  -- file; none where the file cannot be opened or parsed.
  pub api_host : Option Text
  -- The numbers of the egress rules of a machine, by their position.
  pub egress : List Call → ℕ → List ℕ

pub record Site : Type 0 where
  pub calls : List Call
  pub table : List VmInstance

abbrev pub Proc : Type 0 → Type 0
Proc A = Site → Site × Option A

abbrev pub continued : {A : Type 0} {B : Type 0} → Site × Option A → (A → Proc B) → Site × Option B
continued (s, none) k = (s, none)
continued (s, some a) k = k a s

infixr 20 ◌▸◌
-- One procedure after the other, unless the first raises.
abbrev pub ◌▸◌ : {A : Type 0} {B : Type 0} → Proc A → (A → Proc B) → Proc B
◌▸◌ p k s = continued (p s) k

abbrev pub done : Proc Unit
done s = (s, some tt)

abbrev pub failed : Proc Unit
failed s = (s, none)

-- An answer to a question about what is there.
unfoldable pub ask : {A : Type 0} → (List Call → Option A) → Proc A
ask question s = (s, question s.calls)

-- A call that changes something.
unfoldable pub perform : Cloud → Call → Proc Unit
perform cloud c s =
    (record s { calls = s.calls ++ (c ∷ []) }, if cloud.raises s.calls c then none else some tt)

-- _refuse_protected
unfoldable pub refuse_protected : ℕ → Proc Unit
refuse_protected vmid s = (s, if refuses vmid then none else some tt)

abbrev pub require : Bool → Option (Unit {0})
require b = if b then some tt else none

-- create_instance
unfoldable pub create_instance : Cloud → Text → ℕ → Proc Unit
create_instance cloud template vmid = refuse_protected vmid ▸ λ _.
    ask (λ calls. resolve_template_vmid template (cloud.machines calls)) ▸ λ template_vmid.
    refuse_protected template_vmid ▸ λ _. perform cloud (clone_vm template_vmid vmid) ▸ λ _.
    perform cloud wait_task ▸ λ _. perform cloud (start_vm vmid)

-- destroy_instance, after its question whether the machine is there
abbrev pub stop_and_delete : Cloud → ℕ → Bool → Proc Unit
stop_and_delete cloud vmid false = done
stop_and_delete cloud vmid true = perform cloud (stop_vm vmid) ▸ λ _.
    perform cloud wait_task ▸ λ _. perform cloud (delete_vm vmid)

unfoldable pub destroy_instance : Cloud → ℕ → Proc Unit
destroy_instance cloud vmid = refuse_protected vmid ▸ λ _.
    ask (λ calls. cloud.exists calls vmid) ▸ λ there. stop_and_delete cloud vmid there

-- apply_network_rule and get_console_ticket
unfoldable pub apply_network_rule : Cloud → ℕ → Text → ℕ → Proc Unit
apply_network_rule cloud vmid source port =
    refuse_protected vmid ▸ λ _. perform cloud (post_ingress vmid source port)

unfoldable pub get_console_ticket : Cloud → ℕ → Proc Unit
get_console_ticket cloud vmid = refuse_protected vmid ▸ λ _. perform cloud (open_console vmid)

-- inject_instance_network and inject_firstboot_command, with _find_disk_volid
unfoldable pub inject : Cloud → ℕ → Text → Proc Unit
inject cloud vmid content = refuse_protected vmid ▸ λ _. refuse_protected vmid ▸ λ _.
    ask (λ calls. cloud.disk calls vmid) ▸ λ volume. perform cloud (write_disk vmid volume content)

-- The rules from the last to the first, with their numbers.
unfoldable pub post_rules : Cloud → ℕ → ℕ → List Text → Proc Unit
post_rules cloud vmid i [] = done
post_rules cloud vmid i (rule ∷ rules) =
    post_rules cloud vmid (suc i) rules ▸ λ _. perform cloud (post_egress vmid i rule)

-- Whether the numbers that were read back are those from `i` on, one for each rule.
unfoldable pub in_order : ℕ → List Text → List ℕ → Bool
in_order i [] [] = true
in_order i (rule ∷ rules) (n ∷ ns) = n == i && in_order (suc i) rules ns
in_order i _ _ = false

-- enable_vm_firewall
abbrev pub write_egress : Cloud → ℕ → Option (List Text) → Proc Unit
write_egress cloud vmid none = done
write_egress cloud vmid (some rules) = post_rules cloud vmid 0 rules ▸ λ _.
    ask (λ calls. require (in_order 0 rules (cloud.egress calls vmid)))

unfoldable pub enable_vm_firewall : Cloud → ℕ → Option (List Text) → Proc Unit
enable_vm_firewall cloud vmid rules = refuse_protected vmid ▸ λ _.
    write_egress cloud vmid rules ▸ λ _. perform cloud (put_options vmid)

-- create_session_vnet
unfoldable pub create_session_vnet : Cloud → ℕ → Proc Text
create_session_vnet cloud instance_id = ask (λ calls. session_vnet_name instance_id) ▸ λ vnet.
    perform cloud (post_vnet vnet) ▸ λ _. perform cloud apply_sdn ▸ λ _. ask (λ calls. some vnet)
