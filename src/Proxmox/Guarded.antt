-- ===== src/Proxmox/Guarded.antt =====
-- The operations of proxmox.py, each behind its checks, with check_isolation_preconditions of
-- provisioner.py.
use itp2_group6_the_pond.Prelude.{
  ℕ, Bool, true, false, ◌&&◌, ◌||◌, not, Option, none, some, List, [], ◌∷◌, Text, codes, Text_eq,
  ◌==◌, ℕ_eq, find?, if◌then◌else◌,
}
use itp2_group6_the_pond.Strings.{is_blank}
use itp2_group6_the_pond.Provisioner.{
  is_in, Call, Cloud, Site, Proc, ◌▸◌, ask, require, Launch, is_given, clone_and_start,
  stop_and_destroy, create_session_vnet, drop_vnet, apply_network_rule, get_console_ticket,
}
use itp2_group6_the_pond.Proxmox.Settings.{ProxmoxConfig, read_protected, settings_problems}
use itp2_group6_the_pond.Proxmox.Privileges.{Cache, Replies, check_token_privileges}

-- What the adapter works with: its settings, the hypervisor, and the hypervisor's answers after
-- the calls that were made. `zones` are the networks' zones with their types, the last one of a
-- name first; `firewall` is the datacenter's option; `none` is a question that raises.
pub record Access : Type 0 where
  pub config : ProxmoxConfig
  pub is_file : Text → Bool
  pub cloud : Cloud
  pub replies : List Call → Replies
  pub zones : List Call → Option (List (Text × Text))
  pub firewall : List Call → Option ℕ
  -- The status of a machine that exists.
  pub status : List Call → ℕ → Option Text

-- zones.get(zone, {}).get("type") == "simple"
unfoldable pub is_simple : Text → List (Text × Text) → Bool
is_simple zone zones = elim (find? (λ (z : Text × Text). z.0 == zone) zones) [
  | none ↦ false
  | some (name, kind) ↦ kind == codes "simple"
]

-- check_isolation_preconditions
unfoldable pub check_isolation : Access → Proc Unit
check_isolation access = ask access.zones ▸ λ zones.
    ask (λ calls. require (is_simple access.config.sdn_zone zones)) ▸ λ _.
    ask access.firewall ▸ λ enable. ask (λ calls. require (not (enable == 0)))

-- _refuse_protected of the adapter: the list of the settings; a bad list raises too.
unfoldable pub refuse_listed : ProxmoxConfig → ℕ → Proc Unit
refuse_listed cfg vmid = ask (λ calls. read_protected cfg.protected) ▸ λ protected.
    ask (λ calls. require (not (is_in vmid protected)))

abbrev pub is_none : {A : Type 0} → List A → Bool
is_none [] = true
is_none (x ∷ xs) = false

-- _client
unfoldable pub connect : Access → Proc Unit
connect access = ask (λ calls. require (is_none (settings_problems access.is_file access.config)))

-- What is in front of a clone, up to the check of the token: `cache` is that of the passed checks,
-- `now` the time.
unfoldable pub check_launch : Access → (template now : ℕ) → Cache → Proc Cache
check_launch access template now cache = refuse_listed access.config template ▸ λ _.
    connect access ▸ λ _.
    ask (λ calls. check_token_privileges access.config (access.replies calls) now cache)

-- node or cfg["PROXMOX_NODE"], and the host where something is written into the disk
unfoldable pub at_host : ProxmoxConfig → Launch → Launch
at_host cfg launch = record launch {
  node = if is_blank launch.node then cfg.node else launch.node;
  can_write = (is_given launch.network || is_given launch.firstboot) && not (is_blank cfg.host);
}

abbrev pub clone_checked :
    Access → List ℕ → Launch → (id now : ℕ) → Cache → Site × Option Cache → Site × Cache × Option ℕ
clone_checked access visible launch id now cache (s, none) = (s, cache, none)
clone_checked access visible launch id now cache (s, some passed) =
    let (s', key) =
      (check_isolation access ▸ λ _.
      clone_and_start access.cloud visible (at_host access.config launch) id now)
        s in
    (s', passed, key)

-- clone_and_start, with the cache afterwards
unfoldable pub guarded_clone :
    Access → List ℕ → Launch → (id now : ℕ) → Cache → Site → Site × Cache × Option ℕ
guarded_clone access visible launch id now cache s =
    clone_checked access visible launch id now cache
      (check_launch access launch.template_vmid now cache s)

-- stop_and_destroy
unfoldable pub guarded_destroy : Access → ℕ → Option Text → ℕ → Proc Unit
guarded_destroy access vmid vnet now = refuse_listed access.config vmid ▸ λ _.
    connect access ▸ λ _. stop_and_destroy access.cloud vmid vnet now

-- create_session_vnet and destroy_session_vnet
unfoldable pub guarded_vnet : Access → ℕ → Proc Text
guarded_vnet access instance_id = connect access ▸ λ _. create_session_vnet access.cloud instance_id

unfoldable pub guarded_drop : Access → Text → Proc Unit
guarded_drop access vnet = connect access ▸ λ _. drop_vnet access.cloud (some vnet)

-- apply_network_rule and get_console_ticket
unfoldable pub guarded_rule : Access → ℕ → Text → ℕ → Proc Unit
guarded_rule access vmid source port = refuse_listed access.config vmid ▸ λ _.
    connect access ▸ λ _. apply_network_rule access.cloud vmid source port

unfoldable pub guarded_ticket : Access → ℕ → Proc Unit
guarded_ticket access vmid = refuse_listed access.config vmid ▸ λ _.
    connect access ▸ λ _. get_console_ticket access.cloud vmid

abbrev pub running_if : Access → ℕ → Bool → Proc Bool
running_if access vmid false = ask (λ calls. some false)
running_if access vmid true = ask (λ calls. access.status calls vmid) ▸ λ status.
    ask (λ calls. some (status == codes "running"))

-- vm_running: the exceptions of its questions become ProxmoxError.
unfoldable pub vm_running : Access → ℕ → Proc Bool
vm_running access vmid = refuse_listed access.config vmid ▸ λ _. connect access ▸ λ _.
    ask (λ calls. access.cloud.exists calls vmid) ▸ λ there. running_if access vmid there
