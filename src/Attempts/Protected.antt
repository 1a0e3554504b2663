-- ===== src/Attempts/Protected.antt =====
-- No launch, close or run of the reaper in themes.py makes a call that changes a machine that
-- provisioner.py protects.
use itp2_group6_the_pond.Prelude.{ℕ, Option, none, some, List, Text}
use itp2_group6_the_pond.Provisioner.{
  Site, Launch, Proc, Call, ask, ◌▸◌, clone_and_start, stop_and_destroy, create_session_vnet,
  drop_vnet, apply_network_rule,
}
use itp2_group6_the_pond.Machines.Guards.{
  Keeps, then-Keeps, ask-Keeps, drop_vnet-Keeps, create_session_vnet-Keeps,
  apply_network_rule-Keeps,
}
use itp2_group6_the_pond.Machines.Protected.{
  IsSafe, perform-IsSafe, clone_and_start-IsSafe, stop_and_destroy-IsSafe,
}
use itp2_group6_the_pond.Proxmox.{
  ProxmoxConfig, Access, Cache, refuse_listed, connect, check_isolation, check_launch,
  clone_checked, at_host, guarded_clone, guarded_destroy, guarded_vnet, guarded_drop, guarded_rule,
}

-- A procedure makes no such call.
unfoldable pub Safe : {A : Type 0} → Proc A → Type 0
Safe p = (s : Site) → IsSafe s → IsSafe (p s).0

module _ (access : Access) where
  and_then :
      {A B : Type 0} (p : Proc A) (k : A → Proc B) → Safe p → ((a : A) → Safe (k a)) → Safe (p ▸ k)
  unfolding Keeps Safe
  and_then = then-Keeps access.cloud IsSafe (perform-IsSafe access.cloud)

  asking : {A : Type 0} (question : List Call → Option A) → Safe (ask question)
  unfolding Keeps Safe
  asking = ask-Keeps access.cloud IsSafe (perform-IsSafe access.cloud)

  refuse_listed-Safe : (cfg : ProxmoxConfig) (vmid : ℕ) → Safe (refuse_listed cfg vmid)
  unfolding refuse_listed
  refuse_listed-Safe cfg vmid = and_then _ _ (asking _) (λ protected. asking _)

  connect-Safe : Safe (connect access)
  unfolding connect
  connect-Safe = asking _

  check_isolation-Safe : Safe (check_isolation access)
  unfolding check_isolation
  check_isolation-Safe =
      and_then _ _ (asking _)
        (λ zones. and_then _ _ (asking _) (λ _. and_then _ _ (asking _) (λ enable. asking _)))

  check_launch-Safe :
      (template now : ℕ) (cache : Cache) → Safe (check_launch access template now cache)
  unfolding check_launch
  check_launch-Safe template now cache =
      and_then _ _ (refuse_listed-Safe access.config template)
        (λ _. and_then _ _ connect-Safe (λ _. asking _))

  clone_checked-Safe :
      (visible : List ℕ) (launch : Launch) (id now : ℕ) (cache : Cache) (x : Site × Option Cache)
      → IsSafe x.0
      → IsSafe (clone_checked access visible launch id now cache x).0
  unfolding Safe
  clone_checked-Safe visible launch id now cache (s, none) h = h
  clone_checked-Safe visible launch id now cache (s, some passed) h =
      and_then (check_isolation access)
        (λ _. clone_and_start access.cloud visible (at_host access.config launch) id now)
        check_isolation-Safe
        (λ _. clone_and_start-IsSafe access.cloud visible (at_host access.config launch) id now) s h

  pub guarded_clone-Safe :
      (visible : List ℕ) (launch : Launch) (id now : ℕ) (cache : Cache) (s : Site)
      → IsSafe s
      → IsSafe (guarded_clone access visible launch id now cache s).0
  unfolding guarded_clone Safe
  guarded_clone-Safe visible launch id now cache s h =
      clone_checked-Safe visible launch id now cache _
        (check_launch-Safe launch.template_vmid now cache s h)

  destroy-Safe :
      (vmid : ℕ) (vnet : Option Text) (now : ℕ) → Safe (stop_and_destroy access.cloud vmid vnet now)
  unfolding Safe
  destroy-Safe vmid vnet now = stop_and_destroy-IsSafe access.cloud vmid vnet now

  vnet-Safe : (id : ℕ) → Safe (create_session_vnet access.cloud id)
  unfolding Safe Keeps
  vnet-Safe id = create_session_vnet-Keeps access.cloud IsSafe (perform-IsSafe access.cloud) id

  drop-Safe : (vnet : Option Text) → Safe (drop_vnet access.cloud vnet)
  unfolding Safe Keeps
  drop-Safe vnet = drop_vnet-Keeps access.cloud IsSafe (perform-IsSafe access.cloud) vnet

  rule-Safe :
      (vmid : ℕ) (ip : Text) (port : ℕ) → Safe (apply_network_rule access.cloud vmid ip port)
  unfolding Safe Keeps
  rule-Safe vmid ip port =
      apply_network_rule-Keeps access.cloud IsSafe (perform-IsSafe access.cloud) vmid ip port

  pub guarded_destroy-Safe :
      (vmid : ℕ) (vnet : Option Text) (now : ℕ) → Safe (guarded_destroy access vmid vnet now)
  unfolding guarded_destroy
  guarded_destroy-Safe vmid vnet now =
      and_then _ _ (refuse_listed-Safe access.config vmid)
        (λ _. and_then _ _ connect-Safe (λ _. destroy-Safe vmid vnet now))

  pub guarded_vnet-Safe : (id : ℕ) → Safe (guarded_vnet access id)
  unfolding guarded_vnet
  guarded_vnet-Safe id = and_then _ _ connect-Safe (λ _. vnet-Safe id)

  pub guarded_drop-Safe : (vnet : Text) → Safe (guarded_drop access vnet)
  unfolding guarded_drop
  guarded_drop-Safe vnet = and_then _ _ connect-Safe (λ _. drop-Safe (some vnet))

  pub guarded_rule-Safe :
      (vmid : ℕ) (ip : Text) (port : ℕ) → Safe (guarded_rule access vmid ip port)
  unfolding guarded_rule
  guarded_rule-Safe vmid ip port =
      and_then _ _ (refuse_listed-Safe access.config vmid)
        (λ _. and_then _ _ connect-Safe (λ _. rule-Safe vmid ip port))
