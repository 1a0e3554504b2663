-- ===== src/Attempts/Frames.antt =====
-- What the steps of a launch and of a close keep, if each operation of the adapter and of the Docker
-- service keeps it.
use itp2_group6_the_pond.Prelude.{
  ℕ, inl, inr, Bool, true, false, Option, none, some, List, [], ◌∷◌, ◌++◌, Text, if◌then◌else◌,
  Bool-cases, Option-cases,
}
use itp2_group6_the_pond.Provisioner.{Site, Launch, VmInstance}
use itp2_group6_the_pond.Proxmox.{Cache, guarded_clone, guarded_destroy, guarded_drop, guarded_rule}
use itp2_group6_the_pond.Sessions.{
  World, Env, Lab, PublishedChallenge, Assignment, NetworkRule, Cloned, on_site, note_clone,
  clone_one, clone_all, clone_arguments, start_docker, stop_docker, put_lab, is_lab, rule_target,
  apply_one, apply_rules, rules_if, after_clones, bring_up, destroy_all, drop_network, mark_error,
  note_destroyed, close_machine, close_machines, vnet_for,
}

-- The world after a clone.
abbrev pub after_clone : World → Site × Cache × Option ℕ → World
after_clone w x = record w { site = x.0; cache = x.1 }

module _ (env : Env) (P : World → Type 0)
    (clones : (launch : Launch) (id : ℕ) (w : World)
      → P w
      → P (after_clone w (guarded_clone env.access env.visible launch id env.now w.cache w.site)))
    (destroys : (vmid : ℕ) (vnet : Option Text) (w : World)
      → P w
      → P (on_site (guarded_destroy env.access vmid vnet env.now w.site).0 w))
    (drops : (vnet : Text) (w : World)
      → P w
      → P (on_site (guarded_drop env.access vnet w.site).0 w))
    (rules : (vmid : ℕ) (ip : Text) (port : ℕ) (w : World)
      → P w
      → P (on_site (guarded_rule env.access vmid ip port w.site).0 w))
    (labs : (id : ℕ) (lab : Lab) (w : World) → P w → P (put_lab id lab w))
    (marks : (vm : VmInstance) (w : World) → P w → P (on_site (mark_error vm w.site) w)) where
  note_clone_keeps :
      (a : Assignment) (w : World) (x : Site × Cache × Option ℕ)
      → P (after_clone w x)
      → P (note_clone a w x).0
  note_clone_keeps a w (s, cache, none) h = h
  note_clone_keeps a w (s, cache, some key) h = h

  clone_one_keeps :
      (challenge : PublishedChallenge) (id : ℕ) (username : Text) (vnet : Option Text)
      (egress : Option (List Text)) (a : Assignment) (w : World)
      → P w
      → P (clone_one env challenge id username vnet egress a w).0
  unfolding clone_one
  clone_one_keeps challenge id username vnet egress a w h =
      note_clone_keeps a w _ (
        clones (clone_arguments env challenge id username vnet egress a) (env.fresh_key w.site) w h)

  clone_all_keeps :
      (one : Assignment → World → World × Option Cloned)
      → ((a : Assignment) (w : World) → P w → P (one a w).0)
      → (assignments : List Assignment) (made : List Cloned) (w : World) → P w
      → P (clone_all one assignments made w).0
  unfolding clone_all
  clone_all_keeps one keeps [] made w h = h
  clone_all_keeps one keeps (a ∷ rest) made w h = elim (Option-cases (one a w).1) [
    | inl failed ↦ rw (clone_all, failed) (keeps a w h)
    | inr (c, cloned) ↦
        rw (clone_all, cloned)
          (clone_all_keeps one keeps rest (made ++ (c ∷ [])) (one a w).0 (keeps a w h))
  ]

  start_docker_keeps : (id : ℕ) (w : World) → P w → P (start_docker env id w).0
  unfolding start_docker
  start_docker_keeps id w h = labs id _ w h

  pub stop_docker_keeps : (id : ℕ) (w : World) → P w → P (stop_docker env id w)
  unfolding stop_docker
  stop_docker_keeps id w h = labs id _ w h

  apply_one_keeps :
      (made : List Cloned) (rule : NetworkRule) (w : World) → P w → P (apply_one env made rule w).0
  unfolding apply_one
  apply_one_keeps made rule w h = elim (Option-cases (rule_target rule made)) [
    | inl passed ↦ rw (apply_one, passed) h
    | inr ((vmid, ip), found) ↦ rw (apply_one, found) (rules vmid ip rule.port w h)
  ]

  apply_rules_keeps :
      (made : List Cloned) (list : List NetworkRule) (w : World)
      → P w
      → P (apply_rules env made list w).0
  unfolding apply_rules
  apply_rules_keeps made [] w h = h
  apply_rules_keeps made (rule ∷ list) w h =
      let kept = apply_one_keeps made rule w h in
      elim (Bool-cases (apply_one env made rule w).1) [
        | inl ok ↦
            rw (apply_rules, ok) (apply_rules_keeps made list (apply_one env made rule w).0 kept)
        | inr stopped ↦ rw (apply_rules, stopped) kept
      ]

  if_either : (b : Bool) (x y : World × Bool) → P x.0 → P y.0 → P (if b then x else y).0
  if_either true x y hx hy = hx
  if_either false x y hx hy = hy

  rules_if_keeps :
      (challenge_id : ℕ) (made : List Cloned) (x : World × Bool)
      → P x.0
      → P (rules_if env challenge_id made x).0
  rules_if_keeps challenge_id made (w, false) h = h
  rules_if_keeps challenge_id made (w, true) h =
      if_either _ _ (w, true) (apply_rules_keeps made _ w h) h

  after_clones_keeps :
      (challenge : PublishedChallenge) (id : ℕ) (x : World × List Cloned × Bool)
      → P x.0
      → P (after_clones env challenge id x).0
  after_clones_keeps challenge id (w, made, false) h = h
  after_clones_keeps challenge id (w, made, true) h =
      rules_if_keeps challenge.challenge_id made _
        (if_either (is_lab challenge.execution_type) _ (w, true) (start_docker_keeps id w h) h)

  pub bring_up_keeps :
      (challenge : PublishedChallenge) (id : ℕ) (username : Text) (vnet : Option Text)
      (egress : Option (List Text)) (assignments : List Assignment) (w : World)
      → P w
      → P (bring_up env challenge id username vnet egress assignments w).0
  unfolding bring_up
  bring_up_keeps challenge id username vnet egress assignments w h =
      after_clones_keeps challenge id _
        (clone_all_keeps _ (clone_one_keeps challenge id username vnet egress) assignments [] w h)

  destroy_all_keeps : (made : List Cloned) (w : World) → P w → P (destroy_all env made w)
  unfolding destroy_all
  destroy_all_keeps [] w h = h
  destroy_all_keeps (c ∷ made) w h = destroy_all_keeps made _ (destroys c.vmid none w h)

  drop_network_keeps : (vnet : Option Text) (w : World) → P w → P (drop_network env vnet w)
  drop_network_keeps none w h = h
  drop_network_keeps (some vnet) w h = drops vnet w h

  -- The except block of a launch, up to the row of its attempt.
  pub undo_keeps :
      (id : ℕ) (vnet : Option Text) (made : List Cloned) (w : World)
      → P w
      → P (drop_network env vnet (destroy_all env made (stop_docker env id w)))
  undo_keeps id vnet made w h =
      drop_network_keeps vnet _ (destroy_all_keeps made _ (stop_docker_keeps id w h))

  note_destroyed_keeps :
      (vm : VmInstance) (w : World) (x : Site × Option Unit)
      → P (on_site x.0 w)
      → P (note_destroyed env vm w x).0
  note_destroyed_keeps vm w (s, some _) h = h
  note_destroyed_keeps vm w (s, none) h =
      if_either (env.is_proxmox_error s) _ (on_site s w, false) (marks vm (on_site s w) h) h

  close_machine_keeps :
      (vnet : Option Text) (vm : VmInstance) (w : World) → P w → P (close_machine env vnet vm w).0
  unfolding close_machine
  close_machine_keeps vnet vm w h =
      if_either _ (w, true) _ h (note_destroyed_keeps vm w _ (destroys vm.proxmox_vmid vnet w h))

  pub close_machines_keeps :
      (vnet : Option Text) (vms : List VmInstance) (w : World)
      → P w
      → P (close_machines env vnet vms w).0
  unfolding close_machines
  close_machines_keeps vnet [] w h = h
  close_machines_keeps vnet (vm ∷ vms) w h =
      let kept = close_machine_keeps (vnet_for vnet vms) vm w h in
      elim (Bool-cases (close_machine env (vnet_for vnet vms) vm w).1) [
        | inl go_on ↦ rw (close_machines, go_on) (close_machines_keeps vnet vms _ kept)
        | inr stopped ↦ rw (close_machines, stopped) kept
      ]
