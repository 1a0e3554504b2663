-- ===== src/Machines/Guards.antt =====
-- What the procedures of provisioner.py keep, if each call that is aimed at no protected machine
-- keeps it.
use itp2_group6_the_pond.Prelude.{
  ℕ, suc, ◌≡◌, refl, inl, inr, Bool, true, false, Option, none, some, List, [], ◌∷◌, Text, any,
  Bool-cases,
}
use itp2_group6_the_pond.Provisioner.{
  refuses, Call, clone_vm, wait_task, apply_sdn, start_vm, stop_vm, delete_vm, put_options,
  open_console, put_cards, post_egress, post_ingress, write_disk, post_vnet, delete_vnet,
  create_session_vnet, Cloud, Site, Proc, continued, ◌▸◌, done, failed, ask, perform,
  refuse_protected, create_instance, stop_and_delete, destroy_instance, apply_network_rule,
  get_console_ticket, inject, post_rules, write_egress, enable_vm_firewall, rewrite_cards,
  isolate_cards, Launch, inject_if, prepare, with_cleanup, cloned, tried, drop_vnet,
}

-- The machines that a call changes, or copies.
unfoldable pub aims : Call → List ℕ
aims (clone_vm template new) = template ∷ new ∷ []
aims wait_task = []
aims apply_sdn = []
aims (start_vm v) = v ∷ []
aims (stop_vm v) = v ∷ []
aims (delete_vm v) = v ∷ []
aims (put_options v) = v ∷ []
aims (open_console v) = v ∷ []
aims (put_cards v _) = v ∷ []
aims (post_egress v _ _) = v ∷ []
aims (post_ingress v _ _) = v ∷ []
aims (write_disk v _ _) = v ∷ []
aims (post_vnet _) = []
aims (delete_vnet _) = []

module _ (cloud : Cloud) (P : Site → Type 0)
    (performs : (c : Call)
      → any refuses (aims c) ≡ false
      → (s : Site) → P s
      → P (perform cloud c s).0) where
  -- A procedure keeps the property.
  unfoldable pub Keeps : {A : Type 0} → Proc A → Type 0
  Keeps p = (s : Site) → P s → P (p s).0

  continued-Keeps :
      {A B : Type 0} (x : Site × Option A) (k : A → Proc B)
      → P x.0
      → ((a : A) → Keeps (k a))
      → P (continued x k).0
  unfolding Keeps
  continued-Keeps (s, none) k h next = h
  continued-Keeps (s, some a) k h next = next a s h

  pub then-Keeps :
      {A B : Type 0} (p : Proc A) (k : A → Proc B)
      → Keeps p
      → ((a : A) → Keeps (k a))
      → Keeps (p ▸ k)
  unfolding Keeps
  then-Keeps p k first next s h = continued-Keeps (p s) k (first s h) next

  pub refuse-Keeps :
      {B : Type 0} (vmid : ℕ) (k : Unit → Proc B)
      → (refuses vmid ≡ false → Keeps (k tt))
      → Keeps (refuse_protected vmid ▸ k)
  unfolding Keeps refuse_protected
  refuse-Keeps vmid k next s h = elim (Bool-cases (refuses vmid)) [
    | inl guarded ↦ rw guarded h
    | inr allowed ↦ rw allowed (next allowed s h)
  ]

  pub ask-Keeps : {A : Type 0} (question : List Call → Option A) → Keeps (ask question)
  unfolding Keeps ask
  ask-Keeps question s h = h

  pub done-Keeps : Keeps done
  unfolding Keeps
  done-Keeps s h = h

  failed-Keeps : Keeps failed
  unfolding Keeps
  failed-Keeps s h = h

  pub perform-Keeps : (c : Call) → any refuses (aims c) ≡ false → Keeps (perform cloud c)
  unfolding Keeps
  perform-Keeps c safe s h = performs c safe s h

  any_one : (v : ℕ) → refuses v ≡ false → any refuses (v ∷ []) ≡ false
  unfolding any
  any_one v h = rw h refl

  pub at-Keeps : (c : Call) (v : ℕ) → aims c ≡ v ∷ [] → refuses v ≡ false → Keeps (perform cloud c)
  at-Keeps c v one h = perform-Keeps c (rw one (any_one v h))

  pub create_instance-Keeps :
      (template : Text) (vmid : ℕ) → Keeps (create_instance cloud template vmid)
  unfolding create_instance aims any
  create_instance-Keeps template vmid = refuse-Keeps vmid _ (λ safe.
      then-Keeps _ _ (ask-Keeps _) (λ t. refuse-Keeps t _ (λ safe_t.
        then-Keeps _ _ (perform-Keeps (clone_vm t vmid) (rw (safe_t, safe) refl)) (λ _.
          then-Keeps _ _ (perform-Keeps wait_task refl)
            (λ _. at-Keeps (start_vm vmid) vmid refl safe)))))

  stop_and_delete-Keeps :
      (vmid : ℕ) (there : Bool) → refuses vmid ≡ false → Keeps (stop_and_delete cloud vmid there)
  unfolding aims any
  stop_and_delete-Keeps vmid false safe = done-Keeps
  stop_and_delete-Keeps vmid true safe =
      then-Keeps _ _ (at-Keeps (stop_vm vmid) vmid refl safe) (λ _.
        then-Keeps _ _ (perform-Keeps wait_task refl)
          (λ _. at-Keeps (delete_vm vmid) vmid refl safe))

  pub destroy_instance-Keeps : (vmid : ℕ) → Keeps (destroy_instance cloud vmid)
  unfolding destroy_instance
  destroy_instance-Keeps vmid =
      refuse-Keeps vmid _
        (λ safe. then-Keeps _ _ (ask-Keeps _) (λ there. stop_and_delete-Keeps vmid there safe))

  pub apply_network_rule-Keeps :
      (vmid : ℕ) (source : Text) (port : ℕ) → Keeps (apply_network_rule cloud vmid source port)
  unfolding apply_network_rule aims
  apply_network_rule-Keeps vmid source port =
      refuse-Keeps vmid _ (λ safe. at-Keeps (post_ingress vmid source port) vmid refl safe)

  pub get_console_ticket-Keeps : (vmid : ℕ) → Keeps (get_console_ticket cloud vmid)
  unfolding get_console_ticket aims
  get_console_ticket-Keeps vmid =
      refuse-Keeps vmid _ (λ safe. at-Keeps (open_console vmid) vmid refl safe)

  pub inject-Keeps : (vmid : ℕ) (content : Text) → Keeps (inject cloud vmid content)
  unfolding inject aims
  inject-Keeps vmid content = refuse-Keeps vmid _ (λ safe. refuse-Keeps vmid _ (λ _.
      then-Keeps _ _ (ask-Keeps _)
        (λ volume. at-Keeps (write_disk vmid volume content) vmid refl safe)))

  post_rules-Keeps :
      (vmid i : ℕ) (rules : List Text)
      → refuses vmid ≡ false
      → Keeps (post_rules cloud vmid i rules)
  unfolding post_rules aims
  post_rules-Keeps vmid i [] safe = done-Keeps
  post_rules-Keeps vmid i (rule ∷ rules) safe =
      then-Keeps _ _ (post_rules-Keeps vmid (suc i) rules safe)
        (λ _. at-Keeps (post_egress vmid i rule) vmid refl safe)

  write_egress-Keeps :
      (vmid : ℕ) (rules : Option (List Text))
      → refuses vmid ≡ false
      → Keeps (write_egress cloud vmid rules)
  write_egress-Keeps vmid none safe = done-Keeps
  write_egress-Keeps vmid (some rules) safe =
      then-Keeps _ _ (post_rules-Keeps vmid 0 rules safe) (λ _. ask-Keeps _)

  pub enable_vm_firewall-Keeps :
      (vmid : ℕ) (rules : Option (List Text)) → Keeps (enable_vm_firewall cloud vmid rules)
  unfolding enable_vm_firewall aims
  enable_vm_firewall-Keeps vmid rules = refuse-Keeps vmid _ (λ safe.
      then-Keeps _ _ (write_egress-Keeps vmid rules safe)
        (λ _. at-Keeps (put_options vmid) vmid refl safe))

  rewrite_cards-Keeps :
      (vmid : ℕ) (vnet : Option Text) (cards : List (Text × Text))
      → refuses vmid ≡ false
      → Keeps (rewrite_cards cloud vmid vnet cards)
  unfolding aims
  rewrite_cards-Keeps vmid vnet [] safe = failed-Keeps
  rewrite_cards-Keeps vmid vnet (n ∷ ns) safe =
      then-Keeps _ _ (at-Keeps (put_cards vmid _) vmid refl safe) (λ _. ask-Keeps _)

  pub isolate_cards-Keeps :
      (vmid : ℕ) (vnet : Option Text) → refuses vmid ≡ false → Keeps (isolate_cards cloud vmid vnet)
  unfolding isolate_cards
  isolate_cards-Keeps vmid vnet safe =
      then-Keeps _ _ (ask-Keeps _) (λ cards. rewrite_cards-Keeps vmid vnet cards safe)

  inject_if-Keeps : (vmid : ℕ) (content : Option Text) → Keeps (inject_if cloud vmid content)
  inject_if-Keeps vmid none = done-Keeps
  inject_if-Keeps vmid (some content) = inject-Keeps vmid content

  prepare-Keeps :
      (launch : Launch) (vmid : ℕ) → refuses vmid ≡ false → Keeps (prepare cloud launch vmid)
  unfolding prepare aims any
  prepare-Keeps launch vmid safe = then-Keeps _ _ (perform-Keeps wait_task refl) (λ _.
      then-Keeps _ _ (inject_if-Keeps vmid launch.network) (λ _.
        then-Keeps _ _ (inject_if-Keeps vmid launch.firstboot) (λ _.
          then-Keeps _ _ (isolate_cards-Keeps vmid launch.vnet safe) (λ _.
            then-Keeps _ _ (enable_vm_firewall-Keeps vmid launch.egress_rules)
              (λ _. at-Keeps (start_vm vmid) vmid refl safe)))))

  with_cleanup-Keeps : (vmid : ℕ) (x : Site × Option Unit) → P x.0 → P (with_cleanup cloud vmid x).0
  unfolding Keeps
  with_cleanup-Keeps vmid (s, some _) h = h
  with_cleanup-Keeps vmid (s, none) h = destroy_instance-Keeps vmid s h

  cloned-Keeps :
      (launch : Launch) (vmid : ℕ) (x : Site × Option Unit)
      → refuses vmid ≡ false
      → P x.0
      → P (cloned cloud launch vmid x).0
  unfolding Keeps
  cloned-Keeps launch vmid (s, none) safe h = h
  cloned-Keeps launch vmid (s, some _) safe h =
      with_cleanup-Keeps vmid (prepare cloud launch vmid s) (prepare-Keeps launch vmid safe s h)

  pub tried-Keeps :
      (launch : Launch) (vmid : ℕ)
      → refuses launch.template_vmid ≡ false
      → Keeps (tried cloud launch vmid)
  unfolding Keeps tried refuse_protected aims any
  tried-Keeps launch vmid template s h = elim (Bool-cases (refuses vmid)) [
    | inl guarded ↦ rw guarded h
    | inr safe ↦
        let asked = perform cloud (clone_vm launch.template_vmid vmid) s in
        rw safe (
          cloned-Keeps launch vmid asked safe
            (perform-Keeps (clone_vm launch.template_vmid vmid) (rw (template, safe) refl) s h))
  ]

  pub drop_vnet-Keeps : (vnet : Option Text) → Keeps (drop_vnet cloud vnet)
  unfolding aims any
  drop_vnet-Keeps none = done-Keeps
  drop_vnet-Keeps (some vnet) =
      then-Keeps _ _ (perform-Keeps (delete_vnet vnet) refl) (λ _. perform-Keeps apply_sdn refl)

  pub create_session_vnet-Keeps : (instance_id : ℕ) → Keeps (create_session_vnet cloud instance_id)
  unfolding create_session_vnet aims any
  create_session_vnet-Keeps instance_id = then-Keeps _ _ (ask-Keeps _) (λ vnet.
      then-Keeps _ _ (perform-Keeps (post_vnet vnet) refl)
        (λ _. then-Keeps _ _ (perform-Keeps apply_sdn refl) (λ _. ask-Keeps _)))
