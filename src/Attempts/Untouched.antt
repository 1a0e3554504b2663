-- ===== src/Attempts/Untouched.antt =====
-- No sequence of requests and runs of the reaper in themes.py makes a call that changes a machine
-- that provisioner.py protects.
use itp2_group6_the_pond.Prelude.{
  ℕ, inl, inr, Bool, true, false, ◌||◌, Option, none, some, List, Text, Bool-cases, Option-cases,
  ◌==◌, ℕ_eq, find?, if◌then◌else◌,
}
use itp2_group6_the_pond.Provisioner.{Site, VmInstance}
use itp2_group6_the_pond.Proxmox.{guarded_vnet}
use itp2_group6_the_pond.Machines.Protected.{IsSafe}
use itp2_group6_the_pond.Sessions.{
  SessionStatus, Instance, World, Env, has_instance, set_instance, PublishedChallenge, Assignment,
  Cloned, LaunchAnswer, missing, conclude, tear_down, log_launch, bring_up, with_network,
  launch_machines, launch_new, launch_unless, launch_beside, launch, is_lab, is_lone_workstation,
  is_offline, stop_docker, end_session, machines_of, close_instance, active_instance,
  close_machines,
}
use itp2_group6_the_pond.Attempts.Frames.{bring_up_keeps, undo_keeps, close_machines_keeps}
use itp2_group6_the_pond.Attempts.Protected.{
  Safe, guarded_clone-Safe, guarded_destroy-Safe, guarded_vnet-Safe, guarded_drop-Safe,
  guarded_rule-Safe,
}
use itp2_group6_the_pond.Attempts.Steps.{Steps, Step_kept, Steps_kept}

-- The calls so far change no machine of PROTECTED_VMIDS.
abbrev pub IsUntouched : World → Type 0
IsUntouched w = IsSafe w.site

module _ (env : Env) where
  bring_up-IsUntouched :
      (challenge : PublishedChallenge) (id : ℕ) (username : Text) (vnet : Option Text)
      (egress : Option (List Text)) (assignments : List Assignment) (w : World)
      → IsUntouched w
      → IsUntouched (bring_up env challenge id username vnet egress assignments w).0
  unfolding Safe set_instance
  bring_up-IsUntouched =
      bring_up_keeps env IsUntouched
        (λ l i w h. guarded_clone-Safe env.access env.visible l i env.now w.cache w.site h)
        (λ v n w h. guarded_destroy-Safe env.access v n env.now w.site h)
        (λ v w h. guarded_drop-Safe env.access v w.site h)
        (λ v i p w h. guarded_rule-Safe env.access v i p w.site h) (λ i l w h. h) (λ vm w h. h)

  undo-IsUntouched :
      (id : ℕ) (vnet : Option Text) (made : List Cloned) (w : World)
      → IsUntouched w
      → IsUntouched (tear_down env id vnet made w)
  unfolding Safe set_instance tear_down
  undo-IsUntouched =
      undo_keeps env IsUntouched
        (λ l i w h. guarded_clone-Safe env.access env.visible l i env.now w.cache w.site h)
        (λ v n w h. guarded_destroy-Safe env.access v n env.now w.site h)
        (λ v w h. guarded_drop-Safe env.access v w.site h)
        (λ v i p w h. guarded_rule-Safe env.access v i p w.site h) (λ i l w h. h) (λ vm w h. h)

  stop_docker-IsUntouched :
      (id : ℕ) (w : World) → IsUntouched w → IsUntouched (stop_docker env id w)
  unfolding stop_docker set_instance
  stop_docker-IsUntouched id w h = h

  close_machines-IsUntouched :
      (vnet : Option Text) (vms : List VmInstance) (w : World)
      → IsUntouched w
      → IsUntouched (close_machines env vnet vms w).0
  unfolding Safe set_instance
  close_machines-IsUntouched =
      close_machines_keeps env IsUntouched
        (λ l i w h. guarded_clone-Safe env.access env.visible l i env.now w.cache w.site h)
        (λ v n w h. guarded_destroy-Safe env.access v n env.now w.site h)
        (λ v w h. guarded_drop-Safe env.access v w.site h)
        (λ v i p w h. guarded_rule-Safe env.access v i p w.site h) (λ i l w h. h) (λ vm w h. h)

  conclude-IsUntouched :
      (id user_id : ℕ) (username : Text) (vnet : Option Text) (x : World × List Cloned × Bool)
      → IsUntouched x.0
      → IsUntouched (conclude env id user_id username vnet x).0
  unfolding log_launch set_instance
  conclude-IsUntouched id user_id username vnet (w, made, false) h =
      undo-IsUntouched id vnet made w h
  conclude-IsUntouched id user_id username vnet (w, made, true) h = h

  with_network-IsUntouched :
      (challenge : PublishedChallenge) (id user_id : ℕ) (username : Text)
      (assignments : List Assignment) (w : World) (x : Site × Option Text)
      → IsSafe x.0
      → IsUntouched (with_network env challenge id user_id username assignments w x).0
  unfolding set_instance
  with_network-IsUntouched challenge id user_id username assignments w (s, none) h = h
  with_network-IsUntouched challenge id user_id username assignments w (s, some vnet) h =
      conclude-IsUntouched id user_id username (some vnet) _
        (bring_up-IsUntouched challenge id username (some vnet) none assignments _ h)

  launch_machines-IsUntouched :
      (challenge : PublishedChallenge) (id user_id : ℕ) (username : Text)
      (assignments : List Assignment) (w : World)
      → IsUntouched w
      → IsUntouched (launch_machines env challenge id user_id username assignments w).0
  unfolding launch_machines Safe
  launch_machines-IsUntouched challenge id user_id username assignments w h =
      elim (Bool-cases (is_lab challenge.execution_type || is_lone_workstation env assignments)) [
        | inl workstation ↦
            rw (launch_machines, workstation)
              (conclude-IsUntouched id user_id username none _
                (bring_up-IsUntouched challenge id username none _ assignments w h))
        | inr session ↦
            rw (launch_machines, session)
              (with_network-IsUntouched challenge id user_id username assignments w
                (guarded_vnet env.access id w.site) (guarded_vnet-Safe env.access id w.site h))
      ]

  launch_new-IsUntouched :
      (challenge : PublishedChallenge) (id user_id : ℕ) (username : Text)
      (assignments : List Assignment) (w : World)
      → IsUntouched w
      → IsUntouched (launch_new env challenge id user_id username assignments w).0
  unfolding launch_new log_launch set_instance
  launch_new-IsUntouched challenge id user_id username assignments w h =
      elim (Bool-cases (is_offline challenge.execution_type)) [
        | inl off ↦ rw (launch_new, off) h
        | inr machines ↦
            rw (launch_new, machines)
              (launch_machines-IsUntouched challenge id user_id username assignments _ h)
      ]

  launch_unless-IsUntouched :
      (challenge : PublishedChallenge) (id user_id : ℕ) (username : Text)
      (assignments : List Assignment) (w : World) (refused : Option LaunchAnswer)
      → IsUntouched w
      → IsUntouched (launch_unless env challenge id user_id username assignments w refused).0
  launch_unless-IsUntouched challenge id user_id username assignments w (some answer) h = h
  launch_unless-IsUntouched challenge id user_id username assignments w none h =
      launch_new-IsUntouched challenge id user_id username assignments w h

  launch_beside-IsUntouched :
      (challenge : PublishedChallenge) (id user_id : ℕ) (username : Text) (w : World)
      (existing : Option Instance)
      → IsUntouched w
      → IsUntouched (launch_beside env challenge id user_id username w existing).0
  launch_beside-IsUntouched challenge id user_id username w (some i) h = h
  launch_beside-IsUntouched challenge id user_id username w none h =
      launch_unless-IsUntouched challenge id user_id username _ w _ h

  published-IsUntouched :
      (challenge : PublishedChallenge) (id user_id : ℕ) (username : Text) (w : World) (shown : Bool)
      → IsUntouched w
      → IsUntouched
          (if shown
            then launch_beside env challenge id user_id username w (active_instance user_id w)
            else (w, missing)).0
  published-IsUntouched challenge id user_id username w true h =
      launch_beside-IsUntouched challenge id user_id username w (active_instance user_id w) h
  published-IsUntouched challenge id user_id username w false h = h

  launch-IsUntouched :
      (id user_id : ℕ) (username : Text) (challenge_id : ℕ) (w : World)
      → IsUntouched w
      → IsUntouched (launch env id user_id username challenge_id w).0
  unfolding launch
  launch-IsUntouched id user_id username challenge_id w h =
      elim (Option-cases (
        find? (λ (c : PublishedChallenge). c.challenge_id == challenge_id)
          env.catalogue.challenges)) [
            | inl absent ↦ rw (launch, absent) h
            | inr (challenge, found) ↦
                rw (launch, found)
                  (published-IsUntouched challenge id user_id username w challenge.is_published h)
          ]

  close_instance-IsUntouched :
      (id : ℕ) (status : SessionStatus) (w : World)
      → IsUntouched w
      → IsUntouched (close_instance env id status w).0
  unfolding close_instance end_session set_instance
  close_instance-IsUntouched id status w h =
      elim (Option-cases (find? (has_instance id) w.instances)) [
        | inl absent ↦ rw (close_instance, absent) h
        | inr (i, found) ↦ elim (Option-cases i.started_at) [
          | inl unstarted ↦ rw (close_instance, found, unstarted) h
          | inr (t, begun) ↦
              rw (close_instance, found, begun)
                (close_machines-IsUntouched i.network_identifier (machines_of i.instance_id w) _
                  (stop_docker-IsUntouched i.instance_id _ h))
        ]
      ]

-- However requests and runs of the reaper follow each other, no call that they make changes or
-- copies one of the seven machines that provisioner.py protects, if none did before: also where the
-- tables name one of them, and whatever further list of protected machines the settings have.
pub Steps-IsUntouched : (w w' : World) → Steps w w' → IsUntouched w → IsUntouched w'
Steps-IsUntouched = Steps_kept IsUntouched (
    Step_kept IsUntouched
      (λ env id user_id username challenge_id w fresh h.
        launch-IsUntouched env id user_id username challenge_id w h)
      (λ env id status w over h. close_instance-IsUntouched env id status w h)
      (λ env id w h. stop_docker-IsUntouched env id w h) (λ log w h. h))
