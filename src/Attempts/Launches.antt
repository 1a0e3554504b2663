-- ===== src/Attempts/Launches.antt =====
-- What a launch of themes.py does to the view of the attempts.
use mathlib.Core.Path.{subst}
use itp2_group6_the_pond.Prelude.{
  some-injective, ℕ, ◌≡◌, refl, inl, inr, ap, ◌∙◌, Bool, true, false, Option, none, some, List, [],
  ◌∷◌, ◌++◌, ◌==◌, ℕ_eq, count, find?, update_first, if◌then◌else◌, Bool-cases, ◌||◌, Text,
  Option-cases,
}
use itp2_group6_the_pond.Provisioner.{Site}
use itp2_group6_the_pond.Proxmox.{guarded_vnet}
use itp2_group6_the_pond.Sessions.{
  SessionStatus, provisioning, running_session, abandoned, Instance, World, Env, set_instance,
  on_site, PublishedChallenge, Assignment, Cloned, LaunchAnswer, missing, already_here,
  already_running, lab_unconfigured, no_template, one_workstation_needed, could_not_start, started,
  conclude, tear_down, abandon_row, set_running, log_launch, with_network, launch_machines,
  launch_new, launch_unless, launch_beside, launch, new_instance, is_lab, is_lone_workstation,
  is_offline, refusal, active_instance,
}
use itp2_group6_the_pond.Attempts.View.{
  Seat, seat_of, view, is_seat, seat_status, view-same, view-status, map-snoc, update-last, Shows,
  bring_up-Shows, undo-Shows,
}

-- What a launch by the user under the key does to the view, by its answer.
abbrev pub after_launch : LaunchAnswer → ℕ → ℕ → List Seat → List Seat
after_launch started id user_id seats = seats ++ ((id, user_id, running_session) ∷ [])
after_launch could_not_start id user_id seats = seats ++ ((id, user_id, abandoned) ∷ [])
after_launch missing id user_id seats = seats
after_launch already_here id user_id seats = seats
after_launch already_running id user_id seats = seats
after_launch lab_unconfigured id user_id seats = seats
after_launch no_template id user_id seats = seats
after_launch one_workstation_needed id user_id seats = seats

module _ (env : Env) (id user_id : ℕ) (username : Text) (seats : List Seat)
    (fresh : count (is_seat id) seats ≡ 0) where
  -- The outcome of a launch whose attempt is still provisioning in the world.
  Concluded : World × LaunchAnswer → Type 0
  Concluded (w, answer) = view w ≡ after_launch answer id user_id seats

  Begun : World → Type 0
  Begun = Shows (seats ++ ((id, user_id, provisioning) ∷ []))

  ended_view :
      (status : SessionStatus) (f : Instance → Instance) (w : World)
      → ((i : Instance) → seat_of (f i) ≡ seat_status status (seat_of i))
      → Begun w
      → view (set_instance id f w) ≡ seats ++ ((id, user_id, status) ∷ [])
  unfolding Begun Shows set_instance
  ended_view status f w same h =
      view-status id status f w.instances same
      ∙ (ap (update_first (is_seat id) (seat_status status)) h
          ∙ update-last id user_id status seats fresh)

  conclude-Concluded :
      (vnet : Option Text) (x : World × List Cloned × Bool)
      → Begun x.0
      → Concluded (conclude env id user_id username vnet x)
  unfolding Concluded tear_down log_launch Begun
  conclude-Concluded vnet (w, made, false) h =
      ended_view abandoned (abandon_row env.now) _ (λ i. refl)
        (undo-Shows env (seats ++ ((id, user_id, provisioning) ∷ [])) id vnet made w h)
  conclude-Concluded vnet (w, made, true) h = ended_view running_session set_running w (λ i. refl) h

  with_network-Concluded :
      (challenge : PublishedChallenge) (assignments : List Assignment) (w : World)
      (x : Site × Option Text)
      → Begun w
      → Concluded (with_network env challenge id user_id username assignments w x)
  unfolding Concluded Begun Shows set_instance
  with_network-Concluded challenge assignments w (s, none) h =
      ended_view abandoned (abandon_row env.now) (on_site s w) (λ i. refl) h
  with_network-Concluded challenge assignments w (s, some vnet) h =
      conclude-Concluded (some vnet) _ (
        bring_up-Shows env (seats ++ ((id, user_id, provisioning) ∷ [])) challenge id username
          (some vnet) none assignments _
          (view-same id (λ i. record i { network_identifier = some vnet }) w.instances (λ i. refl)
            ∙ h))

  launch_machines-Concluded :
      (challenge : PublishedChallenge) (assignments : List Assignment) (w : World)
      → Begun w
      → Concluded (launch_machines env challenge id user_id username assignments w)
  unfolding launch_machines Begun
  launch_machines-Concluded challenge assignments w h =
      elim (Bool-cases (is_lab challenge.execution_type || is_lone_workstation env assignments)) [
        | inl workstation ↦
            rw (launch_machines, workstation)
              (conclude-Concluded none _ (
                bring_up-Shows env (seats ++ ((id, user_id, provisioning) ∷ [])) challenge id
                  username none _ assignments w h))
        | inr session ↦
            rw (launch_machines, session)
              (with_network-Concluded challenge assignments w (guarded_vnet env.access id w.site) h)
      ]

  launch_new-Concluded :
      (challenge : PublishedChallenge) (assignments : List Assignment) (w : World)
      → view w ≡ seats
      → Concluded (launch_new env challenge id user_id username assignments w)
  unfolding launch_new Concluded log_launch Begun Shows
  launch_new-Concluded challenge assignments w h =
      let added = record w {
        instances = w.instances ++ (new_instance env id user_id challenge ∷ []);
      } in
      let begun : Begun added =
        map-snoc w.instances (new_instance env id user_id challenge)
        ∙ ap (λ rest. rest ++ ((id, user_id, provisioning) ∷ [])) h in
      elim (Bool-cases (is_offline challenge.execution_type)) [
        | inl off ↦
            rw (launch_new, off) (ended_view running_session set_running added (λ i. refl) begun)
        | inr machines ↦
            rw (launch_new, machines) (launch_machines-Concluded challenge assignments added begun)
      ]

refused-stays :
    (a b c : Bool) (answer : LaunchAnswer) (id user_id : ℕ) (seats : List Seat)
    → (if a
        then some lab_unconfigured
        else if b
        then some no_template
        else if c
        then some one_workstation_needed
        else none)
      ≡ some answer
    → seats ≡ after_launch answer id user_id seats
refused-stays true b c answer id user_id seats e =
    subst (λ x. seats ≡ after_launch x id user_id seats) (some-injective e) refl
refused-stays false true c answer id user_id seats e =
    subst (λ x. seats ≡ after_launch x id user_id seats) (some-injective e) refl
refused-stays false false true answer id user_id seats e =
    subst (λ x. seats ≡ after_launch x id user_id seats) (some-injective e) refl
refused-stays false false false answer id user_id seats e = cc

unless :
    (env : Env) (id user_id : ℕ) (username : Text) (challenge : PublishedChallenge)
    (assignments : List Assignment) (w : World) (fresh : count (is_seat id) (view w) ≡ 0)
    (refused : Option LaunchAnswer)
    → refusal env challenge assignments ≡ refused
    → let x = launch_unless env challenge id user_id username assignments w refused in
      view x.0 ≡ after_launch x.1 id user_id (view w)
unfolding refusal Concluded
unless env id user_id username challenge assignments w fresh (some answer) e =
    refused-stays _ _ _ answer id user_id (view w) e
unless env id user_id username challenge assignments w fresh none e =
    launch_new-Concluded env id user_id username (view w) fresh challenge assignments w refl

beside :
    (env : Env) (id user_id : ℕ) (username : Text) (challenge : PublishedChallenge) (w : World)
    (fresh : count (is_seat id) (view w) ≡ 0) (existing : Option Instance)
    → let x = launch_beside env challenge id user_id username w existing in
      view x.0 ≡ after_launch x.1 id user_id (view w)
beside env id user_id username challenge w fresh none =
    unless env id user_id username challenge _ w fresh _ refl
beside env id user_id username challenge w fresh (some i) =
    elim (Bool-cases (i.challenge_id == challenge.challenge_id)) [
      | inl same ↦ rw same refl
      | inr other ↦ rw other refl
    ]

published :
    (env : Env) (id user_id : ℕ) (username : Text) (challenge : PublishedChallenge) (w : World)
    (fresh : count (is_seat id) (view w) ≡ 0) (shown : Bool)
    → let x =
        if shown
        then launch_beside env challenge id user_id username w (active_instance user_id w)
        else (w, missing) in
      view x.0 ≡ after_launch x.1 id user_id (view w)
published env id user_id username challenge w fresh true =
    beside env id user_id username challenge w fresh (active_instance user_id w)
published env id user_id username challenge w fresh false = refl

-- After a launch under a new key the view is that of before, with the new attempt at its end if one
-- was added: running if the launch succeeded, abandoned if it could not start. None is left
-- provisioning, whatever the hypervisor, the adapter and the Docker service do.
pub launch-view :
    (env : Env) (id user_id : ℕ) (username : Text) (challenge_id : ℕ) (w : World)
    → count (is_seat id) (view w) ≡ 0
    → view (launch env id user_id username challenge_id w).0
      ≡ after_launch (launch env id user_id username challenge_id w).1 id user_id (view w)
unfolding launch
launch-view env id user_id username challenge_id w fresh =
    elim (Option-cases (
      find? (λ (c : PublishedChallenge). c.challenge_id == challenge_id)
        env.catalogue.challenges)) [
          | inl absent ↦ rw (launch, absent) refl
          | inr (challenge, found) ↦
              rw (launch, found)
                (published env id user_id username challenge w fresh challenge.is_published)
        ]
