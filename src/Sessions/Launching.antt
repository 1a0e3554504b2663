-- ===== src/Sessions/Launching.antt =====
-- launch of themes.py, around the machines of Cloning.
use itp2_group6_the_pond.Prelude.{
  ℕ, Bool, true, false, ◌&&◌, ◌||◌, not, Option, none, some, List, [], ◌∷◌, ◌++◌, map, Text,
  Text_eq, ◌==◌, ℕ_eq, filter, find?, length, ltb, if◌then◌else◌,
}
use itp2_group6_the_pond.Audit.{record_event}
use itp2_group6_the_pond.Provisioner.{Site}
use itp2_group6_the_pond.Proxmox.{guarded_vnet}
use itp2_group6_the_pond.Strings.{is_blank}
use itp2_group6_the_pond.Sessions.Service.{not_requested}
use itp2_group6_the_pond.Sessions.Tables.{
  provisioning, running_session, Instance, PublishedChallenge, Assignment, Catalogue, World, Env,
  set_instance, active_instance,
}
use itp2_group6_the_pond.Sessions.Egress.{rule_text, workstation_egress}
use itp2_group6_the_pond.Sessions.Cloning.{
  on_site, is_lab, is_offline, bring_up, abandon_row, tear_down, Cloned,
}

-- What a launch answers: the page that is not found, the redirects with their messages.
pub data LaunchAnswer : Type 0 where
  missing already_here already_running lab_unconfigured no_template : LaunchAnswer
  one_workstation_needed could_not_start started : LaunchAnswer

-- .order_by(ChallengeTemplate.boot_order)
unfoldable pub insert_boot : Assignment → List Assignment → List Assignment
insert_boot a [] = a ∷ []
insert_boot a (b ∷ bs) =
    let rest = insert_boot a bs in if ltb b.boot_order a.boot_order then b ∷ rest else a ∷ b ∷ bs

unfoldable pub by_boot_order : List Assignment → List Assignment
by_boot_order [] = []
by_boot_order (a ∷ rest) = insert_boot a (by_boot_order rest)

unfoldable pub assignments_of : ℕ → Catalogue → List Assignment
assignments_of challenge_id tables = by_boot_order (
    filter (λ a. a.challenge_id == challenge_id && (a.is_active && a.is_user_accessible))
      tables.assignments)

abbrev pub set_running : Instance → Instance
set_running i = record i { status = running_session }

-- audit.record(audit.INSTANCE_LAUNCH, …)
unfoldable pub log_launch : ℕ → Option Text → World → World
log_launch user_id username w = record w {
  log = record_event "instance.launched" (some user_id) username w.log;
}

abbrev pub conclude :
    Env → ℕ → ℕ → Text → Option Text → World × List Cloned × Bool → World × LaunchAnswer
conclude env id user_id username vnet (w, clones, false) =
    (tear_down env id vnet clones w, could_not_start)
conclude env id user_id username vnet (w, clones, true) =
    (log_launch user_id (some username) (set_instance id set_running w), started)

-- The session's network: none, the rules of a workstation, or a network of its own.
unfoldable pub is_lone_workstation : Env → List Assignment → Bool
is_lone_workstation env (a ∷ []) =
    not (is_blank env.handout_template) && a.template_name == env.handout_template
is_lone_workstation env _ = false

abbrev pub with_network :
    Env
    → PublishedChallenge
    → ℕ
    → ℕ
    → Text
    → List Assignment
    → World
    → Site × Option Text
    → World × LaunchAnswer
with_network env challenge id user_id username assignments w (s, none) =
    (set_instance id (abandon_row env.now) (on_site s w), could_not_start)
with_network env challenge id user_id username assignments w (s, some vnet) =
    conclude env id user_id username (some vnet) (
      bring_up env challenge id username (some vnet) none assignments
        (set_instance id (λ i. record i { network_identifier = some vnet }) (on_site s w)))

unfoldable pub launch_machines :
    Env → PublishedChallenge → ℕ → ℕ → Text → List Assignment → World → World × LaunchAnswer
launch_machines env challenge id user_id username assignments w =
    if is_lab challenge.execution_type || is_lone_workstation env assignments
    then conclude env id user_id username none (
        bring_up env challenge id username none
          (some (map rule_text (workstation_egress env.docker_host_ip env.internet_ports)))
          assignments w)
    else with_network env challenge id user_id username assignments w
        (guarded_vnet env.access id w.site)

-- The new attempt.
abbrev pub new_instance : Env → ℕ → ℕ → PublishedChallenge → Instance
new_instance env id user_id challenge = record {
  instance_id = id;
  user_id = user_id;
  challenge_id = challenge.challenge_id;
  status = provisioning;
  requested_at = env.now;
  started_at = some env.now;
  stopped_at = none;
  completed_at = none;
  network_identifier = none;
  has_error_message = false;
  docker = record {
    challenge_key = challenge.docker_challenge_key;
    operation_key = none;
    session_ref = none;
    docker_status = not_requested;
    has_error = false;
  };
}

unfoldable pub launch_new :
    Env → PublishedChallenge → ℕ → ℕ → Text → List Assignment → World → World × LaunchAnswer
launch_new env challenge id user_id username assignments w =
    let added = record w {
      instances = w.instances ++ (new_instance env id user_id challenge ∷ []);
    } in
    if is_offline challenge.execution_type
    then (log_launch user_id none (set_instance id set_running added), started)
    else launch_machines env challenge id user_id username assignments added

abbrev pub is_configured : Env → Bool
is_configured env = elim env.adapter [ none ↦ false | some service ↦ true ]

-- The answer of a launch that is refused before an attempt is added.
unfoldable pub refusal : Env → PublishedChallenge → List Assignment → Option LaunchAnswer
refusal env challenge assignments =
    if is_lab challenge.execution_type && not (is_configured env)
    then some lab_unconfigured
    else if not (is_offline challenge.execution_type) && length assignments == 0
    then some no_template
    else if is_lab challenge.execution_type && not (length assignments == 1)
    then some one_workstation_needed
    else none

abbrev pub launch_unless :
    Env
    → PublishedChallenge
    → ℕ
    → ℕ
    → Text
    → List Assignment
    → World
    → Option LaunchAnswer
    → World × LaunchAnswer
launch_unless env challenge id user_id username assignments w (some answer) = (w, answer)
launch_unless env challenge id user_id username assignments w none =
    launch_new env challenge id user_id username assignments w

-- An attempt that is in progress already.
abbrev pub launch_beside :
    Env → PublishedChallenge → ℕ → ℕ → Text → World → Option Instance → World × LaunchAnswer
launch_beside env challenge id user_id username w (some existing) =
    (w, if existing.challenge_id == challenge.challenge_id then already_here else already_running)
launch_beside env challenge id user_id username w none =
    let assignments = assignments_of challenge.challenge_id env.catalogue in
    launch_unless env challenge id user_id username assignments w
      (refusal env challenge assignments)

-- launch: `id` is the key that the database gives to the new attempt.
unfoldable pub launch : Env → ℕ → ℕ → Text → ℕ → World → World × LaunchAnswer
launch env id user_id username challenge_id w =
    elim (find? (λ (c : PublishedChallenge). c.challenge_id == challenge_id)
      env.catalogue.challenges) [
        | none ↦ (w, missing)
        | some challenge ↦
            if challenge.is_published
            then launch_beside env challenge id user_id username w (active_instance user_id w)
            else (w, missing)
      ]
