-- ===== src/Sessions/Cloning.antt =====
-- The machines of a launch in themes.py: the try block, and the except block that undoes it.
use itp2_group6_the_pond.Prelude.{
  ℕ, Bool, true, false, Option, none, some, List, [], ◌∷◌, ◌++◌, Text, Text_eq, ◌==◌, ℕ_eq, filter,
  find?, length, take, ltb, if◌then◌else◌,
}
use itp2_group6_the_pond.Provisioner.{Site, VmInstance, Launch, has_key}
use itp2_group6_the_pond.Proxmox.{Cache, guarded_clone, guarded_destroy, guarded_drop, guarded_rule}
use itp2_group6_the_pond.Strings.{is_blank, decimal}
use itp2_group6_the_pond.Sessions.Service.{Docker, not_requested, Lab, start, stop}
use itp2_group6_the_pond.Sessions.Tables.{
  abandoned, Instance, ExecutionType, offline, vm_execution, container_lab, PublishedChallenge,
  Assignment, NetworkRule, World, Env, has_instance, set_instance,
}
use itp2_group6_the_pond.Sessions.Egress.{handout_command}

-- A clone of the session with its assignment: an entry of `clones`.
pub record Cloned : Type 0 where
  pub vmid : ℕ
  pub assignment : Assignment

-- The change of the hypervisor's side alone.
abbrev pub on_site : Site → World → World
on_site s w = record w { site = s }

abbrev pub cloned_of : Assignment → Option VmInstance → Option Cloned
cloned_of a none = none
cloned_of a (some row) = some (record { vmid = row.proxmox_vmid; assignment = a })

abbrev pub label_of : Text → ℕ → Assignment → Text
label_of username challenge_id a =
    take 63 (username ++ (b'-' ∷ (decimal challenge_id ++ (b'-' ∷ a.vm_role))))

-- The arguments of one clone.
unfoldable pub clone_arguments :
    Env → PublishedChallenge → ℕ → Text → Option Text → Option (List Text) → Assignment → Launch
clone_arguments env challenge id username vnet egress a = record {
  template_vmid = a.template_vmid;
  node = a.template_node;
  label = label_of username challenge.challenge_id a;
  start = env.vmid_range.0;
  end = env.vmid_range.1;
  instance_id = id;
  template_id = a.template_id;
  challenge_template_id = some a.challenge_template_id;
  vnet = vnet;
  network = env.network_of a.static_ip;
  firstboot = handout_command env a challenge;
  can_write = false;
  egress_rules = egress;
}

-- A call that ended, with the clone that its row names.
abbrev pub note_clone : Assignment → World → Site × Cache × Option ℕ → World × Option Cloned
note_clone a w (s, cache, none) = (record w { site = s; cache = cache }, none)
note_clone a w (s, cache, some key) =
    (record w { site = s; cache = cache }, cloned_of a (find? (has_key key) s.table))

unfoldable pub clone_one :
    Env
    → PublishedChallenge
    → ℕ
    → Text
    → Option Text
    → Option (List Text)
    → Assignment
    → World
    → World × Option Cloned
clone_one env challenge id username vnet egress a w = note_clone a w (
    guarded_clone env.access env.visible (clone_arguments env challenge id username vnet egress a)
      (env.fresh_key w.site) env.now w.cache w.site)

-- The loop over the assignments: the clones so far, and whether no clone raised. The roles of a
-- challenge differ, by the table's constraint, so that no entry replaces another.
unfoldable pub clone_all :
    (Assignment → World → World × Option Cloned)
    → List Assignment
    → List Cloned
    → World
    → World × List Cloned × Bool
clone_all one [] clones w = (w, clones, true)
clone_all one (a ∷ rest) clones w =
    let (w', made) = one a w in
    elim made [ none ↦ (w', clones, false) | some c ↦ clone_all one rest (clones ++ (c ∷ [])) w' ]

-- container_lab.start and container_lab.stop on an attempt
unfoldable pub docker_of : ℕ → World → Docker
docker_of id w = elim (find? (has_instance id) w.instances) [
  | none ↦ record {
    challenge_key = none;
    operation_key = none;
    session_ref = none;
    docker_status = not_requested;
    has_error = false;
  }
  | some i ↦ i.docker
]

abbrev pub put_lab : ℕ → Lab → World → World
put_lab id (d, calls) w =
    set_instance id (λ i. record i { docker = d }) (record w { lab_calls = calls })

unfoldable pub start_docker : Env → ℕ → World → World × Bool
start_docker env id w =
    let (lab, ok) = start env.adapter env.lab_key (docker_of id w, w.lab_calls) in
    (put_lab id lab w, ok)

unfoldable pub stop_docker : Env → ℕ → World → World
stop_docker env id w =
    let (lab, ok) = stop env.adapter (docker_of id w, w.lab_calls) in put_lab id lab w

abbrev pub is_lab : ExecutionType → Bool
is_lab container_lab = true
is_lab offline = false
is_lab vm_execution = false

abbrev pub is_offline : ExecutionType → Bool
is_offline offline = true
is_offline container_lab = false
is_offline vm_execution = false

-- The clone of a role.
unfoldable pub in_role : Text → List Cloned → Option Cloned
in_role role clones = find? (λ (c : Cloned). c.assignment.vm_role == role) clones

-- One rule: `none` where it is passed over, else the machine and the address.
abbrev pub source_of : Cloned → Option Text → Option (ℕ × Text)
source_of target none = none
source_of target (some ip) = if is_blank ip then none else some (target.vmid, ip)

unfoldable pub rule_target : NetworkRule → List Cloned → Option (ℕ × Text)
rule_target rule clones = elim (in_role rule.from_role clones) [
  | none ↦ none
  | some source ↦ elim (in_role rule.to_role clones) [
    | none ↦ none
    | some target ↦ source_of target source.assignment.static_ip
  ]
]

abbrev pub is_done : {A : Type 0} → Option A → Bool
is_done none = false
is_done (some x) = true

unfoldable pub apply_one : Env → List Cloned → NetworkRule → World → World × Bool
apply_one env clones rule w = elim (rule_target rule clones) [
  | none ↦ (w, true)
  | some (vmid, ip) ↦
      let (s, result) = guarded_rule env.access vmid ip rule.port w.site in
      (on_site s w, is_done result)
]

unfoldable pub apply_rules : Env → List Cloned → List NetworkRule → World → World × Bool
apply_rules env clones [] w = (w, true)
apply_rules env clones (rule ∷ rules) w =
    let (w', ok) = apply_one env clones rule w in
    elim ok [ false ↦ (w', false) | true ↦ apply_rules env clones rules w' ]

abbrev pub rules_if : Env → ℕ → List Cloned → World × Bool → World × Bool
rules_if env challenge_id clones (w, false) = (w, false)
rules_if env challenge_id clones (w, true) =
    let applied =
      apply_rules env clones
        (filter (λ (r : NetworkRule). r.challenge_id == challenge_id) env.catalogue.rules) w in
    if ltb 1 (length clones) then applied else (w, true)

-- The try block: the clones that were made, and whether nothing raised.
abbrev pub after_clones :
    Env → PublishedChallenge → ℕ → World × List Cloned × Bool → World × List Cloned × Bool
after_clones env challenge id (w, clones, false) = (w, clones, false)
after_clones env challenge id (w, clones, true) =
    let lab = start_docker env id w in
    let (w', ok) =
      rules_if env challenge.challenge_id clones
        (if is_lab challenge.execution_type then lab else (w, true)) in
    (w', clones, ok)

unfoldable pub bring_up :
    Env
    → PublishedChallenge
    → ℕ
    → Text
    → Option Text
    → Option (List Text)
    → List Assignment
    → World
    → World × List Cloned × Bool
bring_up env challenge id username vnet egress assignments w =
    after_clones env challenge id
      (clone_all (clone_one env challenge id username vnet egress) assignments [] w)

-- The except block: every clone is destroyed if it can be, then the network.
unfoldable pub destroy_all : Env → List Cloned → World → World
destroy_all env [] w = w
destroy_all env (c ∷ clones) w =
    destroy_all env clones (on_site (guarded_destroy env.access c.vmid none env.now w.site).0 w)

abbrev pub drop_network : Env → Option Text → World → World
drop_network env none w = w
drop_network env (some vnet) w = on_site (guarded_drop env.access vnet w.site).0 w

-- The row of a launch that failed.
abbrev pub abandon_row : ℕ → Instance → Instance
abandon_row now i = record i { status = abandoned; has_error_message = true; stopped_at = some now }

unfoldable pub tear_down : Env → ℕ → Option Text → List Cloned → World → World
tear_down env id vnet clones w =
    set_instance id (abandon_row env.now)
      (drop_network env vnet (destroy_all env clones (stop_docker env id w)))
