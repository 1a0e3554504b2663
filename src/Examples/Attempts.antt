-- ===== src/Examples/Attempts.antt =====
-- Sessions, the settings of the adapter and the Docker service, and the theorems on them.
use itp2_group6_the_pond.Prelude.{
  ◌==◌, ℕ_eq, ℕ, ◌≡◌, ◌⊎◌, ◌*◌, refl, true, false, none, some, [], ◌∷◌, codes, All, any, count,
  filter, find?, arith, hour, text_eq,
}
use itp2_group6_the_pond.Strings.{split_on}
use itp2_group6_the_pond.Scoring.{Store}
use itp2_group6_the_pond.Provisioner.{Cloud}
use itp2_group6_the_pond.Proxmox.{
  ProxmoxConfig, Access, Membership, Permissions, Replies, check_token_privileges, pool_membership,
  is_recent_check, passed_at, dangerous_privileges, membership_from, excess_privileges, excess_from,
  sorted_paths, insert_path, allowed_privileges, allowed_parts, is_path, path_parts, sorted_texts,
  is_excess, has_text,
}
use itp2_group6_the_pond.Sessions.{
  Reason, running_session, complete, Instance, World, Env, Catalogue, vm_execution, not_requested,
  Adapter, start, stop, start_lab, stop_lab, launch, close, close_instance, reap_sessions,
  workstation_egress, reap_from, live_ids, is_live_status, reap_one, reason_of, is_provisioning,
  started_of, close_machines, machines_of,
}
use itp2_group6_the_pond.Attempts.View.{view}
use itp2_group6_the_pond.Attempts.Launches.{after_launch, launch-view}
use itp2_group6_the_pond.Attempts.Single.{IsSingle}
use itp2_group6_the_pond.Attempts.Steps.{
  Steps, launches, closes, is_reaped, stop_here, step, Steps-IsSingle,
}
use itp2_group6_the_pond.Attempts.Outcome.{outcome_at, close_instance-outcome}
use itp2_group6_the_pond.Attempts.Untouched.{IsUntouched, Steps-IsUntouched}
use itp2_group6_the_pond.Attempts.Overdue.{is_past_at, is_reported}
use itp2_group6_the_pond.Attempts.Reaped.{end_seats, reap_sessions-view}
use itp2_group6_the_pond.Trust.Least.{HoldsLeast, check_token_privileges-HoldsLeast}
use itp2_group6_the_pond.Trust.Outbound.{
  Packet, first_match, verdict_of, may_leave, workstation_egress-may_leave,
}
use itp2_group6_the_pond.Trust.Requests.{start-stop}

abbrev settings : ProxmoxConfig
settings = record {
  token_id = codes "pond@pve!launcher";
  token_secret = codes "secret";
  pool = codes "pond-clones";
  template_pool = codes "pond-templates";
  ca_bundle = [];
  is_production = false;
  verify_ssl = true;
  protected = codes "300-303,1000";
  host = codes "h";
  node = codes "pve";
  storage = codes "local-lvm";
  sdn_zone = codes "pondz";
  workstation_zone = [];
  template_bridges = [];
  template_storages = codes "local-lvm";
  privilege_check_ttl = 300;
}

-- A hypervisor that does what it is asked to.
abbrev willing : Cloud
willing = record {
  raises = λ calls c. false;
  exists = λ calls v. some true;
  machines = λ calls. [];
  disk = λ calls v. none;
  api_host = some (codes "pve");
  cards = λ calls v. (codes "net0", codes "virtio=AA,bridge=s1,firewall=1") ∷ [];
  egress = λ calls v. [];
}

abbrev answers : Replies
answers = record {
  permissions = some ((codes "/", codes "Sys.Audit" ∷ []) ∷ []);
  resources = some [];
}

abbrev access : Access
access = record {
  config = settings;
  is_file = λ path. false;
  cloud = willing;
  replies = λ calls. answers;
  zones = λ calls. some ((codes "pondz", codes "simple") ∷ []);
  firewall = λ calls. some 1;
  status = λ calls v. some (codes "running");
}

abbrev catalogue : Catalogue
catalogue = record {
  challenges =
      record {
        challenge_id = 3;
        is_published = true;
        title = codes "web";
        execution_type = vm_execution;
        docker_challenge_key = none;
      }
      ∷ [];
  assignments =
      record {
        challenge_template_id = 8;
        challenge_id = 3;
        template_id = 2;
        template_name = codes "target";
        template_vmid = 120;
        template_node = codes "pve";
        vm_role = codes "main";
        boot_order = 1;
        static_ip = none;
        is_active = true;
        is_user_accessible = true;
      }
      ∷ [];
  rules = [];
}

abbrev env : ℕ → Env
env time = record {
  catalogue = catalogue;
  access = access;
  adapter = none;
  lab_key = codes "pond-1";
  visible = [];
  vmid_range = (1001, 1002);
  is_proxmox_error = λ s. true;
  fresh_key = λ s. 5;
  network_of = λ ip. none;
  docker_host_ip = codes "10.0.0.9";
  internet_ports = [];
  handout_template = [];
  handout_user = [];
  handout_base_url = [];
  now = time;
}

abbrev idle : World
idle = record {
  site = record { calls = []; table = [] };
  cache = [];
  instances = [];
  lab_calls = [];
  log = [];
}

abbrev launched : World
launched = (launch (env 100) 1 7 (codes "ada") 3 idle).0

launch-view_example :
    view launched ≡ after_launch (launch (env 100) 1 7 (codes "ada") 3 idle).1 1 7 []
unfolding count
launch-view_example = launch-view (env 100) 1 7 (codes "ada") 3 idle refl

abbrev no_store : Store
no_store = record { flags = []; submissions = []; solves = []; user_ids = []; instance_ids = [] }

-- Ada launches, and then gives up; the reaper runs.
abbrev given_up : World
given_up = (close (env 200) 7 1 false no_store launched).0

abbrev swept : World
swept = (reap_sessions (env 300) 4 given_up).0.0

day : Steps idle swept
unfolding count
day = step idle launched swept (launches (env 100) 1 7 (codes "ada") 3 idle refl) (
    step launched given_up swept (closes (env 200) 7 1 false no_store launched)
      (step given_up swept swept (is_reaped (env 300) 4 given_up) (stop_here swept)))

idle-IsSingle : IsSingle (view idle)
unfolding IsSingle count
idle-IsSingle u = omega arith

Steps-IsSingle_example : IsSingle (view swept)
Steps-IsSingle_example = Steps-IsSingle idle swept day idle-IsSingle

Steps-IsUntouched_example : IsUntouched swept
Steps-IsUntouched_example = Steps-IsUntouched idle swept day tt

-- An attempt without a machine that has run since 100.
abbrev attempt : Instance
attempt = record {
  instance_id = 1;
  user_id = 7;
  challenge_id = 3;
  status = running_session;
  requested_at = 100;
  started_at = some 100;
  stopped_at = none;
  completed_at = none;
  network_identifier = none;
  has_error_message = false;
  docker = record {
    challenge_key = none;
    operation_key = none;
    session_ref = none;
    docker_status = not_requested;
    has_error = false;
  };
}

abbrev busy : World
busy = record idle { instances = attempt ∷ [] }

close_instance-outcome_example :
    outcome_at 1 (close_instance (env 200) 1 complete busy).0 ≡ some (complete, some 200, some 200)
unfolding find?
close_instance-outcome_example =
    close_instance-outcome (env 200) 1 complete busy attempt 100 refl refl

reap_sessions-view_example :
    (view (reap_sessions (env (5 * hour)) 4 busy).0.0
      ≡ end_seats (reap_sessions (env (5 * hour)) 4 busy).0.1 (view busy))
    × All
        (λ (c : ℕ × Reason). any (λ k. k == c.0) (live_ids busy) ≡ true)
        (reap_sessions (env (5 * hour)) 4 busy).0.1
    × All
        (λ id.
          (is_past_at (env (5 * hour)) 4 id busy ≡ false)
          ⊎ (is_reported id (reap_sessions (env (5 * hour)) 4 busy).0.1 ≡ true))
        (live_ids busy)
unfolding reap_sessions reap_from live_ids filter is_live_status reap_one find? reason_of
    is_provisioning started_of close_instance close_machines machines_of
reap_sessions-view_example = reap_sessions-view (env (5 * hour)) 4 busy refl

check_token_privileges-HoldsLeast_example :
    (membership : Membership) × (perms : Permissions) × (pool_membership answers.resources
      ≡ some membership)
    × (answers.permissions ≡ some perms)
    × All (HoldsLeast settings membership) perms
unfolding check_token_privileges is_recent_check passed_at find? pool_membership membership_from
    excess_privileges excess_from sorted_paths insert_path allowed_privileges allowed_parts is_path
    path_parts filter split_on sorted_texts is_excess has_text any dangerous_privileges text_eq
check_token_privileges-HoldsLeast_example =
    check_token_privileges-HoldsLeast settings answers 100 []
      (((codes "h", codes "pond@pve!launcher"), 100) ∷ []) refl refl

-- A packet to the name service at a private address.
abbrev query : Packet
query = record { protocol = codes "udp"; is_to = λ t. false; is_on = λ t. true }

workstation_egress-may_leave_example :
    first_match query (workstation_egress (codes "10.0.0.9") (codes "80,443"))
    ≡ verdict_of (may_leave (codes "10.0.0.9") (codes "80,443") query)
workstation_egress-may_leave_example =
    workstation_egress-may_leave (codes "10.0.0.9") (codes "80,443") query

-- A service that does not answer a start.
abbrev silent : Adapter
silent = record { starts = λ calls d. none; stops = λ calls d. true }

start-stop_example :
    let x = start (some silent) (codes "pond-1") (attempt.docker, []) in
    (x.0.1 ≡ start_lab (some (codes "pond-1")) ∷ [])
    × (x.0.0.operation_key ≡ some (codes "pond-1"))
    × (((x.1 ≡ true) × (start (some silent) (codes "pond-2") x.0 ≡ (x.0, true)))
        ⊎ ((x.1 ≡ false)
            × ((stop (some silent) x.0).0.1
                ≡ start_lab (some (codes "pond-1")) ∷ stop_lab (some (codes "pond-1")) ∷ [])))
start-stop_example = start-stop silent (codes "pond-1") (codes "pond-2") attempt.docker [] refl
