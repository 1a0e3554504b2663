-- ===== src/Sessions/Tables.antt =====
-- The rows that the routes of themes.py read and write, and what stands around them.
use itp2_group6_the_pond.Prelude.{
  ℕ, Bool, true, false, ◌&&◌, Option, none, some, List, [], ◌∷◌, Text, ◌==◌, ℕ_eq, filter,
  update_first, find?, ltb, if◌then◌else◌,
}
use itp2_group6_the_pond.Audit.{AuditLog}
use itp2_group6_the_pond.Provisioner.{VmInstance, Site, is_kept}
use itp2_group6_the_pond.Proxmox.{Access, Cache}
use itp2_group6_the_pond.Sessions.Service.{Docker, LabCall, Adapter}

pub data SessionStatus : Type 0 where
  provisioning running_session complete abandoned : SessionStatus

-- ChallengeInstance of db/runtime_models.py: of the error message, whether it is set.
pub record Instance : Type 0 where
  pub instance_id : ℕ
  pub user_id : ℕ
  pub challenge_id : ℕ
  pub status : SessionStatus
  pub requested_at : ℕ
  pub started_at : Option ℕ
  pub stopped_at : Option ℕ
  pub completed_at : Option ℕ
  pub network_identifier : Option Text
  pub has_error_message : Bool
  pub docker : Docker

pub data ExecutionType : Type 0 where
  offline vm_execution container_lab : ExecutionType

pub record PublishedChallenge : Type 0 where
  pub challenge_id : ℕ
  pub is_published : Bool
  pub title : Text
  pub execution_type : ExecutionType
  pub docker_challenge_key : Option Text

-- A ChallengeTemplate with the columns of its VMTemplate.
pub record Assignment : Type 0 where
  pub challenge_template_id : ℕ
  pub challenge_id : ℕ
  pub template_id : ℕ
  pub template_name : Text
  pub template_vmid : ℕ
  pub template_node : Text
  pub vm_role : Text
  pub boot_order : ℕ
  pub static_ip : Option Text
  pub is_active : Bool
  pub is_user_accessible : Bool

pub record NetworkRule : Type 0 where
  pub challenge_id : ℕ
  pub from_role : Text
  pub to_role : Text
  pub port : ℕ

-- The tables that the routes only read.
pub record Catalogue : Type 0 where
  pub challenges : List PublishedChallenge
  pub assignments : List Assignment
  pub rules : List NetworkRule

-- What changes: the hypervisor and the table of machines, the cache of the token's checks, the
-- attempts, the calls of the Docker service, and the log.
pub record World : Type 0 where
  pub site : Site
  pub cache : Cache
  pub instances : List Instance
  pub lab_calls : List LabCall
  pub log : List AuditLog

-- What one request meets: the tables that it reads, the adapter with its settings, and the time.
-- `is_proxmox_error` is the class of an exception that has left the adapter, `fresh_key` the key
-- that the database gives, and `lab_key` a random key. `network_of` is what is written into a
-- clone's disk for its static address.
pub record Env : Type 0 where
  pub catalogue : Catalogue
  pub access : Access
  pub adapter : Option Adapter
  pub lab_key : Text
  pub visible : List ℕ
  pub vmid_range : ℕ × ℕ
  pub is_proxmox_error : Site → Bool
  pub fresh_key : Site → ℕ
  pub network_of : Option Text → Option Text
  pub docker_host_ip : Text
  pub internet_ports : Text
  pub handout_template : Text
  pub handout_user : Text
  pub handout_base_url : Text
  pub now : ℕ

abbrev pub has_instance : ℕ → Instance → Bool
has_instance id i = i.instance_id == id

unfoldable pub set_instance : ℕ → (Instance → Instance) → World → World
set_instance id f w = record w { instances = update_first (has_instance id) f w.instances }

-- status in ("running", "provisioning")
unfoldable pub is_live_status : SessionStatus → Bool
is_live_status provisioning = true
is_live_status running_session = true
is_live_status complete = false
is_live_status abandoned = false

unfoldable pub is_running_session : SessionStatus → Bool
is_running_session running_session = true
is_running_session provisioning = false
is_running_session complete = false
is_running_session abandoned = false

unfoldable pub is_provisioning : SessionStatus → Bool
is_provisioning provisioning = true
is_provisioning running_session = false
is_provisioning complete = false
is_provisioning abandoned = false

unfoldable pub is_active_of : ℕ → Instance → Bool
is_active_of user_id i = i.user_id == user_id && is_live_status i.status

-- A later start; one that is not set is before all.
unfoldable pub is_later : Option ℕ → Option ℕ → Bool
is_later none _ = false
is_later (some a) none = true
is_later (some a) (some b) = ltb b a

-- ORDER BY started_at DESC, the first row
unfoldable pub latest_started : List Instance → Option Instance
latest_started [] = none
latest_started (i ∷ rest) = elim (latest_started rest) [
  | none ↦ some i
  | some best ↦ some (if is_later best.started_at i.started_at then best else i)
]

-- _active_instance
unfoldable pub active_instance : ℕ → World → Option Instance
active_instance user_id w = latest_started (filter (is_active_of user_id) w.instances)

-- _owned_instance, as far as the attempt: `none` is 404.
unfoldable pub owned_instance : ℕ → ℕ → World → Option Instance
owned_instance user_id id w = elim (find? (has_instance id) w.instances) [
  | none ↦ none
  | some i ↦ if i.user_id == user_id then some i else none
]

-- The machines of an attempt that are not deleted.
unfoldable pub is_machine_of : ℕ → VmInstance → Bool
is_machine_of id vm = vm.instance_id == id && is_kept vm.deleted_at

unfoldable pub machines_of : ℕ → World → List VmInstance
machines_of id w = filter (is_machine_of id) w.site.table
