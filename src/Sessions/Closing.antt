-- ===== src/Sessions/Closing.antt =====
-- _close, close and flag of themes.py, and close_session of admin.py.
use itp2_group6_the_pond.Prelude.{
  ℕ, Bool, true, false, ◌&&◌, ◌||◌, not, Option, none, some, List, [], ◌∷◌, ◌++◌, Text, ◌==◌, ℕ_eq,
  find?, update_first, take, if◌then◌else◌, Clock,
}
use itp2_group6_the_pond.Audit.{record_event}
use itp2_group6_the_pond.Strings.{strip, is_blank, decimal}
use itp2_group6_the_pond.Throttle.{Table, hit as hit_limit}
use itp2_group6_the_pond.Scoring.{Store, Grade, hit, miss, repeat, submit_flag}
use itp2_group6_the_pond.Scoring.Progress.{Progress, challenge_progress}
use itp2_group6_the_pond.Provisioner.{Site, VmInstance, error_vm, has_key}
use itp2_group6_the_pond.Proxmox.{guarded_destroy}
use itp2_group6_the_pond.Sessions.Tables.{
  SessionStatus, complete, abandoned, Instance, World, Env, has_instance, set_instance,
  is_running_session, is_provisioning, owned_instance, machines_of,
}
use itp2_group6_the_pond.Sessions.Cloning.{on_site, stop_docker}

abbrev pub is_complete_status : SessionStatus → Bool
is_complete_status complete = true
is_complete_status _ = false

-- The row of an attempt that ends.
abbrev pub end_row : SessionStatus → ℕ → Instance → Instance
end_row status now i = record i {
  status = status;
  stopped_at = some now;
  completed_at = if is_complete_status status then some now else i.completed_at;
}

-- vm.status = "error"
abbrev pub mark_error : VmInstance → Site → Site
mark_error vm s = record s {
  table =
      update_first (has_key vm.vm_instance_id) (λ row. record row { status = error_vm }) s.table;
}

-- The end of one removal; the Boolean is whether the loop goes on.
abbrev pub note_destroyed : Env → VmInstance → World → Site × Option (Unit {0}) → World × Bool
note_destroyed env vm w (s, some _) = (on_site s w, true)
note_destroyed env vm w (s, none) =
    if env.is_proxmox_error s then (on_site (mark_error vm s) w, true) else (on_site s w, false)

unfoldable pub close_machine : Env → Option Text → VmInstance → World → World × Bool
close_machine env vnet vm w =
    if vm.proxmox_vmid == 0
    then (w, true)
    else note_destroyed env vm w (guarded_destroy env.access vm.proxmox_vmid vnet env.now w.site)

-- The network goes with the last machine.
abbrev pub vnet_for : Option Text → List VmInstance → Option Text
vnet_for vnet [] = vnet
vnet_for vnet (vm ∷ vms) = none

-- The loop over the machines; the Boolean is whether it ends without an exception.
unfoldable pub close_machines : Env → Option Text → List VmInstance → World → World × Bool
close_machines env vnet [] w = (w, true)
close_machines env vnet (vm ∷ vms) w =
    let (w', go_on) = close_machine env (vnet_for vnet vms) vm w in
    elim go_on [ false ↦ (w', false) | true ↦ close_machines env vnet vms w' ]

-- What _close commits before it asks the hypervisor for anything.
unfoldable pub end_session : Env → Instance → SessionStatus → World → World
end_session env i status w =
    let ended = set_instance i.instance_id (end_row status env.now) w in
    record ended { log = record_event "instance.closed" (some i.user_id) none w.log }

-- _close of an attempt that has started. The rows of the machines are in the order of their
-- creation, and are read first.
abbrev pub close_started : Env → Instance → SessionStatus → World → World × Bool
close_started env i status w =
    close_machines env i.network_identifier (machines_of i.instance_id w)
      (stop_docker env i.instance_id (end_session env i status w))

-- _close: the Boolean is whether it returns. Without the time of the start it raises at once.
unfoldable pub close_instance : Env → ℕ → SessionStatus → World → World × Bool
close_instance env id status w = elim (find? (has_instance id) w.instances) [
  | none ↦ (w, false)
  | some i ↦ elim i.started_at [ none ↦ (w, false) | some t ↦ close_started env i status w ]
]

-- What the routes answer.
pub data CloseAnswer : Type 0 where
  not_found still_starting already_closed closed_complete closed_abandoned raised : CloseAnswer

-- The outcome that is recorded: `asked` is whether the form asks for "complete".
unfoldable pub outcome_of : Bool → Progress → SessionStatus
outcome_of asked progress =
    if asked && (progress.is_complete || progress.flags_total == 0) then complete else abandoned

abbrev pub answer_of : SessionStatus → World × Bool → World × CloseAnswer
answer_of status (w, false) = (w, raised)
answer_of status (w, true) =
    (w, if is_complete_status status then closed_complete else closed_abandoned)

-- close, on an attempt of the user
unfoldable pub close_owned : Env → Bool → Store → Instance → World → World × CloseAnswer
close_owned env asked store i w =
    if is_provisioning i.status
    then (w, still_starting)
    else if not (is_running_session i.status)
    then (stop_docker env i.instance_id w, already_closed)
    else let status = outcome_of asked (challenge_progress i.user_id i.challenge_id store) in
      answer_of status (close_instance env i.instance_id status w)

unfoldable pub close : Env → ℕ → ℕ → Bool → Store → World → World × CloseAnswer
close env user_id id asked store w = elim (owned_instance user_id id w) [
  | none ↦ (w, not_found)
  | some i ↦ close_owned env asked store i w
]

-- audit.record("session.closed_by_staff", …)
abbrev pub log_staff : ℕ → Text → World × Bool → World × CloseAnswer
log_staff user_id username (w, false) = (w, raised)
log_staff user_id username (w, true) = (
  record w { log = record_event "session.closed_by_staff" (some user_id) (some username) w.log },
  closed_abandoned,
)

-- close_session of admin.py, behind its permission; `usernames` are the accounts' names.
unfoldable pub close_session : Env → (ℕ → Option Text) → ℕ → World → World × CloseAnswer
close_session env usernames id w = elim (find? (has_instance id) w.instances) [
  | none ↦ (w, not_found)
  | some i ↦
      if not (is_running_session i.status)
      then (w, already_closed)
      else elim (usernames i.user_id) [
        | none ↦ (w, raised)
        | some username ↦ log_staff i.user_id username (close_instance env id abandoned w)
      ]
]

pub data FlagAnswer : Type 0 where
  no_such_session session_closed too_many nothing_entered flag_raised : FlagAnswer
  captured captured_last repeated wrong : FlagAnswer

-- What flag changes: the sessions, the flags' tables, and the attempts that are counted.
pub record Play : Type 0 where
  pub world : World
  pub store : Store
  pub attempts : Table

-- After a hit: the last flag closes the session.
abbrev pub flag_closed : Play → World × Bool → Play × FlagAnswer
flag_closed p (w, false) = (record p { world = w }, flag_raised)
flag_closed p (w, true) = (record p { world = w }, captured_last)

abbrev pub graded : Env → Instance → Play → Grade → Play × FlagAnswer
graded env i p hit =
    let closed = flag_closed p (close_instance env i.instance_id complete p.world) in
    if (challenge_progress i.user_id i.challenge_id p.store).is_complete
    then closed
    else (p, captured)
graded env i p miss = (p, wrong)
graded env i p repeat = (p, repeated)

unfoldable pub grade_flag : (Text → Text) → Env → Instance → Text → Play → Play × FlagAnswer
grade_flag sha256 env i submitted p =
    elim (submit_flag sha256 i.user_id i.challenge_id i.instance_id submitted env.now p.store) [
      | none ↦ (p, flag_raised)
      | some (grade, points, label, store) ↦ graded env i (record p { store = store }) grade
    ]

unfoldable pub throttle_key : Instance → Text
throttle_key i = decimal i.user_id ++ (b':' ∷ decimal i.challenge_id)

-- audit.record(audit.FLAG_THROTTLED, …)
unfoldable pub log_throttled : ℕ → Text → World → World
log_throttled user_id username w = record w {
  log = record_event "flag.throttled" (some user_id) (some username) w.log;
}

-- flag, on a running attempt of the user
unfoldable pub flag_running :
    (Text → Text) → Env → Clock → Text → Text → Instance → Play → Play × FlagAnswer
flag_running sha256 env clock username raw i p =
    elim (hit_limit "flag_challenge" (throttle_key i) clock p.attempts) [
      | none ↦ (p, flag_raised)
      | some (allowed, wait, attempts) ↦
          let counted = record p { attempts = attempts } in
          let submitted = take 200 (strip raw) in
          if not allowed
          then (record counted { world = log_throttled i.user_id username p.world }, too_many)
          else if is_blank submitted
          then (counted, nothing_entered)
          else grade_flag sha256 env i submitted counted
    ]

unfoldable pub flag : (Text → Text) → Env → Clock → ℕ → Text → ℕ → Text → Play → Play × FlagAnswer
flag sha256 env clock user_id username id raw p = elim (owned_instance user_id id p.world) [
  | none ↦ (p, no_such_session)
  | some i ↦
      if is_running_session i.status
      then flag_running sha256 env clock username raw i p
      else (p, session_closed)
]
