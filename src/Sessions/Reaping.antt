-- ===== src/Sessions/Reaping.antt =====
-- reap_sessions and timer of themes.py.
use itp2_group6_the_pond.Prelude.{
  ℕ, ◌+◌, ◌-◌, ◌*◌, ◌/◌, Bool, true, false, Option, none, some, List, [], ◌∷◌, ◌++◌, map, ltb,
  find?, filter, if◌then◌else◌, minute, hour, second,
}
use itp2_group6_the_pond.Provisioner.{Site, VmInstance}
use itp2_group6_the_pond.Proxmox.{vm_running}
use itp2_group6_the_pond.Sessions.Tables.{
  abandoned, Instance, World, Env, has_instance, is_live_status, is_provisioning, owned_instance,
  machines_of,
}
use itp2_group6_the_pond.Sessions.Closing.{close_instance}

-- PROVISIONING_GRACE
unfoldable pub provisioning_grace : ℕ
provisioning_grace = 15 * minute

pub data Reason : Type 0 where
  stuck_provisioning past_ttl vm_not_running : Reason

-- any(not vm_running(…)): `none` is ProxmoxError.
unfoldable pub any_stopped : Env → List VmInstance → Site → Option Bool
any_stopped env [] s = some false
any_stopped env (vm ∷ vms) s = elim (vm_running env.access vm.proxmox_vmid s).1 [
  | none ↦ none
  | some false ↦ some true
  | some true ↦ any_stopped env vms s
]

-- ci.started_at or ci.requested_at
unfoldable pub started_of : Instance → ℕ
started_of i = elim i.started_at [ none ↦ i.requested_at | some t ↦ t ]

abbrev pub stopped_reason : Option Bool → Option Reason
stopped_reason none = none
stopped_reason (some false) = none
stopped_reason (some true) = some vm_not_running

-- The reason to close a session, if there is one; `ttl` is in hours.
unfoldable pub reason_of : Env → (ttl : ℕ) → Instance → World → Option Reason
reason_of env ttl i w =
    if is_provisioning i.status
    then (if ltb (started_of i + provisioning_grace) env.now then some stuck_provisioning else none)
    else if ltb (started_of i + ttl * hour) env.now
    then some past_ttl
    else stopped_reason (any_stopped env (machines_of i.instance_id w) w.site)

-- One session of the loop, whose row is read again: the Boolean is whether nothing was raised.
unfoldable pub reap_one :
    Env → (ttl : ℕ) → ℕ → World × List (ℕ × Reason) → (World × List (ℕ × Reason)) × Bool
reap_one env ttl id (w, closed) = elim (find? (has_instance id) w.instances) [
  | none ↦ ((w, closed), false)
  | some i ↦ elim (reason_of env ttl i w) [
    | none ↦ ((w, closed), true)
    | some reason ↦
        let (w', returned) = close_instance env id abandoned w in
        elim returned [
          | false ↦ ((w', closed), false)
          | true ↦ ((w', closed ++ ((id, reason) ∷ [])), true)
        ]
  ]
]

unfoldable pub reap_from :
    Env → (ttl : ℕ) → List ℕ → World × List (ℕ × Reason) → (World × List (ℕ × Reason)) × Bool
reap_from env ttl [] state = (state, true)
reap_from env ttl (id ∷ ids) state =
    let (state', returned) = reap_one env ttl id state in
    elim returned [ false ↦ (state', false) | true ↦ reap_from env ttl ids state' ]

-- The sessions that are in progress; the rows are in the order of their keys.
unfoldable pub live_ids : World → List ℕ
live_ids w =
    map (λ (i : Instance). i.instance_id) (filter (λ i. is_live_status i.status) w.instances)

-- reap_sessions
unfoldable pub reap_sessions : Env → (ttl : ℕ) → World → (World × List (ℕ × Reason)) × Bool
reap_sessions env ttl w = reap_from env ttl (live_ids w) (w, [])

-- timer: the seconds that have passed; `none` is 404, or the exception of an attempt without a
-- start.
abbrev pub end_of : Env → Instance → ℕ
end_of env i = elim i.completed_at [
  | some t ↦ t
  | none ↦ elim i.stopped_at [ some t ↦ t | none ↦ env.now ]
]

unfoldable pub timer : Env → ℕ → ℕ → World → Option ℕ
timer env user_id id w = elim (owned_instance user_id id w) [
  | none ↦ none
  | some i ↦ elim i.started_at [ none ↦ none | some t ↦ some ((end_of env i - t) / second) ]
]
