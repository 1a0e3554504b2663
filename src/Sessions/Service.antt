-- ===== src/Sessions/Service.antt =====
-- The Docker service of a session: start and stop of container_lab.py. The deployment's adapter is a
-- parameter, `none` where it is not configured.
use itp2_group6_the_pond.Prelude.{
  Bool, true, false, ◌&&◌, not, Option, none, some, List, [], ◌∷◌, ◌++◌, Text, leb, length,
  if◌then◌else◌,
}
use itp2_group6_the_pond.Strings.{strip, is_blank}

pub data DockerStatus : Type 0 where
  not_requested requested active cleanup_pending closed : DockerStatus

-- The columns docker_… of an attempt; of the error, whether it is set.
pub record Docker : Type 0 where
  pub challenge_key : Option Text
  pub operation_key : Option Text
  pub session_ref : Option Text
  pub docker_status : DockerStatus
  pub has_error : Bool

-- What is asked of the service, with the operation's key.
pub data LabCall : Type 0 where
  start_lab stop_lab : Option Text → LabCall

-- The service's answers to the calls that were made: the text that start returns, `none` where it
-- raises or returns something else, and whether stop returns True.
pub record Adapter : Type 0 where
  pub starts : List LabCall → Docker → Option Text
  pub stops : List LabCall → Docker → Bool

abbrev pub Lab : Type 0
Lab = Docker × List LabCall

-- The references that are accepted.
unfoldable pub is_reference : Text → Bool
is_reference reference = not (is_blank (strip reference)) && leb (length reference) 255

abbrev pub activated : Docker → Text → Docker
activated d reference = record d { session_ref = some reference; docker_status = active }

abbrev pub pending : Docker → Docker
pending d = record d { docker_status = cleanup_pending; has_error = true }

-- The service's answer to a request; the Boolean is whether start returns.
unfoldable pub answered : Docker → List LabCall → Option Text → Lab × Bool
answered d calls none = ((pending d, calls), false)
answered d calls (some reference) =
    if is_reference reference
    then ((activated d reference, calls), true)
    else ((pending d, calls), false)

-- The row as it is committed before the request.
abbrev pub request_row : Text → Docker → Docker
request_row key d = record d {
  operation_key = some key;
  docker_status = requested;
  has_error = false;
}

abbrev pub start_with : Adapter → Text → Lab → DockerStatus → Lab × Bool
start_with service key (d, calls) active = ((d, calls), true)
start_with service key (d, calls) not_requested =
    answered (request_row key d) (calls ++ (start_lab (some key) ∷ []))
      (service.starts calls (request_row key d))
start_with service key (d, calls) requested = ((d, calls), false)
start_with service key (d, calls) cleanup_pending = ((d, calls), false)
start_with service key (d, calls) closed = ((d, calls), false)

-- start: `key` is the new random key.
unfoldable pub start : Option Adapter → Text → Lab → Lab × Bool
start none key lab = (lab, false)
start (some service) key lab = start_with service key lab lab.0.docker_status

-- Nothing to stop: docker_status in {"not_requested", "closed"}
unfoldable pub is_released : DockerStatus → Bool
is_released not_requested = true
is_released closed = true
is_released requested = false
is_released active = false
is_released cleanup_pending = false

abbrev pub acknowledged : Docker → Bool → Docker
acknowledged d true = record d { docker_status = closed; has_error = false }
acknowledged d false = pending d

abbrev pub ask_stop : Option Adapter → Lab → Lab × Bool
ask_stop none (d, calls) = ((pending d, calls), false)
ask_stop (some service) (d, calls) =
    let answer = service.stops calls (record d { docker_status = cleanup_pending }) in
    ((acknowledged d answer, calls ++ (stop_lab d.operation_key ∷ [])), answer)

-- stop
unfoldable pub stop : Option Adapter → Lab → Lab × Bool
stop service lab =
    let asked = ask_stop service lab in
    if is_released lab.0.docker_status then (lab, true) else asked
