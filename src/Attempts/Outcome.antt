-- ===== src/Attempts/Outcome.antt =====
-- The outcome of an attempt, as _close of themes.py commits it.
use itp2_group6_the_pond.Prelude.{
  ℕ, ◌≡◌, refl, inl, inr, ap, ◌∙◌, true, Option, none, some, List, [], ◌∷◌, ℕ_eq, find?,
  find?-sound, find?-update_first, update_first, arith, if◌then◌else◌, Bool-cases,
}
use itp2_group6_the_pond.Sessions.{
  SessionStatus, Instance, World, Env, Lab, has_instance, set_instance, put_lab, machines_of,
  close_instance, close_started, end_row, end_session, is_complete_status,
}
use itp2_group6_the_pond.Attempts.Frames.{close_machines_keeps, stop_docker_keeps}

abbrev pub outcome : Option Instance → Option (SessionStatus × Option ℕ × Option ℕ)
outcome none = none
outcome (some i) = some (i.status, i.stopped_at, i.completed_at)

-- The status of an attempt with the times of its end.
abbrev pub outcome_at : ℕ → World → Option (SessionStatus × Option ℕ × Option ℕ)
outcome_at id w = outcome (find? (has_instance id) w.instances)

outcome-same :
    (id other : ℕ) (lab : Lab) (rows : List Instance)
    → outcome (
        find?
          (has_instance id)
          (update_first (has_instance other) (λ i. record i { docker = lab.0 }) rows))
      ≡ outcome (find? (has_instance id) rows)
unfolding find? update_first
outcome-same id other lab [] = refl
outcome-same id other lab (i ∷ rows) = elim (Bool-cases (has_instance other i)) [
  | inl changed ↦ elim (Bool-cases (has_instance id i)) [
    | inl here ↦ rw (changed, here) refl
    | inr there ↦ rw (changed, there) refl
  ]
  | inr kept ↦ elim (Bool-cases (has_instance id i)) [
    | inl here ↦ rw (kept, here) refl
    | inr there ↦ rw (kept, there) (outcome-same id other lab rows)
  ]
]

module _ (env : Env) (id : ℕ) (o : Option (SessionStatus × Option ℕ × Option ℕ)) where
  Has : World → Type 0
  Has w = outcome_at id w ≡ o

  put_lab-Has : (other : ℕ) (lab : Lab) (w : World) → Has w → Has (put_lab other lab w)
  unfolding Has set_instance
  put_lab-Has other lab w h = outcome-same id other lab w.instances ∙ h

  closing-Has :
      (i : Instance) (status : SessionStatus) (w : World)
      → outcome_at id (end_session env i status w) ≡ o
      → outcome_at id (close_started env i status w).0 ≡ o
  unfolding Has
  closing-Has i status w h =
      close_machines_keeps env Has (λ l n w h. h) (λ v n w h. h) (λ v w h. h) (λ v a p w h. h)
        put_lab-Has (λ vm w h. h) i.network_identifier (machines_of i.instance_id w) _
        (stop_docker_keeps env Has (λ l n w h. h) (λ v n w h. h) (λ v w h. h) (λ v a p w h. h)
          put_lab-Has (λ vm w h. h) i.instance_id _ h)

end_session-outcome :
    (env : Env) (id : ℕ) (i : Instance) (status : SessionStatus) (w : World)
    → find? (has_instance id) w.instances ≡ some i
    → outcome_at id (end_session env i status w) ≡ outcome (some (end_row status env.now i))
unfolding end_session set_instance
end_session-outcome env id i status w found =
    let key : i.instance_id ≡ id =
      ground (arith, find?-sound (has_instance id) w.instances i found) in
    let here : has_instance id (end_row status env.now i) ≡ true = ground arith in
    rw key (
      ap outcome
        (find?-update_first (has_instance id) (end_row status env.now) w.instances i found here))

-- Of an attempt that has started, _close records the outcome and the time of its end, and the time
-- of its completion where it is complete: whatever the hypervisor, the adapter and the Docker
-- service answer, and also where an exception leaves the removal of the machines.
pub close_instance-outcome :
    (env : Env) (id : ℕ) (status : SessionStatus) (w : World) (i : Instance) (t : ℕ)
    → find? (has_instance id) w.instances ≡ some i
    → i.started_at ≡ some t
    → outcome_at id (close_instance env id status w).0
      ≡ some
          (status, some env.now, if is_complete_status status then some env.now else i.completed_at)
unfolding close_instance
close_instance-outcome env id status w i t found begun =
    rw (close_instance, found, begun)
      (closing-Has env id _ i status w (end_session-outcome env id i status w found))
