-- ===== src/Attempts/Ends.antt =====
-- What _close of themes.py does to the view of the attempts, and what every route and the reaper
-- keep of it: one attempt in progress for each user.
use itp2_group6_the_pond.Prelude.{
  ℕ, ◌≡◌, ◌≤◌, ◌⊎◌, refl, inl, inr, ap, ◌∙◌, false, some, List, [], ◌∷◌, ℕ_eq, count, find?,
  find?-sound, update_first, arith, Option-cases,
}
use itp2_group6_the_pond.Sessions.{
  SessionStatus, Instance, World, Env, has_instance, set_instance, is_live_status, end_row,
  end_session, machines_of, close_started, close_instance,
}
use itp2_group6_the_pond.Attempts.View.{
  Seat, view, is_seat, seat_status, view-status, Shows, close_machines-Shows, stop_docker-Shows,
}
use itp2_group6_the_pond.Attempts.Single.{is_active_seat, IsSingle}

-- The view after the attempt with the key has ended.
abbrev pub end_seat : ℕ → SessionStatus → List Seat → List Seat
end_seat id status seats = update_first (is_seat id) (seat_status status) seats

close_started-view :
    (env : Env) (i : Instance) (status : SessionStatus) (w : World)
    → view (close_started env i status w).0 ≡ end_seat i.instance_id status (view w)
unfolding end_session Shows set_instance
close_started-view env i status w =
    close_machines-Shows env _ i.network_identifier (machines_of i.instance_id w) _ (
      stop_docker-Shows env _ i.instance_id _
        (view-status i.instance_id status (end_row status env.now) w.instances (λ j. refl)))

find-key :
    (id : ℕ) (rows : List Instance) (i : Instance)
    → find? (has_instance id) rows ≡ some i
    → i.instance_id ≡ id
find-key id rows i h = ground (arith, find?-sound (has_instance id) rows i h)

-- An attempt that has started is recorded with the outcome, also where the hypervisor raises.
pub close_instance-view :
    (env : Env) (id : ℕ) (status : SessionStatus) (w : World) (i : Instance) (t : ℕ)
    → find? (has_instance id) w.instances ≡ some i
    → i.started_at ≡ some t
    → view (close_instance env id status w).0 ≡ end_seat id status (view w)
unfolding close_instance
close_instance-view env id status w i t found begun =
    rw (close_instance, found, begun)
      (close_started-view env i status w
        ∙ ap (λ key. end_seat key status (view w)) (find-key id w.instances i found))

-- Without the row, or its start, nothing changes.
close_instance-either :
    (env : Env) (id : ℕ) (status : SessionStatus) (w : World)
    → (view (close_instance env id status w).0 ≡ view w)
      ⊎ (view (close_instance env id status w).0 ≡ end_seat id status (view w))
unfolding close_instance
close_instance-either env id status w = elim (Option-cases (find? (has_instance id) w.instances)) [
  | inl absent ↦ inl (rw (close_instance, absent) refl)
  | inr (i, found) ↦ elim (Option-cases i.started_at) [
    | inl unstarted ↦ inl (rw (close_instance, found, unstarted) refl)
    | inr (t, begun) ↦ inr (close_instance-view env id status w i t found begun)
  ]
]

end_seat-count :
    (u id : ℕ) (status : SessionStatus) (seats : List Seat)
    → is_live_status status ≡ false
    → count (is_active_seat u) (end_seat id status seats) ≤ count (is_active_seat u) seats
unfolding count update_first
end_seat-count u id status [] over = omega arith
end_seat-count u id status ((key, user_id, old) ∷ seats) over =
    ground (arith, end_seat-count u id status seats over)

pub close_instance-IsSingle :
    (env : Env) (id : ℕ) (status : SessionStatus) (w : World)
    → is_live_status status ≡ false
    → IsSingle (view w)
    → IsSingle (view (close_instance env id status w).0)
unfolding IsSingle
close_instance-IsSingle env id status w over single u =
    elim (close_instance-either env id status w) [
      | inl same ↦ rw same (single u)
      | inr ended ↦ rw ended (
          let fewer = end_seat-count u id status (view w) over in let one = single u in omega arith)
    ]
