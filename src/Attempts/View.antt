-- ===== src/Attempts/View.antt =====
-- The attempts of the sessions in themes.py as an abstract view: who holds which attempt, and in
-- which status.
use itp2_group6_the_pond.Prelude.{
  ℕ, ◌≡◌, refl, inl, inr, ap, ◌∙◌, Bool, Option, List, [], ◌∷◌, ◌++◌, map, ◌==◌, ℕ_eq, count,
  update_first, arith, Bool-cases, Text,
}
use itp2_group6_the_pond.Provisioner.{VmInstance}
use itp2_group6_the_pond.Sessions.{
  SessionStatus, provisioning, Instance, Lab, World, Env, has_instance, set_instance, put_lab,
  PublishedChallenge, Assignment, Cloned, bring_up, stop_docker, destroy_all, drop_network,
  close_machines,
}
use itp2_group6_the_pond.Attempts.Frames.{
  bring_up_keeps, undo_keeps, close_machines_keeps, stop_docker_keeps,
}

-- An attempt: its key, its user and its status.
abbrev pub Seat : Type 0
Seat = ℕ × ℕ × SessionStatus

abbrev pub seat_of : Instance → Seat
seat_of i = (i.instance_id, i.user_id, i.status)

abbrev pub view : World → List Seat
view w = map seat_of w.instances

abbrev pub is_seat : ℕ → Seat → Bool
is_seat id (key, user_id, status) = key == id

abbrev pub seat_status : SessionStatus → Seat → Seat
seat_status status (key, user_id, old) = (key, user_id, status)

-- A change that leaves the view's part of a row.
pub view-same :
    (id : ℕ) (f : Instance → Instance) (rows : List Instance)
    → ((i : Instance) → seat_of (f i) ≡ seat_of i)
    → map seat_of (update_first (has_instance id) f rows) ≡ map seat_of rows
unfolding update_first
view-same id f [] same = refl
view-same id f (i ∷ rows) same = elim (Bool-cases (has_instance id i)) [
  | inl here ↦ rw here (ap (λ seat. seat ∷ map seat_of rows) (same i))
  | inr there ↦ rw there (ap (λ seats. seat_of i ∷ seats) (view-same id f rows same))
]

-- A change of the status.
pub view-status :
    (id : ℕ) (status : SessionStatus) (f : Instance → Instance) (rows : List Instance)
    → ((i : Instance) → seat_of (f i) ≡ seat_status status (seat_of i))
    → map seat_of (update_first (has_instance id) f rows)
      ≡ update_first (is_seat id) (seat_status status) (map seat_of rows)
unfolding update_first
view-status id status f [] same = refl
view-status id status f (i ∷ rows) same = elim (Bool-cases (has_instance id i)) [
  | inl here ↦ rw here (ap (λ seat. seat ∷ map seat_of rows) (same i))
  | inr there ↦ rw there (ap (λ seats. seat_of i ∷ seats) (view-status id status f rows same))
]

pub map-snoc :
    (rows : List Instance) (i : Instance)
    → map seat_of (rows ++ (i ∷ [])) ≡ map seat_of rows ++ (seat_of i ∷ [])
map-snoc [] i = refl
map-snoc (r ∷ rows) i = ap (λ seats. seat_of r ∷ seats) (map-snoc rows i)

-- The last seat has the key, and no other.
pub update-last :
    (id user_id : ℕ) (status : SessionStatus) (seats : List Seat)
    → count (is_seat id) seats ≡ 0
    → update_first (is_seat id) (seat_status status) (seats ++ ((id, user_id, provisioning) ∷ []))
      ≡ seats ++ ((id, user_id, status) ∷ [])
unfolding update_first count
update-last id user_id status [] fresh = ground arith
update-last id user_id status (s ∷ seats) fresh = elim (Bool-cases (is_seat id s)) [
  | inl here ↦ let bad = rw here at fresh in ground arith
  | inr there ↦
      rw there (ap (λ rest. s ∷ rest) (update-last id user_id status seats (rw there at fresh)))
]

unfoldable pub Shows : List Seat → World → Type 0
Shows seats w = view w ≡ seats

pub put_lab-Shows :
    (seats : List Seat) (id : ℕ) (lab : Lab) (w : World)
    → Shows seats w
    → Shows seats (put_lab id lab w)
unfolding Shows set_instance
put_lab-Shows seats id lab w h =
    view-same id (λ i. record i { docker = lab.0 }) w.instances (λ i. refl) ∙ h

module _ (env : Env) (seats : List Seat) where
  pub bring_up-Shows :
      (challenge : PublishedChallenge) (id : ℕ) (username : Text) (vnet : Option Text)
      (egress : Option (List Text)) (assignments : List Assignment) (w : World)
      → Shows seats w
      → Shows seats (bring_up env challenge id username vnet egress assignments w).0
  unfolding Shows
  bring_up-Shows =
      bring_up_keeps env (Shows seats) (λ l i w h. h) (λ v n w h. h) (λ v w h. h) (λ v i p w h. h)
        (put_lab-Shows seats) (λ vm w h. h)

  pub undo-Shows :
      (id : ℕ) (vnet : Option Text) (made : List Cloned) (w : World)
      → Shows seats w
      → Shows seats (drop_network env vnet (destroy_all env made (stop_docker env id w)))
  unfolding Shows
  undo-Shows =
      undo_keeps env (Shows seats) (λ l i w h. h) (λ v n w h. h) (λ v w h. h) (λ v i p w h. h)
        (put_lab-Shows seats) (λ vm w h. h)

  pub close_machines-Shows :
      (vnet : Option Text) (vms : List VmInstance) (w : World)
      → Shows seats w
      → Shows seats (close_machines env vnet vms w).0
  unfolding Shows
  close_machines-Shows =
      close_machines_keeps env (Shows seats) (λ l i w h. h) (λ v n w h. h) (λ v w h. h)
        (λ v i p w h. h) (put_lab-Shows seats) (λ vm w h. h)

  pub stop_docker-Shows : (id : ℕ) (w : World) → Shows seats w → Shows seats (stop_docker env id w)
  unfolding Shows
  stop_docker-Shows =
      stop_docker_keeps env (Shows seats) (λ l i w h. h) (λ v n w h. h) (λ v w h. h)
        (λ v i p w h. h) (put_lab-Shows seats) (λ vm w h. h)
