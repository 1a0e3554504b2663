-- ===== src/Accounts/Laws.antt =====
-- Reading a row of the account table after a change to one row.
use itp2_group6_the_pond.Prelude.{
  ℕ, ◌≡◌, refl, Bool, Option, none, some, [], ◌∷◌, ◌==◌, ℕ_eq, if◌then◌else◌, arith, find?,
  update_first,
}
use itp2_group6_the_pond.Accounts.{User, Users, get_user, set_user}

-- A change that keeps the primary key.
abbrev pub KeepsId : (User → User) → Type 0
KeepsId f = (u : User) → (f u).user_id ≡ u.user_id

abbrev pub map_if : Bool → (User → User) → Option User → Option User
map_if b f none = none
map_if b f (some u) = some (if b then f u else u)

pub get_user-set_user :
    (i j : ℕ) (f : User → User) (users : Users)
    → KeepsId f
    → get_user j (set_user i f users) ≡ map_if (i == j) f (get_user j users)
unfolding get_user set_user find? update_first
get_user-set_user i j f [] keeps = refl
get_user-set_user i j f (u ∷ us) keeps = ground (arith, keeps u, get_user-set_user i j f us keeps)

pub get_user-has_id : (i : ℕ) (users : Users) (u : User) → get_user i users ≡ some u → u.user_id ≡ i
unfolding get_user find?
get_user-has_id i [] u h = cc
get_user-has_id i (v ∷ vs) u h = ground (arith, get_user-has_id i vs u)
