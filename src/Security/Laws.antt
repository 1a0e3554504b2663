-- ===== src/Security/Laws.antt =====
-- The credentials of an account after a change to one.
use itp2_group6_the_pond.Prelude.{
  ℕ, ◌≡◌, ◌≢◌, refl, Text, none, some, Option, ◌==◌, ℕ_eq, if◌then◌else◌, arith, Bool,
}
use itp2_group6_the_pond.Accounts.{User, UserCredential, Users, get_user, set_user}
use itp2_group6_the_pond.Accounts.Laws.{get_user-set_user}
use itp2_group6_the_pond.Security.{
  Hasher, put_password, map_credentials, credentials_of, password_set, with_password, cleared,
  clear_lockout, set_password,
}

abbrev pub map_when :
    Bool → (UserCredential → UserCredential) → Option UserCredential → Option UserCredential
map_when b f none = none
map_when b f (some c) = some (if b then f c else c)

pub credentials_of-set_user :
    (i j : ℕ) (f : UserCredential → UserCredential) (users : Users)
    → credentials_of j (set_user i (map_credentials f) users)
      ≡ map_when (i == j) f (credentials_of j users)
unfolding credentials_of
credentials_of-set_user i j f users =
    ground (arith, get_user-set_user i j (map_credentials f) users (λ u. refl))

module _ (hash : Text) (must_change : Bool) (id now : ℕ) (users : Users) where
  pub credentials_of-password_set :
      (u : User)
      → get_user id users ≡ some u
      → credentials_of id (password_set hash must_change id now users)
        ≡ some (with_password hash must_change now u.credentials)
  unfolding credentials_of
  credentials_of-password_set u found =
      ground (arith, get_user-set_user id id (put_password hash must_change now) users (λ v. refl))

  pub credentials_of-password_set_ne :
      (j : ℕ)
      → id ≢ j
      → credentials_of j (password_set hash must_change id now users) ≡ credentials_of j users
  unfolding credentials_of
  credentials_of-password_set_ne j differ =
      ground (arith, get_user-set_user id j (put_password hash must_change now) users (λ v. refl))

pub credentials_of-clear_lockout :
    (id j : ℕ) (users : Users)
    → credentials_of j (clear_lockout id users)
      ≡ map_when (id == j) cleared (credentials_of j users)
unfolding clear_lockout
credentials_of-clear_lockout id j users = credentials_of-set_user id j cleared users

pub set_password-eq :
    (hasher : Hasher) (salt id : ℕ) (password : Text) (must_change : Bool) (now : ℕ) (users : Users)
    (u : User)
    → get_user id users ≡ some u
    → set_password hasher salt id password must_change now users
      ≡ some (password_set (hasher.generate salt password) must_change id now users)
unfolding set_password
set_password-eq hasher salt id password must_change now users u found = rw (found, set_password)
