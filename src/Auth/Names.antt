-- ===== src/Auth/Names.antt =====
-- Accounts as auth.py finds them: by a name that is unique up to case, with credentials.
use itp2_group6_the_pond.Prelude.{
  ℕ, ◌≤◌, ◌≡◌, inl, inr, refl, true, some, Text, arith, Option-cases, count, one_or_none-filter,
  find?, All, All-find?,
}
use itp2_group6_the_pond.Accounts.{
  User, UserCredential, Users, Row, row_from_user, row_of, is_called, get_user,
  get_user_row_by_username, is_some,
}
use itp2_group6_the_pond.Security.{
  Hasher, credentials_of, cleared, clear_lockout, lockout_remaining, password_matches,
}
use itp2_group6_the_pond.Security.Lockout.{lockout_remaining_lem}
use itp2_group6_the_pond.Security.Laws.{credentials_of-clear_lockout}

-- No two accounts have names that differ in case only.
abbrev pub IsUnique : Users → Type 0
IsUnique users = (name : Text) → count (is_called name) users ≤ 1

pub by_username :
    (name : Text) (users : Users)
    → IsUnique users
    → get_user_row_by_username name users ≡ some (row_of (find? (is_called name) users))
unfolding get_user_row_by_username
by_username name users unique =
    rw (one_or_none-filter (is_called name) users (unique name), get_user_row_by_username) refl

-- Every account can be found by its key, and has credentials.
abbrev pub IsComplete : Users → Type 0
IsComplete users = All (λ (u : User). is_some (credentials_of u.user_id users) ≡ true) users

-- Clearing a lockout keeps the password.
pub credentials-cleared :
    (id : ℕ) (users : Users) (c : UserCredential)
    → credentials_of id users ≡ some c
    → credentials_of id (clear_lockout id users) ≡ some (cleared c)
credentials-cleared id users c found = ground (arith, credentials_of-clear_lockout id id users)

pub credentials-kept :
    (row : Row) (now : ℕ) (users : Users) (c : UserCredential)
    → credentials_of row.user_id users ≡ some c
    → (c' : UserCredential) × (credentials_of row.user_id (lockout_remaining row now users).1
        ≡ some c')
      × (c'.password_hash ≡ c.password_hash)
unfolding cleared
credentials-kept row now users c found = elim (lockout_remaining_lem row now users) [
  | inl (_, _, same) ↦ (c, rw same found, refl)
  | inr (_, _, inl (_, _, without)) ↦
      (cleared c, rw without (credentials-cleared row.user_id users c found), refl)
  | inr (_, _, inr (_, _, _, _, same)) ↦ (c, rw same found, refl)
]

pub account-there :
    (id : ℕ) (users : Users) (c : UserCredential)
    → credentials_of id users ≡ some c
    → (u : User) × (get_user id users ≡ some u)
unfolding credentials_of
account-there id users c found = elim (Option-cases (get_user id users)) [
  | inl missing ↦ absurd (cc (rw (missing, credentials_of) at found))
  | inr (u, there) ↦ (u, there)
]

pub matches-eq :
    (hasher : Hasher) (id : ℕ) (password : Text) (users : Users) (c : UserCredential)
    → credentials_of id users ≡ some c
    → password_matches hasher id password users ≡ hasher.check c.password_hash password
unfolding password_matches
matches-eq hasher id password users c found = rw (found, password_matches) refl

pub row_from_user-id : (u : User) → (row_from_user u).user_id ≡ u.user_id
unfolding row_from_user
row_from_user-id u = ground arith

-- An account that a name finds has credentials.
pub named-credentials :
    (username : Text) (users : Users) (u : User)
    → IsComplete users
    → find? (is_called username) users ≡ some u
    → (c : UserCredential) × (credentials_of (row_from_user u).user_id users ≡ some c)
unfolding is_some
named-credentials username users u complete found =
    let there =
      All-find? (λ (v : User). is_some (credentials_of v.user_id users) ≡ true) (is_called username)
        users u complete found in
    elim (Option-cases (credentials_of u.user_id users)) [
      | inl missing ↦ absurd (cc (rw missing at there))
      | inr (c, has) ↦ (c, rw (row_from_user-id u) has)
    ]
