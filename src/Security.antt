-- ===== src/Security.antt =====
-- Credential handling: pond-sec/app/security.py. Hashing is werkzeug's, a parameter here; the
-- random choices of a temporary password and the salt of a hash are arguments.
pub mod Laws
pub mod Lockout
pub mod Temporary
use itp2_group6_the_pond.Prelude.{
  ℕ, ◌+◌, ◌-◌, ◌*◌, ◌/◌, ◌%◌, ◌≡◌, Bool, true, false, ◌&&◌, ◌||◌, not, Option, none, some, List, [],
  ◌∷◌, ◌++◌, Text, Text_eq, String, codes, ◌==◌, ltb, leb, length, if◌then◌else◌, any, max, minute,
}
use itp2_group6_the_pond.Strings.{lower, contains}
use itp2_group6_the_pond.Accounts.{User, UserCredential, Users, Row, get_user, set_user}

-- werkzeug.security: generate_password_hash with the salt that it draws, and check_password_hash.
pub record Hasher : Type 0 where
  pub generate : ℕ → Text → Text
  pub check : Text → Text → Bool

-- The settings of pond-sec/app/config.py that are read here and by the views.
pub record Config : Type 0 where
  pub max_login_attempts : ℕ
  pub lockout_minutes : ℕ
  pub min_password_length : ℕ
  pub max_field_length : ℕ
  pub idle_timeout_minutes : ℕ

pub data Problem : Type 0 where
  too_short has_username on_wordlists : Problem

abbrev pub common_passwords : List Text
common_passwords = codes "password" ∷ codes "passw0rd" ∷ codes "letmein" ∷ codes "changeme" ∷ []

abbrev pub report : Bool → Problem → List Problem
report true p = p ∷ []
report false p = []

unfoldable pub password_problems : Config → Text → Text → List Problem
password_problems config password username =
    report (ltb (length password) config.min_password_length) too_short
    ++ report (not (username == []) && contains (lower username) (lower password)) has_username
    ++ report (any (λ t. lower password == t) common_passwords) on_wordlists

-- The row that set_password leaves; without credentials it is created.
unfoldable pub with_password : Text → Bool → ℕ → Option UserCredential → UserCredential
with_password hash must_change now none = record {
  password_hash = hash;
  password_changed_at = now;
  must_change_password = must_change;
  failed_login_count = 0;
  locked_until = none;
}
with_password hash must_change now (some c) = record c {
  password_hash = hash;
  password_changed_at = now;
  must_change_password = must_change;
}

abbrev pub put_password : Text → Bool → ℕ → User → User
put_password hash must_change now u = record u {
  credentials = some (with_password hash must_change now u.credentials);
}

abbrev pub password_set : Text → Bool → ℕ → ℕ → Users → Users
password_set hash must_change id now = set_user id (put_password hash must_change now)

unfoldable pub cleared : UserCredential → UserCredential
cleared c = record c { failed_login_count = 0; locked_until = none }

abbrev pub map_credentials : (UserCredential → UserCredential) → User → User
map_credentials f u = record u {
  credentials = elim u.credentials [ none ↦ none | some c ↦ some (f c) ];
}

-- Nothing happens to an account that is not there or has no credentials.
unfoldable pub clear_lockout : ℕ → Users → Users
unfolding cleared
clear_lockout id users = set_user id (map_credentials cleared) users

-- The credentials of an account, `none` if either is missing.
unfoldable pub credentials_of : ℕ → Users → Option UserCredential
credentials_of id users = elim (get_user id users) [ none ↦ none | some u ↦ u.credentials ]

module _ (hasher : Hasher) where
  -- `none` is the AttributeError on an account that is not there.
  unfoldable pub set_password : ℕ → ℕ → Text → Bool → ℕ → Users → Option Users
  set_password salt id password must_change now users = elim (get_user id users) [
    | none ↦ none
    | some u ↦ some (password_set (hasher.generate salt password) must_change id now users)
  ]

  unfoldable pub password_matches : ℕ → Text → Users → Bool
  password_matches id password users = elim (credentials_of id users) [
    | none ↦ false
    | some c ↦ hasher.check c.password_hash password
  ]

-- Minutes left on a lockout, 0 if the account is usable; an expired lockout is cleared.
unfoldable pub lockout_remaining : Row → ℕ → Users → ℕ × Users
lockout_remaining row now users = elim row.locked_until [
  | none ↦ (0, users)
  | some until ↦
      if leb until now
      then (0, clear_lockout row.user_id users)
      else (max 1 ((until - now) / minute + 1), users)
]

-- `minutes or 525600`
abbrev pub lock_minutes : ℕ → ℕ
lock_minutes minutes = if leb minutes 0 then 525600 else minutes

unfoldable pub struck : Config → ℕ → UserCredential → UserCredential
struck config now c =
    let attempts = c.failed_login_count + 1 in
    if leb config.max_login_attempts attempts
    then record c {
      failed_login_count = attempts;
      locked_until = some (now + lock_minutes config.lockout_minutes * minute);
    }
    else record c { failed_login_count = attempts }

-- The attempts so far and whether they lock the account. `none` is an exception: the account is not
-- there, or it has no credentials row. The code creates that row, but the column default of
-- `failed_login_count` is filled in only when the row is written, so `None + 1` is reached first.
unfoldable pub register_failure : Config → ℕ → ℕ → Users → Option (ℕ × Bool × Users)
register_failure config id now users = elim (credentials_of id users) [
  | none ↦ none
  | some c ↦
      let attempts = c.failed_login_count + 1 in
      some (
        attempts,
        leb config.max_login_attempts attempts,
        set_user id (map_credentials (struck config now)) users,
      )
]
