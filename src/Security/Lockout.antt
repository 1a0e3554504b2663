-- ===== src/Security/Lockout.antt =====
-- The lockout of security.py over a run of failed sign-ins, and the minutes that it announces.
use native.Mathlib.Decide.{dec_le}
use itp2_group6_the_pond.Prelude.{
  Option-cases, inl, inr, ◌⊎◌, ◌∙◌, ℕ, ◌+◌, ◌-◌, ◌*◌, ◌≤◌, ◌<◌, ◌≡◌, ◌≢◌, refl, Option, none, some,
  List, [], ◌∷◌, length, ℕ_eq, leb, arith, minute,
}
use itp2_group6_the_pond.Accounts.{UserCredential, Users, Row, is_some, set_user}
use itp2_group6_the_pond.Security.{
  Config, credentials_of, struck, register_failure, lockout_remaining, clear_lockout,
  map_credentials,
}
use itp2_group6_the_pond.Security.Laws.{credentials_of-set_user}

-- Failed sign-ins to one account, at the given times.
unfoldable pub strikes : Config → ℕ → List ℕ → Users → Option Users
strikes config id [] users = some users
strikes config id (now ∷ nows) users = elim (register_failure config id now users) [
  | none ↦ none
  | some (_, _, users') ↦ strikes config id nows users'
]

-- Locked exactly if the limit is reached.
abbrev IsConsistent : Config → UserCredential → Type 0
IsConsistent config c = is_some c.locked_until ≡ leb config.max_login_attempts c.failed_login_count

struck-IsConsistent :
    (config : Config) (now : ℕ) (c : UserCredential)
    → IsConsistent config c
    → IsConsistent config (struck config now c)
      × ((struck config now c).failed_login_count ≡ c.failed_login_count + 1)
unfolding struck is_some
struck-IsConsistent config now c h = ground arith

abbrev after_failure : Config → ℕ → ℕ → Users → Users
after_failure config id now = set_user id (map_credentials (struck config now))

register_failure-eq :
    (config : Config) (id now : ℕ) (users : Users) (c : UserCredential)
    → credentials_of id users ≡ some c
    → register_failure config id now users
      ≡ some (
        c.failed_login_count + 1,
        leb config.max_login_attempts (c.failed_login_count + 1),
        after_failure config id now users,
      )
unfolding register_failure
register_failure-eq config id now users c found = rw (found, register_failure)

after_failure_self :
    (config : Config) (id now : ℕ) (users : Users) (c : UserCredential)
    → credentials_of id users ≡ some c
    → credentials_of id (after_failure config id now users) ≡ some (struck config now c)
after_failure_self config id now users c found =
    ground (arith, credentials_of-set_user id id (struck config now) users)

after_failure-ne :
    (config : Config) (id now j : ℕ) (users : Users)
    → id ≢ j
    → credentials_of j (after_failure config id now users) ≡ credentials_of j users
after_failure-ne config id now j users differ =
    ground (arith, credentials_of-set_user id j (struck config now) users)

-- For an account with credentials whose lock agrees with its count of failures: failed sign-ins do
-- not raise, lock it exactly from the configured number of failures on, counted with those before,
-- and leave any other account's credentials.
pub strikes-lock :
    (config : Config) (id other : ℕ) (nows : List ℕ) (users : Users) (c : UserCredential)
    → id ≢ other
    → credentials_of id users ≡ some c
    → is_some c.locked_until ≡ leb config.max_login_attempts c.failed_login_count
    → (users' : Users) × (c' : UserCredential) × (strikes config id nows users ≡ some users')
      × (credentials_of id users' ≡ some c')
      × (c'.failed_login_count ≡ c.failed_login_count + length nows)
      × (is_some c'.locked_until
          ≡ leb config.max_login_attempts (c.failed_login_count + length nows))
      × (credentials_of other users' ≡ credentials_of other users)
unfolding strikes
strikes-lock config id other [] users c differ found h =
    (users, c, refl, found, omega arith, ground arith, refl)
strikes-lock config id other (now ∷ nows) users c differ found h =
    let (consistent, counted) = struck-IsConsistent config now c h in
    let (users', c', runs, found', count', locked, others) =
      strikes-lock config id other nows (after_failure config id now users) (struck config now c)
        differ (after_failure_self config id now users c found) consistent in
    (
      users',
      c',
      rw (register_failure-eq config id now users c found, strikes) runs,
      found',
      omega (arith, counted, count'),
      ground (arith, counted, locked),
      others ∙ after_failure-ne config id now other users differ,
    )

-- An account without a lockout, or with one that has passed, is announced as usable, and a passed
-- lockout is cleared. Otherwise nothing changes, and the minutes announced, at least one, are enough
-- and at most one too many.
pub lockout_remaining_lem :
    (row : Row) (now : ℕ) (users : Users)
    → let (minutes, users') = lockout_remaining row now users in
      ((row.locked_until ≡ none) × (minutes ≡ 0) × (users' ≡ users))
      ⊎ ((until : ℕ) × (row.locked_until ≡ some until)
          × (((until ≤ now) × (minutes ≡ 0) × (users' ≡ clear_lockout row.user_id users))
              ⊎ ((now < until)
                  × (1 ≤ minutes)
                  × (until ≤ now + minutes * minute)
                  × (now + (minutes - 1) * minute ≤ until)
                  × (users' ≡ users))))
unfolding lockout_remaining
lockout_remaining_lem row now users = elim (Option-cases row.locked_until) [
  | inl free ↦ inl (free, ground arith, ground arith)
  | inr (until, locked) ↦ inr (
    until,
    locked,
    elim (dec_le until now) [
      | yes past ↦ inl (past, ground arith, ground arith)
      | no ahead ↦ inr (omega arith, ground arith, ground arith, ground arith, ground arith)
    ],
  )
]
