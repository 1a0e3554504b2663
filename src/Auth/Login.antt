-- ===== src/Auth/Login.antt =====
-- What a sign-in in auth.py does to the session.
use itp2_group6_the_pond.Prelude.{
  ℕ, ◌+◌, ◌≡◌, ◌≢◌, ◌⊎◌, inl, inr, refl, ◌∙◌, ap, Bool, true, false, Option, none, some, [], ◌∷◌,
  ◌++◌, Text, Clock, arith, Bool-cases, Option-cases, ltb, leb, find?, take,
}
use itp2_group6_the_pond.Accounts.{
  UserCredential, Users, Row, row_from_user, row_of, is_called, get_user_row_by_username,
  touch_last_login, set_user,
}
use itp2_group6_the_pond.Security.{
  Hasher, Config, map_credentials, struck, credentials_of, cleared, clear_lockout,
  lockout_remaining, password_matches, register_failure,
}
use itp2_group6_the_pond.Throttle.{Table, limits}
use itp2_group6_the_pond.Strings.{lower}
use itp2_group6_the_pond.Throttle.Answers.{hit-answers}
use itp2_group6_the_pond.Auth.{
  Session, Site, new_session, flash, error_message, is_sent, Page, throttled, no_account, locked,
  wrong_password, welcome, Destination, field, destination, logged, signed_in, then_by_name,
  login_limits, sign_in, wrong, with_account, with_limits, login,
}
use itp2_group6_the_pond.Auth.Names.{
  IsUnique, by_username, IsComplete, credentials-kept, credentials-cleared, account-there,
  matches-eq, named-credentials,
}
use itp2_group6_the_pond.Auth.Gates.{IsFree, lockout_remaining-IsFree}

login_limits-answers :
    (source username : Text) (clock : Clock) (table : Table)
    → (allowed : Bool) × (wait : ℕ) × (table' : Table) × (login_limits source username clock table
        ≡ some (allowed, wait, table'))
unfolding login_limits then_by_name
login_limits-answers source username clock table =
    let (first, wait, table', by_ip) =
      hit-answers "login_ip" source clock table 15 900 (unfold limits in refl) in
    let (second, wait', table'', by_name) =
      hit-answers "login_user" (lower username) (λ i. clock (i + 2)) table' 10 900
        (unfold limits in refl) in
    elim (Bool-cases first) [
      | inl allowed ↦ (second, wait', table'', rw (by_ip, allowed, login_limits) by_name)
      | inr denied ↦ (false, wait, table', rw (by_ip, denied, login_limits) refl)
    ]

-- A sign-in that succeeds, with what it found.
abbrev pub Welcomed : Hasher → Text → Text → ℕ → Users → Page → Session → Type 0
Welcomed hasher username password now users page session =
    (d : Destination) × (row : Row) × (page ≡ welcome d)
    × (get_user_row_by_username username users ≡ some (some row))
    × (password_matches hasher row.user_id password users ≡ true)
    × IsFree row now
    × (session ≡ new_session row)

-- A session that differs from another in one more message, of an error.
abbrev pub is_told : Session → Session
is_told session = record session { flashes = session.flashes ++ (error_message ∷ []) }

-- A page other than the welcome, which only adds a message to the session.
abbrev pub Refused : Page → Session → Session → Type 0
Refused page session session' =
    ((d : Destination) → page ≢ welcome d) × (session' ≡ is_told session)

-- How the call ends: it does not raise, and welcomes or refuses.
abbrev pub Ends : Hasher → Text → Text → ℕ → Users → Session → Option (Page × Site) → Type 0
Ends hasher username password now users session result =
    (page : Page) × (site' : Site) × (result ≡ some (page, site'))
    × (Welcomed hasher username password now users page site'.session
        ⊎ Refused page session site'.session)

destination-is_sent :
    (can_redirect : Text → Bool) (row : Row) (next : Text)
    → can_redirect next ≡ true
    → is_sent can_redirect (destination row next) ≡ true
unfolding destination
destination-is_sent can_redirect row next sends = ground arith

module _ (hasher : Hasher) (config : Config) (can_redirect : Text → Bool) (row : Row)
    (username : Text) (site : Site) (c : UserCredential)
    (found : credentials_of row.user_id site.users ≡ some c) where
  sign_in-ends :
      (source next : Text) (now : ℕ)
      → can_redirect next ≡ true
      → (site' : Site) × (sign_in can_redirect row source username next now site
          ≡ some (welcome (destination row next), site'))
        × (site'.session ≡ new_session row)
  unfolding sign_in touch_last_login
  sign_in-ends source next now sends =
      let (u, there) =
        account-there row.user_id (clear_lockout row.user_id site.users) (cleared c)
          (credentials-cleared row.user_id site.users c found) in
      (
        signed_in row source username
            (set_user row.user_id (λ v. record v { last_login_at = some now })
              (clear_lockout row.user_id site.users))
            site,
        rw (there, touch_last_login, destination-is_sent can_redirect row next sends, sign_in) refl,
        refl,
      )

  wrong-ends :
      (now : ℕ)
      → (page : Page) × (site' : Site) × (wrong hasher config can_redirect row username now site
          ≡ some (page, site'))
        × Refused page site.session site'.session
  unfolding wrong register_failure
  wrong-ends now = (
    wrong_password (c.failed_login_count + 1)
        (leb config.max_login_attempts (c.failed_login_count + 1)),
    flash (error_message ∷ []) (
        logged "login.failure" (some row.user_id) username (record site {
          users = set_user row.user_id (map_credentials (struck config now)) site.users;
        })),
    rw (found, register_failure, wrong) refl,
    ((λ d e. cc e), refl),
  )

module _ (hasher : Hasher) (config : Config) (can_redirect : Text → Bool) (row : Row)
    (username : Text) (site : Site) (c : UserCredential)
    (found : credentials_of row.user_id site.users ≡ some c) where
  with_account-Ends :
      (source password next : Text) (clock : Clock)
      → can_redirect next ≡ true
      → get_user_row_by_username username site.users ≡ some (some row)
      → Ends hasher username password
          (clock 4)
          site.users
          site.session
          (with_account hasher config can_redirect row source username password next clock site)
  unfolding with_account
  with_account-Ends source password next clock sends named =
      let remaining : (ℕ × Users) = lockout_remaining row (clock 4) site.users in
      let site' : Site = record site { users = remaining.1 } in
      let (c', kept, same) = credentials-kept row (clock 4) site.users c found in
      elim (Bool-cases (ltb 0 remaining.0)) [
        | inl waits ↦ (
          locked remaining.0,
          flash (error_message ∷ []) (logged "login.locked_out" (some row.user_id) username site'),
          rw (waits, with_account) refl,
          inr ((λ d e. cc e), refl),
        )
        | inr free ↦ elim (Bool-cases (password_matches hasher row.user_id password remaining.1)) [
          | inl right ↦
              let (s', runs, session) =
                sign_in-ends hasher config can_redirect row username site' c' kept source next
                  (clock 5) sends in
              let matches : password_matches hasher row.user_id password site.users ≡ true =
                ground (
                  arith,
                  matches-eq hasher row.user_id password site.users c found,
                  matches-eq hasher row.user_id password remaining.1 c' kept,
                ) in
              (
                welcome (destination row next),
                s',
                rw (free, right, with_account) runs,
                inl (
                  destination row next,
                  row,
                  refl,
                  named,
                  matches,
                  lockout_remaining-IsFree row (clock 4) site.users free,
                  session,
                ),
              )
          | inr not_right ↦
              let (page, s', runs, refused) =
                wrong-ends hasher config can_redirect row username site' c' kept (clock 5) in
              (page, s', rw (free, not_right, with_account) runs, inr refused)
        ]
      ]

module _ (hasher : Hasher) (config : Config) (can_redirect : Text → Bool)
    (source username password next : Text) (sends : can_redirect next ≡ true) (clock : Clock)
    (site : Site) (unique : IsUnique site.users) (complete : IsComplete site.users) where
  with_limits-Ends :
      (allowed : Bool) (wait : ℕ) (table : Table)
      → Ends hasher username password (clock 4) site.users site.session (
          with_limits hasher config can_redirect source username password next clock site
            (some (allowed, wait, table)))
  unfolding with_limits row_of
  with_limits-Ends false wait table = (
    throttled wait,
    flash (error_message ∷ [])
        (logged "login.throttled" none username (record site { throttle = table })),
    refl,
    inr ((λ d e. cc e), refl),
  )
  with_limits-Ends true wait table =
      let named = by_username username site.users unique in
      elim (Option-cases (find? (is_called username) site.users)) [
        | inl nobody ↦ (
          no_account,
          flash (error_message ∷ [])
              (logged "login.failure" none username (record site { throttle = table })),
          rw (named ∙ ap (λ o. some (row_of o)) nobody, with_limits) refl,
          inr ((λ d e. cc e), refl),
        )
        | inr (u, there) ↦
            let (c, found) = named-credentials username site.users u complete there in
            let row_is : get_user_row_by_username username site.users
                ≡ some (some (row_from_user u)) =
              named ∙ ap (λ o. some (row_of o)) there in
            let (page, s', runs, ends) =
              with_account-Ends hasher config can_redirect (row_from_user u) username
                (record site { throttle = table }) c found source password next clock sends
                row_is in
            (page, s', rw (row_is, with_limits) runs, ends)
      ]

-- Where no two names differ in case only, every account has credentials and redirect takes the
-- query's next, the POST of /login does not raise, whatever else is sent. It welcomes with a new
-- session, of which only the account's id, the mark that it is not permanent and the messages on
-- approval are set, where the name finds the account, the password matches and no lockout lasts; or
-- it shows another page and only adds a message to the session.
pub login-Ends :
    (hasher : Hasher) (config : Config) (can_redirect : Text → Bool)
    (source raw_username raw_password next : Text) (clock : Clock) (site : Site)
    → IsUnique site.users
    → IsComplete site.users
    → can_redirect next ≡ true
    → Ends hasher
        (field config raw_username)
        (take 200 raw_password)
        (clock 4)
        site.users
        site.session
        (login hasher config can_redirect source raw_username raw_password next clock site)
unfolding login
login-Ends hasher config can_redirect source raw_username raw_password next clock site unique
      complete sends =
    let (allowed, wait, table, limited) =
      login_limits-answers source (field config raw_username) clock site.throttle in
    let (page, s', runs, ends) =
      with_limits-Ends hasher config can_redirect source (field config raw_username)
        (take 200 raw_password) next sends clock site unique complete allowed wait table in
    (page, s', rw (limited, login) runs, ends)
