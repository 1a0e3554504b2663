-- ===== src/Auth.antt =====
-- Sign-in and the hooks before each request: pond-sec/app/auth.py, with session_is_idle of
-- pond-sec/app/__init__.py. A call's readings of the clock are numbered in their order.
pub mod Register
pub mod Gates
pub mod Names
pub mod Login
pub mod Csrf
use itp2_group6_the_pond.Prelude.{
  ℕ, ◌+◌, ◌-◌, ◌*◌, Bool, true, false, ◌&&◌, ◌||◌, not, Option, none, some, List, [], ◌∷◌, ◌++◌,
  String, String_eq, Text, Text_eq, codes, ◌==◌, ℕ_eq, if◌then◌else◌, ltb, leb, take, any, Clock,
  minute,
}
use itp2_group6_the_pond.Strings.{strip, lower, starts_with}
use itp2_group6_the_pond.Audit.{AuditLog, record_event}
use itp2_group6_the_pond.Accounts.{
  Approval, approved, pending, rejected, Users, Row, get_user_row, get_user_row_by_username,
  touch_last_login,
}
use itp2_group6_the_pond.Security.{
  Hasher, Config, clear_lockout, lockout_remaining, password_matches, register_failure,
}
use itp2_group6_the_pond.Throttle.{Table, hit, clear}
use itp2_group6_the_pond.Admin.{is_approved}

-- The category of a message to the user.
pub data Category : Type 0 where
  info_message success_message error_message : Category

-- The keys of the session cookie. `seen` is written by session_is_idle only, so it parses as a time;
-- `flashes` has the messages by their categories, until a page shows them.
pub record Session : Type 0 where
  pub user_id : Option ℕ
  pub seen : Option ℕ
  pub csrf : Option Text
  pub permanent : Option Bool
  pub flashes : List Category

abbrev pub no_session : Session
no_session = record { user_id = none; seen = none; csrf = none; permanent = none; flashes = [] }

pub record Site : Type 0 where
  pub users : Users
  pub log : List AuditLog
  pub throttle : Table
  pub session : Session
  -- The names in the table of roles.
  pub roles : List String

-- flash(), once for each category
abbrev pub flash : List Category → Site → Site
flash messages site = record site {
  session = record site.session { flashes = site.session.flashes ++ messages };
}

-- field(): trimmed and cut.
unfoldable pub field : Config → Text → Text
field config raw = take config.max_field_length (strip raw)

-- Where a sign-in that succeeds leads.
pub data Destination : Type 0 where
  to_pending to_change_password to_dashboard : Destination
  to_path : Text → Destination

unfoldable pub destination : Row → Text → Destination
destination row next =
    if not (is_approved row.approval_status)
    then to_pending
    else if row.must_change_password
    then to_change_password
    else if starts_with (codes "/") next && not (starts_with (codes "//") next)
    then to_path next
    else to_dashboard

-- The answers to a sign-in: the seconds to wait, the minutes of a lockout, the failures so far and
-- whether they lock the account.
pub data Page : Type 0 where
  throttled : ℕ → Page
  no_account : Page
  locked : ℕ → Page
  wrong_password : ℕ → Bool → Page
  welcome : Destination → Page

-- The second limit of a sign-in, if the first allowed it.
unfoldable pub then_by_name : Text → Clock → Option (Bool × ℕ × Table) → Option (Bool × ℕ × Table)
then_by_name username clock none = none
then_by_name username clock (some (false, wait, table)) = some (false, wait, table)
then_by_name username clock (some (true, wait, table)) =
    hit "login_user" (lower username) (λ i. clock (i + 2)) table

-- The limits on the source and on the name, each with two readings of the clock.
unfoldable pub login_limits : Text → Text → Clock → Table → Option (Bool × ℕ × Table)
login_limits source username clock table =
    then_by_name username clock (hit "login_ip" source clock table)

-- What an account that is not approved is told.
abbrev pub approval_messages : Approval → List Category
approval_messages approved = []
approval_messages rejected = error_message ∷ []
approval_messages pending = info_message ∷ []

-- The session of a sign-in: the old one is cleared, and with it the token.
abbrev pub new_session : Row → Session
new_session row = record no_session {
  user_id = some row.user_id;
  permanent = some false;
  flashes = approval_messages row.approval_status;
}

-- The site with a new session after a sign-in.
abbrev pub signed_in : Row → Text → Text → Users → Site → Site
signed_in row source username users site = record site {
  users = users;
  log = record_event "login.success" (some row.user_id) (some username) site.log;
  throttle = clear "login_ip" source (clear "login_user" (lower username) site.throttle);
  session = new_session row;
}

abbrev pub is_sent : (Text → Bool) → Destination → Bool
is_sent can_redirect to_pending = true
is_sent can_redirect to_change_password = true
is_sent can_redirect to_dashboard = true
is_sent can_redirect (to_path path) = can_redirect path

-- `can_redirect` says whether redirect takes a path from the query, or raises.
unfoldable pub sign_in : (Text → Bool) → Row → Text → Text → Text → ℕ → Site → Option (Page × Site)
sign_in can_redirect row source username next now site =
    elim (touch_last_login row.user_id now (clear_lockout row.user_id site.users)) [
      | none ↦ none
      | some users ↦
          if is_sent can_redirect (destination row next)
          then some (welcome (destination row next), signed_in row source username users site)
          else none
    ]

abbrev pub logged : String → Option ℕ → Text → Site → Site
logged event user_id username site = record site {
  log = record_event event user_id (some username) site.log;
}

module _ (hasher : Hasher) (config : Config) (can_redirect : Text → Bool) where
  unfoldable pub wrong : Row → Text → ℕ → Site → Option (Page × Site)
  wrong row username now site = elim (register_failure config row.user_id now site.users) [
    | none ↦ none
    | some (attempts, is_locked, users) ↦ some (
      wrong_password attempts is_locked,
      flash (error_message ∷ [])
          (logged "login.failure" (some row.user_id) username (record site { users = users })),
    )
  ]

  -- The password of an account that is there: reading 4 is for its lockout, 5 for what follows.
  unfoldable pub with_account :
      Row → Text → Text → Text → Text → Clock → Site → Option (Page × Site)
  with_account row source username password next clock site =
      let remaining = lockout_remaining row (clock 4) site.users in
      let site' = record site { users = remaining.1 } in
      if ltb 0 remaining.0
      then some (
        locked remaining.0,
        flash (error_message ∷ []) (logged "login.locked_out" (some row.user_id) username site'),
      )
      else if password_matches hasher row.user_id password site'.users
      then sign_in can_redirect row source username next (clock 5) site'
      else wrong row username (clock 5) site'

  unfoldable pub with_limits :
      Text → Text → Text → Text → Clock → Site → Option (Bool × ℕ × Table) → Option (Page × Site)
  with_limits source username password next clock site none = none
  with_limits source username password next clock site (some (false, wait, table)) = some (
    throttled wait,
    flash (error_message ∷ [])
        (logged "login.throttled" none username (record site { throttle = table })),
  )
  with_limits source username password next clock site (some (true, wait, table)) =
      let site' = record site { throttle = table } in
      elim (get_user_row_by_username username site.users) [
        | none ↦ none
        | some none ↦
            some
              (no_account, flash (error_message ∷ []) (logged "login.failure" none username site'))
        | some (some row) ↦ with_account row source username password next clock site'
      ]

  -- The POST of /login; `next` is the query's field. `none` is an exception.
  unfoldable pub login : Text → Text → Text → Text → Clock → Site → Option (Page × Site)
  login source raw_username raw_password next clock site =
      let username = field config raw_username in
      with_limits source username (take 200 raw_password) next clock site
        (login_limits source username clock site.throttle)

-- /logout: session.clear(), csrf.rotate() and a message.
unfoldable pub logout : Site → Site
logout site = flash (info_message ∷ []) (record site { session = no_session })

-- session_is_idle(), with the reading of the clock that it makes; a fresh visit is written down.
unfoldable pub session_is_idle : Config → ℕ → Session → Bool × Session
session_is_idle config now session =
    let limit = config.idle_timeout_minutes in
    let visited = record session { seen = some now } in
    if leb limit 0 then (false, session) else elim session.seen [
      | none ↦ (false, visited)
      | some seen_at ↦
          if ltb (seen_at + limit * minute) now then (true, session) else (false, visited)
    ]

-- The signed-in row that is left after the check of its lockout.
unfoldable pub unless_locked : Row → ℕ → Site → Option Row × Site
unless_locked row now site =
    let remaining = lockout_remaining row now site.users in
    let site' = record site { users = remaining.1 } in
    if ltb 0 remaining.0
    then (none, flash (error_message ∷ []) (record site' { session = no_session }))
    else (some row, site')

-- load_logged_in_user: g.user, and the site that the hook leaves.
unfoldable pub load_from : Config → Clock → Option ℕ → Site → Option Row × Site
load_from config clock none site = (none, site)
load_from config clock (some id) site =
    let idle = session_is_idle config (clock 0) site.session in
    if idle.0
    then (none, flash (info_message ∷ []) (record site { session = no_session }))
    else elim (get_user_row id site.users) [
      | none ↦ (none, record site { session = no_session })
      | some row ↦ unless_locked row (clock 1) (record site { session = idle.1 })
    ]

unfoldable pub load_logged_in_user : Config → Clock → Site → Option Row × Site
load_logged_in_user config clock site = load_from config clock site.session.user_id site

-- What the hooks decide: the view runs for g.user, or the request is sent elsewhere.
pub data Verdict : Type 0 where
  view : Option Row → Verdict
  redirect_pending redirect_change : Verdict

abbrev pub open_to_pending : String → Bool
open_to_pending endpoint =
    endpoint == "auth.pending" || (endpoint == "auth.logout" || endpoint == "static")

abbrev pub open_to_temporary : String → Bool
open_to_temporary endpoint =
    endpoint == "auth.change_password" || (endpoint == "auth.logout" || endpoint == "static")

-- gate_unapproved_accounts, and then force_password_change.
unfoldable pub gates : String → Option Row → Verdict
gates endpoint none = view none
gates endpoint (some row) =
    if not (is_approved row.approval_status) && not (open_to_pending endpoint)
    then redirect_pending
    else if row.must_change_password && not (open_to_temporary endpoint)
    then redirect_change
    else view (some row)

-- The message of a gate.
abbrev pub told : Verdict → Site → Site
told (view user) site = site
told redirect_pending site = flash (info_message ∷ []) site
told redirect_change site = site

-- The hooks that create_app registers, in their order, from the loading of the user on.
unfoldable pub before_request : Config → String → Clock → Site → Verdict × Site
before_request config endpoint clock site =
    let loaded = load_logged_in_user config clock site in
    let verdict = gates endpoint loaded.0 in (verdict, told verdict loaded.1)
