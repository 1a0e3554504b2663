-- ===== src/Examples/Visits.antt =====
-- Sign-in, registration and the hooks on two accounts.
use itp2_group6_the_pond.Prelude.{◌∷◌, [], one_or_none, filter, update_first, count, find?}
use itp2_group6_the_pond.Accounts.{
  get_user_row_by_username, touch_last_login, set_user, row_of, row_from_user, row_of_credentials,
  role_to_app, to_seconds, get_user,
}
use itp2_group6_the_pond.Security.{password_matches, clear_lockout, cleared}
use itp2_group6_the_pond.Prelude.{
  ◌+◌, ◌≡◌, ◌≢◌, ◌⊎◌, inl, inr, refl, none, some, [], String_eq, Text_eq, text_eq, text_eq_iff,
  codes, ◌==◌, Clock, arith, count, find?, one_or_none, filter, update_first, take, Bool-cases,
  Text, Bool, true, false, any, not, ℕ_eq, List,
}
use itp2_group6_the_pond.Accounts.{
  Row, row_from_user, to_seconds, get_user, get_user_row, row_of, is_some,
}
use itp2_group6_the_pond.Strings.{lower, strip, lstrip, rstrip, cons_stripped, is_space}
use itp2_group6_the_pond.Audit.{record_event}
use itp2_group6_the_pond.Throttle.{
  hit, check, check_known, limits, bucket_of, is_live, clear, record_event as throttle_event,
}
use itp2_group6_the_pond.Security.{credentials_of, lockout_remaining}
use itp2_group6_the_pond.Admin.{is_approved}
use itp2_group6_the_pond.Auth.{
  Site, no_session, view, before_request, load_logged_in_user, load_from, session_is_idle,
  unless_locked, gates, login, field, login_limits, then_by_name, with_limits, with_account,
  info_message, flash, sign_in, destination, welcome, to_pending,
}
use itp2_group6_the_pond.Auth.Gates.{IsSignedIn, IsAdmitted, before_request-view}
use itp2_group6_the_pond.Auth.Names.{IsUnique, IsComplete}
use itp2_group6_the_pond.Auth.Login.{Ends, login-Ends}
use itp2_group6_the_pond.Auth.Register.{
  Form, read_form, register, Reply, Complaint, refused, errors, done, change_password,
}
use itp2_group6_the_pond.Auth.Register.Created.{Registers, register-ends}
use itp2_group6_the_pond.Auth.Register.Changed.{Changed, change_password-ends}
use itp2_group6_the_pond.Examples.Data.{bob, ada, users, config, plain, plain-IsHasher}

-- A redirect that refuses line feeds.
abbrev is_one_line : Text → Bool
is_one_line text = not (any (λ c. c == 10) text)

abbrev clock : Clock
clock i = 5000000 + i

abbrev site : Site
site = record {
  users = users;
  log = [];
  throttle = [];
  session = no_session;
  roles = "user" ∷ "admin" ∷ [];
}

users-IsUnique : IsUnique users
unfolding count text_eq lower
users-IsUnique name = elim (Bool-cases (lower (codes "ada") == lower name)) [
  | inl same ↦
      let agree : lower (codes "ada") ≡ lower name = (text_eq_iff _ _).0 same in
      rw (← agree) (omega arith)
  | inr differ ↦ ground (arith, differ)
]

users-IsComplete : IsComplete users
unfolding credentials_of get_user find? is_some
users-IsComplete = (refl, (refl, tt))

login-Ends_example :
    Ends plain (field config (codes " Bob ")) (take 200 (codes "rog")) (clock 4) users no_session (
      login plain config is_one_line (codes "10.0.0.7") (codes " Bob ") (codes "rog") [] clock site)
unfolding any
login-Ends_example =
    login-Ends plain config is_one_line (codes "10.0.0.7") (codes " Bob ") (codes "rog") [] clock
      site users-IsUnique users-IsComplete refl

abbrev form : Form
form = record {
  name = codes "Cy";
  uni_year = codes "Year 2";
  username = codes "cy.k";
  password = codes "long enough";
  confirm = codes "long enough";
}

three_is_fresh : get_user 3 users ≡ none
unfolding get_user find?
three_is_fresh = refl

student_role : any (λ role. role == "user") site.roles ≡ true
unfolding any
student_role = refl

register-ends_example :
    Registers plain config 3
      (read_form config form)
      site
      (register plain config 9 3 (codes "10.0.0.7") form clock site)
register-ends_example =
    register-ends plain plain-IsHasher config 9 3 (codes "10.0.0.7") form clock site users-IsUnique
      three_is_fresh student_role

abbrev ada_row : Row
ada_row = row_from_user ada

ada_there : get_user ada_row.user_id users ≡ some ada
unfolding get_user find? row_from_user
ada_there = refl

change_password-ends_example :
    (reply : Reply) × (site' : Site) × (change_password plain config 9 ada_row
        (codes "rog")
        (codes "new one 1")
        (codes "new one 1")
        7
        site
      ≡ some (reply, site'))
    × (((complaints : List Complaint) × (reply ≡ refused complaints)
          × (site' ≡ flash (errors complaints) site))
        ⊎ ((reply ≡ done)
            × Changed plain ada_row.user_id 2
                (take 200 (codes "rog"))
                (take 200 (codes "new one 1"))
                (take 200 (codes "new one 1"))
                users
                site'.users))
change_password-ends_example =
    change_password-ends plain plain-IsHasher config 9 2 ada_row (codes "rog") (codes "new one 1")
      (codes "new one 1") 7 site ada ada_is_one ada_there
  where
    ada_is_one : ada_row.user_id ≢ 2
    ada_is_one = unfold row_from_user in omega arith

-- The administrator comes back within the idle time.
abbrev visited : Site
visited = record site { session = record no_session { user_id = some 1; seen = some 4000000 } }

let_in : (before_request config "admin.users" clock visited).0 ≡ view (some ada_row)
unfolding before_request load_logged_in_user load_from session_is_idle get_user_row get_user row_of
    row_from_user find? unless_locked lockout_remaining gates is_approved to_seconds
let_in = refl

before_request-view_example :
    IsSignedIn config clock visited ada_row × IsAdmitted "admin.users" ada_row
before_request-view_example = before_request-view config "admin.users" clock visited ada_row let_in

abbrev home : Site
home = record {
  users = ada ∷ record bob { last_login_at = some 5000005 } ∷ [];
  log =
      record {
        action = "login.success";
        actor_user_id = some 2;
        target_id = some 2;
        username = some (codes "Bob");
      }
      ∷ [];
  throttle = [];
  session = record no_session {
    user_id = some 2;
    permanent = some false;
    flashes = info_message ∷ [];
  };
  roles = site.roles;
}

bob_signs_in :
    login plain config is_one_line (codes "10.0.0.7") (codes " Bob ") (codes "rog") [] clock site
    ≡ some (welcome to_pending, home)
unfolding login login_limits then_by_name hit check check_known limits bucket_of is_live count
    throttle_event with_limits get_user_row_by_username one_or_none filter lower text_eq row_of
    row_from_user row_of_credentials field strip lstrip rstrip cons_stripped is_space with_account
    lockout_remaining to_seconds password_matches credentials_of get_user find? sign_in
    touch_last_login clear_lockout cleared set_user update_first clear destination is_approved
    role_to_app record_event
bob_signs_in = refl
