-- ===== src/Admin.antt =====
-- The staff console's changes to accounts: pond-sec/app/admin.py. A view takes the signed-in row and
-- the state, and gives the answer with the state that it leaves.
pub mod Outcome
pub mod Legit
pub mod Views
pub mod Safety
pub mod Command
use itp2_group6_the_pond.Prelude.{
  ℕ, ◌+◌, ◌*◌, Bool, true, false, ◌&&◌, not, Option, none, some, List, [], ◌∷◌, String, String_eq,
  Text, ◌==◌, ℕ_eq, if◌then◌else◌, count, ltb, leb, max, min, hour,
}
use itp2_group6_the_pond.Roles.{
  Role, student, moderator, admin, role_named, role_eq, can, outranks, Guard, to_login, forbidden,
  enter, require,
}
use itp2_group6_the_pond.Audit.{AuditLog, record_event}
use itp2_group6_the_pond.Accounts.{
  Approval, pending, approved, rejected, User, UserCredential, Users, Row, get_user_row, set_user,
  role_to_db, role_to_app,
}
use itp2_group6_the_pond.Security.{Hasher, clear_lockout}
use itp2_group6_the_pond.Security.Temporary.{Picks, issue_temporary_password}

pub record Console : Type 0 where
  pub users : Users
  pub log : List AuditLog

-- An answer: a redirect with or without a change, or one of the errors.
pub data Answer : Type 0 where
  done refused sign_in not_found not_permitted server_error : Answer

abbrev pub View : Type 0
View = Console → Answer × Console

abbrev pub role_of_row : Option Row → Option Role
role_of_row none = none
role_of_row (some row) = some row.role

-- @require(permission) around a view that reads g.user.
unfoldable pub guarded : String → Option Row → (Row → View) → View
guarded permission none view s = (sign_in, s)
guarded permission (some actor) view s = elim (require permission (some actor.role)) [
  | to_login ↦ (sign_in, s)
  | forbidden ↦ (not_permitted, s)
  | enter ↦ view actor s
]

-- _target: the row acted on, or 404.
unfoldable pub with_target : ℕ → (Row → View) → View
with_target id view s = elim (get_user_row id s.users) [
  | none ↦ (not_found, s)
  | some row ↦ view row s
]

-- _may_act_on: 403 unless the actor is senior to the target.
unfoldable pub may_act_on : Row → Row → View → View
may_act_on actor target view s =
    if outranks (some actor.role) (some target.role) then view s else (not_permitted, s)

-- The changes are committed, and the account is named in the log.
unfoldable pub commit : String → Row → Users → View
commit event target users s = (
  done,
  record {
    users = users;
    log = record_event event (some target.user_id) (some target.username) s.log;
  },
)

abbrev pub decide : Approval → ℕ → ℕ → User → User
decide status by now u = record u {
  approval_status = status;
  approved_at = some now;
  approved_by = some by;
}

unfoldable pub is_approved : Approval → Bool
is_approved approved = true
is_approved _ = false

unfoldable pub approve : ℕ → ℕ → Row → View
approve id now actor = with_target id λ target s.
    if is_approved target.approval_status
    then (refused, s)
    else commit "account.approved" target (set_user id (decide approved actor.user_id now) s.users)
        s

unfoldable pub reject : ℕ → ℕ → Row → View
reject id now actor = with_target id λ target s.
    if not (role_eq target.role student)
    then (not_permitted, s)
    else commit "account.rejected" target (set_user id (decide rejected actor.user_id now) s.users)
        s

unfoldable pub unlock : ℕ → Row → View
unlock id actor = with_target id λ target.
    may_act_on actor target (λ s. commit "account.unlocked" target (clear_lockout id s.users) s)

-- An account without credentials gets a row whose hash no password matches.
unfoldable pub locked_row : ℕ → ℕ → Option UserCredential → UserCredential
locked_row until now none = record {
  password_hash = [];
  password_changed_at = now;
  must_change_password = false;
  failed_login_count = 0;
  locked_until = some until;
}
locked_row until now (some c) = record c { locked_until = some until }

abbrev pub put_lock : ℕ → ℕ → User → User
put_lock until now u = record u { credentials = some (locked_row until now u.credentials) }

-- `hours` is what int() gives for the form's field, `none` where it raises; a negative number stands
-- as 0, since both are raised to 1.
unfoldable pub lock : ℕ → Option ℕ → ℕ → Row → View
lock id hours now actor = with_target id λ target. may_act_on actor target λ s. elim hours [
  | none ↦ (server_error, s)
  | some h ↦
      commit "account.locked_by_staff" target
        (set_user id (put_lock (now + min (max h 1) 8760 * hour) now) s.users) s
]

unfoldable pub reset_password : Hasher → ℕ → Picks → ℕ → ℕ → Row → View
reset_password hasher salt picks id now actor = with_target id λ target.
    may_act_on actor target λ s. elim (issue_temporary_password hasher salt picks id now s.users) [
      | none ↦ (server_error, s)
      | some (_, users) ↦ commit "password.temporary_issued" target users s
    ]

abbrev pub is_sysadmin : User → Bool
is_sysadmin u = u.role_name == "sysadmin"

-- The administrators other than the account.
unfoldable pub remaining : ℕ → Users → ℕ
remaining id = count (λ u. is_sysadmin u && not (u.user_id == id))

abbrev pub put_role : String → User → User
put_role name u = record u { role_name = name }

unfoldable pub set_role : ℕ → String → Row → View
set_role id name actor = with_target id λ target s. elim (role_named name) [
  | none ↦ (refused, s)
  | some new_role ↦
      if role_eq target.role admin && (not (role_eq new_role admin) && leb (remaining id s.users) 0)
      then (refused, s)
      else commit "account.role_changed" target
          (set_user id (put_role (role_to_db new_role)) s.users) s
]

-- A request to one of the routes that change an account, with what it carries.
pub data Request : Type 0 where
  approve_request reject_request : ℕ → Request
  unlock_request : Request
  lock_request : Option ℕ → ℕ → Request
  reset_request : ℕ → Picks → ℕ → Request
  role_request : String → Request

abbrev pub permission_of : Request → String
permission_of (approve_request _) = "approve_accounts"
permission_of (reject_request _) = "approve_accounts"
permission_of unlock_request = "unlock_account"
permission_of (lock_request _ _) = "lock_account"
permission_of (reset_request _ _ _) = "reset_password"
permission_of (role_request _) = "change_roles"

unfoldable pub view_of : Hasher → Request → ℕ → Row → View
view_of hasher (approve_request now) id = approve id now
view_of hasher (reject_request now) id = reject id now
view_of hasher unlock_request id = unlock id
view_of hasher (lock_request hours now) id = lock id hours now
view_of hasher (reset_request salt picks now) id = reset_password hasher salt picks id now
view_of hasher (role_request name) id = set_role id name

-- The route: its guard, and then its view.
unfoldable pub handle : Hasher → Request → Option Row → ℕ → View
handle hasher request actor id = guarded (permission_of request) actor (view_of hasher request id)
