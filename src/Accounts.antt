-- ===== src/Accounts.antt =====
-- Accounts: the tables of db/user_models.py and the rows of pond-sec/app/identity.py.
-- Times are counts of microseconds. The table is the list of its rows.
pub mod Laws
use itp2_group6_the_pond.Prelude.{
  ℕ, ◌+◌, ◌*◌, ◌/◌, Bool, true, false, Option, none, some, List, [], ◌∷◌, ◌++◌, String, String_eq,
  Text, Text_eq, ◌==◌, ℕ_eq, if◌then◌else◌, find?, update_first, second, filter, one_or_none, any,
}
use itp2_group6_the_pond.Roles.{Role, student, moderator, admin}
use itp2_group6_the_pond.Strings.{lower}

pub data Approval : Type 0 where
  pending approved rejected : Approval

pub record UserCredential : Type 0 where
  pub password_hash : Text
  pub password_changed_at : ℕ
  pub must_change_password : Bool
  pub failed_login_count : ℕ
  pub locked_until : Option ℕ

-- `role_name` is the name of the row of `roles` that `role_id` refers to.
pub record User : Type 0 where
  pub user_id : ℕ
  pub username : Text
  pub display_name : Text
  pub role_name : String
  pub is_active : Bool
  pub created_at : ℕ
  pub last_login_at : Option ℕ
  pub approval_status : Approval
  pub approved_at : Option ℕ
  pub approved_by : Option ℕ
  pub credentials : Option UserCredential

abbrev pub Users : Type 0
Users = List User

-- ROLE_NAME_TO_APP.get(name, "student")
unfoldable pub role_to_app : String → Role
role_to_app name =
    if name == "user"
    then student
    else if name == "manager"
    then moderator
    else if name == "sysadmin"
    then admin
    else student

-- ROLE_NAME_TO_DB
unfoldable pub role_to_db : Role → String
role_to_db student = "user"
role_to_db moderator = "manager"
role_to_db admin = "sysadmin"

-- The row that views and templates read. Fields that no decision reads (points, dates) are left out.
pub record Row : Type 0 where
  pub user_id : ℕ
  pub username : Text
  pub name : Text
  pub failed_attempts : ℕ
  pub locked_until : Option ℕ
  pub must_change_password : Bool
  pub role : Role
  pub approval_status : Approval

-- strftime("%Y-%m-%d %H:%M:%S") drops the fraction of a second.
unfoldable pub to_seconds : Option ℕ → Option ℕ
to_seconds none = none
to_seconds (some t) = some (t / second * second)

unfoldable pub row_of_credentials : User → Option UserCredential → Row
unfolding to_seconds role_to_app
row_of_credentials u none = record {
  user_id = u.user_id;
  username = u.username;
  name = u.display_name;
  failed_attempts = 0;
  locked_until = none;
  must_change_password = false;
  role = role_to_app u.role_name;
  approval_status = u.approval_status;
}
row_of_credentials u (some cred) = record {
  user_id = u.user_id;
  username = u.username;
  name = u.display_name;
  failed_attempts = cred.failed_login_count;
  locked_until = to_seconds cred.locked_until;
  must_change_password = cred.must_change_password;
  role = role_to_app u.role_name;
  approval_status = u.approval_status;
}

unfoldable pub row_from_user : User → Row
unfolding row_of_credentials
row_from_user u = row_of_credentials u u.credentials

abbrev pub has_id : ℕ → User → Bool
has_id id u = u.user_id == id

-- db.session.get(User, user_id)
unfoldable pub get_user : ℕ → Users → Option User
get_user id = find? (has_id id)

-- Changes to one row and the commit.
unfoldable pub set_user : ℕ → (User → User) → Users → Users
set_user id = update_first (has_id id)

unfoldable pub row_of : Option User → Option Row
row_of none = none
row_of (some u) = some (row_from_user u)

unfoldable pub get_user_row : ℕ → Users → Option Row
unfolding get_user row_of
get_user_row id users = row_of (get_user id users)

abbrev pub is_called : Text → User → Bool
is_called username u = lower u.username == lower username

-- Usernames are compared by func.lower. The outer `none` is MultipleResultsFound.
unfoldable pub get_user_row_by_username : Text → Users → Option (Option Row)
get_user_row_by_username username users = elim (one_or_none (filter (is_called username) users)) [
  | none ↦ none
  | some found ↦ some (row_of found)
]

unfoldable pub is_some {ℓ} : {A : Type ℓ} → Option A → Bool
is_some none = false
is_some (some _) = true

unfoldable pub username_taken : Text → Users → Option Bool
username_taken username users = elim (get_user_row_by_username username users) [
  | none ↦ none
  | some row ↦ some (is_some row)
]

-- Registration always creates a pending student without credentials; `id` is the key that the
-- database assigns.
unfoldable pub add_user : ℕ → Text → Text → ℕ → Users → Users
add_user id name username now users =
    users
    ++ (record {
      user_id = id;
      username = username;
      display_name = name;
      role_name = "user";
      is_active = true;
      created_at = now;
      last_login_at = none;
      approval_status = pending;
      approved_at = none;
      approved_by = none;
      credentials = none;
    }
        ∷ [])

-- create_user, where `roles` has the names of the table of roles; `none` is the RuntimeError of a
-- database without the role of a student.
unfoldable pub create_user : List String → ℕ → Text → Text → ℕ → Users → Option Users
create_user roles id name username now users =
    if any (λ role. role == "user") roles then some (add_user id name username now users) else none

-- `none` is the AttributeError for an account that is not there.
unfoldable pub touch_last_login : ℕ → ℕ → Users → Option Users
touch_last_login id now users = elim (get_user id users) [
  | none ↦ none
  | some _ ↦ some (set_user id (λ u. record u { last_login_at = some now }) users)
]
