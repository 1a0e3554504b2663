-- ===== src/Roles.antt =====
-- Roles and permissions: pond-sec/app/roles.py.
pub mod Laws
use itp2_group6_the_pond.Prelude.{
  ℕ, Bool, true, false, ◌||◌, Option, none, some, List, [], ◌∷◌, String, String_eq, ◌==◌, ltb,
  if◌then◌else◌, any, lookup, get_or_default,
}

pub data Role : Type 0 where
  student moderator admin : Role

-- ALL_ROLES, by the names that forms and the command line use.
unfoldable pub role_named : String → Option Role
role_named name =
    if name == "student"
    then some student
    else if name == "moderator"
    then some moderator
    else if name == "admin"
    then some admin
    else none

unfoldable pub rank : Role → ℕ
rank student = 0
rank moderator = 1
rank admin = 2

abbrev pub staff : List Role
staff = moderator ∷ admin ∷ []

abbrev pub admins : List Role
admins = admin ∷ []

-- PERMISSIONS
abbrev pub permissions : List (String × List Role)
permissions =
    ("upload_challenges", staff)
    ∷ ("review_challenges", admins)
    ∷ ("view_admin_console", staff)
    ∷ ("view_users", staff)
    ∷ ("unlock_account", staff)
    ∷ ("lock_account", staff)
    ∷ ("reset_password", staff)
    ∷ ("view_sessions", staff)
    ∷ ("close_any_session", staff)
    ∷ ("view_audit_log", staff)
    ∷ ("change_roles", admins)
    ∷ ("approve_accounts", admins)
    ∷ []

-- The roles of a permission, none if its name is unknown.
unfoldable pub holders : String → List Role
holders permission = get_or_default [] (lookup permission permissions)

unfoldable pub role_eq : Role → Role → Bool
role_eq student student = true
role_eq moderator moderator = true
role_eq admin admin = true
role_eq _ _ = false

-- The role on a row; nobody signed in counts as a student.
unfoldable pub role_of : Option Role → Role
role_of none = student
role_of (some role) = role

unfoldable pub can : String → Option Role → Bool
unfolding holders role_of
can permission none = false
can permission (some role) = any (role_eq (role_of (some role))) (holders permission)

unfoldable pub outranks : Option Role → Option Role → Bool
unfolding role_of
outranks actor target = ltb (rank (role_of target)) (rank (role_of actor))

-- What a guarded view's wrapper does before it calls the view.
pub data Guard : Type 0 where
  to_login forbidden enter : Guard

unfoldable pub require : String → Option Role → Guard
require permission none = to_login
require permission (some role) = if can permission (some role) then enter else forbidden
