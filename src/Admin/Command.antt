-- ===== src/Admin/Command.antt =====
-- The command line's `set-role` of admin.py.
use itp2_group6_the_pond.Prelude.{
  ℕ, ◌+◌, ◌≡◌, refl, Bool, true, Option, none, some, String, String_eq, Text, Text_eq, ◌==◌, arith,
  if◌then◌else◌, count, find?, update_first, count-update_first, find?-update_first, find?-sound,
  ◌∙◌,
}
use itp2_group6_the_pond.Roles.{Role, student, moderator, admin, role_eq}
use itp2_group6_the_pond.Audit.{record_event}
use itp2_group6_the_pond.Accounts.{approved, User, role_to_db}
use itp2_group6_the_pond.Admin.{Console, is_approved, is_sysadmin}

abbrev pub named : Text → User → Bool
named username u = u.username == username

-- The account after the command: its role, and its approval if it was not approved.
unfoldable pub promoted : String → ℕ → User → User
promoted role_name now u =
    if is_approved u.approval_status then record u { role_name = role_name } else record u {
      role_name = role_name;
      approval_status = approved;
      approved_at = some now;
      approved_by = none;
    }

abbrev after_command : Text → Role → ℕ → User → Console → Console
after_command username role now user s =
    let log = record_event "account.role_changed" (some user.user_id) (some username) s.log in
    record {
      users = update_first (named username) (promoted (role_to_db role) now) s.users;
      log =
          if is_approved user.approval_status
          then log
          else record_event "account.approved" (some user.user_id) (some username) log;
    }

-- `none` is the ClickException for an account that is not there.
unfoldable pub set_role_command : Text → Role → ℕ → Console → Option Console
set_role_command username role now s = elim (find? (named username) s.users) [
  | none ↦ none
  | some user ↦ some (after_command username role now user s)
]

promoted-sysadmin :
    (name : String) (now : ℕ) (u : User) → is_sysadmin (promoted name now u) ≡ (name == "sysadmin")
unfolding promoted
promoted-sysadmin name now u = ground arith

promoted-named :
    (username : Text) (name : String) (now : ℕ) (u : User)
    → named username (promoted name now u) ≡ named username u
unfolding promoted
promoted-named username name now u = ground arith

promoted_lem :
    (name : String) (now : ℕ) (u : User)
    → ((promoted name now u).role_name ≡ name) × ((promoted name now u).approval_status ≡ approved)
unfolding promoted is_approved
promoted_lem name now u = ground arith

to_sysadmin : (role : Role) → (role_to_db role == "sysadmin") ≡ role_eq role admin
unfolding role_to_db role_eq
to_sysadmin student = refl
to_sysadmin moderator = refl
to_sysadmin admin = refl

-- The command gives a named account that is there the role and an approval, whatever they were
-- before. The number of administrators changes by this one account, without a guard for the last:
-- taking the role from the only administrator leaves none.
pub set_role_command_lem :
    (username : Text) (role : Role) (now : ℕ) (s : Console) (u : User)
    → find? (named username) s.users ≡ some u
    → (s' : Console) × (u' : User) × (set_role_command username role now s ≡ some s')
      × (find? (named username) s'.users ≡ some u')
      × (u'.role_name ≡ role_to_db role)
      × (u'.approval_status ≡ approved)
      × (count is_sysadmin s'.users + (if is_sysadmin u then 1 else 0)
          ≡ count is_sysadmin s.users + (if role_eq role admin then 1 else 0))
unfolding set_role_command
set_role_command_lem username role now s u found =
    let f : (User → User) = promoted (role_to_db role) now in
    let there : named username (f u) ≡ true =
      promoted-named username (role_to_db role) now u
      ∙ find?-sound (named username) s.users u found in
    let (renamed, approves) = promoted_lem (role_to_db role) now u in
    (
      after_command username role now u s,
      f u,
      rw (found, set_role_command) refl,
      find?-update_first (named username) f s.users u found there,
      renamed,
      approves,
      ground (
        arith,
        to_sysadmin role,
        promoted-sysadmin (role_to_db role) now u,
        count-update_first is_sysadmin (named username) f s.users u found,
      ),
    )
