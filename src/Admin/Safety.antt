-- ===== src/Admin/Safety.antt =====
-- What the account routes of admin.py can do, whoever asks.
use mathlib.Core.Path.{subst}
use text.Mathlib.TextEquality.{eq_iff}
use itp2_group6_the_pond.Prelude.{
  ℕ, ◌<◌, ◌≡◌, refl, sym, ◌∙◌, ap, ◌⊎◌, inl, inr, Bool, true, false, not, ◌&&◌, Option, none, some,
  List, [], ◌∷◌, Text, some-injective, String, String_eq, ◌==◌, arith, leb, Bool-cases,
  Option-cases, count, update_first-update_first,
}
use itp2_group6_the_pond.Roles.{Role, student, moderator, admin, role_named, role_eq, can, require}
use itp2_group6_the_pond.Roles.Laws.{can-policy}
use itp2_group6_the_pond.Accounts.{
  User, Users, Row, get_user, get_user_row, set_user, has_id, role_to_app, role_to_db,
}
use itp2_group6_the_pond.Security.{Hasher, clear_lockout, cleared, map_credentials, put_password}
use itp2_group6_the_pond.Security.Laws.{set_password-eq}
use itp2_group6_the_pond.Security.Temporary.{Picks, issue_temporary_password, temporary_password}
use itp2_group6_the_pond.Admin.{
  Console, put_role, is_sysadmin, remaining, reset_password, set_role, Request, approve_request,
  reject_request, unlock_request, lock_request, reset_request, role_request, permission_of, view_of,
  handle, guarded,
}
use itp2_group6_the_pond.Admin.Outcome.{
  Outcome, guarded-Outcome, with_target-Outcome, commit-Outcome,
}
use itp2_group6_the_pond.Admin.Legit.{Legit, role-Legit}
use itp2_group6_the_pond.Admin.Views.{
  LegitOutcome, row-user, row_from_user-role, approve_accounts-admin, change_roles-admin,
  approve-Outcome, reject-Outcome, unlock-Outcome, lock-Outcome, senior-Outcome, credentials-Legit,
}

module _ (hasher : Hasher) (salt : ℕ) (picks : Picks) (id now : ℕ) where
  abbrev put_temporary : User → User
  put_temporary u =
      map_credentials cleared
        (put_password (hasher.generate salt (temporary_password picks)) true now u)

  -- Issuing a temporary password is one change to the account.
  issue-set_user :
      (users : Users) (u : User)
      → get_user id users ≡ some u
      → issue_temporary_password hasher salt picks id now users
        ≡ some (temporary_password picks, set_user id put_temporary users)
  unfolding issue_temporary_password clear_lockout set_user
  issue-set_user users u found =
      let hash : Text = hasher.generate salt (temporary_password picks) in
      rw
        (
          set_password-eq hasher salt id (temporary_password picks) true now users u found,
          issue_temporary_password,
        )
        (rw (
          update_first-update_first (has_id id) (put_password hash true now)
            (map_credentials cleared) users (λ v. refl)))

  module _ (s : Console) (actor : Row) where
    reset_password-Outcome :
        LegitOutcome id s actor (reset_password hasher salt picks id now actor s)
    unfolding reset_password
    reset_password-Outcome = senior-Outcome id s actor _ λ row there senior.
        let (u, found, same) = row-user id s.users row there in
        rw (issue-set_user s.users u found) (
          commit-Outcome (Legit actor.role id s.users) id s "password.temporary_issued" row _ there
            (credentials-Legit id s actor row put_temporary there senior
              (record { id = λ v. refl; role = λ v. refl }) (λ v. refl)))

role_to_app-sysadmin : (name : String) → (name == "sysadmin") ≡ true → role_to_app name ≡ admin
unfolding role_to_app
role_to_app-sysadmin name h = rw ((eq_iff name "sysadmin").0 h) refl

abbrev demotes_last : Role → Role → ℕ → Bool
demotes_last old new others = role_eq old admin && (not (role_eq new admin) && leb others 0)

-- Why an administrator is left after a change of role that is not refused.
leaves_admin :
    (u : User) (old new : Role) (others : ℕ)
    → old ≡ role_to_app u.role_name
    → demotes_last old new others ≡ false
    → (is_sysadmin u ≡ false) ⊎ (((role_to_db new == "sysadmin") ≡ true) ⊎ (0 < others))
unfolding role_eq role_to_db
leaves_admin u old admin others same allowed = inr (inl refl)
leaves_admin u old student others same allowed = ground (arith, role_to_app-sysadmin u.role_name)
leaves_admin u old moderator others same allowed = ground (arith, role_to_app-sysadmin u.role_name)

module _ (id : ℕ) (s : Console) (actor : Row) (is_admin : actor.role ≡ admin) where
  role_change-Legit :
      (row : Row) (new_role : Role)
      → get_user_row id s.users ≡ some row
      → demotes_last row.role new_role (remaining id s.users) ≡ false
      → Legit actor.role id s.users (set_user id (put_role (role_to_db new_role)) s.users)
  role_change-Legit row new_role there allowed =
      let (u, found, same) = row-user id s.users row there in
      role-Legit id s.users (role_to_db new_role) actor.role u is_admin found (
        leaves_admin u row.role new_role (remaining id s.users)
          (ap (λ (r : Row). r.role) same ∙ row_from_user-role u) allowed)

  set_role-Outcome : (name : String) → LegitOutcome id s actor (set_role id name actor s)
  unfolding set_role
  set_role-Outcome name = with_target-Outcome (Legit actor.role id s.users) id s _ λ row there.
      elim (Option-cases (role_named name)) [
        | inl unknown ↦ rw unknown (inl (λ e. cc e, refl))
        | inr (new_role, known) ↦
            rw known (elim (Bool-cases (demotes_last row.role new_role (remaining id s.users))) [
              | inl last ↦ rw last (inl (λ e. cc e, refl))
              | inr allowed ↦ rw allowed (
                  commit-Outcome (Legit actor.role id s.users) id s "account.role_changed" row _
                    there (role_change-Legit row new_role there allowed))
            ])
      ]

view_of-Outcome :
    (hasher : Hasher) (request : Request) (id : ℕ) (s : Console) (actor : Row)
    → can (permission_of request) (some actor.role) ≡ true
    → LegitOutcome id s actor (view_of hasher request id actor s)
unfolding view_of
view_of-Outcome hasher (approve_request now) id s a h =
    approve-Outcome id s a now (approve_accounts-admin a.role h)
view_of-Outcome hasher (reject_request now) id s a h =
    reject-Outcome id s a now (approve_accounts-admin a.role h)
view_of-Outcome hasher unlock_request id s a h = unlock-Outcome id s a
view_of-Outcome hasher (lock_request hours now) id s a h = lock-Outcome id s a hours now
view_of-Outcome hasher (reset_request salt picks now) id s a h =
    reset_password-Outcome hasher salt picks id now s a
view_of-Outcome hasher (role_request name) id s a h =
    set_role-Outcome id s a (change_roles-admin a.role h) name

abbrev pub role_or_student : Option Row → Role
role_or_student none = student
role_or_student (some a) = a.role

-- A request to a route that changes an account either is refused and changes nothing, or adds one
-- entry about the account to the log and changes the accounts legitimately: no other account is
-- touched, an administrator remains if there was one, and if the actor is no administrator then the
-- account is a student's and keeps its role and its approval.
pub handle-Outcome :
    (hasher : Hasher) (request : Request) (actor : Option Row) (id : ℕ) (s : Console)
    → Outcome (Legit (role_or_student actor) id s.users) id s (handle hasher request actor id s)
unfolding handle
handle-Outcome hasher request none id s =
    guarded-Outcome (Legit student id s.users) id s (permission_of request) none _ λ a e. cc e
handle-Outcome hasher request (some a) id s =
    guarded-Outcome (Legit a.role id s.users) id s (permission_of request) (some a) _ λ b e held.
      subst (λ (c : Row). Outcome (Legit c.role id s.users) id s (view_of hasher request id b s))
        (sym (some-injective e)) (view_of-Outcome hasher request id s b held)

-- Requests in turn, each by its own actor and about its own account.
pub record Posted : Type 0 where
  pub request : Request
  pub actor : Option Row
  pub target : ℕ

unfoldable pub serve_all : Hasher → List Posted → Console → Console
serve_all hasher [] s = s
serve_all hasher (p ∷ ps) s = serve_all hasher ps (handle hasher p.request p.actor p.target s).1

handle-has_admin :
    (hasher : Hasher) (request : Request) (actor : Option Row) (id : ℕ) (s : Console)
    → 0 < count is_sysadmin s.users
    → 0 < count is_sysadmin (handle hasher request actor id s).1.users
handle-has_admin hasher request actor id s before =
    elim (handle-Outcome hasher request actor id s) [
      | inl (_, same) ↦ rw same before
      | inr (_, legit, _, _, _, _) ↦ legit.has_admin before
    ]

-- If the platform has an administrator, it has one after any sequence of requests to the routes that
-- change accounts, whoever makes them, administrators who step down themselves included.
pub serve_all-has_admin :
    (hasher : Hasher) (posts : List Posted) (s : Console)
    → 0 < count is_sysadmin s.users
    → 0 < count is_sysadmin (serve_all hasher posts s).users
unfolding serve_all
serve_all-has_admin hasher [] s before = before
serve_all-has_admin hasher (p ∷ ps) s before =
    serve_all-has_admin hasher ps (handle hasher p.request p.actor p.target s).1
      (handle-has_admin hasher p.request p.actor p.target s before)

-- A request that nobody is signed in for, or that a student makes, changes nothing, whatever it asks
-- for.
pub handle-student :
    (hasher : Hasher) (request : Request) (actor : Option Row) (id : ℕ) (s : Console)
    → role_or_student actor ≡ student
    → (handle hasher request actor id s).1 ≡ s
unfolding handle guarded require
handle-student hasher request none id s e = refl
handle-student hasher request (some a) id s e =
    let (_, none_of_students, _) = can-policy (permission_of request) in
    let lacking : can (permission_of request) (some a.role) ≡ false = rw e none_of_students in
    rw (lacking, guarded) refl
