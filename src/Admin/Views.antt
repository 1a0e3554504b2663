-- ===== src/Admin/Views.antt =====
-- The views of admin.py one by one: how each ends, and that what it commits is legitimate.
use itp2_group6_the_pond.Prelude.{
  ℕ, ◌≡◌, ◌≢◌, refl, inl, inr, true, Option, none, some, String_eq, arith, Bool-cases, any, lookup,
}
use itp2_group6_the_pond.Roles.{Role, student, moderator, admin, role_eq, rank, can, outranks}
use itp2_group6_the_pond.Accounts.{
  Approval, User, Users, Row, get_user, get_user_row, set_user, row_of, row_from_user, role_to_app,
  approved, rejected,
}
use itp2_group6_the_pond.Security.{clear_lockout, cleared, map_credentials}
use itp2_group6_the_pond.Admin.{
  Console, Answer, View, decide, put_lock, approve, reject, unlock, lock, is_approved, with_target,
  may_act_on,
}
use itp2_group6_the_pond.Admin.Outcome.{
  Outcome, with_target-Outcome, may_act_on-Outcome, commit-Outcome,
}
use itp2_group6_the_pond.Admin.Legit.{Legit, KeepsRole, admin-Legit, student-Legit}

-- The account behind a row.
pub row-user :
    (id : ℕ) (users : Users) (row : Row)
    → get_user_row id users ≡ some row
    → (u : User) × (get_user id users ≡ some u) × (row ≡ row_from_user u)
unfolding get_user_row row_of
row-user id users row there = ground arith

pub row_from_user-role : (u : User) → (row_from_user u).role ≡ role_to_app u.role_name
unfolding row_from_user
row_from_user-role u = ground arith

module _ (id : ℕ) (users : Users) (actor target : Row)
    (there : get_user_row id users ≡ some target) where
  -- Whom an actor below the administrators outranks is a student.
  outranks-student :
      (u : User)
      → outranks (some actor.role) (some target.role) ≡ true
      → actor.role ≢ admin
      → get_user id users ≡ some u
      → role_to_app u.role_name ≡ student
  unfolding outranks rank
  outranks-student u senior below found =
      let (v, found', same) = row-user id users target there in
      ground (arith, row_from_user-role v, row_from_user-role u)

-- What the guards of the administrators' routes establish.
pub approve_accounts-admin : (r : Role) → can "approve_accounts" (some r) ≡ true → r ≡ admin
unfolding can any role_eq lookup
approve_accounts-admin student h = cc
approve_accounts-admin moderator h = cc
approve_accounts-admin admin h = refl

pub change_roles-admin : (r : Role) → can "change_roles" (some r) ≡ true → r ≡ admin
unfolding can any role_eq lookup
change_roles-admin student h = cc
change_roles-admin moderator h = cc
change_roles-admin admin h = refl

abbrev pub LegitOutcome : ℕ → Console → Row → Answer × Console → Type 0
LegitOutcome id s actor = Outcome (Legit actor.role id s.users) id s

module _ (id : ℕ) (s : Console) (actor : Row) where
  decided-Legit :
      (status : Approval) (now : ℕ)
      → actor.role ≡ admin
      → Legit actor.role id s.users (set_user id (decide status actor.user_id now) s.users)
  decided-Legit status now is_admin =
      admin-Legit actor.role id s.users (decide status actor.user_id now)
        (record { id = λ u. refl; role = λ u. refl }) is_admin

  pub approve-Outcome :
      (now : ℕ) → actor.role ≡ admin → LegitOutcome id s actor (approve id now actor s)
  unfolding approve
  approve-Outcome now is_admin =
      with_target-Outcome (Legit actor.role id s.users) id s _ λ row there.
        elim (Bool-cases (is_approved row.approval_status)) [
          | inl already ↦ rw already (inl (λ e. cc e, refl))
          | inr waiting ↦ rw waiting (
              commit-Outcome (Legit actor.role id s.users) id s "account.approved" row _ there
                (decided-Legit approved now is_admin))
        ]

  pub reject-Outcome :
      (now : ℕ) → actor.role ≡ admin → LegitOutcome id s actor (reject id now actor s)
  unfolding reject
  reject-Outcome now is_admin =
      with_target-Outcome (Legit actor.role id s.users) id s _ λ row there.
        elim (Bool-cases (role_eq row.role student)) [
          | inl is_student ↦ rw is_student (
              commit-Outcome (Legit actor.role id s.users) id s "account.rejected" row _ there
                (decided-Legit rejected now is_admin))
          | inr is_staff ↦ rw is_staff (inl (λ e. cc e, refl))
        ]

  -- A route that changes only the credentials of an account that the actor outranks.
  pub senior-Outcome :
      (view : Row → View)
      → ((row : Row)
          → get_user_row id s.users ≡ some row
          → outranks (some actor.role) (some row.role) ≡ true
          → LegitOutcome id s actor (view row s))
      → LegitOutcome id s actor (with_target id (λ target. may_act_on actor target (view target)) s)
  senior-Outcome view h = with_target-Outcome (Legit actor.role id s.users) id s _ λ row there.
      may_act_on-Outcome (Legit actor.role id s.users) id s actor row (view row) (h row there)

  pub credentials-Legit :
      (row : Row) (f : User → User)
      → get_user_row id s.users ≡ some row
      → outranks (some actor.role) (some row.role) ≡ true
      → KeepsRole f
      → ((u : User) → (f u).approval_status ≡ u.approval_status)
      → Legit actor.role id s.users (set_user id f s.users)
  credentials-Legit row f there senior keeps approval =
      student-Legit actor.role id s.users f keeps approval
        λ u below found. outranks-student id s.users actor row there u senior below found

  pub unlock-Outcome : LegitOutcome id s actor (unlock id actor s)
  unfolding unlock clear_lockout
  unlock-Outcome = senior-Outcome _ λ row there senior.
      commit-Outcome (Legit actor.role id s.users) id s "account.unlocked" row _ there (
        credentials-Legit row (map_credentials cleared) there senior
          (record { id = λ u. refl; role = λ u. refl }) (λ u. refl))

  pub lock-Outcome :
      (hours : Option ℕ) (now : ℕ) → LegitOutcome id s actor (lock id hours now actor s)
  unfolding lock
  lock-Outcome none now = senior-Outcome _ λ row there senior. inl (λ e. cc e, refl)
  lock-Outcome (some h) now = senior-Outcome _ λ row there senior.
      commit-Outcome (Legit actor.role id s.users) id s "account.locked_by_staff" row _ there (
        credentials-Legit row (put_lock _ now) there senior
          (record { id = λ u. refl; role = λ u. refl }) (λ u. refl))
