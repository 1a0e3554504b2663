-- ===== src/Auth/Register/Newcomer.antt =====
-- The account that a registration in auth.py adds.
use mathlib.Core.Path.{subst}
use itp2_group6_the_pond.Prelude.{
  ℕ, ◌≤◌, ◌≡◌, inl, inr, refl, ◌∙◌, ap, Bool, true, false, none, some, [], ◌∷◌, Text, Text_eq,
  text_eq_iff, ◌==◌, ℕ_eq, arith, Bool-cases, if◌then◌else◌, count, count-append,
  count-update_first_same, find?, find?-none,
}
use itp2_group6_the_pond.Strings.{lower}
use itp2_group6_the_pond.Roles.{student}
use itp2_group6_the_pond.Accounts.{
  User, Users, Row, pending, set_user, has_id, row_of_credentials, is_called, row_of, row_from_user,
  get_user, get_user_row, add_user, role_to_app,
}
use itp2_group6_the_pond.Accounts.Laws.{get_user-set_user}
use itp2_group6_the_pond.Security.{put_password, password_set}
use itp2_group6_the_pond.Auth.Names.{IsUnique}
use itp2_group6_the_pond.Auth.Register.{Form}

-- The row that registration adds.
abbrev pub newcomer : ℕ → Form → ℕ → User
newcomer id form now = record {
  user_id = id;
  username = form.username;
  display_name = form.name;
  role_name = "user";
  is_active = true;
  created_at = now;
  last_login_at = none;
  approval_status = pending;
  approved_at = none;
  approved_by = none;
  credentials = none;
}

pub add_user-newcomer :
    (id now : ℕ) (form : Form) (users : Users)
    → get_user id users ≡ none
    → get_user id (add_user id form.name form.username now users) ≡ some (newcomer id form now)
unfolding add_user get_user find?
add_user-newcomer id now form [] fresh = ground arith
add_user-newcomer id now form (u ∷ us) fresh = ground (arith, add_user-newcomer id now form us)

alone :
    (name : Text) (u : User) → count (is_called name) (u ∷ []) ≡ (if is_called name u then 1 else 0)
unfolding count
alone name u = refl

only_one : (name : Text) (u : User) → count (is_called name) (u ∷ []) ≤ 1
unfolding count
only_one name u = ground arith

-- A name that is not taken may join.
pub add_user-IsUnique :
    (id now : ℕ) (form : Form) (users : Users)
    → IsUnique users
    → find? (is_called form.username) users ≡ none
    → IsUnique (add_user id form.name form.username now users)
unfolding add_user count
add_user-IsUnique id now form users unique free name =
    let u : User = newcomer id form now in
    elim (Bool-cases (is_called name u)) [
      | inl same ↦
          let agree : lower form.username ≡ lower name = (text_eq_iff _ _).0 same in
          let nobody : count (is_called name) users ≡ 0 =
            subst (λ (k : Text). count (λ (v : User). lower v.username == k) users ≡ 0) agree
              (find?-none (is_called form.username) users free) in
          omega (arith, nobody, count-append (is_called name) users (u ∷ []), only_one name u)
      | inr differ ↦
          let not_this : count (is_called name) (u ∷ []) ≡ 0 =
            alone name u ∙ ap (λ (b : Bool). if b then 1 else 0) differ in
          omega (arith, unique name, count-append (is_called name) users (u ∷ []), not_this)
    ]

pub set_user-IsUnique :
    (hash : Text) (id now : ℕ) (users : Users)
    → IsUnique users
    → IsUnique (password_set hash false id now users)
unfolding set_user
set_user-IsUnique hash id now users unique name =
    rw
      (count-update_first_same (is_called name) (has_id id) (put_password hash false now) users
        (λ u _. refl))
      (unique name)

-- The row with the new password.
pub enrolled-row :
    (hash : Text) (id now later : ℕ) (form : Form) (users : Users)
    → get_user id users ≡ none
    → let after =
        password_set hash false id later (add_user id form.name form.username now users) in
      (row : Row) × (get_user_row id after ≡ some row)
      × (row.role ≡ student)
      × (row.approval_status ≡ pending)
unfolding get_user_row row_of row_from_user row_of_credentials role_to_app
enrolled-row hash id now later form users fresh =
    let base : Users = add_user id form.name form.username now users in
    let there : get_user id (password_set hash false id later base)
        ≡ some (put_password hash false later (newcomer id form now)) =
      ground (
        arith,
        get_user-set_user id id (put_password hash false later) base (λ v. refl),
        add_user-newcomer id now form users fresh,
      ) in
    (
      row_from_user (put_password hash false later (newcomer id form now)),
      ap row_of there,
      refl,
      refl,
    )
