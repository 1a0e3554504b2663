-- ===== src/Admin/Legit.antt =====
-- What a committed change to one account may be: other accounts are not touched, an administrator
-- remains, and actors below the administrators change students only, and neither role nor approval.
use itp2_group6_the_pond.Prelude.{
  ℕ, ◌≤◌, ◌<◌, ◌≡◌, ◌≢◌, refl, ◌⊎◌, Bool, true, false, ◌&&◌, not, some, String, String_eq, ◌==◌,
  ℕ_eq, arith, count, count_mono, count-update_first, count-update_first_same,
}
use itp2_group6_the_pond.Roles.{Role, student, admin}
use itp2_group6_the_pond.Accounts.{User, Users, get_user, set_user, has_id, role_to_app}
use itp2_group6_the_pond.Accounts.Laws.{get_user-set_user}
use itp2_group6_the_pond.Admin.{is_sysadmin, remaining, put_role}

pub record Legit (actor : Role) (id : ℕ) (users users' : Users) : Type 0 where
  pub others : (j : ℕ) → id ≢ j → get_user j users' ≡ get_user j users
  pub has_admin : 0 < count is_sysadmin users → 0 < count is_sysadmin users'
  pub below :
      (u : User)
      → actor ≢ admin
      → get_user id users ≡ some u
      → (role_to_app u.role_name ≡ student)
        × (u' : User) × (get_user id users' ≡ some u')
        × (u'.role_name ≡ u.role_name)
        × (u'.approval_status ≡ u.approval_status)

-- A change that keeps the key and the role.
pub record KeepsRole (f : User → User) : Type 0 where
  pub id : (u : User) → (f u).user_id ≡ u.user_id
  pub role : (u : User) → (f u).role_name ≡ u.role_name

module _ (actor : Role) (id : ℕ) (users : Users) (f : User → User) (keeps : KeepsRole f) where
  set_user-has_admin : count is_sysadmin (set_user id f users) ≡ count is_sysadmin users
  unfolding set_user
  set_user-has_admin =
      count-update_first_same is_sysadmin (has_id id) f users (λ u _. rw (keeps.role u))

  set_user-others : (j : ℕ) → id ≢ j → get_user j (set_user id f users) ≡ get_user j users
  set_user-others j differ = ground (arith, get_user-set_user id j f users keeps.id)

  -- A change that only an administrator makes.
  pub admin-Legit : actor ≡ admin → Legit actor id users (set_user id f users)
  admin-Legit is_admin = record {
    others = set_user-others;
    has_admin = λ h. rw set_user-has_admin h;
    below = λ u below _. absurd (below is_admin);
  }

  -- A change to a student's account that keeps the approval.
  pub student-Legit :
      ((u : User) → (f u).approval_status ≡ u.approval_status)
      → ((u : User)
          → actor ≢ admin
          → get_user id users ≡ some u
          → role_to_app u.role_name ≡ student)
      → Legit actor id users (set_user id f users)
  student-Legit approval target = record {
    others = set_user-others;
    has_admin = λ h. rw set_user-has_admin h;
    below = λ u below there. (
      target u below there,
      f u,
      ground (arith, get_user-set_user id id f users keeps.id),
      keeps.role u,
      approval u,
    );
  }

-- A change of role that leaves an administrator if it takes one away.
module _ (id : ℕ) (users : Users) (name : String) where
  remaining-le : remaining id users ≤ count is_sysadmin (set_user id (put_role name) users)
  unfolding remaining set_user
  remaining-le =
      let other : (User → Bool) = λ u. is_sysadmin u && not (u.user_id == id) in
      omega (
        arith,
        count-update_first_same other (has_id id) (put_role name) users (λ u h. ground arith),
        count_mono other is_sysadmin (λ u h. ground arith) (set_user id (put_role name) users),
      )

  set_role-has_admin :
      (u : User)
      → get_user id users ≡ some u
      → (is_sysadmin u ≡ false) ⊎ (((name == "sysadmin") ≡ true) ⊎ (0 < remaining id users))
      → 0 < count is_sysadmin users
      → 0 < count is_sysadmin (set_user id (put_role name) users)
  unfolding set_user get_user
  set_role-has_admin u there why before = ground (
    arith,
    remaining-le,
    count-update_first is_sysadmin (has_id id) (put_role name) users u there,
  )

  pub role-Legit :
      (actor : Role) (u : User)
      → actor ≡ admin
      → get_user id users ≡ some u
      → (is_sysadmin u ≡ false) ⊎ (((name == "sysadmin") ≡ true) ⊎ (0 < remaining id users))
      → Legit actor id users (set_user id (put_role name) users)
  role-Legit actor u is_admin there why = record {
    others = λ j differ. ground (arith, get_user-set_user id j (put_role name) users (λ v. refl));
    has_admin = set_role-has_admin u there why;
    below = λ v below _. absurd (below is_admin);
  }
