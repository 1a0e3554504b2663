-- ===== src/Auth/Register/Changed.antt =====
-- What a change of one's own password in auth.py leaves.
use itp2_group6_the_pond.Prelude.{
  ℕ, ◌≡◌, ◌≢◌, ◌⊎◌, inl, inr, refl, Bool, true, false, not, Option, none, some, List, [], ◌∷◌, ◌++◌,
  Text, Text_eq, ◌==◌, take, arith,
}
use itp2_group6_the_pond.Accounts.{User, Users, UserCredential, Row, get_user}
use itp2_group6_the_pond.Security.{
  Hasher, Config, credentials_of, password_matches, password_set, with_password,
}
use itp2_group6_the_pond.Security.Laws.{
  set_password-eq, credentials_of-password_set, credentials_of-password_set_ne,
}
use itp2_group6_the_pond.Security.Temporary.{IsHasher}
use itp2_group6_the_pond.Auth.{Site, logged, flash, success_message}
use itp2_group6_the_pond.Auth.Names.{matches-eq}
use itp2_group6_the_pond.Auth.Register.{
  Complaint, complain, errors, Reply, done, refused, wrong_current, mismatch, not_new,
  change_complaints, store_password, change_password,
}

complain-nil :
    (b : Bool) (c : Complaint) (rest : List Complaint)
    → complain b c ++ rest ≡ []
    → (b ≡ false) × (rest ≡ [])
complain-nil true c rest e = cc e
complain-nil false c rest e = (refl, e)

-- No complaint: the current password matches, and the new one is repeated and not the same.
change_complaints-nil :
    (hasher : Hasher) (config : Config) (user : Row) (current password confirm : Text)
    (users : Users)
    → change_complaints hasher config user current password confirm users ≡ []
    → (password_matches hasher user.user_id current users ≡ true)
      × ((password == confirm) ≡ true)
      × ((password == current) ≡ false)
unfolding change_complaints
change_complaints-nil hasher config user current password confirm users e =
    let (right, e') =
      complain-nil (not (password_matches hasher user.user_id current users)) wrong_current _ e in
    let (repeated, e'') = complain-nil (not (password == confirm)) mismatch _ e' in
    let (different, _) = complain-nil (password == current) not_new _ e'' in
    (ground (arith, right), ground (arith, repeated), different)

-- The new password is in force, chosen by its owner, and another account's credentials are kept.
abbrev pub Changed : Hasher → ℕ → ℕ → Text → Text → Text → Users → Users → Type 0
Changed hasher id other current password confirm users users' =
    (password_matches hasher id current users ≡ true)
    × ((password == confirm) ≡ true)
    × ((password == current) ≡ false)
    × (password_matches hasher id password users' ≡ true)
    × (c : UserCredential) × (credentials_of id users' ≡ some c)
    × (c.must_change_password ≡ false)
    × (credentials_of other users' ≡ credentials_of other users)

module _ (hasher : Hasher) (sound : IsHasher hasher) (salt other : ℕ) (user : Row)
    (current password confirm : Text) (now : ℕ) (site : Site) (u : User)
    (differ : user.user_id ≢ other) (there : get_user user.user_id site.users ≡ some u) where
  -- The two ways in which a change ends.
  abbrev pub Settles : Option (Reply × Site) → Type 0
  Settles result =
      (reply : Reply) × (site' : Site) × (result ≡ some (reply, site'))
      × (((complaints : List Complaint) × (reply ≡ refused complaints)
            × (site' ≡ flash (errors complaints) site))
          ⊎ ((reply ≡ done)
              × Changed hasher user.user_id other current password confirm site.users site'.users))

  store_password-Settles :
      (complaints : List Complaint)
      → (complaints ≡ []
          → (password_matches hasher user.user_id current site.users ≡ true)
            × ((password == confirm) ≡ true)
            × ((password == current) ≡ false))
      → Settles (store_password hasher salt user password now site complaints)
  unfolding store_password with_password
  store_password-Settles (c ∷ cs) clean =
      (refused (c ∷ cs), flash (errors (c ∷ cs)) site, refl, inl (c ∷ cs, refl, refl))
  store_password-Settles [] clean =
      let id : ℕ = user.user_id in
      let hash : Text = hasher.generate salt password in
      let after : Users = password_set hash false id now site.users in
      let stored = credentials_of-password_set hash false id now site.users u there in
      let (right, repeated, different) = clean refl in
      (
        done,
        flash (success_message ∷ [])
            (logged "password.changed" (some id) user.username (record site { users = after })),
        rw (set_password-eq hasher salt id password false now site.users u there, store_password)
            refl,
        inr (
          refl,
          (
            right,
            repeated,
            different,
            rw
                (matches-eq hasher id password after (with_password hash false now u.credentials)
                  stored)
                (in_force salt u.credentials),
            with_password hash false now u.credentials,
            stored,
            ground arith,
            credentials_of-password_set_ne hash false id now site.users other differ,
          ),
        ),
      )
    where
      in_force :
          (salt : ℕ) (old : Option UserCredential)
          → hasher.check
              (with_password (hasher.generate salt password) false now old).password_hash
              password
            ≡ true
      in_force salt none = sound.check-generate salt password
      in_force salt (some c) = sound.check-generate salt password

-- With a hasher whose hashes match their passwords, and a user whose account is there, the POST of
-- /change-password does not raise. Either it refuses and changes nothing but the messages of the
-- session, one for each complaint, or the current password matched and the new one, repeated and different, is in
-- force afterwards with no forced change, and any other account's credentials are as before.
pub change_password-ends :
    (hasher : Hasher) (sound : IsHasher hasher) (config : Config) (salt other : ℕ) (user : Row)
    (raw_current raw_password raw_confirm : Text) (now : ℕ) (site : Site) (u : User)
    → user.user_id ≢ other
    → get_user user.user_id site.users ≡ some u
    → (reply : Reply) × (site' : Site) × (change_password hasher config salt user raw_current
          raw_password raw_confirm now site
        ≡ some (reply, site'))
      × (((complaints : List Complaint) × (reply ≡ refused complaints)
            × (site' ≡ flash (errors complaints) site))
          ⊎ ((reply ≡ done)
              × Changed hasher user.user_id other
                  (take 200 raw_current)
                  (take 200 raw_password)
                  (take 200 raw_confirm)
                  site.users
                  site'.users))
unfolding change_password
change_password-ends hasher sound config salt other user raw_current raw_password raw_confirm now
      site u differ there =
    store_password-Settles hasher sound salt other user (take 200 raw_current)
      (take 200 raw_password) (take 200 raw_confirm) now site u differ there
      (change_complaints hasher config user (take 200 raw_current) (take 200 raw_password)
        (take 200 raw_confirm) site.users)
      (λ e. change_complaints-nil hasher config user _ _ _ site.users e)
