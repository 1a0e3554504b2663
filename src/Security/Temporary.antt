-- ===== src/Security/Temporary.antt =====
-- The temporary passwords of security.py, as staff hand them out.
use itp2_group6_the_pond.Prelude.{
  ℕ, ◌+◌, ◌/◌, ◌%◌, ◌≤◌, ◌≡◌, ◌≢◌, refl, true, Option, none, some, List, [], ◌∷◌, ◌++◌, Text, codes,
  length, length-append, arith, All, zero, suc, ℕ_eq,
}
use itp2_group6_the_pond.Accounts.{User, UserCredential, Users, get_user}
use itp2_group6_the_pond.Security.{
  Hasher, set_password, clear_lockout, password_matches, credentials_of, cleared, with_password,
  password_set,
}
use itp2_group6_the_pond.Security.Laws.{
  credentials_of-clear_lockout, credentials_of-password_set, credentials_of-password_set_ne,
  set_password-eq,
}

-- TEMP_WORDS
abbrev pub temp_words : List Text
temp_words =
    codes "harbour"
    ∷ codes "brick"
    ∷ codes "candle"
    ∷ codes "timber"
    ∷ codes "ferry"
    ∷ codes "lantern"
    ∷ codes "meadow"
    ∷ codes "quartz"
    ∷ codes "saddle"
    ∷ codes "velvet"
    ∷ codes "walnut"
    ∷ codes "anchor"
    ∷ codes "copper"
    ∷ codes "garden"
    ∷ codes "hollow"
    ∷ codes "marble"
    ∷ codes "pepper"
    ∷ codes "ribbon"
    ∷ codes "tunnel"
    ∷ codes "willow"
    ∷ []

-- What the random generator returns: three words, each with its place in the list, and a number
-- below 90.
pub record Picks : Type 0 where
  pub first : ℕ
  pub second : ℕ
  pub third : ℕ
  pub number : ℕ

-- The last entry stands for any place beyond it: secrets.choice returns none of these.
unfoldable pub choice : List Text → ℕ → Text
choice [] i = []
choice (w ∷ []) i = w
choice (w ∷ v ∷ ws) zero = w
choice (w ∷ v ∷ ws) (suc i) = choice (v ∷ ws) i

-- str(n) of a number with two digits
abbrev two_digits : ℕ → Text
two_digits n = (b'0' + n / 10) ∷ (b'0' + n % 10) ∷ []

unfoldable pub temporary_password : Picks → Text
temporary_password picks =
    choice temp_words picks.first
    ++ (b'-' ∷ choice temp_words picks.second
        ++ (b'-' ∷ choice temp_words picks.third ++ (b'-' ∷ two_digits (picks.number + 10))))

-- The password in the clear, and the table with its hash, the forced change and no lockout.
unfoldable pub issue_temporary_password : Hasher → ℕ → Picks → ℕ → ℕ → Users → Option (Text × Users)
issue_temporary_password hasher salt picks id now users =
    let temporary = temporary_password picks in
    elim (set_password hasher salt id temporary true now users) [
      | none ↦ none
      | some users' ↦ some (temporary, clear_lockout id users')
    ]

choice-length :
    (words : List Text) (i : ℕ)
    → All (λ w. 5 ≤ length w) words
    → words ≢ []
    → 5 ≤ length (choice words i)
unfolding choice
choice-length [] i h some_word = absurd (some_word refl)
choice-length (w ∷ []) i h some_word = h.0
choice-length (w ∷ v ∷ ws) zero h some_word = h.0
choice-length (w ∷ v ∷ ws) (suc i) h some_word = choice-length (v ∷ ws) i h.1 (λ e. cc e)

words-length : All (λ w. 5 ≤ length w) temp_words
words-length = omega arith

-- Whatever is drawn, a temporary password has at least 20 characters.
pub temporary_password-length : (picks : Picks) → 20 ≤ length (temporary_password picks)
unfolding temporary_password
temporary_password-length picks =
    let long : ((i : ℕ) → 5 ≤ length (choice temp_words i)) =
      λ i. choice-length temp_words i words-length (λ e. cc e) in
    simp (length-append {0} {A = ℕ})
      (omega (arith, long picks.first, long picks.second, long picks.third))

-- werkzeug's documented round trip: a password matches the hash generated from it.
pub record IsHasher (hasher : Hasher) : Type 0 where
  pub check-generate :
      (salt : ℕ) (password : Text) → hasher.check (hasher.generate salt password) password ≡ true

module _ (hasher : Hasher) (sound : IsHasher hasher) where
  issued-matches :
      (salt : ℕ) (password : Text) (id now : ℕ) (users : Users) (u : User)
      → credentials_of id users
        ≡ some (cleared (with_password (hasher.generate salt password) true now u.credentials))
      → password_matches hasher id password users ≡ true
  unfolding password_matches cleared with_password
  issued-matches salt password id now users u there =
      ground (arith, sound.check-generate salt password)

  -- With a hasher whose hashes match their passwords, and an account that is there, with credentials or without: issuing does not raise, the password
  -- returned signs in afterwards, must be changed, and no lockout or failure count is left; any
  -- other account's credentials are as before.
  pub issue_temporary_password_lem :
      (salt : ℕ) (picks : Picks) (id other now : ℕ) (users : Users) (u : User)
      → id ≢ other
      → get_user id users ≡ some u
      → (users' : Users) × (c : UserCredential) × (issue_temporary_password hasher salt picks id now
            users
          ≡ some (temporary_password picks, users'))
        × (password_matches hasher id (temporary_password picks) users' ≡ true)
        × (credentials_of id users' ≡ some c)
        × (c.must_change_password ≡ true)
        × (c.failed_login_count ≡ 0)
        × (c.locked_until ≡ none)
        × (credentials_of other users' ≡ credentials_of other users)
  unfolding issue_temporary_password
  issue_temporary_password_lem salt picks id other now users u differ found =
      let hash : Text = hasher.generate salt (temporary_password picks) in
      let there : credentials_of id (clear_lockout id (password_set hash true id now users))
          ≡ some (cleared (with_password hash true now u.credentials)) =
        ground (
          arith,
          credentials_of-clear_lockout id id (password_set hash true id now users),
          credentials_of-password_set hash true id now users u found,
        ) in
      (
        clear_lockout id (password_set hash true id now users),
        cleared (with_password hash true now u.credentials),
        rw
            (
              set_password-eq hasher salt id (temporary_password picks) true now users u found,
              issue_temporary_password,
            )
            refl,
        issued-matches salt (temporary_password picks) id now
            (clear_lockout id (password_set hash true id now users)) u there,
        there,
        unfold cleared with_password in ground arith,
        unfold cleared in refl,
        unfold cleared in refl,
        ground (
          arith,
          credentials_of-clear_lockout id other (password_set hash true id now users),
          credentials_of-password_set_ne hash true id now users other differ,
        ),
      )
