-- ===== src/Throttle/Buckets.antt =====
-- The buckets of throttle.py: a key's text cannot turn one action's bucket into another's.
use text.Mathlib.TextEquality.{eq_iff}
use itp2_group6_the_pond.Prelude.{
  ℕ, ◌≡◌, sym, ◌∙◌, ap, inl, inr, Option, some, none, [], ◌∷◌, String, Text, codes, ◌==◌, Text_eq,
  text_eq, ℕ_eq, String_eq, if◌then◌else◌, Bool-cases, arith, some-injective,
}
use itp2_group6_the_pond.Throttle.{limits, bucket_of}

until_colon : Text → Text
until_colon [] = []
until_colon (c ∷ cs) = let rest = until_colon cs in if c == b':' then [] else c ∷ rest

-- What LIMITS says of the action that a bucket's text begins with.
by_prefix : Text → Option (ℕ × ℕ)
by_prefix t =
    if t == codes "login_ip"
    then some (15, 900)
    else if t == codes "login_user"
    then some (10, 900)
    else if t == codes "register_ip"
    then some (5, 3600)
    else if t == codes "flag_challenge"
    then some (20, 300)
    else if t == codes "change_password"
    then some (10, 900)
    else none

abbrev HasPrefix : ℕ × ℕ → Text → String → Type 0
HasPrefix p key action =
    limits action ≡ some p → by_prefix (until_colon (bucket_of action key)) ≡ some p

module _ (p : ℕ × ℕ) (key : Text) where
  known_action :
      (name action : String) → action ≡ name → HasPrefix p key name → HasPrefix p key action
  known_action name action e h = rw e h

  -- The limits of an action can be read off its buckets.
  bucket-limits : (action : String) → HasPrefix p key action
  unfolding limits bucket_of by_prefix until_colon text_eq
  bucket-limits action = elim (Bool-cases (action == "login_ip")) [
    | inl e ↦ known_action "login_ip" action ((eq_iff action "login_ip").0 e) (λ h. h)
    | inr login_ip_ne ↦ elim (Bool-cases (action == "login_user")) [
      | inl e ↦ known_action "login_user" action ((eq_iff action "login_user").0 e) (λ h. h)
      | inr login_user_ne ↦ elim (Bool-cases (action == "register_ip")) [
        | inl e ↦ known_action "register_ip" action ((eq_iff action "register_ip").0 e) (λ h. h)
        | inr register_ip_ne ↦ elim (Bool-cases (action == "flag_challenge")) [
          | inl e ↦
              known_action "flag_challenge" action ((eq_iff action "flag_challenge").0 e) (λ h. h)
          | inr flag_challenge_ne ↦ elim (Bool-cases (action == "change_password")) [
            | inl e ↦
                known_action "change_password" action ((eq_iff action "change_password").0 e)
                  (λ h. h)
            | inr change_password_ne ↦ λ h. absurd (ground arith)
          ]
        ]
      ]
    ]
  ]

module _ (a b : String) (k l : Text) {p q : ℕ × ℕ} where
  pub same_bucket-limits :
      limits a ≡ some p → limits b ≡ some q → bucket_of a k ≡ bucket_of b l → p ≡ q
  same_bucket-limits hp hq same = some-injective (
      sym (bucket-limits p k a hp)
      ∙ ap (λ t. by_prefix (until_colon t)) same
      ∙ bucket-limits q l b hq)
