-- ===== src/Admin/Outcome.antt =====
-- How a route of admin.py ends: it refuses and changes nothing, or commits one change and one entry
-- of the log.
use mathlib.Core.Path.{subst}
use itp2_group6_the_pond.Prelude.{
  ℕ, ◌≡◌, ◌≢◌, refl, sym, ◌⊎◌, inl, inr, true, Option, none, some, String, Option-cases, Bool-cases,
}
use itp2_group6_the_pond.Roles.{can, outranks, require}
use itp2_group6_the_pond.Audit.{record_event}
use itp2_group6_the_pond.Accounts.{Users, Row, get_user_row}
use itp2_group6_the_pond.Admin.{
  Console, Answer, done, View, guarded, with_target, may_act_on, commit,
}

with_target-found :
    (id : ℕ) (s : Console) (view : Row → View) (row : Row)
    → get_user_row id s.users ≡ some row
    → with_target id view s ≡ view row s
unfolding with_target
with_target-found id s view row there = rw (there, with_target)

-- `P` holds of the accounts after a commit.
module _ (P : Users → Type 0) (id : ℕ) (s : Console) where
  abbrev pub Outcome : Answer × Console → Type 0
  Outcome (answer, s') =
      ((answer ≢ done) × (s' ≡ s))
      ⊎ ((answer ≡ done)
          × P s'.users
          × (event : String) × (row : Row) × (get_user_row id s.users ≡ some row)
          × (s'.log ≡ record_event event (some row.user_id) (some row.username) s.log))

  pub guarded-Outcome :
      (permission : String) (actor : Option Row) (view : Row → View)
      → ((a : Row) → actor ≡ some a → can permission (some a.role) ≡ true → Outcome (view a s))
      → Outcome (guarded permission actor view s)
  unfolding guarded require
  guarded-Outcome permission none view h = inl (λ e. cc e, refl)
  guarded-Outcome permission (some a) view h = elim (Bool-cases (can permission (some a.role))) [
    | inl held ↦ rw (held, guarded) (h a refl held)
    | inr lacking ↦ rw (lacking, guarded) (inl (λ e. cc e, refl))
  ]

  pub with_target-Outcome :
      (view : Row → View)
      → ((row : Row) → get_user_row id s.users ≡ some row → Outcome (view row s))
      → Outcome (with_target id view s)
  unfolding with_target
  with_target-Outcome view h = elim (Option-cases (get_user_row id s.users)) [
    | inl missing ↦ rw (missing, with_target) (inl (λ e. cc e, refl))
    | inr (row, there) ↦ subst Outcome (sym (with_target-found id s view row there)) (h row there)
  ]

  pub may_act_on-Outcome :
      (actor target : Row) (view : View)
      → (outranks (some actor.role) (some target.role) ≡ true → Outcome (view s))
      → Outcome (may_act_on actor target view s)
  unfolding may_act_on
  may_act_on-Outcome actor target view h =
      elim (Bool-cases (outranks (some actor.role) (some target.role))) [
        | inl senior ↦ rw senior (h senior)
        | inr not_senior ↦ rw not_senior (inl (λ e. cc e, refl))
      ]

  pub commit-Outcome :
      (event : String) (target : Row) (users : Users)
      → get_user_row id s.users ≡ some target
      → P users
      → Outcome (commit event target users s)
  unfolding commit
  commit-Outcome event target users there h = inr (refl, h, event, target, there, refl)
