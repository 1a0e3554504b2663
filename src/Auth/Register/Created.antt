-- ===== src/Auth/Register/Created.antt =====
-- What a registration in auth.py leaves.
use itp2_group6_the_pond.Prelude.{
  ℕ, ◌≡◌, ◌≢◌, ◌⊎◌, inl, inr, refl, ◌∙◌, ap, true, false, Option, none, some, List, [], ◌∷◌, ◌++◌,
  Text, Text_eq, ℕ_eq, Clock, Bool-cases, Option-cases, find?, any, String_eq, ◌==◌,
}
use itp2_group6_the_pond.Roles.{student}
use itp2_group6_the_pond.Accounts.{
  Users, Row, pending, is_called, row_of, get_user, get_user_row, is_some, username_taken,
  create_user, add_user,
}
use itp2_group6_the_pond.Security.{Hasher, Config, password_set, with_password, password_matches}
use itp2_group6_the_pond.Security.Laws.{set_password-eq, credentials_of-password_set}
use itp2_group6_the_pond.Security.Temporary.{IsHasher}
use itp2_group6_the_pond.Throttle.{limits}
use itp2_group6_the_pond.Throttle.Answers.{hit-answers}
use itp2_group6_the_pond.Auth.{Site, logged, flash, Category, success_message, error_message}
use itp2_group6_the_pond.Auth.Names.{IsUnique, by_username, matches-eq}
use itp2_group6_the_pond.Auth.Register.{
  Form, Complaint, Reply, too_many, refused, done, read_form, form_faults, form_complaints, taken,
  errors, enrol, answer_form, with_form, register,
}
use itp2_group6_the_pond.Auth.Register.Newcomer.{
  newcomer, add_user-newcomer, add_user-IsUnique, set_user-IsUnique, enrolled-row,
}

-- What a registration leaves if it succeeds.
abbrev pub Enrolled : Hasher → Config → ℕ → Form → Users → Type 0
Enrolled hasher config id form users =
    (form_complaints config form false ≡ [])
    × (password_matches hasher id form.password users ≡ true)
    × (row : Row) × (get_user_row id users ≡ some row)
    × (row.role ≡ student)
    × (row.approval_status ≡ pending)

abbrev pub Registers : Hasher → Config → ℕ → Form → Site → Option (Reply × Site) → Type 0
Registers hasher config id form site result =
    (reply : Reply) × (site' : Site) × (result ≡ some (reply, site'))
    × IsUnique site'.users
    × (messages : List Category) × (site'.session ≡ (flash messages site).session)
    × (((reply ≢ done) × (site'.users ≡ site.users))
        ⊎ ((reply ≡ done) × Enrolled hasher config id form site'.users))

append_nil {ℓ} : {A : Type ℓ} (xs ys : List A) → xs ++ ys ≡ [] → ys ≡ []
append_nil [] ys e = e
append_nil (x ∷ xs) ys e = cc e

taken-complains : (config : Config) (form : Form) → form_complaints config form true ≢ []
unfolding form_complaints
taken-complains config form e = cc (append_nil (form_faults config form) (taken ∷ []) e)

module _ (hasher : Hasher) (sound : IsHasher hasher) (config : Config) (salt id : ℕ) (form : Form)
    (clock : Clock) (site : Site) (unique : IsUnique site.users)
    (fresh : get_user id site.users ≡ none)
    (is_set_up : any (λ role. role == "user") site.roles ≡ true) where
  enrol-Registers :
      form_complaints config form false ≡ []
      → find? (is_called form.username) site.users ≡ none
      → Registers hasher config id form site (enrol hasher salt id form clock site)
  unfolding enrol with_password create_user
  enrol-Registers clean free =
      let base : Users = add_user id form.name form.username (clock 2) site.users in
      let hash : Text = hasher.generate salt form.password in
      let made = add_user-newcomer id (clock 2) form site.users fresh in
      let stored =
        credentials_of-password_set hash false id (clock 3) base (newcomer id form (clock 2))
          made in
      let (row, shown, is_student, waits) =
        enrolled-row hash id (clock 2) (clock 3) form site.users fresh in
      (
        done,
        flash (success_message ∷ []) (
            logged "account.registered" (some id) form.username
              (record site { users = password_set hash false id (clock 3) base })),
        rw (is_set_up, create_user, enrol)
            (rw
              (set_password-eq hasher salt id form.password false (clock 3) base
                (newcomer id form (clock 2)) made)
              refl),
        set_user-IsUnique hash id (clock 3) base
            (add_user-IsUnique id (clock 2) form site.users unique free),
        success_message ∷ [],
        refl,
        inr (
          refl,
          (
            clean,
            rw
                (matches-eq hasher id form.password (password_set hash false id (clock 3) base)
                  (with_password hash false (clock 3) none) stored)
                (sound.check-generate salt form.password),
            row,
            shown,
            is_student,
            waits,
          ),
        ),
      )

  answer_form-Registers :
      (complaints : List Complaint)
      → (complaints ≡ [] → form_complaints config form false ≡ [])
      → (complaints ≡ [] → find? (is_called form.username) site.users ≡ none)
      → Registers hasher config id form site (answer_form hasher salt id form clock site complaints)
  unfolding answer_form
  answer_form-Registers [] clean free = enrol-Registers (clean refl) (free refl)
  answer_form-Registers (c ∷ cs) clean free = (
    refused (c ∷ cs),
    flash (errors (c ∷ cs)) site,
    refl,
    unique,
    errors (c ∷ cs),
    refl,
    inl (λ e. cc e, refl),
  )

  with_form-Registers :
      Registers hasher config id form site (with_form hasher config salt id form clock site)
  unfolding with_form username_taken row_of is_some
  with_form-Registers =
      let named = by_username form.username site.users unique in
      elim (Option-cases (find? (is_called form.username) site.users)) [
        | inl free ↦
            let (reply, s', runs, kept, messages, same, ends) =
              answer_form-Registers (form_complaints config form false) (λ e. e) (λ _. free) in
            (
              reply,
              s',
              rw (named ∙ ap (λ o. some (row_of o)) free, username_taken, with_form) runs,
              kept,
              messages,
              same,
              ends,
            )
        | inr (u, there) ↦
            let (reply, s', runs, kept, messages, same, ends) =
              answer_form-Registers (form_complaints config form true)
                (λ e. absurd (taken-complains config form e))
                (λ e. absurd (taken-complains config form e)) in
            (
              reply,
              s',
              rw (named ∙ ap (λ o. some (row_of o)) there, username_taken, with_form) runs,
              kept,
              messages,
              same,
              ends,
            )
      ]

-- With a hasher whose hashes match their passwords, where no two names differ in case only, the role
-- of a student is there and the database assigns a fresh key, the POST of /register does not raise,
-- keeps the names unique and only adds messages to the session. If it succeeds, there were no
-- complaints, and the new account is a student's that waits for approval and has the password; else
-- the accounts are as before.
pub register-ends :
    (hasher : Hasher) (sound : IsHasher hasher) (config : Config) (salt id : ℕ) (source : Text)
    (form : Form) (clock : Clock) (site : Site)
    → IsUnique site.users
    → get_user id site.users ≡ none
    → any (λ role. role == "user") site.roles ≡ true
    → Registers hasher config id
        (read_form config form)
        site
        (register hasher config salt id source form clock site)
unfolding register
register-ends hasher sound config salt id source form clock site unique fresh is_set_up =
    let (allowed, wait, table, limited) =
      hit-answers "register_ip" source clock site.throttle 5 3600 (unfold limits in refl) in
    let site' : Site = record site { throttle = table } in
    let (reply, s', runs, kept, messages, same, ends) =
      with_form-Registers hasher sound config salt id (read_form config form) clock site' unique
        fresh is_set_up in
    elim (Bool-cases allowed) [
      | inl let_in ↦ (reply, s', rw (limited, let_in, register) runs, kept, messages, same, ends)
      | inr full ↦ (
        too_many wait,
        flash (error_message ∷ []) site',
        rw (limited, full, register) refl,
        unique,
        error_message ∷ [],
        refl,
        inl (λ e. cc e, refl),
      )
    ]
