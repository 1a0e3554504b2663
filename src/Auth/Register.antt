-- ===== src/Auth/Register.antt =====
-- Registration and the change of one's own password: two more views of pond-sec/app/auth.py.
pub mod Newcomer
pub mod Created
pub mod Changed
use itp2_group6_the_pond.Prelude.{
  ℕ, ◌+◌, Bool, true, false, ◌&&◌, ◌||◌, not, Option, none, some, List, [], ◌∷◌, ◌++◌, map, String,
  String_eq, Text, Text_eq, codes, ◌==◌, ℕ_eq, if◌then◌else◌, leb, length, take, any, all, Clock,
}
use itp2_group6_the_pond.Audit.{record_event}
use itp2_group6_the_pond.Accounts.{Users, Row, username_taken, create_user}
use itp2_group6_the_pond.Security.{
  Hasher, Config, Problem, password_problems, set_password, password_matches,
}
use itp2_group6_the_pond.Throttle.{hit}
use itp2_group6_the_pond.Auth.{Site, field, logged, flash, Category, error_message, success_message}

-- UNI_YEARS
abbrev pub uni_years : List Text
uni_years =
    codes "Year 1"
    ∷ codes "Year 2"
    ∷ codes "Year 3"
    ∷ codes "Year 4"
    ∷ codes "Postgraduate"
    ∷ codes "Staff"
    ∷ []

abbrev pub is_name_char : ℕ → Bool
is_name_char c =
    (leb b'a' c && leb c b'z')
    || (leb b'A' c && leb c b'Z')
    || (leb b'0' c && leb c b'9')
    || c == b'_'
    || c == b'.'
    || c == b'-'

-- `$` also matches in front of a line feed that ends the text.
unfoldable pub without_newline : Text → Text
without_newline [] = []
without_newline (c ∷ []) = if c == 10 then [] else c ∷ []
without_newline (c ∷ d ∷ ds) = c ∷ without_newline (d ∷ ds)

-- USERNAME_RE.match: ^[A-Za-z0-9_.-]{3,32}$
unfoldable pub is_username : Text → Bool
is_username text =
    let body = without_newline text in
    all is_name_char body && (leb 3 (length body) && leb (length body) 32)

-- What a form's messages report.
pub data Complaint : Type 0 where
  no_name bad_year bad_username mismatch taken wrong_current not_new : Complaint
  weak : Problem → Complaint

abbrev pub complain : Bool → Complaint → List Complaint
complain true c = c ∷ []
complain false c = []

pub record Form : Type 0 where
  pub name : Text
  pub uni_year : Text
  pub username : Text
  pub password : Text
  pub confirm : Text

-- The fields as register() reads them.
abbrev pub read_form : Config → Form → Form
read_form config form = record {
  name = field config form.name;
  uni_year = field config form.uni_year;
  username = field config form.username;
  password = take 200 form.password;
  confirm = take 200 form.confirm;
}

unfoldable pub form_faults : Config → Form → List Complaint
form_faults config form =
    complain (form.name == []) no_name
    ++ (complain (not (any (λ year. form.uni_year == year) uni_years)) bad_year
        ++ (complain (not (is_username form.username)) bad_username
            ++ (complain (not (form.password == form.confirm)) mismatch
                ++ map weak (password_problems config form.password form.username))))

-- All complaints of register(): a name that is taken is the last.
unfoldable pub form_complaints : Config → Form → Bool → List Complaint
form_complaints config form is_taken = form_faults config form ++ complain is_taken taken

-- The answers of a form: the seconds to wait, the complaints, or a redirect.
pub data Reply : Type 0 where
  too_many : ℕ → Reply
  refused : List Complaint → Reply
  done : Reply

-- A message for each complaint.
abbrev pub errors : List Complaint → List Category
errors complaints = map (λ _. error_message) complaints

module _ (hasher : Hasher) where
  -- `id` is the key that the database assigns; `none` is an exception.
  unfoldable pub enrol : ℕ → ℕ → Form → Clock → Site → Option (Reply × Site)
  enrol salt id form clock site =
      elim (create_user site.roles id form.name form.username (clock 2) site.users) [
        | none ↦ none
        | some base ↦ elim (set_password hasher salt id form.password false (clock 3) base) [
          | none ↦ none
          | some users ↦ some (
            done,
            flash (success_message ∷ []) (
                logged "account.registered" (some id) form.username
                  (record site { users = users })),
          )
        ]
      ]

  unfoldable pub answer_form : ℕ → ℕ → Form → Clock → Site → List Complaint → Option (Reply × Site)
  answer_form salt id form clock site [] = enrol salt id form clock site
  answer_form salt id form clock site (c ∷ cs) =
      some (refused (c ∷ cs), flash (errors (c ∷ cs)) site)

  unfoldable pub with_form : Config → ℕ → ℕ → Form → Clock → Site → Option (Reply × Site)
  with_form config salt id form clock site = elim (username_taken form.username site.users) [
    | none ↦ none
    | some is_taken ↦ answer_form salt id form clock site (form_complaints config form is_taken)
  ]

  -- The POST of /register.
  unfoldable pub register : Config → ℕ → ℕ → Text → Form → Clock → Site → Option (Reply × Site)
  register config salt id source form clock site =
      elim (hit "register_ip" source clock site.throttle) [
        | none ↦ none
        | some (allowed, wait, table) ↦
            let site' = record site { throttle = table } in
            let answer = with_form config salt id (read_form config form) clock site' in
            if allowed then answer else some (too_many wait, flash (error_message ∷ []) site')
      ]

  unfoldable pub change_complaints : Config → Row → Text → Text → Text → Users → List Complaint
  change_complaints config user current password confirm users =
      complain (not (password_matches hasher user.user_id current users)) wrong_current
      ++ (complain (not (password == confirm)) mismatch
          ++ (complain (password == current) not_new
              ++ map weak (password_problems config password user.username)))

  unfoldable pub store_password : ℕ → Row → Text → ℕ → Site → List Complaint → Option (Reply × Site)
  store_password salt user password now site (c ∷ cs) =
      some (refused (c ∷ cs), flash (errors (c ∷ cs)) site)
  store_password salt user password now site [] =
      elim (set_password hasher salt user.user_id password false now site.users) [
        | none ↦ none
        | some users ↦ some (
          done,
          flash (success_message ∷ []) (
              logged "password.changed" (some user.user_id) user.username
                (record site { users = users })),
        )
      ]

  -- The POST of /change-password by the user that the hooks loaded.
  unfoldable pub change_password :
      Config → ℕ → Row → Text → Text → Text → ℕ → Site → Option (Reply × Site)
  change_password config salt user raw_current raw_password raw_confirm now site =
      let current = take 200 raw_current in
      let password = take 200 raw_password in
      store_password salt user password now site
        (change_complaints config user current password (take 200 raw_confirm) site.users)
