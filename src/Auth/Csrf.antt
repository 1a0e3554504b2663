-- ===== src/Auth/Csrf.antt =====
-- The tokens of pond-sec/app/csrf.py across a sign-in or a sign-out.
use itp2_group6_the_pond.Prelude.{
  ◌≡◌, inl, inr, refl, Bool, true, false, ◌&&◌, not, none, some, [], ◌∷◌, Text, Text_eq, ◌==◌,
  Clock, arith, some-injective, ap,
}
use itp2_group6_the_pond.Security.{Hasher, Config}
use itp2_group6_the_pond.Auth.{Session, Site, Page, welcome, Destination, login, logout}
use itp2_group6_the_pond.Auth.Names.{IsUnique, IsComplete}
use itp2_group6_the_pond.Auth.Login.{login-Ends}

-- csrf_token(): the session's token, minted from the generator's text on first use.
unfoldable pub csrf_token : Text → Session → Text × Session
csrf_token minted session = elim session.csrf [
  | none ↦ (minted, record session { csrf = some minted })
  | some token ↦ (token, session)
]

-- form.get(FIELD) or headers.get(HEADER, "")
unfoldable pub supplied : Text → Text → Text
supplied [] header = header
supplied (c ∷ cs) header = c ∷ cs

-- protect(): whether the request goes on. `unsafe` says whether the method changes state.
unfoldable pub protect : Bool → Text → Text → Session → Bool
protect false form header session = true
protect true form header session = elim session.csrf [
  | none ↦ false
  | some expected ↦
      not (expected == [])
      && (not (supplied form header == []) && (expected == supplied form header))
]

new_session-rejects :
    (form header : Text) (session : Session)
    → session.csrf ≡ none
    → protect true form header session ≡ false
unfolding protect
new_session-rejects form header session h = ground (arith, h)

-- No token survives a sign-in or a sign-out: after either, and until a page has minted a new token, a
-- request that changes state is rejected whatever token it carries.
pub login-rejects :
    (hasher : Hasher) (config : Config) (can_redirect : Text → Bool)
    (source raw_username raw_password next form header : Text) (clock : Clock) (site site' : Site)
    (d : Destination)
    → IsUnique site.users
    → IsComplete site.users
    → can_redirect next ≡ true
    → login hasher config can_redirect source raw_username raw_password next clock site
      ≡ some (welcome d, site')
    → (protect true form header site'.session ≡ false)
      × (protect true form header (logout site').session ≡ false)
unfolding logout
login-rejects hasher config can_redirect source raw_username raw_password next form header clock
      site site' d unique complete sends done =
    let (page, s', runs, ends) =
      login-Ends hasher config can_redirect source raw_username raw_password next clock site unique
        complete sends in
    let same : (page, s') ≡ (welcome d, site') = some-injective (cc (runs, done)) in
    let session : s'.session ≡ site'.session = ap (λ (r : Page × Site). r.1.session) same in
    (
      elim ends [
        | inl (_, row, _, _, _, _, new) ↦
            new_session-rejects form header site'.session (ground (arith, session, new))
        | inr (other, _) ↦ absurd (other d (ap (λ (r : Page × Site). r.0) same))
      ],
      new_session-rejects form header (logout site').session refl,
    )
