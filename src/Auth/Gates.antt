-- ===== src/Auth/Gates.antt =====
-- The hooks in front of every view in auth.py: whom they let through.
use itp2_group6_the_pond.Prelude.{
  ℕ, ◌≤◌, ◌≡◌, ◌⊎◌, inl, inr, refl, true, false, Option, none, some, String, Clock, arith,
  Bool-cases, Option-cases, ltb,
}
use itp2_group6_the_pond.Accounts.{Approval, approved, pending, rejected, Row, Users, get_user_row}
use itp2_group6_the_pond.Security.{Config, lockout_remaining}
use itp2_group6_the_pond.Security.Lockout.{lockout_remaining_lem}
use itp2_group6_the_pond.Admin.{is_approved}
use itp2_group6_the_pond.Auth.{
  Site, view, open_to_pending, open_to_temporary, gates, before_request, load_logged_in_user,
  load_from, session_is_idle, unless_locked,
}

-- No lockout, or one that has passed.
abbrev pub IsFree : Row → ℕ → Type 0
IsFree row now =
    (row.locked_until ≡ none) ⊎ ((until : ℕ) × (row.locked_until ≡ some until) × (until ≤ now))

pub lockout_remaining-IsFree :
    (row : Row) (now : ℕ) (users : Users)
    → ltb 0 (lockout_remaining row now users).0 ≡ false
    → IsFree row now
lockout_remaining-IsFree row now users h = elim (lockout_remaining_lem row now users) [
  | inl (free, _, _) ↦ inl free
  | inr (until, locked, inl (past, _, _)) ↦ inr (until, locked, past)
  | inr (until, locked, inr (_, positive, _, _, _)) ↦ absurd (ground arith)
]

unless_locked-IsFree :
    (row r : Row) (now : ℕ) (site : Site)
    → (unless_locked row now site).0 ≡ some r
    → (r ≡ row) × IsFree row now
unfolding unless_locked
unless_locked-IsFree row r now site h =
    elim (Bool-cases (ltb 0 (lockout_remaining row now site.users).0)) [
      | inl locked ↦ absurd (ground (arith, h, locked))
      | inr free ↦ (ground (arith, h, free), lockout_remaining-IsFree row now site.users free)
    ]

-- The signed-in user: who is in the session, not idle, there and not locked.
abbrev pub IsSignedIn : Config → Clock → Site → Row → Type 0
IsSignedIn config clock site row =
    (id : ℕ) × (site.session.user_id ≡ some id)
    × ((session_is_idle config (clock 0) site.session).0 ≡ false)
    × (get_user_row id site.users ≡ some row)
    × IsFree row (clock 1)

load_from-IsSignedIn :
    (config : Config) (clock : Clock) (user_id : Option ℕ) (site : Site) (row : Row)
    → (load_from config clock user_id site).0 ≡ some row
    → (id : ℕ) × (user_id ≡ some id)
      × ((session_is_idle config (clock 0) site.session).0 ≡ false)
      × (get_user_row id site.users ≡ some row)
      × IsFree row (clock 1)
unfolding load_from
load_from-IsSignedIn config clock none site row h = cc h
load_from-IsSignedIn config clock (some id) site row h =
    elim (Bool-cases (session_is_idle config (clock 0) site.session).0) [
      | inl idle ↦ absurd (cc (rw (idle, load_from) at h))
      | inr active ↦ elim (Option-cases (get_user_row id site.users)) [
        | inl missing ↦ absurd (cc (rw (active, missing, load_from) at h))
        | inr (r, there) ↦
            let (same, free) =
              unless_locked-IsFree r row (clock 1)
                (record site { session = (session_is_idle config (clock 0) site.session).1 })
                (rw (active, there, load_from) at h) in
            (id, refl, active, rw same there, rw same free)
      ]
    ]

-- What the two gates ask of an endpoint that is not exempt from them.
abbrev pub IsAdmitted : String → Row → Type 0
IsAdmitted endpoint row =
    ((open_to_pending endpoint ≡ true) ⊎ (row.approval_status ≡ approved))
    × ((open_to_temporary endpoint ≡ true) ⊎ (row.must_change_password ≡ false))

is_approved_lem : (status : Approval) → (is_approved status ≡ false) ⊎ (status ≡ approved)
unfolding is_approved
is_approved_lem pending = inl refl
is_approved_lem approved = inr refl
is_approved_lem rejected = inl refl

gates-view :
    (endpoint : String) (user : Option Row) (row : Row)
    → gates endpoint user ≡ view (some row)
    → (user ≡ some row) × IsAdmitted endpoint row
unfolding gates
gates-view endpoint none row e = cc e
gates-view endpoint (some r) row e = ground (arith, is_approved_lem r.approval_status)

-- If the hooks let a request through to its view as a user, then the session names that user and is
-- not idle, no lockout of the account lasts, the account is approved unless the endpoint is exempt
-- from that gate, and has no temporary password unless the endpoint is exempt from that one.
pub before_request-view :
    (config : Config) (endpoint : String) (clock : Clock) (site : Site) (row : Row)
    → (before_request config endpoint clock site).0 ≡ view (some row)
    → IsSignedIn config clock site row × IsAdmitted endpoint row
unfolding before_request load_logged_in_user
before_request-view config endpoint clock site row through =
    let (loaded, admitted) =
      gates-view endpoint (load_logged_in_user config clock site).0 row through in
    (load_from-IsSignedIn config clock site.session.user_id site row loaded, admitted)
