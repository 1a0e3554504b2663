-- ===== src/Attempts/Single.antt =====
-- One attempt in progress for each user, in the sessions of themes.py.
use mathlib.Core.Path.{subst}
use itp2_group6_the_pond.Prelude.{
  ℕ, suc, ◌≡◌, ◌≤◌, refl, inl, inr, sym, ap, ◌∙◌, Bool, true, false, Option, none, some, List, [],
  ◌∷◌, ◌++◌, map, ◌==◌, ℕ_eq, count, count-append, filter, find?, arith, if◌then◌else◌, Bool-cases,
  ◌&&◌, Text, Option-cases,
}
use itp2_group6_the_pond.Sessions.{
  SessionStatus, running_session, abandoned, Instance, World, Env, is_live_status, is_active_of,
  latest_started, active_instance, PublishedChallenge, LaunchAnswer, missing, already_here,
  already_running, lab_unconfigured, no_template, one_workstation_needed, could_not_start, started,
  launch_beside, launch,
}
use itp2_group6_the_pond.Attempts.View.{Seat, seat_of, view, is_seat}
use itp2_group6_the_pond.Attempts.Launches.{after_launch, launch-view}

abbrev pub is_active_seat : ℕ → Seat → Bool
is_active_seat u (id, user_id, status) = user_id == u && is_live_status status

-- Each user has one attempt in progress at most.
unfoldable pub IsSingle : List Seat → Type 0
IsSingle seats = (u : ℕ) → count (is_active_seat u) seats ≤ 1

count-view :
    (u : ℕ) (rows : List Instance)
    → count (is_active_seat u) (map seat_of rows) ≡ count (is_active_of u) rows
unfolding count is_active_of
count-view u [] = refl
count-view u (i ∷ rows) = elim (Bool-cases (is_active_of u i)) [
  | inl here ↦ rw here (ap suc (count-view u rows))
  | inr there ↦ rw there (count-view u rows)
]

-- Where a query finds no latest row, no row passes its test.
latest_started-none :
    (p : Instance → Bool) (rows : List Instance)
    → latest_started (filter p rows) ≡ none
    → count p rows ≡ 0
unfolding latest_started filter count
latest_started-none p [] h = refl
latest_started-none p (i ∷ rows) h = elim (Bool-cases (p i)) [
  | inr there ↦ rw there (latest_started-none p rows (rw (filter, there) at h))
  | inl here ↦
      let found = rw (filter, here) at h in
      elim (Option-cases (latest_started (filter p rows))) [
        | inl nothing ↦ let bad = rw (latest_started, nothing) at found in cc
        | inr (best, some_best) ↦ let bad = rw (latest_started, some_best) at found in cc
      ]
]

active-none :
    (user_id : ℕ) (w : World)
    → active_instance user_id w ≡ none
    → count (is_active_seat user_id) (view w) ≡ 0
unfolding active_instance
active-none user_id w h =
    count-view user_id w.instances ∙ latest_started-none (is_active_of user_id) w.instances h

-- The answers under which a launch adds an attempt.
abbrev pub adds : LaunchAnswer → Bool
adds started = true
adds could_not_start = true
adds _ = false

beside_added :
    (env : Env) (id user_id : ℕ) (username : Text) (challenge : PublishedChallenge) (w : World)
    (existing : Option Instance)
    → adds (launch_beside env challenge id user_id username w existing).1 ≡ true
    → existing ≡ none
beside_added env id user_id username challenge w none h = refl
beside_added env id user_id username challenge w (some i) h =
    elim (Bool-cases (i.challenge_id == challenge.challenge_id)) [
      | inl same ↦ let bad = rw same at h in cc
      | inr other ↦ let bad = rw other at h in cc
    ]

published_added :
    (env : Env) (id user_id : ℕ) (username : Text) (challenge : PublishedChallenge) (w : World)
    (shown : Bool)
    → adds
        (if shown
          then launch_beside env challenge id user_id username w (active_instance user_id w)
          else (w, missing)).1
      ≡ true
    → active_instance user_id w ≡ none
published_added env id user_id username challenge w true h =
    beside_added env id user_id username challenge w (active_instance user_id w) h
published_added env id user_id username challenge w false h = cc

launch_added :
    (env : Env) (id user_id : ℕ) (username : Text) (challenge_id : ℕ) (w : World)
    → adds (launch env id user_id username challenge_id w).1 ≡ true
    → active_instance user_id w ≡ none
unfolding launch
launch_added env id user_id username challenge_id w h =
    elim (Option-cases (
      find? (λ (c : PublishedChallenge). c.challenge_id == challenge_id)
        env.catalogue.challenges)) [
          | inl absent ↦ let bad = rw (launch, absent) at h in cc
          | inr (challenge, found) ↦
              published_added env id user_id username challenge w challenge.is_published
                (rw (launch, found) at h)
        ]

-- A seat at the end, of a user who has none in progress.
seated-IsSingle :
    (id user_id : ℕ) (status : SessionStatus) (seats : List Seat)
    → IsSingle seats
    → count (is_active_seat user_id) seats ≡ 0
    → IsSingle (seats ++ ((id, user_id, status) ∷ []))
unfolding IsSingle count
seated-IsSingle id user_id status seats single free u =
    let sum = count-append (is_active_seat u) seats ((id, user_id, status) ∷ []) in
    elim (Bool-cases (user_id == u)) [
      | inl same ↦ ground (arith, single u)
      | inr other ↦ ground (arith, single u)
    ]

after_launch-IsSingle :
    (answer : LaunchAnswer) (id user_id : ℕ) (seats : List Seat)
    → IsSingle seats
    → (adds answer ≡ true → count (is_active_seat user_id) seats ≡ 0)
    → IsSingle (after_launch answer id user_id seats)
after_launch-IsSingle started id user_id seats single free =
    seated-IsSingle id user_id running_session seats single (free refl)
after_launch-IsSingle could_not_start id user_id seats single free =
    seated-IsSingle id user_id abandoned seats single (free refl)
after_launch-IsSingle missing id user_id seats single free = single
after_launch-IsSingle already_here id user_id seats single free = single
after_launch-IsSingle already_running id user_id seats single free = single
after_launch-IsSingle lab_unconfigured id user_id seats single free = single
after_launch-IsSingle no_template id user_id seats single free = single
after_launch-IsSingle one_workstation_needed id user_id seats single free = single

pub launch-IsSingle :
    (env : Env) (id user_id : ℕ) (username : Text) (challenge_id : ℕ) (w : World)
    → count (is_seat id) (view w) ≡ 0
    → IsSingle (view w)
    → IsSingle (view (launch env id user_id username challenge_id w).0)
launch-IsSingle env id user_id username challenge_id w fresh single =
    subst IsSingle (sym (launch-view env id user_id username challenge_id w fresh)) (
      after_launch-IsSingle _ id user_id (view w) single (λ added.
        active-none user_id w (launch_added env id user_id username challenge_id w added)))
