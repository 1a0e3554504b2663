-- ===== src/Attempts/Reaped.antt =====
-- What a run of reap_sessions in themes.py does to the attempts: it closes those that it reports.
use itp2_group6_the_pond.Prelude.{
  ℕ, ◌≡◌, ◌⊎◌, refl, false, ◌==◌, ℕ_eq, any, All, All-map, All-append, arith, inl, inr, sym, ap,
  ◌∙◌, true, List, [], ◌∷◌, ◌++◌, find?, Bool-cases, Option-cases,
}
use itp2_group6_the_pond.Sessions.{
  SessionStatus, abandoned, World, Env, has_instance, close_instance, Reason, reason_of, reap_one,
  reap_from, reap_sessions, live_ids,
}
use itp2_group6_the_pond.Attempts.View.{Seat, view}
use itp2_group6_the_pond.Attempts.Ends.{end_seat, close_instance-view}
use itp2_group6_the_pond.Attempts.Overdue.{is_past_at, is_reported, reap_from-reported}

-- The view after the reported attempts have ended.
abbrev pub end_seats : List (ℕ × Reason) → List Seat → List Seat
end_seats [] seats = seats
end_seats ((id, reason) ∷ closed) seats = end_seats closed (end_seat id abandoned seats)

end_seats-snoc :
    (closed : List (ℕ × Reason)) (id : ℕ) (reason : Reason) (seats : List Seat)
    → end_seats (closed ++ ((id, reason) ∷ [])) seats
      ≡ end_seat id abandoned (end_seats closed seats)
end_seats-snoc [] id reason seats = refl
end_seats-snoc ((other, r) ∷ closed) id reason seats =
    end_seats-snoc closed id reason (end_seat other abandoned seats)

-- A close that returns ends the attempt.
close_instance_returned :
    (env : Env) (id : ℕ) (status : SessionStatus) (w : World)
    → (close_instance env id status w).1 ≡ true
    → view (close_instance env id status w).0 ≡ end_seat id status (view w)
unfolding close_instance
close_instance_returned env id status w h =
    elim (Option-cases (find? (has_instance id) w.instances)) [
      | inl absent ↦ let bad = rw (close_instance, absent) at h in cc
      | inr (i, found) ↦ elim (Option-cases i.started_at) [
        | inl unstarted ↦ let bad = rw (close_instance, found, unstarted) at h in cc
        | inr (t, begun) ↦ close_instance-view env id status w i t found begun
      ]
    ]

-- The view is that of `seats` with the reported attempts ended.
abbrev pub Reports : List Seat → World × List (ℕ × Reason) → Type 0
Reports seats (w, closed) = view w ≡ end_seats closed seats

reap_one-Reports :
    (env : Env) (ttl id : ℕ) (seats : List Seat) (w : World) (closed : List (ℕ × Reason))
    → (reap_one env ttl id (w, closed)).1 ≡ true
    → Reports seats (w, closed)
    → Reports seats (reap_one env ttl id (w, closed)).0
unfolding reap_one
reap_one-Reports env ttl id seats w closed ok h =
    elim (Option-cases (find? (has_instance id) w.instances)) [
      | inl absent ↦ let bad = rw (reap_one, absent) at ok in cc
      | inr (i, found) ↦ elim (Option-cases (reason_of env ttl i w)) [
        | inl healthy ↦ rw (reap_one, found, healthy) h
        | inr (reason, due) ↦ elim (Bool-cases (close_instance env id abandoned w).1) [
          | inr raised ↦ let bad = rw (reap_one, found, due, raised) at ok in cc
          | inl returned ↦
              rw (reap_one, found, due, returned)
                (close_instance_returned env id abandoned w returned
                  ∙ (ap (end_seat id abandoned) h ∙ sym (end_seats-snoc closed id reason seats)))
        ]
      ]
    ]

reap_from-Reports :
    (env : Env) (ttl : ℕ) (seats : List Seat) (ids : List ℕ) (w : World)
    (closed : List (ℕ × Reason))
    → (reap_from env ttl ids (w, closed)).1 ≡ true
    → Reports seats (w, closed)
    → Reports seats (reap_from env ttl ids (w, closed)).0
unfolding reap_from
reap_from-Reports env ttl seats [] w closed ok h = h
reap_from-Reports env ttl seats (id ∷ ids) w closed ok h =
    elim (Bool-cases (reap_one env ttl id (w, closed)).1) [
      | inl returned ↦
          rw (reap_from, returned)
            (reap_from-Reports env ttl seats ids (reap_one env ttl id (w, closed)).0.0
              (reap_one env ttl id (w, closed)).0.1 (rw (reap_from, returned) at ok)
              (reap_one-Reports env ttl id seats w closed returned h))
      | inr raised ↦ let bad = rw (reap_from, raised) at ok in cc
    ]

-- What is reported is among the attempts that are gone through.
reap_one-All :
    (P : ℕ → Type 0) (env : Env) (ttl id : ℕ) (w : World) (closed : List (ℕ × Reason))
    → P id
    → All (λ (c : ℕ × Reason). P c.0) closed
    → All (λ (c : ℕ × Reason). P c.0) (reap_one env ttl id (w, closed)).0.1
unfolding reap_one
reap_one-All P env ttl id w closed p h = elim (Option-cases (find? (has_instance id) w.instances)) [
  | inl absent ↦ rw (reap_one, absent) h
  | inr (i, found) ↦ elim (Option-cases (reason_of env ttl i w)) [
    | inl healthy ↦ rw (reap_one, found, healthy) h
    | inr (reason, due) ↦ elim (Bool-cases (close_instance env id abandoned w).1) [
      | inr raised ↦ rw (reap_one, found, due, raised) h
      | inl returned ↦
          rw (reap_one, found, due, returned)
            (All-append (λ (c : ℕ × Reason). P c.0) closed ((id, reason) ∷ []) h (p, tt))
    ]
  ]
]

reap_from-All :
    (P : ℕ → Type 0) (env : Env) (ttl : ℕ) (ids : List ℕ) (w : World) (closed : List (ℕ × Reason))
    → All P ids
    → All (λ (c : ℕ × Reason). P c.0) closed
    → All (λ (c : ℕ × Reason). P c.0) (reap_from env ttl ids (w, closed)).0.1
unfolding reap_from
reap_from-All P env ttl [] w closed ps h = h
reap_from-All P env ttl (id ∷ ids) w closed (p, ps) h =
    let kept = reap_one-All P env ttl id w closed p h in
    elim (Bool-cases (reap_one env ttl id (w, closed)).1) [
      | inl returned ↦ rw (reap_from, returned) (reap_from-All P env ttl ids _ _ ps kept)
      | inr raised ↦ rw (reap_from, raised) kept
    ]

-- Every key is among the keys.
All-there : (ids : List ℕ) → All (λ id. any (λ k. k == id) ids ≡ true) ids
unfolding any
All-there [] = tt
All-there (id ∷ ids) = (
  ground arith,
  All-map (λ other. any (λ k. k == other) ids ≡ true)
      (λ other. any (λ k. k == other) (id ∷ ids) ≡ true) (λ other h. ground (arith, h)) ids
      (All-there ids),
)

-- A run of the reaper that returns leaves every attempt with its user and its status, but for those
-- that it reports, which are abandoned. It reports only attempts that were in progress, and of these
-- every one that was stuck in its provisioning or past the limit on its time.
pub reap_sessions-view :
    (env : Env) (ttl : ℕ) (w : World)
    → (reap_sessions env ttl w).1 ≡ true
    → (view (reap_sessions env ttl w).0.0 ≡ end_seats (reap_sessions env ttl w).0.1 (view w))
      × All
          (λ (c : ℕ × Reason). any (λ k. k == c.0) (live_ids w) ≡ true)
          (reap_sessions env ttl w).0.1
      × All
          (λ id.
            (is_past_at env ttl id w ≡ false)
            ⊎ (is_reported id (reap_sessions env ttl w).0.1 ≡ true))
          (live_ids w)
unfolding reap_sessions
reap_sessions-view env ttl w ok = (
  reap_from-Reports env ttl (view w) (live_ids w) w [] ok refl,
  reap_from-All (λ id. any (λ k. k == id) (live_ids w) ≡ true) env ttl (live_ids w) w []
      (All-there (live_ids w)) tt,
  All-map (λ id. any (λ k. k == id) (live_ids w) ≡ true) _
      (λ id listed. elim (Bool-cases (is_past_at env ttl id w)) [
        | inr timely ↦ inl timely
        | inl late ↦ inr (reap_from-reported env ttl id (live_ids w) w [] ok (inr (listed, late)))
      ])
      (live_ids w) (All-there (live_ids w)),
)
