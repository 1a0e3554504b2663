-- ===== src/Attempts/Overdue.antt =====
-- Which attempts a run of reap_sessions in themes.py closes: those that are past their limit.
use itp2_group6_the_pond.Prelude.{
  ℕ, ◌+◌, ◌*◌, ◌≡◌, ◌⊎◌, refl, inl, inr, ap, ◌∙◌, Bool, true, false, Option, none, some, List, [],
  ◌∷◌, ◌++◌, ◌==◌, ℕ_eq, any, find?, find?-sound, find?-update_first_other, update_first, arith,
  ltb, hour, if◌then◌else◌, Bool-cases, Option-cases,
}
use itp2_group6_the_pond.Sessions.{
  SessionStatus, abandoned, Instance, Lab, World, Env, has_instance, set_instance, put_lab,
  machines_of, close_instance, close_started, end_row, end_session, is_provisioning, started_of,
  provisioning_grace, Reason, reason_of, reap_one, reap_from,
}
use itp2_group6_the_pond.Attempts.Frames.{close_machines_keeps, stop_docker_keeps}

-- An attempt that is stuck in its provisioning, or was started more than `ttl` hours ago.
abbrev pub is_past : Env → ℕ → Instance → Bool
is_past env ttl i =
    if is_provisioning i.status
    then ltb (started_of i + provisioning_grace) env.now
    else ltb (started_of i + ttl * hour) env.now

abbrev pub past : Env → ℕ → Option Instance → Bool
past env ttl none = false
past env ttl (some i) = is_past env ttl i

abbrev pub is_past_at : Env → ℕ → ℕ → World → Bool
is_past_at env ttl id w = past env ttl (find? (has_instance id) w.instances)

-- The run reports the attempt.
abbrev pub is_reported : ℕ → List (ℕ × Reason) → Bool
is_reported id closed = any (λ (c : ℕ × Reason). c.0 == id) closed

past-same :
    (env : Env) (ttl id other : ℕ) (lab : Lab) (rows : List Instance)
    → past env ttl (
        find?
          (has_instance id)
          (update_first (has_instance other) (λ i. record i { docker = lab.0 }) rows))
      ≡ past env ttl (find? (has_instance id) rows)
unfolding find? update_first started_of
past-same env ttl id other lab [] = refl
past-same env ttl id other lab (i ∷ rows) = elim (Bool-cases (has_instance other i)) [
  | inl changed ↦ elim (Bool-cases (has_instance id i)) [
    | inl here ↦ rw (changed, here) refl
    | inr there ↦ rw (changed, there) refl
  ]
  | inr kept ↦ elim (Bool-cases (has_instance id i)) [
    | inl here ↦ rw (kept, here) refl
    | inr there ↦ rw (kept, there) (past-same env ttl id other lab rows)
  ]
]

module _ (env : Env) (ttl id : ℕ) where
  IsPast : World → Type 0
  IsPast w = is_past_at env ttl id w ≡ true

  put_lab-IsPast : (other : ℕ) (lab : Lab) (w : World) → IsPast w → IsPast (put_lab other lab w)
  unfolding IsPast set_instance
  put_lab-IsPast other lab w h = past-same env ttl id other lab w.instances ∙ h

  -- The end of another attempt.
  close_started-IsPast :
      (i : Instance) (status : SessionStatus) (w : World)
      → (i.instance_id == id) ≡ false
      → IsPast w
      → IsPast (close_started env i status w).0
  unfolding IsPast end_session set_instance
  close_started-IsPast i status w apart h =
      let same =
        find?-update_first_other (has_instance id) (has_instance i.instance_id)
          (end_row status env.now) (λ j e. (ground arith, ground arith)) w.instances in
      close_machines_keeps env IsPast (λ l n w h. h) (λ v n w h. h) (λ v w h. h) (λ v a p w h. h)
        put_lab-IsPast (λ vm w h. h) i.network_identifier (machines_of i.instance_id w) _
        (stop_docker_keeps env IsPast (λ l n w h. h) (λ v n w h. h) (λ v w h. h) (λ v a p w h. h)
          put_lab-IsPast (λ vm w h. h) i.instance_id _ (ap (past env ttl) same ∙ h))

  close_instance-IsPast :
      (other : ℕ) (status : SessionStatus) (w : World)
      → (other == id) ≡ false
      → IsPast w
      → IsPast (close_instance env other status w).0
  unfolding close_instance IsPast
  close_instance-IsPast other status w apart h =
      elim (Option-cases (find? (has_instance other) w.instances)) [
        | inl absent ↦ rw (close_instance, absent) h
        | inr (i, found) ↦ elim (Option-cases i.started_at) [
          | inl unstarted ↦ rw (close_instance, found, unstarted) h
          | inr (t, begun) ↦
              let key = find?-sound (has_instance other) w.instances i found in
              rw (close_instance, found, begun) (close_started-IsPast i status w (ground arith) h)
        ]
      ]

  -- The attempt is reported, or still past its limit.
  abbrev Pends : World × List (ℕ × Reason) → Type 0
  Pends (w, closed) = (is_reported id closed ≡ true) ⊎ (is_past_at env ttl id w ≡ true)

  reported-snoc :
      (closed : List (ℕ × Reason)) (c : ℕ × Reason)
      → (is_reported id closed ≡ true) ⊎ ((c.0 == id) ≡ true)
      → is_reported id (closed ++ (c ∷ [])) ≡ true
  unfolding any
  reported-snoc [] c (inl bad) = cc
  reported-snoc [] c (inr same) = ground arith
  reported-snoc (d ∷ closed) c (inl h) = elim (Bool-cases (d.0 == id)) [
    | inl here ↦ ground arith
    | inr there ↦ let rest = reported-snoc closed c (inl (ground arith)) in ground arith
  ]
  reported-snoc (d ∷ closed) c (inr same) =
      let rest = reported-snoc closed c (inr same) in ground arith

  past-reason :
      (i : Instance) (w : World) → is_past env ttl i ≡ true → reason_of env ttl i w ≡ none → ⊥
  unfolding reason_of
  past-reason i w late healthy = elim (Bool-cases (is_provisioning i.status)) [
    | inl stuck ↦ let h = rw stuck at late in let bad = rw (reason_of, stuck, h) at healthy in cc
    | inr ran ↦ let h = rw ran at late in let bad = rw (reason_of, ran, h) at healthy in cc
  ]

  reap_one-reported :
      (other : ℕ) (w : World) (closed : List (ℕ × Reason))
      → (other == id) ≡ true
      → (reap_one env ttl other (w, closed)).1 ≡ true
      → Pends (w, closed)
      → is_reported id (reap_one env ttl other (w, closed)).0.1 ≡ true
  unfolding reap_one
  reap_one-reported other w closed same ok h =
      elim (Option-cases (find? (has_instance other) w.instances)) [
        | inl absent ↦ let bad = rw (reap_one, absent) at ok in cc
        | inr (i, found) ↦ elim (Option-cases (reason_of env ttl i w)) [
          | inl healthy ↦
              rw (reap_one, found, healthy)
                (elim h [
                  | inl before ↦ before
                  | inr late ↦
                      let key : other ≡ id = ground arith in
                      absurd (past-reason i w (rw (← key, found) at late) healthy)
                ])
          | inr (reason, due) ↦ elim (Bool-cases (close_instance env other abandoned w).1) [
            | inr raised ↦ let bad = rw (reap_one, found, due, raised) at ok in cc
            | inl returned ↦
                rw (reap_one, found, due, returned)
                  (reported-snoc closed (other, reason) (inr same))
          ]
        ]
      ]

  reap_one-keeps :
      (other : ℕ) (w : World) (closed : List (ℕ × Reason))
      → is_reported id closed ≡ true
      → is_reported id (reap_one env ttl other (w, closed)).0.1 ≡ true
  unfolding reap_one
  reap_one-keeps other w closed h = elim (Option-cases (find? (has_instance other) w.instances)) [
    | inl absent ↦ rw (reap_one, absent) h
    | inr (i, found) ↦ elim (Option-cases (reason_of env ttl i w)) [
      | inl healthy ↦ rw (reap_one, found, healthy) h
      | inr (reason, due) ↦ elim (Bool-cases (close_instance env other abandoned w).1) [
        | inr raised ↦ rw (reap_one, found, due, raised) h
        | inl returned ↦
            rw (reap_one, found, due, returned) (reported-snoc closed (other, reason) (inl h))
      ]
    ]
  ]

  reap_one-IsPast :
      (other : ℕ) (w : World) (closed : List (ℕ × Reason))
      → (other == id) ≡ false
      → IsPast w
      → IsPast (reap_one env ttl other (w, closed)).0.0
  unfolding reap_one
  reap_one-IsPast other w closed apart h =
      elim (Option-cases (find? (has_instance other) w.instances)) [
        | inl absent ↦ rw (reap_one, absent) h
        | inr (i, found) ↦ elim (Option-cases (reason_of env ttl i w)) [
          | inl healthy ↦ rw (reap_one, found, healthy) h
          | inr (reason, due) ↦
              let kept = close_instance-IsPast other abandoned w apart h in
              elim (Bool-cases (close_instance env other abandoned w).1) [
                | inr raised ↦ rw (reap_one, found, due, raised) kept
                | inl returned ↦ rw (reap_one, found, due, returned) kept
              ]
        ]
      ]

  -- An attempt that is reported, or among those to come and past its limit.
  abbrev Awaits : List ℕ → World × List (ℕ × Reason) → Type 0
  Awaits ids (w, closed) =
      (is_reported id closed ≡ true)
      ⊎ ((any (λ k. k == id) ids ≡ true) × (is_past_at env ttl id w ≡ true))

  reap_one-Awaits :
      (other : ℕ) (ids : List ℕ) (w : World) (closed : List (ℕ × Reason))
      → (reap_one env ttl other (w, closed)).1 ≡ true
      → Awaits (other ∷ ids) (w, closed)
      → Awaits ids (reap_one env ttl other (w, closed)).0
  unfolding any IsPast
  reap_one-Awaits other ids w closed ok (inl h) = inl (reap_one-keeps other w closed h)
  reap_one-Awaits other ids w closed ok (inr (listed, late)) = elim (Bool-cases (other == id)) [
    | inl same ↦ inl (reap_one-reported other w closed same ok (inr late))
    | inr apart ↦ inr (ground arith, reap_one-IsPast other w closed apart late)
  ]

  pub reap_from-reported :
      (ids : List ℕ) (w : World) (closed : List (ℕ × Reason))
      → (reap_from env ttl ids (w, closed)).1 ≡ true
      → Awaits ids (w, closed)
      → is_reported id (reap_from env ttl ids (w, closed)).0.1 ≡ true
  unfolding reap_from any
  reap_from-reported [] w closed ok (inl h) = h
  reap_from-reported [] w closed ok (inr (bad, _)) = cc
  reap_from-reported (other ∷ ids) w closed ok h =
      elim (Bool-cases (reap_one env ttl other (w, closed)).1) [
        | inl returned ↦
            rw (reap_from, returned)
              (reap_from-reported ids (reap_one env ttl other (w, closed)).0.0
                (reap_one env ttl other (w, closed)).0.1 (rw (reap_from, returned) at ok)
                (reap_one-Awaits other ids w closed returned h))
        | inr raised ↦ let bad = rw (reap_from, raised) at ok in cc
      ]
