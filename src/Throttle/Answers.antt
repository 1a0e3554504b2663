-- ===== src/Throttle/Answers.antt =====
-- The checks of throttle.py do not raise for an action that LIMITS names.
use itp2_group6_the_pond.Prelude.{
  ℕ, ◌*◌, ◌<◌, ◌≡◌, ◌≢◌, ◌+◌, ◌-◌, ◌/◌, max, refl, Bool, true, false, none, some, List, [], ◌∷◌,
  String, Text, arith, Bool-cases, Option-cases, inl, inr, count, filter, ltb, Clock, second,
  if◌then◌else◌,
}
use itp2_group6_the_pond.Throttle.{
  ThrottleEvent, Table, limits, bucket_of, is_live, oldest, wait_for, check_known, record_event,
  hit,
}
use itp2_group6_the_pond.Throttle.Window.{check-known}
use itp2_group6_the_pond.Throttle.Removal.{limits_bounds}

some_oldest : (e : ThrottleEvent) (es : List ThrottleEvent) → oldest (e ∷ es) ≢ none
unfolding oldest
some_oldest e es h = elim (Option-cases (oldest es)) [
  | inl empty ↦ cc (rw empty at h)
  | inr (t, first) ↦ cc (rw first at h)
]

oldest-none :
    (p : ThrottleEvent → Bool) (table : Table) → oldest (filter p table) ≡ none → count p table ≡ 0
unfolding oldest filter count
oldest-none p [] h = refl
oldest-none p (e ∷ es) h = elim (Bool-cases (p e)) [
  | inl counted ↦ absurd (some_oldest e (filter p es) (rw counted at h))
  | inr skipped ↦ rw skipped (oldest-none p es (rw skipped at h))
]

check_known-answers :
    (bucket : Text) (limit window : ℕ) (clock : Clock) (table : Table)
    → 0 < limit
    → (allowed : Bool) × (wait : ℕ) × (check_known bucket limit window clock table
        ≡ some (allowed, wait))
unfolding check_known wait_for
check_known-answers bucket limit window clock table positive =
    let live : (ThrottleEvent → Bool) = is_live bucket window (clock 0) in
    elim (Bool-cases (ltb (count live table) limit)) [
      | inl few ↦ (true, 0, rw few refl)
      | inr many ↦ elim (Option-cases (oldest (filter live table))) [
        | inl empty ↦ absurd (ground (arith, oldest-none live table empty))
        | inr (t, first) ↦ (false, max 1 ((t + window - clock 1) / second), rw (many, first) refl)
      ]
    ]

-- An attempt at an action with a limit is answered.
pub hit-answers :
    (action : String) (key : Text) (clock : Clock) (table : Table) (limit window : ℕ)
    → limits action ≡ some (limit, window)
    → (allowed : Bool) × (wait : ℕ) × (table' : Table) × (hit action key clock table
        ≡ some (allowed, wait, table'))
unfolding hit
hit-answers action key clock table limit window known =
    let (enough, _) = limits_bounds action known in
    let (allowed, wait, answered) =
      check_known-answers (bucket_of action key) limit (window * second) clock table
        (omega arith) in
    (
      allowed,
      wait,
      if allowed then record_event action key (clock 1) table else table,
      rw (check-known action key clock table limit window known, answered, hit) refl,
    )
