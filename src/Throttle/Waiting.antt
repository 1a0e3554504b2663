-- ===== src/Throttle/Waiting.antt =====
-- The wait that throttle.py announces is long enough: a denied client that stays away for it, and
-- for the second that the rounding costs, is let in.
use native.Mathlib.Decide.{dec_le}
use native.Mathlib.Nat.{le_trans}
use itp2_group6_the_pond.Prelude.{
  ℕ, ◌+◌, ◌-◌, ◌*◌, ◌/◌, ◌≤◌, ◌<◌, ◌≡◌, Bool, true, false, ◌&&◌, not, some, [], ◌∷◌, String, Text,
  Text_eq, nat_eq, arith, All, All-map, count, count_mono, count_none, count_split, Clock, second,
  filter, max, sym, ◌∙◌,
}
use itp2_group6_the_pond.Throttle.{
  ThrottleEvent, Table, limits, bucket_of, is_live, oldest, wait_for, check_known, check,
}
use itp2_group6_the_pond.Throttle.Window.{is_within, IsBounded, check-known}

-- The minimum is attained.
oldest-attained :
    (p : ThrottleEvent → Bool) (table : Table) (t : ℕ)
    → oldest (filter p table) ≡ some t
    → 0 < count (λ e. p e && nat_eq e.occurred_at t) table
unfolding oldest filter count
oldest-attained p [] t h = cc
oldest-attained p (e ∷ es) t h = ground (arith, oldest-attained p es t)

check_known-denied :
    (bucket : Text) (limit window : ℕ) (clock : Clock) (table : Table) (wait : ℕ)
    → check_known bucket limit window clock table ≡ some (false, wait)
    → (t : ℕ) × (oldest (filter (is_live bucket window (clock 0)) table) ≡ some t)
      × (wait ≡ max 1 ((t + window - clock 1) / second))
unfolding check_known wait_for
check_known-denied bucket limit window clock table wait h = ground arith

check_known-free :
    (bucket : Text) (limit window : ℕ) (clock : Clock) (table : Table)
    → count (is_live bucket window (clock 0)) table < limit
    → check_known bucket limit window clock table ≡ some (true, 0)
unfolding check_known
check_known-free bucket limit window clock table free = ground arith

module _ (bucket : Text) (limit window t before after : ℕ) (table : Table)
    (first : oldest (filter (is_live bucket window before) table) ≡ some t)
    (past : All (λ (e : ThrottleEvent). e.occurred_at ≤ before) table) where
  -- The oldest live event is live.
  oldest-live : before ≤ t + window
  unfolding is_live
  oldest-live = elim (dec_le before (t + window)) [
    | yes h ↦ h
    | no h ↦ absurd (
        omega (
          arith,
          oldest-attained (is_live bucket window before) table t first,
          count_none (λ e. is_live bucket window before e && nat_eq e.occurred_at t)
              (λ e. ground arith) table,
        ))
  ]

  -- Once it has expired, fewer are live than the window that begins with it holds.
  expired-fewer :
      t + window < after
      → count (is_live bucket window after) table < count (is_within bucket window t) table
  unfolding is_live is_within
  expired-fewer gone =
      let live : (ThrottleEvent → Bool) = is_live bucket window after in
      let within : (ThrottleEvent → Bool) = is_within bucket window t in
      omega (
        arith,
        count_split live within table
            (All-map _ _ (λ e h. let reach = oldest-live in ground arith) table past),
        oldest-attained (is_live bucket window before) table t first,
        count_mono (λ e. is_live bucket window before e && nat_eq e.occurred_at t)
            (λ e. within e && not (live e)) (λ e h. ground arith) table,
      )

-- A check that denies after counting every event up to its first reading of the clock announces a
-- wait. From the second reading, let the wait and one second more pass, with nothing added to a
-- table within its bounds: then the check of the same action and key allows.
pub check-after-wait :
    (action : String) (key : Text) (clock later : Clock) (table : Table) (limit window wait : ℕ)
    → limits action ≡ some (limit, window)
    → IsBounded table
    → All (λ (e : ThrottleEvent). e.occurred_at ≤ clock 0) table
    → check action key clock table ≡ some (false, wait)
    → clock 1 + (wait + 1) * second ≤ later 0
    → check action key later table ≡ some (true, 0)
check-after-wait action key clock later table limit window wait known bounded past denied away =
    let b : Text = bucket_of action key in
    let w : ℕ = window * second in
    let (t, first, waits) =
      check_known-denied b limit w clock table wait
        (sym (check-known action key clock table limit window known) ∙ denied) in
    check-known action key later table limit window known
    ∙ check_known-free b limit w later table (
        le_trans (expired-fewer b limit w t (clock 0) (later 0) table first past (omega arith))
          (bounded action key limit window t known))
