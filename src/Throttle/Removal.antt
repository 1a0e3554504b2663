-- ===== src/Throttle/Removal.antt =====
-- What deleting rows does to the checks of throttle.py.
use itp2_group6_the_pond.Prelude.{
  ℕ, ◌+◌, ◌*◌, ◌≤◌, ◌≡◌, ◌≢◌, sym, ◌∙◌, Bool, true, ◌&&◌, not, some, inl, inr, String, String_eq,
  Text, text_eq_iff, ◌==◌, Text_eq, if◌then◌else◌, Bool-cases, leb, arith, count-filter,
  count_congr, count_none, Clock, second, filter, filter-filter,
}
use itp2_group6_the_pond.Throttle.{
  ThrottleEvent, Table, limits, bucket_of, is_live, check_known, check, clear, prune,
}
use itp2_group6_the_pond.Throttle.Window.{check-known}

-- LIMITS as a whole: at least five attempts, and a window of at most an hour.
pub limits_bounds :
    (action : String) {limit window : ℕ}
    → limits action ≡ some (limit, window)
    → (5 ≤ limit) × (window ≤ 3600)
unfolding limits
limits_bounds action h = ground arith

-- Deleting rows that are not live for the bucket does not change its check.
check_known-filter :
    (bucket : Text) (limit window : ℕ) (clock : Clock) (q : ThrottleEvent → Bool) (table : Table)
    → ((e : ThrottleEvent) → is_live bucket window (clock 0) e ≡ true → q e ≡ true)
    → check_known bucket limit window clock (filter q table)
      ≡ check_known bucket limit window clock table
unfolding check_known
check_known-filter bucket limit window clock q table keeps =
    let live : (ThrottleEvent → Bool) = is_live bucket window (clock 0) in
    rw (
      filter-filter live q keeps table,
      count-filter live q table,
      count_congr (λ e. live e && q e) live (λ e. let k = keeps e in ground arith) table,
    )

-- A prune that keeps an hour or more, at a time not after the check, changes no action's check.
pub check-prune :
    (action : String) (key : Text) (clock : Clock) (older_than now limit window : ℕ) (table : Table)
    → limits action ≡ some (limit, window)
    → 3600 ≤ older_than
    → now ≤ clock 0
    → check action key clock (prune older_than now table) ≡ check action key clock table
unfolding prune
check-prune action key clock older_than now limit window table known hour before =
    check-known action key clock _ limit window known
    ∙ check_known-filter (bucket_of action key) limit (window * second) clock
        (λ e. leb now (e.occurred_at + older_than * second)) table
        (λ e h. unfold is_live in ground (arith, limits_bounds action known))
    ∙ sym (check-known action key clock table limit window known)

module _ (other : String) (key' b : Text) (clock : Clock) (limit window : ℕ) (table : Table)
    (known : limits other ≡ some (limit, window)) where
  check-without_self :
      bucket_of other key' ≡ b
      → check other key' clock (filter (λ e. not (e.bucket == b)) table) ≡ some (true, 0)
  unfolding check_known
  check-without_self same =
      let live : (ThrottleEvent → Bool) =
        is_live (bucket_of other key') (window * second) (clock 0) in
      check-known other key' clock _ limit window known
      ∙ ground (
        arith,
        limits_bounds other known,
        count-filter live (λ e. not (e.bucket == b)) table,
        count_none (λ e. live e && not (e.bucket == b))
            (λ e.
              unfold is_live in
              ground (arith, text_eq_iff e.bucket b, text_eq_iff e.bucket (bucket_of other key')))
            table,
      )

  check-without_ne :
      bucket_of other key' ≢ b
      → check other key' clock (filter (λ e. not (e.bucket == b)) table)
        ≡ check other key' clock table
  check-without_ne differ =
      check-known other key' clock _ limit window known
      ∙ check_known-filter (bucket_of other key') limit (window * second) clock
          (λ e. not (e.bucket == b)) table
          (λ e h.
            unfold is_live in
            ground (arith, text_eq_iff e.bucket b, text_eq_iff e.bucket (bucket_of other key')))
      ∙ sym (check-known other key' clock table limit window known)

-- After a clear the cleared bucket's check allows at once, and the check of every other bucket of a
-- known action answers as before.
pub check-clear :
    (action other : String) (key key' : Text) (clock : Clock) (limit window : ℕ) (table : Table)
    → limits other ≡ some (limit, window)
    → check other key' clock (clear action key table) ≡ (
        if bucket_of other key' == bucket_of action key
        then some (true, 0)
        else check other key' clock table)
unfolding clear
check-clear action other key key' clock limit window table known =
    let b : Text = bucket_of action key in
    elim (Bool-cases (bucket_of other key' == b)) [
      | inl same ↦ rw same (
          check-without_self other key' b clock limit window table known ((text_eq_iff _ _).0 same))
      | inr differ ↦ rw differ (
          check-without_ne other key' b clock limit window table known
            (λ e. cc ((text_eq_iff (bucket_of other key') b).1 e)))
    ]
