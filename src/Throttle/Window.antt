-- ===== src/Throttle/Window.antt =====
-- The limits of throttle.py hold: no window of an action's length has more events than its limit.
use native.Mathlib.Nat.{le_trans}
use itp2_group6_the_pond.Prelude.{
  ℕ, ◌+◌, ◌*◌, ◌≤◌, ◌<◌, ◌≡◌, sym, ap, inl, inr, Bool, true, false, ◌&&◌, some, none, List, [], ◌∷◌,
  ◌++◌, String, Text, text_eq_iff, ◌==◌, Text_eq, leb, if◌then◌else◌, Bool-cases, Option-cases, All,
  ◌∙◌, arith, count, count-append, count_mono, count-filter, Clock, second, filter,
}
use itp2_group6_the_pond.Throttle.{
  ThrottleEvent, Table, limits, bucket_of, is_live, wait_for, check_known, check, record_event, hit,
  clear, prune,
}
use itp2_group6_the_pond.Throttle.Buckets.{same_bucket-limits}

-- An event of the bucket between `start` and `start + window`, both included.
unfoldable pub is_within : Text → ℕ → ℕ → ThrottleEvent → Bool
is_within bucket window start e =
    (e.bucket == bucket) && (leb start e.occurred_at && leb e.occurred_at (start + window))

-- Wherever a window of a known action is laid, it has at most the allowed number of events.
abbrev pub IsBounded : Table → Type 0
IsBounded table =
    (action : String) (key : Text) (limit window start : ℕ)
    → limits action ≡ some (limit, window)
    → count (is_within (bucket_of action key) (window * second) start) table ≤ limit

pub nil-IsBounded : IsBounded []
unfolding count
nil-IsBounded action key limit window start h = omega arith

-- An event that is recorded at `now`, with fewer than `limit` live ones at an earlier reading.
record-within :
    (bucket : Text) (window limit start earlier : ℕ) (e : ThrottleEvent) (table : Table)
    → earlier ≤ e.occurred_at
    → count (is_live bucket window earlier) table < limit
    → count (is_within bucket window start) table ≤ limit
    → count (is_within bucket window start) (table ++ (e ∷ [])) ≤ limit
unfolding count is_within is_live
record-within bucket window limit start earlier e table h free old =
    rw (count-append (is_within bucket window start) table (e ∷ []))
      (elim (Bool-cases (is_within bucket window start e)) [
        | inl inside ↦ ground (
          arith,
          count_mono (is_within bucket window start) (is_live bucket window earlier)
              (λ x hx. ground arith) table,
        )
        | inr outside ↦ ground arith
      ])

-- An event of another bucket counts in no window of this one.
record-elsewhere :
    (bucket : Text) (window start : ℕ) (e : ThrottleEvent) (table : Table)
    → (e.bucket == bucket) ≡ false
    → count (is_within bucket window start) (table ++ (e ∷ []))
      ≡ count (is_within bucket window start) table
unfolding count is_within
record-elsewhere bucket window start e table other =
    rw (count-append (is_within bucket window start) table (e ∷ [])) (ground arith)

-- An allowed check has counted fewer live events than the limit.
check_known-allowed :
    (bucket : Text) (limit window : ℕ) (clock : Clock) (table : Table) (wait : ℕ)
    → check_known bucket limit window clock table ≡ some (true, wait)
    → count (is_live bucket window (clock 0)) table < limit
unfolding check_known wait_for
check_known-allowed bucket limit window clock table wait h = ground arith

pub check-known :
    (action : String) (key : Text) (clock : Clock) (table : Table) (limit window : ℕ)
    → limits action ≡ some (limit, window)
    → check action key clock table
      ≡ check_known (bucket_of action key) limit (window * second) clock table
unfolding check
check-known action key clock table limit window known = rw (known, check)

check-unknown :
    (action : String) (key : Text) (clock : Clock) (table : Table)
    → limits action ≡ none
    → check action key clock table ≡ none
unfolding check
check-unknown action key clock table unknown = rw (unknown, check)

-- Recording an allowed attempt keeps every window of every known action within its limit.
recorded-IsBounded :
    (action : String) (key : Text) (clock : Clock) (table : Table) (limit window : ℕ)
    → limits action ≡ some (limit, window)
    → clock 0 ≤ clock 1
    → count (is_live (bucket_of action key) (window * second) (clock 0)) table < limit
    → IsBounded table
    → IsBounded (record_event action key (clock 1) table)
unfolding record_event
recorded-IsBounded action key clock table limit window known later free old a k l w start known' =
    elim (Bool-cases (bucket_of action key == bucket_of a k)) [
      | inl same ↦
          let e : ThrottleEvent = record { bucket = bucket_of action key; occurred_at = clock 1 } in
          let at : bucket_of action key ≡ bucket_of a k = (text_eq_iff _ _).0 same in
          let limits_at : (limit, window) ≡ (l, w) =
            same_bucket-limits action a key k known known' at in
          record-within (bucket_of a k) (w * second) l start (clock 0) e table later
            (rw (at, ap (λ (t : ℕ × ℕ). t.0) limits_at, ap (λ (t : ℕ × ℕ). t.1) limits_at) at free)
            (old a k l w start known')
      | inr other ↦
          let e : ThrottleEvent = record { bucket = bucket_of action key; occurred_at = clock 1 } in
          rw (record-elsewhere (bucket_of a k) (w * second) start e table other)
            (old a k l w start known')
    ]

-- The two halves of an attempt: the check, and the row that is added if it allows.
pub hit_inversion :
    (action : String) (key : Text) (clock : Clock) (table table' : Table) (allowed : Bool)
    (wait : ℕ)
    → hit action key clock table ≡ some (allowed, wait, table')
    → (check action key clock table ≡ some (allowed, wait))
      × (table' ≡ (if allowed then record_event action key (clock 1) table else table))
unfolding hit
hit_inversion action key clock table table' allowed wait done = ground arith

-- An allowed attempt at an action that LIMITS names keeps the bounds.
allowed-IsBounded :
    (action : String) (key : Text) (clock : Clock) (table : Table) (wait : ℕ)
    → clock 0 ≤ clock 1
    → IsBounded table
    → check action key clock table ≡ some (true, wait)
    → IsBounded (record_event action key (clock 1) table)
allowed-IsBounded action key clock table wait later old ok = elim (Option-cases (limits action)) [
  | inl unknown ↦ absurd (cc (check-unknown action key clock table unknown))
  | inr ((limit, window), known) ↦
      recorded-IsBounded action key clock table limit window known later
        (check_known-allowed (bucket_of action key) limit (window * second) clock table wait
          (sym (check-known action key clock table limit window known) ∙ ok))
        old
]

-- An attempt, allowed or denied, keeps every window of every known action within its limit.
pub hit-IsBounded :
    (action : String) (key : Text) (clock : Clock) (table table' : Table) (allowed : Bool)
    (wait : ℕ)
    → clock 0 ≤ clock 1
    → IsBounded table
    → hit action key clock table ≡ some (allowed, wait, table')
    → IsBounded table'
hit-IsBounded action key clock table table' true wait later old done =
    let (ok, grown) = hit_inversion action key clock table table' true wait done in
    rw grown (allowed-IsBounded action key clock table wait later old ok)
hit-IsBounded action key clock table table' false wait later old done =
    rw (hit_inversion action key clock table table' false wait done).1 old

-- Deleting rows keeps the bounds.
filter-IsBounded :
    (p : ThrottleEvent → Bool) (table : Table) → IsBounded table → IsBounded (filter p table)
filter-IsBounded p table old action key limit window start known =
    let q : (ThrottleEvent → Bool) = is_within (bucket_of action key) (window * second) start in
    rw (count-filter q p table) (
      le_trans (count_mono (λ e. q e && p e) q (λ e h. ground arith) table)
        (old action key limit window start known))

-- One use of the module by the views, with the readings of the clock that it makes.
pub data Request : Type 0 where
  attempt : String → Text → Clock → Request
  forgive : String → Text → Request
  tidy : ℕ → ℕ → Request

-- The table after a request. An attempt that raises leaves it alone.
unfoldable pub serve : Request → Table → Table
serve (attempt action key clock) table = elim (hit action key clock table) [
  | none ↦ table
  | some (_, _, table') ↦ table'
]
serve (forgive action key) table = clear action key table
serve (tidy older_than now) table = prune older_than now table

unfoldable pub serve_all : List Request → Table → Table
serve_all [] table = table
serve_all (r ∷ rs) table = serve_all rs (serve r table)

-- The clock does not run backwards within an attempt.
abbrev pub IsTimely : Request → Type 0
IsTimely (attempt _ _ clock) = clock 0 ≤ clock 1
IsTimely _ = Unit

attempt-IsBounded :
    (action : String) (key : Text) (clock : Clock) (table : Table)
    → clock 0 ≤ clock 1
    → IsBounded table
    → IsBounded (serve (attempt action key clock) table)
unfolding serve
attempt-IsBounded action key clock table later old =
    elim (Option-cases (hit action key clock table)) [
      | inl raised ↦ rw (raised, serve) old
      | inr ((allowed, wait, table'), done) ↦
          rw (done, serve) (hit-IsBounded action key clock table table' allowed wait later old done)
    ]

serve-IsBounded :
    (r : Request) (table : Table) → IsTimely r → IsBounded table → IsBounded (serve r table)
unfolding serve clear prune
serve-IsBounded (attempt action key clock) table later old =
    attempt-IsBounded action key clock table later old
serve-IsBounded (forgive action key) table _ old = filter-IsBounded _ table old
serve-IsBounded (tidy older_than now) table _ old = filter-IsBounded _ table old

-- If no window of a known action's length holds more recorded attempts on one key than the
-- action's limit, then so it is after any sequence of attempts, clears and prunes in whose attempts
-- the second reading of the clock is not before the first.
pub serve_all-IsBounded :
    (rs : List Request) (table : Table)
    → All IsTimely rs
    → IsBounded table
    → IsBounded (serve_all rs table)
unfolding serve_all
serve_all-IsBounded [] table timely old = old
serve_all-IsBounded (r ∷ rs) table timely old =
    serve_all-IsBounded rs (serve r table) timely.1 (serve-IsBounded r table timely.0 old)
