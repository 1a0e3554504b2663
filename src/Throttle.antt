-- ===== src/Throttle.antt =====
-- Rate limits: pond-sec/app/throttle.py over the table of db/throttle_models.py.
-- The table is the list of its rows, the clock the readings that a call makes, in their order.
mod Buckets
pub mod Window
pub mod Waiting
pub mod Removal
pub mod Answers
use itp2_group6_the_pond.Prelude.{
  ℕ, ◌+◌, ◌-◌, ◌*◌, ◌/◌, Bool, true, false, ◌&&◌, Option, none, some, List, [], ◌∷◌, ◌++◌, String,
  Text, codes, ◌==◌, Text_eq, String_eq, ltb, leb, if◌then◌else◌, max, min, count, filter, not,
  Clock, second,
}

pub record ThrottleEvent : Type 0 where
  pub bucket : Text
  pub occurred_at : ℕ

abbrev pub Table : Type 0
Table = List ThrottleEvent

-- LIMITS: the attempts allowed and the window in seconds; `none` is the KeyError.
unfoldable pub limits : String → Option (ℕ × ℕ)
limits action =
    if action == "login_ip"
    then some (15, 900)
    else if action == "login_user"
    then some (10, 900)
    else if action == "register_ip"
    then some (5, 3600)
    else if action == "flag_challenge"
    then some (20, 300)
    else if action == "change_password"
    then some (10, 900)
    else none

-- f"{action}:{key}"
unfoldable pub bucket_of : String → Text → Text
bucket_of action key = codes action ++ (b':' ∷ key)

-- An event of the bucket at or after `now - window`, written without a subtraction.
unfoldable pub is_live : Text → ℕ → ℕ → ThrottleEvent → Bool
is_live bucket window now e = (e.bucket == bucket) && leb now (e.occurred_at + window)

-- min(occurred_at); `none` is SQL's NULL.
unfoldable pub oldest : List ThrottleEvent → Option ℕ
oldest [] = none
oldest (e ∷ es) = elim (oldest es) [
  | none ↦ some e.occurred_at
  | some t ↦ some (min e.occurred_at t)
]

-- int((oldest + window - now).total_seconds()), at least 1: where the difference is negative both
-- the truncated one here and Python's are below 1.
unfoldable pub wait_for : ℕ → ℕ → Option ℕ → Option (Bool × ℕ)
wait_for window now none = none
wait_for window now (some t) = some (false, max 1 ((t + window - now) / second))

-- The check of an action whose limit and window are known. Reading 0 of the clock starts the
-- window, reading 1 measures the wait.
unfoldable pub check_known : Text → ℕ → ℕ → Clock → Table → Option (Bool × ℕ)
check_known bucket limit window clock table =
    let live = is_live bucket window (clock 0) in
    if ltb (count live table) limit
    then some (true, 0)
    else wait_for window (clock 1) (oldest (filter live table))

-- `none` is an exception.
unfoldable pub check : String → Text → Clock → Table → Option (Bool × ℕ)
check action key clock table = elim (limits action) [
  | none ↦ none
  | some (limit, window) ↦ check_known (bucket_of action key) limit (window * second) clock table
]

unfoldable pub record_event : String → Text → ℕ → Table → Table
record_event action key now table =
    table ++ (record { bucket = bucket_of action key; occurred_at = now } ∷ [])

-- The attempt's answer, and the table with the attempt counted if it was allowed.
unfoldable pub hit : String → Text → Clock → Table → Option (Bool × ℕ × Table)
hit action key clock table = elim (check action key clock table) [
  | none ↦ none
  | some (allowed, wait) ↦
      some (allowed, wait, if allowed then record_event action key (clock 1) table else table)
]

unfoldable pub clear : String → Text → Table → Table
clear action key table = filter (λ e. not (e.bucket == bucket_of action key)) table

-- prune(older_than_seconds)
unfoldable pub prune : ℕ → ℕ → Table → Table
prune older_than now table = filter (λ e. leb now (e.occurred_at + older_than * second)) table
