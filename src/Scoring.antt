-- ===== src/Scoring.antt =====
-- Flag grading: pond-sec/app/scoring.py over the tables of db/VMs_models.py and
-- db/scoring_models.py. The hash is hashlib's, a parameter here.
pub mod Ledger
pub mod Grading
pub mod Board
pub mod Progress
use itp2_group6_the_pond.Prelude.{
  ℕ, ◌+◌, Bool, true, false, ◌&&◌, not, Option, none, some, List, [], ◌∷◌, ◌++◌, Text, Text_eq,
  ◌==◌, ℕ_eq, if◌then◌else◌, filter, one_or_none, count, leb, ltb, any,
}
use itp2_group6_the_pond.Strings.{strip, lower}

pub record ChallengeFlag : Type 0 where
  pub flag_id : ℕ
  pub challenge_id : ℕ
  pub flag_name : Text
  pub flag_hash : Text
  pub points : ℕ
  pub is_active : Bool

pub record FlagSubmission : Type 0 where
  pub user_id : ℕ
  pub instance_id : ℕ
  pub matched_flag_id : Option ℕ
  pub was_correct : Bool
  pub was_already_solved : Bool

pub record UserSolve : Type 0 where
  pub user_id : ℕ
  pub flag_id : ℕ
  pub instance_id : ℕ
  pub awarded_points : ℕ
  pub solved_at : ℕ

pub record Store : Type 0 where
  pub flags : List ChallengeFlag
  pub submissions : List FlagSubmission
  pub solves : List UserSolve
  -- The keys of users and challenge_instances, to which foreign keys refer.
  pub user_ids : List ℕ
  pub instance_ids : List ℕ

-- FLAG_MISS, FLAG_HIT, FLAG_REPEAT
pub data Grade : Type 0 where
  miss hit repeat : Grade

abbrev pub solved_by : ℕ → ℕ → UserSolve → Bool
solved_by user_id flag_id s = s.user_id == user_id && s.flag_id == flag_id

-- What the queries of one call found: the flag, and whether its award is there.
pub data Reading : Type 0 where
  no_flag : Reading
  matched : ChallengeFlag → Bool → Reading

unfoldable pub log_of : ℕ → ℕ → Reading → FlagSubmission
log_of user_id instance_id no_flag = record {
  user_id = user_id;
  instance_id = instance_id;
  matched_flag_id = none;
  was_correct = false;
  was_already_solved = false;
}
log_of user_id instance_id (matched flag already) = record {
  user_id = user_id;
  instance_id = instance_id;
  matched_flag_id = some flag.flag_id;
  was_correct = true;
  was_already_solved = already;
}

abbrev pub log_attempt : FlagSubmission → Store → Store
log_attempt attempt s = record s { submissions = s.submissions ++ (attempt ∷ []) }

abbrev pub award : ℕ → ChallengeFlag → ℕ → ℕ → UserSolve
award user_id flag instance_id now = record {
  user_id = user_id;
  flag_id = flag.flag_id;
  instance_id = instance_id;
  awarded_points = flag.points;
  solved_at = now;
}

-- UNIQUE(user_id, flag_id): the insert of a second award fails, and with it the transaction.
unfoldable pub is_taken : ℕ → ℕ → List UserSolve → Bool
is_taken user_id flag_id solves = ltb 0 (count (solved_by user_id flag_id) solves)

abbrev pub is_key_of : List ℕ → ℕ → Bool
is_key_of ids id = any (λ i. i == id) ids

-- The foreign keys of flag_submissions and user_solves, which the database enforces: a user, an
-- attempt and a flag that are there.
unfoldable pub has_keys : ℕ → ℕ → Reading → Store → Bool
has_keys user_id instance_id no_flag s =
    is_key_of s.user_ids user_id && is_key_of s.instance_ids instance_id
has_keys user_id instance_id (matched flag already) s =
    is_key_of s.user_ids user_id
    && (is_key_of s.instance_ids instance_id && any (λ f. f.flag_id == flag.flag_id) s.flags)

-- The rows that are added where the foreign keys hold.
unfoldable pub write_rows : ℕ → ℕ → ℕ → Reading → Store → Option (Grade × ℕ × Option Text × Store)
write_rows user_id instance_id now no_flag s =
    some (miss, 0, none, log_attempt (log_of user_id instance_id no_flag) s)
write_rows user_id instance_id now (matched flag already) s =
    let s' = log_attempt (log_of user_id instance_id (matched flag already)) s in
    if already
    then some (repeat, 0, some flag.flag_name, s')
    else if is_taken user_id flag.flag_id s.solves
    then none
    else some (
      hit,
      flag.points,
      some flag.flag_name,
      record s' { solves = s.solves ++ (award user_id flag instance_id now ∷ []) },
    )

-- The writes of one call, from what its queries found: the attempt is logged either way, and an
-- award is written in the same transaction. `none` is the IntegrityError.
unfoldable pub write : ℕ → ℕ → ℕ → Reading → Store → Option (Grade × ℕ × Option Text × Store)
write user_id instance_id now reading s =
    if has_keys user_id instance_id reading s
    then write_rows user_id instance_id now reading s
    else none

module _ (sha256 : Text → Text) where
  -- hashlib.sha256(flag.strip().lower().encode()).hexdigest()
  unfoldable pub hash_flag : Text → Text
  hash_flag flag = sha256 (lower (strip flag))

  abbrev pub is_match : ℕ → Text → ChallengeFlag → Bool
  is_match challenge_id raw flag =
      flag.challenge_id == challenge_id && (flag.flag_hash == hash_flag raw && flag.is_active)

  -- The second query, if the first found a flag.
  unfoldable pub read_award : ℕ → Option ChallengeFlag → Store → Option Reading
  read_award user_id none s = some no_flag
  read_award user_id (some flag) s =
      elim (one_or_none (filter (solved_by user_id flag.flag_id) s.solves)) [
        | none ↦ none
        | some none ↦ some (matched flag false)
        | some (some _) ↦ some (matched flag true)
      ]

  -- The queries of one call. `none` is MultipleResultsFound.
  unfoldable pub read : ℕ → ℕ → Text → Store → Option Reading
  read user_id challenge_id raw s =
      elim (one_or_none (filter (is_match challenge_id raw) s.flags)) [
        | none ↦ none
        | some found ↦ read_award user_id found s
      ]

  unfoldable pub submit_flag :
      ℕ → ℕ → ℕ → Text → ℕ → Store → Option (Grade × ℕ × Option Text × Store)
  submit_flag user_id challenge_id instance_id raw now s = elim (read user_id challenge_id raw s) [
    | none ↦ none
    | some reading ↦ write user_id instance_id now reading s
  ]

-- SUM(awarded_points)
unfoldable pub sum_points : List UserSolve → ℕ
sum_points [] = 0
sum_points (s ∷ rest) = s.awarded_points + sum_points rest

unfoldable pub score : ℕ → List UserSolve → ℕ
score user_id solves = sum_points (filter (λ s. s.user_id == user_id) solves)
