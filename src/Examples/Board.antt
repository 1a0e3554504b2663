-- ===== src/Examples/Board.antt =====
-- Scoring on a challenge with two flags and three users.
use itp2_group6_the_pond.Prelude.{
  ℕ, ◌+◌, ◌≤◌, ◌≡◌, ◌≢◌, ◌⊎◌, refl, true, false, Option, none, some, List, [], ◌∷◌, Text, Text_eq,
  text_eq, codes, find?, filter, arith, count, All, ℕ_eq, any,
}
use itp2_group6_the_pond.Accounts.{approved, User, Users}
use itp2_group6_the_pond.Scoring.{
  ChallengeFlag, UserSolve, Store, matched, Grade, miss, hit, repeat, award, write, write_rows,
  has_keys, is_key_of, is_match, submit_flag, is_taken, log_attempt, log_of, sum_points,
}
use itp2_group6_the_pond.Scoring.Ledger.{IsLedger, Commit, commit_all, commit_all-IsLedger}
use itp2_group6_the_pond.Scoring.Grading.{submit_flag-twice}
use itp2_group6_the_pond.Scoring.Board.{
  Entry, is_eligible, overall_leaderboard, rank_of, ranked, ranked_from, sort, insert, less,
  board_rows, entry_of, last_solved, text_lt, time_lt, time_eq,
}
use itp2_group6_the_pond.Scoring.Board.Ranking.{is_higher}
use itp2_group6_the_pond.Scoring.Board.Category.{
  Catalog, IsKeyed, HasPoints, category_rows, category_leaderboard, category_leaderboard-HasPoints,
}
use itp2_group6_the_pond.Scoring.Board.Agreement.{is_row_of, overall_leaderboard-rank_of}

abbrev digest : Text → Text
digest text = 7 ∷ text

abbrev root_flag : ChallengeFlag
root_flag = record {
  flag_id = 1;
  challenge_id = 4;
  flag_name = codes "root";
  flag_hash = 7 ∷ codes "pond";
  points = 30;
  is_active = true;
}

abbrev paid_once : UserSolve
paid_once = award 2 root_flag 5 100

abbrev store : Store
store = record {
  flags = root_flag ∷ [];
  submissions = [];
  solves = paid_once ∷ [];
  user_ids = 2 ∷ 3 ∷ [];
  instance_ids = 5 ∷ 6 ∷ 9 ∷ [];
}

store-IsLedger : IsLedger store.solves
unfolding count
store-IsLedger user_id flag_id = ground arith

-- Two users read at the same time, before either's commit, and one of them twice.
abbrev late : Commit
late = record { user_id = 3; instance_id = 6; now = 200; reading = matched root_flag false }

abbrev commits : List Commit
commits = late ∷ late ∷ record late { user_id = 8 } ∷ []

commit_all-IsLedger_example : IsLedger (commit_all commits store).solves
commit_all-IsLedger_example = commit_all-IsLedger commits store store-IsLedger

abbrev paid_twice : Store
paid_twice = record (log_attempt (log_of 3 6 (matched root_flag false)) store) {
  solves = paid_once ∷ award 3 root_flag 6 200 ∷ [];
}

paid :
    write 3 6 200 (matched root_flag false) store ≡ some (hit, 30, some (codes "root"), paid_twice)
unfolding write write_rows has_keys any is_taken count
paid = refl

single : count (is_match digest 4 (codes " POND ")) store.flags ≤ 1
unfolding count
single = ground arith

user_there : is_key_of store.user_ids 3 ≡ true
unfolding any
user_there = refl

first_there : is_key_of store.instance_ids 6 ≡ true
unfolding any
first_there = refl

second_there : is_key_of store.instance_ids 9 ≡ true
unfolding any
second_there = refl

submit_flag-twice_example :
    (grade grade' : Grade) × (points : ℕ) × (label : Option Text) × (s' s'' : Store) × (submit_flag
        digest 3 4 6
        (codes " POND ")
        200
        store
      ≡ some (grade, points, label, s'))
    × (submit_flag digest 3 4 9 (codes " POND ") 300 s' ≡ some (grade', 0, label, s''))
    × (s''.solves ≡ s'.solves)
    × ((grade ≡ miss) × (grade' ≡ miss) ⊎ ((grade ≢ miss) × (grade' ≡ repeat)))
submit_flag-twice_example =
    submit_flag-twice digest 3 4 6 9 200 300 (codes " POND ") store store-IsLedger single user_there
      first_there second_there

abbrev player : ℕ → Text → User
player id name = record {
  user_id = id;
  username = name;
  display_name = name;
  role_name = "user";
  is_active = true;
  created_at = 0;
  last_login_at = none;
  approval_status = approved;
  approved_at = none;
  approved_by = none;
  credentials = none;
}

abbrev players : Users
players = player 2 (codes "bob") ∷ player 3 (codes "cy") ∷ player 8 (codes "abe") ∷ []

abbrev abe_row : Entry
abe_row = record {
  user_id = 8;
  username = codes "abe";
  score = 0;
  last_solved = none;
  solved_count = 0;
  flags_played = 0;
}

eligible : is_eligible (player 8 (codes "abe")) ≡ true
unfolding is_eligible
eligible = refl

found :
    find? (is_row_of (player 8 (codes "abe"))) (overall_leaderboard 2 store players)
    ≡ some (abe_row, 2)
unfolding find? overall_leaderboard ranked ranked_from sort insert less board_rows entry_of
    is_eligible filter sum_points last_solved text_lt time_lt time_eq count text_eq
found = refl

overall_leaderboard-rank_of_example : rank_of store players (player 8 (codes "abe")) ≡ some 2
overall_leaderboard-rank_of_example =
    overall_leaderboard-rank_of 2 store players (player 8 (codes "abe")) abe_row 2 eligible found

abbrev catalog : Catalog
catalog = record {
  challenges = record { challenge_id = 4; category = some (codes "web") } ∷ [];
  instances = record { instance_id = 5; challenge_id = 4 } ∷ [];
}

catalog-IsKeyed : IsKeyed (codes "web") catalog store
unfolding count
catalog-IsKeyed = ((λ id. ground arith), (λ id. ground arith))

category_leaderboard-HasPoints_example :
    All
      (λ ((row, rank) : Entry × ℕ).
        HasPoints (codes "web") catalog store row
        × (rank
            ≡ 1
              + count
                  (is_higher row.score)
                  (category_rows (codes "web") catalog store (filter is_eligible players))))
      (category_leaderboard (codes "web") catalog store 2 players)
category_leaderboard-HasPoints_example =
    category_leaderboard-HasPoints (codes "web") catalog store catalog-IsKeyed 2 players
