-- ===== src/Scoring/Board.antt =====
-- The leaderboards of scoring.py: the rows, their order, and the ranks that ties share.
pub mod Sorting
pub mod Ranking
pub mod Agreement
pub mod Category
use itp2_group6_the_pond.Prelude.{
  ℕ, suc, ◌+◌, Bool, true, false, ◌&&◌, ◌||◌, not, Option, none, some, List, [], ◌∷◌, map, String,
  String_eq, Text, ◌==◌, ℕ_eq, if◌then◌else◌, filter, count, length, take, leb, ltb, max,
}
use itp2_group6_the_pond.Accounts.{User, Users}
use itp2_group6_the_pond.Scoring.{FlagSubmission, UserSolve, Store, sum_points, score}

pub record Entry : Type 0 where
  pub user_id : ℕ
  pub username : Text
  pub score : ℕ
  pub last_solved : Option ℕ
  pub solved_count : ℕ
  pub flags_played : ℕ

-- max(s.solved_at for s in solves, default=None)
unfoldable pub last_solved : List UserSolve → Option ℕ
last_solved [] = none
last_solved (s ∷ rest) = elim (last_solved rest) [
  | none ↦ some s.solved_at
  | some t ↦ some (max s.solved_at t)
]

unfoldable pub text_lt : Text → Text → Bool
text_lt [] [] = false
text_lt [] (d ∷ ds) = true
text_lt (c ∷ cs) [] = false
text_lt (c ∷ cs) (d ∷ ds) = let rest = text_lt cs ds in if c == d then rest else ltb c d

unfoldable pub time_lt : Option ℕ → Option ℕ → Bool
time_lt none _ = false
time_lt (some a) none = true
time_lt (some a) (some b) = ltb a b

unfoldable pub time_eq : Option ℕ → Option ℕ → Bool
time_eq none none = true
time_eq (some a) (some b) = a == b
time_eq _ _ = false

-- The order of the keys (-score, last_solved is None, last_solved or "", username).
unfoldable pub less : Entry → Entry → Bool
less a b =
    if a.score == b.score
    then (if time_eq a.last_solved b.last_solved
        then text_lt a.username b.username
        else time_lt a.last_solved b.last_solved)
    else ltb b.score a.score

-- list.sort is stable: a row stays in front of the later rows that are not less.
unfoldable pub insert : Entry → List Entry → List Entry
insert x [] = x ∷ []
insert x (y ∷ ys) = let rest = insert x ys in if less y x then y ∷ rest else x ∷ y ∷ ys

unfoldable pub sort : List Entry → List Entry
sort [] = []
sort (x ∷ xs) = insert x (sort xs)

-- The loop of _ranked: the position, the previous score and its rank.
unfoldable pub ranked_from : ℕ → Option ℕ → ℕ → List Entry → List (Entry × ℕ)
ranked_from position previous rank [] = []
ranked_from position previous rank (row ∷ rows) =
    let tie = ranked_from (suc position) previous rank rows in
    let fresh = ranked_from (suc position) (some row.score) position rows in
    if time_eq previous (some row.score) then (row, rank) ∷ tie else (row, position) ∷ fresh

unfoldable pub ranked : List Entry → List (Entry × ℕ)
ranked rows = ranked_from 1 none 0 rows

-- Role.role_name != "sysadmin"
unfoldable pub is_eligible : User → Bool
is_eligible u = not (u.role_name == "sysadmin")

unfoldable pub entry_of : Store → User → Entry
entry_of s u =
    let solves = filter (λ x. x.user_id == u.user_id) s.solves in
    record {
      user_id = u.user_id;
      username = u.username;
      score = sum_points solves;
      last_solved = last_solved solves;
      solved_count = length solves;
      flags_played = count (λ x. x.user_id == u.user_id) s.submissions;
    }

unfoldable pub board_rows : Store → Users → List Entry
board_rows s users = map (entry_of s) (filter is_eligible users)

unfoldable pub overall_leaderboard : ℕ → Store → Users → List (Entry × ℕ)
overall_leaderboard limit s users = ranked (take limit (sort (board_rows s users)))

-- The rank and field size of user_stats; an administrator has no rank.
unfoldable pub rank_of : Store → Users → User → Option ℕ
rank_of s users user =
    if not (is_eligible user)
    then none
    else some (
        count
          (λ other.
            not (other.user_id == user.user_id)
            && ltb (score user.user_id s.solves) (score other.user_id s.solves))
          (filter is_eligible users)
        + 1)
