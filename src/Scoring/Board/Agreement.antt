-- ===== src/Scoring/Board/Agreement.antt =====
-- The leaderboard of scoring.py beside the rank that its user_stats shows one user.
use itp2_group6_the_pond.Prelude.{
  ℕ, suc, ◌+◌, ◌≡◌, refl, ap, Bool, true, ◌&&◌, not, Option, none, some, List, [], ◌∷◌, arith,
  count, count_congr, filter, find?, find?-sound, All, All-map, All-find?, take, ltb, Bool-cases,
  inl, inr, ◌==◌, ℕ_eq, map,
}
use itp2_group6_the_pond.Accounts.{User, Users}
use itp2_group6_the_pond.Scoring.{Store, score}
use itp2_group6_the_pond.Scoring.Board.{
  Entry, sort, time_eq, ranked_from, ranked, is_eligible, entry_of, board_rows, overall_leaderboard,
  rank_of,
}
use itp2_group6_the_pond.Scoring.Board.Sorting.{sort-IsSorted, All-sort, count-sort}
use itp2_group6_the_pond.Scoring.Board.Ranking.{
  is_higher, Ranks, ranked-Ranks, Within, take-Within, take-IsSorted, All-take,
}

count-map {ℓ κ} :
    {A : Type ℓ}
    → {B : Type κ} → (p : B → Bool) (f : A → B) (xs : List A)
    → count p (map f xs) ≡ count (λ x. p (f x)) xs
unfolding count
count-map p f [] = refl
count-map p f (x ∷ xs) = ground (arith, count-map p f xs)

All-both {ℓ κ κ'} :
    {A : Type ℓ}
    → (P : A → Type κ) (Q : A → Type κ') (xs : List A) → All P xs
    → All Q xs
    → All (λ x. P x × Q x) xs
All-both P Q [] h k = tt
All-both P Q (x ∷ xs) h k = ((h.0, k.0), All-both P Q xs h.1 k.1)

-- The ranks are added to the rows, which stay as they are.
All-ranked_from {κ} :
    (P : Entry → Type κ) (position : ℕ) (previous : Option ℕ) (rank : ℕ) (rows : List Entry)
    → All P rows
    → All (λ (e : Entry × ℕ). P e.0) (ranked_from position previous rank rows)
unfolding ranked_from
All-ranked_from P position previous rank [] h = tt
All-ranked_from P position previous rank (row ∷ rows) h =
    elim (Bool-cases (time_eq previous (some row.score))) [
      | inl tie ↦ rw tie (h.0, All-ranked_from P (suc position) previous rank rows h.1)
      | inr fresh ↦
          rw fresh (h.0, All-ranked_from P (suc position) (some row.score) position rows h.1)
    ]

-- A row that shows the points of its user.
abbrev IsScored : Store → Entry → Type 0
IsScored s row = row.score ≡ score row.user_id s.solves

All-entry_of : (s : Store) (users : Users) → All (IsScored s) (map (entry_of s) users)
unfolding entry_of score
All-entry_of s [] = tt
All-entry_of s (u ∷ users) = (refl, All-entry_of s users)

-- How many eligible users have more than some points.
abbrev pub users_above : ℕ → Store → Users → ℕ
users_above points s users =
    count (λ (u : User). ltb points (score u.user_id s.solves)) (filter is_eligible users)

count-board_rows :
    (points : ℕ) (s : Store) (users : Users)
    → count (is_higher points) (board_rows s users) ≡ users_above points s users
unfolding board_rows entry_of score
count-board_rows points s users =
    count-map (is_higher points) (entry_of s) (filter is_eligible users)

-- A row with its user's points and the rank that these points have among all users.
abbrev pub IsPlaced : Store → Users → Entry × ℕ → Type 0
IsPlaced s users (row, rank) =
    (row.score ≡ score row.user_id s.solves) × (rank ≡ 1 + users_above row.score s users)

whole :
    (limit : ℕ) (rows : List Entry) (e : Entry × ℕ)
    → Ranks [] (take limit (sort rows)) e
    → Within limit (sort rows) e.0
    → e.1 ≡ 1 + count (is_higher e.0.score) rows
unfolding count
whole limit rows (row, rank) ranks within =
    omega (arith, ranks, within, count-sort (is_higher row.score) rows)

-- On the first rows of a sorted board, each rank counts the higher rows of the whole board.
pub ranked_top-Ranks {κ} :
    (P : Entry → Type κ) (limit : ℕ) (rows : List Entry)
    → All P rows
    → All
        (λ (e : Entry × ℕ). P e.0 × (e.1 ≡ 1 + count (is_higher e.0.score) rows))
        (ranked (take limit (sort rows)))
unfolding ranked
ranked_top-Ranks P limit rows h =
    let board : List Entry = sort rows in
    let sorted = sort-IsSorted rows in
    let facts =
      All-both (Within limit board) P (take limit board) (take-Within limit board sorted)
        (All-take P limit board (All-sort P rows h)) in
    All-map (λ (e : Entry × ℕ). Ranks [] (take limit board) e × (Within limit board e.0 × P e.0))
      (λ (e : Entry × ℕ). P e.0 × (e.1 ≡ 1 + count (is_higher e.0.score) rows))
      (λ e k. (k.1.1, whole limit rows e k.0 k.1.0)) (ranked (take limit board))
      (All-both (Ranks [] (take limit board)) (λ (e : Entry × ℕ). Within limit board e.0 × P e.0)
        (ranked (take limit board))
        (ranked-Ranks (take limit board) (take-IsSorted limit board sorted))
        (All-ranked_from (λ (row : Entry). Within limit board row × P row) 1 none 0
          (take limit board) facts))

-- Every row of the overall leaderboard, whatever its limit, shows its user's points,
-- and its rank is one more than the number of eligible users with more points.
pub overall_leaderboard-IsPlaced :
    (limit : ℕ) (s : Store) (users : Users)
    → All (IsPlaced s users) (overall_leaderboard limit s users)
unfolding overall_leaderboard board_rows
overall_leaderboard-IsPlaced limit s users =
    All-map
      (λ (e : Entry × ℕ).
        IsScored s e.0 × (e.1 ≡ 1 + count (is_higher e.0.score) (board_rows s users)))
      (IsPlaced s users) (λ e h. (h.0, omega (arith, h.1, count-board_rows e.0.score s users)))
      (overall_leaderboard limit s users)
      (ranked_top-Ranks (IsScored s) limit (board_rows s users)
        (All-entry_of s (filter is_eligible users)))

abbrev pub is_row_of : User → Entry × ℕ → Bool
is_row_of user (row, rank) = row.user_id == user.user_id

not_above_itself :
    (s : Store) (user other : User)
    → (not (other.user_id == user.user_id)
        && ltb (score user.user_id s.solves) (score other.user_id s.solves))
      ≡ ltb (score user.user_id s.solves) (score other.user_id s.solves)
not_above_itself s user other = elim (Bool-cases (other.user_id == user.user_id)) [
  | inl same ↦ let k : other.user_id ≡ user.user_id = ground arith in rw (same, k) (ground arith)
  | inr differ ↦ rw differ refl
]

-- For an eligible user who is on the overall leaderboard, whatever its limit, the rank there is the
-- rank that user_stats computes from all users.
pub overall_leaderboard-rank_of :
    (limit : ℕ) (s : Store) (users : Users) (user : User) (row : Entry) (rank : ℕ)
    → is_eligible user ≡ true
    → find? (is_row_of user) (overall_leaderboard limit s users) ≡ some (row, rank)
    → rank_of s users user ≡ some rank
unfolding rank_of
overall_leaderboard-rank_of limit s users user row rank eligible found =
    let same = find?-sound (is_row_of user) (overall_leaderboard limit s users) (row, rank) found in
    let facts =
      All-find? (IsPlaced s users) (is_row_of user) (overall_leaderboard limit s users) (row, rank)
        (overall_leaderboard-IsPlaced limit s users) found in
    let above =
      count_congr
        (λ (other : User).
          not (other.user_id == user.user_id)
          && ltb (score user.user_id s.solves) (score other.user_id s.solves))
        (λ (other : User). ltb (score user.user_id s.solves) (score other.user_id s.solves))
        (not_above_itself s user) (filter is_eligible users) in
    let user_is : row.user_id ≡ user.user_id = ground arith in
    let points : row.score ≡ score user.user_id s.solves = rw user_is at facts.0 in
    let counted : users_above (score user.user_id s.solves) s users
        ≡ users_above row.score s users =
      rw points refl in
    rw eligible (ap some (omega (arith, above, counted, facts.1)))
