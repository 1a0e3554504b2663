-- ===== src/Scoring/Board/Category.antt =====
-- The leaderboard of one category in scoring.py: who has points in it, ranked by these points.
use itp2_group6_the_pond.Prelude.{
  ℕ, ◌+◌, ◌≤◌, ◌<◌, ◌≡◌, Bool, false, ◌&&◌, Option, none, some, List, [], ◌∷◌, Text, Text_eq, ◌==◌,
  ℕ_eq, arith, if◌then◌else◌, filter, count, any, length, take, leb, All, Bool-cases, inl, inr,
  refl, ap, ◌∙◌, find?, Option-cases,
}
use itp2_group6_the_pond.Accounts.{User, Users}
use itp2_group6_the_pond.Scoring.{
  ChallengeFlag, FlagSubmission, UserSolve, Store, sum_points, score,
}
use itp2_group6_the_pond.Scoring.Board.{Entry, last_solved, is_eligible, sort, ranked}
use itp2_group6_the_pond.Scoring.Board.Ranking.{is_higher}
use itp2_group6_the_pond.Scoring.Board.Agreement.{ranked_top-Ranks}

-- The columns of db/challenge_models.py and db/runtime_models.py that the joins read.
pub record Challenge : Type 0 where
  pub challenge_id : ℕ
  pub category : Option Text

pub record ChallengeInstance : Type 0 where
  pub instance_id : ℕ
  pub challenge_id : ℕ

pub record Catalog : Type 0 where
  pub challenges : List Challenge
  pub instances : List ChallengeInstance

abbrev pub is_category : Text → Option Text → Bool
is_category category none = false
is_category category (some c) = c == category

module _ (category : Text) (catalog : Catalog) (s : Store) where
  -- JOIN Challenge ON its key, with the WHERE on its category.
  unfoldable pub in_category : ℕ → Bool
  in_category id =
      any (λ c. c.challenge_id == id && is_category category c.category) catalog.challenges

  -- JOIN ChallengeFlag ON the solve's flag_id.
  unfoldable pub solve_in_category : UserSolve → Bool
  solve_in_category x = any (λ f. f.flag_id == x.flag_id && in_category f.challenge_id) s.flags

  -- JOIN ChallengeInstance ON the submission's instance_id.
  unfoldable pub submission_in_category : FlagSubmission → Bool
  submission_in_category x =
      any (λ i. i.instance_id == x.instance_id && in_category i.challenge_id) catalog.instances

  unfoldable pub category_solves : ℕ → List UserSolve
  category_solves user_id =
      filter (λ x. solve_in_category x) (filter (λ x. x.user_id == user_id) s.solves)

  unfoldable pub category_entry : User → Entry
  category_entry u = record {
    user_id = u.user_id;
    username = u.username;
    score = sum_points (category_solves u.user_id);
    last_solved = last_solved (category_solves u.user_id);
    solved_count = length (category_solves u.user_id);
    flags_played = count (λ x. x.user_id == u.user_id && submission_in_category x) s.submissions;
  }

  -- The loop over the eligible users. Without solves the score is 0, so that one test stands for both
  -- of the loop's `continue`s.
  unfoldable pub category_rows : Users → List Entry
  category_rows [] = []
  category_rows (u ∷ us) =
      let rest = category_rows us in
      if leb (category_entry u).score 0 then rest else category_entry u ∷ rest

  unfoldable pub category_leaderboard : ℕ → Users → List (Entry × ℕ)
  category_leaderboard limit users =
      ranked (take limit (sort (category_rows (filter is_eligible users))))

  -- The category by the keys: that of the challenge of the flag.
  abbrev pub of_found : {A : Type 0} → (A → Bool) → Option A → Bool
  of_found p none = false
  of_found p (some x) = p x

  abbrev pub flag_of : UserSolve → Option ChallengeFlag
  flag_of x = find? (λ f. f.flag_id == x.flag_id) s.flags

  abbrev pub challenge_of : ChallengeFlag → Option Challenge
  challenge_of f = find? (λ c. c.challenge_id == f.challenge_id) catalog.challenges

  abbrev pub is_from : UserSolve → Bool
  is_from x =
      of_found (λ f. of_found (λ c. is_category category c.category) (challenge_of f)) (flag_of x)

  -- The points of a user's solves whose flag's challenge is of the category.
  abbrev pub points_from : ℕ → ℕ
  points_from user_id = sum_points (filter is_from (filter (λ x. x.user_id == user_id) s.solves))

  any-none :
      {A : Type 0} (p q : A → Bool) (xs : List A)
      → count p xs ≡ 0
      → any (λ x. p x && q x) xs ≡ false
  unfolding any count
  any-none p q [] e = refl
  any-none p q (x ∷ xs) e = ground (arith, any-none p q xs)

  -- A join on a key is a look-up.
  any-find? :
      {A : Type 0} (p q : A → Bool) (xs : List A)
      → count p xs ≤ 1
      → any (λ x. p x && q x) xs ≡ of_found q (find? p xs)
  unfolding any count find?
  any-find? p q [] one = refl
  any-find? p q (x ∷ xs) one = elim (Bool-cases (p x)) [
    | inl here ↦
        let rest = any-none p q xs (let once = rw here at one in omega (arith, once)) in
        rw (here, rest) (ground arith)
    | inr there ↦ rw there (any-find? p q xs (rw there at one))
  ]

  filter-same :
      {A : Type 0} (p q : A → Bool) (xs : List A)
      → ((x : A) → p x ≡ q x)
      → filter p xs ≡ filter q xs
  unfolding filter
  filter-same p q [] same = refl
  filter-same p q (x ∷ xs) same = let one = same x in ground (arith, filter-same p q xs same)

  sum_points-filter :
      (p : UserSolve → Bool) (xs : List UserSolve) → sum_points (filter p xs) ≤ sum_points xs
  unfolding sum_points filter
  sum_points-filter p [] = omega arith
  sum_points-filter p (x ∷ xs) = ground (arith, sum_points-filter p xs)

  -- No two flags and no two challenges have the same key.
  abbrev pub IsKeyed : Type 0
  IsKeyed =
      ((id : ℕ) → count (λ (f : ChallengeFlag). f.flag_id == id) s.flags ≤ 1)
      × ((id : ℕ) → count (λ (c : Challenge). c.challenge_id == id) catalog.challenges ≤ 1)

  solve-is_from : IsKeyed → (x : UserSolve) → solve_in_category x ≡ is_from x
  unfolding solve_in_category in_category
  solve-is_from (flags, challenges) x =
      any-find? (λ f. f.flag_id == x.flag_id) (λ f. in_category f.challenge_id) s.flags
        (flags x.flag_id)
      ∙ elim (Option-cases (flag_of x)) [
        | inl missing ↦ rw missing refl
        | inr (f, found) ↦ rw found (
            any-find? (λ c. c.challenge_id == f.challenge_id) (λ c. is_category category c.category)
              catalog.challenges (challenges f.challenge_id))
      ]

  -- A row with some points, which are those of the category, and no more than its user has in all.
  abbrev pub HasPoints : Entry → Type 0
  HasPoints row =
      (0 < row.score)
      × (row.score ≡ points_from row.user_id)
      × (row.score ≤ score row.user_id s.solves)

  category_rows-HasPoints : IsKeyed → (users : Users) → All HasPoints (category_rows users)
  unfolding category_rows category_entry category_solves score
  category_rows-HasPoints keyed [] = tt
  category_rows-HasPoints keyed (u ∷ us) = elim (Bool-cases (leb (category_entry u).score 0)) [
    | inl nothing ↦ rw nothing (category_rows-HasPoints keyed us)
    | inr points ↦ rw points (
      (
        ground (arith, points),
        ap sum_points (
            filter-same solve_in_category is_from (filter (λ x. x.user_id == u.user_id) s.solves)
              (solve-is_from keyed)),
        sum_points-filter (λ x. solve_in_category x)
            (filter (λ x. x.user_id == u.user_id) s.solves),
      ),
      category_rows-HasPoints keyed us,
    )
  ]

  -- Where no two flags and no two challenges have the same key, every row of a category's leaderboard,
  -- whatever its limit, has as its score the points of its user's solves whose flag is of a challenge
  -- of the category. They are some, and at most the user's points in all, and the row's rank is one
  -- more than the number of eligible users with more points in the category, those beyond the limit
  -- included.
  pub category_leaderboard-HasPoints :
      IsKeyed
      → (limit : ℕ) (users : Users)
      → All
          (λ ((row, rank) : Entry × ℕ).
            HasPoints row
            × (rank ≡ 1 + count (is_higher row.score) (category_rows (filter is_eligible users))))
          (category_leaderboard limit users)
  unfolding category_leaderboard
  category_leaderboard-HasPoints keyed limit users =
      ranked_top-Ranks HasPoints limit (category_rows (filter is_eligible users))
        (category_rows-HasPoints keyed (filter is_eligible users))
