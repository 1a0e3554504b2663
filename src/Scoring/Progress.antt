-- ===== src/Scoring/Progress.antt =====
-- The progress of a user in a challenge: challenge_progress of pond-sec/app/scoring.py.
use itp2_group6_the_pond.Prelude.{
  ℕ, ◌+◌, Bool, ◌&&◌, List, [], ◌∷◌, ◌==◌, ℕ_eq, filter, any, length, leb, ltb,
}
use itp2_group6_the_pond.Scoring.{ChallengeFlag, UserSolve, Store, sum_points}

pub record Progress : Type 0 where
  pub flags_total : ℕ
  pub flags_found : ℕ
  pub points_total : ℕ
  pub points_earned : ℕ
  pub is_complete : Bool

abbrev pub sum_flags : List ChallengeFlag → ℕ
sum_flags [] = 0
sum_flags (f ∷ rest) = f.points + sum_flags rest

unfoldable pub is_open_flag : ℕ → ChallengeFlag → Bool
is_open_flag challenge_id f = f.challenge_id == challenge_id && f.is_active

-- JOIN ChallengeFlag ON the solve's flag, an active one or not.
unfoldable pub solves_in : ℕ → ℕ → Store → List UserSolve
solves_in user_id challenge_id s =
    filter
      (λ (x : UserSolve).
        x.user_id == user_id
        && any (λ (f : ChallengeFlag). f.flag_id == x.flag_id && f.challenge_id == challenge_id)
            s.flags)
      s.solves

unfoldable pub challenge_progress : ℕ → ℕ → Store → Progress
challenge_progress user_id challenge_id s =
    let flags = filter (is_open_flag challenge_id) s.flags in
    let mine = solves_in user_id challenge_id s in
    record {
      flags_total = length flags;
      flags_found = length mine;
      points_total = sum_flags flags;
      points_earned = sum_points mine;
      is_complete = ltb 0 (length flags) && leb (length flags) (length mine);
    }
