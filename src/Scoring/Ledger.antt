-- ===== src/Scoring/Ledger.antt =====
-- The award ledger of scoring.py pays once, also when calls interleave between reading and writing.
use itp2_group6_the_pond.Prelude.{
  ℕ, ◌+◌, ◌≤◌, ◌≡◌, true, false, Option, none, some, List, [], ◌∷◌, ◌++◌, Text, ◌==◌, ℕ_eq, arith,
  if◌then◌else◌, filter, count, count-append, Bool-cases, inl, inr, ◌⊎◌, Option-cases,
}
use itp2_group6_the_pond.Scoring.{
  ChallengeFlag, UserSolve, Store, Reading, no_flag, matched, Grade, is_taken, solved_by, award,
  write, write_rows, has_keys, score, sum_points,
}

-- No flag is paid twice to one user.
abbrev pub IsLedger : List UserSolve → Type 0
IsLedger solves = (user_id flag_id : ℕ) → count (solved_by user_id flag_id) solves ≤ 1

award-IsLedger :
    (user_id instance_id now : ℕ) (flag : ChallengeFlag) (solves : List UserSolve)
    → is_taken user_id flag.flag_id solves ≡ false
    → IsLedger solves
    → IsLedger (solves ++ (award user_id flag instance_id now ∷ []))
unfolding is_taken count
award-IsLedger user_id instance_id now flag solves free old u f =
    let a : UserSolve = award user_id flag instance_id now in
    ground (arith, old u f, count-append (solved_by u f) solves (a ∷ []))

-- What a call that does not fail leaves in the ledger: what was there, or one more award that was not.
write_rows-solves :
    (user_id instance_id now : ℕ) (reading : Reading) (s s' : Store) (grade : Grade) (points : ℕ)
    (label : Option Text)
    → write_rows user_id instance_id now reading s ≡ some (grade, points, label, s')
    → ((s'.solves ≡ s.solves) × (points ≡ 0))
      ⊎ ((flag : ChallengeFlag) × (s'.solves
            ≡ s.solves ++ (award user_id flag instance_id now ∷ []))
          × (points ≡ flag.points)
          × (is_taken user_id flag.flag_id s.solves ≡ false))
unfolding write_rows
write_rows-solves user_id instance_id now no_flag s s' grade points label done = inl (ground arith)
write_rows-solves user_id instance_id now (matched flag true) s s' grade points label done =
    inl (ground arith)
write_rows-solves user_id instance_id now (matched flag false) s s' grade points label done =
    elim (Bool-cases (is_taken user_id flag.flag_id s.solves)) [
      | inl taken ↦ absurd (ground arith)
      | inr free ↦ inr (flag, ground arith, ground arith, free)
    ]

write-solves :
    (user_id instance_id now : ℕ) (reading : Reading) (s s' : Store) (grade : Grade) (points : ℕ)
    (label : Option Text)
    → write user_id instance_id now reading s ≡ some (grade, points, label, s')
    → ((s'.solves ≡ s.solves) × (points ≡ 0))
      ⊎ ((flag : ChallengeFlag) × (s'.solves
            ≡ s.solves ++ (award user_id flag instance_id now ∷ []))
          × (points ≡ flag.points)
          × (is_taken user_id flag.flag_id s.solves ≡ false))
unfolding write
write-solves user_id instance_id now reading s s' grade points label done =
    elim (Bool-cases (has_keys user_id instance_id reading s)) [
      | inl keyed ↦
          write_rows-solves user_id instance_id now reading s s' grade points label
            (rw (write, keyed) at done)
      | inr dangling ↦ let bad = rw (write, dangling) at done in cc
    ]

pub write_rows-IsLedger :
    (user_id instance_id now : ℕ) (reading : Reading) (s s' : Store) (grade : Grade) (points : ℕ)
    (label : Option Text)
    → IsLedger s.solves
    → write_rows user_id instance_id now reading s ≡ some (grade, points, label, s')
    → IsLedger s'.solves
write_rows-IsLedger user_id instance_id now reading s s' grade points label old done =
    elim (write_rows-solves user_id instance_id now reading s s' grade points label done) [
      | inl (same, _) ↦ rw same old
      | inr (flag, grown, _, free) ↦
          rw grown (award-IsLedger user_id instance_id now flag s.solves free old)
    ]

-- The writes of a call, whatever its queries had found and however long ago.
pub write-IsLedger :
    (user_id instance_id now : ℕ) (reading : Reading) (s s' : Store) (grade : Grade) (points : ℕ)
    (label : Option Text)
    → IsLedger s.solves
    → write user_id instance_id now reading s ≡ some (grade, points, label, s')
    → IsLedger s'.solves
unfolding write
write-IsLedger user_id instance_id now reading s s' grade points label old done =
    elim (Bool-cases (has_keys user_id instance_id reading s)) [
      | inl keyed ↦
          write_rows-IsLedger user_id instance_id now reading s s' grade points label old
            (rw (write, keyed) at done)
      | inr dangling ↦ let bad = rw (write, dangling) at done in cc
    ]

-- The commit of one call among many, with what its queries had found at some earlier time.
pub record Commit : Type 0 where
  pub user_id : ℕ
  pub instance_id : ℕ
  pub now : ℕ
  pub reading : Reading

-- A commit that fails rolls back.
unfoldable pub committed : Commit → Store → Store
committed c s = elim (write c.user_id c.instance_id c.now c.reading s) [
  | none ↦ s
  | some (_, _, _, s') ↦ s'
]

unfoldable pub commit_all : List Commit → Store → Store
commit_all [] s = s
commit_all (c ∷ cs) s = commit_all cs (committed c s)

committed-IsLedger : (c : Commit) (s : Store) → IsLedger s.solves → IsLedger (committed c s).solves
unfolding committed
committed-IsLedger c s old = elim (Option-cases (write c.user_id c.instance_id c.now c.reading s)) [
  | inl failed ↦ rw (failed, committed) old
  | inr ((grade, points, label, s'), done) ↦
      rw (done, committed)
        (write-IsLedger c.user_id c.instance_id c.now c.reading s s' grade points label old done)
]

-- However submissions interleave, so that each commits on queries that may be out of date, no flag
-- is ever paid twice to one user, if none was at the start.
pub commit_all-IsLedger :
    (cs : List Commit) (s : Store) → IsLedger s.solves → IsLedger (commit_all cs s).solves
unfolding commit_all
commit_all-IsLedger [] s old = old
commit_all-IsLedger (c ∷ cs) s old =
    commit_all-IsLedger cs (committed c s) (committed-IsLedger c s old)

score-append :
    (u : ℕ) (solves : List UserSolve) (a : UserSolve)
    → score u (solves ++ (a ∷ []))
      ≡ score u solves + (if a.user_id == u then a.awarded_points else 0)
unfolding score sum_points filter
score-append u [] a = ground arith
score-append u (x ∷ xs) a = ground (arith, score-append u xs a)

-- The points that a call that does not fail returns are what the total of its user grows by, and nobody else's total
-- changes.
pub write-score :
    (user_id instance_id now : ℕ) (reading : Reading) (s s' : Store) (grade : Grade) (points : ℕ)
    (label : Option Text) (u : ℕ)
    → write user_id instance_id now reading s ≡ some (grade, points, label, s')
    → score u s'.solves ≡ score u s.solves + (if user_id == u then points else 0)
write-score user_id instance_id now reading s s' grade points label u done =
    elim (write-solves user_id instance_id now reading s s' grade points label done) [
      | inl (same, nothing) ↦ rw (same, nothing) (ground arith)
      | inr (flag, grown, paid, _) ↦
          rw (grown, paid) (score-append u s.solves (award user_id flag instance_id now))
    ]
