-- ===== src/Scoring/Grading.antt =====
-- Submissions one after another in scoring.py: they do not fail, and a flag is worth points once.
use itp2_group6_the_pond.Prelude.{
  one_or_none-filter, ℕ, ◌≤◌, ◌≡◌, ◌≢◌, refl, any, ◌==◌, some-injective, ◌∙◌, Bool, true, Option,
  none, some, List, [], ◌∷◌, ◌++◌, Text, ℕ_eq, arith, count, count-append, find?, find?-none,
  find?-count, Bool-cases, Option-cases, inl, inr, ◌⊎◌,
}
use itp2_group6_the_pond.Scoring.{
  ChallengeFlag, UserSolve, Store, Reading, no_flag, matched, Grade, miss, hit, repeat, is_taken,
  solved_by, award, write, write_rows, has_keys, is_key_of, is_match, read_award, read, submit_flag,
  log_of, log_attempt,
}
use itp2_group6_the_pond.Scoring.Ledger.{IsLedger, write_rows-IsLedger}

-- What the queries find where no flag matches twice and no award is there twice.
abbrev found_by : (user_id : ℕ) → Option ChallengeFlag → Store → Reading
found_by user_id none s = no_flag
found_by user_id (some flag) s = matched flag (is_taken user_id flag.flag_id s.solves)

-- A flag that is found is there under its key.
found-key :
    (p : ChallengeFlag → Bool) (flags : List ChallengeFlag) (flag : ChallengeFlag)
    → find? p flags ≡ some flag
    → any (λ f. f.flag_id == flag.flag_id) flags ≡ true
unfolding find? any
found-key p [] flag e = cc
found-key p (f ∷ flags) flag e = elim (Bool-cases (p f)) [
  | inl here ↦ let same : f ≡ flag = some-injective (rw here at e) in rw same (ground arith)
  | inr there ↦ let later = found-key p flags flag (rw there at e) in ground arith
]

found-has_keys :
    (user_id instance_id : ℕ) (p : ChallengeFlag → Bool) (s : Store)
    → is_key_of s.user_ids user_id ≡ true
    → is_key_of s.instance_ids instance_id ≡ true
    → has_keys user_id instance_id (found_by user_id (find? p s.flags) s) s ≡ true
unfolding has_keys
found-has_keys user_id instance_id p s user_there attempt_there =
    elim (Option-cases (find? p s.flags)) [
      | inl missing ↦ rw missing (ground arith)
      | inr (flag, there) ↦ let key = found-key p s.flags flag there in rw there (ground arith)
    ]

module _ (sha256 : Text → Text) (user_id : ℕ) (s : Store) (ledger : IsLedger s.solves) where
  read_award-found :
      (found : Option ChallengeFlag)
      → read_award sha256 user_id found s ≡ some (found_by user_id found s)
  unfolding read_award is_taken
  read_award-found none = refl
  read_award-found (some flag) =
      let p : (UserSolve → Bool) = solved_by user_id flag.flag_id in
      elim (Option-cases (find? p s.solves)) [
        | inl missing ↦ ground (
          arith,
          one_or_none-filter p s.solves (ledger user_id flag.flag_id),
          find?-none p s.solves missing,
        )
        | inr (old, there) ↦ ground (
          arith,
          one_or_none-filter p s.solves (ledger user_id flag.flag_id),
          find?-count p s.solves old there,
        )
      ]

  -- With flags that cannot match twice, the queries of a call do not raise.
  read-found :
      (challenge_id : ℕ) (raw : Text)
      → count (is_match sha256 challenge_id raw) s.flags ≤ 1
      → read sha256 user_id challenge_id raw s
        ≡ some (found_by user_id (find? (is_match sha256 challenge_id raw) s.flags) s)
  unfolding read
  read-found challenge_id raw single =
      rw (one_or_none-filter (is_match sha256 challenge_id raw) s.flags single, read)
        (read_award-found (find? (is_match sha256 challenge_id raw) s.flags))

  -- Where the foreign keys hold, a call writes its rows.
  submit_flag-found :
      (challenge_id instance_id : ℕ) (raw : Text) (now : ℕ)
      → count (is_match sha256 challenge_id raw) s.flags ≤ 1
      → is_key_of s.user_ids user_id ≡ true
      → is_key_of s.instance_ids instance_id ≡ true
      → submit_flag sha256 user_id challenge_id instance_id raw now s
        ≡ write_rows user_id instance_id now
            (found_by user_id (find? (is_match sha256 challenge_id raw) s.flags) s)
            s
  unfolding submit_flag write
  submit_flag-found challenge_id instance_id raw now single user_there attempt_there =
      let found : Option ChallengeFlag = find? (is_match sha256 challenge_id raw) s.flags in
      let keyed =
        found-has_keys user_id instance_id (is_match sha256 challenge_id raw) s user_there
          attempt_there in
      rw (read-found challenge_id raw single, submit_flag) (rw (keyed, write) refl)

award-taken :
    (user_id instance_id now : ℕ) (flag : ChallengeFlag) (solves : List UserSolve)
    → is_taken user_id flag.flag_id (solves ++ (award user_id flag instance_id now ∷ [])) ≡ true
unfolding is_taken count
award-taken user_id instance_id now flag solves =
    let a : UserSolve = award user_id flag instance_id now in
    ground (arith, count-append (solved_by user_id flag.flag_id) solves (a ∷ []))

-- Writing what was just read: it does not fail, and keeps the flags. A flag that matched is in the
-- ledger afterwards.
write-found :
    (user_id instance_id now : ℕ) (s : Store) (found : Option ChallengeFlag)
    → (grade : Grade) × (points : ℕ) × (label : Option Text) × (s' : Store) × (write_rows user_id
          instance_id now
          (found_by user_id found s)
          s
        ≡ some (grade, points, label, s'))
      × (s'.flags ≡ s.flags)
      × (s'.user_ids ≡ s.user_ids)
      × (s'.instance_ids ≡ s.instance_ids)
      × ((found ≡ none) × (grade ≡ miss) × (label ≡ none)
          ⊎ ((flag : ChallengeFlag) × (found ≡ some flag)
              × (grade ≢ miss)
              × (label ≡ some flag.flag_name)
              × (is_taken user_id flag.flag_id s'.solves ≡ true)))
unfolding write_rows
write-found user_id instance_id now s none =
    (miss, 0, none, _, refl, refl, refl, refl, inl (refl, refl, refl))
write-found user_id instance_id now s (some flag) =
    elim (Bool-cases (is_taken user_id flag.flag_id s.solves)) [
      | inl taken ↦ rw taken (
        repeat,
        0,
        some flag.flag_name,
        _,
        refl,
        refl,
        refl,
        refl,
        inr (flag, refl, (λ e. cc e), refl, taken),
      )
      | inr free ↦ rw free (
        hit,
        flag.points,
        some flag.flag_name,
        _,
        refl,
        refl,
        refl,
        refl,
        inr (flag, refl, (λ e. cc e), refl, award-taken user_id instance_id now flag s.solves),
      )
    ]

-- A call whose flag is in the ledger, or that matches none, pays nothing.
write-again :
    (user_id instance_id now : ℕ) (s : Store) (found : Option ChallengeFlag) (grade : Grade)
    (label : Option Text)
    → ((found ≡ none) × (grade ≡ miss) × (label ≡ none)
        ⊎ ((flag : ChallengeFlag) × (found ≡ some flag)
            × (grade ≢ miss)
            × (label ≡ some flag.flag_name)
            × (is_taken user_id flag.flag_id s.solves ≡ true)))
    → (grade' : Grade) × (s' : Store) × (write_rows user_id instance_id now
          (found_by user_id found s)
          s
        ≡ some (grade', 0, label, s'))
      × (s'.solves ≡ s.solves)
      × ((grade ≡ miss) × (grade' ≡ miss) ⊎ ((grade ≢ miss) × (grade' ≡ repeat)))
unfolding write_rows
write-again user_id instance_id now s none grade label (inl (_, is_miss, no_label)) = (
  miss,
  log_attempt (log_of user_id instance_id no_flag) s,
  rw no_label refl,
  refl,
  inl (is_miss, refl),
)
write-again user_id instance_id now s none grade label (inr (flag, e, _, _, _)) = absurd (cc e)
write-again user_id instance_id now s (some flag) grade label (inl (e, _, _)) = absurd (cc e)
write-again user_id instance_id now s (some flag) grade label
      (inr (flag', e, other, named, taken)) =
    let same : flag ≡ flag' = some-injective e in
    let taken' : is_taken user_id flag.flag_id s.solves ≡ true = rw same taken in
    let named' : label ≡ some flag.flag_name = rw same named in
    (
      repeat,
      log_attempt (log_of user_id instance_id (matched flag true)) s,
      rw (taken', named') refl,
      refl,
      inr (other, refl),
    )

-- Two submissions of the same text to the same challenge by the same user, in attempts that are
-- there, where the user is there, no two active flags of the challenge have its hash and no flag is
-- paid twice: neither call fails, the second is worth no points and leaves the ledger alone, and it
-- is a miss exactly if the first was, else a repeat.
pub submit_flag-twice :
    (sha256 : Text → Text) (user_id challenge_id instance₁ instance₂ now₁ now₂ : ℕ) (raw : Text)
    (s : Store)
    → IsLedger s.solves
    → count (is_match sha256 challenge_id raw) s.flags ≤ 1
    → is_key_of s.user_ids user_id ≡ true
    → is_key_of s.instance_ids instance₁ ≡ true
    → is_key_of s.instance_ids instance₂ ≡ true
    → (grade grade' : Grade) × (points : ℕ) × (label : Option Text) × (s' s'' : Store)
      × (submit_flag sha256 user_id challenge_id instance₁ raw now₁ s
          ≡ some (grade, points, label, s'))
      × (submit_flag sha256 user_id challenge_id instance₂ raw now₂ s'
          ≡ some (grade', 0, label, s''))
      × (s''.solves ≡ s'.solves)
      × ((grade ≡ miss) × (grade' ≡ miss) ⊎ ((grade ≢ miss) × (grade' ≡ repeat)))
submit_flag-twice sha256 user_id challenge_id instance₁ instance₂ now₁ now₂ raw s ledger single
      user_there there₁ there₂ =
    let found : Option ChallengeFlag = find? (is_match sha256 challenge_id raw) s.flags in
    let (grade, points, label, s', first, flags, users, instances, why) =
      write-found user_id instance₁ now₁ s found in
    let ledger' : IsLedger s'.solves =
      write_rows-IsLedger user_id instance₁ now₁ (found_by user_id found s) s s' grade points label
        ledger first in
    let (grade', s'', second, same, how) =
      write-again user_id instance₂ now₂ s' found grade label why in
    (
      grade,
      grade',
      points,
      label,
      s',
      s'',
      submit_flag-found sha256 user_id s ledger challenge_id instance₁ raw now₁ single user_there
            there₁
          ∙ first,
      submit_flag-found sha256 user_id s' ledger' challenge_id instance₂ raw now₂ (rw flags single)
            (rw users user_there) (rw instances there₂)
          ∙ rw flags second,
      same,
      how,
    )
