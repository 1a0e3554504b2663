-- ===== src/Scoring/Board/Ranking.antt =====
-- The ranks that scoring.py gives: one more than the number of higher scores.
use itp2_group6_the_pond.Prelude.{
  ℕ, suc, zero, ◌+◌, ◌≤◌, ◌<◌, ◌≡◌, refl, ◌∙◌, ap, Bool, true, false, Option, none, some, List, [],
  ◌∷◌, arith, count, All, All-map, length, take, ltb, Bool-cases, inl, inr, ◌⊎◌,
}
use itp2_group6_the_pond.Scoring.Board.{Entry, time_eq, ranked_from, ranked}
use itp2_group6_the_pond.Scoring.Board.Sorting.{IsSorted}

abbrev pub is_higher : ℕ → Entry → Bool
is_higher points e = ltb points e.score

count-higher_none :
    (p : ℕ) (xs : List Entry) → All (λ (e : Entry). e.score ≤ p) xs → count (is_higher p) xs ≡ 0
unfolding count
count-higher_none p [] h = refl
count-higher_none p (x ∷ xs) h = ground (arith, count-higher_none p xs h.1)

count-higher-All :
    (p q : ℕ) (xs : List Entry)
    → q < p
    → All (λ (e : Entry). p ≤ e.score) xs
    → count (is_higher q) xs ≡ length xs
unfolding count
count-higher-All p q [] lt h = refl
count-higher-All p q (x ∷ xs) lt h = ground (arith, count-higher-All p q xs lt h.1)

-- The rows in front of the loop, newest first, and the rows that are left.
record IsRanking (position : ℕ) (previous : Option ℕ) (rank : ℕ) (front rows : List Entry)
    : Type 0 where
  placed : position ≡ 1 + length front
  started :
      ((previous ≡ none) × (front ≡ []))
      ⊎ ((p : ℕ) × (previous ≡ some p)
          × (rank ≡ 1 + count (is_higher p) front)
          × All (λ (e : Entry). p ≤ e.score) front
          × All (λ (e : Entry). e.score ≤ p) rows)

-- A rank that counts the higher scores in front and among the rows.
abbrev pub Ranks : List Entry → List Entry → Entry × ℕ → Type 0
Ranks front rows (row, rank) =
    rank ≡ 1 + (count (is_higher row.score) front + count (is_higher row.score) rows)

Ranks-shift :
    (row : Entry) (front rows : List Entry) (e : Entry × ℕ)
    → Ranks (row ∷ front) rows e
    → Ranks front (row ∷ rows) e
unfolding count
Ranks-shift row front rows e h = ground arith

module _ (position : ℕ) (previous : Option ℕ) (rank : ℕ) (front : List Entry) (row : Entry)
    (rows : List Entry) (sorted : IsSorted (row ∷ rows))
    (h : IsRanking position previous rank front (row ∷ rows)) where
  none_higher : count (is_higher row.score) (row ∷ rows) ≡ 0
  none_higher = count-higher_none row.score (row ∷ rows) (omega arith, sorted.0)

  -- The rank that the loop gives to the row, and what it knows of the rows in front.
  abbrev Facts : ℕ → Type 0
  Facts given =
      (given ≡ 1 + count (is_higher row.score) front)
      × All (λ (e : Entry). row.score ≤ e.score) front

  tie-Facts : time_eq previous (some row.score) ≡ true → Facts rank
  unfolding time_eq
  tie-Facts tie = elim h.started [
    | inl (start, _) ↦ absurd (ground arith)
    | inr (p, there, counted, above, below) ↦
        let same : p ≡ row.score = ground arith in (rw (← same) counted, rw (← same) above)
  ]

  fresh-Facts : time_eq previous (some row.score) ≡ false → Facts position
  unfolding time_eq count
  fresh-Facts fresh = elim h.started [
    | inl (_, start) ↦
        (rw start (h.placed ∙ ap (λ (l : List Entry). 1 + length l) start), rw start tt)
    | inr (p, there, counted, above, below) ↦
        let lower : row.score < p = ground arith in
        (
          omega (arith, h.placed, count-higher-All p row.score front lower above),
          All-map (λ (e : Entry). p ≤ e.score) (λ (e : Entry). row.score ≤ e.score)
              (λ e k. omega arith) front above,
        )
  ]

  -- The rank is right, and the loop goes on with the row in front.
  step-Ranks : (given : ℕ) → Facts given → Ranks front (row ∷ rows) (row, given)
  step-Ranks given facts = omega (arith, none_higher, facts.0)

  step-IsRanking :
      (given : ℕ) (before : Option ℕ)
      → before ≡ some row.score
      → Facts given
      → IsRanking (suc position) before given (row ∷ front) rows
  unfolding count
  step-IsRanking given before same facts = record {
    placed = omega (arith, h.placed);
    started = inr (row.score, same, ground (arith, facts.0), (omega arith, facts.1), sorted.0);
  }

time_eq-some : (o : Option ℕ) (n : ℕ) → time_eq o (some n) ≡ true → o ≡ some n
unfolding time_eq
time_eq-some none n h = cc
time_eq-some (some m) n h = ground arith

ranked_from-Ranks :
    (position : ℕ) (previous : Option ℕ) (rank : ℕ) (front rows : List Entry)
    → IsSorted rows
    → IsRanking position previous rank front rows
    → All (Ranks front rows) (ranked_from position previous rank rows)
unfolding ranked_from
ranked_from-Ranks position previous rank front [] sorted h = tt
ranked_from-Ranks position previous rank front (row ∷ rows) sorted h =
    elim (Bool-cases (time_eq previous (some row.score))) [
      | inl tie ↦
          let facts = tie-Facts position previous rank front row rows sorted h tie in
          rw tie (
            step-Ranks position previous rank front row rows sorted h rank facts,
            All-map (Ranks (row ∷ front) rows) (Ranks front (row ∷ rows))
                (Ranks-shift row front rows) _
                (ranked_from-Ranks (suc position) previous rank (row ∷ front) rows sorted.1 (
                  step-IsRanking position previous rank front row rows sorted h rank previous
                    (time_eq-some previous row.score tie) facts)),
          )
      | inr fresh ↦
          let facts = fresh-Facts position previous rank front row rows sorted h fresh in
          rw fresh (
            step-Ranks position previous rank front row rows sorted h position facts,
            All-map (Ranks (row ∷ front) rows) (Ranks front (row ∷ rows))
                (Ranks-shift row front rows) _
                (ranked_from-Ranks (suc position) (some row.score) position (row ∷ front) rows
                  sorted.1
                  (step-IsRanking position previous rank front row rows sorted h position
                    (some row.score) refl facts)),
          )
    ]

-- On sorted rows, each row's rank is one more than the number of rows with a higher score.
pub ranked-Ranks : (rows : List Entry) → IsSorted rows → All (Ranks [] rows) (ranked rows)
unfolding ranked
ranked-Ranks rows sorted =
    ranked_from-Ranks 1 none 0 [] rows sorted
      (record { placed = omega arith; started = inl (refl, refl) })

pub All-take {ℓ κ} :
    {A : Type ℓ} → (P : A → Type κ) (n : ℕ) (xs : List A) → All P xs → All P (take n xs)
All-take P zero xs h = tt
All-take P (suc n) [] h = tt
All-take P (suc n) (x ∷ xs) h = (h.0, All-take P n xs h.1)

pub take-IsSorted : (n : ℕ) (xs : List Entry) → IsSorted xs → IsSorted (take n xs)
take-IsSorted zero xs h = tt
take-IsSorted (suc n) [] h = tt
take-IsSorted (suc n) (x ∷ xs) h =
    (All-take (λ (y : Entry). y.score ≤ x.score) n xs h.0, take-IsSorted n xs h.1)

-- A row of the first n has all its higher rows among the first n.
abbrev pub Within : ℕ → List Entry → Entry → Type 0
Within n xs row = count (is_higher row.score) (take n xs) ≡ count (is_higher row.score) xs

pub take-Within : (n : ℕ) (xs : List Entry) → IsSorted xs → All (Within n xs) (take n xs)
unfolding count
take-Within zero xs h = tt
take-Within (suc n) [] h = tt
take-Within (suc n) (x ∷ xs) h = (
  ground (
    arith,
    count-higher_none x.score xs h.0,
    count-higher_none x.score (take n xs) (All-take (λ (y : Entry). y.score ≤ x.score) n xs h.0),
  ),
  All-map (Within n xs) (Within (suc n) (x ∷ xs)) (λ row k. ground (arith, k)) (take n xs)
      (take-Within n xs h.1),
)
