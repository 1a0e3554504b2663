-- ===== src/Scoring/Board/Sorting.antt =====
-- The sort of the leaderboards puts higher scores first and keeps the rows.
use native.Mathlib.Nat.{le_trans}
use itp2_group6_the_pond.Prelude.{
  ◌≤◌, ◌≡◌, refl, ◌∙◌, Bool, true, false, List, [], ◌∷◌, arith, count, All, All-map, Bool-cases,
  inl, inr,
}
use itp2_group6_the_pond.Scoring.Board.{Entry, less, insert, sort}

-- No row has a score above that of a row before it.
abbrev pub IsSorted : List Entry → Type 0
IsSorted [] = Unit {0}
IsSorted (x ∷ xs) = All (λ (y : Entry). y.score ≤ x.score) xs × IsSorted xs

less-score :
    (a b : Entry) → (less a b ≡ true → b.score ≤ a.score) × (less a b ≡ false → a.score ≤ b.score)
unfolding less
less-score a b = ground arith

All-insert {κ} :
    (P : Entry → Type κ) (x : Entry) (ys : List Entry) → P x → All P ys → All P (insert x ys)
unfolding insert
All-insert P x [] hx h = (hx, tt)
All-insert P x (y ∷ ys) hx h = elim (Bool-cases (less y x)) [
  | inl first ↦ rw first (h.0, All-insert P x ys hx h.1)
  | inr second ↦ rw second (hx, h)
]

insert-IsSorted : (x : Entry) (ys : List Entry) → IsSorted ys → IsSorted (insert x ys)
unfolding insert
insert-IsSorted x [] h = (tt, tt)
insert-IsSorted x (y ∷ ys) h = elim (Bool-cases (less y x)) [
  | inl first ↦ rw first (
    All-insert (λ z. z.score ≤ y.score) x ys ((less-score y x).0 first) h.0,
    insert-IsSorted x ys h.1,
  )
  | inr second ↦ rw second (
    (
      (less-score y x).1 second,
      All-map (λ z. z.score ≤ y.score) (λ z. z.score ≤ x.score)
          (λ z k. le_trans k ((less-score y x).1 second)) ys h.0,
    ),
    h,
  )
]

pub All-sort {κ} : (P : Entry → Type κ) (xs : List Entry) → All P xs → All P (sort xs)
unfolding sort
All-sort P [] h = tt
All-sort P (x ∷ xs) h = All-insert P x (sort xs) h.0 (All-sort P xs h.1)

pub sort-IsSorted : (xs : List Entry) → IsSorted (sort xs)
unfolding sort
sort-IsSorted [] = tt
sort-IsSorted (x ∷ xs) = insert-IsSorted x (sort xs) (sort-IsSorted xs)

count-insert :
    (p : Entry → Bool) (x : Entry) (ys : List Entry) → count p (insert x ys) ≡ count p (x ∷ ys)
unfolding insert count
count-insert p x [] = refl
count-insert p x (y ∷ ys) = ground (arith, count-insert p x ys)

count-cons :
    (p : Entry → Bool) (x : Entry) (ys zs : List Entry)
    → count p ys ≡ count p zs
    → count p (x ∷ ys) ≡ count p (x ∷ zs)
unfolding count
count-cons p x ys zs h = ground arith

-- Sorting neither adds nor loses rows.
pub count-sort : (p : Entry → Bool) (xs : List Entry) → count p (sort xs) ≡ count p xs
unfolding sort
count-sort p [] = refl
count-sort p (x ∷ xs) = count-insert p x (sort xs) ∙ count-cons p x (sort xs) xs (count-sort p xs)
