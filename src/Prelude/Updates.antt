-- ===== src/Prelude/Updates.antt =====
-- Lists after the change of an element.
use Prim.Native.Nat.{◌+◌}
use mathlib.Core.Path.{◌≡◌, refl}
use mathlib.Core.Logic.{inl, inr}
use mathlib.Core.Bool.{Bool, true, false}
use mathlib.Core.List.{List, [], ◌∷◌}
use mathlib.Core.Option.{some}
use native.Mathlib.Omega.{arith}
use itp2_group6_the_pond.Prelude.Tests.{if◌then◌else◌, Bool-cases}
use itp2_group6_the_pond.Prelude.Lists.{All, count, find?, update_first}

module _ {ℓ} {A : Type ℓ} where
  -- A count after the change of one element.
  pub count-update_first :
      (q p : A → Bool) (f : A → A) (xs : List A) (a : A)
      → find? p xs ≡ some a
      → count q (update_first p f xs) + (if q a then 1 else 0)
        ≡ count q xs + (if q (f a) then 1 else 0)
  unfolding count update_first find?
  count-update_first q p f [] a h = cc
  count-update_first q p f (x ∷ xs) a h = elim (Bool-cases (p x)) [
    | inl here ↦ let same : x ≡ a = ground arith in rw (here, ← same) (ground arith)
    | inr there ↦ rw there (ground (arith, count-update_first q p f xs a (rw there at h)))
  ]

  -- A change to the elements that a test rejects before and after keeps its count.
  pub count-update_first_same :
      (q p : A → Bool) (f : A → A) (xs : List A)
      → ((x : A) → p x ≡ true → q (f x) ≡ q x)
      → count q (update_first p f xs) ≡ count q xs
  unfolding count update_first
  count-update_first_same q p f [] h = refl
  count-update_first_same q p f (x ∷ xs) h = ground (arith, h x, count-update_first_same q p f xs h)

  -- Two changes of the element that a test finds are one.
  pub update_first-update_first :
      (p : A → Bool) (f g : A → A) (xs : List A)
      → ((x : A) → p (f x) ≡ p x)
      → update_first p g (update_first p f xs) ≡ update_first p (λ x. g (f x)) xs
  unfolding update_first
  update_first-update_first p f g [] keeps = refl
  update_first-update_first p f g (x ∷ xs) keeps =
      ground (arith, keeps x, update_first-update_first p f g xs keeps)

  pub find?-update_first :
      (p : A → Bool) (f : A → A) (xs : List A) (a : A)
      → find? p xs ≡ some a
      → p (f a) ≡ true
      → find? p (update_first p f xs) ≡ some (f a)
  unfolding find? update_first
  find?-update_first p f [] a h keeps = cc
  find?-update_first p f (x ∷ xs) a h keeps = elim (Bool-cases (p x)) [
    | inl here ↦ let same : x ≡ a = ground arith in rw (here, same) (rw keeps refl)
    | inr there ↦ rw (there, there) (find?-update_first p f xs a (rw there at h) keeps)
  ]

  -- A change of the element that one test finds, for a test that rejects it before and after.
  pub find?-update_first_other :
      (q p : A → Bool) (f : A → A)
      → ((x : A) → p x ≡ true → (q x ≡ false) × (q (f x) ≡ false))
      → (xs : List A) → find? q (update_first p f xs) ≡ find? q xs
  unfolding find? update_first
  find?-update_first_other q p f apart [] = refl
  find?-update_first_other q p f apart (x ∷ xs) =
      ground (arith, apart x, find?-update_first_other q p f apart xs)

  -- A predicate that one change keeps, where the changed element is the one that is found.
  pub All-update_first {κ} :
      (P : A → Type κ) (p : A → Bool) (f : A → A) (xs : List A) (a : A)
      → find? p xs ≡ some a
      → P (f a)
      → All P xs
      → All P (update_first p f xs)
  unfolding find? update_first
  All-update_first P p f [] a h new old = tt
  All-update_first P p f (x ∷ xs) a h new old = elim (Bool-cases (p x)) [
    | inl here ↦ let same : x ≡ a = ground arith in rw (here, same) (new, old.1)
    | inr there ↦ rw there (old.0, All-update_first P p f xs a (rw there at h) new old.1)
  ]
