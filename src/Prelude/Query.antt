-- ===== src/Prelude/Query.antt =====
-- SQLAlchemy's one_or_none: a query's only row, none, or an exception.
use Prim.Native.Nat.{◌≤◌}
use mathlib.Core.Path.{◌≡◌, refl}
use mathlib.Core.Logic.{inl, inr}
use mathlib.Core.Bool.{Bool}
use mathlib.Core.List.{List, [], ◌∷◌}
use mathlib.Core.Option.{Option, none, some}
use native.Mathlib.Omega.{arith}
use itp2_group6_the_pond.Prelude.Tests.{Bool-cases}
use itp2_group6_the_pond.Prelude.Lists.{filter, filter-none, count, find?}

-- The outer `none` is MultipleResultsFound.
unfoldable pub one_or_none {ℓ} : {A : Type ℓ} → List A → Option (Option A)
one_or_none [] = some none
one_or_none (x ∷ []) = some (some x)
one_or_none (x ∷ y ∷ rest) = none

pub one_or_none-filter {ℓ} :
    {A : Type ℓ} (p : A → Bool) (xs : List A)
    → count p xs ≤ 1
    → one_or_none (filter p xs) ≡ some (find? p xs)
unfolding one_or_none filter count find?
one_or_none-filter p [] h = refl
one_or_none-filter p (x ∷ xs) h = elim (Bool-cases (p x)) [
  | inl here ↦ rw (here, filter-none p xs (ground arith))
  | inr there ↦ rw there (one_or_none-filter p xs (ground arith))
]
