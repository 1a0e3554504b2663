-- ===== src/Prelude/Dict.antt =====
-- A `dict` as the list of its items.
use mathlib.Core.Path.{◌≡◌, subst}
use mathlib.Core.Logic.{inl, inr}
use mathlib.Core.Option.{Option, none, some}
use mathlib.Core.List.{List, [], ◌∷◌}
use itp2_group6_the_pond.Prelude.Tests.{if◌then◌else◌, Bool-cases, some-injective}
use itp2_group6_the_pond.Prelude.Lists.{All}
use itp2_group6_the_pond.Prelude.Classes.{Eq, ◌==◌}

module _ {ℓ κ} {K : Type ℓ} {V : Type κ} ⦃e : Eq K⦄ where
  unfoldable pub lookup : K → List (K × V) → Option V
  lookup k [] = none
  lookup k ((j, v) ∷ d) = let rest = lookup k d in if k == j then some v else rest

  -- What holds of every value holds of the one that is found.
  pub All-lookup {μ} :
      (P : V → Type μ) (k : K) (d : List (K × V)) (v : V)
      → All (λ (item : K × V). P item.1) d
      → lookup k d ≡ some v
      → P v
  unfolding lookup
  All-lookup P k [] v h found = cc
  All-lookup P k ((j, w) ∷ d) v h found = elim (Bool-cases (k == j)) [
    | inl here ↦ subst P (some-injective (rw here at found)) h.0
    | inr there ↦ All-lookup P k d v h.1 (rw there at found)
  ]

abbrev pub get_or_default {ℓ} : {A : Type ℓ} → A → Option A → A
get_or_default d none = d
get_or_default d (some a) = a
