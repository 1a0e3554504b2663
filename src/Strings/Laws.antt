-- ===== src/Strings/Laws.antt =====
-- Facts about the string methods.
use itp2_group6_the_pond.Prelude.{◌≡◌, refl, [], ◌∷◌, Text, ℕ, arith}
use itp2_group6_the_pond.Strings.{lower, lower_char}

pub lower_idem : (t : Text) → lower (lower t) ≡ lower t
unfolding lower
lower_idem [] = refl
lower_idem (c ∷ cs) = cc (lower_char_idem c, lower_idem cs)
  where
    lower_char_idem : (c : ℕ) → lower_char (lower_char c) ≡ lower_char c
    lower_char_idem c = ground arith
