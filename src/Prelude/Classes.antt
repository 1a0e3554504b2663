-- ===== src/Prelude/Classes.antt =====
-- Equality as an interface, with its instances, and text as a list of code points.
use Prim.Native.Nat.{ℕ}
use Prim.Native.Char.{code}
use Prim.Native.String.{String}
use mathlib.Core.Path.{◌≡◌, refl}
use mathlib.Core.Logic.{◌↔◌}
use mathlib.Core.Bool.{Bool, true, false, not, ◌&&◌}
use mathlib.Core.List.{List, [], ◌∷◌}
use native.Mathlib.Omega.{arith}
use text.Mathlib.Text.{◌==◌ as str_eq}
use text.Mathlib.TextEquality.{eq_iff}
use itp2_group6_the_pond.Prelude.Tests.{nat_eq, nat_eq_iff}

-- The comparison of two values, and that it decides their equality.
pub record Eq {ℓ} (Value : Type ℓ) : Type ℓ where
  pub is_same : Value → Value → Bool
  pub is_same_iff : (v w : Value) → (is_same v w ≡ true) ↔ (v ≡ w)

infix 50 ◌==◌
abbrev pub ◌==◌ {ℓ} : {Value : Type ℓ} ⦃eq : Eq Value⦄ (v w : Value) → Bool
◌==◌ ⦃eq⦄ v w = eq.is_same v w

instance abbrev pub ℕ_eq : Eq ℕ
ℕ_eq = record { is_same = nat_eq; is_same_iff = nat_eq_iff }

instance abbrev pub String_eq : Eq String
String_eq = record { is_same = str_eq; is_same_iff = eq_iff }

abbrev pub bool_eq : Bool → Bool → Bool
bool_eq true b = b
bool_eq false b = not b

pub bool_eq_iff : (b c : Bool) → (bool_eq b c ≡ true) ↔ (b ≡ c)
bool_eq_iff true true = ground arith
bool_eq_iff true false = ground arith
bool_eq_iff false true = ground arith
bool_eq_iff false false = ground arith

instance abbrev pub Bool_eq : Eq Bool
Bool_eq = record { is_same = bool_eq; is_same_iff = bool_eq_iff }

-- Text that the program walks or measures.
abbrev pub Text : Type 0
Text = List ℕ

abbrev pub codes : String → Text
codes String.[] = []
codes (String.◌∷◌ c s) = code c ∷ codes s

unfoldable pub text_eq : Text → Text → Bool
text_eq [] [] = true
text_eq (x ∷ xs) (y ∷ ys) = nat_eq x y && text_eq xs ys
text_eq _ _ = false

text_eq_sound : (xs ys : Text) → text_eq xs ys ≡ true → xs ≡ ys
unfolding text_eq
text_eq_sound [] [] h = refl
text_eq_sound [] (y ∷ ys) h = cc
text_eq_sound (x ∷ xs) [] h = cc
text_eq_sound (x ∷ xs) (y ∷ ys) h = ground (arith, text_eq_sound xs ys)

pub text_eq_refl : (xs : Text) → text_eq xs xs ≡ true
unfolding text_eq
text_eq_refl [] = refl
text_eq_refl (x ∷ xs) = ground (arith, text_eq_refl xs)

text_eq_complete : (xs ys : Text) → xs ≡ ys → text_eq xs ys ≡ true
text_eq_complete xs ys e = rw (← e) (text_eq_refl xs)

pub text_eq_iff : (xs ys : Text) → (text_eq xs ys ≡ true) ↔ (xs ≡ ys)
text_eq_iff xs ys = (text_eq_sound xs ys, text_eq_complete xs ys)

instance abbrev pub Text_eq : Eq Text
Text_eq = record { is_same = text_eq; is_same_iff = text_eq_iff }
