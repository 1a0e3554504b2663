-- ===== src/Networks/Names.antt =====
-- The names of the networks of sessions: _session_vnet_name of provisioner.py.
use mathlib.Core.List.{tail-eq_of_cons-eq}
use itp2_group6_the_pond.Prelude.{
  ℕ, zero, suc, ◌+◌, ◌-◌, ◌*◌, ◌/◌, ◌%◌, ◌≤◌, ◌<◌, ◌≡◌, ◌↔◌, ◌⊎◌, refl, sym, ap, ◌∙◌, inl, inr,
  Bool, true, ◌&&◌, none, some, [], ◌∷◌, ◌++◌, Text, leb, ltb, all, length, length-append,
  if◌then◌else◌, Bool-cases, some-injective, arith,
}
use itp2_group6_the_pond.Provisioner.{
  hex_digit, hex_from, hex, is_lower_or_digit, is_vnet_id, session_vnet_name,
}

-- The number that hexadecimal digits after the number `n` spell.
abbrev pub digit_value : ℕ → ℕ
digit_value c = if leb c 57 then c - 48 else c - 87

unfoldable pub value_after : ℕ → Text → ℕ
value_after n [] = n
value_after n (c ∷ cs) = value_after (16 * n + digit_value c) cs

value_after-append :
    (n : ℕ) (cs : Text) (d : ℕ)
    → value_after n (cs ++ (d ∷ [])) ≡ 16 * value_after n cs + digit_value d
unfolding value_after
value_after-append n [] d = refl
value_after-append n (c ∷ cs) d = value_after-append (16 * n + digit_value c) cs d

digit_value-hex_digit : (d : ℕ) → d < 16 → digit_value (hex_digit d) ≡ d
digit_value-hex_digit d h = ground arith

spelled : (v d n : ℕ) → v ≡ n / 16 → d ≡ n % 16 → 16 * v + d ≡ n
spelled v d n h k = omega arith

value_after-hex_from : (fuel n : ℕ) → n < fuel → value_after 0 (hex_from fuel n) ≡ n
unfolding value_after hex_from
value_after-hex_from zero n h = absurd (omega arith)
value_after-hex_from (suc fuel) n h = elim (Bool-cases (ltb n 16)) [
  | inl small ↦ let digit = digit_value-hex_digit n (ground arith) in rw small (omega arith)
  | inr large ↦ rw large (
      value_after-append 0 (hex_from fuel (n / 16)) (hex_digit (n % 16))
      ∙ spelled (value_after 0 (hex_from fuel (n / 16))) (digit_value (hex_digit (n % 16))) n
          (value_after-hex_from fuel (n / 16) (ground arith))
          (digit_value-hex_digit (n % 16) (omega arith)))
]

-- The number of a session can be read back from the name of its network, so that no two sessions
-- share a network.
pub session_vnet_name-value_after :
    (id c : ℕ) (cs : Text)
    → session_vnet_name id ≡ some (c ∷ cs)
    → (c ≡ b's') × (value_after 0 cs ≡ id)
unfolding session_vnet_name hex
session_vnet_name-value_after id c cs e = elim (Bool-cases (is_vnet_id (b's' ∷ hex id))) [
  | inr bad ↦ let no_name = rw (session_vnet_name, bad) at e in cc
  | inl good ↦
      let same : (b's' ∷ hex_from (suc id) id) ≡ (c ∷ cs) =
        some-injective (rw (session_vnet_name, good) at e) in
      (
        cc,
        ap (value_after 0) (tail-eq_of_cons-eq (sym same))
            ∙ value_after-hex_from (suc id) id (omega arith),
      )
]

all-append : (p : ℕ → Bool) (xs ys : Text) → all p (xs ++ ys) ≡ (all p xs && all p ys)
unfolding all
all-append p [] ys = refl
all-append p (x ∷ xs) ys = ground (arith, all-append p xs ys)

hex_digit-lower_or_digit : (d : ℕ) → d < 16 → is_lower_or_digit (hex_digit d) ≡ true
hex_digit-lower_or_digit d h = ground arith

pub all-hex_from : (fuel n : ℕ) → all is_lower_or_digit (hex_from fuel n) ≡ true
unfolding all hex_from
all-hex_from zero n = refl
all-hex_from (suc fuel) n = elim (Bool-cases (ltb n 16)) [
  | inl small ↦ rw small (rw (hex_digit-lower_or_digit n (ground arith)) refl)
  | inr large ↦ rw large (
      all-append is_lower_or_digit (hex_from fuel (n / 16)) (hex_digit (n % 16) ∷ [])
      ∙ (rw (all-hex_from fuel (n / 16), hex_digit-lower_or_digit (n % 16) (omega arith)) refl))
]

-- A power of 16.
pow16 : ℕ → ℕ
pow16 zero = 1
pow16 (suc k) = 16 * pow16 k

pow16-pos : (k : ℕ) → 1 ≤ pow16 k
unfolding pow16
pow16-pos zero = omega arith
pow16-pos (suc k) = omega (arith, pow16-pos k)

length-hex_from-pos : (fuel n : ℕ) → n < fuel → 1 ≤ length (hex_from fuel n)
unfolding hex_from
length-hex_from-pos zero n h = absurd (omega arith)
length-hex_from-pos (suc fuel) n h = elim (Bool-cases (ltb n 16)) [
  | inl small ↦ rw small (omega arith)
  | inr large ↦
      rw (large, length-append (hex_from fuel (n / 16)) (hex_digit (n % 16) ∷ [])) (omega arith)
]

length-hex_from :
    (fuel n k : ℕ) → n < fuel → (length (hex_from fuel n) ≤ suc k) ↔ (n < pow16 (suc k))
unfolding hex_from pow16
length-hex_from zero n k h = absurd (omega arith)
length-hex_from (suc fuel) n zero h = elim (Bool-cases (ltb n 16)) [
  | inl small ↦ rw small ((λ _. ground arith), (λ _. omega arith))
  | inr large ↦
      let some_digit = length-hex_from-pos fuel (n / 16) (ground arith) in
      rw (large, length-append (hex_from fuel (n / 16)) (hex_digit (n % 16) ∷ []))
        ((λ a. absurd (omega arith)), (λ b. absurd (ground arith)))
]
length-hex_from (suc fuel) n (suc k) h = elim (Bool-cases (ltb n 16)) [
  | inl small ↦ let p = pow16-pos k in rw small ((λ _. ground arith), (λ _. omega arith))
  | inr large ↦
      let shorter = length-hex_from fuel (n / 16) k (ground arith) in
      rw (large, length-append (hex_from fuel (n / 16)) (hex_digit (n % 16) ∷ []))
        (
          (λ a. let b = shorter.0 (omega arith) in omega arith),
          (λ b. let a = shorter.1 (omega arith) in omega arith),
        )
]

over_bound : (len id : ℕ) → (len ≤ 7) ↔ (id < 268435456) → 7 < len → 268435456 ≤ id
over_bound len id iff h = ground arith

-- A session has a network's name exactly if its number is below 16 to the 7th power.
pub session_vnet_name_lem :
    (id : ℕ)
    → (id < 268435456 × (session_vnet_name id ≡ some (b's' ∷ hex id)))
      ⊎ ((268435456 ≤ id) × (session_vnet_name id ≡ none))
unfolding session_vnet_name is_vnet_id hex pow16
session_vnet_name_lem id =
    let bound = length-hex_from (suc id) id 6 (omega arith) in
    let letters = all-hex_from (suc id) id in
    elim (Bool-cases (leb (length (hex_from (suc id) id)) 7)) [
      | inl short ↦ inl (bound.0 (ground arith), rw (letters, short) refl)
      | inr long ↦ inr (over_bound _ id bound (ground arith), rw (letters, long) refl)
    ]
