-- ===== src/Trust/Ranges.antt =====
-- The list of protected machines in the settings of proxmox.py, as the ranges that it names.
use itp2_group6_the_pond.Prelude.{
  ℕ, zero, suc, ◌+◌, ◌-◌, ◌≡◌, refl, inl, inr, ap, ◌∙◌, Bool, false, ◌&&◌, ◌||◌, none, some, List,
  [], ◌∷◌, ◌++◌, Text, ◌==◌, ℕ_eq, any, leb, ltb, arith, some-injective, Option-cases,
}
use itp2_group6_the_pond.Strings.{comma_list}
use itp2_group6_the_pond.Provisioner.{is_in}
use itp2_group6_the_pond.Proxmox.{
  range_from, ends_of, vmids_between, protected_parts, read_protected,
}

-- Whether the id is in the range that a part names.
unfoldable pub covers : ℕ → Text → Bool
covers v part = elim (ends_of part) [ none ↦ false | some (low, high) ↦ leb low v && leb v high ]

any-append : (p : ℕ → Bool) (xs ys : List ℕ) → any p (xs ++ ys) ≡ any p xs || any p ys
unfolding any
any-append p [] ys = refl
any-append p (x ∷ xs) ys = ground (arith, any-append p xs ys)

is_in-range_from : (v low n : ℕ) → is_in v (range_from low n) ≡ leb low v && ltb v (low + n)
unfolding any range_from
is_in-range_from v low zero = ground arith
is_in-range_from v low (suc n) = ground (arith, is_in-range_from v (suc low) n)

is_in-vmids_between :
    (v low high : ℕ) → is_in v (vmids_between (low, high)) ≡ leb low v && leb v high
is_in-vmids_between v low high = ground (arith, is_in-range_from v low (suc high - low))

protected_parts-covers :
    (v : ℕ) (parts : List Text) (vmids : List ℕ)
    → protected_parts parts ≡ some vmids
    → is_in v vmids ≡ any (covers v) parts
unfolding protected_parts any covers
protected_parts-covers v [] vmids h = let same : [] ≡ vmids = some-injective h in rw (← same) refl
protected_parts-covers v (part ∷ parts) vmids h = elim (Option-cases (ends_of part)) [
  | inl bad ↦ let no_list = rw (protected_parts, bad) at h in cc
  | inr ((low, high), ends) ↦ elim (Option-cases (protected_parts parts)) [
    | inl bad ↦ let no_list = rw (protected_parts, ends, bad) at h in cc
    | inr (rest, more) ↦
        let same : vmids_between (low, high) ++ rest ≡ vmids =
          some-injective (rw (protected_parts, ends, more) at h) in
        rw (← same, any, covers, ends)
          (any-append (λ u. u == v) (vmids_between (low, high)) rest
            ∙ (ap (λ b. b || is_in v rest) (is_in-vmids_between v low high)
                ∙ ap (λ b. (leb low v && leb v high) || b)
                    (protected_parts-covers v parts rest more)))
  ]
]

-- An id is protected just if one of the parts of the setting is a number or a range that it is in.
pub read_protected-covers :
    (v : ℕ) (spec : Text) (vmids : List ℕ)
    → read_protected spec ≡ some vmids
    → is_in v vmids ≡ any (covers v) (comma_list spec)
unfolding read_protected
read_protected-covers v spec vmids h = protected_parts-covers v (comma_list spec) vmids h
