-- ===== src/Strings.antt =====
-- The methods of Python's `str` that the program uses, on lists of code points. `lower` is modelled
-- on ASCII, where it is exact.
pub mod Laws
use itp2_group6_the_pond.Prelude.{
  ℕ, zero, suc, ◌+◌, ◌-◌, ◌*◌, ◌/◌, ◌%◌, Bool, true, false, ◌&&◌, ◌||◌, not, Option, none, some,
  List, [], ◌∷◌, ◌++◌, map, filter, Text, ◌==◌, ℕ_eq, leb, if◌then◌else◌,
}

-- str.isspace of one character
unfoldable pub is_space : ℕ → Bool
is_space c =
    (leb 9 c && leb c 13)
    || (leb 28 c && leb c 32)
    || c == 0x85
    || c == 0xa0
    || c == 0x1680
    || (leb 0x2000 c && leb c 0x200a)
    || c == 0x2028
    || c == 0x2029
    || c == 0x202f
    || c == 0x205f
    || c == 0x3000

unfoldable pub lstrip : Text → Text
lstrip [] = []
lstrip (c ∷ cs) = let rest = lstrip cs in if is_space c then rest else c ∷ cs

-- A character in front of stripped text; blank text is stripped whole.
unfoldable pub cons_stripped : ℕ → Text → Text
cons_stripped c [] = if is_space c then [] else c ∷ []
cons_stripped c (d ∷ ds) = c ∷ d ∷ ds

unfoldable pub rstrip : Text → Text
unfolding cons_stripped
rstrip [] = []
rstrip (c ∷ cs) = cons_stripped c (rstrip cs)

-- str.strip()
unfoldable pub strip : Text → Text
unfolding lstrip rstrip is_space
strip t = rstrip (lstrip t)

abbrev pub lower_char : ℕ → ℕ
lower_char c = if leb b'A' c && leb c b'Z' then c + 32 else c

unfoldable pub lower : Text → Text
lower t = map lower_char t

unfoldable pub starts_with : Text → Text → Bool
starts_with [] t = true
starts_with (p ∷ ps) [] = false
starts_with (p ∷ ps) (c ∷ cs) = p == c && starts_with ps cs

-- needle in haystack
unfoldable pub contains : Text → Text → Bool
unfolding starts_with
contains needle [] = starts_with needle []
contains needle (c ∷ cs) = starts_with needle (c ∷ cs) || contains needle cs

-- str.partition of one character: what is in front of it, and what is after it if it is there.
unfoldable pub partition : ℕ → Text → Text × Option Text
partition sep [] = ([], none)
partition sep (c ∷ cs) =
    let rest = partition sep cs in if c == sep then ([], some cs) else (c ∷ rest.0, rest.1)

abbrev pub onto : ℕ → List Text → List Text
onto c [] = (c ∷ []) ∷ []
onto c (t ∷ ts) = (c ∷ t) ∷ ts

-- str.split of one character
unfoldable pub split_on : ℕ → Text → List Text
split_on sep [] = [] ∷ []
split_on sep (c ∷ cs) = let rest = split_on sep cs in if c == sep then [] ∷ rest else onto c rest

abbrev pub is_blank : Text → Bool
is_blank [] = true
is_blank (c ∷ cs) = false

-- [x.strip() for x in value.split(",") if x.strip()]
unfoldable pub comma_list : Text → List Text
comma_list value = filter (λ t. not (is_blank t)) (map strip (split_on b',' value))

-- One more character of a number: its value so far, and whether the last one was a digit. Between
-- two digits one underscore may stand.
unfoldable pub read_digit : ℕ × Bool → ℕ → Option (ℕ × Bool)
read_digit (n, after_digit) c =
    if leb b'0' c && leb c b'9'
    then some (n * 10 + (c - b'0'), true)
    else if after_digit && c == b'_'
    then some (n, false)
    else none

unfoldable pub read_digits : Option (ℕ × Bool) → Text → Option ℕ
read_digits none cs = none
read_digits (some (n, after_digit)) [] = if after_digit then some n else none
read_digits (some state) (c ∷ cs) = read_digits (read_digit state c) cs

abbrev pub drop_plus : Text → Text
drop_plus [] = []
drop_plus (c ∷ cs) = if c == b'+' then cs else c ∷ cs

-- int(t) of a text that has no minus sign, on the ASCII digits; `none` is ValueError.
unfoldable pub int_of : Text → Option ℕ
int_of t = read_digits (some (0, false)) (drop_plus (strip t))

-- The last n decimal digits of a number, without the zeros in front; n + 1 digits are enough for a
-- number n.
unfoldable pub digits_from : ℕ → ℕ → Text → Text
digits_from zero v rest = rest
digits_from (suc n) v rest =
    let digits = (b'0' + v % 10) ∷ rest in
    let more = digits_from n (v / 10) digits in if v / 10 == 0 then digits else more

-- str(v)
unfoldable pub decimal : ℕ → Text
decimal v = digits_from (suc v) v []
