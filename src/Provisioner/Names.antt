-- ===== src/Provisioner/Names.antt =====
-- The network of a session: _session_vnet_name of provisioner.py.
use itp2_group6_the_pond.Prelude.{
  ℕ, zero, suc, ◌+◌, ◌/◌, ◌%◌, Bool, false, ◌&&◌, ◌||◌, Option, none, some, [], ◌∷◌, ◌++◌, Text,
  leb, ltb, all, length, if◌then◌else◌,
}

-- A digit of format(n, "x").
abbrev pub hex_digit : ℕ → ℕ
hex_digit d = if ltb d 10 then b'0' + d else 87 + d

-- The digits, on fuel: a number has fewer than it is itself plus one.
unfoldable pub hex_from : ℕ → ℕ → Text
hex_from zero n = []
hex_from (suc fuel) n =
    let rest = hex_from fuel (n / 16) in
    if ltb n 16 then hex_digit n ∷ [] else rest ++ (hex_digit (n % 16) ∷ [])

-- format(n, "x")
unfoldable pub hex : ℕ → Text
hex n = hex_from (suc n) n

abbrev pub is_lower : ℕ → Bool
is_lower c = leb b'a' c && leb c b'z'

abbrev pub is_digit : ℕ → Bool
is_digit c = leb b'0' c && leb c b'9'

abbrev pub is_lower_or_digit : ℕ → Bool
is_lower_or_digit c = is_lower c || is_digit c

-- VNET_ID_RE, on text without a line break
unfoldable pub is_vnet_id : Text → Bool
is_vnet_id [] = false
is_vnet_id (c ∷ cs) = is_lower c && (all is_lower_or_digit cs && leb (length cs) 7)

-- _session_vnet_name: `none` is ValueError.
unfoldable pub session_vnet_name : ℕ → Option Text
session_vnet_name id = let name = b's' ∷ hex id in if is_vnet_id name then some name else none
