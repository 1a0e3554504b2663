-- ===== src/Provisioner/Cards.antt =====
-- The network cards of a clone: _firewalled_nic and _firewall_nics of provisioner.py. A card's value
-- is text such as `virtio=AA:BB,bridge=vmbr0,tag=7`.
use itp2_group6_the_pond.Prelude.{
  ℕ, Bool, false, ◌&&◌, ◌||◌, not, Option, none, some, List, [], ◌∷◌, ◌++◌, map, Text, codes,
  Text_eq, ℕ_eq, ◌==◌, any, filter, if◌then◌else◌,
}
use itp2_group6_the_pond.Strings.{starts_with}

-- str.split(",")
abbrev pub put : ℕ → List Text → List Text
put c [] = (c ∷ []) ∷ []
put c (t ∷ ts) = (c ∷ t) ∷ ts

unfoldable pub split : Text → List Text
split [] = [] ∷ []
split (c ∷ cs) = let rest = split cs in if c == b',' then [] ∷ rest else put c rest

-- ",".join
unfoldable pub join : List Text → Text
join [] = []
join (t ∷ []) = t
join (t ∷ u ∷ us) = t ++ (b',' ∷ join (u ∷ us))

abbrev pub bridge : Text → Text
bridge vnet = codes "bridge=" ++ vnet

-- p.startswith(drop)
unfoldable pub is_dropped : Option Text → Text → Bool
is_dropped none p = starts_with (codes "firewall=") p
is_dropped (some vnet) p =
    starts_with (codes "firewall=") p
    || (starts_with (codes "bridge=") p
        || (starts_with (codes "tag=") p || starts_with (codes "trunks=") p))

abbrev pub bridges : Option Text → List Text
bridges none = []
bridges (some vnet) = bridge vnet ∷ []

-- _firewalled_nic: an empty `vnet` is like none, and the callers pass none or a name.
unfoldable pub firewalled_nic : Text → Option Text → Text
firewalled_nic value vnet = join (
    filter (λ p. not (is_dropped vnet p)) (split value)
    ++ (bridges vnet ++ (codes "firewall=1" ∷ [])))

unfoldable pub wrong_bridge : Option Text → List Text → Bool
wrong_bridge none parts = false
wrong_bridge (some vnet) parts =
    not (any (λ p. p == bridge vnet) parts)
    || any (λ p. starts_with (codes "tag=") p || starts_with (codes "trunks=") p) parts

unfoldable pub isolated_parts : Option Text → List Text → Bool
isolated_parts vnet parts =
    any (λ p. p == codes "firewall=1") parts && not (wrong_bridge vnet parts)

-- The test of a card that was read back: whether it is isolated.
unfoldable pub is_isolated : Option Text → Text → Bool
is_isolated vnet value = isolated_parts vnet (split value)

-- The configuration of a machine, as far as its cards: NIC_KEY_RE has chosen the items. `put` is
-- what the hypervisor makes of the values that it is sent; `none` is ProxmoxError.
unfoldable pub firewall_nics :
    (List (Text × Text) → List (Text × Text))
    → Option Text
    → List (Text × Text)
    → Option (List (Text × Text))
firewall_nics store vnet [] = none
firewall_nics store vnet (n ∷ ns) =
    let config =
      store (map (λ (item : Text × Text). (item.0, firewalled_nic item.1 vnet)) (n ∷ ns)) in
    if any (λ (item : Text × Text). not (is_isolated vnet item.1)) config then none else some config
