-- ===== src/Networks/Cards.antt =====
-- The rewritten network cards of a clone: _firewalled_nic and _firewall_nics of provisioner.py.
use mathlib.Core.Path.{subst}
use mathlib.Core.List.{append_assoc}
use itp2_group6_the_pond.Prelude.{
  ℕ, suc, ◌≡◌, refl, sym, ap, ◌∙◌, inl, inr, Bool, true, false, ◌||◌, not, Option, none, some, List,
  [], ◌∷◌, ◌++◌, map, Text, codes, Text_eq, text_eq, text_eq_refl, ℕ_eq, ◌==◌, any, all, filter,
  All, All-filter, All-append, Bool-cases, some-injective, arith,
}
use itp2_group6_the_pond.Strings.{starts_with}
use itp2_group6_the_pond.Provisioner.{
  put, split, join, bridge, bridges, is_dropped, firewalled_nic, wrong_bridge, isolated_parts,
  is_isolated, firewall_nics, hex, hex_from, is_lower_or_digit, is_vnet_id, session_vnet_name,
}
use itp2_group6_the_pond.Networks.Names.{all-hex_from}

-- Text without a comma.
abbrev pub no_comma : Text → Bool
no_comma t = all (λ c. not (c == b',')) t

abbrev IsPlain : Text → Type 0
IsPlain t = no_comma t ≡ true

put-IsPlain :
    (c : ℕ) (ts : List Text) → (c == b',') ≡ false → All IsPlain ts → All IsPlain (put c ts)
unfolding all
put-IsPlain c [] h _ = (rw h refl, tt)
put-IsPlain c (t ∷ ts) h plain = (rw (h, plain.0) refl, plain.1)

split-IsPlain : (t : Text) → All IsPlain (split t)
unfolding split all
split-IsPlain [] = (refl, tt)
split-IsPlain (c ∷ cs) = elim (Bool-cases (c == b',')) [
  | inl comma ↦ rw comma (refl, split-IsPlain cs)
  | inr other ↦ rw other (put-IsPlain c (split cs) other (split-IsPlain cs))
]

-- Split text without a comma is that text, alone or before a comma.
split-plain : (t : Text) → IsPlain t → split t ≡ t ∷ []
unfolding split all
split-plain [] h = refl
split-plain (c ∷ cs) h = elim (Bool-cases (c == b',')) [
  | inl comma ↦ let bad = rw (all, comma) at h in cc
  | inr other ↦ rw (other, split-plain cs (rw (all, other) at h)) refl
]

split-comma : (t rest : Text) → IsPlain t → split (t ++ (b',' ∷ rest)) ≡ t ∷ split rest
unfolding split all
split-comma [] rest h = refl
split-comma (c ∷ cs) rest h = elim (Bool-cases (c == b',')) [
  | inl comma ↦ let bad = rw (all, comma) at h in cc
  | inr other ↦ rw (other, split-comma cs rest (rw (all, other) at h)) refl
]

split-join : (t : Text) (ts : List Text) → All IsPlain (t ∷ ts) → split (join (t ∷ ts)) ≡ t ∷ ts
unfolding join
split-join t [] plain = split-plain t plain.0
split-join t (u ∷ us) plain =
    split-comma t (join (u ∷ us)) plain.0 ∙ ap (◌∷◌ t) (split-join u us plain.1)

split-join_append :
    (ts : List Text) (t : Text)
    → All IsPlain (ts ++ (t ∷ []))
    → split (join (ts ++ (t ∷ []))) ≡ ts ++ (t ∷ [])
split-join_append [] t plain = split-join t [] plain
split-join_append (u ∷ us) t plain = split-join u (us ++ (t ∷ [])) plain

bridges-IsPlain :
    (vnet : Option Text)
    → All IsPlain (bridges vnet)
    → All IsPlain (bridges vnet ++ (codes "firewall=1" ∷ []))
unfolding all
bridges-IsPlain vnet plain =
    All-append IsPlain (bridges vnet) (codes "firewall=1" ∷ []) plain (refl, tt)

-- The parts of a rewritten card: those that were not dropped, then the bridge and the firewall.
firewalled_nic-split :
    (value : Text) (vnet : Option Text)
    → All IsPlain (bridges vnet)
    → split (firewalled_nic value vnet)
      ≡ filter (λ p. not (is_dropped vnet p)) (split value)
        ++ (bridges vnet ++ (codes "firewall=1" ∷ []))
unfolding firewalled_nic
firewalled_nic-split value vnet plain =
    let kept = filter (λ p. not (is_dropped vnet p)) (split value) in
    let assoc : kept ++ (bridges vnet ++ (codes "firewall=1" ∷ []))
        ≡ (kept ++ bridges vnet) ++ (codes "firewall=1" ∷ []) =
      sym (append_assoc kept (bridges vnet) (codes "firewall=1" ∷ [])) in
    let all_plain =
      All-append IsPlain kept (bridges vnet ++ (codes "firewall=1" ∷ []))
        (All-filter IsPlain (λ p. not (is_dropped vnet p)) (split value) (split-IsPlain value))
        (bridges-IsPlain vnet plain) in
    ap (λ ts. split (join ts)) assoc
    ∙ (split-join_append (kept ++ bridges vnet) (codes "firewall=1")
          (subst (All IsPlain) assoc all_plain)
        ∙ sym assoc)

any-append : (p : Text → Bool) (xs ys : List Text) → any p (xs ++ ys) ≡ (any p xs || any p ys)
unfolding any
any-append p [] ys = refl
any-append p (x ∷ xs) ys = ground (arith, any-append p xs ys)

-- No part that is kept passes a test that only dropped parts pass.
any-kept :
    (p q : Text → Bool)
    → ((t : Text) → p t ≡ true → q t ≡ true)
    → (xs : List Text) → any p (filter (λ t. not (q t)) xs) ≡ false
unfolding any filter
any-kept p q h [] = refl
any-kept p q h (x ∷ xs) = ground (arith, h x, any-kept p q h xs)

tag_dropped :
    (vnet p : Text)
    → (starts_with (codes "tag=") p || starts_with (codes "trunks=") p) ≡ true
    → is_dropped (some vnet) p ≡ true
unfolding is_dropped
tag_dropped vnet p h = ground arith

any_last : (p : Text → Bool) (xs ys : List Text) → any p ys ≡ true → any p (xs ++ ys) ≡ true
any_last p xs ys h = let e = any-append p xs ys in ground (arith)

-- The parts of a rewritten card are isolated.
parts_isolated :
    (parts : List Text) (vnet : Option Text)
    → isolated_parts vnet
        (filter (λ p. not (is_dropped vnet p)) parts ++ (bridges vnet ++ (codes "firewall=1" ∷ [])))
      ≡ true
unfolding isolated_parts wrong_bridge any starts_with text_eq
parts_isolated parts none =
    let kept = filter (λ p. not (is_dropped none p)) parts in
    let fw = any_last (λ p. p == codes "firewall=1") kept (codes "firewall=1" ∷ []) refl in
    rw fw refl
parts_isolated parts (some vnet) =
    let kept = filter (λ p. not (is_dropped (some vnet) p)) parts in
    let last : List Text = bridge vnet ∷ codes "firewall=1" ∷ [] in
    let is_tag : Text → Bool =
      λ p. starts_with (codes "tag=") p || starts_with (codes "trunks=") p in
    let fw = any_last (λ p. p == codes "firewall=1") kept last refl in
    let br = any_last (λ p. p == bridge vnet) kept last (rw (text_eq_refl (bridge vnet)) refl) in
    let tg : any is_tag (kept ++ last) ≡ false =
      any-append is_tag kept last
      ∙ rw (any-kept is_tag (is_dropped (some vnet)) (tag_dropped vnet) parts) refl in
    rw (fw, br, tg) refl

-- A rewritten card passes the test of the card that is read back, if the network's name has no
-- comma.
pub firewalled_nic-is_isolated :
    (value : Text) (vnet : Option Text)
    → All IsPlain (bridges vnet)
    → is_isolated vnet (firewalled_nic value vnet) ≡ true
unfolding is_isolated
firewalled_nic-is_isolated value vnet plain =
    rw (firewalled_nic-split value vnet plain) (parts_isolated (split value) vnet)

lower_or_digit-IsPlain : (t : Text) → all is_lower_or_digit t ≡ true → IsPlain t
unfolding all
lower_or_digit-IsPlain [] h = refl
lower_or_digit-IsPlain (c ∷ cs) h = ground (arith, lower_or_digit-IsPlain cs)

-- The name of a session's network has no comma.
session_vnet_name-IsPlain : (id : ℕ) (vnet : Text) → session_vnet_name id ≡ some vnet → IsPlain vnet
unfolding session_vnet_name hex all
session_vnet_name-IsPlain id vnet e = elim (Bool-cases (is_vnet_id (b's' ∷ hex id))) [
  | inr bad ↦ let no_name = rw (session_vnet_name, bad) at e in cc
  | inl good ↦
      subst IsPlain (some-injective (rw (session_vnet_name, good) at e))
        (lower_or_digit-IsPlain (b's' ∷ hex_from (suc id) id) (all-hex_from (suc id) id))
]

any-not_isolated :
    (vnet : Option Text) (items : List (Text × Text))
    → All (λ (item : Text × Text). is_isolated vnet item.1 ≡ true) items
    → any (λ (item : Text × Text). not (is_isolated vnet item.1)) items ≡ false
unfolding any
any-not_isolated vnet [] h = refl
any-not_isolated vnet (i ∷ is) h = rw (h.0, any-not_isolated vnet is h.1) refl

abbrev pub rewritten : Option Text → List (Text × Text) → List (Text × Text)
rewritten vnet items = map (λ (item : Text × Text). (item.0, firewalled_nic item.1 vnet)) items

rewritten-isolated :
    (vnet : Option Text)
    → All IsPlain (bridges vnet)
    → (items : List (Text × Text))
    → All (λ (item : Text × Text). is_isolated vnet item.1 ≡ true) (rewritten vnet items)
rewritten-isolated vnet plain [] = tt
rewritten-isolated vnet plain (i ∷ is) =
    (firewalled_nic-is_isolated i.1 vnet plain, rewritten-isolated vnet plain is)

-- In the network of a session, _firewall_nics does not raise, and leaves each card rewritten and
-- isolated, if there is a card and the hypervisor keeps the values that it is sent.
pub firewall_nics-is_isolated :
    (store : List (Text × Text) → List (Text × Text)) (id : ℕ) (vnet : Text) (card : Text × Text)
    (cards : List (Text × Text))
    → ((sent : List (Text × Text)) → store sent ≡ sent)
    → session_vnet_name id ≡ some vnet
    → (firewall_nics store (some vnet) (card ∷ cards) ≡ some (rewritten (some vnet) (card ∷ cards)))
      × All
          (λ (item : Text × Text). is_isolated (some vnet) item.1 ≡ true)
          (rewritten (some vnet) (card ∷ cards))
unfolding firewall_nics all
firewall_nics-is_isolated store id vnet card cards keeps name =
    let plain : IsPlain (bridge vnet) = session_vnet_name-IsPlain id vnet name in
    let isolated = rewritten-isolated (some vnet) (plain, tt) (card ∷ cards) in
    (
      rw
          (
            keeps (rewritten (some vnet) (card ∷ cards)),
            any-not_isolated (some vnet) (rewritten (some vnet) (card ∷ cards)) isolated,
          )
          refl,
      isolated,
    )
