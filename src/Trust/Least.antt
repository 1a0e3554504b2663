-- ===== src/Trust/Least.antt =====
-- A token that passes the check of proxmox.py holds what the allowlist gives and nothing dangerous.
use itp2_group6_the_pond.Prelude.{
  ℕ, ◌≡◌, refl, inl, inr, true, false, Option, none, some, List, [], ◌∷◌, Text, Text_eq, filter,
  All, arith, some-injective, Option-cases, Bool-cases,
}
use itp2_group6_the_pond.Scoring.Board.{text_lt}
use itp2_group6_the_pond.Proxmox.{
  ProxmoxConfig, Membership, Permissions, has_text, dangerous_privileges, is_excess,
  allowed_privileges, insert_text, sorted_texts, insert_path, sorted_paths, add_extra, excess_from,
  excess_privileges, Replies, pool_membership, passed_at, is_recent_check, Cache,
  check_token_privileges, remember,
}

-- What is held on a path is allowed there, and not dangerous.
unfoldable pub HoldsLeast : ProxmoxConfig → Membership → Text × List Text → Type 0
HoldsLeast cfg membership (path, held) =
    (allowed : List Text) × (allowed_privileges cfg membership path ≡ some allowed)
    × All (λ p. (has_text p dangerous_privileges ≡ false) × (has_text p allowed ≡ true)) held

insert_text-cons : (t : Text) (ts : List Text) → insert_text t ts ≡ [] → (t ∷ []) ≡ []
unfolding insert_text
insert_text-cons t [] h = h
insert_text-cons t (u ∷ us) h = elim (Bool-cases (text_lt u t)) [
  | inl before ↦ let bad = rw before at h in cc
  | inr after ↦ let bad = rw after at h in cc
]

none_over :
    (allowed held : List Text)
    → sorted_texts (filter (is_excess allowed) held) ≡ []
    → All (λ p. (has_text p dangerous_privileges ≡ false) × (has_text p allowed ≡ true)) held
unfolding filter sorted_texts is_excess
none_over allowed [] h = tt
none_over allowed (p ∷ held) h = elim (Bool-cases (is_excess allowed p)) [
  | inl excess ↦
      let bad =
        insert_text-cons p (sorted_texts (filter (is_excess allowed) held))
          (rw (filter, excess) at h) in
      cc
  | inr fine ↦ ((ground arith, ground arith), none_over allowed held (rw (filter, fine) at h))
]

extra_none :
    (path : Text) (extra : List Text) (more : Permissions)
    → add_extra path extra more ≡ []
    → (extra ≡ []) × (more ≡ [])
extra_none path [] more h = (refl, h)
extra_none path (p ∷ ps) more h = cc

remembered :
    (cfg : ProxmoxConfig) (now : ℕ) (cache cache' : Cache) (excess : Option Permissions)
    → remember cfg now cache excess ≡ some cache'
    → excess ≡ some []
remembered cfg now cache cache' none h = cc
remembered cfg now cache cache' (some []) h = refl
remembered cfg now cache cache' (some (p ∷ ps)) h = cc

excess_from-HoldsLeast :
    (cfg : ProxmoxConfig) (membership : Membership) (perms : Permissions)
    → excess_from cfg membership perms ≡ some []
    → All (HoldsLeast cfg membership) perms
unfolding HoldsLeast excess_from
excess_from-HoldsLeast cfg membership [] h = tt
excess_from-HoldsLeast cfg membership ((path, held) ∷ rest) h =
    elim (Option-cases (allowed_privileges cfg membership path)) [
      | inl bad ↦ let no_list = rw (excess_from, bad) at h in cc
      | inr (allowed, given) ↦ elim (Option-cases (excess_from cfg membership rest)) [
        | inl bad ↦ let no_list = rw (excess_from, given, bad) at h in cc
        | inr (more, tail) ↦
            let nothing : add_extra path (sorted_texts (filter (is_excess allowed) held)) more
                ≡ [] =
              some-injective (rw (excess_from, given, tail) at h) in
            let (none_here, none_after) =
              extra_none path (sorted_texts (filter (is_excess allowed) held)) more nothing in
            (
              (allowed, given, none_over allowed held none_here),
              excess_from-HoldsLeast cfg membership rest (rw none_after at tail),
            )
      ]
    ]

-- What holds of the sorted items holds of the items.
All-insert_path :
    (P : Text × List Text → Type 0) (p : Text × List Text) (ps : Permissions)
    → All P (insert_path p ps)
    → P p × All P ps
unfolding insert_path
All-insert_path P p [] h = h
All-insert_path P p (q ∷ ps) h = elim (Bool-cases (text_lt q.0 p.0)) [
  | inl before ↦
      let (here, rest) = rw before at h in
      let (new, old) = All-insert_path P p ps rest in (new, (here, old))
  | inr after ↦ rw after at h
]

All-sorted_paths :
    (P : Text × List Text → Type 0) (ps : Permissions) → All P (sorted_paths ps) → All P ps
unfolding sorted_paths
All-sorted_paths P [] h = tt
All-sorted_paths P (p ∷ ps) h =
    let (here, rest) = All-insert_path P p (sorted_paths ps) h in (here, All-sorted_paths P ps rest)

-- If the check of the token passes, and not by an earlier check that is still fresh, the answers
-- were readable, and on every path that the hypervisor reports the token holds nothing dangerous and
-- nothing beyond the allowlist.
pub check_token_privileges-HoldsLeast :
    (cfg : ProxmoxConfig) (replies : Replies) (now : ℕ) (cache cache' : Cache)
    → is_recent_check cfg now (passed_at cfg cache) ≡ false
    → check_token_privileges cfg replies now cache ≡ some cache'
    → (membership : Membership) × (perms : Permissions) × (pool_membership replies.resources
        ≡ some membership)
      × (replies.permissions ≡ some perms)
      × All (HoldsLeast cfg membership) perms
unfolding check_token_privileges excess_privileges
check_token_privileges-HoldsLeast cfg replies now cache cache' stale h =
    elim (Option-cases (pool_membership replies.resources)) [
      | inl bad ↦ let no_cache = rw (check_token_privileges, stale, bad) at h in cc
      | inr (membership, pools) ↦ elim (Option-cases replies.permissions) [
        | inl bad ↦ let no_cache = rw (check_token_privileges, stale, pools, bad) at h in cc
        | inr (perms, read) ↦
            let passed : remember cfg now cache (excess_from cfg membership (sorted_paths perms))
                ≡ some cache' =
              rw (check_token_privileges, excess_privileges, stale, pools, read) at h in
            (
              membership,
              perms,
              pools,
              read,
              All-sorted_paths (HoldsLeast cfg membership) perms (
                  excess_from-HoldsLeast cfg membership (sorted_paths perms)
                    (remembered cfg now cache cache' _ passed)),
            )
      ]
    ]
