-- ===== src/Roles/Laws.antt =====
-- The policy of roles.py as a whole.
use itp2_group6_the_pond.Prelude.{
  All, ◌≡◌, ◌≢◌, ◌&&◌, not, true, refl, false, none, some, inl, inr, ◌⊎◌, String, any, lookup,
  All-lookup, Option-cases, arith, List, [], String_eq, Option,
}
use itp2_group6_the_pond.Roles.{
  Role, student, moderator, admin, staff, admins, rank, role_eq, permissions, holders, can,
  outranks,
}

-- The holders of a permission are the staff, the administrators, or nobody.
abbrev IsGrant : List Role → Type 0
IsGrant roles = (roles ≡ staff) ⊎ ((roles ≡ admins) ⊎ (roles ≡ []))

table-IsGrant : All (λ (item : String × List Role). IsGrant item.1) permissions
table-IsGrant = ground arith

holders-IsGrant : (permission : String) → IsGrant (holders permission)
unfolding holders
holders-IsGrant permission = elim (Option-cases (lookup permission permissions)) [
  | inl unknown ↦ rw unknown (inr (inr refl))
  | inr (roles, known) ↦
      rw known (All-lookup IsGrant permission permissions roles table-IsGrant known)
]

-- What a list of holders that is one of the three grants.
grant-policy :
    (roles : List Role)
    → IsGrant roles
    → (any (role_eq student) roles ≡ false)
      × (any (role_eq moderator) roles ≡ true → any (role_eq admin) roles ≡ true)
unfolding any role_eq
grant-policy roles grant = ground arith

-- Whatever the name of the permission, nobody holds it signed out, no student holds it, and
-- administrators hold it if moderators do.
pub can-policy :
    (permission : String)
    → (can permission none ≡ false)
      × (can permission (some student) ≡ false)
      × ((can permission (some moderator) && not (can permission (some admin))) ≡ false)
unfolding can
can-policy permission =
    let (none_of_students, up) = grant-policy (holders permission) (holders-IsGrant permission) in
    (refl, none_of_students, ground (arith, up))

-- Seniority is transitive and has no cycles: if a outranks b and b outranks c, then a outranks c and
-- neither b nor c outranks a; b is not an administrator, and somebody is signed in as a.
pub outranks_trans :
    (a b c : Option Role)
    → outranks a b ≡ true
    → outranks b c ≡ true
    → (outranks a c ≡ true)
      × (outranks b a ≡ false)
      × (outranks c a ≡ false)
      × (b ≢ some admin)
      × (a ≢ none)
unfolding outranks rank
outranks_trans a b c h k =
    (ground arith, ground arith, ground arith, λ e. ground arith, λ e. ground arith)
