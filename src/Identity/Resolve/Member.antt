-- ===== src/Identity/Resolve/Member.antt =====
-- identity/resolve.py: the memberships behind the org that `resolve_org` gives.
use islands_kernel.Base.{
  String, ◌≡◌, Bool, true, false, Option, none, some, List, [], ◌∷◌, map, inl, inr, string_eq,
  pair_eq, contains, Bool-cases, Result, ok, arith,
}
use islands_kernel.Base.Dict.{Dict, IsKeyed, lookup, filter}
use islands_kernel.Identity.Model.{Membership}
use islands_kernel.Identity.Store.{IdentityStore, memberships_of, list_memberships, get_membership}
use islands_kernel.Identity.Store.Invariant.{IsValid}
use islands_kernel.Identity.Resolve.{
  OrgRequired, is_active_member, names_active, active_orgs, only_org, choose, resolve_org,
}

abbrev Memberships : Type 0
Memberships = Dict (String × String) Membership

abbrev is_active : Option Membership → Bool
is_active none = false
is_active (some m) = m.active

abbrev active : List Membership → List String
active ms = map (λ (m : Membership). m.org_id) (filter (λ (m : Membership). m.active) ms)

lookup_of_active :
    (pid org : String) (d : Memberships)
    → IsKeyed (λ (m : Membership). (m.principal_id, m.org_id)) d
    → contains (active (memberships_of pid d)) org ≡ true
    → is_active (lookup (pid, org) d) ≡ true
unfolding memberships_of filter lookup
lookup_of_active pid org [] u h = cc
lookup_of_active pid org (((p, o), m) ∷ d) (own, fresh, u) h =
    ground (arith, lookup_of_active pid org d u)

active_orgs-active :
    (s : IdentityStore) (pid org : String)
    → IsValid s
    → active_orgs s pid ≡ org ∷ []
    → is_active_member s pid org ≡ true
unfolding active_orgs is_active_member list_memberships get_membership
active_orgs-active s pid org v h =
    ground (arith, lookup_of_active pid org s.memberships v.memberships (rw h (ground arith)))

choose-active :
    (s : IdentityStore) (pid : String) (named : Option String) (next : Result OrgRequired String)
    (org : String)
    → (next ≡ ok org → is_active_member s pid org ≡ true)
    → choose s pid named next ≡ ok org
    → is_active_member s pid org ≡ true
unfolding choose names_active
choose-active s pid none next org n h = n h
choose-active s pid (some o) next org n h = elim (Bool-cases (names_active s pid (some o))) [
  | inl yes' ↦ ground arith
  | inr no' ↦ n (ground arith)
]

only_org-singleton : (orgs : List String) (org : String) → only_org orgs ≡ ok org → orgs ≡ org ∷ []
unfolding only_org
only_org-singleton [] org h = cc
only_org-singleton (o ∷ []) org h = cc
only_org-singleton (o ∷ p ∷ orgs) org h = cc

-- In a store whose tables are keyed by their rows, the org that `resolve_org` returns, whether it
-- comes from the JWT, the header or the principal's only membership, is one in which the
-- principal has an active membership.
pub resolve_org-active :
    (s : IdentityStore) (pid : String) (jwt_org header_org_id : Option String) (org : String)
    → IsValid s
    → resolve_org s pid jwt_org header_org_id ≡ ok org
    → is_active_member s pid org ≡ true
unfolding resolve_org
resolve_org-active s pid jwt_org header_org_id org v = choose-active s pid jwt_org _ org (
    choose-active s pid header_org_id _ org
      (λ h. active_orgs-active s pid org v (only_org-singleton (active_orgs s pid) org h)))
