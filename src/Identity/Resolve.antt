-- ===== src/Identity/Resolve.antt =====
-- identity/resolve.py: which org a request acts in.
pub mod Member
use islands_kernel.Base.{
  String, Bool, true, false, ◌&&◌, not, Option, none, some, List, [], ◌∷◌, map, ◌==◌, string_eq,
  if◌then◌else◌, Result, ok, err,
}
use islands_kernel.Base.Dict.{filter}
use islands_kernel.Identity.Model.{Membership}
use islands_kernel.Identity.Store.{IdentityStore, get_membership, list_memberships}

pub data OrgRequired : Type 0 where
  org_required : OrgRequired

-- `_is_active_member`
unfoldable pub is_active_member : IdentityStore → String → String → Bool
is_active_member store principal_id org_id = elim (get_membership principal_id org_id store) [
  | none ↦ false
  | some m ↦ m.active
]

-- `org and _is_active_member(store, principal_id, org)`: the empty text is false.
unfoldable pub names_active : IdentityStore → String → Option String → Bool
unfolding is_active_member
names_active store principal_id none = false
names_active store principal_id (some org) =
    not (org == "") && is_active_member store principal_id org

-- `[m.org_id for m in store.list_memberships(principal_id) if m.active]`
unfoldable pub active_orgs : IdentityStore → String → List String
active_orgs store principal_id =
    map (λ (m : Membership). m.org_id)
      (filter (λ (m : Membership). m.active) (list_memberships principal_id store))

-- `if len(active) == 1: return active[0]`
unfoldable pub only_org : List String → Result OrgRequired String
only_org (org ∷ []) = ok org
only_org _ = err org_required

-- The named org if the principal is an active member there, or the next choice.
unfoldable pub choose :
    IdentityStore → String → Option String → Result OrgRequired String → Result OrgRequired String
unfolding names_active
choose store principal_id none next = next
choose store principal_id (some org) next =
    if names_active store principal_id (some org) then ok org else next

unfoldable pub resolve_org :
    IdentityStore → String → Option String → Option String → Result OrgRequired String
unfolding choose only_org active_orgs
resolve_org store principal_id jwt_org header_org_id =
    choose store principal_id jwt_org
      (choose store principal_id header_org_id (only_org (active_orgs store principal_id)))
