-- ===== src/Vault/Grants/Allowed.antt =====
-- Who passes the two checks of the vault.
use islands_kernel.Base.{
  ℕ, String, ◌≡◌, ◌≢◌, ◌↔◌, ◌⊎◌, inl, inr, Bool, true, some, List, [], ◌∷◌, ◌++◌, map, arith,
  is_some, string_eq,
}
use islands_kernel.Identity.Model.{Access, to_manage, Grant}
use islands_kernel.Identity.Store.{IdentityStore, list_grants}
use islands_kernel.Identity.Authorize.{
  authorize, adapt_owner, adapt_connection_grant, collect_grants, is_revoked, covers, same_kind,
}
use islands_kernel.Identity.Authorize.Spec.{Suffices, Permits, Any, authorize_iff, satisfies_iff}
use islands_kernel.Identity.Authorize.Laws.{authorize-append}
use islands_kernel.Vault.Model.{Connection, ConnectionGrant}
use islands_kernel.Vault.Store.{Store, get_grants}
use islands_kernel.Vault.Grants.{
  find_grant, require_access, grants_for, on_connection, kernel_check,
}

-- The grant is the principal's, and strong enough.
abbrev pub IsFor : String → Access → ConnectionGrant → Type 0
IsFor principal_id need g = (g.principal_id ≡ principal_id) × Suffices g.access need

find_grant_iff :
    (principal_id : String) (need : Access) (grants : List ConnectionGrant)
    → (is_some (find_grant principal_id need grants) ≡ true) ↔ Any (IsFor principal_id need) grants
unfolding find_grant
find_grant_iff principal_id need [] = (λ h. cc h, λ h. absurd h)
find_grant_iff principal_id need (g ∷ grants) = (
  λ h. ground (arith, satisfies_iff g.access need, find_grant_iff principal_id need grants),
  λ h. ground (arith, satisfies_iff g.access need, find_grant_iff principal_id need grants),
)

-- `require_access` lets a principal through exactly when it created the connection, or when the
-- connection has a grant for this very principal that is strong enough.
pub require_access_iff :
    (store : Store) (conn : Connection) (principal_id : String) (need : Access)
    → (is_some (require_access store conn principal_id need) ≡ true) ↔ (
        (conn.created_by ≡ principal_id) ⊎ Any (IsFor principal_id need) (get_grants conn.id store))
unfolding require_access
require_access_iff store conn principal_id need = (
  λ h. ground (arith, find_grant_iff principal_id need (get_grants conn.id store)),
  λ h. ground (arith, find_grant_iff principal_id need (get_grants conn.id store)),
)

-- The grant is on the connection, and strong enough. Whose it is does not matter.
abbrev pub IsOn : String → Access → ConnectionGrant → Type 0
IsOn connection_id access g = (g.connection_id ≡ connection_id) × Suffices g.access access

module _ (access : Access) (now : ℕ) (conn : Connection) where
  -- What `authorize` says of a list of grants, for this connection.
  abbrev passes : List Grant → Bool
  passes grants = authorize grants (on_connection conn) access now (some conn.org)

  passes-adapted :
      (grants : List ConnectionGrant)
      → (passes (map adapt_connection_grant grants) ≡ true) ↔ Any (IsOn conn.id access) grants
  unfolding authorize adapt_connection_grant is_revoked covers same_kind
  passes-adapted [] = (λ h. cc h, λ h. absurd h)
  passes-adapted (g ∷ grants) = (
    λ h. ground (arith, satisfies_iff g.access access, passes-adapted grants),
    λ h. ground (arith, satisfies_iff g.access access, passes-adapted grants),
  )

  passes-owner : passes (adapt_owner conn.id ∷ []) ≡ true
  unfolding authorize adapt_owner is_revoked covers same_kind
  passes-owner = ground (arith, satisfies_iff to_manage access)

  -- The grants that the kernel path collects, and what is added for the owner.
  grants_for-passes :
      (principal_id : String) (identity_store : IdentityStore) (store : Store)
      → (kernel_check access now identity_store store conn principal_id ≡ true) ↔ (
          ((principal_id ≢ "") × (principal_id ≡ conn.created_by))
          ⊎ (passes (list_grants principal_id identity_store) ≡ true)
          ⊎ (passes (map adapt_connection_grant (get_grants conn.id store)) ≡ true))
  unfolding kernel_check grants_for collect_grants
  grants_for-passes principal_id identity_store store =
      let listed = list_grants principal_id identity_store in
      let adapted = map adapt_connection_grant (get_grants conn.id store) in
      let own = adapt_owner conn.id ∷ [] in
      let split = authorize-append (on_connection conn) now (some conn.org) access listed adapted in
      let outer =
        authorize-append (on_connection conn) now (some conn.org) access (listed ++ adapted) own in
      (
        λ h. ground (arith, split, outer, passes-owner),
        λ h. ground (arith, split, outer, passes-owner),
      )

  -- The check of the kernel path lets a principal through exactly when it is not the empty text and
  -- created the connection, or when one of the grants that the identity service lists for it
  -- permits the access, or when the connection has a strong enough grant, whoever holds that one.
  pub kernel_check_iff :
      (principal_id : String) (identity_store : IdentityStore) (store : Store)
      → (kernel_check access now identity_store store conn principal_id ≡ true) ↔ (
          ((principal_id ≢ "") × (principal_id ≡ conn.created_by))
          ⊎ Any
              (λ g. Permits g (on_connection conn) access now (some conn.org))
              (list_grants principal_id identity_store)
          ⊎ Any (IsOn conn.id access) (get_grants conn.id store))
  kernel_check_iff principal_id identity_store store =
      let collected = grants_for-passes principal_id identity_store store in
      let listed =
        authorize_iff (on_connection conn) access now (some conn.org)
          (list_grants principal_id identity_store) in
      let adapted = passes-adapted (get_grants conn.id store) in
      (
        λ h. elim (collected.0 h) [
          | inl own ↦ inl own
          | inr (inl l) ↦ inr (inl (listed.0 l))
          | inr (inr a) ↦ inr (inr (adapted.0 a))
        ],
        λ h. collected.1 (elim h [
          | inl own ↦ inl own
          | inr (inl l) ↦ inr (inl (listed.1 l))
          | inr (inr a) ↦ inr (inr (adapted.1 a))
        ]),
      )
