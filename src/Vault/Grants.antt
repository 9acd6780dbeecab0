-- ===== src/Vault/Grants.antt =====
-- vault/grants.py and vault/kernel_auth.py: who may use or manage a connection.
pub mod Allowed
use islands_kernel.Base.{
  ℕ, String, Bool, true, false, ◌&&◌, not, Option, none, some, List, [], ◌∷◌, ◌++◌, ◌==◌, string_eq,
  if◌then◌else◌,
}
use islands_kernel.Identity.Model.{
  Access, to_use, to_manage, Grant, GrantTarget, TargetKind, connection,
}
use islands_kernel.Identity.Store.{IdentityStore, list_grants}
use islands_kernel.Identity.Authorize.{satisfies, authorize, collect_grants, adapt_owner}
use islands_kernel.Vault.Model.{Connection, ConnectionGrant}
use islands_kernel.Vault.Store.{Store, get_grants}

-- What `require_access` returns: "owner", or the grant.
pub data AccessProof : Type 0 where
  owner : AccessProof
  granted : ConnectionGrant → AccessProof

-- The loop of `require_access`. `satisfies` of this module is that of identity/authorize.py.
unfoldable pub find_grant : String → Access → List ConnectionGrant → Option AccessProof
find_grant principal_id need [] = none
find_grant principal_id need (g ∷ grants) =
    if g.principal_id == principal_id && satisfies g.access need
    then some (granted g)
    else find_grant principal_id need grants

-- `require_access`; `none` is its `PermissionError`.
unfoldable pub require_access : Store → Connection → String → Access → Option AccessProof
require_access store conn principal_id need =
    if conn.created_by == principal_id
    then some owner
    else find_grant principal_id need (get_grants conn.id store)

-- `_grants_for`
unfoldable pub grants_for : String → Connection → IdentityStore → Store → List Grant
grants_for principal_id conn identity_store vault_store =
    let grants =
      collect_grants (list_grants principal_id identity_store) (get_grants conn.id vault_store) in
    if not (principal_id == "") && principal_id == conn.created_by
    then grants ++ adapt_owner conn.id ∷ []
    else grants

-- The connection as a target of grants.
abbrev pub on_connection : Connection → GrantTarget
on_connection conn = record { kind = connection; id = conn.id }

-- `authorizer` of `make_kernel_auth` and `manage_authorizer`, which differ in the access.
unfoldable pub kernel_check : Access → ℕ → IdentityStore → Store → Connection → String → Bool
kernel_check access now identity_store vault_store conn principal_id =
    authorize (grants_for principal_id conn identity_store vault_store) (on_connection conn) access
      now (some conn.org)
