-- ===== src/Identity/Services.antt =====
-- identity/service_principal.py: a machine principal, its credential, and its grant on a connection.
pub mod Exchanged
use islands_kernel.Base.{ℕ, String, true, Option, none, some, [], ◌∷◌}
use islands_kernel.Identity.Model.{
  Principal, service, Membership, member, McpToken, Grant, connection, to_use,
}
use islands_kernel.Identity.Store.{
  IdentityStore, put_principal, put_membership, put_mcp_token, add_grant,
}

-- The arguments of `issue_service_credential` but `now`.
pub record ServiceRequest : Type 0 where
  pub principal_id : String
  pub display_name : String
  pub org_id : String
  pub audience : String
  pub scope : String
  pub expires_at : Option ℕ

unfoldable pub service_principal : ServiceRequest → ℕ → Principal
service_principal request now = record {
  id = request.principal_id;
  type = service;
  email = none;
  display_name = some request.display_name;
  public_key = none;
  created_at = now;
}

unfoldable pub service_membership : ServiceRequest → ℕ → Membership
service_membership request now = record {
  principal_id = request.principal_id;
  org_id = request.org_id;
  roles = member ∷ [];
  active = true;
  joined_at = now;
}

unfoldable pub service_token : String → ServiceRequest → McpToken
service_token hash request = record {
  hash = hash;
  principal_id = request.principal_id;
  org_id = some request.org_id;
  audience = some request.audience;
  scope = request.scope;
  expires_at = request.expires_at;
  revoked_at = none;
}

-- `raw` is the token that `generate_raw_token("mcp")` draws.
unfoldable pub issue_service_credential :
    (String → String) → String → ServiceRequest → ℕ → IdentityStore → String × IdentityStore
issue_service_credential hash_token raw request now store = (
  raw,
  put_mcp_token (service_token (hash_token raw) request) (
      put_membership (service_membership request now)
        (put_principal (service_principal request now) store)),
)

-- `grant_id` is the token that `generate_raw_token("grant")` draws.
unfoldable pub grant_connection_use :
    String → String → String → String → ℕ → IdentityStore → Grant × IdentityStore
grant_connection_use grant_id principal_id connection_id granted_by now store =
    let g : Grant = record {
      id = grant_id;
      principal_id = principal_id;
      target = record { kind = connection; id = connection_id };
      access = to_use;
      scopes_subset = none;
      granted_by = granted_by;
      granted_at = now;
      revoked_at = none;
    } in
    (g, add_grant g store)
