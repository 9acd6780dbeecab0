-- ===== src/Identity/Services/Exchanged.antt =====
-- identity/service_principal.py: the credential of a service, as identity/exchange.py takes it.
use islands_kernel.Base.{
  ℕ, ◌<◌, String, ◌≡◌, ◌≢◌, refl, some, [], ◌∷◌, inr, ok, arith, string_eq, pair_eq,
}
use islands_kernel.Base.Dict.{lookup-insert_self}
use islands_kernel.Identity.Model.{service, member}
use islands_kernel.Identity.Store.{
  IdentityStore, put_principal, put_membership, put_mcp_token, get_mcp_token, get_membership,
  get_principal,
}
use islands_kernel.Identity.Exchange.{
  one, Credential, Resolved, exchange, find_row, describe, roles_in, principal_type, of_mcp_token,
}
use islands_kernel.Identity.Exchange.Facts.{exchange_iff}
use islands_kernel.Identity.Services.{
  ServiceRequest, issue_service_credential, service_token, service_membership, service_principal,
}

module _ (hash_token : String → String) (raw : String) (request : ServiceRequest) (now : ℕ)
    (s : IdentityStore) where
  abbrev issued : IdentityStore
  issued = (issue_service_credential hash_token raw request now s).1

  issued-token :
      get_mcp_token (hash_token raw) issued ≡ some (service_token (hash_token raw) request)
  unfolding issue_service_credential put_mcp_token get_mcp_token service_token put_membership
      put_principal
  issued-token = lookup-insert_self (hash_token raw) (service_token (hash_token raw) request) s.mcp

  issued-membership :
      get_membership request.principal_id request.org_id issued
      ≡ some (service_membership request now)
  unfolding issue_service_credential put_mcp_token put_membership put_principal get_membership
      service_membership
  issued-membership =
      lookup-insert_self (request.principal_id, request.org_id) (service_membership request now)
        s.memberships

  issued-principal :
      get_principal request.principal_id issued ≡ some (service_principal request now)
  unfolding issue_service_credential put_mcp_token put_membership put_principal get_principal
      service_principal
  issued-principal =
      lookup-insert_self request.principal_id (service_principal request now) s.principals

  issued-row :
      find_row issued (hash_token raw)
      ≡ some (of_mcp_token (service_token (hash_token raw) request))
  unfolding find_row
  issued-row = ground (arith, issued-token)

  issued-roles :
      request.org_id ≢ "" → roles_in issued request.principal_id (some request.org_id) ≡ member ∷ []
  unfolding roles_in service_membership
  issued-roles named = ground (arith, issued-membership)

  issued-type : principal_type issued request.principal_id ≡ service
  unfolding principal_type service_principal
  issued-type = ground (arith, issued-principal)

  -- A credential that is issued to a service for a named org is exchanged, for its own audience and
  -- before its expiry if it has one, for a result that names the service, the org and the role of a
  -- member.
  pub issue_service_credential-exchange :
      (later : ℕ)
      → request.org_id ≢ ""
      → ((at : ℕ) → request.expires_at ≡ some at → later < at)
      → (r : Resolved) × (exchange hash_token raw (one request.audience) issued later ≡ ok r)
        × (r.principal_id ≡ request.principal_id)
        × (r.org_id ≡ some request.org_id)
        × (r.roles ≡ member ∷ [])
        × (r.type ≡ service)
  unfolding of_mcp_token service_token describe
  issue_service_credential-exchange later named in_time =
      let row : Credential = of_mcp_token (service_token (hash_token raw) request) in
      (
        describe issued row,
        (exchange_iff hash_token raw (one request.audience) issued later (describe issued row)).1
            (row, issued-row, (refl, inr (request.audience, refl, refl), in_time), refl),
        refl,
        refl,
        issued-roles named,
        issued-type,
      )
