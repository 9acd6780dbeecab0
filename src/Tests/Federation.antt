-- ===== src/Tests/Federation.antt =====
-- A user of an island signs in, and a service gets its credential.
use islands_kernel.Base.{
  String, ◌≡◌, refl, true, false, none, some, [], ◌∷◌, string_eq, option_eq, pair_eq, ok, is_ok,
  arith,
}
use islands_kernel.Base.Dict.{lookup}
use islands_kernel.Identity.Model.{
  IslandRegistry, FederationTxn, OauthClient, public, member, service,
}
use islands_kernel.Identity.Store
use islands_kernel.Identity.Store.{IdentityStore}
use islands_kernel.Identity.Store.Invariant.{IsValid}
use islands_kernel.Identity.Exchange.{Resolved, one, exchange}
use islands_kernel.Identity.Oauth.Clients.{resolve_client, validate_redirect_uri}
use islands_kernel.Identity.Oauth.Codes.{issue_auth_code}
use islands_kernel.Identity.Services.{ServiceRequest, issue_service_credential}
use islands_kernel.Identity.Services.Exchanged.{issue_service_credential-exchange}
use islands_kernel.Identity.Federation.Assertion.{
  Library, check_claims, verify_island_assertion_symmetric,
}
use islands_kernel.Identity.Federation.Principals.{find_or_create_island_principal}
use islands_kernel.Identity.Federation.Principals.Stable.{find_or_create_island_principal-again}
use islands_kernel.Identity.Federation.Flow.{
  FreshTokens, complete_federation, proceed, identify, secret_of, sign_in,
}
use islands_kernel.Identity.Federation.Flow.Once.{complete_federation_once}

abbrev crm : IslandRegistry
crm = record {
  id = "crm";
  name = "CRM";
  issuer = "https://crm";
  jwks_uri = "";
  audience = "crm";
  sso_authorize_url = "https://crm/sso";
  sso_token_url = "";
  sso_client_secret_hash = "";
  org_id = "acme";
  session_ttl_days = 30;
  created_at = 0;
  disabled_at = none;
  assertion_secret = some "s3cret";
}

abbrev app : OauthClient
app = record {
  id = "app";
  name = "App";
  redirect_uris = "https://app/cb" ∷ [];
  type = public;
  client_id_metadata_url = none;
}

abbrev txn : FederationTxn
txn = record {
  hash = "ftx";
  client_id = "app";
  redirect_uri = "https://app/cb";
  code_challenge = "c";
  audience = "crm";
  scope = "all";
  client_state = "st";
  island_id = "crm";
  nonce = "n";
  expires_at = 600;
  consumed_at = none;
}

abbrev store : IdentityStore
store = record Store.empty {
  clients = ("app", app) ∷ [];
  islands = ("crm", crm) ∷ [];
  ftxn = ("ftx", txn) ∷ [];
}

-- Every assertion is decoded to the claims of one user.
abbrev lib : Library
lib = record {
  Jwk = Unit;
  Key = Unit;
  kid_of_token = λ t. some none;
  kid_of_jwk = λ j. none;
  from_jwk = λ j. none;
  decode_with_key = λ token key aud iss. none;
  decode_with_secret = λ token secret aud iss.
      some (record { sub = "u1"; exp = 500; nonce = some "n"; email = none; workspace = none });
  urlencode = λ pairs. "q";
  island_fetch = λ island code. some "assertion";
  island_jwks_fetch = λ island. none;
}

abbrev plain : String → String
plain text = text

abbrev fresh : FreshTokens
fresh = record { pid = "p1"; code = "ac1" }

find_or_create_island_principal-again_example :
    let first = find_or_create_island_principal "p1" crm "u1" none 10 store in
    find_or_create_island_principal "p2" crm "u1" (some "a@b") 20 first.1 ≡ first
find_or_create_island_principal-again_example =
    find_or_create_island_principal-again "p1" "p2" crm "u1" none (some "a@b") 10 20 store

store-IsValid : IsValid store
unfolding lookup
store-IsValid = record {
  principals = tt;
  orgs = tt;
  memberships = tt;
  grants = tt;
  mcp = tt;
  clients = (refl, refl, tt);
  codes = tt;
  at = tt;
  islands = (refl, refl, tt);
  island_links = tt;
  ftxn = (refl, refl, tt);
}

completed :
    is_ok (complete_federation lib plain none fresh "ftx" "sso" "https://kernel" 10 store).0 ≡ true
unfolding complete_federation proceed identify secret_of sign_in Store.get_federation_txn lookup
    string_eq Store.consume_federation_txn Store.get_island verify_island_assertion_symmetric
    check_claims option_eq issue_auth_code resolve_client Store.get_oauth_client
    validate_redirect_uri find_or_create_island_principal Store.get_principal_by_island
    Store.put_island_principal_link Store.put_membership Store.put_principal
completed = refl

complete_federation_once_example :
    let s' = (complete_federation lib plain none fresh "ftx" "sso" "https://kernel" 10 store).1 in
    let again = complete_federation lib plain none fresh "ftx" "other" "https://kernel" 12 s' in
    (is_ok again.0 ≡ false) × (again.1 ≡ s')
complete_federation_once_example =
    complete_federation_once lib plain none fresh fresh "ftx" "sso" "other" "https://kernel"
      "https://kernel" 10 12 store store-IsValid completed

abbrev agent : ServiceRequest
agent = record {
  principal_id = "agent";
  display_name = "Agent";
  org_id = "acme";
  audience = "vault";
  scope = "mcp";
  expires_at = some 100;
}

issue_service_credential-exchange_example :
    (r : Resolved) × (exchange plain "raw"
        (one "vault")
        (issue_service_credential plain "raw" agent 5 store).1
        50
      ≡ ok r)
    × (r.principal_id ≡ "agent")
    × (r.org_id ≡ some "acme")
    × (r.roles ≡ member ∷ [])
    × (r.type ≡ service)
issue_service_credential-exchange_example =
    issue_service_credential-exchange plain "raw" agent 5 store 50 (λ e. cc e)
      (λ at e. ground arith)
