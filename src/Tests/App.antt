-- ===== src/Tests/App.antt =====
-- A client that signs alice in.
use Prim.Native.Nat.{◌/◌}
use islands_kernel.Base.{◌≡◌, refl, true, none, some, [], ◌∷◌, string_eq, ok, contains, arith}
use islands_kernel.Base.Dict.{lookup, insert}
use islands_kernel.Identity.Model.{OauthClient, public, second}
use islands_kernel.Identity.Store
use islands_kernel.Identity.Store.{IdentityStore, get_oauth_client, get_mcp_token}
use islands_kernel.Identity.Store.Invariant.{
  put_oauth_client, perform, perform_all, perform_all-IsValid,
}
use islands_kernel.Identity.Exchange.{Resolved, one}
use islands_kernel.Identity.Jwt.{mint}
use islands_kernel.Identity.Oauth.Codes.{CodeRequest}
use islands_kernel.Identity.Oauth.Tokens.{FreshPair}
use islands_kernel.Identity.App.{mint_request, auth_exchange, oauth_authorize, oauth_token}
use islands_kernel.Identity.App.SignIn.{code_form, sign_in_through_routes}
use islands_kernel.Tests.Jwt.{jose, km}

abbrev client : OauthClient
client = record {
  id = "app";
  name = "App";
  redirect_uris = "https://app/cb" ∷ [];
  type = public;
  client_id_metadata_url = none;
}

abbrev store : IdentityStore
store = perform_all (put_oauth_client client ∷ []) Store.empty

abbrev request : CodeRequest
request = record {
  client_id = "app";
  principal_id = "alice";
  org_id = some "acme";
  redirect_uri = "https://app/cb";
  code_challenge = "verifier";
  audience = "crm";
  scope = "mcp";
}

abbrev fresh : FreshPair
fresh = record { access_raw = "at"; refresh_raw = "rt" }

client-known : get_oauth_client request.client_id store ≡ some client
unfolding perform_all perform Store.put_oauth_client get_oauth_client insert lookup string_eq
client-known = refl

uri-listed : contains client.redirect_uris request.redirect_uri ≡ true
unfolding string_eq
uri-listed = refl

token-absent : get_mcp_token fresh.access_raw store ≡ none
unfolding perform_all perform Store.put_oauth_client get_mcp_token insert lookup
token-absent = refl

sign_in_through_routes_example :
    let (code, s1) = oauth_authorize (λ t. t) "raw" request 0 store in
    let (reply, s2) = oauth_token (λ t. t) fresh (code_form "raw" "verifier") 5 s1 in
    let (jwt, s3) = auth_exchange jose (λ t. t) km "https://kernel" "at" (one "crm") 9000 s2 in
    (code ≡ ok "raw")
    × (reply ≡ ok (record { access_token = "at"; refresh_token = "rt"; expires_in = 3600 }))
    × ((r : Resolved) × (r.principal_id ≡ "alice")
        × (r.org_id ≡ some "acme")
        × (jwt
            ≡ ok (mint jose km (mint_request "https://kernel" (one "crm") r) 300 (9000 / second))))
sign_in_through_routes_example =
    sign_in_through_routes (λ t. t) jose km "https://kernel" store request client "raw" "verifier"
      fresh 0 5 9000 (perform_all-IsValid (put_oauth_client client ∷ [])) client-known uri-listed
      refl token-absent (omega arith) (omega arith)
