-- ===== src/Identity/Oauth/Codes.antt =====
-- identity/oauth/authorize_endpoint.py: the consent screen's data and the issue of a code.
use islands_kernel.Base.{ℕ, ◌+◌, String, Option, none, List}
use islands_kernel.Base.Exec.{Exec, pure, lift, modify, ◌>>=◌, ◌>>◌}
use islands_kernel.Identity.Model.{OauthClient, OauthAuthCode}
use islands_kernel.Identity.Store.{IdentityStore, put_auth_code}
use islands_kernel.Identity.Oauth.Clients.{OauthError, Fetch, resolve_client, validate_redirect_uri}

-- The dict of `build_consent`.
pub record Consent : Type 0 where
  pub client_name : String
  pub client_id : String
  pub scope : String
  pub audience : String
  pub redirect_uris : List String

unfoldable pub build_consent : OauthClient → String → String → Consent
build_consent client scope audience = record {
  client_name = client.name;
  client_id = client.id;
  scope = scope;
  audience = audience;
  redirect_uris = client.redirect_uris;
}

-- The arguments of `issue_auth_code` that go into the row.
pub record CodeRequest : Type 0 where
  pub client_id : String
  pub principal_id : String
  pub org_id : Option String
  pub redirect_uri : String
  pub code_challenge : String
  pub audience : String
  pub scope : String

-- The row for a code whose hash is `hash`.
unfoldable pub code_row : String → OauthClient → CodeRequest → ℕ → ℕ → OauthAuthCode
code_row hash client request now ttl = record {
  hash = hash;
  client_id = client.id;
  principal_id = request.principal_id;
  org_id = request.org_id;
  code_challenge = request.code_challenge;
  audience = request.audience;
  scope = request.scope;
  expires_at = now + ttl;
  consumed_at = none;
}

-- `raw` is the token that `generate_raw_token("ac")` draws.
unfoldable pub issue_auth_code :
    (String → String) → Fetch → String → CodeRequest → ℕ → ℕ → Exec IdentityStore OauthError String
unfolding code_row
issue_auth_code hash_token fetch raw request now ttl = do
  client ← resolve_client fetch request.client_id
  lift (validate_redirect_uri client request.redirect_uri)
  modify (put_auth_code (code_row (hash_token raw) client request now ttl))
  pure raw
