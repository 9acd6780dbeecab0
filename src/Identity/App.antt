-- ===== src/Identity/App.antt =====
-- identity/app.py: the routes of the identity service. A reply is `ok`, or the status code of an
-- `HTTPException`; an exception that no route catches is FastAPI's 500.
pub mod SignIn
use Prim.Native.Nat.{◌/◌}
use islands_kernel.Base.{
  ℕ, String, Bool, true, false, ◌&&◌, not, Option, none, some, List, [], ◌∷◌, ◌<>◌, ◌==◌, string_eq,
  option_eq, if◌then◌else◌, is_some, Result, ok, err,
}
use islands_kernel.Base.Exec.{Exec, raise}
use islands_kernel.Identity.Model.{second}
use islands_kernel.Identity.Store.{IdentityStore}
use islands_kernel.Identity.Exchange.{ExchangeError, Audience, Resolved, exchange}
use islands_kernel.Identity.Jwt.{Jose, KeyManager, MintRequest, Jwk, jwks_document, mint}
use islands_kernel.Identity.Oauth.Clients.{OauthError, fetch_failed, missing_row, not_ascii, Fetch}
use islands_kernel.Identity.Oauth.Codes.{CodeRequest, issue_auth_code}
use islands_kernel.Identity.Oauth.Tokens.{FreshPair, TokenResponse, redeem_code, refresh_pair}
use islands_kernel.Identity.Federation.Assertion.{Library}
use islands_kernel.Identity.Federation.Flow.{
  FederationError, bad_client, code_refused, FreshTokens, Start, start_federation,
  complete_federation,
}

-- The routes catch `ValueError`s only: what `fetch` raises, and the attribute error on a missing
-- row, are not among them.
unfoldable pub status_of : OauthError → ℕ
status_of fetch_failed = 500
status_of missing_row = 500
status_of not_ascii = 500
status_of _ = 400

-- The routes of the federation catch `FederationError`s only, and not the `ValueError` of
-- `issue_auth_code`.
unfoldable pub federation_status : FederationError → ℕ
federation_status (bad_client e) = status_of e
federation_status (code_refused e) = 500
federation_status _ = 400

-- What a route makes of a call that may raise.
abbrev pub replying :
    {E A : Type 0} → (E → ℕ) → Result E A × IdentityStore → Result ℕ A × IdentityStore
replying status (ok a, s) = (ok a, s)
replying status (err e, s) = (err (status e), s)

-- The fields of the body of `POST /oauth/token` that are read, however it is encoded.
pub record TokenForm : Type 0 where
  pub grant_type : Option String
  pub code : Option String
  pub code_verifier : Option String
  pub audience : Option String
  pub resource : Option String
  pub refresh_token : Option String

-- The truth value of `raw.get(field)`.
unfoldable pub is_given : Option String → Bool
is_given none = false
is_given (some text) = not (text == "")

-- `raw["audience"] = raw["resource"]`, where only the latter is given
unfoldable pub audience_of : TokenForm → Option String
audience_of form =
    if not (is_given form.audience) && is_given form.resource then form.resource else form.audience

-- The query of `GET /oauth/authorize`.
pub record BrowserQuery : Type 0 where
  pub client_id : String
  pub redirect_uri : String
  pub code_challenge : String
  pub resource : String
  pub scope : String
  pub state : String
  pub code_challenge_method : String

unfoldable pub start_of : String → BrowserQuery → Start
start_of issuer query = record {
  client_id = query.client_id;
  redirect_uri = query.redirect_uri;
  code_challenge = query.code_challenge;
  audience = query.resource;
  scope = query.scope;
  client_state = query.state;
  return_uri = issuer <> "/oauth/callback";
}

-- The arguments that `auth_exchange` gives to `mint`.
unfoldable pub mint_request : String → Audience → Resolved → MintRequest
mint_request issuer audience resolved = record {
  issuer = issuer;
  sub = resolved.principal_id;
  typ = resolved.type;
  audience = audience;
  org = resolved.org_id;
  roles = resolved.roles;
  email = none;
  perms = none;
  sid = resolved.sid;
  scope = "mcp";
  island = resolved.island;
  island_sub = resolved.island_sub;
  island_org = resolved.island_org;
}

module _ (jose : Jose) (digest : String → String) (km : KeyManager jose) (issuer : String) where
  -- `GET /.well-known/jwks.json`
  unfoldable pub jwks : List Jwk
  jwks = jwks_document jose km

  -- `POST /auth/exchange`; the token of the reply. `int(now)` is in whole seconds.
  unfoldable pub auth_exchange : String → Audience → ℕ → Exec IdentityStore ℕ jose.Encoded
  auth_exchange opaque_token audience now store =
      elim (exchange digest opaque_token audience store now) [
        | err e ↦ (err 400, store)
        | ok resolved ↦
            (ok (mint jose km (mint_request issuer audience resolved) 300 (now / second)), store)
      ]

-- `POST /oauth/authorize`; the code of the reply. The route gives no `fetch`.
unfoldable pub oauth_authorize :
    (String → String) → String → CodeRequest → ℕ → Exec IdentityStore ℕ String
oauth_authorize digest raw request now store =
    replying status_of (issue_auth_code digest none raw request now 600000 store)

-- The branch of `POST /oauth/token` for a code.
unfoldable pub redeem_form :
    (String → String)
    → FreshPair
    → Option String
    → Option String
    → Option String
    → ℕ
    → Exec IdentityStore ℕ TokenResponse
redeem_form digest fresh (some code) (some verifier) audience now store =
    replying status_of (redeem_code digest fresh code verifier audience now 3600 none store)
redeem_form digest fresh _ _ audience now store = (err 400, store)

-- The branch of `POST /oauth/token` for a refresh token.
unfoldable pub refresh_form :
    (String → String) → FreshPair → Option String → ℕ → Exec IdentityStore ℕ TokenResponse
refresh_form digest fresh none now store = (err 400, store)
refresh_form digest fresh (some refresh_token) now store =
    replying status_of (refresh_pair digest fresh refresh_token now 3600 none store)

-- `POST /oauth/token`
unfoldable pub oauth_token :
    (String → String) → FreshPair → TokenForm → ℕ → Exec IdentityStore ℕ TokenResponse
oauth_token digest fresh form now store =
    if form.grant_type == some "refresh_token"
    then refresh_form digest fresh form.refresh_token now store
    else redeem_form digest fresh form.code form.code_verifier (audience_of form) now store

-- `GET /oauth/authorize`; where it redirects to.
unfoldable pub oauth_authorize_browser :
    Library
    → (String → String)
    → Fetch
    → String
    → String
    → String
    → BrowserQuery
    → ℕ
    → Exec IdentityStore ℕ String
oauth_authorize_browser lib digest client_fetch issuer txn_id nonce query now store =
    if query.code_challenge_method == "S256"
    then replying federation_status (
        start_federation lib digest client_fetch txn_id nonce (start_of issuer query) now 600000
          store)
    else (err 400, store)

-- `GET /oauth/callback`; where it redirects to.
unfoldable pub oauth_callback :
    Library
    → (String → String)
    → FreshTokens
    → String
    → String
    → String
    → ℕ
    → Exec IdentityStore ℕ String
oauth_callback lib digest fresh issuer txn sso_code now store =
    replying federation_status
      (complete_federation lib digest none fresh txn sso_code issuer now store)
