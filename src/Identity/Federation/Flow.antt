-- ===== src/Identity/Federation/Flow.antt =====
-- identity/federation/flow.py: sign-in at an island's own service, and the code that follows it.
pub mod Once
use Prim.Native.Char.{code}
use islands_kernel.Base.{
  ℕ, ◌+◌, String, ◌<>◌, Bool, true, false, ◌&&◌, ◌||◌, not, Option, none, some, List, [], ◌∷◌, ◌==◌,
  string_eq, option_eq, if◌then◌else◌, leb, Result, ok, err, is_some,
}
use islands_kernel.Base.Exec.{Exec, pure, gets, call, some_or, modify, check, ◌>>=◌, ◌>>◌}
use islands_kernel.Identity.Model.{IslandRegistry, FederationTxn, OauthClient}
use islands_kernel.Identity.Store.{
  IdentityStore, get_island_by_audience, get_island, put_federation_txn, get_federation_txn,
  consume_federation_txn,
}
use islands_kernel.Identity.Oauth.Clients.{OauthError, Fetch, resolve_client, validate_redirect_uri}
use islands_kernel.Identity.Oauth.Codes.{CodeRequest, issue_auth_code}
use islands_kernel.Identity.Federation.Assertion.{
  AssertionError, Library, Identified, verify_island_assertion, verify_island_assertion_symmetric,
}
use islands_kernel.Identity.Federation.Principals.{find_or_create_island_principal}

-- `FederationError`, by its message, and the `ValueError` of `issue_auth_code`.
pub data FederationError : Type 0 where
  no_island island_disabled unknown_txn txn_expired txn_used : FederationError
  island_unavailable exchange_failed : FederationError
  bad_assertion : AssertionError → FederationError
  bad_client : OauthError → FederationError
  code_refused : OauthError → FederationError

-- `"?" in url`
unfoldable pub has_query : String → Bool
has_query String.[] = false
has_query (String.◌∷◌ c s) = (leb (code c) b'?' && leb b'?' (code c)) || has_query s

-- `f"{url}{sep}{query}"`
unfoldable pub with_query : String → String → String
unfolding has_query
with_query url query = url <> ((if has_query url then "&" else "?") <> query)

module _ (lib : Library) where
  -- `island.assertion_secret`, where it is true
  unfoldable pub secret_of : IslandRegistry → Option String
  secret_of island = elim island.assertion_secret [
    | none ↦ none
    | some secret ↦ if secret == "" then none else some secret
  ]

  -- The two `try` blocks of `complete_federation`: fetch, then verify.
  unfoldable pub identify :
      IslandRegistry → String → String → String → ℕ → Result FederationError Identified
  identify island sso_code kernel_issuer nonce now = elim (lib.island_fetch island sso_code) [
    | none ↦ err exchange_failed
    | some assertion ↦ elim (secret_of island) [
      | some secret ↦
          elim (verify_island_assertion_symmetric lib assertion secret island.issuer kernel_issuer
            nonce now) [ err e ↦ err (bad_assertion e) | ok identity ↦ ok identity ]
      | none ↦ elim (lib.island_jwks_fetch island) [
        | none ↦ err exchange_failed
        | some jwks ↦
            elim (verify_island_assertion lib assertion jwks island.issuer kernel_issuer nonce
              now) [ err e ↦ err (bad_assertion e) | ok identity ↦ ok identity ]
      ]
    ]
  ]

-- The random tokens that a call draws.
pub record FreshTokens : Type 0 where
  pub pid : String
  pub code : String

-- The arguments of `start_federation` that go into the transaction.
pub record Start : Type 0 where
  pub client_id : String
  pub redirect_uri : String
  pub code_challenge : String
  pub audience : String
  pub scope : String
  pub client_state : String
  pub return_uri : String

module _ (lib : Library) (hash_token : String → String) (fetch : Fetch) where
  -- An error of the client's lookup, as a `FederationError`.
  unfoldable pub client_for :
      String → String → IdentityStore → Result FederationError OauthClient × IdentityStore
  client_for client_id redirect_uri store =
      let (found, s) = resolve_client fetch client_id store in
      elim found [
        | err e ↦ (err (bad_client e), s)
        | ok client ↦ elim (validate_redirect_uri client redirect_uri) [
          | err e ↦ (err (bad_client e), s)
          | ok _ ↦ (ok client, s)
        ]
      ]

  unfoldable pub txn_row :
      String → String → Start → OauthClient → IslandRegistry → ℕ → FederationTxn
  txn_row hash nonce request client island expires_at = record {
    hash = hash;
    client_id = client.id;
    redirect_uri = request.redirect_uri;
    code_challenge = request.code_challenge;
    audience = request.audience;
    scope = request.scope;
    client_state = request.client_state;
    island_id = island.id;
    nonce = nonce;
    expires_at = expires_at;
    consumed_at = none;
  }

  -- `start_federation`
  unfoldable pub start_federation :
      String → String → Start → ℕ → ℕ → Exec IdentityStore FederationError String
  start_federation txn_id nonce request now txn_ttl = do
    client ← client_for request.client_id request.redirect_uri
    found ← gets (get_island_by_audience request.audience)
    island ← some_or found no_island
    check (not (is_some island.disabled_at)) island_disabled
    modify (
        put_federation_txn
          (txn_row (hash_token txn_id) nonce request client island (now + txn_ttl)))
    pure (
        with_query island.sso_authorize_url (
          lib.urlencode
            (("return_uri", request.return_uri) ∷ ("txn", txn_id) ∷ ("nonce", nonce) ∷ [])))

  -- The last part of `complete_federation`: the principal, the code, and where to go with it.
  unfoldable pub sign_in :
      FreshTokens
      → FederationTxn
      → IslandRegistry
      → Identified
      → ℕ
      → Exec IdentityStore FederationError String
  sign_in fresh txn island identity now store =
      let (principal_id, known) =
        find_or_create_island_principal fresh.pid island identity.island_user_id identity.email now
          store in
      let request : CodeRequest = record {
        client_id = txn.client_id;
        principal_id = principal_id;
        org_id = some island.org_id;
        redirect_uri = txn.redirect_uri;
        code_challenge = txn.code_challenge;
        audience = txn.audience;
        scope = txn.scope;
      } in
      let (issued, s) = issue_auth_code hash_token fetch fresh.code request now 600000 known in
      elim issued [
        | err e ↦ (err (code_refused e), s)
        | ok raw ↦ (
          ok (
              with_query txn.redirect_uri
                (lib.urlencode (("code", raw) ∷ ("state", txn.client_state) ∷ []))),
          s,
        )
      ]

  -- What follows the use of the transaction.
  unfoldable pub proceed :
      FreshTokens → FederationTxn → String → String → ℕ → Exec IdentityStore FederationError String
  proceed fresh txn sso_code kernel_issuer now store = elim (get_island txn.island_id store) [
    | none ↦ (err island_unavailable, store)
    | some island ↦ elim island.disabled_at [
      | some at ↦ (err island_unavailable, store)
      | none ↦ elim (identify lib island sso_code kernel_issuer txn.nonce now) [
        | err e ↦ (err e, store)
        | ok identity ↦ sign_in fresh txn island identity now store
      ]
    ]
  ]

  -- `complete_federation`
  unfoldable pub complete_federation :
      FreshTokens → String → String → String → ℕ → Exec IdentityStore FederationError String
  complete_federation fresh txn_id sso_code kernel_issuer now = do
    found ← gets (get_federation_txn (hash_token txn_id))
    txn ← some_or found unknown_txn
    check (not (leb txn.expires_at now)) txn_expired
    won ← call (consume_federation_txn txn.hash now)
    check won txn_used
    proceed fresh txn sso_code kernel_issuer now
