-- ===== src/Identity/App/SignIn.antt =====
-- A sign-in through three routes: a code, a token for it, and a JWT for that.
use Prim.Native.Nat.{◌/◌}
use islands_kernel.Base.{
  ℕ, ◌+◌, ◌<◌, String, ◌≡◌, refl, ap, ◌==◌, true, false, Option, none, some, inr, arith, string_eq,
  option_eq, ok, contains,
}
use islands_kernel.Base.Dict.{insert, lookup-insert_self}
use islands_kernel.Identity.Model.{second, OauthClient, OauthAuthCode, OauthAccessToken}
use islands_kernel.Identity.Store.{
  IdentityStore, get_oauth_client, get_auth_code, put_auth_code, put_access_token, get_access_token,
  get_mcp_token,
}
use islands_kernel.Identity.Store.Invariant as Invariant
use islands_kernel.Identity.Store.Invariant.{IsValid, perform, perform-IsValid}
use islands_kernel.Identity.Exchange.{
  Credential, Resolved, one, find_row, of_access_token, describe,
}
use islands_kernel.Identity.Exchange.Facts.{IsAccepted, exchange_iff}
use islands_kernel.Identity.Jwt.{Jose, KeyManager, mint}
use islands_kernel.Identity.Oauth.Clients.{resolve_client, validate_redirect_uri}
use islands_kernel.Identity.Oauth.Codes.{CodeRequest, code_row, issue_auth_code}
use islands_kernel.Identity.Oauth.Tokens.{
  FreshPair, audience_agrees, subject_of_code, resolve_refresh_ttl, pair_row,
}
use islands_kernel.Identity.Oauth.Tokens.Redeem.{Redeemable, redeemed, redeem_found}
use islands_kernel.Identity.App.{
  TokenForm, audience_of, is_given, mint_request, auth_exchange, oauth_authorize, redeem_form,
  oauth_token,
}

-- The form of a client that redeems a code with its verifier and names no audience.
abbrev pub code_form : String → String → TokenForm
code_form code verifier = record {
  grant_type = some "authorization_code";
  code = some code;
  code_verifier = some verifier;
  audience = none;
  resource = none;
  refresh_token = none;
}

not_refresh : ◌==◌ {A = Option String} (some "authorization_code") (some "refresh_token") ≡ false
unfolding option_eq string_eq
not_refresh = refl

module _ (digest : String → String) where
  -- The route stores the row of the code.
  authorized :
      (raw : String) (request : CodeRequest) (client : OauthClient) (now : ℕ) (s : IdentityStore)
      → get_oauth_client request.client_id s ≡ some client
      → contains client.redirect_uris request.redirect_uri ≡ true
      → oauth_authorize digest raw request now s
        ≡ (ok raw, put_auth_code (code_row (digest raw) client request now 600000) s)
  unfolding oauth_authorize issue_auth_code resolve_client validate_redirect_uri
  authorized raw request client now s known listed =
      rw (oauth_authorize, issue_auth_code, resolve_client, known, validate_redirect_uri, listed)
        refl

  -- The route answers what the redemption of the row does.
  token_of_code :
      (fresh : FreshPair) (raw verifier : String) (row : OauthAuthCode) (now : ℕ)
      (s : IdentityStore)
      → IsValid s
      → get_auth_code (digest raw) s ≡ some row
      → Redeemable digest row verifier none now
      → oauth_token digest fresh (code_form raw verifier) now s ≡ (
        ok (record {
          access_token = fresh.access_raw;
          refresh_token = fresh.refresh_raw;
          expires_in = 3600;
        }),
        redeemed digest fresh raw row now 3600 none s,
      )
  unfolding oauth_token redeem_form audience_of is_given get_auth_code
  token_of_code fresh raw verifier row now s v found can =
      rw
        (
          oauth_token,
          not_refresh,
          redeem_found digest fresh raw verifier none now 3600 none s row v found can,
        )
        refl

  module _ (jose : Jose) (km : KeyManager jose) (issuer : String) where
    -- The route mints the JWT of the row that the token's hash names.
    exchanged :
        (token audience : String) (row : OauthAccessToken) (now : ℕ) (s : IdentityStore)
        → get_mcp_token (digest token) s ≡ none
        → get_access_token (digest token) s ≡ some row
        → row.audience ≡ audience
        → now < row.expires_at
        → auth_exchange jose digest km issuer token (one audience) now s ≡ (
          ok (
              mint jose km
                (mint_request issuer (one audience) (describe s (of_access_token row)))
                300
                (now / second)),
          s,
        )
    unfolding auth_exchange find_row of_access_token
    exchanged token audience row now s absent there same early =
        let given : Credential = of_access_token row in
        let found : find_row s (digest token) ≡ some given = ground (arith, absent, there) in
        let accepted : IsAccepted given (one audience) now =
          (refl, inr (audience, ap some same, refl), λ at e. ground (arith, e)) in
        rw
          (
            auth_exchange,
            (exchange_iff digest token (one audience) s now (describe s given)).1
                (given, found, accepted, refl),
          )
          refl

    -- A client that is registered with the redirect URI is given a code; within ten minutes, with
    -- the verifier of its challenge, it is given a token for the code; and within the hour after
    -- that, the token is exchanged for a JWT of the audience that was asked for, minted for the
    -- principal and the org that the code was issued to. The store is a keyed one, and no other
    -- credential has the hash of the new access token.
    pub sign_in_through_routes :
        (s : IdentityStore) (request : CodeRequest) (client : OauthClient) (raw verifier : String)
        (fresh : FreshPair) (t0 t1 t2 : ℕ)
        → IsValid s
        → get_oauth_client request.client_id s ≡ some client
        → contains client.redirect_uris request.redirect_uri ≡ true
        → digest verifier ≡ request.code_challenge
        → get_mcp_token (digest fresh.access_raw) s ≡ none
        → t1 < t0 + 600000
        → t2 < t1 + 3600000
        → let (code, s1) = oauth_authorize digest raw request t0 s in
          let (reply, s2) = oauth_token digest fresh (code_form raw verifier) t1 s1 in
          let (jwt, s3) =
            auth_exchange jose digest km issuer fresh.access_raw (one request.audience) t2 s2 in
          (code ≡ ok raw)
          × (reply
              ≡ ok (record {
                access_token = fresh.access_raw;
                refresh_token = fresh.refresh_raw;
                expires_in = 3600;
              }))
          × ((r : Resolved) × (r.principal_id ≡ request.principal_id)
              × (r.org_id ≡ request.org_id)
              × (jwt
                  ≡ ok (
                      mint jose km
                        (mint_request issuer (one request.audience) r)
                        300
                        (t2 / second))))
    unfolding get_auth_code get_mcp_token get_access_token put_auth_code put_access_token pair_row
        code_row describe of_access_token perform audience_agrees
    sign_in_through_routes s request client raw verifier fresh t0 t1 t2 v known listed proof absent
          soon later =
        let row = code_row (digest raw) client request t0 600000 in
        let s1 = put_auth_code row s in
        let can : Redeemable digest row verifier none t1 = record {
          in_time = soon;
          fits = refl;
          proved = proof;
          unused = refl;
        } in
        let keyed : IsValid s1 = perform-IsValid (Invariant.put_auth_code row) s v in
        let s2 = redeemed digest fresh raw row t1 3600 none s1 in
        let found : get_auth_code (digest raw) s1 ≡ some row =
          lookup-insert_self (digest raw) row s.codes in
        let marked : IdentityStore = record s1 {
          codes = insert (digest raw) (record row { consumed_at = some t1 }) s1.codes;
        } in
        let token : OauthAccessToken =
          pair_row digest fresh (subject_of_code row) t1 3600
            (resolve_refresh_ttl marked row.audience none) in
        let stored : get_access_token (digest fresh.access_raw) s2 ≡ some token =
          lookup-insert_self (digest fresh.access_raw) token s1.at in
        rw
          (
            authorized raw request client t0 s known listed,
            token_of_code fresh raw verifier row t1 s1 keyed found can,
            exchanged fresh.access_raw request.audience token t2 s2 absent stored refl later,
          )
          (refl, refl, (describe s2 (of_access_token token), refl, refl, refl))
