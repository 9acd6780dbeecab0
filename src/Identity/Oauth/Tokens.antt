-- ===== src/Identity/Oauth/Tokens.antt =====
-- identity/oauth/token_endpoint.py and pkce.py: a code or a refresh token becomes a token pair.
-- `digest` is `b64url(sha256(text))`, which `hash_token` and `make_challenge` both compute.
pub mod Redeem
pub mod Rotation
pub mod Rotated
use islands_kernel.Base.{
  ℕ, ◌+◌, ◌*◌, String, Bool, true, false, not, Option, none, some, List, [], ◌∷◌, ◌==◌, string_eq,
  if◌then◌else◌, leb, Result, ok, err,
}
use islands_kernel.Base.Split.{is_ascii}
use islands_kernel.Base.Exec.{
  Exec, pure, raise, modify, gets, call, check, lift, some_or, ◌>>=◌, ◌>>◌,
}
use islands_kernel.Identity.Model.{OauthAuthCode, OauthAccessToken, Refresh, second, day}
use islands_kernel.Identity.Store.{
  IdentityStore, get_auth_code, consume_auth_code, put_access_token, get_access_token,
  rotate_refresh, access_token_hashes, get_island_by_audience,
}
use islands_kernel.Identity.Oauth.Clients.{
  OauthError, unknown_code, code_expired, audience_mismatch, pkce_failed, code_already_used,
  unknown_refresh, refresh_expired, missing_row, not_ascii,
}

-- `_resolve_refresh_ttl`
unfoldable pub resolve_refresh_ttl : IdentityStore → String → Option ℕ → ℕ
resolve_refresh_ttl store audience (some ttl) = ttl
resolve_refresh_ttl store audience none = elim (get_island_by_audience audience store) [
  | some island ↦ island.session_ttl_days * day
  | none ↦ 30 * day
]

-- The two raw tokens that a call of `_issue_pair` draws.
pub record FreshPair : Type 0 where
  pub access_raw : String
  pub refresh_raw : String

-- The response of the token endpoint; `token_type` is always "Bearer". `expires_in` is in seconds, and
-- so is `access_ttl` below.
pub record TokenResponse : Type 0 where
  pub access_token : String
  pub refresh_token : String
  pub expires_in : ℕ

-- Whom a pair is for: the arguments that `_issue_pair` copies into the row.
pub record Subject : Type 0 where
  pub client_id : String
  pub principal_id : String
  pub org_id : Option String
  pub audience : String
  pub scope : String

abbrev pub subject_of_code : OauthAuthCode → Subject
subject_of_code row = record {
  client_id = row.client_id;
  principal_id = row.principal_id;
  org_id = row.org_id;
  audience = row.audience;
  scope = row.scope;
}

abbrev pub subject_of_token : OauthAccessToken → Subject
subject_of_token row = record {
  client_id = row.client_id;
  principal_id = row.principal_id;
  org_id = row.org_id;
  audience = row.audience;
  scope = row.scope;
}

module _ (digest : String → String) where
  -- `verify_pkce_s256`. `compare_digest` raises a `TypeError` on a text that is not ASCII; the digest
  -- is base64, so that can only be the challenge, and then the two differ.
  unfoldable pub verify_pkce_s256 : String → String → Result OauthError Bool
  verify_pkce_s256 verifier challenge =
      if digest verifier == challenge
      then ok true
      else if is_ascii challenge
      then ok false
      else err not_ascii

  unfoldable pub pair_row : FreshPair → Subject → ℕ → ℕ → ℕ → OauthAccessToken
  pair_row fresh who now access_ttl refresh_ttl = record {
    hash = digest fresh.access_raw;
    client_id = who.client_id;
    principal_id = who.principal_id;
    org_id = who.org_id;
    audience = who.audience;
    scope = who.scope;
    expires_at = now + access_ttl * second;
    refresh = some (record { hash = digest fresh.refresh_raw; expires_at = now + refresh_ttl });
  }

  -- `_issue_pair`
  unfoldable pub issue_pair :
      FreshPair → Subject → ℕ → ℕ → ℕ → Exec IdentityStore OauthError TokenResponse
  unfolding pair_row
  issue_pair fresh who now access_ttl refresh_ttl = do
    modify (put_access_token (pair_row fresh who now access_ttl refresh_ttl))
    pure (record {
      access_token = fresh.access_raw;
      refresh_token = fresh.refresh_raw;
      expires_in = access_ttl;
    })

  -- `audience is not None and row.audience != audience`, negated
  unfoldable pub audience_agrees : Option String → String → Bool
  audience_agrees none own = true
  audience_agrees (some audience) own = own == audience

  -- The tests of `redeem_code` on the row, and what follows them.
  unfoldable pub redeem_row :
      FreshPair
      → OauthAuthCode
      → String
      → Option String
      → ℕ
      → ℕ
      → Option ℕ
      → Exec IdentityStore OauthError TokenResponse
  unfolding verify_pkce_s256 audience_agrees issue_pair
  redeem_row fresh row code_verifier audience now access_ttl refresh_ttl = do
    check (not (leb row.expires_at now)) code_expired
    check (audience_agrees audience row.audience) audience_mismatch
    proved ← lift (verify_pkce_s256 code_verifier row.code_challenge)
    check proved pkce_failed
    won ← call (consume_auth_code row.hash now)
    check won code_already_used
    ttl ← gets (λ s. resolve_refresh_ttl s row.audience refresh_ttl)
    issue_pair fresh (subject_of_code row) now access_ttl ttl

  unfoldable pub redeem_code :
      FreshPair
      → String
      → String
      → Option String
      → ℕ
      → ℕ
      → Option ℕ
      → Exec IdentityStore OauthError TokenResponse
  unfolding redeem_row
  redeem_code fresh code code_verifier audience now access_ttl refresh_ttl = do
    found ← gets (get_auth_code (digest code))
    row ← some_or found unknown_code
    redeem_row fresh row code_verifier audience now access_ttl refresh_ttl

  -- `row and row.refresh and row.refresh.get("hash") == rh`
  unfoldable pub carries : String → Option OauthAccessToken → Bool
  carries rh none = false
  carries rh (some row) = elim row.refresh [ none ↦ false | some r ↦ r.hash == rh ]

  -- The loop over `access_token_hashes()`: the first row that carries the refresh hash.
  unfoldable pub find_refresh : IdentityStore → String → List String → Option OauthAccessToken
  unfolding carries
  find_refresh store rh [] = none
  find_refresh store rh (cand_hash ∷ hashes) =
      if carries rh (get_access_token cand_hash store)
      then get_access_token cand_hash store
      else find_refresh store rh hashes

  -- `current.refresh.get("expires_at", 0)`
  unfoldable pub refresh_deadline : OauthAccessToken → ℕ
  refresh_deadline row = elim row.refresh [ none ↦ 0 | some r ↦ r.expires_at ]

  -- `refresh`
  unfoldable pub refresh_pair :
      FreshPair → String → ℕ → ℕ → Option ℕ → Exec IdentityStore OauthError TokenResponse
  unfolding find_refresh refresh_deadline issue_pair
  refresh_pair fresh refresh_token now access_ttl refresh_ttl = do
    found ← gets (λ s. find_refresh s (digest refresh_token) (access_token_hashes s))
    current ← some_or found unknown_refresh
    check (not (leb (refresh_deadline current) now)) refresh_expired
    ttl ← gets (λ s. resolve_refresh_ttl s current.audience refresh_ttl)
    issued ← issue_pair fresh (subject_of_token current) now access_ttl ttl
    new_row ← gets (get_access_token (digest issued.access_token))
    row ← some_or new_row missing_row
    modify (rotate_refresh current.hash row)
    pure issued
