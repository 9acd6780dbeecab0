-- ===== src/Identity/Federation/Assertion.antt =====
-- identity/federation/assertion.py: what an island's assertion proves.
use islands_kernel.Base.{
  ◌*◌, ℕ, String, Option, none, some, List, [], ◌∷◌, ◌==◌, string_eq, option_eq, if◌then◌else◌, leb,
  Result, ok, err,
}
use islands_kernel.Identity.Model.{IslandRegistry, second}

-- `IslandAssertionError`, by its message.
pub data AssertionError : Type 0 where
  bad_header missing_kid malformed_jwk no_jwk not_verified expired nonce_mismatch : AssertionError

-- The claims of an assertion, as far as they are read.
pub record Claims : Type 0 where
  pub sub : String
  pub exp : ℕ
  pub nonce : Option String
  pub email : Option String
  pub workspace : Option String

-- PyJWT, whose `decode` verifies the signature, the issuer and the audience and requires the four
-- claims; `urlencode`; and the two calls to the island. A call that raises gives `none`.
pub record Library : Type 1 where
  pub Jwk : Type 0
  pub Key : Type 0
  pub kid_of_token : String → Option (Option String)
  pub kid_of_jwk : Jwk → Option String
  pub from_jwk : Jwk → Option Key
  pub decode_with_key : String → Key → String → String → Option Claims
  pub decode_with_secret : String → String → String → String → Option Claims
  pub urlencode : List (String × String) → String
  pub island_fetch : IslandRegistry → String → Option String
  pub island_jwks_fetch : IslandRegistry → Option (List Jwk)

-- What both verifications return; its `workspace` is read by nobody.
pub record Identified : Type 0 where
  pub island_user_id : String
  pub email : Option String
  pub workspace : Option String

-- The tests that both verifications make of the decoded claims.
unfoldable pub check_claims : String → ℕ → Option Claims → Result AssertionError Identified
check_claims expected_nonce now none = err not_verified
check_claims expected_nonce now (some claims) =
    if leb (claims.exp * second) now
    then err expired
    else if claims.nonce == some expected_nonce
    then ok
        (record { island_user_id = claims.sub; email = claims.email; workspace = claims.workspace })
    else err nonce_mismatch

module _ (lib : Library) where
  -- `_public_key_for_kid`
  unfoldable pub public_key_for_kid : List lib.Jwk → String → Result AssertionError lib.Key
  public_key_for_kid [] kid = err no_jwk
  public_key_for_kid (jwk ∷ jwks) kid =
      if lib.kid_of_jwk jwk == some kid
      then elim (lib.from_jwk jwk) [ none ↦ err malformed_jwk | some key ↦ ok key ]
      else public_key_for_kid jwks kid

  -- `verify_island_assertion` once the key id is read; the empty text is no key id.
  unfoldable pub verify_with_kid :
      String
      → List lib.Jwk
      → String
      → String
      → String
      → ℕ
      → Option String
      → Result AssertionError Identified
  verify_with_kid token jwks expected_iss expected_aud expected_nonce now none = err missing_kid
  verify_with_kid token jwks expected_iss expected_aud expected_nonce now (some kid) =
      if kid == "" then err missing_kid else elim (public_key_for_kid jwks kid) [
        | err e ↦ err e
        | ok key ↦
            check_claims expected_nonce now
              (lib.decode_with_key token key expected_aud expected_iss)
      ]

  unfoldable pub verify_island_assertion :
      String → List lib.Jwk → String → String → String → ℕ → Result AssertionError Identified
  unfolding verify_with_kid
  verify_island_assertion token jwks expected_iss expected_aud expected_nonce now =
      elim (lib.kid_of_token token) [
        | none ↦ err bad_header
        | some kid ↦ verify_with_kid token jwks expected_iss expected_aud expected_nonce now kid
      ]

  unfoldable pub verify_island_assertion_symmetric :
      String → String → String → String → String → ℕ → Result AssertionError Identified
  verify_island_assertion_symmetric token secret expected_iss expected_aud expected_nonce now =
      check_claims expected_nonce now
        (lib.decode_with_secret token secret expected_aud expected_iss)
