-- ===== src/Identity/Jwt/Minted.antt =====
-- A JWT that the kernel mints, as its own verification reads it.
use native.Mathlib.Decide.{dec_lt}
use islands_kernel.Base.{
  ℕ, ◌+◌, ◌*◌, String, ◌≡◌, ◌≢◌, ◌⊎◌, refl, true, Option, none, some, arith, string_eq, option_eq,
  contains, if◌then◌else◌, leb, ltb, ◌<◌, ◌≤◌, ok, err,
}
use islands_kernel.Identity.Model.{second}
use islands_kernel.Identity.Exchange.{Audience, one, many}
use islands_kernel.Identity.Jwt.{
  Jose, JwtClaims, MintRequest, KeyManager, build_claims, public_jwk, jwks_document, mint,
  mint_island_jwt, public_key_for_kid, check_time, verify_with_kid, verify_island_jwt,
  token_expired, not_verified,
}

-- The audience is one that the token is for. PyJWT takes an empty `aud` as a missing one.
abbrev pub IsFor : Audience → String → Type 0
IsFor (one own) audience = (own ≡ audience) × (own ≢ "")
IsFor (many owns) audience = contains owns audience ≡ true

module _ (jose : Jose) (public_key : jose.PrivateKey → jose.PublicKey) where
  -- What PyJWT documents of a token that it encoded itself: the header holds the key id, the JWK of
  -- an Ed25519 key is read as that key, and the public key decodes the claims for an audience and an
  -- issuer that they name, unless they were issued after the time on the clock.
  pub record IsLawful : Type 0 where
    pub kid_of-encode :
        (claims : JwtClaims) (key : jose.PrivateKey) (kid : String)
        → jose.kid_of (jose.encode claims key kid) ≡ some (some kid)
    pub from_jwk-public :
        (km : KeyManager jose)
        → jose.from_jwk (public_jwk jose km) ≡ some (public_key km.private_key)
    pub decode-encode :
        (claims : JwtClaims) (key : jose.PrivateKey) (kid audience : String)
        (issuer : Option String) (clock : ℕ)
        → IsFor claims.aud audience
        → (issuer ≡ none) ⊎ (issuer ≡ some claims.iss)
        → claims.iat * second ≤ clock
        → jose.decode (jose.encode claims key kid) (public_key key) audience issuer clock
          ≡ some claims
    pub decode-immature :
        (claims : JwtClaims) (key : jose.PrivateKey) (kid audience : String)
        (issuer : Option String) (clock : ℕ)
        → clock < claims.iat * second
        → jose.decode (jose.encode claims key kid) (public_key key) audience issuer clock ≡ none

  own_kid : (km : KeyManager jose) → (public_jwk jose km).kid ≡ some km.kid
  unfolding public_jwk
  own_kid km = refl

  own_key :
      (km : KeyManager jose)
      → IsLawful
      → public_key_for_kid jose (jwks_document jose km) km.kid ≡ ok (public_key km.private_key)
  unfolding public_key_for_kid jwks_document
  own_key km law = ground (arith, law.from_jwk-public km, own_kid km)

  -- A JWT that is minted with a named key, and checked against the key manager's own document for
  -- an audience that it is for and for its issuer or none, is refused while the clock of PyJWT is
  -- behind the time at which it says that it was issued. From then on it gives back exactly the
  -- claims of `build_claims` before its `ttl` is over by the caller's time, and after that it is
  -- refused as expired.
  pub mint-verify_island_jwt :
      (km : KeyManager jose) (request : MintRequest) (ttl issued_at now clock : ℕ)
      (audience : String) (issuer : Option String)
      → IsLawful
      → km.kid ≢ ""
      → IsFor request.audience audience
      → (issuer ≡ none) ⊎ (issuer ≡ some request.issuer)
      → verify_island_jwt jose
          (mint jose km request ttl issued_at)
          (jwks_document jose km)
          audience
          now
          issuer
          clock
        ≡ (if ltb clock (issued_at * second)
            then err not_verified
            else if leb ((issued_at + ttl) * second) now
            then err token_expired
            else ok (build_claims request issued_at (issued_at + ttl)))
  unfolding verify_island_jwt verify_with_kid mint mint_island_jwt check_time build_claims
  mint-verify_island_jwt km request ttl issued_at now clock audience issuer law named for of =
      let claims : JwtClaims = build_claims request issued_at (issued_at + ttl) in
      let header = law.kid_of-encode claims km.private_key km.kid in
      let key = own_key km law in
      elim (dec_lt clock (issued_at * second)) [
        | yes early ↦ ground (
          arith,
          header,
          key,
          law.decode-immature claims km.private_key km.kid audience issuer clock early,
        )
        | no mature ↦ ground (
          arith,
          header,
          key,
          law.decode-encode claims km.private_key km.kid audience issuer clock for of (omega arith),
        )
      ]
