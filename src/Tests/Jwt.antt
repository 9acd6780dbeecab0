-- ===== src/Tests/Jwt.antt =====
-- A JWT for two audiences, checked for one of them.
use islands_kernel.Base.{
  String, ◌≡◌, ◌⊎◌, refl, Bool, true, not, ◌&&◌, Option, none, some, [], ◌∷◌, ◌==◌, ◌*◌, leb,
  contains, if◌then◌else◌, string_eq, inr, ok, arith,
}
use islands_kernel.Identity.Model.{human, owner, second}
use islands_kernel.Identity.Exchange.{Audience, one, many}
use islands_kernel.Identity.Jwt.{
  Jose, JwtClaims, MintRequest, KeyManager, build_claims, public_jwk, jwks_document, mint,
  verify_island_jwt,
}
use islands_kernel.Identity.Jwt.Minted.{IsFor, IsLawful, mint-verify_island_jwt}

abbrev is_for : Audience → String → Bool
is_for (one own) audience = own == audience && not (own == "")
is_for (many owns) audience = contains owns audience

abbrev issuer_agrees : Option String → String → Bool
issuer_agrees none iss = true
issuer_agrees (some issuer) iss = issuer == iss

is_for-IsFor :
    (own : Audience) (audience : String) → IsFor own audience → is_for own audience ≡ true
is_for-IsFor (one own) audience (same, named) = ground arith
is_for-IsFor (many owns) audience h = h

issuer_agrees-of :
    (issuer : Option String) (iss : String)
    → (issuer ≡ none) ⊎ (issuer ≡ some iss)
    → issuer_agrees issuer iss ≡ true
issuer_agrees-of none iss h = refl
issuer_agrees-of (some issuer) iss h = ground arith

-- A token is its claims, its key and its key id.
abbrev pub jose : Jose
jose = record {
  PrivateKey = String;
  PublicKey = String;
  Encoded = JwtClaims × String × String;
  public_text = λ key. key;
  from_jwk = λ jwk. some jwk.x;
  encode = λ claims key kid. (claims, key, kid);
  kid_of = λ (claims, key, kid). some (some kid);
  decode = λ (claims, key, kid) public audience issuer clock.
      if (key == public
        && (is_for claims.aud audience
            && (issuer_agrees issuer claims.iss && leb (claims.iat * second) clock)))
      then some claims
      else none;
}

abbrev pub km : KeyManager jose
km = record { kid = "k1"; private_key = "secret" }

abbrev request : MintRequest
request = record {
  issuer = "https://kernel";
  sub = "alice";
  typ = human;
  audience = many ("crm" ∷ "vault" ∷ []);
  org = some "acme";
  roles = owner ∷ [];
  email = none;
  perms = none;
  sid = none;
  scope = "mcp";
  island = none;
  island_sub = none;
  island_org = none;
}

jose-IsLawful : IsLawful jose (λ key. key)
unfolding public_jwk
jose-IsLawful = record {
  kid_of-encode = λ claims key kid. refl;
  from_jwk-public = λ k. refl;
  decode-encode = λ claims key kid audience issuer clock for of mature.
      ground (
        arith,
        is_for-IsFor claims.aud audience for,
        issuer_agrees-of issuer claims.iss of,
        mature,
      );
  decode-immature = λ claims key kid audience issuer clock early. ground (arith, early);
}

mint-verify_island_jwt_example :
    verify_island_jwt jose
      (mint jose km request 300 1000)
      (jwks_document jose km)
      "vault"
      1200000
      (some "https://kernel")
      1100000
    ≡ ok (build_claims request 1000 1300)
unfolding string_eq
mint-verify_island_jwt_example =
    mint-verify_island_jwt jose (λ key. key) km request 300 1000 1200000 1100000 "vault"
      (some "https://kernel") jose-IsLawful (λ e. cc e) refl (inr refl)
