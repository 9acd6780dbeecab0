-- ===== src/Identity/Jwt.antt =====
-- identity/keys.py, identity/jwt_issuer.py and identity/jwt_verify.py: the kernel's own JWTs.
pub mod Minted
use islands_kernel.Base.{
  ℕ, ◌+◌, ◌*◌, String, true, false, Option, none, some, List, [], ◌∷◌, ◌==◌, string_eq, option_eq,
  if◌then◌else◌, leb, Result, ok, err,
}
use islands_kernel.Identity.Model.{PrincipalType, Role, second}
use islands_kernel.Identity.Exchange.{Audience, Resolved}

-- The dict of `build_claims`. `perms` and the three `island` claims are left out of the dict where
-- they are `none` here; `user_id` and `workspace_id` are the keys "userId" and "workspaceId". The
-- times are seconds.
pub record JwtClaims : Type 0 where
  pub iss : String
  pub sub : String
  pub typ : PrincipalType
  pub email : Option String
  pub org : Option String
  pub roles : List Role
  pub sid : Option String
  pub aud : Audience
  pub scope : String
  pub iat : ℕ
  pub exp : ℕ
  pub user_id : String
  pub workspace_id : Option String
  pub perms : Option (List String)
  pub island : Option (String × Option String × Option String)

-- The keyword arguments of `mint` but `km`, `ttl` and `now`.
pub record MintRequest : Type 0 where
  pub issuer : String
  pub sub : String
  pub typ : PrincipalType
  pub audience : Audience
  pub org : Option String
  pub roles : List Role
  pub email : Option String
  pub perms : Option (List String)
  pub sid : Option String
  pub scope : String
  pub island : Option String
  pub island_sub : Option String
  pub island_org : Option String

-- `if island is not None`: the three claims, or none of them.
unfoldable pub island_claims : MintRequest → Option (String × Option String × Option String)
island_claims request = elim request.island [
  | none ↦ none
  | some island ↦ some (island, request.island_sub, request.island_org)
]

-- `build_claims`
unfoldable pub build_claims : MintRequest → ℕ → ℕ → JwtClaims
build_claims request iat exp = record {
  iss = request.issuer;
  sub = request.sub;
  typ = request.typ;
  email = request.email;
  org = request.org;
  roles = request.roles;
  sid = request.sid;
  aud = request.audience;
  scope = request.scope;
  iat = iat;
  exp = exp;
  user_id = request.sub;
  workspace_id = request.org;
  perms = request.perms;
  island = island_claims request;
}

-- The dict of `public_jwk`. Of a key of another document only `kid` is read here.
pub record Jwk : Type 0 where
  pub kty : String
  pub crv : String
  pub use_for : String
  pub alg : String
  pub kid : Option String
  pub x : String

-- PyJWT and the Ed25519 keys. `Encoded` are the tokens, which are texts that only PyJWT reads. A
-- call that raises gives `none`. `decode` verifies the signature, the audience, the issuer where
-- one is given, that `exp`, `sub` and `aud` are there, and that `iat` is not ahead of the clock that
-- PyJWT reads, its last argument, in milliseconds.
pub record Jose : Type 1 where
  pub PrivateKey : Type 0
  pub PublicKey : Type 0
  pub Encoded : Type 0
  pub public_text : PrivateKey → String
  pub from_jwk : Jwk → Option PublicKey
  pub encode : JwtClaims → PrivateKey → String → Encoded
  pub kid_of : Encoded → Option (Option String)
  pub decode : Encoded → PublicKey → String → Option String → ℕ → Option JwtClaims

-- The `ValueError`s of `verify_island_jwt`, by their messages.
pub data JwtError : Type 0 where
  bad_header missing_kid malformed_jwk no_jwk not_verified token_expired : JwtError

module _ (jose : Jose) where
  pub record KeyManager : Type 0 where
    pub kid : String
    pub private_key : jose.PrivateKey

  -- `KeyManager.public_jwk`
  unfoldable pub public_jwk : KeyManager → Jwk
  public_jwk km = record {
    kty = "OKP";
    crv = "Ed25519";
    use_for = "sig";
    alg = "EdDSA";
    kid = some km.kid;
    x = jose.public_text km.private_key;
  }

  unfoldable pub jwks_document : KeyManager → List Jwk
  jwks_document km = public_jwk km ∷ []

  unfoldable pub mint_island_jwt : JwtClaims → KeyManager → jose.Encoded
  mint_island_jwt claims km = jose.encode claims km.private_key km.kid

  -- `mint`, with `now` in whole seconds
  unfoldable pub mint : KeyManager → MintRequest → ℕ → ℕ → jose.Encoded
  mint km request ttl now = mint_island_jwt (build_claims request now (now + ttl)) km

  -- `_public_key_for_kid`
  unfoldable pub public_key_for_kid : List Jwk → String → Result JwtError jose.PublicKey
  public_key_for_kid [] kid = err no_jwk
  public_key_for_kid (jwk ∷ jwks) kid =
      if jwk.kid == some kid
      then elim (jose.from_jwk jwk) [ none ↦ err malformed_jwk | some key ↦ ok key ]
      else public_key_for_kid jwks kid

  -- `if now >= claims["exp"]`, with `now` in milliseconds
  unfoldable pub check_time : Option JwtClaims → ℕ → Result JwtError JwtClaims
  check_time none now = err not_verified
  check_time (some claims) now =
      if leb (claims.exp * second) now then err token_expired else ok claims

  -- What follows the header.
  unfoldable pub verify_with_kid :
      Option String
      → jose.Encoded
      → List Jwk
      → String
      → ℕ
      → Option String
      → ℕ
      → Result JwtError JwtClaims
  verify_with_kid none token jwks audience now issuer clock = err missing_kid
  verify_with_kid (some kid) token jwks audience now issuer clock =
      if kid == "" then err missing_kid else elim (public_key_for_kid jwks kid) [
        | err e ↦ err e
        | ok key ↦ check_time (jose.decode token key audience issuer clock) now
      ]

  -- `clock` is the time that PyJWT reads itself; `now` is the argument of that name.
  unfoldable pub verify_island_jwt :
      jose.Encoded → List Jwk → String → ℕ → Option String → ℕ → Result JwtError JwtClaims
  verify_island_jwt token jwks audience now issuer clock = elim (jose.kid_of token) [
    | none ↦ err bad_header
    | some kid ↦ verify_with_kid kid token jwks audience now issuer clock
  ]
