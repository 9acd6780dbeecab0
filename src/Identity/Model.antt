-- ===== src/Identity/Model.antt =====
-- identity/model.py: the rows of the identity kernel. A `float` of seconds is a natural number of
-- milliseconds; the constructors `to_use` and `to_manage` are the literals "use" and "manage".
use islands_kernel.Base.{ℕ, String, Bool, Option, List}

pub data PrincipalType : Type 0 where
  human service : PrincipalType

pub data Role : Type 0 where
  owner admin member viewer : Role

pub data Access : Type 0 where
  to_use to_manage : Access

pub data TargetKind : Type 0 where
  org island capability connection event_type : TargetKind

pub record Principal : Type 0 where
  pub id : String
  pub type : PrincipalType
  pub email : Option String
  pub display_name : Option String
  pub public_key : Option String
  pub created_at : ℕ

pub record Org : Type 0 where
  pub id : String
  pub name : String
  pub created_at : ℕ

pub record Membership : Type 0 where
  pub principal_id : String
  pub org_id : String
  pub roles : List Role
  pub active : Bool
  pub joined_at : ℕ

pub record GrantTarget : Type 0 where
  pub kind : TargetKind
  pub id : String

pub record Grant : Type 0 where
  pub id : String
  pub principal_id : String
  pub target : GrantTarget
  pub access : Access
  pub scopes_subset : Option (List String)
  pub granted_by : String
  pub granted_at : ℕ
  pub revoked_at : Option ℕ

pub record McpToken : Type 0 where
  pub hash : String
  pub principal_id : String
  pub org_id : Option String
  pub audience : Option String
  pub scope : String
  pub expires_at : Option ℕ
  pub revoked_at : Option ℕ

-- `session_ttl_days` is a whole number of days.
pub record IslandRegistry : Type 0 where
  pub id : String
  pub name : String
  pub issuer : String
  pub jwks_uri : String
  pub audience : String
  pub sso_authorize_url : String
  pub sso_token_url : String
  pub sso_client_secret_hash : String
  pub org_id : String
  pub session_ttl_days : ℕ
  pub created_at : ℕ
  pub disabled_at : Option ℕ
  pub assertion_secret : Option String

pub record IslandPrincipalLink : Type 0 where
  pub island_id : String
  pub island_user_id : String
  pub principal_id : String
  pub created_at : ℕ

pub data ClientType : Type 0 where
  public confidential : ClientType

pub record OauthClient : Type 0 where
  pub id : String
  pub name : String
  pub redirect_uris : List String
  pub type : ClientType
  pub client_id_metadata_url : Option String

pub record OauthAuthCode : Type 0 where
  pub hash : String
  pub client_id : String
  pub principal_id : String
  pub org_id : Option String
  pub code_challenge : String
  pub audience : String
  pub scope : String
  pub expires_at : ℕ
  pub consumed_at : Option ℕ

pub record FederationTxn : Type 0 where
  pub hash : String
  pub client_id : String
  pub redirect_uri : String
  pub code_challenge : String
  pub audience : String
  pub scope : String
  pub client_state : String
  pub island_id : String
  pub nonce : String
  pub expires_at : ℕ
  pub consumed_at : Option ℕ

-- The `refresh` dict of an access token.
pub record Refresh : Type 0 where
  pub hash : String
  pub expires_at : ℕ

pub record OauthAccessToken : Type 0 where
  pub hash : String
  pub client_id : String
  pub principal_id : String
  pub org_id : Option String
  pub audience : String
  pub scope : String
  pub expires_at : ℕ
  pub refresh : Option Refresh

pub record AccessLog : Type 0 where
  pub principal_id : String
  pub org_id : Option String
  pub island : String
  pub capability : String
  pub at : ℕ

-- A day in milliseconds.
abbrev pub day : ℕ
day = 86400000

-- A second in milliseconds.
abbrev pub second : ℕ
second = 1000
