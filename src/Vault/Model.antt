-- ===== src/Vault/Model.antt =====
-- vault/model.py: connection keys, tokens, connections, their grants and their access log.
-- Times are natural numbers of milliseconds.
use islands_kernel.Base.{ℕ, ◌+◌, String, ◌<>◌, Bool, Option, List, leb}
use islands_kernel.Identity.Model.{Access}

pub data Rotation : Type 0 where
  rotating static : Rotation

pub record ConnKey : Type 0 where
  pub org : String
  pub provider : String
  pub account : String

-- `ConnKey.as_str`
unfoldable pub as_str : ConnKey → String
as_str key = key.org <> ("/" <> (key.provider <> ("/" <> key.account)))

pub record Token : Type 0 where
  pub access_token : String
  pub refresh_token : String
  pub expires_at : ℕ
  pub scope : String

-- `Token.is_expired`, with the `now` that every caller gives.
unfoldable pub is_expired : Token → ℕ → ℕ → Bool
is_expired token skew now = leb token.expires_at (now + skew)

pub record Lease : Type 0 where
  pub holder : String
  pub until : ℕ

-- The field `lease`, which the code only ever sets to `None`, is left out.
pub record Connection : Type 0 where
  pub id : String
  pub org : String
  pub provider : String
  pub account : String
  pub scopes : List String
  pub app_cred_ref : String
  pub token : Option Token
  pub rotation : Rotation
  pub created_by : String
  pub created_at : ℕ
  pub updated_at : ℕ

-- `Connection.key`
abbrev pub key_of : Connection → ConnKey
key_of conn = record { org = conn.org; provider = conn.provider; account = conn.account }

pub record ConnectionGrant : Type 0 where
  pub connection_id : String
  pub principal_id : String
  pub access : Access
  pub scopes_subset : Option (List String)
  pub granted_by : String
  pub granted_at : ℕ

pub record ConnectionAccessLog : Type 0 where
  pub connection_id : String
  pub principal_id : String
  pub island : String
  pub op : String
  pub at : ℕ
