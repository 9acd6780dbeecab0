-- ===== src/Vault/Access.antt =====
-- vault/access.py: `AccessService`, and `VaultConfig.app_cred_for` of vault/config.py.
pub mod Guarded
pub mod Revoked
use islands_kernel.Base.{
  ℕ, String, Bool, true, false, Option, none, some, List, [], ◌∷◌, ◌==◌, string_eq, if◌then◌else◌,
  Result, ok, err,
}
use islands_kernel.Base.Dict.{Dict, lookup}
use islands_kernel.Identity.Model.{Access, to_use, to_manage}
use islands_kernel.Vault.Model.{
  ConnKey, as_str, Token, Rotation, Connection, ConnectionGrant, ConnectionAccessLog,
}
use islands_kernel.Vault.Store.{
  Store, get_connection, put_connection, delete_connection, add_grant, append_log, list_connections,
}
use islands_kernel.Vault.Grants.{AccessProof, require_access}
use islands_kernel.Vault.Refresh.{
  AppCred, Env, RefreshError, Timing, default_timing, Vault, Outcome, refresh_if_needed,
}

-- `KeyError`, `PermissionError`, `KeyError` of the providers and of `app_cred_for`, and what
-- `refresh_if_needed` raises.
pub data AccessError : Type 0 where
  unknown_connection denied unknown_provider no_app_cred : AccessError
  not_refreshed : RefreshError → AccessError

-- `AccessService.providers`, of which only `rotation` is read here, `VaultConfig`, and two functions
-- of other libraries: `new_id("conn", …)`, which hashes, and `str.split`.
pub record Config : Type 0 where
  pub providers : Dict String Rotation
  pub app_creds : Dict String AppCred
  pub skew : ℕ
  pub connection_id : String → String
  pub words : String → List String

-- `grant_check` and `manage_check`: `none` where the caller gives none, else whether the check passes.
abbrev pub Check : Type 0
Check = Option (Connection → Bool)

-- The check that the caller gives, or `require_access`: in `get_access_token`,
-- `grant`, `revoke` and `list_connections`.
unfoldable pub is_allowed : Check → Store → Connection → String → Access → Bool
is_allowed none store conn principal_id need = elim (require_access store conn principal_id need) [
  | none ↦ false
  | some proof ↦ true
]
is_allowed (some check) store conn principal_id need = check conn

-- `VaultConfig.app_cred_for`; `none` is its `KeyError`.
unfoldable pub app_cred_for : Config → String → String → Option AppCred
app_cred_for config provider ref = elim (lookup ref config.app_creds) [
  | some cred ↦ some cred
  | none ↦ lookup provider config.app_creds
]

pub record TokenReply : Type 0 where
  pub access_token : String
  pub scope : String
  pub expires_at : ℕ

pub record GrantReply : Type 0 where
  pub connection_id : String
  pub principal_id : String
  pub access : Access

pub record ConnectionRow : Type 0 where
  pub id : String
  pub org : String
  pub provider : String
  pub account : String
  pub scopes : List String
  pub rotation : Rotation

unfoldable pub row_of_connection : Connection → ConnectionRow
row_of_connection conn = record {
  id = conn.id;
  org = conn.org;
  provider = conn.provider;
  account = conn.account;
  scopes = conn.scopes;
  rotation = conn.rotation;
}

-- The rows that the loop of `AccessService.list_connections` collects.
unfoldable pub visible : Check → Store → String → List Connection → List ConnectionRow
visible manage_check store principal_id [] = []
visible manage_check store principal_id (conn ∷ conns) =
    let out = visible manage_check store principal_id conns in
    if is_allowed manage_check store conn principal_id to_manage
    then row_of_connection conn ∷ out
    else out

-- `AccessService.list_connections`. It raises where there are connections and none is visible.
unfoldable pub list_visible :
    Check → String → Option String → String → Store → Result AccessError (List ConnectionRow)
list_visible manage_check org provider principal_id store =
    let conns = list_connections org provider store in
    elim (visible manage_check store principal_id conns) [
      | row ∷ out ↦ ok (row ∷ out)
      | [] ↦ elim conns [ [] ↦ ok [] | conn ∷ more ↦ err denied ]
    ]

-- `AccessService.revoke`
unfoldable pub revoke : Check → ConnKey → String → Store → Result AccessError String × Store
revoke manage_check key principal_id store = elim (get_connection key store) [
  | none ↦ (err unknown_connection, store)
  | some conn ↦
      if is_allowed manage_check store conn principal_id to_manage
      then (ok conn.id, (delete_connection key store).1)
      else (err denied, store)
]

-- `AccessService.grant`, at the time `now`
unfoldable pub grant :
    Check
    → ConnKey
    → String
    → String
    → Access
    → Option (List String)
    → ℕ
    → Store
    → Result AccessError GrantReply × Store
grant manage_check key granter_id principal_id access scopes_subset now store =
    elim (get_connection key store) [
      | none ↦ (err unknown_connection, store)
      | some conn ↦
          if is_allowed manage_check store conn granter_id to_manage
          then (
            ok (record { connection_id = conn.id; principal_id = principal_id; access = access }),
            add_grant
                (record {
                  connection_id = conn.id;
                  principal_id = principal_id;
                  access = access;
                  scopes_subset = scopes_subset;
                  granted_by = granter_id;
                  granted_at = now;
                })
                store,
          )
          else (err denied, store)
    ]

-- The arguments of `import_connection` after the key.
pub record Import : Type 0 where
  pub token : Token
  pub principal_id : String
  pub rotation : Option Rotation
  pub scopes : Option (List String)
  pub app_cred_ref : Option String

-- `x if x is not None else default`
abbrev pub given {ℓ} : {A : Type ℓ} → Option A → A → A
given none other = other
given (some a) other = a

-- The connection that `import_connection` seals. An empty scope splits into no words.
unfoldable pub imported : Config → ConnKey → Import → Rotation → ℕ → Connection
imported config key body rotation now = record {
  id = config.connection_id (as_str key);
  org = key.org;
  provider = key.provider;
  account = key.account;
  scopes = given body.scopes (if body.token.scope == "" then [] else config.words body.token.scope);
  app_cred_ref = given body.app_cred_ref key.provider;
  token = some body.token;
  rotation = given body.rotation rotation;
  created_by = body.principal_id;
  created_at = now;
  updated_at = now;
}

-- `AccessService.import_connection`, at the time `now`
unfoldable pub import_connection :
    Config → ConnKey → Import → ℕ → Store → Result AccessError String × Store
import_connection config key body now store = elim (lookup key.provider config.providers) [
  | none ↦ (err unknown_provider, store)
  | some rotation ↦
      let conn = imported config key body rotation now in (ok conn.id, put_connection conn store)
]

module _ (env : Env) (config : Config) where
  -- What follows `refresh_if_needed` in `get_access_token`.
  unfoldable pub log_access :
      Connection
      → String
      → String
      → Result RefreshError Token × Vault env
      → Result AccessError TokenReply × Vault env
  log_access conn principal_id island (err e, v) = (err (not_refreshed e), v)
  log_access conn principal_id island (ok token, v) =
      let (now, world) = env.now v.world in
      (
        ok (record {
          access_token = token.access_token;
          scope = token.scope;
          expires_at = token.expires_at;
        }),
        record {
          store =
              append_log
                (record {
                  connection_id = conn.id;
                  principal_id = principal_id;
                  island = island;
                  op = "access-token";
                  at = now;
                })
                v.store;
          world = world;
        },
      )

  -- `get_access_token` once the caller is allowed.
  unfoldable pub hand_out :
      ConnKey → Connection → String → String → Vault env → Result AccessError TokenReply × Vault env
  hand_out key conn principal_id island v = elim (lookup conn.provider config.providers) [
    | none ↦ (err unknown_provider, v)
    | some provider ↦ elim (app_cred_for config conn.provider conn.app_cred_ref) [
      | none ↦ (err no_app_cred, v)
      | some app ↦
          let timing = record default_timing { skew = config.skew } in
          log_access conn principal_id island (refresh_if_needed env timing key conn.provider app v)
    ]
  ]

  -- `AccessService.get_access_token`
  unfoldable pub get_access_token :
      Check → ConnKey → String → String → Vault env → Result AccessError TokenReply × Vault env
  get_access_token grant_check key principal_id island v = elim (get_connection key v.store) [
    | none ↦ (err unknown_connection, v)
    | some conn ↦
        if is_allowed grant_check v.store conn principal_id to_use
        then hand_out key conn principal_id island v
        else (err denied, v)
  ]
