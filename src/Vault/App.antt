-- ===== src/Vault/App.antt =====
-- vault/app.py: the routes of the vault that take a kernel JWT. A reply is `ok`, or the status code
-- of an `HTTPException`; an exception that `guard` does not catch is FastAPI's 500.
pub mod Guarded
use islands_kernel.Base.{
  ℕ, String, Bool, true, false, Option, none, some, List, [], ◌∷◌, ◌==◌, string_eq, option_eq,
  if◌then◌else◌, Result, ok, err,
}
use islands_kernel.Identity.Model.{Access}
use islands_kernel.Identity.Exchange.{Audience, one, many}
use islands_kernel.Vault.Model.{ConnKey, Token, Rotation, Connection}
use islands_kernel.Vault.Keys.{parse_id}
use islands_kernel.Vault.Store.{Store}
use islands_kernel.Vault.State.{ConnectState, StateError}
use islands_kernel.Vault.Refresh.{
  Env, Raised, permission_error, key_error, value_error, other_error, RefreshError, no_connection,
  not_written, provider_failed, Vault,
}
use islands_kernel.Vault.Access.{
  AccessError, unknown_connection, denied, unknown_provider, no_app_cred, not_refreshed, Config,
  Check, TokenReply, GrantReply, ConnectionRow, Import, list_visible, revoke, grant,
  import_connection, get_access_token,
}
use islands_kernel.Vault.Connect.{
  Service, ConnectError, exchange_failed, Started, start_connect, finish_connect,
}

-- `guard`: a `PermissionError` is 403, a `KeyError` 404, a `ValueError` 400.
unfoldable pub raised_status : Raised → ℕ
raised_status permission_error = 403
raised_status key_error = 404
raised_status value_error = 400
raised_status other_error = 500

unfoldable pub refresh_status : RefreshError → ℕ
unfolding raised_status
refresh_status no_connection = 404
refresh_status not_written = 404
refresh_status (provider_failed e) = raised_status e
refresh_status _ = 500

unfoldable pub access_status : AccessError → ℕ
unfolding refresh_status
access_status denied = 403
access_status (not_refreshed e) = refresh_status e
access_status _ = 404

unfoldable pub connect_status : ConnectError → ℕ
unfolding raised_status
connect_status (exchange_failed e) = raised_status e
connect_status (ConnectError.bad_state StateError.not_ascii) = 500
connect_status (ConnectError.bad_state e) = 400
connect_status _ = 404

abbrev pub guarded : {S E A : Type 0} → (E → ℕ) → Result E A × S → Result ℕ A × S
guarded status (ok a, s) = (ok a, s)
guarded status (err e, s) = (err (status e), s)

-- What the routes read of the claims.
pub record Claims : Type 0 where
  pub sub : String
  pub org : Option String
  pub aud : Option Audience

-- The island of the audit log: the first audience, or "unknown".
unfoldable pub island_of : Option Audience → String
island_of none = "unknown"
island_of (some (one aud)) = aud
island_of (some (many [])) = "unknown"
island_of (some (many (aud ∷ more))) = aud

-- `authorizer(conn=…, principal_id=…, org=…)`, and `manage_authorizer`, where there is one.
abbrev pub Authorizer : Type 0
Authorizer = Option (Connection → String → Option String → Bool)

-- The `grant_check` of `access_token_authed`; without an authorizer it checks nothing.
unfoldable pub grant_check : Authorizer → Claims → Check
grant_check none claims = some (λ conn. true)
grant_check (some authorizer) claims = some (λ conn. authorizer conn claims.sub claims.org)

-- `_manage_check`
unfoldable pub manage_check : Authorizer → Claims → Check
manage_check none claims = none
manage_check (some authorizer) claims = some (λ conn. authorizer conn claims.sub claims.org)

-- The body of an import; `none` is a field that is missing.
pub record ImportBody : Type 0 where
  pub access_token : Option String
  pub refresh_token : Option String
  pub expires_at : Option ℕ
  pub scope : Option String
  pub rotation : Option Rotation
  pub scopes : Option (List String)
  pub app_cred_ref : Option String

-- The keyword arguments of `import_connection`; `none` where one of four fields is missing.
unfoldable pub import_of : ImportBody → String → Option Import
import_of body principal_id = elim body.access_token [
  | none ↦ none
  | some access_token ↦ elim body.refresh_token [
    | none ↦ none
    | some refresh_token ↦ elim body.expires_at [
      | none ↦ none
      | some expires_at ↦ elim body.scope [
        | none ↦ none
        | some scope ↦ some (record {
          token = record {
            access_token = access_token;
            refresh_token = refresh_token;
            expires_at = expires_at;
            scope = scope;
          };
          principal_id = principal_id;
          rotation = body.rotation;
          scopes = body.scopes;
          app_cred_ref = body.app_cred_ref;
        })
      ]
    ]
  ]
]

-- The body of a connect.
pub record ConnectBody : Type 0 where
  pub org : Option String
  pub account : Option String
  pub code_challenge : Option String

-- The body of the end of a connect.
pub record FinishBody : Type 0 where
  pub code : Option String
  pub state : Option String
  pub code_verifier : Option String

-- The body of a grant.
pub record GrantBody : Type 0 where
  pub principal_id : Option String
  pub access : Option Access
  pub scopes_subset : Option (List String)

module _ (unquote : String → String) (claims : Claims) where
  -- `POST /connections/{conn_id}/access-token`
  unfoldable pub access_token_authed :
      (env : Env) → Config → Authorizer → String → Vault env → Result ℕ TokenReply × Vault env
  access_token_authed env config authorizer conn_id v = elim (parse_id unquote conn_id) [
    | none ↦ (err 400, v)
    | some key ↦ guarded access_status (
        get_access_token env config (grant_check authorizer claims) key claims.sub
          (island_of claims.aud) v)
  ]

  -- `POST /connections/{provider}/connect`
  unfoldable pub connect_authed : Service → String → ConnectBody → Result ℕ Started
  connect_authed service provider body = elim body.org [
    | none ↦ err 404
    | some org ↦ elim body.account [
      | none ↦ err 404
      | some account ↦
          let asked : ConnectState = record {
            org = org;
            provider = provider;
            account = account;
            principal = claims.sub;
          } in
          elim (start_connect service asked body.code_challenge) [
            | err e ↦ err (connect_status e)
            | ok started ↦ ok started
          ]
    ]
  ]

  -- `POST /connections/connect/finish`
  unfoldable pub finish_authed : Service → FinishBody → ℕ → Store → Result ℕ String × Store
  finish_authed service body now store = elim body.code [
    | none ↦ (err 404, store)
    | some code ↦ elim body.state [
      | none ↦ (err 404, store)
      | some state ↦
          guarded connect_status (finish_connect service code state body.code_verifier now store)
    ]
  ]

  -- `do_import`: the key's org must be that of the claims.
  unfoldable pub do_import : Config → ConnKey → ImportBody → ℕ → Store → Result ℕ String × Store
  do_import config key body now store =
      if some key.org == claims.org
      then elim (import_of body claims.sub) [
        | none ↦ (err 404, store)
        | some asked ↦ guarded access_status (import_connection config key asked now store)
      ]
      else (err 403, store)

  -- `POST /connections/{conn_id}/import`; the id is parsed outside `guard`.
  unfoldable pub import_authed : Config → String → ImportBody → ℕ → Store → Result ℕ String × Store
  import_authed config conn_id body now store = elim (parse_id unquote conn_id) [
    | none ↦ (err 500, store)
    | some key ↦ do_import config key body now store
  ]

  -- `POST /connections/{conn_id}/grant`
  unfoldable pub grant_authed :
      Authorizer → String → GrantBody → ℕ → Store → Result ℕ GrantReply × Store
  grant_authed authorizer conn_id body now store = elim (parse_id unquote conn_id) [
    | none ↦ (err 400, store)
    | some key ↦ elim body.principal_id [
      | none ↦ (err 404, store)
      | some principal_id ↦ elim body.access [
        | none ↦ (err 404, store)
        | some access ↦ guarded access_status (
            grant (manage_check authorizer claims) key claims.sub principal_id access
              body.scopes_subset now store)
      ]
    ]
  ]

  -- `GET /connections`
  unfoldable pub list_authed :
      Authorizer → String → Option String → Store → Result ℕ (List ConnectionRow)
  list_authed authorizer org provider store =
      elim (list_visible (manage_check authorizer claims) org provider claims.sub store) [
        | err e ↦ err (access_status e)
        | ok rows ↦ ok rows
      ]

  -- `DELETE /connections/{conn_id}`
  unfoldable pub revoke_authed : Authorizer → String → Store → Result ℕ String × Store
  revoke_authed authorizer conn_id store = elim (parse_id unquote conn_id) [
    | none ↦ (err 400, store)
    | some key ↦
        guarded access_status (revoke (manage_check authorizer claims) key claims.sub store)
  ]
