-- ===== src/Vault/Connect.antt =====
-- vault/access.py: `start_connect` and `finish_connect`.
pub mod RoundTrip
use islands_kernel.Base.{
  ℕ, String, Option, none, some, List, ◌==◌, string_eq, if◌then◌else◌, Result, ok, err, ◌>>=◌,
}
use islands_kernel.Base.Dict.{lookup}
use islands_kernel.Vault.Model.{ConnKey, as_str, Token, Rotation, Connection}
use islands_kernel.Vault.Store.{Store, put_connection}
use islands_kernel.Vault.Refresh.{AppCred, Raised}
use islands_kernel.Vault.State.{ConnectState, Codec, StateError, sign_state, verify_state}
use islands_kernel.Vault.Access.{Config, app_cred_for}

-- What the two methods ask of the providers, the codec of the state, and `state_hmac_key`. An
-- exchange may raise.
pub record Service : Type 0 where
  pub config : Config
  pub codec : Codec
  pub state_key : String
  pub authorize_url : String → AppCred → String → Option String → String
  pub exchange_code : String → String → Option String → AppCred → ℕ → Result Raised Token

pub data ConnectError : Type 0 where
  no_provider no_credential : ConnectError
  exchange_failed : Raised → ConnectError
  bad_state : StateError → ConnectError

-- The dict of `start_connect`.
pub record Started : Type 0 where
  pub authorize_url : String
  pub state : String

-- `self.providers[provider]` and `app_cred_for(provider, provider)`
unfoldable pub provider_of : Service → String → Result ConnectError (Rotation × AppCred)
provider_of service provider = elim (lookup provider service.config.providers) [
  | none ↦ err no_provider
  | some rotation ↦ elim (app_cred_for service.config provider provider) [
    | none ↦ err no_credential
    | some app ↦ ok (rotation, app)
  ]
]

unfoldable pub start_connect : Service → ConnectState → Option String → Result ConnectError Started
start_connect service asked code_challenge = elim (provider_of service asked.provider) [
  | err e ↦ err e
  | ok p ↦
      let state = sign_state service.codec asked service.state_key in
      ok (record {
        authorize_url = service.authorize_url asked.provider p.1 state code_challenge;
        state = state;
      })
]

-- The connection that `finish_connect` stores.
unfoldable pub connected : Service → ConnectState → Rotation → AppCred → Token → ℕ → Connection
connected service asked rotation app token now = record {
  id =
      service.config.connection_id
        (as_str (record { org = asked.org; provider = asked.provider; account = asked.account }));
  org = asked.org;
  provider = asked.provider;
  account = asked.account;
  scopes = if token.scope == "" then app.scopes else service.config.words token.scope;
  app_cred_ref = asked.provider;
  token = some token;
  rotation = rotation;
  created_by = asked.principal;
  created_at = now;
  updated_at = now;
}

-- `finish_connect` once the state is verified.
unfoldable pub finish_verified :
    Service → ConnectState → String → Option String → ℕ → Store → Result ConnectError String × Store
finish_verified service asked code code_verifier now store =
    elim (provider_of service asked.provider) [
      | err e ↦ (err e, store)
      | ok p ↦ elim (service.exchange_code asked.provider code code_verifier p.1 now) [
        | err e ↦ (err (exchange_failed e), store)
        | ok token ↦
            let conn = connected service asked p.0 p.1 token now in
            (ok conn.id, put_connection conn store)
      ]
    ]

-- `finish_connect`, at the time `now`
unfoldable pub finish_connect :
    Service → String → String → Option String → ℕ → Store → Result ConnectError String × Store
finish_connect service code state code_verifier now store =
    elim (verify_state service.codec state service.state_key) [
      | err e ↦ (err (bad_state e), store)
      | ok asked ↦ finish_verified service asked code code_verifier now store
    ]
