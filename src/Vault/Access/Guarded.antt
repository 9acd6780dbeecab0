-- ===== src/Vault/Access/Guarded.antt =====
-- What `AccessService` has checked and recorded by the time it hands out a token.
use islands_kernel.Base.{
  ℕ, String, ◌≡◌, refl, true, some, List, [], ◌∷◌, ◌++◌, arith, string_eq, Result, ok, err, inl,
  inr, Bool-cases, Option-cases,
}
use islands_kernel.Base.Dict.{lookup, lookup-insert_self}
use islands_kernel.Identity.Model.{to_use}
use islands_kernel.Vault.Model.{ConnKey, Token, Connection, ConnectionAccessLog}
use islands_kernel.Vault.Store.{Store, get_connection, append_log, read_log, list_at}
use islands_kernel.Vault.Refresh.{
  Env, RefreshError, default_timing, Vault, token_at, refresh_if_needed,
}
use islands_kernel.Vault.Refresh.Stored.{refresh_if_needed_stored}
use islands_kernel.Vault.Access.{
  Config, Check, is_allowed, app_cred_for, TokenReply, log_access, hand_out, get_access_token,
}

append_log-read_log :
    (entry : ConnectionAccessLog) (s : Store)
    → read_log entry.connection_id (append_log entry s)
      ≡ read_log entry.connection_id s ++ entry ∷ []
unfolding append_log read_log
append_log-read_log entry s = ground (
  arith,
  lookup-insert_self entry.connection_id (list_at entry.connection_id s.logs ++ entry ∷ []) s.logs,
)

module _ (env : Env) (config : Config) (key : ConnKey) (principal_id island : String) where
  -- The reply shows the token that the store has for the key, and the newest entry of the
  -- connection's log is this access.
  abbrev pub Recorded : Connection → TokenReply → Store → Type 0
  Recorded conn reply store =
      (token : Token) × (earlier : List ConnectionAccessLog) × (at : ℕ) × (token_at key store
        ≡ some token)
      × (reply ≡ record {
        access_token = token.access_token;
        scope = token.scope;
        expires_at = token.expires_at;
      })
      × (read_log conn.id store
          ≡ earlier
            ++ record {
              connection_id = conn.id;
              principal_id = principal_id;
              island = island;
              op = "access-token";
              at = at;
            }
              ∷ [])

  log_access-Recorded :
      (conn : Connection) (r : Result RefreshError Token × Vault env) (reply : TokenReply)
      → ((token : Token) → r.0 ≡ ok token → token_at key r.1.store ≡ some token)
      → (log_access env config conn principal_id island r).0 ≡ ok reply
      → Recorded conn reply (log_access env config conn principal_id island r).1.store
  unfolding log_access token_at append_log get_connection
  log_access-Recorded conn (err e, v) reply stored h = cc h
  log_access-Recorded conn (ok token, v) reply stored h = (
    token,
    read_log conn.id v.store,
    (env.now v.world).0,
    stored token refl,
    ground arith,
    append_log-read_log
        (record {
          connection_id = conn.id;
          principal_id = principal_id;
          island = island;
          op = "access-token";
          at = (env.now v.world).0;
        })
        v.store,
  )

  hand_out-Recorded :
      (conn : Connection) (v : Vault env) (reply : TokenReply)
      → (hand_out env config key conn principal_id island v).0 ≡ ok reply
      → Recorded conn reply (hand_out env config key conn principal_id island v).1.store
  unfolding hand_out
  hand_out-Recorded conn v reply h = elim (Option-cases (lookup conn.provider config.providers)) [
    | inl no_provider ↦ cc (rw (no_provider, hand_out) at h)
    | inr (rotation, provided) ↦
        elim (Option-cases (app_cred_for config conn.provider conn.app_cred_ref)) [
          | inl no_app ↦ cc (rw (provided, no_app, hand_out) at h)
          | inr (app, has_app) ↦
              rw (provided, has_app, hand_out)
                (log_access-Recorded conn
                  (refresh_if_needed env (record default_timing { skew = config.skew }) key
                    conn.provider app v)
                  reply
                  (refresh_if_needed_stored env (record default_timing { skew = config.skew }) key
                    conn.provider app v)
                  (rw (provided, has_app, hand_out) at h))
        ]
  ]

  -- Whoever is handed a token passed the check on the connection that the key named: the grant
  -- check that the route gives, or `require_access` for `use`. The reply shows the token that the
  -- store has for the key at that moment, and the newest entry of the connection's access log is
  -- this access, with the principal and the island.
  pub get_access_token-Recorded :
      (grant_check : Check) (v : Vault env) (reply : TokenReply)
      → (get_access_token env config grant_check key principal_id island v).0 ≡ ok reply
      → (conn : Connection) × (get_connection key v.store ≡ some conn)
        × (is_allowed grant_check v.store conn principal_id to_use ≡ true)
        × Recorded conn reply
            (get_access_token env config grant_check key principal_id island v).1.store
  unfolding get_access_token
  get_access_token-Recorded grant_check v reply h =
      elim (Option-cases (get_connection key v.store)) [
        | inl gone ↦ cc (rw (gone, get_access_token) at h)
        | inr (conn, there) ↦
            elim (Bool-cases (is_allowed grant_check v.store conn principal_id to_use)) [
              | inr refused ↦ cc (rw (there, refused, get_access_token) at h)
              | inl allowed ↦ (
                conn,
                there,
                allowed,
                rw (there, allowed, get_access_token)
                    (hand_out-Recorded conn v reply (rw (there, allowed, get_access_token) at h)),
              )
            ]
      ]
