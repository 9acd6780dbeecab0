-- ===== src/Vault/App/Guarded.antt =====
-- What the routes let a caller do.
use mathlib.Core.Path.{subst}
use islands_kernel.Base.{
  ℕ, String, ◌≡◌, refl, sym, ◌∙◌, ap, ◌⊎◌, inl, inr, Bool, true, false, Option, some, ok, err,
  is_ok, Result, arith, string_eq, option_eq, ◌==◌, Option-cases, Bool-cases,
}
use islands_kernel.Base.Dict.{lookup, lookup-insert_self}
use islands_kernel.Vault.Model.{ConnKey, as_str, Connection}
use islands_kernel.Vault.Keys.{parse_id}
use islands_kernel.Vault.Store.{Store, get_connection, put_connection}
use islands_kernel.Vault.Refresh.{Env, Vault}
use islands_kernel.Vault.Access.{
  Config, TokenReply, Import, imported, import_connection, get_access_token, is_allowed,
}
use islands_kernel.Vault.Access.Guarded.{Recorded, get_access_token-Recorded}
use islands_kernel.Vault.State.{ConnectState}
use islands_kernel.Vault.State.Signed.{has_dot}
use islands_kernel.Vault.Connect.{Service, ConnectError, Started, start_connect, finish_connect}
use islands_kernel.Vault.Connect.RoundTrip.{finish_connect-start_connect}
use islands_kernel.Vault.App.{
  connect_status, connect_authed, finish_authed, access_status, guarded, Claims, ImportBody,
  island_of, grant_check, access_token_authed, import_of, do_import, import_authed,
}

-- A reply of 200 is the answer of the call, which has kept its store.
guarded_ok :
    {S E A : Type 0} (status : E → ℕ) (run : Result E A × S) (a : A)
    → (guarded status run).0 ≡ ok a
    → (run.0 ≡ ok a) × ((guarded status run).1 ≡ run.1)
guarded_ok status (ok b, s) a h = (cc h, refl)
guarded_ok status (err e, s) a h = cc h

started_ok :
    (r : Result ConnectError Started) (started : Started)
    → ◌≡◌ {A = Result ℕ Started}
        (elim r [ err e ↦ err (connect_status e) | ok s ↦ ok s ])
        (ok started)
    → r ≡ ok started
started_ok (ok s) started h = cc h
started_ok (err e) started h = cc h

import_of-principal :
    (body : ImportBody) (principal_id : String) (asked : Import)
    → import_of body principal_id ≡ some asked
    → asked.principal_id ≡ principal_id
unfolding import_of
import_of-principal body principal_id asked h = elim (Option-cases body.access_token) [
  | inl missing ↦ cc (rw (missing, import_of) at h)
  | inr (access_token, a) ↦ elim (Option-cases body.refresh_token) [
    | inl missing ↦ cc (rw (a, missing, import_of) at h)
    | inr (refresh_token, b) ↦ elim (Option-cases body.expires_at) [
      | inl missing ↦ cc (rw (a, b, missing, import_of) at h)
      | inr (expires_at, c) ↦ elim (Option-cases body.scope) [
        | inl missing ↦ cc (rw (a, b, c, missing, import_of) at h)
        | inr (scope, d) ↦ cc (rw (a, b, c, d, import_of) at h)
      ]
    ]
  ]
]

-- The state that a connect with the JWT signs.
abbrev pub asked_by : Claims → String → String → String → ConnectState
asked_by claims provider org account = record {
  org = org;
  provider = provider;
  account = account;
  principal = claims.sub;
}

module _ (unquote : String → String) (claims : Claims) where
  -- A connection that the import made: under the key, by the caller, of the caller's org.
  abbrev Imported : String → ImportBody → String → Store → Type 0
  Imported conn_id body id store =
      (key : ConnKey) × (conn : Connection) × (parse_id unquote conn_id ≡ some key)
      × (claims.org ≡ some key.org)
      × (get_connection key store ≡ some conn)
      × (conn.created_by ≡ claims.sub)
      × (conn.id ≡ id)

  -- An import that was made, or one that was refused and left the store as it was.
  abbrev pub MadeOrRefused : String → ImportBody → Store → Result ℕ String × Store → Type 0
  MadeOrRefused conn_id body store out =
      ((id : String) × (out.0 ≡ ok id) × Imported conn_id body id out.1)
      ⊎ ((is_ok out.0 ≡ false) × (out.1 ≡ store))

  do_import_made :
      (config : Config) (conn_id : String) (key : ConnKey) (body : ImportBody) (now : ℕ)
      (store : Store)
      → parse_id unquote conn_id ≡ some key
      → MadeOrRefused conn_id body store (do_import unquote claims config key body now store)
  unfolding do_import import_connection imported get_connection put_connection
  do_import_made config conn_id key body now store parsed =
      elim (Bool-cases (some key.org == claims.org)) [
        | inr other ↦ inr (rw (do_import, other) (refl, refl))
        | inl own ↦ elim (Option-cases (import_of body claims.sub)) [
          | inl missing ↦ inr (rw (do_import, own, missing) (refl, refl))
          | inr (asked, complete) ↦ elim (Option-cases (lookup key.provider config.providers)) [
            | inl unknown ↦
                inr (rw (do_import, own, complete, import_connection, unknown) (refl, refl))
            | inr (rotation, known) ↦
                let conn = imported config key asked rotation now in
                let mine : claims.org ≡ some key.org = ground arith in
                let made : get_connection key (put_connection conn store) ≡ some conn =
                  lookup-insert_self (as_str key) conn store.conns in
                let done : do_import unquote claims config key body now store
                    ≡ (ok conn.id, put_connection conn store) =
                  rw (do_import, own, complete, import_connection, known) refl in
                subst (MadeOrRefused conn_id body store) (sym done) (
                  inl (
                    conn.id,
                    refl,
                    (
                      key,
                      conn,
                      parsed,
                      mine,
                      made,
                      import_of-principal body claims.sub asked complete,
                      refl,
                    ),
                  ))
          ]
        ]
      ]

  -- An import either makes a connection under the key that the id names, whose org is that of the
  -- caller's JWT, with the caller as its creator, and answers its id; or it is refused and the store
  -- is as it was.
  pub import_authed_cases :
      (config : Config) (conn_id : String) (body : ImportBody) (now : ℕ) (store : Store)
      → MadeOrRefused conn_id body store
          (import_authed unquote claims config conn_id body now store)
  unfolding import_authed
  import_authed_cases config conn_id body now store =
      elim (Option-cases (parse_id unquote conn_id)) [
        | inl malformed ↦ inr (rw (import_authed, malformed) (refl, refl))
        | inr (key, parsed) ↦
            let led : import_authed unquote claims config conn_id body now store
                ≡ do_import unquote claims config key body now store =
              rw (import_authed, parsed) refl in
            subst (MadeOrRefused conn_id body store) (sym led)
              (do_import_made config conn_id key body now store parsed)
      ]

  -- With an authorizer, a token is handed out only on a connection that the id names and that the
  -- authorizer allows to the subject and the org of the JWT. The reply shows the token that the
  -- store has for it, and the newest entry of its access log is this access, with the JWT's subject
  -- and first audience.
  pub access_token_authed_allowed :
      (env : Env) (config : Config) (authorizer : Connection → String → Option String → Bool)
      (conn_id : String) (v : Vault env) (reply : TokenReply)
      → (access_token_authed unquote claims env config (some authorizer) conn_id v).0 ≡ ok reply
      → (key : ConnKey) × (conn : Connection) × (parse_id unquote conn_id ≡ some key)
        × (get_connection key v.store ≡ some conn)
        × (authorizer conn claims.sub claims.org ≡ true)
        × Recorded env config key claims.sub
            (island_of claims.aud)
            conn
            reply
            (access_token_authed unquote claims env config (some authorizer) conn_id v).1.store
  unfolding access_token_authed grant_check is_allowed
  access_token_authed_allowed env config authorizer conn_id v reply h =
      elim (Option-cases (parse_id unquote conn_id)) [
        | inl malformed ↦ cc (rw (malformed, access_token_authed) at h)
        | inr (key, parsed) ↦
            let check = grant_check (some authorizer) claims in
            let run = get_access_token env config check key claims.sub (island_of claims.aud) v in
            let led : access_token_authed unquote claims env config (some authorizer) conn_id v
                ≡ guarded access_status run =
              rw (access_token_authed, parsed) refl in
            let (fine, kept) =
              guarded_ok access_status run reply
                (ap (λ (o : Result ℕ TokenReply × Vault env). o.0) (sym led) ∙ h) in
            let (conn, there, allowed, recorded) =
              get_access_token-Recorded env config key claims.sub (island_of claims.aud) check v
                reply fine in
            (
              key,
              conn,
              parsed,
              there,
              allowed,
              subst
                  (λ (o : Result ℕ TokenReply × Vault env).
                    Recorded env config key claims.sub (island_of claims.aud) conn reply o.1.store)
                  (sym led)
                  (subst
                    (λ (u : Vault env).
                      Recorded env config key claims.sub (island_of claims.aud) conn reply u.store)
                    (sym kept) recorded),
            )
      ]

  -- A connect through the routes that is begun with a JWT and finished stores a connection under the
  -- org that the body names, whatever the org of the JWT, with the JWT's subject as its creator; so
  -- it replaces the connection that stood there. The codec encodes the state without a dot and
  -- reads it back.
  pub connect_authed_any_org :
      (finisher : Claims) (service : Service) (provider org account code : String)
      (code_challenge code_verifier : Option String) (started : Started) (now : ℕ) (store : Store)
      (id : String)
      → has_dot (service.codec.encode (asked_by claims provider org account)) ≡ false
      → service.codec.decode (service.codec.encode (asked_by claims provider org account))
        ≡ some (asked_by claims provider org account)
      → connect_authed unquote claims service provider
          (record { org = some org; account = some account; code_challenge = code_challenge })
        ≡ ok started
      → (finish_authed unquote finisher service
          (record { code = some code; state = some started.state; code_verifier = code_verifier })
          now
          store).0
        ≡ ok id
      → (conn : Connection) × (get_connection
            (record { org = org; provider = provider; account = account })
            (finish_authed unquote finisher service
              (record {
                code = some code;
                state = some started.state;
                code_verifier = code_verifier;
              })
              now
              store).1
          ≡ some conn)
        × (conn.id ≡ id)
        × (conn.created_by ≡ claims.sub)
  unfolding connect_authed finish_authed
  connect_authed_any_org finisher service provider org account code code_challenge code_verifier
        started now store id plain readable begun finished =
      let asked = asked_by claims provider org account in
      let run = finish_connect service code started.state code_verifier now store in
      let (fine, kept) = guarded_ok connect_status run id finished in
      let (conn, there, same, own) =
        finish_connect-start_connect service asked code_challenge code_verifier started code now
          store id plain readable
          (started_ok (start_connect service asked code_challenge) started begun) fine in
      (
        conn,
        ap (get_connection (record { org = org; provider = provider; account = account })) kept
            ∙ there,
        same,
        own,
      )
