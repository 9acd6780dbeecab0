-- ===== src/Vault/Connect/RoundTrip.antt =====
-- vault/access.py: a `finish_connect` that follows a `start_connect`.
use islands_kernel.Base.{
  ℕ, String, ◌≡◌, refl, ◌∙◌, ap, false, Option, some, inl, inr, arith, string_eq, ok, Result-cases,
}
use islands_kernel.Base.Dict.{lookup-insert_self}
use islands_kernel.Vault.Model.{ConnKey, as_str, Connection}
use islands_kernel.Vault.Store.{Store, get_connection, put_connection}
use islands_kernel.Vault.State.{ConnectState, sign_state, verify_state}
use islands_kernel.Vault.State.Signed.{has_dot, verify_state-sign_state}
use islands_kernel.Vault.Connect.{
  Service, Started, provider_of, start_connect, connected, finish_verified, finish_connect,
}

-- The key of a state.
abbrev pub key_of_state : ConnectState → ConnKey
key_of_state asked = record { org = asked.org; provider = asked.provider; account = asked.account }

module _ (service : Service) (asked : ConnectState) where
  start_connect-state :
      (code_challenge : Option String) (started : Started)
      → start_connect service asked code_challenge ≡ ok started
      → started.state ≡ sign_state service.codec asked service.state_key
  unfolding start_connect
  start_connect-state code_challenge started h = ground arith

  finish_verified-stores :
      (code : String) (code_verifier : Option String) (now : ℕ) (store : Store) (id : String)
      → (finish_verified service asked code code_verifier now store).0 ≡ ok id
      → (conn : Connection) × (get_connection
            (key_of_state asked)
            (finish_verified service asked code code_verifier now store).1
          ≡ some conn)
        × (conn.id ≡ id)
        × (conn.created_by ≡ asked.principal)
  unfolding finish_verified connected put_connection get_connection
  finish_verified-stores code code_verifier now store id h =
      elim (Result-cases (provider_of service asked.provider)) [
        | inr (e, bad) ↦ cc (rw (bad, finish_verified) at h)
        | inl (p, good) ↦
            elim (Result-cases (service.exchange_code asked.provider code code_verifier p.1 now)) [
              | inr (e, failed) ↦ cc (rw (good, failed, finish_verified) at h)
              | inl (token, got) ↦
                  let conn = connected service asked p.0 p.1 token now in
                  (
                    conn,
                    rw (good, got, finish_verified)
                        (lookup-insert_self (as_str (key_of_state asked)) conn store.conns),
                    ground arith,
                    refl,
                  )
            ]
      ]

  -- Where the codec encodes the state without a dot and reads it back, a `finish_connect` with the
  -- state of a `start_connect`, if it succeeds, leaves a connection under the key of the org, the
  -- provider and the account that were asked for, created by the principal that asked, with the id
  -- of the answer.
  pub finish_connect-start_connect :
      (code_challenge code_verifier : Option String) (started : Started) (code : String) (now : ℕ)
      (store : Store) (id : String)
      → has_dot (service.codec.encode asked) ≡ false
      → service.codec.decode (service.codec.encode asked) ≡ some asked
      → start_connect service asked code_challenge ≡ ok started
      → (finish_connect service code started.state code_verifier now store).0 ≡ ok id
      → (conn : Connection) × (get_connection
            (key_of_state asked)
            (finish_connect service code started.state code_verifier now store).1
          ≡ some conn)
        × (conn.id ≡ id)
        × (conn.created_by ≡ asked.principal)
  unfolding finish_connect
  finish_connect-start_connect code_challenge code_verifier started code now store id plain readable
        begun h =
      let verified : verify_state service.codec started.state service.state_key ≡ ok asked =
        ap (λ t. verify_state service.codec t service.state_key)
          (start_connect-state code_challenge started begun)
        ∙ verify_state-sign_state service.codec service.state_key asked plain readable in
      rw (verified, finish_connect)
        (finish_verified-stores code code_verifier now store id
          (rw (verified, finish_connect) at h))
