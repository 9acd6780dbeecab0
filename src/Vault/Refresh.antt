-- ===== src/Vault/Refresh.antt =====
-- vault/refresh.py: the refresh of a token under a lease.
pub mod Total
pub mod Stored
use islands_kernel.Base.{
  ℕ, zero, suc, ◌+◌, ◌*◌, String, ◌<>◌, Bool, true, false, not, Option, none, some, List,
  if◌then◌else◌, ltb, leb, Result, ok, err,
}
use islands_kernel.Vault.Model.{ConnKey, as_str, Token, is_expired, Connection, Rotation}
use islands_kernel.Vault.Store.{
  Store, get_connection, write_token, acquire_lease, release_lease, lease_held,
}

-- vault/providers/base.py: `AppCred`
pub record AppCred : Type 0 where
  pub client_id : String
  pub client_secret : String
  pub redirect_uri : String
  pub scopes : List String

-- The exceptions that `guard` of vault/app.py tells apart, and all others.
pub data Raised : Type 0 where
  permission_error key_error value_error other_error : Raised

-- What happens outside this process. `sleep` is what the other writers do to the store while this
-- one waits; `refresh` is the call of the provider, which may raise. `lease_id` is `new_id("lease", …)`.
pub record Env : Type 1 where
  pub World : Type 0
  pub now : World → ℕ × World
  pub lease_id : String → ℕ → String
  pub sleep : ℕ → Store → World → Store × World
  pub refresh : String → Token → AppCred → World → Result Raised Token × World

-- The `KeyError` at the start, `TimeoutError`, what the provider raises, the `AttributeError` on a
-- connection that is gone or has no token, and the `KeyError` of `write_token` where it is gone;
-- `out_of_fuel` is the model's own.
pub data RefreshError : Type 0 where
  no_connection timed_out connection_gone not_written out_of_fuel : RefreshError
  provider_failed : Raised → RefreshError

-- The keyword arguments of `refresh_if_needed`, and `poll`, in milliseconds.
pub record Timing : Type 0 where
  pub skew : ℕ
  pub lease_ttl : ℕ
  pub wait_timeout : ℕ
  pub poll : ℕ

-- The defaults of the source: 60 s, 30 s, 20 s, 0.05 s.
abbrev pub default_timing : Timing
default_timing = record { skew = 60000; lease_ttl = 30000; wait_timeout = 20000; poll = 50 }

module _ (env : Env) where
  pub record Vault : Type 0 where
    pub store : Store
    pub world : env.World

-- `conn.token`, where there is a connection
unfoldable pub token_at : ConnKey → Store → Option Token
token_at key s = elim (get_connection key s) [ none ↦ none | some conn ↦ conn.token ]

-- The outer loop tries the lease; the inner loop waits for its holder.
pub data Phase : Type 0 where
  trying waiting : Phase

module _ (env : Env) (timing : Timing) (key : ConnKey) (provider : String) (app : AppCred) where
  abbrev pub Outcome : Type 0
  Outcome = Result RefreshError Token × Vault env

  -- The result of the provider is written, or its exception goes on.
  unfoldable pub publish_token : Result Raised Token → ℕ → Vault env → Outcome
  publish_token (err e) now v = (err (provider_failed e), v)
  publish_token (ok new_token) now v = elim (write_token key new_token now v.store) [
    | none ↦ (err not_written, v)
    | some store ↦ (ok new_token, record v { store = store })
  ]

  -- Under the lease: look once more, and refresh if the token is still expired.
  unfoldable pub refresh_leased : Vault env → Outcome
  refresh_leased v = elim (token_at key v.store) [
    | none ↦ (err connection_gone, v)
    | some token ↦
        let (now, timed) = env.now v.world in
        let (answer, world) = env.refresh provider token app timed in
        if not (is_expired token timing.skew now)
        then (ok token, record v { world = timed })
        else publish_token answer now (record v { world = world })
  ]

  -- The `finally` clause.
  unfoldable pub finish : String → Outcome → Outcome
  finish holder (result, v) = (result, record v { store = release_lease key holder v.store })

  -- The token is there and not expired.
  unfoldable pub fresh_token : Option Token → ℕ → Option Token
  fresh_token none now = none
  fresh_token (some token) now = if is_expired token timing.skew now then none else some token

  -- What a round of either loop comes to: a result, or the next round. `waited` counts the time
  -- slept.
  pub data Round : Type 0 where
    done : Outcome → Round
    again : Phase → ℕ → Vault env → Round

  -- The outer loop, up to the inner one.
  unfoldable pub try_round : String → ℕ → Vault env → Round
  try_round holder waited v =
      let (now, world) = env.now v.world in
      let (won, store) = acquire_lease key holder (now + timing.lease_ttl) now v.store in
      let v' : Vault env = record { store = store; world = world } in
      if won then done (finish holder (refresh_leased v')) else again waiting waited v'

  -- What follows a sleep: `token` is the token of the connection, if it is there and fresh.
  unfoldable pub after_sleep : ℕ → Option Token → Bool → Vault env → Round
  after_sleep waited (some token) held v = done (ok token, v)
  after_sleep waited none true v = again waiting waited v
  after_sleep waited none false v =
      if leb timing.wait_timeout waited then done (err timed_out, v) else again trying waited v

  -- The connection as it is read after the sleep, at the time `now`.
  unfoldable pub seen : ℕ → Option Connection → ℕ → Bool → Vault env → Round
  unfolding after_sleep
  seen waited none now held v = done (err connection_gone, v)
  seen waited (some conn) now held v = after_sleep waited (fresh_token conn.token now) held v

  -- One round of the inner loop, or its end.
  unfoldable pub wait_round : ℕ → Vault env → Round
  wait_round waited v =
      let (store, slept) = env.sleep timing.poll v.store v.world in
      let (now, world) = env.now slept in
      if ltb waited timing.wait_timeout
      then seen (waited + timing.poll) (get_connection key store) now (lease_held key now store)
          (record { store = store; world = world })
      else done (err timed_out, v)

  unfoldable pub round : String → Phase → ℕ → Vault env → Round
  unfolding try_round wait_round
  round holder trying waited v = try_round holder waited v
  round holder waiting waited v = wait_round waited v

  -- A round for each unit of fuel.
  unfoldable pub loop : ℕ → String → Phase → ℕ → Vault env → Outcome
  loop zero holder phase waited v = (err out_of_fuel, v)
  loop (suc fuel) holder phase waited v = elim (round holder phase waited v) [
    | done outcome ↦ outcome
    | again next slept v' ↦ loop fuel holder next slept v'
  ]

  -- Enough for both loops: two rounds for each unit of time that may be waited.
  abbrev pub fuel_for : ℕ
  fuel_for = 2 * timing.wait_timeout + 2

  -- `refresh_if_needed`
  unfoldable pub refresh_if_needed : Vault env → Outcome
  refresh_if_needed v = elim (token_at key v.store) [
    | none ↦ (err no_connection, v)
    | some token ↦
        let (now, world) = env.now v.world in
        elim (is_expired token timing.skew now) [
          | false ↦ (ok token, record v { world = world })
          | true ↦
              loop fuel_for (env.lease_id (as_str key) now) trying 0 (record v { world = world })
        ]
  ]
