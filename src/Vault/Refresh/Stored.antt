-- ===== src/Vault/Refresh/Stored.antt =====
-- vault/refresh.py: the token that `refresh_if_needed` returns, and the store.
use islands_kernel.Base.{
  Result, err, ℕ, zero, suc, ◌+◌, String, ◌≡◌, refl, ◌∙◌, Bool, true, false, Option, none, some,
  arith, string_eq, ok, inl, inr, Option-cases, Bool-cases, ltb, leb,
}
use islands_kernel.Base.Dict.{lookup, lookup-insert_self}
use islands_kernel.Vault.Model.{ConnKey, Token, Connection, as_str}
use islands_kernel.Vault.Store.{Store, get_connection, write_token, acquire_lease, release_lease}
use islands_kernel.Vault.Refresh.{
  Raised, Env, AppCred, Timing, Vault, Phase, trying, waiting, Outcome, token_at, publish_token,
  refresh_leased, finish, fresh_token, loop, fuel_for, refresh_if_needed, Round, done, again,
  try_round, after_sleep, seen, wait_round, round,
}

token_at-release_lease :
    (key : ConnKey) (holder : String) (s : Store)
    → token_at key (release_lease key holder s) ≡ token_at key s
unfolding token_at release_lease get_connection
token_at-release_lease key holder s = ground arith

token_at-write_token :
    (key : ConnKey) (token : Token) (now : ℕ) (s s' : Store)
    → write_token key token now s ≡ some s'
    → token_at key s' ≡ some token
unfolding write_token token_at get_connection
token_at-write_token key token now s s' h = elim (Option-cases (lookup (as_str key) s.conns)) [
  | inl absent ↦ ground arith
  | inr (c, there) ↦ ground (
    arith,
    lookup-insert_self (as_str key) (record c { token = some token; updated_at = now }) s.conns,
  )
]

module _ (env : Env) (timing : Timing) (key : ConnKey) (provider : String) (app : AppCred) where
  abbrev IsStored : Outcome env timing key provider app → Type 0
  IsStored out = (token : Token) → out.0 ≡ ok token → token_at key out.1.store ≡ some token

  publish_token-IsStored :
      (answer : Result Raised Token) (now : ℕ) (v : Vault env)
      → IsStored (publish_token env timing key provider app answer now v)
  unfolding publish_token
  publish_token-IsStored (err e) now v token h = cc
  publish_token-IsStored (ok new_token) now v token h =
      elim (Option-cases (write_token key new_token now v.store)) [
        | inl gone ↦ ground arith
        | inr (s', written) ↦
            ground (arith, token_at-write_token key new_token now v.store s' written)
      ]

  refresh_leased-IsStored :
      (v : Vault env) → IsStored (refresh_leased env timing key provider app v)
  unfolding refresh_leased
  refresh_leased-IsStored v token h = elim (Option-cases (token_at key v.store)) [
    | inl gone ↦ ground arith
    | inr (old, there) ↦
        let now = (env.now v.world).0 in
        let answer = env.refresh provider old app (env.now v.world).1 in
        ground (arith, publish_token-IsStored answer.0 now (record v { world = answer.1 }) token)
  ]

  finish-IsStored :
      (holder : String) (out : Outcome env timing key provider app)
      → IsStored out
      → IsStored (finish env timing key provider app holder out)
  unfolding finish
  finish-IsStored holder (result, v) stored token h =
      token_at-release_lease key holder v.store ∙ stored token h

  abbrev Keeps : Round env timing key provider app → Type 0
  Keeps (done out) = IsStored out
  Keeps (again next slept v) = Unit {0}

  try_round-Keeps :
      (holder : String) (waited : ℕ) (v : Vault env)
      → Keeps (try_round env timing key provider app holder waited v)
  unfolding try_round
  try_round-Keeps holder waited v =
      let now = (env.now v.world).0 in
      elim (Bool-cases (acquire_lease key holder (now + timing.lease_ttl) now v.store).0) [
        | inl won ↦ rw (won, try_round) (finish-IsStored holder _ (refresh_leased-IsStored _))
        | inr lost ↦ rw (lost, try_round) tt
      ]

  after_sleep-Keeps :
      (waited : ℕ) (token : Option Token) (held : Bool) (v : Vault env)
      → ((t : Token) → token ≡ some t → token_at key v.store ≡ some t)
      → Keeps (after_sleep env timing key provider app waited token held v)
  unfolding after_sleep
  after_sleep-Keeps waited (some t) held v there = λ t' h. there t' (cc h)
  after_sleep-Keeps waited none true v there = tt
  after_sleep-Keeps waited none false v there = elim (Bool-cases (leb timing.wait_timeout waited)) [
    | inl late ↦ rw (late, after_sleep) (λ t h. cc h)
    | inr early ↦ rw (early, after_sleep) tt
  ]

  fresh_token-some :
      (token : Option Token) (now : ℕ) (t : Token)
      → fresh_token env timing key provider app token now ≡ some t
      → token ≡ some t
  unfolding fresh_token
  fresh_token-some none now t h = cc h
  fresh_token-some (some t') now t h = ground arith

  seen-Keeps :
      (waited : ℕ) (conn : Option Connection) (now : ℕ) (held : Bool) (v : Vault env)
      → get_connection key v.store ≡ conn
      → Keeps (seen env timing key provider app waited conn now held v)
  unfolding seen token_at
  seen-Keeps waited none now held v e = λ token h. cc h
  seen-Keeps waited (some c) now held v e =
      after_sleep-Keeps waited _ held v (λ t h. rw (e, token_at) (fresh_token-some c.token now t h))

  wait_round-Keeps :
      (waited : ℕ) (v : Vault env) → Keeps (wait_round env timing key provider app waited v)
  unfolding wait_round
  wait_round-Keeps waited v = elim (Bool-cases (ltb waited timing.wait_timeout)) [
    | inl early ↦ rw (early, wait_round) (seen-Keeps _ _ _ _ _ refl)
    | inr late ↦ rw (late, wait_round) (λ t h. cc h)
  ]

  round-Keeps :
      (holder : String) (phase : Phase) (waited : ℕ) (v : Vault env)
      → Keeps (round env timing key provider app holder phase waited v)
  unfolding round
  round-Keeps holder trying waited v = try_round-Keeps holder waited v
  round-Keeps holder waiting waited v = wait_round-Keeps waited v

  loop-IsStored :
      (fuel : ℕ) (holder : String) (phase : Phase) (waited : ℕ) (v : Vault env)
      → IsStored (loop env timing key provider app fuel holder phase waited v)
  unfolding loop
  loop-IsStored zero holder phase waited v = λ t h. cc h
  loop-IsStored (suc fuel) holder phase waited v =
      go (round env timing key provider app holder phase waited v)
        (round-Keeps holder phase waited v)
        (λ next slept v'. loop-IsStored fuel holder next slept v')
    where
      go :
          (r : Round env timing key provider app)
          → Keeps r
          → ((next : Phase) (slept : ℕ) (v' : Vault env)
              → IsStored (loop env timing key provider app fuel holder next slept v'))
          → IsStored (elim r [
            | done out ↦ out
            | again next slept v' ↦ loop env timing key provider app fuel holder next slept v'
          ])
      go (done out) keeps rest = keeps
      go (again next slept v') keeps rest = rest next slept v'

  -- On every path, whether the token was still good, was refreshed here, or was refreshed by
  -- another writer during the wait, the token that `refresh_if_needed` returns is the token of the
  -- key's connection in the store at that moment.
  pub refresh_if_needed_stored :
      (v : Vault env) (token : Token)
      → (refresh_if_needed env timing key provider app v).0 ≡ ok token
      → token_at key (refresh_if_needed env timing key provider app v).1.store ≡ some token
  unfolding refresh_if_needed
  refresh_if_needed_stored v token h = ground (
    arith,
    loop-IsStored (fuel_for env timing key provider app)
        (env.lease_id (as_str key) (env.now v.world).0) trying 0
        (record v { world = (env.now v.world).1 }) token,
  )
