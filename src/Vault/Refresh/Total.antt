-- ===== src/Vault/Refresh/Total.antt =====
-- vault/refresh.py: the two loops of `refresh_if_needed`, and their fuel.
use islands_kernel.Base.{
  ℕ, zero, suc, ◌+◌, ◌-◌, ◌*◌, ◌≤◌, ◌<◌, String, ◌≢◌, Bool, true, false, Option, none, some, arith,
  err, inl, inr, ltb, leb, Bool-cases,
}
use islands_kernel.Vault.Model.{ConnKey, Token, Connection, as_str}
use islands_kernel.Vault.Store.{acquire_lease}
use islands_kernel.Vault.Refresh.{
  Env, AppCred, out_of_fuel, Timing, Vault, Phase, trying, waiting, Outcome, publish_token,
  refresh_leased, finish, loop, Round, done, again, try_round, after_sleep, seen, wait_round, round,
  fuel_for, refresh_if_needed,
}

module _ (env : Env) (timing : Timing) (key : ConnKey) (provider : String) (app : AppCred) where
  -- The fuel that the loops need from a phase on.
  abbrev need : Phase → ℕ → ℕ
  need trying waited = 2 * (timing.wait_timeout - waited) + 2
  need waiting waited = 2 * (timing.wait_timeout - waited) + 1

  abbrev Ends : Outcome env timing key provider app → Type 0
  Ends out = out.0 ≢ err out_of_fuel

  -- A round ends without asking for fuel, or leaves less for the rounds after it to need.
  abbrev Falls : Phase → ℕ → Round env timing key provider app → Type 0
  Falls phase waited (done out) = Ends out
  Falls phase waited (again next slept v) = need next slept < need phase waited

  finish-Ends :
      (holder : String) (v : Vault env)
      → Ends
          (finish env timing key provider app holder (refresh_leased env timing key provider app v))
  unfolding finish refresh_leased publish_token
  finish-Ends holder v = ground arith

  try_round-Falls :
      (holder : String) (waited : ℕ) (v : Vault env)
      → Falls trying waited (try_round env timing key provider app holder waited v)
  unfolding try_round
  try_round-Falls holder waited v =
      let now = (env.now v.world).0 in
      elim (Bool-cases (acquire_lease key holder (now + timing.lease_ttl) now v.store).0) [
        | inl won ↦ rw (won, try_round) (finish-Ends holder _)
        | inr lost ↦ rw (lost, try_round) (omega arith)
      ]

  after_sleep-Falls :
      (waited : ℕ) (token : Option Token) (held : Bool) (v : Vault env)
      → 0 < timing.poll
      → waited < timing.wait_timeout
      → Falls waiting waited
          (after_sleep env timing key provider app (waited + timing.poll) token held v)
  unfolding after_sleep
  after_sleep-Falls waited (some token) held v p h = λ e. cc e
  after_sleep-Falls waited none true v p h = omega arith
  after_sleep-Falls waited none false v p h =
      elim (Bool-cases (leb timing.wait_timeout (waited + timing.poll))) [
        | inl late ↦ rw (late, after_sleep) (λ e. cc e)
        | inr early ↦ rw (early, after_sleep) (ground arith)
      ]

  seen-Falls :
      (waited : ℕ) (conn : Option Connection) (now : ℕ) (held : Bool) (v : Vault env)
      → 0 < timing.poll
      → waited < timing.wait_timeout
      → Falls waiting waited
          (seen env timing key provider app (waited + timing.poll) conn now held v)
  unfolding seen
  seen-Falls waited none now held v p h = λ e. cc e
  seen-Falls waited (some c) now held v p h = after_sleep-Falls waited _ held v p h

  wait_round-Falls :
      (waited : ℕ) (v : Vault env)
      → 0 < timing.poll
      → Falls waiting waited (wait_round env timing key provider app waited v)
  unfolding wait_round
  wait_round-Falls waited v p = elim (Bool-cases (ltb waited timing.wait_timeout)) [
    | inl early ↦ rw (early, wait_round) (seen-Falls waited _ _ _ _ p (ground arith))
    | inr late ↦ rw (late, wait_round) (λ e. cc e)
  ]

  round-Falls :
      (holder : String) (phase : Phase) (waited : ℕ) (v : Vault env)
      → 0 < timing.poll
      → Falls phase waited (round env timing key provider app holder phase waited v)
  unfolding round
  round-Falls holder trying waited v p = try_round-Falls holder waited v
  round-Falls holder waiting waited v p = wait_round-Falls waited v p

  loop-Ends :
      (fuel : ℕ) (holder : String) (phase : Phase) (waited : ℕ) (v : Vault env)
      → 0 < timing.poll
      → need phase waited ≤ fuel
      → Ends (loop env timing key provider app fuel holder phase waited v)
  unfolding loop
  loop-Ends zero holder trying waited v p h = absurd (omega arith)
  loop-Ends zero holder waiting waited v p h = absurd (omega arith)
  loop-Ends (suc fuel) holder phase waited v p h =
      go (round env timing key provider app holder phase waited v)
        (round-Falls holder phase waited v p)
        (λ next slept v' less. loop-Ends fuel holder next slept v' p less)
    where
      go :
          (r : Round env timing key provider app)
          → Falls phase waited r
          → ((next : Phase) (slept : ℕ) (v' : Vault env)
              → need next slept ≤ fuel
              → Ends (loop env timing key provider app fuel holder next slept v'))
          → Ends (elim r [
            | done out ↦ out
            | again next slept v' ↦ loop env timing key provider app fuel holder next slept v'
          ])
      go (done out) ends rest = ends
      go (again next slept v') less rest = rest next slept v' (omega arith)

  -- With a poll that takes time, `refresh_if_needed` comes back with a token or with one of the
  -- source's exceptions, whatever the other writers do to the store while it waits: the fuel for
  -- two rounds for each unit of `wait_timeout`, and two more, never runs out.
  pub refresh_if_needed_total :
      (v : Vault env)
      → 0 < timing.poll
      → (refresh_if_needed env timing key provider app v).0 ≢ err out_of_fuel
  unfolding refresh_if_needed
  refresh_if_needed_total v p = ground (
    arith,
    loop-Ends (fuel_for env timing key provider app) (env.lease_id (as_str key) (env.now v.world).0)
        trying 0 (record v { world = (env.now v.world).1 }) p (omega arith),
  )
