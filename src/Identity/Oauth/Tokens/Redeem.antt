-- ===== src/Identity/Oauth/Tokens/Redeem.antt =====
-- identity/oauth/token_endpoint.py: `redeem_code`, on every branch and called again.
use islands_kernel.Base.{
  ℕ, ◌<◌, String, ◌≡◌, refl, true, false, Option, none, some, inl, inr, string_eq, Result, ok,
  is_ok, is_some, arith, ap, ◌⊎◌, Option-cases, Bool-cases,
}
use islands_kernel.Base.Dict.{lookup, insert, lookup-insert_self, lookup-IsKeyed}
use islands_kernel.Identity.Model.{OauthAuthCode}
use islands_kernel.Identity.Store.{
  IdentityStore, get_auth_code, consume_auth_code, put_access_token,
}
use islands_kernel.Identity.Store.Invariant.{IsValid}
use islands_kernel.Identity.Oauth.Clients.{OauthError}
use islands_kernel.Identity.Oauth.Tokens.{
  FreshPair, TokenResponse, subject_of_code, resolve_refresh_ttl, pair_row, audience_agrees,
  redeem_code,
}

abbrev pub Outcome : Type 0
Outcome = Result OauthError TokenResponse × IdentityStore

module _ (digest : String → String) where
  -- The row may be redeemed at `now` with this verifier and audience.
  pub record Redeemable (row : OauthAuthCode) (code_verifier : String) (audience : Option String)
      (now : ℕ) : Type 0 where
    pub in_time : now < row.expires_at
    pub fits : audience_agrees digest audience row.audience ≡ true
    pub proved : digest code_verifier ≡ row.code_challenge
    pub unused : row.consumed_at ≡ none

  -- The store after a code is redeemed: its row is marked, and the pair's row is there.
  abbrev pub redeemed :
      FreshPair → String → OauthAuthCode → ℕ → ℕ → Option ℕ → IdentityStore → IdentityStore
  redeemed fresh code row now access_ttl refresh_ttl s =
      let marked : IdentityStore = record s {
        codes = insert (digest code) (record row { consumed_at = some now }) s.codes;
      } in
      put_access_token
        (pair_row digest fresh (subject_of_code row) now access_ttl
          (resolve_refresh_ttl marked row.audience refresh_ttl))
        marked

  module _ (fresh : FreshPair) (code code_verifier : String) (audience : Option String)
      (now access_ttl : ℕ) (refresh_ttl : Option ℕ) (s : IdentityStore) where
    abbrev pub run : Outcome
    run = redeem_code digest fresh code code_verifier audience now access_ttl refresh_ttl s

    -- A refused code changes nothing in the store.
    redeem_code_atomic : is_ok run.0 ≡ false → run.1 ≡ s
    unfolding redeem_code consume_auth_code get_auth_code
    redeem_code_atomic h = ground arith

    -- A row that is marked as consumed is refused, whatever the call.
    spent_refused :
        (row : OauthAuthCode)
        → lookup (digest code) s.codes ≡ some row
        → row.hash ≡ digest code
        → is_some row.consumed_at ≡ true
        → is_ok run.0 ≡ false
    unfolding redeem_code consume_auth_code get_auth_code
    spent_refused row found own used = ground arith

    pub redeem_found :
        (row : OauthAuthCode)
        → IsValid s
        → lookup (digest code) s.codes ≡ some row
        → Redeemable row code_verifier audience now
        → run ≡ (
          ok (record {
            access_token = fresh.access_raw;
            refresh_token = fresh.refresh_raw;
            expires_in = access_ttl;
          }),
          redeemed fresh code row now access_ttl refresh_ttl s,
        )
    unfolding redeem_code consume_auth_code get_auth_code
    redeem_found row v found can = ground (
      arith,
      lookup-IsKeyed (λ (c : OauthAuthCode). c.hash) (digest code) s.codes row v.codes found,
      can.in_time,
      can.fits,
      can.proved,
      can.unused,
    )

    redeem_needs :
        is_ok run.0 ≡ true
        → IsValid s
        → (row : OauthAuthCode) × (lookup (digest code) s.codes ≡ some row)
          × Redeemable row code_verifier audience now
    unfolding redeem_code consume_auth_code get_auth_code
    redeem_needs h v = elim (Option-cases (lookup (digest code) s.codes)) [
      | inl absent ↦ absurd (ground arith)
      | inr (row, found) ↦ (
        row,
        found,
        record {
          in_time = ground arith;
          fits = ground arith;
          proved = ground arith;
          unused = ground (
            arith,
            lookup-IsKeyed (λ (c : OauthAuthCode). c.hash) (digest code) s.codes row v.codes found,
          );
        },
      )
    ]

    -- In a store whose tables are keyed by their rows, `redeem_code` does one of two things. It
    -- finds the code's row, in time, unused, for the audience (if one is given) and with the
    -- verifier that its challenge asks for, and then marks the row as consumed now and stores the
    -- new pair. Or there is no such row, and it raises and changes nothing.
    pub redeem_code_cases :
        IsValid s
        → ((row : OauthAuthCode) × (get_auth_code (digest code) s ≡ some row)
            × Redeemable row code_verifier audience now
            × (run ≡ (
              ok (record {
                access_token = fresh.access_raw;
                refresh_token = fresh.refresh_raw;
                expires_in = access_ttl;
              }),
              redeemed fresh code row now access_ttl refresh_ttl s,
            )))
          ⊎ (((row : OauthAuthCode)
                → get_auth_code (digest code) s ≡ some row
                → ¬ Redeemable row code_verifier audience now)
              × (is_ok run.0 ≡ false)
              × (run.1 ≡ s))
    unfolding get_auth_code
    redeem_code_cases v = elim (Bool-cases (is_ok run.0)) [
      | inl fine ↦
          let (row, found, can) = redeem_needs fine v in
          inl (row, found, can, redeem_found row v found can)
      | inr bad ↦ inr (
        λ row found can. cc (bad, ap (λ (r : Outcome). is_ok r.0) (redeem_found row v found can)),
        bad,
        redeem_code_atomic bad,
      )
    ]

  -- A code is redeemed once: after a call that succeeds on a keyed store, every later call with
  -- the same code raises, with whatever verifier, audience, time and tokens.
  pub redeem_code_once :
      (fresh fresh' : FreshPair) (code code_verifier code_verifier' : String)
      (audience audience' : Option String) (now now' access_ttl access_ttl' : ℕ)
      (refresh_ttl refresh_ttl' : Option ℕ) (s : IdentityStore)
      → IsValid s
      → is_ok (run fresh code code_verifier audience now access_ttl refresh_ttl s).0 ≡ true
      → is_ok
          (run fresh' code code_verifier' audience' now' access_ttl' refresh_ttl'
            (run fresh code code_verifier audience now access_ttl refresh_ttl s).1).0
        ≡ false
  redeem_code_once fresh fresh' code code_verifier code_verifier' audience audience' now now'
        access_ttl access_ttl' refresh_ttl refresh_ttl' s v h =
      let (row, found, can) =
        redeem_needs fresh code code_verifier audience now access_ttl refresh_ttl s h v in
      let own =
        lookup-IsKeyed (λ (c : OauthAuthCode). c.hash) (digest code) s.codes row v.codes found in
      rw
        (redeem_found fresh code code_verifier audience now access_ttl refresh_ttl s row v found
          can)
        (spent_refused fresh' code code_verifier' audience' now' access_ttl' refresh_ttl' _
          (record row { consumed_at = some now })
          (unfold put_access_token in lookup-insert_self (digest code) _ s.codes) own refl)
