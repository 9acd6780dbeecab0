-- ===== src/Identity/Oauth/Tokens/Rotation.antt =====
-- identity/oauth/token_endpoint.py: `refresh`, and the row that carries a refresh token.
use mathlib.Core.Bool.{true≢false}
use mathlib.Core.Option.{none-ne-some, some-injective}
use native.Mathlib.Decide.{dec_lt}
use islands_kernel.Base.{
  sym, ◌∙◌, ℕ, ◌<◌, String, ◌≡◌, ◌≢◌, refl, true, false, Option, none, some, List, [], ◌∷◌, inl,
  inr, string_eq, Result, ok, err, is_ok, arith, Option-cases, Bool-cases, ◌⊎◌,
}
use islands_kernel.Base.Dict.{
  lookup, lookup-insert, lookup-insert_self, lookup-erase, lookup-IsKeyed,
}
use islands_kernel.Identity.Model.{OauthAccessToken}
use islands_kernel.Identity.Store.{
  IdentityStore, get_access_token, put_access_token, rotate_refresh, access_token_hashes,
}
use islands_kernel.Identity.Store.Invariant.{IsValid}
use islands_kernel.Identity.Oauth.Clients.{OauthError, unknown_refresh}
use islands_kernel.Identity.Oauth.Tokens.{
  FreshPair, TokenResponse, subject_of_token, resolve_refresh_ttl, pair_row, issue_pair, carries,
  find_refresh, refresh_deadline, refresh_pair,
}

module _ (digest : String → String) where
  find_none :
      (s : IdentityStore) (rh : String) (hashes : List String)
      → ((h : String) → carries digest rh (lookup h s.at) ≡ false)
      → find_refresh digest s rh hashes ≡ none
  unfolding find_refresh get_access_token
  find_none s rh [] n = refl
  find_none s rh (h ∷ hashes) n = rw n (find_none s rh hashes n)

  find_some :
      (s : IdentityStore) (rh : String) (hashes : List String) (row : OauthAccessToken)
      → find_refresh digest s rh hashes ≡ some row
      → (h : String) × (lookup h s.at ≡ some row) × (carries digest rh (some row) ≡ true)
  unfolding find_refresh get_access_token
  find_some s rh [] row e = cc
  find_some s rh (h ∷ hashes) row e = elim (Bool-cases (carries digest rh (lookup h s.at))) [
    | inl here ↦ (h, ground arith, ground arith)
    | inr not_here ↦ find_some s rh hashes row (ground arith)
  ]

  -- At most one row carries the refresh hash `rh`.
  abbrev pub IsUnique : String → IdentityStore → Type 0
  IsUnique rh s =
      (h k : String)
      → carries digest rh (lookup h s.at) ≡ true
      → carries digest rh (lookup k s.at) ≡ true
      → h ≡ k

  stored :
      (row : OauthAccessToken) (s : IdentityStore)
      → get_access_token row.hash (put_access_token row s) ≡ some row
  unfolding get_access_token put_access_token
  stored row s = lookup-insert_self row.hash row s.at

  module _ (fresh : FreshPair) (refresh_token : String) (now access_ttl : ℕ)
      (refresh_ttl : Option ℕ) (s : IdentityStore) where
    abbrev pub run : Result OauthError TokenResponse × IdentityStore
    run = refresh_pair digest fresh refresh_token now access_ttl refresh_ttl s

    abbrev pub new_row : OauthAccessToken → OauthAccessToken
    new_row current =
        pair_row digest fresh (subject_of_token current) now access_ttl
          (resolve_refresh_ttl s current.audience refresh_ttl)

    -- The row that the loop finds.
    abbrev pub current_row : Option OauthAccessToken
    current_row = find_refresh digest s (digest refresh_token) (access_token_hashes s)

    abbrev pub rotated : OauthAccessToken → IdentityStore
    rotated current =
        rotate_refresh current.hash (new_row current) (put_access_token (new_row current) s)

    refresh_found :
        (current : OauthAccessToken)
        → current_row ≡ some current
        → now < refresh_deadline digest current
        → run ≡ (
          ok (record {
            access_token = fresh.access_raw;
            refresh_token = fresh.refresh_raw;
            expires_in = access_ttl;
          }),
          rotated current,
        )
    unfolding refresh_pair issue_pair
    refresh_found current found in_time = ground (arith, stored (new_row current) s)

    refresh_refused :
        ((current : OauthAccessToken)
          → current_row ≡ some current
          → ¬ (now < refresh_deadline digest current))
        → (is_ok run.0 ≡ false) × (run.1 ≡ s)
    unfolding refresh_pair
    refresh_refused none_fits = elim (Option-cases current_row) [
      | inl absent ↦ ground arith
      | inr (current, found) ↦ ground (arith, none_fits current found)
    ]

    refresh_unknown : current_row ≡ none → run ≡ (err unknown_refresh, s)
    unfolding refresh_pair
    refresh_unknown absent = ground arith

    -- `refresh` either finds the first row that carries the token's hash, before the row's refresh
    -- deadline, and then answers with the new pair and stores the new row in place of the old; or
    -- there is no such row in time, and it raises and changes nothing.
    pub refresh_pair_cases :
        ((current : OauthAccessToken) × (current_row ≡ some current)
          × (now < refresh_deadline digest current)
          × (run ≡ (
            ok (record {
              access_token = fresh.access_raw;
              refresh_token = fresh.refresh_raw;
              expires_in = access_ttl;
            }),
            rotated current,
          )))
        ⊎ (((current : OauthAccessToken)
              → current_row ≡ some current
              → ¬ (now < refresh_deadline digest current))
            × (is_ok run.0 ≡ false)
            × (run.1 ≡ s))
    refresh_pair_cases = elim (Option-cases current_row) [
      | inl absent ↦
          let none_fits : (current : OauthAccessToken)
              → current_row ≡ some current
              → ¬ (now < refresh_deadline digest current) =
            λ current found. absurd (none-ne-some current (sym absent ∙ found)) in
          let (bad, same) = refresh_refused none_fits in inr (none_fits, bad, same)
      | inr (current, found) ↦ elim (dec_lt now (refresh_deadline digest current)) [
        | yes in_time ↦ inl (current, found, in_time, refresh_found current found in_time)
        | no late ↦
            let none_fits : (other : OauthAccessToken)
                → current_row ≡ some other
                → ¬ (now < refresh_deadline digest other) =
              λ other found'. rw (← some-injective current other (sym found ∙ found')) late in
            let (bad, same) = refresh_refused none_fits in inr (none_fits, bad, same)
      ]
    ]

  gone :
      (current row : OauthAccessToken) (rh : String) (s : IdentityStore)
      → carries digest rh (some row) ≡ false
      → ((h : String) → carries digest rh (lookup h s.at) ≡ true → h ≡ current.hash)
      → (h : String)
      → carries digest rh (lookup h (rotate_refresh current.hash row (put_access_token row s)).at)
        ≡ false
  unfolding rotate_refresh put_access_token carries
  gone current row rh s other only h = simp (lookup-insert, lookup-erase) (ground (arith, only h))

  rotated_lacks :
      (fresh : FreshPair) (refresh_token : String) (now access_ttl : ℕ) (refresh_ttl : Option ℕ)
      (s : IdentityStore)
      → IsValid s
      → IsUnique (digest refresh_token) s
      → digest fresh.refresh_raw ≢ digest refresh_token
      → (current : OauthAccessToken)
      → current_row fresh refresh_token now access_ttl refresh_ttl s ≡ some current
      → (h : String)
      → carries digest
          (digest refresh_token)
          (lookup h (rotated fresh refresh_token now access_ttl refresh_ttl s current).at)
        ≡ false
  unfolding pair_row carries
  rotated_lacks fresh refresh_token now access_ttl refresh_ttl s v unique differs current found =
      let (k, there, carried) = find_some s (digest refresh_token) _ current found in
      let own : current.hash ≡ k =
        lookup-IsKeyed (λ (t : OauthAccessToken). t.hash) k s.at current v.at there in
      gone current (new_row fresh refresh_token now access_ttl refresh_ttl s current)
        (digest refresh_token) s (ground arith)
        (λ h c. unique h current.hash c (rw (own, there) carried))

  -- A refresh token is used once: where one row at most carries its hash, and the new refresh
  -- token has another hash, then after a call that succeeds on a keyed store, a call with the
  -- same refresh token, at any time and with any tokens, raises `unknown or rotated refresh token`
  -- and changes nothing.
  pub refresh_pair_once :
      (fresh fresh' : FreshPair) (refresh_token : String) (now now' access_ttl access_ttl' : ℕ)
      (refresh_ttl refresh_ttl' : Option ℕ) (s : IdentityStore)
      → IsValid s
      → IsUnique (digest refresh_token) s
      → digest fresh.refresh_raw ≢ digest refresh_token
      → is_ok (run fresh refresh_token now access_ttl refresh_ttl s).0 ≡ true
      → let s' = (run fresh refresh_token now access_ttl refresh_ttl s).1 in
        run fresh' refresh_token now' access_ttl' refresh_ttl' s' ≡ (err unknown_refresh, s')
  refresh_pair_once fresh fresh' refresh_token now now' access_ttl access_ttl' refresh_ttl
        refresh_ttl' s v unique differs h =
      elim (refresh_pair_cases fresh refresh_token now access_ttl refresh_ttl s) [
        | inr (_, bad, _) ↦ absurd (true≢false (sym h ∙ bad))
        | inl (current, found, in_time, e) ↦ rw e (
            refresh_unknown fresh' refresh_token now' access_ttl' refresh_ttl' _ (
              find_none _ (digest refresh_token) _ (
                rotated_lacks fresh refresh_token now access_ttl refresh_ttl s v unique differs
                  current found)))
      ]
