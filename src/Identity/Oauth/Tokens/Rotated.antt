-- ===== src/Identity/Oauth/Tokens/Rotated.antt =====
-- What a call of `refresh` in identity/oauth/token_endpoint.py finds, answers and leaves behind.
use mathlib.Core.Option.{none-ne-some}
use islands_kernel.Base.{
  ℕ, ◌+◌, ◌*◌, ◌<◌, String, ◌≡◌, refl, sym, ap, true, false, Option, none, some, List, [], ◌∷◌,
  ◌++◌, inl, inr, ◌⊎◌, ◌==◌, if◌then◌else◌, string_eq, ok, is_ok, arith, contains, Bool-cases,
  Option-cases,
}
use islands_kernel.Base.Dict.{lookup, keys, lookup-insert, lookup-erase, lookup-IsKeyed}
use islands_kernel.Identity.Model.{OauthAccessToken, second}
use islands_kernel.Identity.Store.{
  IdentityStore, get_access_token, put_access_token, rotate_refresh, access_token_hashes,
}
use islands_kernel.Identity.Store.Invariant.{IsValid}
use islands_kernel.Identity.Oauth.Tokens.{
  FreshPair, subject_of_token, resolve_refresh_ttl, pair_row, carries, find_refresh,
  refresh_deadline,
}
use islands_kernel.Identity.Oauth.Tokens.Rotation.{run, new_row, current_row, refresh_pair_cases}

-- The refresh token of the row has this hash and this deadline.
abbrev pub HasRefresh : OauthAccessToken → String → ℕ → Type 0
HasRefresh row rh deadline = row.refresh ≡ some (record { hash = rh; expires_at = deadline })

-- No row of the store under one of the keys has a refresh token with the hash.
abbrev pub AreOther : List String → String → IdentityStore → Type 0
AreOther hashes rh s =
    (h : String) (row : OauthAccessToken) (deadline : ℕ)
    → contains hashes h ≡ true
    → lookup h s.at ≡ some row
    → ¬ HasRefresh row rh deadline

-- In the order of the table, `current` is the first row whose refresh token has the hash.
pub record IsFirst (s : IdentityStore) (rh : String) (current : OauthAccessToken) (deadline : ℕ)
    : Type 0 where
  pub before : List String
  pub key : String
  pub after : List String
  pub split : keys s.at ≡ before ++ (key ∷ after)
  pub there : lookup key s.at ≡ some current
  pub has : HasRefresh current rh deadline
  pub others : AreOther before rh s

-- `row` is for the fresh tokens, with the rights of `current`.
pub record IsSuccessor (digest : String → String) (fresh : FreshPair) (current : OauthAccessToken)
    (now access_ttl refresh_ttl : ℕ) (row : OauthAccessToken) : Type 0 where
  pub hash : row.hash ≡ digest fresh.access_raw
  pub client_id : row.client_id ≡ current.client_id
  pub principal_id : row.principal_id ≡ current.principal_id
  pub org_id : row.org_id ≡ current.org_id
  pub audience : row.audience ≡ current.audience
  pub scope : row.scope ≡ current.scope
  pub expires_at : row.expires_at ≡ now + access_ttl * second
  pub refresh : HasRefresh row (digest fresh.refresh_raw) (now + refresh_ttl)

module _ (digest : String → String) where
  carries-HasRefresh :
      (rh : String) (row : OauthAccessToken)
      → carries digest rh (some row) ≡ true
      → HasRefresh row rh (refresh_deadline digest row)
  unfolding carries refresh_deadline
  carries-HasRefresh rh row h = ground arith

  HasRefresh-carries :
      (rh : String) (row : OauthAccessToken) (deadline : ℕ)
      → HasRefresh row rh deadline
      → carries digest rh (some row) ≡ true
  unfolding carries
  HasRefresh-carries rh row deadline h = ground (arith, h)

  others_cons :
      (s : IdentityStore) (rh h : String) (hashes : List String)
      → carries digest rh (lookup h s.at) ≡ false
      → AreOther hashes rh s
      → AreOther (h ∷ hashes) rh s
  others_cons s rh h hashes plain rest k row deadline member there has =
      elim (Bool-cases (k == h)) [
        | inl same ↦
            let c = HasRefresh-carries rh row deadline has in ground (arith, same, there, c, plain)
        | inr differ ↦ rest k row deadline (ground (arith, differ, member)) there has
      ]

  none-AreOther :
      (s : IdentityStore) (rh : String) (hashes : List String)
      → find_refresh digest s rh hashes ≡ none
      → AreOther hashes rh s
  unfolding find_refresh get_access_token carries
  none-AreOther s rh [] e = λ k row deadline member. cc member
  none-AreOther s rh (h ∷ hashes) e = elim (Bool-cases (carries digest rh (lookup h s.at))) [
    | inl here ↦ elim (Option-cases (lookup h s.at)) [
      | inl absent ↦ absurd (ground (arith, absent, here))
      | inr (row, there) ↦ absurd (ground (arith, there, here, e))
    ]
    | inr plain ↦ others_cons s rh h hashes plain (none-AreOther s rh hashes (ground arith))
  ]

  -- The first row of a list of keys that has the hash.
  record IsFirstOf (hashes : List String) (s : IdentityStore) (rh : String)
      (current : OauthAccessToken) : Type 0 where
    before : List String
    key : String
    after : List String
    split : hashes ≡ before ++ (key ∷ after)
    there : lookup key s.at ≡ some current
    has : carries digest rh (some current) ≡ true
    others : AreOther before rh s

  some-IsFirstOf :
      (s : IdentityStore) (rh : String) (hashes : List String) (current : OauthAccessToken)
      → find_refresh digest s rh hashes ≡ some current
      → IsFirstOf hashes s rh current
  unfolding find_refresh get_access_token
  some-IsFirstOf s rh [] current e = absurd (none-ne-some current e)
  some-IsFirstOf s rh (h ∷ hashes) current e =
      elim (Bool-cases (carries digest rh (lookup h s.at))) [
        | inl here ↦ record {
          before = [];
          key = h;
          after = hashes;
          split = refl;
          there = ground arith;
          has = ground arith;
          others = λ k row deadline member. cc member;
        }
        | inr plain ↦
            let later = some-IsFirstOf s rh hashes current (ground arith) in
            record {
              before = h ∷ later.before;
              key = later.key;
              after = later.after;
              split = ap (λ xs. h ∷ xs) later.split;
              there = later.there;
              has = later.has;
              others = others_cons s rh h later.before plain later.others;
            }
      ]

  found-IsFirst :
      (s : IdentityStore) (rh : String) (current : OauthAccessToken)
      → find_refresh digest s rh (access_token_hashes s) ≡ some current
      → IsFirst s rh current (refresh_deadline digest current)
  unfolding access_token_hashes
  found-IsFirst s rh current e =
      let first = some-IsFirstOf s rh (keys s.at) current e in
      record {
        before = first.before;
        key = first.key;
        after = first.after;
        split = first.split;
        there = first.there;
        has = carries-HasRefresh rh current first.has;
        others = first.others;
      }

  absent-AreOther :
      (s : IdentityStore) (rh : String)
      → find_refresh digest s rh (access_token_hashes s) ≡ none
      → AreOther (keys s.at) rh s
  unfolding access_token_hashes
  absent-AreOther s rh e = none-AreOther s rh (keys s.at) e

  rotated_rows :
      (old : String) (row : OauthAccessToken) (s : IdentityStore) (h : String)
      → lookup h (rotate_refresh old row (put_access_token row s)).at
        ≡ (if h == row.hash then some row else if h == old then none else lookup h s.at)
  unfolding rotate_refresh put_access_token
  rotated_rows old row s h = simp (lookup-insert, lookup-erase) (ground arith)

  rotated_tables :
      (old : String) (row : OauthAccessToken) (s : IdentityStore)
      → let s' = rotate_refresh old row (put_access_token row s) in s' ≡ record s { at = s'.at }
  unfolding rotate_refresh put_access_token
  rotated_tables old row s = refl

  pair_row-IsSuccessor :
      (fresh : FreshPair) (current : OauthAccessToken) (now access_ttl refresh_ttl : ℕ)
      → IsSuccessor digest fresh current now access_ttl refresh_ttl
          (pair_row digest fresh (subject_of_token current) now access_ttl refresh_ttl)
  unfolding pair_row
  pair_row-IsSuccessor fresh current now access_ttl refresh_ttl = record {
    hash = refl;
    client_id = refl;
    principal_id = refl;
    org_id = refl;
    audience = refl;
    scope = refl;
    expires_at = refl;
    refresh = refl;
  }

  module _ (fresh : FreshPair) (refresh_token : String) (now access_ttl : ℕ)
      (refresh_ttl : Option ℕ) (s : IdentityStore) where
    -- In a store whose tables are keyed by their rows, either some row has the token's hash as its
    -- refresh hash and `now` is before the deadline of the first such row. Then the answer is the
    -- fresh pair; the new row stands under the hash of the new access token, with the rights of the
    -- old row and with deadlines counted from now; nothing stands under the key of the old row,
    -- unless that is the new one; every other row and every other table is as it was. Or no row has
    -- that hash, or the first one that has it is past its deadline; then the call raises and changes
    -- nothing.
    pub refresh_pair_rotates :
        IsValid s
        → let (answer, s') = run digest fresh refresh_token now access_ttl refresh_ttl s in
          ((current : OauthAccessToken) × (deadline : ℕ) × (first : IsFirst s
              (digest refresh_token)
              current
              deadline)
            × (row : OauthAccessToken) × IsSuccessor digest fresh current now access_ttl
                (resolve_refresh_ttl s current.audience refresh_ttl)
                row
            × (now < deadline)
            × (answer
                ≡ ok (record {
                  access_token = fresh.access_raw;
                  refresh_token = fresh.refresh_raw;
                  expires_in = access_ttl;
                }))
            × ((h : String)
                → lookup h s'.at ≡ (
                    if h == row.hash
                    then some row
                    else if h == first.key
                    then none
                    else lookup h s.at))
            × (s' ≡ record s { at = s'.at }))
          ⊎ ((AreOther (keys s.at) (digest refresh_token) s
                ⊎ ((current : OauthAccessToken) × (deadline : ℕ) × IsFirst s
                      (digest refresh_token)
                      current
                      deadline
                    × ¬ (now < deadline)))
              × (is_ok answer ≡ false)
              × (s' ≡ s))
    refresh_pair_rotates v =
        elim (refresh_pair_cases digest fresh refresh_token now access_ttl refresh_ttl s) [
          | inl (current, found, in_time, e) ↦
              let first = found-IsFirst s (digest refresh_token) current found in
              let own : first.key ≡ current.hash = sym (
                lookup-IsKeyed (λ (t : OauthAccessToken). t.hash) first.key s.at current v.at
                  first.there) in
              let row = new_row digest fresh refresh_token now access_ttl refresh_ttl s current in
              inl (
                current,
                refresh_deadline digest current,
                first,
                row,
                pair_row-IsSuccessor fresh current now access_ttl
                    (resolve_refresh_ttl s current.audience refresh_ttl),
                in_time,
                rw e refl,
                λ h. rw (e, own) (rotated_rows current.hash row s h),
                rw e (rotated_tables current.hash row s),
              )
          | inr (unfit, failed, same) ↦ inr (
            elim (Option-cases
                (current_row digest fresh refresh_token now access_ttl refresh_ttl s)) [
                  | inl absent ↦ inl (absent-AreOther s (digest refresh_token) absent)
                  | inr (current, found) ↦ inr (
                    current,
                    refresh_deadline digest current,
                    found-IsFirst s (digest refresh_token) current found,
                    unfit current found,
                  )
                ],
            failed,
            same,
          )
        ]
