-- ===== src/Identity/Federation/Flow/Once.antt =====
-- identity/federation/flow.py: `complete_federation`, called again for one transaction.
use islands_kernel.Base.{
  ℕ, String, ◌≡◌, refl, ◌∙◌, true, false, Option, none, some, inl, inr, arith, string_eq, Result,
  is_ok, is_some, ap, Option-cases, Result-cases,
}
use islands_kernel.Base.Dict.{lookup, insert, lookup-insert_self, lookup-IsKeyed}
use islands_kernel.Identity.Model.{FederationTxn, IslandRegistry}
use islands_kernel.Identity.Store.{
  IdentityStore, put_principal, put_membership, put_island_principal_link, put_auth_code,
  put_oauth_client, get_federation_txn, consume_federation_txn, get_island,
}
use islands_kernel.Identity.Store.Invariant.{IsValid}
use islands_kernel.Identity.Oauth.Clients.{
  Fetch, ClientDoc, adopt_client, fetch_client, resolve_client,
}
use islands_kernel.Identity.Oauth.Codes.{CodeRequest, issue_auth_code}
use islands_kernel.Identity.Federation.Assertion.{Library, Identified}
use islands_kernel.Identity.Federation.Principals.{find_or_create_island_principal}
use islands_kernel.Identity.Federation.Flow.{
  FederationError, FreshTokens, sign_in, proceed, complete_federation, identify,
}

adopt_client-ftxn :
    (client_id : String) (doc : ClientDoc) (s : IdentityStore)
    → (adopt_client client_id doc s).1.ftxn ≡ s.ftxn
unfolding adopt_client put_oauth_client
adopt_client-ftxn client_id doc s = ground arith

fetch_client-ftxn :
    (fetch : Fetch) (client_id : String) (s : IdentityStore)
    → (fetch_client fetch client_id s).1.ftxn ≡ s.ftxn
unfolding fetch_client
fetch_client-ftxn none client_id s = refl
fetch_client-ftxn (some fetch) client_id s = elim (Option-cases (fetch client_id)) [
  | inl absent ↦ rw (absent, fetch_client) refl
  | inr (doc, e) ↦ rw (e, fetch_client) (adopt_client-ftxn client_id doc s)
]

resolve_client-ftxn :
    (fetch : Fetch) (client_id : String) (s : IdentityStore)
    → (resolve_client fetch client_id s).1.ftxn ≡ s.ftxn
unfolding resolve_client
resolve_client-ftxn fetch client_id s = ground (arith, fetch_client-ftxn fetch client_id s)

issue_auth_code-ftxn :
    (hash_token : String → String) (fetch : Fetch) (raw : String) (request : CodeRequest)
    (now ttl : ℕ) (s : IdentityStore)
    → (issue_auth_code hash_token fetch raw request now ttl s).1.ftxn ≡ s.ftxn
unfolding issue_auth_code put_auth_code
issue_auth_code-ftxn hash_token fetch raw request now ttl s =
    ground (arith, resolve_client-ftxn fetch request.client_id s)

find_or_create-ftxn :
    (pid : String) (island : IslandRegistry) (user : String) (email : Option String) (now : ℕ)
    (s : IdentityStore)
    → (find_or_create_island_principal pid island user email now s).1.ftxn ≡ s.ftxn
unfolding find_or_create_island_principal put_principal put_membership put_island_principal_link
find_or_create-ftxn pid island user email now s = ground arith

module _ (lib : Library) (hash_token : String → String) (fetch : Fetch) where
  sign_in-ftxn :
      (fresh : FreshTokens) (txn : FederationTxn) (island : IslandRegistry) (identity : Identified)
      (now : ℕ) (s : IdentityStore)
      → (sign_in lib hash_token fetch fresh txn island identity now s).1.ftxn ≡ s.ftxn
  unfolding sign_in
  sign_in-ftxn fresh txn island identity now s =
      let made =
        find_or_create_island_principal fresh.pid island identity.island_user_id identity.email now
          s in
      let request : CodeRequest = record {
        client_id = txn.client_id;
        principal_id = made.0;
        org_id = some island.org_id;
        redirect_uri = txn.redirect_uri;
        code_challenge = txn.code_challenge;
        audience = txn.audience;
        scope = txn.scope;
      } in
      ground (
        arith,
        issue_auth_code-ftxn hash_token fetch fresh.code request now 600000 made.1,
        find_or_create-ftxn fresh.pid island identity.island_user_id identity.email now s,
      )

  proceed-ftxn :
      (fresh : FreshTokens) (txn : FederationTxn) (sso_code kernel_issuer : String) (now : ℕ)
      (s : IdentityStore)
      → (proceed lib hash_token fetch fresh txn sso_code kernel_issuer now s).1.ftxn ≡ s.ftxn
  unfolding proceed
  proceed-ftxn fresh txn sso_code kernel_issuer now s =
      elim (Option-cases (get_island txn.island_id s)) [
        | inl absent ↦ rw (absent, proceed) refl
        | inr (island, there) ↦ elim (Option-cases island.disabled_at) [
          | inr (at, off) ↦ rw (there, off, proceed) refl
          | inl on ↦
              elim (Result-cases (identify lib island sso_code kernel_issuer txn.nonce now)) [
                | inr (e, bad) ↦ rw (there, on, bad, proceed) refl
                | inl (identity, good) ↦
                    rw (there, on, good, proceed) (sign_in-ftxn fresh txn island identity now s)
              ]
        ]
      ]

  module _ (fresh : FreshTokens) (txn_id sso_code kernel_issuer : String) (now : ℕ)
      (s : IdentityStore) where
    abbrev run : Result FederationError String × IdentityStore
    run = complete_federation lib hash_token fetch fresh txn_id sso_code kernel_issuer now s

    -- A transaction that is marked as consumed is refused, and nothing changes.
    spent_refused :
        (txn : FederationTxn)
        → lookup (hash_token txn_id) s.ftxn ≡ some txn
        → txn.hash ≡ hash_token txn_id
        → is_some txn.consumed_at ≡ true
        → (is_ok run.0 ≡ false) × (run.1 ≡ s)
    unfolding complete_federation get_federation_txn consume_federation_txn
    spent_refused txn there own used = ground arith

    -- Whatever completes has marked its transaction.
    completed_marks :
        IsValid s
        → is_ok run.0 ≡ true
        → (txn : FederationTxn) × (lookup (hash_token txn_id) s.ftxn ≡ some txn)
          × (run.1.ftxn ≡ insert (hash_token txn_id) (record txn { consumed_at = some now }) s.ftxn)
    unfolding complete_federation get_federation_txn consume_federation_txn
    completed_marks valid h = elim (Option-cases (lookup (hash_token txn_id) s.ftxn)) [
      | inl absent ↦ absurd (ground arith)
      | inr (txn, there) ↦
          let own =
            lookup-IsKeyed (λ (t : FederationTxn). t.hash) (hash_token txn_id) s.ftxn txn valid.ftxn
              there in
          let marked : IdentityStore = record s {
            ftxn = insert (hash_token txn_id) (record txn { consumed_at = some now }) s.ftxn;
          } in
          (txn, there, ground (arith, proceed-ftxn fresh txn sso_code kernel_issuer now marked))
    ]

  -- A federation transaction completes once: after a call that succeeds on a keyed store, every
  -- later call for the same transaction raises and changes nothing, whatever code the island gave,
  -- at any time and with any tokens.
  pub complete_federation_once :
      (fresh fresh' : FreshTokens) (txn_id sso_code sso_code' kernel_issuer kernel_issuer' : String)
      (now now' : ℕ) (s : IdentityStore)
      → IsValid s
      → is_ok (run fresh txn_id sso_code kernel_issuer now s).0 ≡ true
      → let s' = (run fresh txn_id sso_code kernel_issuer now s).1 in
        let again = run fresh' txn_id sso_code' kernel_issuer' now' s' in
        (is_ok again.0 ≡ false) × (again.1 ≡ s')
  complete_federation_once fresh fresh' txn_id sso_code sso_code' kernel_issuer kernel_issuer' now
        now' s valid h =
      let (txn, there, marked) =
        completed_marks fresh txn_id sso_code kernel_issuer now s valid h in
      let k = hash_token txn_id in
      let s' = (run fresh txn_id sso_code kernel_issuer now s).1 in
      spent_refused fresh' txn_id sso_code' kernel_issuer' now' s'
        (record txn { consumed_at = some now })
        (ap (lookup k) marked ∙ lookup-insert_self k (record txn { consumed_at = some now }) s.ftxn)
        (lookup-IsKeyed (λ (t : FederationTxn). t.hash) k s.ftxn txn valid.ftxn there) refl
