-- ===== src/Identity/Store/Invariant.antt =====
-- identity/store/memory.py: the rows of the store and the keys they stand under.
use islands_kernel.Base.{
  ℕ, String, refl, some, List, [], ◌∷◌, inl, inr, string_eq, pair_eq, Option-cases, Bool-cases,
  is_some,
}
use islands_kernel.Base.Dict.{
  IsKeyed, lookup, erase, insert-IsKeyed, erase-IsKeyed, replace-IsKeyed,
}
use islands_kernel.Identity.Model.{
  Principal, Org, Membership, Grant, McpToken, OauthClient, OauthAuthCode, OauthAccessToken,
  AccessLog, IslandRegistry, IslandPrincipalLink, FederationTxn,
}
use islands_kernel.Identity.Store
use islands_kernel.Identity.Store.{IdentityStore}

pub record IsValid (s : IdentityStore) : Type 0 where
  pub principals : IsKeyed (λ (p : Principal). p.id) s.principals
  pub orgs : IsKeyed (λ (o : Org). o.id) s.orgs
  pub memberships : IsKeyed (λ (m : Membership). (m.principal_id, m.org_id)) s.memberships
  pub grants : IsKeyed (λ (g : Grant). g.id) s.grants
  pub mcp : IsKeyed (λ (t : McpToken). t.hash) s.mcp
  pub clients : IsKeyed (λ (c : OauthClient). c.id) s.clients
  pub codes : IsKeyed (λ (c : OauthAuthCode). c.hash) s.codes
  pub at : IsKeyed (λ (t : OauthAccessToken). t.hash) s.at
  pub islands : IsKeyed (λ (i : IslandRegistry). i.id) s.islands
  pub island_links :
      IsKeyed (λ (l : IslandPrincipalLink). (l.island_id, l.island_user_id)) s.island_links
  pub ftxn : IsKeyed (λ (t : FederationTxn). t.hash) s.ftxn

-- The calls that change a store.
pub data Call : Type 0 where
  put_principal : Principal → Call
  put_org : Org → Call
  put_membership : Membership → Call
  add_grant : Grant → Call
  revoke_grant : String → ℕ → Call
  put_mcp_token : McpToken → Call
  put_oauth_client : OauthClient → Call
  put_auth_code : OauthAuthCode → Call
  consume_auth_code : String → ℕ → Call
  put_access_token : OauthAccessToken → Call
  rotate_refresh : String → OauthAccessToken → Call
  append_log : AccessLog → Call
  put_island : IslandRegistry → Call
  disable_island : String → ℕ → Call
  put_island_principal_link : IslandPrincipalLink → Call
  put_federation_txn : FederationTxn → Call
  consume_federation_txn : String → ℕ → Call

unfoldable pub perform : Call → IdentityStore → IdentityStore
perform (put_principal p) s = Store.put_principal p s
perform (put_org o) s = Store.put_org o s
perform (put_membership m) s = Store.put_membership m s
perform (add_grant g) s = Store.add_grant g s
perform (revoke_grant grant_id at) s = Store.revoke_grant grant_id at s
perform (put_mcp_token t) s = Store.put_mcp_token t s
perform (put_oauth_client c) s = Store.put_oauth_client c s
perform (put_auth_code c) s = Store.put_auth_code c s
perform (consume_auth_code code_hash at) s = (Store.consume_auth_code code_hash at s).1
perform (put_access_token t) s = Store.put_access_token t s
perform (rotate_refresh old_hash t) s = Store.rotate_refresh old_hash t s
perform (append_log entry) s = Store.append_log entry s
perform (put_island i) s = Store.put_island i s
perform (disable_island island_id at) s = Store.disable_island island_id at s
perform (put_island_principal_link link) s = Store.put_island_principal_link link s
perform (put_federation_txn t) s = Store.put_federation_txn t s
perform (consume_federation_txn txn_hash at) s = (Store.consume_federation_txn txn_hash at s).1

unfoldable pub perform_all : List Call → IdentityStore → IdentityStore
perform_all [] s = s
perform_all (c ∷ calls) s = perform_all calls (perform c s)

-- Every method, on every branch, leaves each row of every table under its own key, once.
pub perform-IsValid : (c : Call) (s : IdentityStore) → IsValid s → IsValid (perform c s)
unfolding perform Store.put_principal Store.put_org Store.put_membership Store.add_grant
    Store.put_mcp_token Store.revoke_grant Store.put_oauth_client Store.put_auth_code
    Store.consume_auth_code Store.put_access_token Store.rotate_refresh Store.append_log
    Store.put_island Store.disable_island Store.put_island_principal_link Store.put_federation_txn
    Store.consume_federation_txn
perform-IsValid (put_principal p) s v =
    assumption (insert-IsKeyed (λ (x : Principal). x.id) p.id p s.principals refl v.principals)
perform-IsValid (put_org o) s v =
    assumption (insert-IsKeyed (λ (x : Org). x.id) o.id o s.orgs refl v.orgs)
perform-IsValid (put_membership m) s v = assumption (
    insert-IsKeyed (λ (x : Membership). (x.principal_id, x.org_id)) (m.principal_id, m.org_id) m
      s.memberships refl v.memberships)
perform-IsValid (add_grant g) s v =
    assumption (insert-IsKeyed (λ (x : Grant). x.id) g.id g s.grants refl v.grants)
perform-IsValid (revoke_grant grant_id at) s v = elim (Option-cases (lookup grant_id s.grants)) [
  | inl absent ↦ rw (absent, perform, Store.revoke_grant) v
  | inr (row, there) ↦
      rw (there, perform, Store.revoke_grant)
        (assumption (
          replace-IsKeyed (λ (x : Grant). x.id) grant_id row (record row { revoked_at = some at })
            s.grants v.grants there refl))
]
perform-IsValid (put_mcp_token t) s v =
    assumption (insert-IsKeyed (λ (x : McpToken). x.hash) t.hash t s.mcp refl v.mcp)
perform-IsValid (put_oauth_client c) s v =
    assumption (insert-IsKeyed (λ (x : OauthClient). x.id) c.id c s.clients refl v.clients)
perform-IsValid (put_auth_code c) s v =
    assumption (insert-IsKeyed (λ (x : OauthAuthCode). x.hash) c.hash c s.codes refl v.codes)
perform-IsValid (consume_auth_code code_hash at) s v =
    elim (Option-cases (lookup code_hash s.codes)) [
      | inl absent ↦ rw (absent, perform, Store.consume_auth_code) v
      | inr (row, there) ↦ elim (Bool-cases (is_some row.consumed_at)) [
        | inl used ↦ rw (there, perform, Store.consume_auth_code, used) v
        | inr fresh ↦
            rw (there, perform, Store.consume_auth_code, fresh)
              (assumption (
                replace-IsKeyed (λ (x : OauthAuthCode). x.hash) code_hash row
                  (record row { consumed_at = some at }) s.codes v.codes there refl))
      ]
    ]
perform-IsValid (put_access_token t) s v =
    assumption (insert-IsKeyed (λ (x : OauthAccessToken). x.hash) t.hash t s.at refl v.at)
perform-IsValid (rotate_refresh old_hash t) s v = assumption (
    insert-IsKeyed (λ (x : OauthAccessToken). x.hash) t.hash t (erase old_hash s.at) refl
      (erase-IsKeyed (λ (x : OauthAccessToken). x.hash) old_hash s.at v.at))
perform-IsValid (append_log entry) s v = assumption
perform-IsValid (put_island i) s v =
    assumption (insert-IsKeyed (λ (x : IslandRegistry). x.id) i.id i s.islands refl v.islands)
perform-IsValid (disable_island island_id at) s v =
    elim (Option-cases (lookup island_id s.islands)) [
      | inl absent ↦ rw (absent, perform, Store.disable_island) v
      | inr (row, there) ↦
          rw (there, perform, Store.disable_island)
            (assumption (
              replace-IsKeyed (λ (x : IslandRegistry). x.id) island_id row
                (record row { disabled_at = some at }) s.islands v.islands there refl))
    ]
perform-IsValid (put_island_principal_link link) s v = assumption (
    insert-IsKeyed (λ (x : IslandPrincipalLink). (x.island_id, x.island_user_id))
      (link.island_id, link.island_user_id) link s.island_links refl v.island_links)
perform-IsValid (put_federation_txn t) s v =
    assumption (insert-IsKeyed (λ (x : FederationTxn). x.hash) t.hash t s.ftxn refl v.ftxn)
perform-IsValid (consume_federation_txn txn_hash at) s v =
    elim (Option-cases (lookup txn_hash s.ftxn)) [
      | inl absent ↦ rw (absent, perform, Store.consume_federation_txn) v
      | inr (row, there) ↦ elim (Bool-cases (is_some row.consumed_at)) [
        | inl used ↦ rw (there, perform, Store.consume_federation_txn, used) v
        | inr fresh ↦
            rw (there, perform, Store.consume_federation_txn, fresh)
              (assumption (
                replace-IsKeyed (λ (x : FederationTxn). x.hash) txn_hash row
                  (record row { consumed_at = some at }) s.ftxn v.ftxn there refl))
      ]
    ]

pub IsValid-empty : IsValid Store.empty
IsValid-empty = assumption tt

perform_all-IsValid_from :
    (calls : List Call) (s : IdentityStore) → IsValid s → IsValid (perform_all calls s)
unfolding perform_all
perform_all-IsValid_from [] s v = v
perform_all-IsValid_from (c ∷ calls) s v =
    perform_all-IsValid_from calls (perform c s) (perform-IsValid c s v)

-- After any sequence of calls on a new store, on every branch of each, every table holds each of
-- its rows under the row's own key, and no key twice.
pub perform_all-IsValid : (calls : List Call) → IsValid (perform_all calls Store.empty)
perform_all-IsValid calls = perform_all-IsValid_from calls Store.empty IsValid-empty
