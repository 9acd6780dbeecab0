-- ===== src/Identity/Server.antt =====
-- identity/store/server.py: `ServerIdentityStore`, the store on SQLite. The lock makes each method
-- that writes one step. Where the columns of a table are the fields of a class, that class is the
-- table's row.
pub mod Rows
pub mod Calls
pub mod Refines
use mathlib.Core.Option
use islands_kernel.Base.{
  ℕ, String, Bool, true, false, Option, none, some, List, ◌==◌, string_eq, option_eq, pair_eq, map,
  if◌then◌else◌, is_some,
}
use islands_kernel.Base.Dict.{filter, find}
use islands_kernel.Base.Sql.{Engine, Json}
use islands_kernel.Identity.Model.{
  Principal, Org, Membership, Grant, McpToken, OauthClient, OauthAuthCode, OauthAccessToken,
  AccessLog, IslandRegistry, IslandPrincipalLink, FederationTxn,
}
use islands_kernel.Identity.Server.Rows.{
  MembershipRow, membership_row, membership_of, GrantRow, grant_row, grant_of, ClientRow,
  client_row, client_of, AccessTokenRow, access_token_row, access_token_of,
}

-- `column = ?`, which does not hold of NULL on either side.
unfoldable pub sql_equal : Option String → Option String → Bool
sql_equal none _ = false
sql_equal (some a) none = false
sql_equal (some a) (some b) = a == b

module _ (db : Engine) (json : Json) where
  -- The tables of `_SCHEMA`.
  pub record ServerIdentityStore : Type 0 where
    pub principals : db.Table String Principal
    pub orgs : db.Table String Org
    pub memberships : db.Table (String × String) (MembershipRow json)
    pub grants : db.Table String (GrantRow json)
    pub mcp_tokens : db.Table String McpToken
    pub oauth_clients : db.Table String (ClientRow json)
    pub auth_codes : db.Table String OauthAuthCode
    pub access_tokens : db.Table String (AccessTokenRow json)
    pub logs : db.Heap AccessLog
    pub islands : db.Table String IslandRegistry
    pub island_principal_links : db.Table (String × String) IslandPrincipalLink
    pub federation_txns : db.Table String FederationTxn

  unfoldable pub create_store : ServerIdentityStore
  create_store = record {
    principals = db.create;
    orgs = db.create;
    memberships = db.create;
    grants = db.create;
    mcp_tokens = db.create;
    oauth_clients = db.create;
    auth_codes = db.create;
    access_tokens = db.create;
    logs = db.create_heap;
    islands = db.create;
    island_principal_links = db.create;
    federation_txns = db.create;
  }

  unfoldable pub put_principal : Principal → ServerIdentityStore → ServerIdentityStore
  put_principal p s = record s { principals = db.insert_or_replace p.id p s.principals }

  unfoldable pub get_principal : String → ServerIdentityStore → Option Principal
  get_principal principal_id s = db.find principal_id s.principals

  -- `fetchone` of rows in whatever order
  unfoldable pub get_principal_by_email : Option String → ServerIdentityStore → Option Principal
  get_principal_by_email email s =
      find (λ (p : Principal). sql_equal p.email email) (db.rows s.principals)

  unfoldable pub put_org : Org → ServerIdentityStore → ServerIdentityStore
  put_org o s = record s { orgs = db.insert_or_replace o.id o s.orgs }

  unfoldable pub get_org : String → ServerIdentityStore → Option Org
  get_org org_id s = db.find org_id s.orgs

  unfoldable pub put_membership : Membership → ServerIdentityStore → ServerIdentityStore
  put_membership m s = record s {
    memberships =
        db.insert_or_replace (m.principal_id, m.org_id) (membership_row json m) s.memberships;
  }

  unfoldable pub get_membership : String → String → ServerIdentityStore → Option Membership
  get_membership principal_id org_id s =
      Option.map (membership_of json) (db.find (principal_id, org_id) s.memberships)

  unfoldable pub list_memberships : String → ServerIdentityStore → List Membership
  list_memberships principal_id s = map (membership_of json) (
      filter (λ (row : MembershipRow json). row.principal_id == principal_id)
        (db.rows s.memberships))

  unfoldable pub add_grant : Grant → ServerIdentityStore → ServerIdentityStore
  add_grant g s = record s { grants = db.insert_or_replace g.id (grant_row json g) s.grants }

  unfoldable pub revoke_grant : String → ℕ → ServerIdentityStore → ServerIdentityStore
  revoke_grant grant_id at s =
      let (updated, t) =
        db.update grant_id (λ (row : GrantRow json). true)
          (λ (row : GrantRow json). record row { revoked_at = some at }) s.grants in
      record s { grants = t }

  unfoldable pub list_grants : String → ServerIdentityStore → List Grant
  list_grants principal_id s =
      map (grant_of json)
        (filter (λ (row : GrantRow json). row.principal_id == principal_id) (db.rows s.grants))

  unfoldable pub put_mcp_token : McpToken → ServerIdentityStore → ServerIdentityStore
  put_mcp_token t s = record s { mcp_tokens = db.insert_or_replace t.hash t s.mcp_tokens }

  unfoldable pub get_mcp_token : String → ServerIdentityStore → Option McpToken
  get_mcp_token token_hash s = db.find token_hash s.mcp_tokens

  unfoldable pub put_oauth_client : OauthClient → ServerIdentityStore → ServerIdentityStore
  put_oauth_client c s = record s {
    oauth_clients = db.insert_or_replace c.id (client_row json c) s.oauth_clients;
  }

  unfoldable pub get_oauth_client : String → ServerIdentityStore → Option OauthClient
  get_oauth_client client_id s = Option.map (client_of json) (db.find client_id s.oauth_clients)

  unfoldable pub put_auth_code : OauthAuthCode → ServerIdentityStore → ServerIdentityStore
  put_auth_code c s = record s { auth_codes = db.insert_or_replace c.hash c s.auth_codes }

  unfoldable pub get_auth_code : String → ServerIdentityStore → Option OauthAuthCode
  get_auth_code code_hash s = db.find code_hash s.auth_codes

  -- A SELECT, and an UPDATE where it found a code that is not consumed.
  unfoldable pub consume_auth_code : String → ℕ → ServerIdentityStore → Bool × ServerIdentityStore
  consume_auth_code code_hash at s = elim (db.find code_hash s.auth_codes) [
    | none ↦ (false, s)
    | some c ↦ if is_some c.consumed_at then (false, s) else (
      true,
      record s {
        auth_codes =
            (db.update code_hash (λ (row : OauthAuthCode). true)
              (λ (row : OauthAuthCode). record row { consumed_at = some at }) s.auth_codes).1;
      },
    )
  ]

  unfoldable pub put_access_token : OauthAccessToken → ServerIdentityStore → ServerIdentityStore
  put_access_token t s = record s {
    access_tokens = db.insert_or_replace t.hash (access_token_row json t) s.access_tokens;
  }

  unfoldable pub get_access_token : String → ServerIdentityStore → Option OauthAccessToken
  get_access_token token_hash s =
      Option.map (access_token_of json) (db.find token_hash s.access_tokens)

  unfoldable pub rotate_refresh :
      String → OauthAccessToken → ServerIdentityStore → ServerIdentityStore
  rotate_refresh old_hash new_token s =
      let t = db.delete old_hash (λ (row : AccessTokenRow json). true) s.access_tokens in
      record s {
        access_tokens = db.insert_or_replace new_token.hash (access_token_row json new_token) t;
      }

  unfoldable pub access_token_hashes : ServerIdentityStore → List String
  access_token_hashes s = map (λ (row : AccessTokenRow json). row.hash) (db.rows s.access_tokens)

  unfoldable pub append_log : AccessLog → ServerIdentityStore → ServerIdentityStore
  append_log entry s = record s { logs = db.insert entry s.logs }

  unfoldable pub read_log : String → ServerIdentityStore → List AccessLog
  read_log principal_id s =
      filter (λ (e : AccessLog). e.principal_id == principal_id) (db.all_rows s.logs)

  unfoldable pub put_island : IslandRegistry → ServerIdentityStore → ServerIdentityStore
  put_island i s = record s { islands = db.insert_or_replace i.id i s.islands }

  unfoldable pub get_island : String → ServerIdentityStore → Option IslandRegistry
  get_island island_id s = db.find island_id s.islands

  unfoldable pub get_island_by_audience : String → ServerIdentityStore → Option IslandRegistry
  get_island_by_audience audience s =
      find (λ (i : IslandRegistry). i.audience == audience) (db.rows s.islands)

  unfoldable pub list_islands : ServerIdentityStore → List IslandRegistry
  list_islands s = db.rows s.islands

  unfoldable pub disable_island : String → ℕ → ServerIdentityStore → ServerIdentityStore
  disable_island island_id at s =
      let (updated, t) =
        db.update island_id (λ (row : IslandRegistry). true)
          (λ (row : IslandRegistry). record row { disabled_at = some at }) s.islands in
      record s { islands = t }

  unfoldable pub put_island_principal_link :
      IslandPrincipalLink → ServerIdentityStore → ServerIdentityStore
  put_island_principal_link link s = record s {
    island_principal_links =
        db.insert_or_replace (link.island_id, link.island_user_id) link s.island_principal_links;
  }

  unfoldable pub get_principal_by_island : String → String → ServerIdentityStore → Option String
  get_principal_by_island island_id island_user_id s =
      Option.map (λ (l : IslandPrincipalLink). l.principal_id)
        (db.find (island_id, island_user_id) s.island_principal_links)

  unfoldable pub get_island_link_by_principal :
      String → ServerIdentityStore → Option IslandPrincipalLink
  get_island_link_by_principal principal_id s =
      find (λ (l : IslandPrincipalLink). l.principal_id == principal_id)
        (db.rows s.island_principal_links)

  unfoldable pub put_federation_txn : FederationTxn → ServerIdentityStore → ServerIdentityStore
  put_federation_txn t s = record s {
    federation_txns = db.insert_or_replace t.hash t s.federation_txns;
  }

  unfoldable pub get_federation_txn : String → ServerIdentityStore → Option FederationTxn
  get_federation_txn txn_hash s = db.find txn_hash s.federation_txns

  -- A SELECT, and an UPDATE where it found a transaction that is not consumed.
  unfoldable pub consume_federation_txn :
      String → ℕ → ServerIdentityStore → Bool × ServerIdentityStore
  consume_federation_txn txn_hash at s = elim (db.find txn_hash s.federation_txns) [
    | none ↦ (false, s)
    | some t ↦ if is_some t.consumed_at then (false, s) else (
      true,
      record s {
        federation_txns =
            (db.update txn_hash (λ (row : FederationTxn). true)
              (λ (row : FederationTxn). record row { consumed_at = some at }) s.federation_txns).1;
      },
    )
  ]
