-- ===== src/Vault/Server.antt =====
-- vault/store/server.py: `ServerStore`, the store on SQLite. The lock makes each method one step.
pub mod Calls
pub mod Sealing
pub mod Refines
use mathlib.Core.Option
use islands_kernel.Base.{
  ℕ, String, Bool, true, false, ◌&&◌, Option, none, some, List, ◌==◌, string_eq, pair_eq, map,
  if◌then◌else◌, is_some, leb, ltb,
}
use islands_kernel.Base.Dict.{filter}
use islands_kernel.Base.Sql.{Engine, Json}
use islands_kernel.Identity.Model.{Access}
use islands_kernel.Vault.Model.{
  ConnKey, as_str, Token, Rotation, Connection, key_of, ConnectionGrant, ConnectionAccessLog,
}
use islands_kernel.Vault.Crypto.{Bytes, Draws}

-- `seal_token` and `open_token` with the store's wrapper: `none` where they raise.
pub record Sealer : Type 0 where
  pub seal : Token → Draws → Option Bytes
  pub unseal : Bytes → Option Token

-- (org, provider, account)
abbrev pub Columns : Type 0
Columns = String × (String × String)

abbrev pub columns : ConnKey → Columns
columns key = (key.org, (key.provider, key.account))

module _ (json : Json) where
  -- A row of the table `connections`.
  pub record ConnectionRow : Type 0 where
    pub id : String
    pub org : String
    pub provider : String
    pub account : String
    pub scopes_json : json.Text (List String)
    pub app_cred_ref : String
    pub rotation : Rotation
    pub created_by : String
    pub created_at : ℕ
    pub updated_at : ℕ
    pub token_blob : Option Bytes

  unfoldable pub connection_row : Connection → Option Bytes → ConnectionRow
  connection_row conn blob = record {
    id = conn.id;
    org = conn.org;
    provider = conn.provider;
    account = conn.account;
    scopes_json = json.dumps conn.scopes;
    app_cred_ref = conn.app_cred_ref;
    rotation = conn.rotation;
    created_by = conn.created_by;
    created_at = conn.created_at;
    updated_at = conn.updated_at;
    token_blob = blob;
  }

  -- `Connection.from_record(rec, token=token)`
  unfoldable pub connection_of : ConnectionRow → Option Token → Connection
  connection_of row token = record {
    id = row.id;
    org = row.org;
    provider = row.provider;
    account = row.account;
    scopes = json.loads row.scopes_json;
    app_cred_ref = row.app_cred_ref;
    token = token;
    rotation = row.rotation;
    created_by = row.created_by;
    created_at = row.created_at;
    updated_at = row.updated_at;
  }

  -- A row of the table `grants`.
  pub record GrantRow : Type 0 where
    pub connection_id : String
    pub principal_id : String
    pub access : Access
    pub scopes_subset_json : json.Text (Option (List String))
    pub granted_by : String
    pub granted_at : ℕ

  unfoldable pub grant_row : ConnectionGrant → GrantRow
  grant_row grant = record {
    connection_id = grant.connection_id;
    principal_id = grant.principal_id;
    access = grant.access;
    scopes_subset_json = json.dumps grant.scopes_subset;
    granted_by = grant.granted_by;
    granted_at = grant.granted_at;
  }

  unfoldable pub grant_of : GrantRow → ConnectionGrant
  grant_of row = record {
    connection_id = row.connection_id;
    principal_id = row.principal_id;
    access = row.access;
    scopes_subset = json.loads row.scopes_subset_json;
    granted_by = row.granted_by;
    granted_at = row.granted_at;
  }

-- A row of the table `leases`.
pub record LeaseRow : Type 0 where
  pub conn_key : String
  pub holder : String
  pub until : ℕ

module _ (db : Engine) (json : Json) (sealer : Sealer) where
  -- The tables of `_SCHEMA`. The columns of `logs` are the fields of `ConnectionAccessLog`; the key
  -- of `connections` is its UNIQUE constraint.
  pub record ServerStore : Type 0 where
    pub connections : db.Table Columns (ConnectionRow json)
    pub leases : db.Table String LeaseRow
    pub grants : db.Heap (GrantRow json)
    pub logs : db.Heap ConnectionAccessLog

  unfoldable pub create_store : ServerStore
  create_store = record {
    connections = db.create;
    leases = db.create;
    grants = db.create_heap;
    logs = db.create_heap;
  }

  -- `seal_token(conn.token, self._wrapper) if conn.token else None`; the inner `none` is NULL.
  unfoldable pub blob_of : Option Token → Draws → Option (Option Bytes)
  blob_of none drawn = some none
  blob_of (some token) drawn = Option.map some (sealer.seal token drawn)

  -- `none` where sealing raises, before anything is written.
  unfoldable pub put_connection : Connection → Draws → ServerStore → Option ServerStore
  put_connection conn drawn s = elim (blob_of conn.token drawn) [
    | none ↦ none
    | some blob ↦ some (record s {
      connections =
          db.insert_or_replace (columns (key_of conn)) (connection_row json conn blob)
            s.connections;
    })
  ]

  -- The row with its token opened; the outer `none` is what `open_token` raises.
  unfoldable pub opened : ConnectionRow json → Option Connection
  opened row = elim row.token_blob [
    | none ↦ some (connection_of json row none)
    | some blob ↦ elim (sealer.unseal blob) [
      | none ↦ none
      | some token ↦ some (connection_of json row (some token))
    ]
  ]

  -- The outer `none` is what `open_token` raises.
  unfoldable pub get_connection : ConnKey → ServerStore → Option (Option Connection)
  get_connection key s = elim (db.find (columns key) s.connections) [
    | none ↦ some none
    | some row ↦ Option.map some (opened row)
  ]

  -- `WHERE org=?`, and ` AND provider=?` where there is one.
  unfoldable pub is_selected : String → Option String → ConnectionRow json → Bool
  is_selected org none row = row.org == org
  is_selected org (some provider) row = row.org == org && row.provider == provider

  -- Each entry is what its own call of `get_connection` gives.
  unfoldable pub list_connections :
      String → Option String → ServerStore → List (Option (Option Connection))
  list_connections org provider s =
      map
        (λ (row : ConnectionRow json).
          get_connection (record { org = row.org; provider = row.provider; account = row.account })
            s)
        (filter (is_selected org provider) (db.rows s.connections))

  -- `none` where sealing raises. The UPDATE of a missing row changes nothing.
  unfoldable pub write_token : ConnKey → Token → ℕ → Draws → ServerStore → Option ServerStore
  write_token key token now drawn s = elim (sealer.seal token drawn) [
    | none ↦ none
    | some blob ↦ some (record s {
      connections =
          (db.update (columns key) (λ (row : ConnectionRow json). true)
            (λ (row : ConnectionRow json). record row { token_blob = some blob; updated_at = now })
            s.connections).1;
    })
  ]

  -- The UPDATE runs only where the INSERT was ignored.
  unfoldable pub acquire_lease : ConnKey → String → ℕ → ℕ → ServerStore → Bool × ServerStore
  acquire_lease key holder until now s =
      let ck = as_str key in
      let row : LeaseRow = record { conn_key = ck; holder = holder; until = until } in
      let (inserted, t) = db.insert_or_ignore ck row s.leases in
      let (updated, u) =
        db.update ck (λ (old : LeaseRow). leb old.until now)
          (λ (old : LeaseRow). record old { holder = holder; until = until }) t in
      if inserted then (true, record s { leases = t }) else (updated, record s { leases = u })

  unfoldable pub release_lease : ConnKey → String → ServerStore → ServerStore
  release_lease key holder s = record s {
    leases = db.delete (as_str key) (λ (row : LeaseRow). row.holder == holder) s.leases;
  }

  unfoldable pub lease_held : ConnKey → ℕ → ServerStore → Bool
  lease_held key now s = elim (db.find (as_str key) s.leases) [
    | none ↦ false
    | some row ↦ ltb now row.until
  ]

  -- The token is set to NULL before its row goes.
  unfoldable pub delete_connection : ConnKey → ServerStore → ServerStore
  delete_connection key s =
      let (updated, blank) =
        db.update (columns key) (λ (row : ConnectionRow json). true)
          (λ (row : ConnectionRow json). record row { token_blob = none }) s.connections in
      record s {
        connections = db.delete (columns key) (λ (row : ConnectionRow json). true) blank;
        leases = db.delete (as_str key) (λ (row : LeaseRow). true) s.leases;
      }

  unfoldable pub add_grant : ConnectionGrant → ServerStore → ServerStore
  add_grant grant s = record s { grants = db.insert (grant_row json grant) s.grants }

  unfoldable pub get_grants : String → ServerStore → List ConnectionGrant
  get_grants connection_id s =
      map (grant_of json) (
        filter (λ (row : GrantRow json). row.connection_id == connection_id) (db.all_rows s.grants))

  unfoldable pub append_log : ConnectionAccessLog → ServerStore → ServerStore
  append_log entry s = record s { logs = db.insert entry s.logs }

  unfoldable pub read_log : String → ServerStore → List ConnectionAccessLog
  read_log connection_id s =
      filter (λ (e : ConnectionAccessLog). e.connection_id == connection_id) (db.all_rows s.logs)
