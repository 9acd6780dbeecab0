-- ===== src/Identity/Server/Refines/Tables.antt =====
-- What it is for the tables to hold what the memory holds, and the rows that keep their value.
use mathlib.Core.List.{Perm}
use mathlib.Core.List.Perm
use mathlib.Core.Option
use islands_kernel.Base.{
  ◌≡◌, refl, Option, none, some, inl, inr, string_eq, pair_eq, Bool-cases, [],
}
use islands_kernel.Base.Sql.{Engine, IsLawful, Json, IsFaithful}
use islands_kernel.Base.Sql.Held.{Holds, Holds-create}
use islands_kernel.Identity.Model.{
  Principal, Org, Membership, Grant, McpToken, OauthClient, OauthAuthCode, OauthAccessToken,
  AccessLog, IslandRegistry, IslandPrincipalLink, FederationTxn,
}
use islands_kernel.Identity.Store
use islands_kernel.Identity.Store.{IdentityStore}
use islands_kernel.Identity.Server
use islands_kernel.Identity.Server.{ServerIdentityStore}
use islands_kernel.Identity.Server.Rows.{
  membership_row, membership_of, grant_row, grant_of, client_row, client_of, access_token_row,
  access_token_of,
}

module _ (db : Engine) (law : IsLawful db) (json : Json) (faithful : IsFaithful json) where
  -- Table by table, the server holds what the memory holds; the log up to its order.
  pub record Implements (s : ServerIdentityStore db json) (m : IdentityStore) : Type 0 where
    pub principals : Holds db law (λ (x : Principal). x) s.principals m.principals
    pub orgs : Holds db law (λ (x : Org). x) s.orgs m.orgs
    pub memberships : Holds db law (membership_of json) s.memberships m.memberships
    pub grants : Holds db law (grant_of json) s.grants m.grants
    pub mcp : Holds db law (λ (x : McpToken). x) s.mcp_tokens m.mcp
    pub clients : Holds db law (client_of json) s.oauth_clients m.clients
    pub codes : Holds db law (λ (x : OauthAuthCode). x) s.auth_codes m.codes
    pub at : Holds db law (access_token_of json) s.access_tokens m.at
    pub logs : Perm (db.all_rows s.logs) m.logs
    pub islands : Holds db law (λ (x : IslandRegistry). x) s.islands m.islands
    pub island_links :
        Holds db law (λ (x : IslandPrincipalLink). x) s.island_principal_links m.island_links
    pub ftxn : Holds db law (λ (x : FederationTxn). x) s.federation_txns m.ftxn

  pub membership_of-row : (m : Membership) → membership_of json (membership_row json m) ≡ m
  unfolding membership_of membership_row
  membership_of-row m = elim (Bool-cases m.active) [
    | inl on ↦ cc (faithful.loads-dumps m.roles, on)
    | inr off ↦ cc (faithful.loads-dumps m.roles, off)
  ]

  loaded :
      {A : Type 0} (o : Option A)
      → Option.map (λ t. json.loads t) (Option.map (λ (a : A). json.dumps a) o) ≡ o
  loaded none = refl
  loaded (some a) = cc (faithful.loads-dumps a)

  pub grant_of-row : (g : Grant) → grant_of json (grant_row json g) ≡ g
  unfolding grant_of grant_row
  grant_of-row g = cc (loaded g.scopes_subset)

  pub client_of-row : (c : OauthClient) → client_of json (client_row json c) ≡ c
  unfolding client_of client_row
  client_of-row c = cc (faithful.loads-dumps c.redirect_uris)

  pub access_token_of-row :
      (t : OauthAccessToken) → access_token_of json (access_token_row json t) ≡ t
  unfolding access_token_of access_token_row
  access_token_of-row t = cc (loaded t.refresh)

  pub create_store-Implements : Implements (Server.create_store db json) Store.empty
  unfolding Server.create_store
  create_store-Implements = record {
    principals = Holds-create db law (λ (x : Principal). x);
    orgs = Holds-create db law (λ (x : Org). x);
    memberships = Holds-create db law (membership_of json);
    grants = Holds-create db law (grant_of json);
    mcp = Holds-create db law (λ (x : McpToken). x);
    clients = Holds-create db law (client_of json);
    codes = Holds-create db law (λ (x : OauthAuthCode). x);
    at = Holds-create db law (access_token_of json);
    logs = rw (law.all-create {R = AccessLog}) (Perm.refl []);
    islands = Holds-create db law (λ (x : IslandRegistry). x);
    island_links = Holds-create db law (λ (x : IslandPrincipalLink). x);
    ftxn = Holds-create db law (λ (x : FederationTxn). x);
  }
