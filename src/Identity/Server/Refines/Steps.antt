-- ===== src/Identity/Server/Refines/Steps.antt =====
-- identity/store/server.py: each method that writes, on both stores.
use mathlib.Core.List.{perm_append_singleton}
use mathlib.Core.List.Perm
use islands_kernel.Base.{◌≡◌, refl, true, string_eq, pair_eq}
use islands_kernel.Base.Dict.{erase}
use islands_kernel.Base.Sql.{Engine, IsLawful, Json, IsFaithful}
use islands_kernel.Base.Sql.Held.{Holds-replace, Holds-delete}
use islands_kernel.Identity.Model.{
  Principal, Org, McpToken, OauthAuthCode, AccessLog, IslandRegistry, IslandPrincipalLink,
  FederationTxn,
}
use islands_kernel.Identity.Store
use islands_kernel.Identity.Store.{IdentityStore}
use islands_kernel.Identity.Store.Invariant.{
  Call, put_principal, put_org, put_membership, add_grant, revoke_grant, put_mcp_token,
  put_oauth_client, put_auth_code, consume_auth_code, put_access_token, rotate_refresh, append_log,
  put_island, disable_island, put_island_principal_link, put_federation_txn, consume_federation_txn,
  perform,
}
use islands_kernel.Identity.Server
use islands_kernel.Identity.Server.Calls.{answer, on_server}
use islands_kernel.Identity.Server.{ServerIdentityStore}
use islands_kernel.Identity.Server.Rows.{
  membership_row, membership_of, grant_row, grant_of, client_row, client_of, AccessTokenRow,
  access_token_row, access_token_of,
}
use islands_kernel.Identity.Server.Refines.Tables.{
  Implements, membership_of-row, grant_of-row, client_of-row, access_token_of-row,
}
use islands_kernel.Identity.Server.Refines.Marks.{
  revoke_grant-Implements, disable_island-Implements, consume_auth_code-Simulates,
  consume_federation_txn-Simulates,
}

module _ (db : Engine) (law : IsLawful db) (json : Json) (faithful : IsFaithful json) where
  -- What a call answers and leaves behind is what it does in memory.
  abbrev pub Simulates : Call → ServerIdentityStore db json → IdentityStore → Type 0
  Simulates c s m =
      ((on_server db json c s).0 ≡ answer c m)
      × Implements db law json faithful (on_server db json c s).1 (perform c m)

  module _ (s : ServerIdentityStore db json) (m : IdentityStore)
      (h : Implements db law json faithful s m) where
    append_log-Implements :
        (entry : AccessLog)
        → Implements db law json faithful
            (Server.append_log db json entry s)
            (Store.append_log entry m)
    unfolding Server.append_log Store.append_log
    append_log-Implements entry = assumption (
        Perm.trans (law.all-insert entry s.logs)
          (Perm.trans (Perm.cons entry h.logs) (Perm.symm (perm_append_singleton entry m.logs))))

    pub perform-Simulates : (c : Call) → Simulates c s m
    unfolding answer perform on_server Store.put_principal Server.put_principal Store.put_org
        Server.put_org Store.put_membership Server.put_membership Store.add_grant Server.add_grant
        Store.put_mcp_token Server.put_mcp_token Store.revoke_grant Server.revoke_grant
        Store.put_oauth_client Server.put_oauth_client Store.put_auth_code Server.put_auth_code
        Store.put_access_token Server.put_access_token Store.rotate_refresh Server.rotate_refresh
        Store.append_log Server.append_log Store.put_island Server.put_island Store.disable_island
        Server.disable_island Store.put_island_principal_link Server.put_island_principal_link
        Store.put_federation_txn Server.put_federation_txn
    perform-Simulates (put_principal p) = (
      refl,
      assumption (
          Holds-replace db law (λ (x : Principal). x) p.id p p s.principals m.principals refl
            h.principals),
    )
    perform-Simulates (put_org o) = (
      refl,
      assumption (Holds-replace db law (λ (x : Org). x) o.id o o s.orgs m.orgs refl h.orgs),
    )
    perform-Simulates (put_membership a) = (
      refl,
      assumption (
          Holds-replace db law (membership_of json) (a.principal_id, a.org_id)
            (membership_row json a) a s.memberships m.memberships
            (membership_of-row db law json faithful a) h.memberships),
    )
    perform-Simulates (add_grant g) = (
      refl,
      assumption (
          Holds-replace db law (grant_of json) g.id (grant_row json g) g s.grants m.grants
            (grant_of-row db law json faithful g) h.grants),
    )
    perform-Simulates (revoke_grant grant_id at) =
        (refl, revoke_grant-Implements db law json faithful s m h grant_id at)
    perform-Simulates (put_mcp_token t) = (
      refl,
      assumption
          (Holds-replace db law (λ (x : McpToken). x) t.hash t t s.mcp_tokens m.mcp refl h.mcp),
    )
    perform-Simulates (put_oauth_client c) = (
      refl,
      assumption (
          Holds-replace db law (client_of json) c.id (client_row json c) c s.oauth_clients m.clients
            (client_of-row db law json faithful c) h.clients),
    )
    perform-Simulates (put_auth_code c) = (
      refl,
      assumption (
          Holds-replace db law (λ (x : OauthAuthCode). x) c.hash c c s.auth_codes m.codes refl
            h.codes),
    )
    perform-Simulates (consume_auth_code code_hash at) =
        consume_auth_code-Simulates db law json faithful s m h code_hash at
    perform-Simulates (put_access_token t) = (
      refl,
      assumption (
          Holds-replace db law (access_token_of json) t.hash (access_token_row json t) t
            s.access_tokens m.at (access_token_of-row db law json faithful t) h.at),
    )
    perform-Simulates (rotate_refresh old_hash t) = (
      refl,
      assumption (
          Holds-replace db law (access_token_of json) t.hash (access_token_row json t) t
            (db.delete old_hash (λ (row : AccessTokenRow json). true) s.access_tokens)
            (erase old_hash m.at) (access_token_of-row db law json faithful t)
            (Holds-delete db law (access_token_of json) old_hash s.access_tokens m.at h.at)),
    )
    perform-Simulates (append_log entry) = (refl, append_log-Implements entry)
    perform-Simulates (put_island i) = (
      refl,
      assumption (
          Holds-replace db law (λ (x : IslandRegistry). x) i.id i i s.islands m.islands refl
            h.islands),
    )
    perform-Simulates (disable_island island_id at) =
        (refl, disable_island-Implements db law json faithful s m h island_id at)
    perform-Simulates (put_island_principal_link link) = (
      refl,
      assumption (
          Holds-replace db law (λ (x : IslandPrincipalLink). x)
            (link.island_id, link.island_user_id) link link s.island_principal_links m.island_links
            refl h.island_links),
    )
    perform-Simulates (put_federation_txn t) = (
      refl,
      assumption (
          Holds-replace db law (λ (x : FederationTxn). x) t.hash t t s.federation_txns m.ftxn refl
            h.ftxn),
    )
    perform-Simulates (consume_federation_txn txn_hash at) =
        consume_federation_txn-Simulates db law json faithful s m h txn_hash at
