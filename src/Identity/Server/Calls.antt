-- ===== src/Identity/Server/Calls.antt =====
-- Sequences of the calls that write, on both stores.
use islands_kernel.Base.{Bool, true, List, [], ◌∷◌}
use islands_kernel.Base.Sql.{Engine, Json}
use islands_kernel.Identity.Store
use islands_kernel.Identity.Store.{IdentityStore}
use islands_kernel.Identity.Store.Invariant.{
  Call, put_principal, put_org, put_membership, add_grant, revoke_grant, put_mcp_token,
  put_oauth_client, put_auth_code, consume_auth_code, put_access_token, rotate_refresh, append_log,
  put_island, disable_island, put_island_principal_link, put_federation_txn, consume_federation_txn,
  perform,
}
use islands_kernel.Identity.Server
use islands_kernel.Identity.Server.{ServerIdentityStore}

-- What a call answers. All but two answer nothing, for which `true` stands.
unfoldable pub answer : Call → IdentityStore → Bool
answer (consume_auth_code code_hash at) s = (Store.consume_auth_code code_hash at s).0
answer (consume_federation_txn txn_hash at) s = (Store.consume_federation_txn txn_hash at s).0
answer _ s = true

unfoldable pub run_memory : List Call → IdentityStore → List Bool × IdentityStore
run_memory [] m = ([], m)
run_memory (c ∷ calls) m =
    let (answers, last) = run_memory calls (perform c m) in (answer c m ∷ answers, last)

module _ (db : Engine) (json : Json) where
  unfoldable pub on_server : Call → ServerIdentityStore db json → Bool × ServerIdentityStore db json
  on_server (put_principal p) s = (true, Server.put_principal db json p s)
  on_server (put_org o) s = (true, Server.put_org db json o s)
  on_server (put_membership m) s = (true, Server.put_membership db json m s)
  on_server (add_grant g) s = (true, Server.add_grant db json g s)
  on_server (revoke_grant grant_id at) s = (true, Server.revoke_grant db json grant_id at s)
  on_server (put_mcp_token t) s = (true, Server.put_mcp_token db json t s)
  on_server (put_oauth_client c) s = (true, Server.put_oauth_client db json c s)
  on_server (put_auth_code c) s = (true, Server.put_auth_code db json c s)
  on_server (consume_auth_code code_hash at) s = Server.consume_auth_code db json code_hash at s
  on_server (put_access_token t) s = (true, Server.put_access_token db json t s)
  on_server (rotate_refresh old_hash t) s = (true, Server.rotate_refresh db json old_hash t s)
  on_server (append_log entry) s = (true, Server.append_log db json entry s)
  on_server (put_island i) s = (true, Server.put_island db json i s)
  on_server (disable_island island_id at) s = (true, Server.disable_island db json island_id at s)
  on_server (put_island_principal_link link) s =
      (true, Server.put_island_principal_link db json link s)
  on_server (put_federation_txn t) s = (true, Server.put_federation_txn db json t s)
  on_server (consume_federation_txn txn_hash at) s =
      Server.consume_federation_txn db json txn_hash at s

  unfoldable pub run_server :
      List Call → ServerIdentityStore db json → List Bool × ServerIdentityStore db json
  run_server [] s = ([], s)
  run_server (c ∷ calls) s =
      let (answered, next) = on_server c s in
      let (answers, last) = run_server calls next in (answered ∷ answers, last)
