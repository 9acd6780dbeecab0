-- ===== src/Tests/Server.antt =====
-- The stores on SQLite, run on tables that are dicts.
use islands_kernel.Base.{◌≡◌, List, [], ◌∷◌}
use islands_kernel.Base.Sql.Dicts.{dicts, dicts-IsLawful, plain, plain-IsFaithful}
use islands_kernel.Bus.Ledger
use islands_kernel.Bus.Server
use islands_kernel.Bus.Server.Refines.Reads
use islands_kernel.Bus.Server.Refines.Runs.{
  LedgerCall, record_event, put_subscription, delete_subscription, put_delivery, acquire_lease,
  release_lease, run_memory, run_server, server_ledger_refines,
}
use islands_kernel.Identity.Store
use islands_kernel.Identity.Store.Invariant.{
  Call, put_principal, put_membership, add_grant, revoke_grant, put_auth_code, consume_auth_code,
  put_access_token, rotate_refresh,
}
use islands_kernel.Identity.Server as IdentityServer
use islands_kernel.Identity.Server.Calls as Calls
use islands_kernel.Identity.Server.Refines.Reads as IdentityReads
use islands_kernel.Identity.Server.Refines.Runs.{server_store_refines}
use islands_kernel.Tests.Bus.{event, sub, done_row}
use islands_kernel.Tests.Identity.{alice, alice_in_acme, acme_grant, code_row, token_row}

abbrev ledger_calls : List LedgerCall
ledger_calls =
    record_event event
    ∷ record_event event
    ∷ put_subscription sub
    ∷ put_delivery done_row
    ∷ acquire_lease "k" "w1" 30 0
    ∷ acquire_lease "k" "w2" 40 10
    ∷ acquire_lease "k" "w2" 90 30
    ∷ release_lease "k" "w1"
    ∷ delete_subscription "sub1"
    ∷ []

server_ledger_refines_example :
    let (answers, s) = run_server dicts plain ledger_calls (Server.create_ledger dicts plain) in
    let (answers', l) = run_memory ledger_calls Ledger.empty in
    (answers ≡ answers') × Reads.Agrees dicts dicts-IsLawful plain plain-IsFaithful s l
server_ledger_refines_example =
    server_ledger_refines dicts dicts-IsLawful plain plain-IsFaithful ledger_calls

abbrev store_calls : List Call
store_calls =
    put_principal alice
    ∷ put_membership alice_in_acme
    ∷ add_grant acme_grant
    ∷ revoke_grant "g1" 5
    ∷ put_auth_code code_row
    ∷ consume_auth_code "ac" 3
    ∷ consume_auth_code "ac" 4
    ∷ put_access_token token_row
    ∷ rotate_refresh "at" token_row
    ∷ []

server_store_refines_example :
    let (answers, s) =
      Calls.run_server dicts plain store_calls (IdentityServer.create_store dicts plain) in
    let (answers', m) = Calls.run_memory store_calls Store.empty in
    (answers ≡ answers') × IdentityReads.Agrees dicts dicts-IsLawful plain plain-IsFaithful s m
server_store_refines_example =
    server_store_refines dicts dicts-IsLawful plain plain-IsFaithful store_calls
