-- ===== src/Lib.antt =====
-- islands-kernel: the identity service, the event bus and the connector vault.
--
-- The program. The identity service keeps principals, orgs, memberships, grants and credentials,
-- and answers who may do what. The event bus records published events once, and delivers them to
-- subscriptions, at most one dispatcher at a time for each pair of event and subscription. The
-- vault keeps the OAuth connections of orgs to providers, hands out their access tokens to those
-- whom a grant allows, and refreshes a token under a lease that one writer holds. The bus and the
-- vault decide by `authorize` of the identity service. The vault asks it about connections, and
-- adds its own grants to the list; the bus asks it about event types.
--
-- The files, by directory, and the code that they model.
--   Base: Python's dict as an association list in insertion order (Base/Dict), its comparisons on
--     text and numbers (Base/Equality), raising functions (Base/Results) and raising methods that
--     also write (Base/Exec), splitting at a separator (Base/Split), and SQLite's tables (Base/Sql).
--   Identity: Model is identity/model.py; Store is `InMemoryIdentityStore` of
--     identity/store/memory.py, a record of tables with a function for each method, and
--     Store/Invariant is about sequences of its calls. Authorize is identity/authorize.py, Resolve
--     is identity/resolve.py, Exchange is identity/exchange.py. Oauth/Clients, Oauth/Codes and
--     Oauth/Tokens are clients.py, authorize_endpoint.py, and token_endpoint.py with pkce.py, of
--     identity/oauth/. Services is identity/service_principal.py, and Federation is
--     identity/federation/. Jwt is identity/jwt_issuer.py, identity/jwt_verify.py and
--     identity/keys.py. Server is `ServerIdentityStore` of identity/store/server.py, and App is the
--     routes of identity/app.py.
--   Bus: Value is JSON; Model is bus/model.py; TypeMatch is `type_matches` of bus/store/base.py;
--     Ledger is bus/store/memory.py; Envelope is bus/envelope.py and bus/schema_registry.py;
--     Dispatch and Delivery are bus/dispatch.py; Service is bus/service.py and bus/provisioning.py;
--     Server is bus/store/server.py.
--   Vault: Model is vault/model.py; Store is vault/store/memory.py; Grants is vault/grants.py and
--     vault/kernel_auth.py; Refresh is vault/refresh.py; State is vault/oauth_state.py; Access and
--     Connect are vault/access.py, with `app_cred_for` of vault/config.py. Crypto is vault/crypto.py,
--     Server is vault/store/server.py, LockFile is the lease of vault/store/local_file.py, Keys is
--     `_parse_id` of vault/app.py and App its routes that take a kernel JWT.
--   Capture (capture_bridge): the classifier, the principal map and the handler of a message that
--     a channel puts on the bus.
--   Tests: runs and theorems at concrete data.
-- A function has the name of the source's, without a leading underscore. A method that changes a
-- store takes the store and returns the new one; a method that raises returns a `Result`, and one
-- that may have written before it raised returns the store beside the error.
--
-- What is a parameter. The hashes (`hash_token`, `make_challenge`, `new_id`), the random tokens,
-- the clock, `fetch` of a client document, `jsonschema.validate`, `str.split`, PyJWT and its clock, the encoding of
-- a connect state, the exchange of a provider's code, `urlencode`, the two calls to an island that
-- signs a user in, the delivery of an event, the provider's refresh, what other writers do to the
-- vault's store while this one sleeps, and the processes that Capture runs. They are arguments, or
-- fields of the records `Env` of Bus/Dispatch and Vault/Refresh and `Outside` of Bus/Delivery and
-- Capture/Bridge. The world that they act on is an abstract type of the record.
--
-- SQLite. `Engine` of Base/Sql is an interface of tables with a primary key and tables without one,
-- and `IsLawful` states what SQLite documents of the statements that the stores run: what a SELECT
-- finds after each, and what `rowcount` is. Nothing is said of the order of rows. `Json` is Python's
-- `json` on the values of a column, and `IsFaithful` that it reads what it wrote. Base/Sql/Dicts
-- has an engine at which they hold. The three stores on SQLite are each written over that
-- interface; each `Refines` directory relates one, table by table, to the store in memory. The
-- cipher of NaCl, the `age` binary and the encoding of a token are parameters of Vault/Crypto, with
-- what they draw at random as arguments.
--
-- Numbers. A time or a duration in seconds, which the source keeps as a float, is a natural number
-- of milliseconds; the claims of a JWT and the
-- `expires_in` of a token response are in whole seconds, as in the source.
--
-- Fuel. The two nested loops of `refresh_if_needed` are one recursion on fuel over the phases
-- `trying` and `waiting`. Every sleep adds `poll` to the time waited, which the loops bound by
-- `wait_timeout`, and a round of the outer loop that does not end is followed by one of the inner
-- loop; so with a positive poll `2 * wait_timeout + 2` rounds are enough. All other loops run over
-- lists.
--
-- Files. The lock file of a lease is a text or is missing, and `os.link`, `os.replace` and the reads
-- of it are one step each; a schedule names the call that makes the next step.
--
-- What is not modelled: the records and tokens of the vault's file store, the HTTP routes of the bus
-- and the stub routes of the vault, the providers, the client libraries and the scripts.
-- A lock of the source makes each method of a store
-- one step, so methods are not interleaved; a delivery handler that calls the bus again is not
-- modelled either.

pub mod Base
pub mod Identity
pub mod Bus
pub mod Vault
pub mod Capture
pub mod Tests
