-- ===== src/Vault/Server/Calls.antt =====
-- Sequences of the calls that write, on both stores.
use islands_kernel.Base.{ℕ, String, Bool, true, false, Option, none, some, List, [], ◌∷◌}
use islands_kernel.Base.Sql.{Engine, Json}
use islands_kernel.Vault.Crypto.{Draws}
use islands_kernel.Vault.Model.{
  ConnKey, Token, Connection, key_of, ConnectionGrant, ConnectionAccessLog,
}
use islands_kernel.Vault.Keys.{IsPlain}
use islands_kernel.Vault.Store
use islands_kernel.Vault.Server
use islands_kernel.Vault.Server.{Sealer, ServerStore}

-- A call that seals a token names what the sealing draws.
pub data VaultCall : Type 0 where
  put_connection : Connection → Draws → VaultCall
  write_token : ConnKey → Token → ℕ → Draws → VaultCall
  acquire_lease : ConnKey → String → ℕ → ℕ → VaultCall
  release_lease : ConnKey → String → VaultCall
  delete_connection : ConnKey → VaultCall
  add_grant : ConnectionGrant → VaultCall
  append_log : ConnectionAccessLog → VaultCall

-- What a call answers, and the store after it. The calls that answer nothing answer `true` here,
-- a `write_token` that raises and writes nothing among them.
unfoldable pub in_memory : VaultCall → Store.Store → Bool × Store.Store
in_memory (put_connection conn drawn) m = (true, Store.put_connection conn m)
in_memory (write_token key token now drawn) m = elim (Store.write_token key token now m) [
  | none ↦ (true, m)
  | some written ↦ (true, written)
]
in_memory (acquire_lease key holder until now) m = Store.acquire_lease key holder until now m
in_memory (release_lease key holder) m = (true, Store.release_lease key holder m)
in_memory (delete_connection key) m = (true, (Store.delete_connection key m).1)
in_memory (add_grant grant) m = (true, Store.add_grant grant m)
in_memory (append_log entry) m = (true, Store.append_log entry m)

unfoldable pub run_memory : List VaultCall → Store.Store → List Bool × Store.Store
run_memory [] m = ([], m)
run_memory (c ∷ calls) m =
    let (answer, next) = in_memory c m in
    let (answers, last) = run_memory calls next in (answer ∷ answers, last)

-- The token, if there is one, can be sealed.
abbrev pub AnyFits : (Token → Draws → Type 0) → Option Token → Draws → Type 0
AnyFits Fits none drawn = Unit
AnyFits Fits (some token) drawn = Fits token drawn

-- The keys of the call are plain, and its token can be sealed with its draws.
abbrev pub IsUsable : (Token → Draws → Type 0) → VaultCall → Type 0
IsUsable Fits (put_connection conn drawn) = IsPlain (key_of conn) × AnyFits Fits conn.token drawn
IsUsable Fits (write_token key token now drawn) = IsPlain key × Fits token drawn
IsUsable Fits (acquire_lease key holder until now) = Unit
IsUsable Fits (release_lease key holder) = Unit
IsUsable Fits (delete_connection key) = IsPlain key
IsUsable Fits (add_grant grant) = Unit
IsUsable Fits (append_log entry) = Unit

abbrev pub AreUsable : (Token → Draws → Type 0) → List VaultCall → Type 0
AreUsable Fits [] = Unit
AreUsable Fits (c ∷ calls) = IsUsable Fits c × AreUsable Fits calls

module _ (db : Engine) (json : Json) (sealer : Sealer) where
  -- A call that raises before it writes answers `false`.
  abbrev pub written :
      Option (ServerStore db json sealer)
      → ServerStore db json sealer
      → Bool × ServerStore db json sealer
  written none s = (false, s)
  written (some next) s = (true, next)

  unfoldable pub on_server :
      VaultCall → ServerStore db json sealer → Bool × ServerStore db json sealer
  on_server (put_connection conn drawn) s =
      written (Server.put_connection db json sealer conn drawn s) s
  on_server (write_token key token now drawn) s =
      written (Server.write_token db json sealer key token now drawn s) s
  on_server (acquire_lease key holder until now) s =
      Server.acquire_lease db json sealer key holder until now s
  on_server (release_lease key holder) s = (true, Server.release_lease db json sealer key holder s)
  on_server (delete_connection key) s = (true, Server.delete_connection db json sealer key s)
  on_server (add_grant grant) s = (true, Server.add_grant db json sealer grant s)
  on_server (append_log entry) s = (true, Server.append_log db json sealer entry s)

  unfoldable pub run_server :
      List VaultCall → ServerStore db json sealer → List Bool × ServerStore db json sealer
  run_server [] s = ([], s)
  run_server (c ∷ calls) s =
      let (answer, next) = on_server c s in
      let (answers, last) = run_server calls next in (answer ∷ answers, last)
