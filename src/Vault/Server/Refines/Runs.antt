-- ===== src/Vault/Server/Refines/Runs.antt =====
-- Any sequence of calls, on both stores.
use mathlib.Core.List.{Perm}
use mathlib.Core.Path.{ap₂}
use islands_kernel.Base.{
  ℕ, String, ◌≡◌, refl, some, List, [], ◌∷◌, arith, string_eq, pair_eq, Option-cases, inl, inr,
}
use islands_kernel.Base.Dict.{lookup}
use islands_kernel.Base.Sql.{Engine, IsLawful, Json, IsFaithful}
use islands_kernel.Base.Sql.Queries.{map_id}
use islands_kernel.Vault.Crypto.{Draws}
use islands_kernel.Vault.Model.{ConnKey, as_str, Token}
use islands_kernel.Vault.Keys.{IsPlain}
use islands_kernel.Vault.Store
use islands_kernel.Vault.Server
use islands_kernel.Vault.Server.{Sealer, ServerStore, columns, opened}
use islands_kernel.Vault.Server.Calls.{
  VaultCall, in_memory, run_memory, AreUsable, on_server, run_server,
}
use islands_kernel.Vault.Server.Refines.Tables.{IsSealer}
use islands_kernel.Vault.Server.Refines.Steps.{Implements, create_store-Implements, call-Simulates}

module _ (db : Engine) (law : IsLawful db) (json : Json) (faithful : IsFaithful json)
    (sealer : Sealer) where
  -- Every read of the server gives what the memory's read gives, a connection with its token opened;
  -- of the grants and the log of a connection, the same entries as often.
  pub record Agrees (s : ServerStore db json sealer) (m : Store.Store) : Type 0 where
    pub connection :
        (plain : (key : ConnKey) × IsPlain key)
        → Server.get_connection db json sealer plain.0 s ≡ some (Store.get_connection plain.0 m)
    pub held :
        (key : ConnKey) (now : ℕ)
        → Server.lease_held db json sealer key now s ≡ Store.lease_held key now m
    pub grants :
        (connection_id : String)
        → Perm (Server.get_grants db json sealer connection_id s) (Store.get_grants connection_id m)
    pub log :
        (connection_id : String)
        → Perm (Server.read_log db json sealer connection_id s) (Store.read_log connection_id m)

  module _ (s : ServerStore db json sealer) (m : Store.Store)
      (h : Implements db law json faithful sealer s m) where
    connection-agrees :
        (key : ConnKey)
        → IsPlain key
        → Server.get_connection db json sealer key s ≡ some (Store.get_connection key m)
    unfolding Server.get_connection Store.get_connection
    connection-agrees key plain = elim (Option-cases (db.find (columns key) s.connections)) [
      | inl absent ↦ elim (Option-cases (lookup (as_str key) m.conns)) [
        | inl missing ↦ ground (arith, absent, missing)
        | inr (c, there) ↦ absurd (ground (arith, absent, there, h.conns key plain))
      ]
      | inr (row, stored) ↦ elim (Option-cases (lookup (as_str key) m.conns)) [
        | inl missing ↦ absurd (ground (arith, stored, missing, h.conns key plain))
        | inr (c, there) ↦
            let read : opened db json sealer row ≡ some c =
              ground (arith, stored, there, h.conns key plain) in
            ground (arith, stored, there, read)
      ]
    ]

    held-agrees :
        (key : ConnKey) (now : ℕ)
        → Server.lease_held db json sealer key now s ≡ Store.lease_held key now m
    unfolding Server.lease_held Store.lease_held Store.is_live
    held-agrees key now = elim (Option-cases (db.find (as_str key) s.leases)) [
      | inl absent ↦ ground (arith, h.leases (as_str key))
      | inr (row, there) ↦ ground (arith, h.leases (as_str key))
    ]

    Implements-Agrees : Agrees s m
    unfolding Server.get_grants Store.get_grants Server.read_log Store.read_log
    Implements-Agrees = record {
      connection = λ (key, plain). connection-agrees key plain;
      held = held-agrees;
      grants = h.grants;
      log = λ connection_id.
          rw (map_id (Server.read_log db json sealer connection_id s)) at (h.logs connection_id);
    }

  module _ (Fits : Token → Draws → Type 0) (seals : IsSealer sealer Fits) where
    runs_agree :
        (calls : List VaultCall) (s : ServerStore db json sealer) (m : Store.Store)
        → Implements db law json faithful sealer s m
        → AreUsable Fits calls
        → ((run_server db json sealer calls s).0 ≡ (run_memory calls m).0)
          × Agrees (run_server db json sealer calls s).1 (run_memory calls m).1
    unfolding run_server run_memory
    runs_agree [] s m h u = (refl, Implements-Agrees s m h)
    runs_agree (c ∷ calls) s m h (usable, rest) =
        let (same, next) = call-Simulates db law json faithful sealer s m h Fits seals c usable in
        let (answers, reads) =
          runs_agree calls (on_server db json sealer c s).1 (in_memory c m).1 next rest in
        (ap₂ (λ a as'. a ∷ as') same answers, reads)

    -- The vault's store on SQLite implements the one in memory, for calls whose keys have no slash
    -- in the org or the provider and whose tokens can be sealed: after any sequence of them on a
    -- new store of each kind, every call has answered the same. Every connection under such a key
    -- is read with the same token or is absent from both, the same leases are held, and the grants
    -- and the log of every connection are the same entries as often. A `write_token` to a missing
    -- connection, which raises in memory only, counts as answered.
    pub server_vault_refines :
        (calls : List VaultCall)
        → AreUsable Fits calls
        → let (answers, s) = run_server db json sealer calls (Server.create_store db json sealer) in
          let (answers', m) = run_memory calls Store.empty in (answers ≡ answers') × Agrees s m
    server_vault_refines calls u =
        runs_agree calls (Server.create_store db json sealer) Store.empty
          (create_store-Implements db law json faithful sealer) u
