-- ===== src/Vault/Server/Refines/Steps.antt =====
-- vault/store/server.py: each method that writes, on both stores.
use islands_kernel.Base.{
  ℕ, String, ◌≡◌, refl, ◌∙◌, Bool, true, false, Option, none, some, ◌⊎◌, inl, inr, arith, string_eq,
  ◌==◌, leb, ltb, Option-cases, Bool-cases,
}
use islands_kernel.Base.Dict.{lookup}
use islands_kernel.Base.Sql.{Engine, IsLawful, Json, IsFaithful}
use islands_kernel.Base.Sql.Held.{
  Holds, Holds-create, ignore-Holds, Holds-ignore_new, Holds-ignore_old, update-Holds,
  Holds-update_hit, Holds-update_miss, Holds-delete_hit, Holds-delete_miss, Holds-delete,
}
use islands_kernel.Vault.Crypto.{Bytes, Draws}
use islands_kernel.Vault.Model.{
  ConnKey, as_str, Token, Connection, ConnectionGrant, ConnectionAccessLog, Lease,
}
use islands_kernel.Vault.Store
use islands_kernel.Vault.Server
use islands_kernel.Vault.Server.{
  Sealer, ServerStore, columns, connection_row, GrantRow, grant_row, grant_of, LeaseRow, blob_of,
}
use islands_kernel.Vault.Server.Calls.{
  VaultCall, put_connection, write_token, acquire_lease, release_lease, delete_connection,
  add_grant, append_log, in_memory, on_server, AnyFits, IsUsable,
}
use islands_kernel.Vault.Server.Refines.Groups.{HoldsGroups, HoldsGroups-create, HoldsGroups-insert}
use islands_kernel.Vault.Server.Refines.Tables.{
  IsSealer, HoldsConnections, HoldsConnections-create, HoldsConnections-replace, opened-row,
  HoldsConnections-write, HoldsConnections-delete,
}

-- A lease as the memory keeps it.
abbrev pub lease_of : LeaseRow → Lease
lease_of row = record { holder = row.holder; until = row.until }

module _ (db : Engine) (law : IsLawful db) (json : Json) (faithful : IsFaithful json)
    (sealer : Sealer) where
  -- Table by table, the server holds what the memory holds.
  pub record Implements (s : ServerStore db json sealer) (m : Store.Store) : Type 0 where
    pub conns : HoldsConnections db law json faithful sealer s.connections m.conns
    pub leases : Holds db law lease_of s.leases m.leases
    pub grants :
        HoldsGroups db law
          (grant_of json)
          (λ (row : GrantRow json). row.connection_id)
          s.grants
          m.grants
    pub logs :
        HoldsGroups db law
          (λ (e : ConnectionAccessLog). e)
          (λ (e : ConnectionAccessLog). e.connection_id)
          s.logs
          m.logs

  pub create_store-Implements : Implements (Server.create_store db json sealer) Store.empty
  unfolding Server.create_store
  create_store-Implements = record {
    conns = HoldsConnections-create db law json faithful sealer;
    leases = Holds-create db law lease_of;
    grants = HoldsGroups-create db law (grant_of json) (λ (row : GrantRow json). row.connection_id);
    logs =
        HoldsGroups-create db law (λ (e : ConnectionAccessLog). e)
          (λ (e : ConnectionAccessLog). e.connection_id);
  }

  -- What a call answers and leaves behind is what it does in memory.
  abbrev pub Simulates : Bool × ServerStore db json sealer → Bool × Store.Store → Type 0
  Simulates out out' = (out.0 ≡ out'.0) × Implements out.1 out'.1

  grant_of-row : (g : ConnectionGrant) → grant_of json (grant_row json g) ≡ g
  unfolding grant_of grant_row
  grant_of-row g = cc (faithful.loads-dumps g.scopes_subset)

  module _ (s : ServerStore db json sealer) (m : Store.Store) (h : Implements s m) where
    acquire_lease-Simulates :
        (key : ConnKey) (holder : String) (until now : ℕ)
        → Simulates
            (Server.acquire_lease db json sealer key holder until now s)
            (Store.acquire_lease key holder until now m)
    unfolding Server.acquire_lease Store.acquire_lease Store.is_live
    acquire_lease-Simulates key holder until now =
        let ck = as_str key in
        let row : LeaseRow = record { conn_key = ck; holder = holder; until = until } in
        let lease : Lease = record { holder = holder; until = until } in
        let t = (db.insert_or_ignore ck row s.leases).1 in
        let test = λ (old : LeaseRow). leb old.until now in
        let check = λ (old : Lease). leb old.until now in
        let f = λ (old : LeaseRow). record old { holder = holder; until = until } in
        let inserted = ignore-Holds db law lease_of ck row s.leases m.leases h.leases in
        elim (Option-cases (lookup ck m.leases)) [
          | inl absent ↦
              let yes' : (db.insert_or_ignore ck row s.leases).0 ≡ true = inserted ∙ ground arith in
              rw (absent, yes', Store.acquire_lease, Store.is_live)
                (
                  refl,
                  assumption (
                      Holds-ignore_new db law lease_of ck row lease s.leases m.leases refl absent
                        h.leases),
                )
          | inr (cur, there) ↦
              let no' : (db.insert_or_ignore ck row s.leases).0 ≡ false = inserted ∙ ground arith in
              let held =
                Holds-ignore_old db law lease_of ck row cur s.leases m.leases there h.leases in
              let updated =
                update-Holds db law lease_of test check (λ r. refl) ck f t m.leases held in
              elim (Bool-cases (leb cur.until now)) [
                | inl over ↦
                    let dead : ltb now cur.until ≡ false = ground arith in
                    rw (no', there, dead, Store.acquire_lease, Store.is_live)
                      (
                        updated ∙ ground arith,
                        assumption (
                            Holds-update_hit db law lease_of test check (λ r. refl) ck f
                              (λ old. lease) cur t m.leases (λ r. refl) there over held),
                      )
                | inr live ↦
                    let alive : ltb now cur.until ≡ true = ground arith in
                    rw (no', there, alive, Store.acquire_lease, Store.is_live)
                      (
                        updated ∙ ground arith,
                        assumption (
                            Holds-update_miss db law lease_of test check (λ r. refl) ck f t m.leases
                              (ground arith) held),
                      )
              ]
        ]

    release_lease-Implements :
        (key : ConnKey) (holder : String)
        → Implements
            (Server.release_lease db json sealer key holder s)
            (Store.release_lease key holder m)
    unfolding Server.release_lease Store.release_lease
    release_lease-Implements key holder =
        let ck = as_str key in
        let test = λ (old : LeaseRow). old.holder == holder in
        let check = λ (old : Lease). old.holder == holder in
        elim (Option-cases (lookup ck m.leases)) [
          | inl absent ↦
              rw (absent, Store.release_lease)
                (assumption (
                  Holds-delete_miss db law lease_of test check (λ r. refl) ck s.leases m.leases
                    (ground arith) h.leases))
          | inr (cur, there) ↦ elim (Bool-cases (cur.holder == holder)) [
            | inl own ↦
                rw (there, Store.release_lease, own)
                  (assumption (
                    Holds-delete_hit db law lease_of test check (λ r. refl) ck cur s.leases m.leases
                      there own h.leases))
            | inr other ↦
                rw (there, Store.release_lease, other)
                  (assumption (
                    Holds-delete_miss db law lease_of test check (λ r. refl) ck s.leases m.leases
                      (ground arith) h.leases))
          ]
        ]

    module _ (Fits : Token → Draws → Type 0) (seals : IsSealer sealer Fits) where
      -- A token that fits, or none, gives a blob that opens to it.
      blob_of-fits :
          (token : Option Token) (drawn : Draws)
          → AnyFits Fits token drawn
          → (blob : Option Bytes) × (blob_of db json sealer token drawn ≡ some blob)
            × ((blob ≡ none) × (token ≡ none)
                ⊎ ((b : Bytes) × (t : Token) × (blob ≡ some b)
                    × (token ≡ some t)
                    × (sealer.unseal b ≡ some t)))
      unfolding blob_of
      blob_of-fits none drawn fits = (none, refl, inl (refl, refl))
      blob_of-fits (some t) drawn fits =
          let (b, sealed, opens) = seals.unseal-seal t drawn fits in
          (some b, ground (arith, sealed), inr (b, t, refl, refl, opens))

      put_connection-Simulates :
          (conn : Connection) (drawn : Draws)
          → IsUsable Fits (put_connection conn drawn)
          → Simulates
              (on_server db json sealer (put_connection conn drawn) s)
              (in_memory (put_connection conn drawn) m)
      unfolding on_server in_memory Server.put_connection Store.put_connection blob_of
      put_connection-Simulates conn drawn (plain, fits) =
          let (blob, made, opens) = blob_of-fits conn.token drawn fits in
          let row = connection_row json conn blob in
          rw (Server.put_connection, made)
            (
              refl,
              assumption (
                  HoldsConnections-replace db law json faithful sealer conn row s.connections
                    m.conns plain (opened-row db law json faithful sealer conn blob opens) h.conns),
            )

      write_token-Simulates :
          (key : ConnKey) (token : Token) (now : ℕ) (drawn : Draws)
          → IsUsable Fits (write_token key token now drawn)
          → Simulates
              (on_server db json sealer (write_token key token now drawn) s)
              (in_memory (write_token key token now drawn) m)
      unfolding on_server in_memory Server.write_token Store.write_token
      write_token-Simulates key token now drawn (plain, fits) =
          let (blob, sealed, opens) = seals.unseal-seal token drawn fits in
          let held =
            HoldsConnections-write db law json faithful sealer key blob token now s.connections
              m.conns plain opens h.conns in
          elim (Option-cases (lookup (as_str key) m.conns)) [
            | inl absent ↦
                rw (Server.write_token, sealed, in_memory, absent, Store.write_token)
                  (refl, assumption (rw (absent) at held))
            | inr (c, there) ↦
                rw (Server.write_token, sealed, in_memory, there, Store.write_token)
                  (refl, assumption (rw (there) at held))
          ]

      pub call-Simulates :
          (c : VaultCall)
          → IsUsable Fits c
          → Simulates (on_server db json sealer c s) (in_memory c m)
      unfolding on_server in_memory Server.delete_connection Store.delete_connection
          Server.add_grant Store.add_grant Server.append_log Store.append_log grant_row
      call-Simulates (put_connection conn drawn) u = put_connection-Simulates conn drawn u
      call-Simulates (write_token key token now drawn) u =
          write_token-Simulates key token now drawn u
      call-Simulates (acquire_lease key holder until now) u =
          acquire_lease-Simulates key holder until now
      call-Simulates (release_lease key holder) u = (refl, release_lease-Implements key holder)
      call-Simulates (delete_connection key) u = (
        refl,
        assumption (
          HoldsConnections-delete db law json faithful sealer key s.connections m.conns u h.conns,
          Holds-delete db law lease_of (as_str key) s.leases m.leases h.leases,
        ),
      )
      call-Simulates (add_grant grant) u = (
        refl,
        assumption (
            HoldsGroups-insert db law (grant_of json) (λ (row : GrantRow json). row.connection_id)
              (grant_row json grant) grant s.grants m.grants (grant_of-row grant) h.grants),
      )
      call-Simulates (append_log entry) u = (
        refl,
        assumption (
            HoldsGroups-insert db law (λ (e : ConnectionAccessLog). e)
              (λ (e : ConnectionAccessLog). e.connection_id) entry entry s.logs m.logs refl h.logs),
      )
