-- ===== src/Identity/Server/Refines/Marks.antt =====
-- The methods that mark a row as revoked, disabled or consumed.
use islands_kernel.Base.{
  ℕ, String, ◌≡◌, refl, ◌∙◌, some, inl, inr, string_eq, pair_eq, is_some, Option-cases, Bool-cases,
}
use islands_kernel.Base.Dict.{lookup}
use islands_kernel.Base.Sql.{Engine, IsLawful, Json, IsFaithful}
use islands_kernel.Base.Sql.Held.{Holds-found, Holds-set}
use islands_kernel.Identity.Model.{Grant, OauthAuthCode, IslandRegistry, FederationTxn}
use islands_kernel.Identity.Store
use islands_kernel.Identity.Store.{IdentityStore}
use islands_kernel.Identity.Server
use islands_kernel.Identity.Server.{ServerIdentityStore}
use islands_kernel.Identity.Server.Rows.{GrantRow, grant_of}
use islands_kernel.Identity.Server.Refines.Tables.{Implements}

module _ (db : Engine) (law : IsLawful db) (json : Json) (faithful : IsFaithful json)
    (s : ServerIdentityStore db json) (m : IdentityStore)
    (h : Implements db law json faithful s m) where
  pub revoke_grant-Implements :
      (grant_id : String) (at : ℕ)
      → Implements db law json faithful
          (Server.revoke_grant db json grant_id at s)
          (Store.revoke_grant grant_id at m)
  unfolding Server.revoke_grant Store.revoke_grant grant_of
  revoke_grant-Implements grant_id at =
      let set =
        Holds-set db law (grant_of json) grant_id
          (λ (row : GrantRow json). record row { revoked_at = some at })
          (λ (x : Grant). record x { revoked_at = some at }) s.grants m.grants (λ r. refl)
          h.grants in
      elim (Option-cases (lookup grant_id m.grants)) [
        | inl absent ↦ rw (absent, Store.revoke_grant) (assumption (rw (absent) at set))
        | inr (old, there) ↦ rw (there, Store.revoke_grant) (assumption (rw (there) at set))
      ]

  pub disable_island-Implements :
      (island_id : String) (at : ℕ)
      → Implements db law json faithful
          (Server.disable_island db json island_id at s)
          (Store.disable_island island_id at m)
  unfolding Server.disable_island Store.disable_island
  disable_island-Implements island_id at =
      let set =
        Holds-set db law (λ (x : IslandRegistry). x) island_id
          (λ (row : IslandRegistry). record row { disabled_at = some at })
          (λ (x : IslandRegistry). record x { disabled_at = some at }) s.islands m.islands
          (λ r. refl) h.islands in
      elim (Option-cases (lookup island_id m.islands)) [
        | inl absent ↦ rw (absent, Store.disable_island) (assumption (rw (absent) at set))
        | inr (old, there) ↦ rw (there, Store.disable_island) (assumption (rw (there) at set))
      ]

  pub consume_auth_code-Simulates :
      (code_hash : String) (at : ℕ)
      → ((Server.consume_auth_code db json code_hash at s).0
          ≡ (Store.consume_auth_code code_hash at m).0)
        × Implements db law json faithful
            (Server.consume_auth_code db json code_hash at s).1
            (Store.consume_auth_code code_hash at m).1
  unfolding Server.consume_auth_code Store.consume_auth_code
  consume_auth_code-Simulates code_hash at =
      let found = Holds-found db law s.auth_codes m.codes h.codes code_hash in
      let set =
        Holds-set db law (λ (x : OauthAuthCode). x) code_hash
          (λ (row : OauthAuthCode). record row { consumed_at = some at })
          (λ (x : OauthAuthCode). record x { consumed_at = some at }) s.auth_codes m.codes
          (λ r. refl) h.codes in
      elim (Option-cases (lookup code_hash m.codes)) [
        | inl absent ↦
            rw (found ∙ absent, Server.consume_auth_code, absent, Store.consume_auth_code) (refl, h)
        | inr (old, there) ↦ elim (Bool-cases (is_some old.consumed_at)) [
          | inl used ↦
              rw (found ∙ there, Server.consume_auth_code, there, Store.consume_auth_code, used)
                (refl, h)
          | inr fresh ↦
              rw (found ∙ there, Server.consume_auth_code, there, Store.consume_auth_code, fresh)
                (refl, assumption (rw (there) at set))
        ]
      ]

  pub consume_federation_txn-Simulates :
      (txn_hash : String) (at : ℕ)
      → ((Server.consume_federation_txn db json txn_hash at s).0
          ≡ (Store.consume_federation_txn txn_hash at m).0)
        × Implements db law json faithful
            (Server.consume_federation_txn db json txn_hash at s).1
            (Store.consume_federation_txn txn_hash at m).1
  unfolding Server.consume_federation_txn Store.consume_federation_txn
  consume_federation_txn-Simulates txn_hash at =
      let found = Holds-found db law s.federation_txns m.ftxn h.ftxn txn_hash in
      let set =
        Holds-set db law (λ (x : FederationTxn). x) txn_hash
          (λ (row : FederationTxn). record row { consumed_at = some at })
          (λ (x : FederationTxn). record x { consumed_at = some at }) s.federation_txns m.ftxn
          (λ r. refl) h.ftxn in
      elim (Option-cases (lookup txn_hash m.ftxn)) [
        | inl absent ↦
            rw (found ∙ absent, Server.consume_federation_txn, absent, Store.consume_federation_txn)
              (refl, h)
        | inr (old, there) ↦ elim (Bool-cases (is_some old.consumed_at)) [
          | inl used ↦
              rw
                (
                  found ∙ there,
                  Server.consume_federation_txn,
                  there,
                  Store.consume_federation_txn,
                  used,
                )
                (refl, h)
          | inr fresh ↦
              rw
                (
                  found ∙ there,
                  Server.consume_federation_txn,
                  there,
                  Store.consume_federation_txn,
                  fresh,
                )
                (refl, assumption (rw (there) at set))
        ]
      ]
