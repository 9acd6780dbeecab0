-- ===== src/Vault/Server/Refines/Tables.antt =====
-- Each table of the server against the memory's.
use mathlib.Core.Option
use islands_kernel.Base.{
  ℕ, String, ◌≡◌, ap, true, Option, none, some, [], inl, inr, arith, string_eq, pair_eq, ◌==◌, ◌⊎◌,
  Option-cases, Bool-cases,
}
use islands_kernel.Base.Dict.{Dict, lookup, insert, erase, lookup-insert, lookup-erase, lookup-nil}
use islands_kernel.Base.Sql.{Engine, IsLawful, Json, IsFaithful}
use islands_kernel.Vault.Crypto.{Bytes, Draws}
use islands_kernel.Vault.Model.{ConnKey, as_str, Token, Connection, key_of}
use islands_kernel.Vault.Keys.{IsPlain, as_str-injective}
use islands_kernel.Vault.Server.{
  Sealer, Columns, columns, ConnectionRow, connection_row, connection_of, opened,
}

-- A token that fits is sealed, and opened again.
pub record IsSealer (sealer : Sealer) (Fits : Token → Draws → Type 0) : Type 0 where
  pub unseal-seal :
      (token : Token) (drawn : Draws)
      → Fits token drawn
      → (blob : Bytes) × (sealer.seal token drawn ≡ some blob) × (sealer.unseal blob ≡ some token)

key_at : Columns → ConnKey
key_at (org, (provider, account)) = record { org = org; provider = provider; account = account }

-- Plain keys have the same columns exactly where they have the same text.
same_key :
    (j k : ConnKey) → IsPlain j → IsPlain k → (columns j == columns k) ≡ (as_str j == as_str k)
unfolding key_at
same_key j k u v = elim (Bool-cases (as_str j == as_str k)) [
  | inl same ↦
      let texts : as_str j ≡ as_str k = ground arith in
      rw (as_str-injective j k u v texts) (ground arith)
  | inr differ ↦ elim (Bool-cases (columns j == columns k)) [
    | inl same ↦
        let fields : columns j ≡ columns k = ground arith in
        let keys : j ≡ k = ap key_at fields in absurd (ground (arith, ap as_str keys))
    | inr other ↦ ground arith
  ]
]

module _ (db : Engine) (law : IsLawful db) (json : Json) (faithful : IsFaithful json)
    (sealer : Sealer) where
  -- A SELECT by a plain key finds a row that opens to the memory's connection.
  abbrev pub HoldsConnections :
      db.Table Columns (ConnectionRow json) → Dict String Connection → Type 0
  HoldsConnections t d =
      (k : ConnKey)
      → IsPlain k
      → Option.map (opened db json sealer) (db.find (columns k) t)
        ≡ Option.map some (lookup (as_str k) d)

  pub HoldsConnections-create : HoldsConnections db.create []
  HoldsConnections-create k u = ground (
    arith,
    law.find-create {R = ConnectionRow json} (columns k),
    lookup-nil {V = Connection} (as_str k),
  )

  pub HoldsConnections-replace :
      (conn : Connection) (row : ConnectionRow json) (t : db.Table Columns (ConnectionRow json))
      (d : Dict String Connection)
      → IsPlain (key_of conn)
      → opened db json sealer row ≡ some conn
      → HoldsConnections t d
      → HoldsConnections
          (db.insert_or_replace (columns (key_of conn)) row t)
          (insert (as_str (key_of conn)) conn d)
  HoldsConnections-replace conn row t d plain opens h k u = ground (
    arith,
    law.find-replace (columns k) (columns (key_of conn)) row t,
    lookup-insert (as_str k) (as_str (key_of conn)) conn d,
    same_key k (key_of conn) u plain,
    h k u,
    opens,
  )

  pub opened-row :
      (conn : Connection) (blob : Option Bytes)
      → (blob ≡ none) × (conn.token ≡ none)
        ⊎ ((b : Bytes) × (t : Token) × (blob ≡ some b)
            × (conn.token ≡ some t)
            × (sealer.unseal b ≡ some t))
      → opened db json sealer (connection_row json conn blob) ≡ some conn
  unfolding opened connection_of connection_row
  opened-row conn blob h = elim h [
    | inl (null, unset) ↦ ground (arith, null, unset, faithful.loads-dumps conn.scopes)
    | inr (b, t, stored, had, opens) ↦
        ground (arith, stored, had, opens, faithful.loads-dumps conn.scopes)
  ]

  -- What `write_token` makes of a row opens to the connection with the token.
  opened-write :
      (row : ConnectionRow json) (c : Connection) (blob : Bytes) (token : Token) (now : ℕ)
      → opened db json sealer row ≡ some c
      → sealer.unseal blob ≡ some token
      → opened db json sealer (record row { token_blob = some blob; updated_at = now })
        ≡ some (record c { token = some token; updated_at = now })
  unfolding opened connection_of
  opened-write row c blob token now h opens = elim (Option-cases row.token_blob) [
    | inl null ↦ ground (arith, null, opens, h)
    | inr (old, there) ↦ elim (Option-cases (sealer.unseal old)) [
      | inl shut ↦ ground (arith, there, shut, h)
      | inr (t, read) ↦ ground (arith, there, read, opens, h)
    ]
  ]

  pub HoldsConnections-write :
      (key : ConnKey) (blob : Bytes) (token : Token) (now : ℕ)
      (t : db.Table Columns (ConnectionRow json)) (d : Dict String Connection)
      → IsPlain key
      → sealer.unseal blob ≡ some token
      → HoldsConnections t d
      → HoldsConnections
          (db.update
            (columns key)
            (λ (row : ConnectionRow json). true)
            (λ (row : ConnectionRow json). record row { token_blob = some blob; updated_at = now })
            t).1
          (elim (lookup (as_str key) d) [
            | none ↦ d
            | some c ↦ insert (as_str key) (record c { token = some token; updated_at = now }) d
          ])
  HoldsConnections-write key blob token now t d plain opens h k u =
      let f =
        λ (row : ConnectionRow json). record row { token_blob = some blob; updated_at = now } in
      let found =
        law.find-update (columns k) (columns key) (λ (row : ConnectionRow json). true) f t in
      let same = same_key k key u plain in
      elim (Option-cases (db.find (columns key) t)) [
        | inl absent ↦ elim (Option-cases (lookup (as_str key) d)) [
          | inl missing ↦ ground (arith, found, same, absent, missing, h k u)
          | inr (c, there) ↦ absurd (ground (arith, absent, there, h key plain))
        ]
        | inr (row, stored) ↦ elim (Option-cases (lookup (as_str key) d)) [
          | inl missing ↦ absurd (ground (arith, stored, missing, h key plain))
          | inr (c, there) ↦
              let read : opened db json sealer row ≡ some c =
                ground (arith, stored, there, h key plain) in
              let new : Connection = record c { token = some token; updated_at = now } in
              ground (
                arith,
                found,
                same,
                stored,
                there,
                h k u,
                opened-write row c blob token now read opens,
                lookup-insert (as_str k) (as_str key) new d,
              )
        ]
      ]

  pub HoldsConnections-delete :
      (key : ConnKey) (t : db.Table Columns (ConnectionRow json)) (d : Dict String Connection)
      → IsPlain key
      → HoldsConnections t d
      → HoldsConnections
          (db.delete
            (columns key)
            (λ (row : ConnectionRow json). true)
            (db.update
              (columns key)
              (λ (row : ConnectionRow json). true)
              (λ (row : ConnectionRow json). record row { token_blob = none })
              t).1)
          (erase (as_str key) d)
  HoldsConnections-delete key t d plain h k u =
      let f = λ (row : ConnectionRow json). record row { token_blob = none } in
      let blank = (db.update (columns key) (λ (row : ConnectionRow json). true) f t).1 in
      let found =
        law.find-update (columns k) (columns key) (λ (row : ConnectionRow json). true) f t in
      let own =
        law.find-update (columns key) (columns key) (λ (row : ConnectionRow json). true) f t in
      let gone =
        law.find-delete (columns k) (columns key) (λ (row : ConnectionRow json). true) blank in
      let same = same_key k key u plain in
      elim (Option-cases (db.find (columns key) t)) [
        | inl absent ↦ ground (
          arith,
          found,
          own,
          gone,
          same,
          absent,
          h k u,
          h key plain,
          lookup-erase (as_str k) (as_str key) d,
        )
        | inr (row, stored) ↦
            ground
              (arith, found, own, gone, same, stored, h k u, lookup-erase (as_str k) (as_str key) d)
      ]
