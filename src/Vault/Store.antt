-- ===== src/Vault/Store.antt =====
-- vault/store/memory.py: `InMemoryStore`. The lock makes each method one step.
use islands_kernel.Base.{
  ℕ, String, Bool, true, false, ◌&&◌, Option, none, some, List, [], ◌∷◌, ◌++◌, ◌==◌, string_eq,
  if◌then◌else◌, ltb,
}
use islands_kernel.Base.Dict.{Dict, lookup, insert, erase, values, filter}
use islands_kernel.Vault.Model.{
  ConnKey, as_str, Token, Lease, Connection, key_of, ConnectionGrant, ConnectionAccessLog,
}

pub record Store : Type 0 where
  pub conns : Dict String Connection
  pub leases : Dict String Lease
  pub grants : Dict String (List ConnectionGrant)
  pub logs : Dict String (List ConnectionAccessLog)

abbrev pub empty : Store
empty = record { conns = []; leases = []; grants = []; logs = [] }

unfoldable pub put_connection : Connection → Store → Store
put_connection conn s = record s { conns = insert (as_str (key_of conn)) conn s.conns }

unfoldable pub get_connection : ConnKey → Store → Option Connection
get_connection key s = lookup (as_str key) s.conns

-- `provider is None or c.provider == provider`
unfoldable pub is_of_provider : Option String → Connection → Bool
is_of_provider none c = true
is_of_provider (some provider) c = c.provider == provider

unfoldable pub list_connections : String → Option String → Store → List Connection
unfolding is_of_provider
list_connections org provider s =
    filter (λ (c : Connection). c.org == org && is_of_provider provider c) (values s.conns)

-- `self._conns[key.as_str()]` raises `KeyError` where the key is absent: `none`.
unfoldable pub write_token : ConnKey → Token → ℕ → Store → Option Store
write_token key token now s = elim (lookup (as_str key) s.conns) [
  | none ↦ none
  | some c ↦ some (record s {
    conns = insert (as_str key) (record c { token = some token; updated_at = now }) s.conns;
  })
]

-- `cur is not None and cur.until > now`
unfoldable pub is_live : Option Lease → ℕ → Bool
is_live none now = false
is_live (some cur) now = ltb now cur.until

unfoldable pub acquire_lease : ConnKey → String → ℕ → ℕ → Store → Bool × Store
acquire_lease key holder until now s =
    if is_live (lookup (as_str key) s.leases) now then (false, s) else (
      true,
      record s {
        leases = insert (as_str key) (record { holder = holder; until = until }) s.leases;
      },
    )

unfoldable pub release_lease : ConnKey → String → Store → Store
release_lease key holder s = elim (lookup (as_str key) s.leases) [
  | none ↦ s
  | some cur ↦ if cur.holder == holder then record s { leases = erase (as_str key) s.leases } else s
]

unfoldable pub lease_held : ConnKey → ℕ → Store → Bool
lease_held key now s = is_live (lookup (as_str key) s.leases) now

-- The zeroed token of `delete_connection`.
abbrev pub zeroed : Token
zeroed = record { access_token = ""; refresh_token = ""; expires_at = 0; scope = "" }

-- The object that leaves the table, as it stands when the method returns.
abbrev pub zeroize : Option Connection → Option Connection
zeroize none = none
zeroize (some c) = some (elim c.token [ none ↦ c | some t ↦ record c { token = some zeroed } ])

-- The first part of the result is the object that was in the table.
unfoldable pub delete_connection : ConnKey → Store → Option Connection × Store
delete_connection key s = (
  zeroize (lookup (as_str key) s.conns),
  record s { conns = erase (as_str key) s.conns; leases = erase (as_str key) s.leases },
)

-- `d.get(k, [])`
abbrev pub list_at {ℓ} : {A : Type ℓ} → String → Dict String (List A) → List A
list_at k d = elim (lookup k d) [ none ↦ [] | some xs ↦ xs ]

unfoldable pub add_grant : ConnectionGrant → Store → Store
add_grant grant s = record s {
  grants = insert grant.connection_id (list_at grant.connection_id s.grants ++ grant ∷ []) s.grants;
}

unfoldable pub get_grants : String → Store → List ConnectionGrant
get_grants connection_id s = list_at connection_id s.grants

unfoldable pub append_log : ConnectionAccessLog → Store → Store
append_log entry s = record s {
  logs = insert entry.connection_id (list_at entry.connection_id s.logs ++ entry ∷ []) s.logs;
}

unfoldable pub read_log : String → Store → List ConnectionAccessLog
read_log connection_id s = list_at connection_id s.logs
