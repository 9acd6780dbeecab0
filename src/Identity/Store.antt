-- ===== src/Identity/Store.antt =====
-- identity/store/memory.py: `InMemoryIdentityStore`. A row that a method mutates in place is
-- written back under its key. The lock makes each method one step.
pub mod Invariant
use islands_kernel.Base.{
  ℕ, String, Bool, true, false, ◌&&◌, Option, none, some, List, [], ◌∷◌, ◌++◌, ◌==◌, string_eq,
  option_eq, pair_eq, if◌then◌else◌, is_some,
}
use islands_kernel.Base.Dict.{Dict, lookup, insert, erase, values, keys, filter, find}
use islands_kernel.Identity.Model.{
  Principal, Org, Membership, Grant, McpToken, OauthClient, OauthAuthCode, OauthAccessToken,
  AccessLog, IslandRegistry, IslandPrincipalLink, FederationTxn,
}

pub record IdentityStore : Type 0 where
  pub principals : Dict String Principal
  pub orgs : Dict String Org
  pub memberships : Dict (String × String) Membership
  pub grants : Dict String Grant
  pub mcp : Dict String McpToken
  pub clients : Dict String OauthClient
  pub codes : Dict String OauthAuthCode
  pub at : Dict String OauthAccessToken
  pub logs : List AccessLog
  pub islands : Dict String IslandRegistry
  pub island_links : Dict (String × String) IslandPrincipalLink
  pub ftxn : Dict String FederationTxn

abbrev pub empty : IdentityStore
empty = record {
  principals = [];
  orgs = [];
  memberships = [];
  grants = [];
  mcp = [];
  clients = [];
  codes = [];
  at = [];
  logs = [];
  islands = [];
  island_links = [];
  ftxn = [];
}

unfoldable pub put_principal : Principal → IdentityStore → IdentityStore
put_principal p s = record s { principals = insert p.id p s.principals }

unfoldable pub get_principal : String → IdentityStore → Option Principal
get_principal principal_id s = lookup principal_id s.principals

unfoldable pub get_principal_by_email : Option String → IdentityStore → Option Principal
get_principal_by_email email s = find (λ (p : Principal). p.email == email) (values s.principals)

unfoldable pub put_org : Org → IdentityStore → IdentityStore
put_org o s = record s { orgs = insert o.id o s.orgs }

unfoldable pub get_org : String → IdentityStore → Option Org
get_org org_id s = lookup org_id s.orgs

unfoldable pub put_membership : Membership → IdentityStore → IdentityStore
put_membership m s = record s { memberships = insert (m.principal_id, m.org_id) m s.memberships }

unfoldable pub get_membership : String → String → IdentityStore → Option Membership
get_membership principal_id org_id s = lookup (principal_id, org_id) s.memberships

-- `[m for (pid, _), m in self._memberships.items() if pid == principal_id]`
unfoldable pub memberships_of : String → Dict (String × String) Membership → List Membership
memberships_of principal_id [] = []
memberships_of principal_id (((pid, _), m) ∷ d) =
    let rest = memberships_of principal_id d in if pid == principal_id then m ∷ rest else rest

unfoldable pub list_memberships : String → IdentityStore → List Membership
unfolding memberships_of
list_memberships principal_id s = memberships_of principal_id s.memberships

unfoldable pub add_grant : Grant → IdentityStore → IdentityStore
add_grant g s = record s { grants = insert g.id g s.grants }

unfoldable pub revoke_grant : String → ℕ → IdentityStore → IdentityStore
revoke_grant grant_id at s = elim (lookup grant_id s.grants) [
  | none ↦ s
  | some g ↦ record s { grants = insert grant_id (record g { revoked_at = some at }) s.grants }
]

unfoldable pub list_grants : String → IdentityStore → List Grant
list_grants principal_id s =
    filter (λ (g : Grant). g.principal_id == principal_id) (values s.grants)

unfoldable pub put_mcp_token : McpToken → IdentityStore → IdentityStore
put_mcp_token t s = record s { mcp = insert t.hash t s.mcp }

unfoldable pub get_mcp_token : String → IdentityStore → Option McpToken
get_mcp_token token_hash s = lookup token_hash s.mcp

unfoldable pub put_oauth_client : OauthClient → IdentityStore → IdentityStore
put_oauth_client c s = record s { clients = insert c.id c s.clients }

unfoldable pub get_oauth_client : String → IdentityStore → Option OauthClient
get_oauth_client client_id s = lookup client_id s.clients

unfoldable pub put_auth_code : OauthAuthCode → IdentityStore → IdentityStore
put_auth_code c s = record s { codes = insert c.hash c s.codes }

unfoldable pub get_auth_code : String → IdentityStore → Option OauthAuthCode
get_auth_code code_hash s = lookup code_hash s.codes

unfoldable pub consume_auth_code : String → ℕ → IdentityStore → Bool × IdentityStore
consume_auth_code code_hash at s = elim (lookup code_hash s.codes) [
  | none ↦ (false, s)
  | some c ↦ if is_some c.consumed_at then (false, s) else (
    true,
    record s { codes = insert code_hash (record c { consumed_at = some at }) s.codes },
  )
]

unfoldable pub put_access_token : OauthAccessToken → IdentityStore → IdentityStore
put_access_token t s = record s { at = insert t.hash t s.at }

unfoldable pub get_access_token : String → IdentityStore → Option OauthAccessToken
get_access_token token_hash s = lookup token_hash s.at

unfoldable pub rotate_refresh : String → OauthAccessToken → IdentityStore → IdentityStore
rotate_refresh old_hash new_token s = record s {
  at = insert new_token.hash new_token (erase old_hash s.at);
}

unfoldable pub access_token_hashes : IdentityStore → List String
access_token_hashes s = keys s.at

unfoldable pub append_log : AccessLog → IdentityStore → IdentityStore
append_log entry s = record s { logs = s.logs ++ entry ∷ [] }

unfoldable pub read_log : String → IdentityStore → List AccessLog
read_log principal_id s = filter (λ (e : AccessLog). e.principal_id == principal_id) s.logs

unfoldable pub put_island : IslandRegistry → IdentityStore → IdentityStore
put_island i s = record s { islands = insert i.id i s.islands }

unfoldable pub get_island : String → IdentityStore → Option IslandRegistry
get_island island_id s = lookup island_id s.islands

unfoldable pub get_island_by_audience : String → IdentityStore → Option IslandRegistry
get_island_by_audience audience s =
    find (λ (i : IslandRegistry). i.audience == audience) (values s.islands)

unfoldable pub list_islands : IdentityStore → List IslandRegistry
list_islands s = values s.islands

unfoldable pub disable_island : String → ℕ → IdentityStore → IdentityStore
disable_island island_id at s = elim (lookup island_id s.islands) [
  | none ↦ s
  | some cur ↦ record s {
    islands = insert island_id (record cur { disabled_at = some at }) s.islands;
  }
]

unfoldable pub put_island_principal_link : IslandPrincipalLink → IdentityStore → IdentityStore
put_island_principal_link link s = record s {
  island_links = insert (link.island_id, link.island_user_id) link s.island_links;
}

unfoldable pub get_principal_by_island : String → String → IdentityStore → Option String
get_principal_by_island island_id island_user_id s =
    elim (lookup (island_id, island_user_id) s.island_links) [
      | none ↦ none
      | some link ↦ some link.principal_id
    ]

unfoldable pub get_island_link_by_principal : String → IdentityStore → Option IslandPrincipalLink
get_island_link_by_principal principal_id s =
    find (λ (l : IslandPrincipalLink). l.principal_id == principal_id) (values s.island_links)

unfoldable pub put_federation_txn : FederationTxn → IdentityStore → IdentityStore
put_federation_txn t s = record s { ftxn = insert t.hash t s.ftxn }

unfoldable pub get_federation_txn : String → IdentityStore → Option FederationTxn
get_federation_txn txn_hash s = lookup txn_hash s.ftxn

unfoldable pub consume_federation_txn : String → ℕ → IdentityStore → Bool × IdentityStore
consume_federation_txn txn_hash at s = elim (lookup txn_hash s.ftxn) [
  | none ↦ (false, s)
  | some t ↦
      if is_some t.consumed_at
      then (false, s)
      else (true, record s { ftxn = insert txn_hash (record t { consumed_at = some at }) s.ftxn })
]
