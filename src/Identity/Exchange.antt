-- ===== src/Identity/Exchange.antt =====
-- identity/exchange.py: an opaque credential is exchanged for the facts that a JWT states.
pub mod Facts
use islands_kernel.Base.{
  ℕ, String, Bool, true, false, ◌&&◌, not, Option, none, some, List, [], ◌∷◌, ◌==◌, string_eq,
  if◌then◌else◌, is_some, leb, Result, ok, err, guard, ◌>>=◌, ◌>>◌,
}
use islands_kernel.Identity.Model.{
  PrincipalType, human, Role, Principal, Membership, McpToken, OauthAccessToken,
  IslandPrincipalLink,
}
use islands_kernel.Identity.Store.{
  IdentityStore, get_mcp_token, get_access_token, get_membership, get_principal,
  get_island_link_by_principal,
}

pub data ExchangeError : Type 0 where
  unknown_token revoked_token audience_mismatch expired_token : ExchangeError

-- The `audience` of a request: `Union[str, list[str]]`.
pub data Audience : Type 0 where
  one : String → Audience
  many : List String → Audience

-- What `exchange` reads of a row of either table; an access token has no `revoked_at`.
pub record Credential : Type 0 where
  pub principal_id : String
  pub org_id : Option String
  pub audience : Option String
  pub expires_at : Option ℕ
  pub revoked_at : Option ℕ

unfoldable pub of_mcp_token : McpToken → Credential
of_mcp_token t = record {
  principal_id = t.principal_id;
  org_id = t.org_id;
  audience = t.audience;
  expires_at = t.expires_at;
  revoked_at = t.revoked_at;
}

unfoldable pub of_access_token : OauthAccessToken → Credential
of_access_token t = record {
  principal_id = t.principal_id;
  org_id = t.org_id;
  audience = some t.audience;
  expires_at = some t.expires_at;
  revoked_at = none;
}

-- `store.get_mcp_token(h)`, or else `store.get_access_token(h)`
unfoldable pub find_row : IdentityStore → String → Option Credential
unfolding of_mcp_token of_access_token
find_row store h = elim (get_mcp_token h store) [
  | some t ↦ some (of_mcp_token t)
  | none ↦ elim (get_access_token h store) [ some t ↦ some (of_access_token t) | none ↦ none ]
]

-- `row.audience is None or row.audience == audience`: a text never equals a list.
unfoldable pub audience_fits : Option String → Audience → Bool
audience_fits none audience = true
audience_fits (some own) (one audience) = own == audience
audience_fits (some own) (many audiences) = false

-- `row.expires_at is not None and now >= row.expires_at`
unfoldable pub is_past : Option ℕ → ℕ → Bool
is_past none now = false
is_past (some expires_at) now = leb expires_at now

-- `m.roles if (m is not None and m.active) else []`, `m` read only for a true `org_id`
unfoldable pub roles_in : IdentityStore → String → Option String → List Role
roles_in store principal_id none = []
roles_in store principal_id (some org_id) =
    if org_id == "" then [] else elim (get_membership principal_id org_id store) [
      | none ↦ []
      | some m ↦ if m.active then m.roles else []
    ]

-- The dict that `exchange` returns.
pub record Resolved : Type 0 where
  pub principal_id : String
  pub org_id : Option String
  pub roles : List Role
  pub sid : Option String
  pub type : PrincipalType
  pub island : Option String
  pub island_sub : Option String
  pub island_org : Option String

unfoldable pub principal_type : IdentityStore → String → PrincipalType
principal_type store principal_id = elim (get_principal principal_id store) [
  | none ↦ human
  | some p ↦ p.type
]

unfoldable pub describe : IdentityStore → Credential → Resolved
unfolding roles_in principal_type
describe store row =
    let link : Option IslandPrincipalLink = get_island_link_by_principal row.principal_id store in
    record {
      principal_id = row.principal_id;
      org_id = row.org_id;
      roles = roles_in store row.principal_id row.org_id;
      sid = none;
      type = principal_type store row.principal_id;
      island = elim link [ none ↦ none | some l ↦ some l.island_id ];
      island_sub = elim link [ none ↦ none | some l ↦ some l.island_user_id ];
      island_org = none;
    }

-- The tests on a row that was found, in their order.
unfoldable pub admit : IdentityStore → Audience → ℕ → Credential → Result ExchangeError Resolved
unfolding audience_fits is_past
admit store audience now row = do
  guard (not (is_some row.revoked_at)) revoked_token
  guard (audience_fits row.audience audience) audience_mismatch
  guard (not (is_past row.expires_at now)) expired_token
  ok (describe store row)

-- `if row is None: raise ExchangeError("unknown token")`, and the tests
unfoldable pub admit_found :
    IdentityStore → Audience → ℕ → Option Credential → Result ExchangeError Resolved
unfolding admit
admit_found store audience now none = err unknown_token
admit_found store audience now (some row) = admit store audience now row

-- `hash_token` is `b64url(sha256(raw))`, of a library.
unfoldable pub exchange :
    (String → String) → String → Audience → IdentityStore → ℕ → Result ExchangeError Resolved
unfolding find_row admit_found
exchange hash_token opaque_token audience store now =
    admit_found store audience now (find_row store (hash_token opaque_token))
