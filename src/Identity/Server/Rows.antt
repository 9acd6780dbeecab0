-- ===== src/Identity/Server/Rows.antt =====
-- identity/store/server.py: the rows whose columns are not the fields of the row's class. A truth
-- value is a column of 0 or 1; an absent JSON text is NULL.
use mathlib.Core.Option
use islands_kernel.Base.{ℕ, String, Option, List, ltb, if◌then◌else◌}
use islands_kernel.Base.Sql.{Json}
use islands_kernel.Identity.Model.{
  Role, Access, TargetKind, Membership, Grant, ClientType, OauthClient, Refresh, OauthAccessToken,
}

module _ (json : Json) where
  pub record MembershipRow : Type 0 where
    pub principal_id : String
    pub org_id : String
    pub roles_json : json.Text (List Role)
    pub active : ℕ
    pub joined_at : ℕ

  unfoldable pub membership_row : Membership → MembershipRow
  membership_row m = record {
    principal_id = m.principal_id;
    org_id = m.org_id;
    roles_json = json.dumps m.roles;
    active = if m.active then 1 else 0;
    joined_at = m.joined_at;
  }

  unfoldable pub membership_of : MembershipRow → Membership
  membership_of row = record {
    principal_id = row.principal_id;
    org_id = row.org_id;
    roles = json.loads row.roles_json;
    active = ltb 0 row.active;
    joined_at = row.joined_at;
  }

  pub record GrantRow : Type 0 where
    pub id : String
    pub principal_id : String
    pub target_kind : TargetKind
    pub target_id : String
    pub access : Access
    pub scopes_subset_json : Option (json.Text (List String))
    pub granted_by : String
    pub granted_at : ℕ
    pub revoked_at : Option ℕ

  unfoldable pub grant_row : Grant → GrantRow
  grant_row g = record {
    id = g.id;
    principal_id = g.principal_id;
    target_kind = g.target.kind;
    target_id = g.target.id;
    access = g.access;
    scopes_subset_json = Option.map (λ scopes. json.dumps scopes) g.scopes_subset;
    granted_by = g.granted_by;
    granted_at = g.granted_at;
    revoked_at = g.revoked_at;
  }

  unfoldable pub grant_of : GrantRow → Grant
  grant_of row = record {
    id = row.id;
    principal_id = row.principal_id;
    target = record { kind = row.target_kind; id = row.target_id };
    access = row.access;
    scopes_subset = Option.map (λ scopes. json.loads scopes) row.scopes_subset_json;
    granted_by = row.granted_by;
    granted_at = row.granted_at;
    revoked_at = row.revoked_at;
  }

  pub record ClientRow : Type 0 where
    pub id : String
    pub name : String
    pub redirect_uris_json : json.Text (List String)
    pub type : ClientType
    pub cid_meta_url : Option String

  unfoldable pub client_row : OauthClient → ClientRow
  client_row c = record {
    id = c.id;
    name = c.name;
    redirect_uris_json = json.dumps c.redirect_uris;
    type = c.type;
    cid_meta_url = c.client_id_metadata_url;
  }

  unfoldable pub client_of : ClientRow → OauthClient
  client_of row = record {
    id = row.id;
    name = row.name;
    redirect_uris = json.loads row.redirect_uris_json;
    type = row.type;
    client_id_metadata_url = row.cid_meta_url;
  }

  pub record AccessTokenRow : Type 0 where
    pub hash : String
    pub client_id : String
    pub principal_id : String
    pub org_id : Option String
    pub audience : String
    pub scope : String
    pub expires_at : ℕ
    pub refresh_json : Option (json.Text Refresh)

  unfoldable pub access_token_row : OauthAccessToken → AccessTokenRow
  access_token_row t = record {
    hash = t.hash;
    client_id = t.client_id;
    principal_id = t.principal_id;
    org_id = t.org_id;
    audience = t.audience;
    scope = t.scope;
    expires_at = t.expires_at;
    refresh_json = Option.map (λ refresh. json.dumps refresh) t.refresh;
  }

  unfoldable pub access_token_of : AccessTokenRow → OauthAccessToken
  access_token_of row = record {
    hash = row.hash;
    client_id = row.client_id;
    principal_id = row.principal_id;
    org_id = row.org_id;
    audience = row.audience;
    scope = row.scope;
    expires_at = row.expires_at;
    refresh = Option.map (λ refresh. json.loads refresh) row.refresh_json;
  }
