-- ===== src/Identity/Authorize.antt =====
-- identity/authorize.py: the grant check that the vault and the bus share.
pub mod Spec
pub mod Laws
use islands_kernel.Base.{
  ℕ, zero, String, ◌<>◌, Bool, true, false, ◌&&◌, ◌||◌, Option, none, some, List, [], ◌∷◌, ◌++◌,
  map, leb, ◌==◌, string_eq, option_eq, if◌then◌else◌,
}
use islands_kernel.Identity.Model.{
  Access, to_use, to_manage, TargetKind, org, island, capability, connection, event_type,
  GrantTarget, Grant,
}
use islands_kernel.Vault.Model.{ConnectionGrant}

-- `_RANK`
unfoldable pub rank : Access → ℕ
rank to_use = 1
rank to_manage = 2

-- `_satisfies`
unfoldable pub satisfies : Access → Access → Bool
unfolding rank
satisfies grant_access need = leb (rank need) (rank grant_access)

-- `==` on the literals of `TargetKind`
unfoldable pub same_kind : TargetKind → TargetKind → Bool
same_kind org org = true
same_kind island island = true
same_kind capability capability = true
same_kind connection connection = true
same_kind event_type event_type = true
same_kind _ _ = false

-- `target.kind in ("island", "capability", "connection", "event-type")`
unfoldable pub nests : TargetKind → Bool
nests org = false
nests _ = true

-- `_covers`. `grant_target.id == request_org` with `request_org is not None` is one test here.
unfoldable pub covers : GrantTarget → GrantTarget → Option String → Bool
unfolding same_kind nests
covers grant_target target request_org =
    if same_kind grant_target.kind target.kind && grant_target.id == target.id
    then true
    else if same_kind grant_target.kind org
        && (some grant_target.id == request_org)
        && nests target.kind
    then true
    else false

-- `g.revoked_at is not None and g.revoked_at <= now`
unfoldable pub is_revoked : Grant → ℕ → Bool
is_revoked g now = elim g.revoked_at [ none ↦ false | some at ↦ leb at now ]

unfoldable pub authorize : List Grant → GrantTarget → Access → ℕ → Option String → Bool
authorize [] target access now request_org = false
authorize (g ∷ grants) target access now request_org =
    let rest = authorize grants target access now request_org in
    if is_revoked g now
    then rest
    else if satisfies g.access access && covers g.target target request_org
    then true
    else rest

-- `adapt_connection_grant(None, owner_connection_id=…)`
unfoldable pub adapt_owner : String → Grant
adapt_owner connection_id = record {
  id = "owner:" <> connection_id;
  principal_id = "";
  target = record { kind = connection; id = connection_id };
  access = to_manage;
  scopes_subset = none;
  granted_by = "";
  granted_at = 0;
  revoked_at = none;
}

-- `adapt_connection_grant(cg)`
unfoldable pub adapt_connection_grant : ConnectionGrant → Grant
adapt_connection_grant cg = record {
  id = "cg:" <> (cg.connection_id <> (":" <> cg.principal_id));
  principal_id = cg.principal_id;
  target = record { kind = connection; id = cg.connection_id };
  access = cg.access;
  scopes_subset = cg.scopes_subset;
  granted_by = cg.granted_by;
  granted_at = cg.granted_at;
  revoked_at = none;
}

-- `collect_grants`, on the grants that the identity store lists for the principal
unfoldable pub collect_grants : List Grant → List ConnectionGrant → List Grant
collect_grants listed connection_grants = listed ++ map adapt_connection_grant connection_grants
