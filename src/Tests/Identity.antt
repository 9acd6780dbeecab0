-- ===== src/Tests/Identity.antt =====
-- An org with a member, her grant, an auth code and an access token.
use islands_kernel.Base.{
  ◌<◌, sym, ◌∙◌, String, ◌≡◌, ◌≢◌, refl, true, false, none, some, List, [], ◌∷◌, inl, inr, arith,
  string_eq, pair_eq, option_eq, ok, err, is_ok,
}
use mathlib.Core.Path.{subst}
use islands_kernel.Base.Dict.{lookup, insert, keys}
use islands_kernel.Identity.Model.{
  Principal, human, Membership, owner, Grant, GrantTarget, org, island, to_use, to_manage,
  OauthAuthCode, OauthAccessToken,
}
use islands_kernel.Identity.Store
use islands_kernel.Identity.Store.{IdentityStore, list_grants}
use islands_kernel.Identity.Store.Invariant.{
  IsValid, Call, put_principal, put_membership, add_grant, put_auth_code, put_access_token,
  perform_all, perform, perform_all-IsValid,
}
use islands_kernel.Identity.Authorize.{authorize}
use islands_kernel.Identity.Authorize.Spec.{Permits, authorize_iff}
use islands_kernel.Identity.Authorize.Laws.{authorize-revoke_grant, others}
use islands_kernel.Identity.Resolve.{resolve_org, is_active_member}
use islands_kernel.Identity.Exchange.{
  Resolved, one, exchange, describe, find_row, of_access_token, roles_in,
}
use islands_kernel.Identity.Exchange.Facts.{exchange_iff, exchange_roles}
use islands_kernel.Identity.Oauth.Clients.{unknown_refresh}
use islands_kernel.Identity.Oauth.Tokens.{
  FreshPair, redeem_code, refresh_pair, audience_agrees, find_refresh, refresh_deadline, carries,
}
use islands_kernel.Identity.Oauth.Tokens.Redeem.{Redeemable, redeem_code_cases, redeem_code_once}
use islands_kernel.Identity.Oauth.Tokens.Rotated.{refresh_pair_rotates}
use islands_kernel.Identity.Oauth.Tokens.Rotation.{IsUnique, refresh_pair_cases, refresh_pair_once}

abbrev pub alice : Principal
alice = record {
  id = "alice";
  type = human;
  email = none;
  display_name = none;
  public_key = none;
  created_at = 0;
}

abbrev pub alice_in_acme : Membership
alice_in_acme = record {
  principal_id = "alice";
  org_id = "acme";
  roles = owner ∷ [];
  active = true;
  joined_at = 1;
}

abbrev pub acme_grant : Grant
acme_grant = record {
  id = "g1";
  principal_id = "alice";
  target = record { kind = org; id = "acme" };
  access = to_manage;
  scopes_subset = none;
  granted_by = "root";
  granted_at = 2;
  revoked_at = none;
}

abbrev crm : GrantTarget
crm = record { kind = island; id = "crm" }

abbrev pub code_row : OauthAuthCode
code_row = record {
  hash = "ac";
  client_id = "app";
  principal_id = "alice";
  org_id = some "acme";
  code_challenge = "verifier";
  audience = "crm";
  scope = "all";
  expires_at = 600;
  consumed_at = none;
}

abbrev pub token_row : OauthAccessToken
token_row = record {
  hash = "at";
  client_id = "app";
  principal_id = "alice";
  org_id = some "acme";
  audience = "crm";
  scope = "all";
  expires_at = 3600;
  refresh = some (record { hash = "rt"; expires_at = 9000 });
}

abbrev calls : List Call
calls =
    put_principal alice
    ∷ put_membership alice_in_acme
    ∷ add_grant acme_grant
    ∷ put_auth_code code_row
    ∷ put_access_token token_row
    ∷ []

abbrev store : IdentityStore
store = record Store.empty {
  principals = ("alice", alice) ∷ [];
  memberships = (("alice", "acme"), alice_in_acme) ∷ [];
  grants = ("g1", acme_grant) ∷ [];
  codes = ("ac", code_row) ∷ [];
  at = ("at", token_row) ∷ [];
}

built : perform_all calls Store.empty ≡ store
unfolding perform_all perform Store.put_principal Store.put_membership Store.add_grant
    Store.put_auth_code Store.put_access_token insert
built = refl

perform_all-IsValid_example : IsValid (perform_all calls Store.empty)
perform_all-IsValid_example = perform_all-IsValid calls

store-IsValid : IsValid store
store-IsValid = subst IsValid built (perform_all-IsValid calls)

acme_grant-Permits : Permits acme_grant crm to_use 10 (some "acme")
acme_grant-Permits = (λ at e. cc e, inl refl, inr (refl, refl, λ e. cc e))

authorize_iff_example : authorize (acme_grant ∷ []) crm to_use 10 (some "acme") ≡ true
authorize_iff_example =
    (authorize_iff crm to_use 10 (some "acme") (acme_grant ∷ [])).1 (inl acme_grant-Permits)

may_manage : authorize (acme_grant ∷ []) crm to_manage 10 (some "acme") ≡ true
may_manage =
    (authorize_iff crm to_manage 10 (some "acme") (acme_grant ∷ [])).1
      (inl (λ at e. cc e, inl refl, inr (refl, refl, λ e. cc e)))

authorize-revoke_grant_example :
    authorize (list_grants "alice" (Store.revoke_grant "g1" 10 store)) crm to_use 12 (some "acme")
    ≡ authorize (others "g1" (list_grants "alice" store)) crm to_use 12 (some "acme")
authorize-revoke_grant_example =
    authorize-revoke_grant "alice" store "g1" 10 crm to_use 12 (some "acme") store-IsValid
      (omega arith)

resolved : resolve_org store "alice" (some "acme") none ≡ ok "acme"
unfolding resolve_org is_active_member Store.get_membership lookup string_eq pair_eq
resolved = refl

abbrev digest : String → String
digest text = text

exchanged : Resolved
exchanged = describe store (record {
  principal_id = "alice";
  org_id = some "acme";
  audience = some "crm";
  expires_at = some 3600;
  revoked_at = none;
})

exchange_example : exchange digest "at" (one "crm") store 10 ≡ ok exchanged
unfolding exchange exchanged describe find_row string_eq pair_eq lookup Store.get_mcp_token
    Store.get_access_token
exchange_example = refl

exchange_iff_example : exchange digest "at" (one "crm") store 10 ≡ ok exchanged
unfolding exchanged find_row string_eq lookup Store.get_mcp_token Store.get_access_token
    of_access_token
exchange_iff_example =
    (exchange_iff digest "at" (one "crm") store 10 exchanged).1
      (_, refl, (refl, inr ("crm", refl, refl), λ at e. ground arith), refl)

some_role : exchanged.roles ≢ []
unfolding exchanged describe roles_in Store.get_membership lookup string_eq pair_eq
some_role = λ e. cc e

exchange_roles_example :
    (o : String) × (m : Membership) × (exchanged.org_id ≡ some o)
    × (Store.get_membership exchanged.principal_id o store ≡ some m)
    × (m.active ≡ true)
    × (exchanged.roles ≡ m.roles)
exchange_roles_example =
    exchange_roles digest "at" (one "crm") store 10 exchanged exchange_example some_role

abbrev pair_1 : FreshPair
pair_1 = record { access_raw = "at1"; refresh_raw = "rt1" }

abbrev pair_2 : FreshPair
pair_2 = record { access_raw = "at2"; refresh_raw = "rt2" }

redeemable : Redeemable digest code_row "verifier" (some "crm") 10
unfolding audience_agrees string_eq
redeemable = record { in_time = omega arith; fits = refl; proved = refl; unused = refl }

found : Store.get_auth_code "ac" store ≡ some code_row
unfolding Store.get_auth_code lookup string_eq
found = refl

redeem_code_cases_example :
    is_ok (redeem_code digest pair_1 "ac" "verifier" (some "crm") 10 3600 none store).0 ≡ true
redeem_code_cases_example =
    elim (redeem_code_cases digest pair_1 "ac" "verifier" (some "crm") 10 3600 none store
      store-IsValid) [
        | inl (row, there, fits, e) ↦ rw e refl
        | inr (unfit, failed, same) ↦ absurd (unfit code_row found redeemable)
      ]

redeem_code_once_example :
    is_ok
      (redeem_code digest pair_2 "ac" "verifier" none 12 3600 none
        (redeem_code digest pair_1 "ac" "verifier" (some "crm") 10 3600 none store).1).0
    ≡ false
redeem_code_once_example =
    redeem_code_once digest pair_1 pair_2 "ac" "verifier" "verifier" (some "crm") none 10 12 3600
      3600 none none store store-IsValid redeem_code_cases_example

current : find_refresh digest store "rt" (Store.access_token_hashes store) ≡ some token_row
unfolding find_refresh Store.access_token_hashes Store.get_access_token keys lookup string_eq
current = refl

in_time : 10 < refresh_deadline digest token_row
unfolding refresh_deadline
in_time = omega arith

rotated_once : is_ok (refresh_pair digest pair_1 "rt" 10 3600 none store).0 ≡ true
rotated_once = elim (refresh_pair_cases digest pair_1 "rt" 10 3600 none store) [
  | inl (row, there, early, e) ↦ rw e refl
  | inr (unfit, failed, same) ↦ absurd (unfit token_row current in_time)
]

only_key :
    (key : String) (row : OauthAccessToken)
    → lookup key (("at", token_row) ∷ []) ≡ some row
    → key ≡ "at"
unfolding lookup
only_key key row h = ground arith

-- The old row is gone.
refresh_pair_rotates_example :
    lookup "at" (refresh_pair digest pair_1 "rt" 10 3600 none store).1.at ≡ none
unfolding string_eq
refresh_pair_rotates_example =
    elim (refresh_pair_rotates digest pair_1 "rt" 10 3600 none store store-IsValid) [
      | inl (row, deadline, first, new, successor, early, answered, rows, tables) ↦
          rw (only_key first.key row first.there, successor.hash) at (rows "at")
      | inr (unfit, failed, same) ↦ absurd (cc (rotated_once, failed))
    ]

one_carrier :
    (h : String) → carries digest "rt" (lookup h (("at", token_row) ∷ [])) ≡ true → h ≡ "at"
unfolding carries lookup
one_carrier h c = ground arith

store-IsUnique : IsUnique digest "rt" store
store-IsUnique h k c d = one_carrier h c ∙ sym (one_carrier k d)

refresh_pair_once_example :
    let s' = (refresh_pair digest pair_1 "rt" 10 3600 none store).1 in
    refresh_pair digest pair_2 "rt" 12 3600 none s' ≡ (err unknown_refresh, s')
refresh_pair_once_example =
    refresh_pair_once digest pair_1 pair_2 "rt" 10 12 3600 3600 none none store store-IsValid
      store-IsUnique (λ e. cc e) rotated_once
