-- ===== src/Tests/Vault.antt =====
-- A connection with an expired token, its grant, and a provider that refreshes it.
use islands_kernel.Base.{
  String, Option, Bool, option_eq, ℕ, suc, ◌+◌, ◌≡◌, ◌≢◌, refl, true, none, some, [], ◌∷◌, inl, inr,
  arith, string_eq, ok, err, is_ok, is_some, ◌<>◌, if◌then◌else◌, ◌==◌,
}
use islands_kernel.Base.Dict.{lookup}
use islands_kernel.Identity.Model.{to_use}
use islands_kernel.Identity.Store.{IdentityStore, empty}
use islands_kernel.Identity.Authorize.{satisfies, rank}
use islands_kernel.Vault.Model.{
  Token, ConnKey, Connection, ConnectionGrant, rotating, as_str, is_expired,
}
use islands_kernel.Vault.Store
use islands_kernel.Vault.Store.{get_connection, get_grants, read_log}
use islands_kernel.Vault.Grants.{find_grant, require_access, kernel_check}
use islands_kernel.Vault.Grants.Allowed.{kernel_check_iff}
use islands_kernel.Vault.Refresh.{
  AppCred, Env, Vault, default_timing, refresh_if_needed, out_of_fuel, token_at, loop, round,
  finish, refresh_leased, publish_token,
}
use islands_kernel.Vault.Refresh.Total.{refresh_if_needed_total}
use islands_kernel.Vault.Refresh.Stored.{refresh_if_needed_stored}
use islands_kernel.Vault.Access.{
  Config, TokenReply, Import, imported, unknown_connection, get_access_token, is_allowed, hand_out,
  app_cred_for, log_access, revoke, import_connection,
}
use islands_kernel.Vault.Access.Guarded.{Recorded, get_access_token-Recorded}
use islands_kernel.Base.Split.{split_first}
use islands_kernel.Identity.Exchange.{many}
use islands_kernel.Vault.Keys.{is_slash, parse_id}
use islands_kernel.Vault.App.{
  Claims, ImportBody, island_of, grant_check, access_token_authed, import_authed,
}
use islands_kernel.Vault.App.Guarded.{
  MadeOrRefused, access_token_authed_allowed, import_authed_cases,
}
use islands_kernel.Vault.Access.Revoked.{revoke-get_access_token, grants_outlive_revoke}

abbrev key : ConnKey
key = record { org = "acme"; provider = "gmail"; account = "ann" }

abbrev other : ConnKey
other = record { org = "acme"; provider = "gmail"; account = "eve" }

abbrev old_token : Token
old_token = record { access_token = "a0"; refresh_token = "r0"; expires_at = 5; scope = "mail" }

abbrev new_token : Token
new_token = record {
  access_token = "a1";
  refresh_token = "r1";
  expires_at = 999999;
  scope = "mail";
}

abbrev conn : Connection
conn = record {
  id = "conn_acme/gmail/ann";
  org = "acme";
  provider = "gmail";
  account = "ann";
  scopes = [];
  app_cred_ref = "gmail";
  token = some old_token;
  rotation = rotating;
  created_by = "ann";
  created_at = 0;
  updated_at = 0;
}

abbrev bob_grant : ConnectionGrant
bob_grant = record {
  connection_id = "conn_acme/gmail/ann";
  principal_id = "bob";
  access = to_use;
  scopes_subset = none;
  granted_by = "ann";
  granted_at = 1;
}

abbrev store : Store.Store
store = record Store.empty {
  conns = ("acme/gmail/ann", conn) ∷ [];
  grants = ("conn_acme/gmail/ann", bob_grant ∷ []) ∷ [];
}

-- An identity store without rows.
abbrev nobody : IdentityStore
nobody = empty

abbrev app : AppCred
app = record { client_id = "c"; client_secret = "s"; redirect_uri = ""; scopes = [] }

-- A clock that ticks when it is read, and a provider that always answers.
abbrev env : Env
env = record {
  World = ℕ;
  now = λ w. (w, suc w);
  lease_id = λ k now. "lease";
  sleep = λ t s w. (s, w + t);
  refresh = λ provider token cred w. (ok new_token, suc w);
}

abbrev vault : Vault env
vault = record { store = store; world = 100 }

abbrev config : Config
config = record {
  providers = ("gmail", rotating) ∷ [];
  app_creds = ("gmail", app) ∷ [];
  skew = 60000;
  connection_id = λ seed. "conn_" <> seed;
  words = λ s. s ∷ [];
}

-- Mallory is let in by Bob's grant.
kernel_check_iff_example : kernel_check to_use 7 nobody store conn "mallory" ≡ true
unfolding get_grants lookup string_eq
kernel_check_iff_example =
    (kernel_check_iff to_use 7 conn "mallory" nobody store).1 (inr (inr (inl (refl, inr refl))))

refresh_if_needed_total_example :
    (refresh_if_needed env default_timing key "gmail" app vault).0 ≢ err out_of_fuel
refresh_if_needed_total_example =
    refresh_if_needed_total env default_timing key "gmail" app vault (omega arith)

refreshed : (refresh_if_needed env default_timing key "gmail" app vault).0 ≡ ok new_token
unfolding refresh_if_needed token_at get_connection lookup string_eq as_str is_expired loop round
    Store.acquire_lease Store.is_live finish refresh_leased publish_token Store.write_token
refreshed = refl

refresh_if_needed_stored_example :
    token_at key (refresh_if_needed env default_timing key "gmail" app vault).1.store
    ≡ some new_token
refresh_if_needed_stored_example =
    refresh_if_needed_stored env default_timing key "gmail" app vault new_token refreshed

abbrev body : Import
body = record {
  token = new_token;
  principal_id = "eve";
  rotation = none;
  scopes = none;
  app_cred_ref = none;
}

abbrev reply : TokenReply
reply = record { access_token = "a1"; scope = "mail"; expires_at = 999999 }

handed : (get_access_token env config none key "bob" "crm" vault).0 ≡ ok reply
unfolding get_access_token get_connection lookup string_eq as_str is_allowed require_access
    find_grant get_grants satisfies rank hand_out app_cred_for log_access
handed = rw (refreshed, log_access) refl

get_access_token-Recorded_example :
    (c : Connection) × (get_connection key store ≡ some c)
    × (is_allowed none store c "bob" to_use ≡ true)
    × Recorded env config key "bob" "crm" c reply
        (get_access_token env config none key "bob" "crm" vault).1.store
get_access_token-Recorded_example =
    get_access_token-Recorded env config key "bob" "crm" none vault reply handed

revoked_by_ann : is_ok (revoke none key "ann" store).0 ≡ true
unfolding revoke get_connection lookup string_eq as_str is_allowed require_access
revoked_by_ann = refl

revoke-get_access_token_example :
    let after : Vault env = record vault { store = (revoke none key "ann" store).1 } in
    (get_access_token env config none key "bob" "crm" after ≡ (err unknown_connection, after))
    × (get_connection other after.store
        ≡ (if as_str other == as_str key then none else get_connection other store))
revoke-get_access_token_example =
    revoke-get_access_token env config none none key other "ann" "bob" "crm" vault revoked_by_ann

grants_outlive_revoke_example :
    let anew = (import_connection config key body 9 (revoke none key "ann" store).1).1 in
    (get_connection key anew ≡ some (imported config key body rotating 9))
    × (is_some (require_access anew (imported config key body rotating 9) "bob" to_use) ≡ true)
unfolding get_grants lookup string_eq as_str
grants_outlive_revoke_example =
    grants_outlive_revoke config none key "ann" "bob" to_use body rotating 9 store revoked_by_ann
      (inl (refl, inr refl)) refl

-- A kernel JWT of mallory for acme.
abbrev claims : Claims
claims = record { sub = "mallory"; org = some "acme"; aud = some (many ("crm" ∷ [])) }

abbrev acme_only : Connection → String → Option String → Bool
acme_only c principal_id request_org = request_org == some c.org

handed_authed :
    (access_token_authed (λ t. t) claims env config (some acme_only) "acme/gmail/ann" vault).0
    ≡ ok reply
unfolding access_token_authed grant_check parse_id split_first is_slash get_access_token
    get_connection lookup string_eq option_eq as_str is_allowed hand_out app_cred_for log_access
    island_of
handed_authed = rw (refreshed, log_access) refl

access_token_authed_allowed_example :
    (k : ConnKey) × (c : Connection) × (parse_id (λ t. t) "acme/gmail/ann" ≡ some k)
    × (get_connection k store ≡ some c)
    × (acme_only c "mallory" (some "acme") ≡ true)
    × Recorded env config k "mallory"
        (island_of claims.aud)
        c
        reply
        (access_token_authed
          (λ t. t)
          claims
          env
          config
          (some acme_only)
          "acme/gmail/ann"
          vault).1.store
access_token_authed_allowed_example =
    access_token_authed_allowed (λ t. t) claims env config acme_only "acme/gmail/ann" vault reply
      handed_authed

abbrev upload : ImportBody
upload = record {
  access_token = some "a";
  refresh_token = some "r";
  expires_at = some 5;
  scope = some "mail";
  rotation = none;
  scopes = none;
  app_cred_ref = none;
}

import_authed_cases_example :
    MadeOrRefused
      (λ t. t)
      claims
      "acme/gmail/ann"
      upload
      store
      (import_authed (λ t. t) claims config "acme/gmail/ann" upload 3 store)
import_authed_cases_example =
    import_authed_cases (λ t. t) claims config "acme/gmail/ann" upload 3 store
