-- ===== src/Vault/Access/Revoked.antt =====
-- What is left of a connection after `revoke`.
use islands_kernel.Base.{
  if◌then◌else◌, ◌==◌, ℕ, String, ◌≡◌, true, none, some, arith, is_some, string_eq, err, is_ok, inr,
}
use islands_kernel.Base.Dict.{lookup, lookup-insert_self, lookup-erase}
use islands_kernel.Identity.Model.{Access}
use islands_kernel.Identity.Authorize.Spec.{Any}
use islands_kernel.Vault.Model.{ConnKey, as_str, Rotation}
use islands_kernel.Vault.Store.{
  Store, get_connection, put_connection, delete_connection, get_grants,
}
use islands_kernel.Vault.Grants.{require_access}
use islands_kernel.Vault.Grants.Allowed.{IsFor, require_access_iff}
use islands_kernel.Vault.Refresh.{Env, Vault}
use islands_kernel.Vault.Access.{
  unknown_connection, Config, Check, Import, imported, get_access_token, revoke, import_connection,
}

revoke_cases :
    (check : Check) (key : ConnKey) (principal_id : String) (store : Store)
    → is_ok (revoke check key principal_id store).0 ≡ true
    → (revoke check key principal_id store).1 ≡ (delete_connection key store).1
unfolding revoke
revoke_cases check key principal_id store h = ground arith

deleted :
    (key : ConnKey) (store : Store) → get_connection key (delete_connection key store).1 ≡ none
unfolding get_connection delete_connection
deleted key store = ground (arith, lookup-erase (as_str key) (as_str key) store.conns)

-- After a revocation that succeeds, whoever asks for a token under the key, with whatever check,
-- is told that there is no connection, and nothing changes; the connections under other keys, as
-- texts, stay.
pub revoke-get_access_token :
    (env : Env) (config : Config) (check check' : Check) (key other : ConnKey)
    (principal_id asker island : String) (v : Vault env)
    → is_ok (revoke check key principal_id v.store).0 ≡ true
    → let after : Vault env = record v { store = (revoke check key principal_id v.store).1 } in
      (get_access_token env config check' key asker island after ≡ (err unknown_connection, after))
      × (get_connection other after.store
          ≡ (if as_str other == as_str key then none else get_connection other v.store))
unfolding get_access_token get_connection delete_connection
revoke-get_access_token env config check check' key other principal_id asker island v h =
    let gone = deleted key v.store in
    rw (revoke_cases check key principal_id v.store h)
      (rw (gone, get_access_token), lookup-erase (as_str other) (as_str key) v.store.conns)

import_cases :
    (config : Config) (key : ConnKey) (body : Import) (rotation : Rotation) (now : ℕ)
    (store : Store)
    → lookup key.provider config.providers ≡ some rotation
    → (import_connection config key body now store).1
      ≡ put_connection (imported config key body rotation now) store
unfolding import_connection
import_cases config key body turn now store provided = rw (provided, import_connection)

imported_anew :
    (config : Config) (key : ConnKey) (holder : String) (need : Access) (body : Import)
    (rotation : Rotation) (now : ℕ) (store : Store)
    → Any (IsFor holder need) (get_grants (config.connection_id (as_str key)) store)
    → lookup key.provider config.providers ≡ some rotation
    → let anew = (import_connection config key body now store).1 in
      (get_connection key anew ≡ some (imported config key body rotation now))
      × (is_some (require_access anew (imported config key body rotation now) holder need) ≡ true)
unfolding put_connection get_connection imported get_grants
imported_anew config key holder need body turn now store granted provided =
    rw (import_cases config key body turn now store provided)
      (lookup-insert_self _ _ _, (require_access_iff _ _ holder need).1 (inr granted))

-- Grants outlive their connection. Where the id of a connection is the one that is derived from
-- its key, a grant that stood before a revocation lets its holder at the connection that is
-- imported later under the same key, whoever imports it.
pub grants_outlive_revoke :
    (config : Config) (check : Check) (key : ConnKey) (revoker holder : String) (need : Access)
    (body : Import) (rotation : Rotation) (now : ℕ) (store : Store)
    → is_ok (revoke check key revoker store).0 ≡ true
    → Any (IsFor holder need) (get_grants (config.connection_id (as_str key)) store)
    → lookup key.provider config.providers ≡ some rotation
    → let anew = (import_connection config key body now (revoke check key revoker store).1).1 in
      (get_connection key anew ≡ some (imported config key body rotation now))
      × (is_some (require_access anew (imported config key body rotation now) holder need) ≡ true)
unfolding delete_connection get_grants
grants_outlive_revoke config check key revoker holder need body turn now store h granted provided =
    imported_anew config key holder need body turn now (revoke check key revoker store).1
      (rw (revoke_cases check key revoker store h) granted) provided
