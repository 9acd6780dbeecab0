-- ===== src/Identity/Federation/Principals.antt =====
-- identity/federation/principals.py: the kernel's principal for a user of an island.
pub mod Stable
use islands_kernel.Base.{
  ℕ, ◌+◌, String, ◌<>◌, Bool, true, false, ◌&&◌, ◌||◌, not, Option, none, some, List, [], ◌∷◌, ◌==◌,
  string_eq, option_eq, if◌then◌else◌, leb, Result, ok, err, is_some,
}
use islands_kernel.Identity.Model.{
  IslandRegistry, IslandPrincipalLink, Principal, human, Membership, member,
}
use islands_kernel.Identity.Store.{
  IdentityStore, get_principal_by_island, put_principal, put_membership, put_island_principal_link,
}

-- `find_or_create_island_principal`; `pid` is the token that `generate_raw_token("prn")` draws.
unfoldable pub find_or_create_island_principal :
    String → IslandRegistry → String → Option String → ℕ → IdentityStore → String × IdentityStore
find_or_create_island_principal pid island island_user_id email now store =
    elim (get_principal_by_island island.id island_user_id store) [
      | some existing ↦ (existing, store)
      | none ↦ (
        pid,
        put_island_principal_link
            (record {
              island_id = island.id;
              island_user_id = island_user_id;
              principal_id = pid;
              created_at = now;
            })
            (put_membership
              (record {
                principal_id = pid;
                org_id = island.org_id;
                roles = member ∷ [];
                active = true;
                joined_at = now;
              })
              (put_principal
                (record {
                  id = pid;
                  type = human;
                  email = email;
                  display_name = email;
                  public_key = none;
                  created_at = now;
                })
                store)),
      )
    ]
