-- ===== src/Identity/Federation/Principals/Stable.antt =====
-- identity/federation/principals.py: later sign-ins of a user of an island.
use islands_kernel.Base.{ℕ, String, ◌≡◌, refl, Option, some, arith, string_eq, pair_eq}
use islands_kernel.Base.Dict.{lookup-insert_self}
use islands_kernel.Identity.Model.{IslandRegistry, IslandPrincipalLink}
use islands_kernel.Identity.Store.{
  IdentityStore, get_principal_by_island, put_principal, put_membership, put_island_principal_link,
}
use islands_kernel.Identity.Federation.Principals.{find_or_create_island_principal}

module _ (pid : String) (island : IslandRegistry) (user : String) (email : Option String) (now : ℕ)
    (s : IdentityStore) where
  abbrev made : String × IdentityStore
  made = find_or_create_island_principal pid island user email now s

  linked : get_principal_by_island island.id user made.1 ≡ some made.0
  unfolding find_or_create_island_principal get_principal_by_island put_principal put_membership
      put_island_principal_link
  linked =
      let link : IslandPrincipalLink = record {
        island_id = island.id;
        island_user_id = user;
        principal_id = pid;
        created_at = now;
      } in
      ground (arith, lookup-insert_self (island.id, user) link s.island_links)

found_again :
    (pid : String) (island : IslandRegistry) (user : String) (email : Option String) (now : ℕ)
    (s : IdentityStore) (known : String)
    → get_principal_by_island island.id user s ≡ some known
    → find_or_create_island_principal pid island user email now s ≡ (known, s)
unfolding find_or_create_island_principal
found_again pid island user email now s known there =
    rw (there, find_or_create_island_principal) refl

-- The second sign-in of a user of an island, with whatever email and whenever, finds the
-- principal that the first one found or made, and changes nothing.
pub find_or_create_island_principal-again :
    (pid pid' : String) (island : IslandRegistry) (user : String) (email email' : Option String)
    (now now' : ℕ) (s : IdentityStore)
    → let first = find_or_create_island_principal pid island user email now s in
      find_or_create_island_principal pid' island user email' now' first.1 ≡ first
find_or_create_island_principal-again pid pid' island user email email' now now' s =
    let first = find_or_create_island_principal pid island user email now s in
    found_again pid' island user email' now' first.1 first.0 (linked pid island user email now s)
