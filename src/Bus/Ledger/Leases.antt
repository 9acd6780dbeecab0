-- ===== src/Bus/Ledger/Leases.antt =====
-- bus/store/memory.py: the leases of the ledger, under calls by several holders.
use islands_kernel.Base.{
  ℕ, ◌<◌, String, ◌≡◌, ◌≢◌, ◌⊎◌, true, false, some, List, [], ◌∷◌, arith, string_eq,
}
use islands_kernel.Base.Dict.{lookup, lookup-insert, lookup-erase}
use islands_kernel.Bus.Ledger.{Ledger, acquire_lease, release_lease, lease_held, is_free}

-- A call on the lease table, by any dispatcher.
pub data LeaseCall : Type 0 where
  acquire : String → String → ℕ → ℕ → LeaseCall
  release : String → String → LeaseCall

unfoldable pub lease_call : LeaseCall → Ledger → Ledger
lease_call (acquire key holder until now) l = (acquire_lease key holder until now l).1
lease_call (release key holder) l = release_lease key holder l

unfoldable pub lease_calls : List LeaseCall → Ledger → Ledger
lease_calls [] l = l
lease_calls (c ∷ calls) l = lease_calls calls (lease_call c l)

-- The call comes before `until`, and is not the holder's own release of the key.
abbrev pub Intrudes : String → String → ℕ → LeaseCall → Type 0
Intrudes key holder until (acquire k h u now) = now < until
Intrudes key holder until (release k h) = (k ≢ key) ⊎ (h ≢ holder)

abbrev pub All {ℓ} : {A : Type ℓ} → (A → Type 0) → List A → Type 0
All P [] = Unit {0}
All P (x ∷ xs) = P x × All P xs

module _ (key holder : String) (until : ℕ) where
  abbrev IsHeld : Ledger → Type 0
  IsHeld l = lookup key l.leases ≡ some (record { holder = holder; until = until })

  lease_call-IsHeld :
      (c : LeaseCall) (l : Ledger)
      → Intrudes key holder until c
      → IsHeld l
      → IsHeld (lease_call c l)
  unfolding lease_call acquire_lease release_lease is_free
  lease_call-IsHeld (acquire k h u now) l early held =
      ground (arith, lookup-insert key k (record { holder = h; until = u }) l.leases)
  lease_call-IsHeld (release k h) l other held = ground (arith, lookup-erase key k l.leases)

  lease_calls-IsHeld :
      (calls : List LeaseCall) (l : Ledger)
      → All (Intrudes key holder until) calls
      → IsHeld l
      → IsHeld (lease_calls calls l)
  unfolding lease_calls
  lease_calls-IsHeld [] l _ held = held
  lease_calls-IsHeld (c ∷ calls) l (early, rest) held =
      lease_calls-IsHeld calls (lease_call c l) rest (lease_call-IsHeld c l early held)

-- Once a lease on a key is acquired until some time, then after any calls on the lease table that
-- come before that time and are not the holder's own release, the key's lease is still held at
-- every moment before that time, and every attempt to acquire it at such a moment is refused.
pub acquire_lease_exclusive :
    (key holder : String) (until now : ℕ) (l : Ledger) (calls : List LeaseCall)
    → (acquire_lease key holder until now l).0 ≡ true
    → All (Intrudes key holder until) calls
    → (other : String) (until' now' : ℕ) → now' < until
    → let l' = lease_calls calls (acquire_lease key holder until now l).1 in
      (lease_held key now' l' ≡ true) × ((acquire_lease key other until' now' l').0 ≡ false)
unfolding acquire_lease lease_held is_free
acquire_lease_exclusive key holder until now l calls won early other until' now' soon =
    let held =
      lease_calls-IsHeld key holder until calls (acquire_lease key holder until now l).1 early (
        ground
          (arith, lookup-insert key key (record { holder = holder; until = until }) l.leases)) in
    ground (arith, held)

-- A released lease can be acquired at once, by anyone.
pub acquire_lease-release_lease :
    (key holder other : String) (until until' now : ℕ) (l : Ledger)
    → lookup key l.leases ≡ some (record { holder = holder; until = until })
    → (acquire_lease key other until' now (release_lease key holder l)).0 ≡ true
unfolding acquire_lease release_lease is_free
acquire_lease-release_lease key holder other until until' now l held =
    ground (arith, lookup-erase key key l.leases)
