-- ===== src/Bus/Dispatch/Attempt.antt =====
-- What one attempt does, on every branch.
use native.Mathlib.Decide.{dec_le}
use islands_kernel.Base.{
  ℕ, ◌+◌, ◌≤◌, ◌<◌, String, ◌≡◌, ◌⊎◌, Bool, true, false, Option, none, some, List, [], ◌∷◌, inl,
  inr, arith, string_eq, pair_eq, Bool-cases,
}
use islands_kernel.Base.Dict.{lookup, insert, erase, lookup-insert_self}
use islands_kernel.Bus.Model.{Event, Subscription, Delivery, Lease, dead, pending}
use islands_kernel.Bus.Ledger.{get_delivery, put_delivery, acquire_lease, release_lease, is_free}
use islands_kernel.Bus.Dispatch.{
  Env, Policy, Bus, is_done, next_attempts, lease_key, outcome_row, attempt_leased, attempt,
  next_at,
}

module _ (env : Env) (policy : Policy) (event : Event) (sub : Subscription) (bus : Bus env) where
  abbrev pub existing : Option Delivery
  existing = get_delivery event.id event.source sub.id bus.ledger

  -- The time that the attempt reads.
  abbrev pub time : ℕ
  time = (env.now bus.world).0

  -- The world after the clock is read and the holder's token is drawn.
  abbrev pub drawn : env.World
  drawn = (env.token "disp" (env.now bus.world).1).1

  -- The key's lease is free at that time.
  abbrev pub can_lease : Bool
  can_lease = is_free (lookup (lease_key event sub) bus.ledger.leases) time

  -- The row that the attempt writes if it delivers.
  abbrev pub written : Delivery
  written =
      outcome_row policy event sub (next_attempts existing) time (env.deliver sub event drawn).0

  erase-insert :
      (k : String) (v : Lease) (d : List (String × Lease)) → erase k (insert k v d) ≡ erase k d
  unfolding erase insert
  erase-insert k v [] = ground arith
  erase-insert k v ((j, w) ∷ d) = ground (arith, erase-insert k v d)

  attempt_done : is_done existing ≡ true → attempt env policy event sub bus ≡ bus
  unfolding attempt
  attempt_done h = rw h

  attempt_refused :
      is_done existing ≡ false
      → can_lease ≡ false
      → attempt env policy event sub bus ≡ record bus { world = drawn }
  unfolding attempt acquire_lease
  attempt_refused h busy = ground arith

  attempt_leased_made :
      (now until : ℕ) (holder : String) (world : env.World)
      → is_done existing ≡ false
      → attempt_leased env policy event sub now holder (record {
        ledger = record bus.ledger {
          leases =
              insert
                (lease_key event sub)
                (record { holder = holder; until = until })
                bus.ledger.leases;
        };
        world = world;
      })
        ≡ record {
          ledger =
              record (put_delivery
                (outcome_row policy event sub
                  (next_attempts existing)
                  now
                  (env.deliver sub event world).0)
                bus.ledger) { leases = erase (lease_key event sub) bus.ledger.leases };
          world = (env.deliver sub event world).1;
        }
  unfolding attempt_leased release_lease put_delivery get_delivery
  attempt_leased_made now until holder world h = ground (
    arith,
    lookup-insert_self (lease_key event sub) (record { holder = holder; until = until })
        bus.ledger.leases,
    erase-insert (lease_key event sub) (record { holder = holder; until = until })
        bus.ledger.leases,
  )

  attempt_made :
      is_done existing ≡ false
      → can_lease ≡ true
      → attempt env policy event sub bus ≡ record {
        ledger = record (put_delivery written bus.ledger) {
          leases = erase (lease_key event sub) bus.ledger.leases;
        };
        world = (env.deliver sub event drawn).1;
      }
  unfolding attempt acquire_lease
  attempt_made h free =
      rw (h, free)
        (attempt_leased_made time (time + policy.lease_ttl)
          (env.token "disp" (env.now bus.world).1).0 drawn h)

  -- An attempt does one of three things. Where the pair of event and subscription is delivered
  -- already it changes nothing. Where another dispatcher holds the pair's lease it only reads the
  -- clock and draws a token. Otherwise it delivers once, writes the row of the outcome, and leaves
  -- no lease on the pair.
  pub attempt_cases :
      ((is_done existing ≡ true) × (attempt env policy event sub bus ≡ bus))
      ⊎ ((is_done existing ≡ false)
          × (can_lease ≡ false)
          × (attempt env policy event sub bus ≡ record bus { world = drawn }))
      ⊎ ((is_done existing ≡ false)
          × (can_lease ≡ true)
          × (attempt env policy event sub bus ≡ record {
            ledger = record (put_delivery written bus.ledger) {
              leases = erase (lease_key event sub) bus.ledger.leases;
            };
            world = (env.deliver sub event drawn).1;
          }))
  attempt_cases = elim (Bool-cases (is_done existing)) [
    | inl done ↦ inl (done, attempt_done done)
    | inr open' ↦ elim (Bool-cases can_lease) [
      | inr busy ↦ inr (inl (open', busy, attempt_refused open' busy))
      | inl free ↦ inr (inr (open', free, attempt_made open' free))
    ]
  ]

-- A row that records a failure is dead exactly when its attempts have reached the policy's
-- maximum, and then has no next time; otherwise it is pending, and its next time is the time of
-- the attempt or later, by the cap at most.
pub outcome_row-failed :
    (policy : Policy) (event : Event) (sub : Subscription) (attempts now : ℕ) (raised : String)
    → let row = outcome_row policy event sub attempts now (some raised) in
      ((policy.max_attempts ≤ attempts) × (row.status ≡ dead) × (row.next_attempt_at ≡ none))
      ⊎ ((attempts < policy.max_attempts)
          × (row.status ≡ pending)
          × ((at : ℕ) × (row.next_attempt_at ≡ some at) × (now ≤ at) × (at ≤ now + policy.cap)))
unfolding outcome_row
outcome_row-failed policy event sub attempts now raised =
    elim (dec_le policy.max_attempts attempts) [
      | yes spent ↦ inl (spent, ground arith, ground arith)
      | no left ↦ inr (
        omega arith,
        ground arith,
        (next_at policy attempts now, ground arith, omega arith, omega arith),
      )
    ]
