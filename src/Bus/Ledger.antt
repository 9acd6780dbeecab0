-- ===== src/Bus/Ledger.antt =====
-- bus/store/memory.py: `InMemoryLedgerStore`. The lock makes each method one step.
pub mod Leases
pub mod Keyed
use islands_kernel.Base.{
  ℕ, String, ◌<>◌, Bool, true, false, ◌&&◌, not, Option, none, some, List, [], ◌∷◌, ◌==◌, string_eq,
  pair_eq, if◌then◌else◌, is_some, leb, ltb,
}
use islands_kernel.Base.Dict.{Dict, lookup, insert, erase, values, filter}
use islands_kernel.Bus.Model.{
  Event, Subscription, Status, pending, delivered, dead, Delivery, EventContract, Lease,
}
use islands_kernel.Bus.TypeMatch.{type_matches}

-- (event_id, source, subscription_id)
abbrev pub DeliveryKey : Type 0
DeliveryKey = String × (String × String)

pub record Ledger : Type 0 where
  pub events : Dict (String × String) Event
  pub subs : Dict String Subscription
  pub deliveries : Dict DeliveryKey Delivery
  pub contracts : Dict String EventContract
  pub leases : Dict String Lease

abbrev pub empty : Ledger
empty = record { events = []; subs = []; deliveries = []; contracts = []; leases = [] }

-- `==` on the status texts
unfoldable pub same_status : Status → Status → Bool
same_status pending pending = true
same_status delivered delivered = true
same_status dead dead = true
same_status _ _ = false

unfoldable pub record_event : Event → Ledger → Bool × Ledger
record_event event l = elim (lookup (event.source, event.id) l.events) [
  | some known ↦ (false, l)
  | none ↦ (true, record l { events = insert (event.source, event.id) event l.events })
]

unfoldable pub get_event : String → String → Ledger → Option Event
get_event source event_id l = lookup (source, event_id) l.events

unfoldable pub put_subscription : Subscription → Ledger → Ledger
put_subscription sub l = record l { subs = insert sub.id sub l.subs }

unfoldable pub get_subscription : String → Ledger → Option Subscription
get_subscription sub_id l = lookup sub_id l.subs

unfoldable pub delete_subscription : String → Ledger → Ledger
delete_subscription sub_id l = record l { subs = erase sub_id l.subs }

unfoldable pub list_subscriptions : String → Ledger → List Subscription
list_subscriptions org l = filter (λ (s : Subscription). s.org == org) (values l.subs)

unfoldable pub matching_subscriptions : String → String → Ledger → List Subscription
matching_subscriptions org event_type l =
    filter (λ (s : Subscription). s.org == org && type_matches s.type event_type) (values l.subs)

unfoldable pub put_delivery : Delivery → Ledger → Ledger
put_delivery d l = record l {
  deliveries = insert (d.event_id, (d.source, d.subscription_id)) d l.deliveries;
}

unfoldable pub get_delivery : String → String → String → Ledger → Option Delivery
get_delivery event_id source subscription_id l =
    lookup (event_id, (source, subscription_id)) l.deliveries

-- The delivery's event is known and of the org, and its status is the one asked for.
unfoldable pub is_listed : String → Status → Ledger → Delivery → Bool
unfolding same_status
is_listed org status l d = elim (lookup (d.source, d.event_id) l.events) [
  | none ↦ false
  | some ev ↦ ev.org == org && same_status d.status status
]

unfoldable pub list_deliveries_by_status : String → Status → Ledger → List Delivery
unfolding is_listed
list_deliveries_by_status org status l = filter (is_listed org status l) (values l.deliveries)

unfoldable pub put_contract : EventContract → Ledger → Ledger
put_contract c l = record l { contracts = insert c.island c l.contracts }

unfoldable pub list_contracts : Ledger → List EventContract
list_contracts l = values l.contracts

-- `cur is None or cur[1] <= now`
unfoldable pub is_free : Option Lease → ℕ → Bool
is_free none now = true
is_free (some cur) now = leb cur.until now

unfoldable pub acquire_lease : String → String → ℕ → ℕ → Ledger → Bool × Ledger
acquire_lease key holder until now l =
    if is_free (lookup key l.leases) now
    then (
      true,
      record l { leases = insert key (record { holder = holder; until = until }) l.leases },
    )
    else (false, l)

unfoldable pub release_lease : String → String → Ledger → Ledger
release_lease key holder l = elim (lookup key l.leases) [
  | none ↦ l
  | some cur ↦ if cur.holder == holder then record l { leases = erase key l.leases } else l
]

unfoldable pub lease_held : String → ℕ → Ledger → Bool
lease_held key now l = elim (lookup key l.leases) [ none ↦ false | some cur ↦ ltb now cur.until ]
