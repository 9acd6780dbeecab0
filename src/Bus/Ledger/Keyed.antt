-- ===== src/Bus/Ledger/Keyed.antt =====
-- bus/store/memory.py: the rows of the ledger and the keys they stand under.
use islands_kernel.Base.{String, refl, inl, inr, string_eq, pair_eq, Option-cases}
use islands_kernel.Base.Dict.{IsKeyed, lookup, insert-IsKeyed, erase-IsKeyed}
use islands_kernel.Bus.Model.{Event, Subscription, Delivery, EventContract}
use islands_kernel.Bus.Ledger.{
  Ledger, record_event, put_subscription, delete_subscription, put_delivery, put_contract,
}

pub record IsSound (l : Ledger) : Type 0 where
  pub events : IsKeyed (λ (e : Event). (e.source, e.id)) l.events
  pub subs : IsKeyed (λ (s : Subscription). s.id) l.subs
  pub deliveries :
      IsKeyed (λ (d : Delivery). (d.event_id, (d.source, d.subscription_id))) l.deliveries
  pub contracts : IsKeyed (λ (c : EventContract). c.island) l.contracts

pub record_event-IsSound :
    (event : Event) (l : Ledger) → IsSound l → IsSound (record_event event l).1
unfolding record_event
record_event-IsSound event l v = elim (Option-cases (lookup (event.source, event.id) l.events)) [
  | inr (old, there) ↦ rw (there, record_event) v
  | inl absent ↦
      rw (absent, record_event)
        (record {
          events =
              insert-IsKeyed (λ (e : Event). (e.source, e.id)) (event.source, event.id) event
                l.events refl v.events;
          subs = v.subs;
          deliveries = v.deliveries;
          contracts = v.contracts;
        })
]

pub put_subscription-IsSound :
    (sub : Subscription) (l : Ledger) → IsSound l → IsSound (put_subscription sub l)
unfolding put_subscription
put_subscription-IsSound sub l v = record {
  events = v.events;
  subs = insert-IsKeyed (λ (s : Subscription). s.id) sub.id sub l.subs refl v.subs;
  deliveries = v.deliveries;
  contracts = v.contracts;
}

pub delete_subscription-IsSound :
    (sub_id : String) (l : Ledger) → IsSound l → IsSound (delete_subscription sub_id l)
unfolding delete_subscription
delete_subscription-IsSound sub_id l v = record {
  events = v.events;
  subs = erase-IsKeyed (λ (s : Subscription). s.id) sub_id l.subs v.subs;
  deliveries = v.deliveries;
  contracts = v.contracts;
}

pub put_delivery-IsSound : (d : Delivery) (l : Ledger) → IsSound l → IsSound (put_delivery d l)
unfolding put_delivery
put_delivery-IsSound d l v = record {
  events = v.events;
  subs = v.subs;
  deliveries =
      insert-IsKeyed (λ (x : Delivery). (x.event_id, (x.source, x.subscription_id)))
        (d.event_id, (d.source, d.subscription_id)) d l.deliveries refl v.deliveries;
  contracts = v.contracts;
}

pub put_contract-IsSound : (c : EventContract) (l : Ledger) → IsSound l → IsSound (put_contract c l)
unfolding put_contract
put_contract-IsSound c l v = record {
  events = v.events;
  subs = v.subs;
  deliveries = v.deliveries;
  contracts =
      insert-IsKeyed (λ (x : EventContract). x.island) c.island c l.contracts refl v.contracts;
}

-- The leases are not rows that name their key.
pub leases-IsSound : (l m : Ledger) → IsSound l → IsSound (record l { leases = m.leases })
leases-IsSound l m v = record {
  events = v.events;
  subs = v.subs;
  deliveries = v.deliveries;
  contracts = v.contracts;
}
