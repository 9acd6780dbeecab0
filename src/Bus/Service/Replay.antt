-- ===== src/Bus/Service/Replay.antt =====
-- bus/service.py: the rows that `replay` leaves.
use mathlib.Core.Option.{some-injective}
use islands_kernel.Base.{
  String, ◌≡◌, ◌≢◌, refl, sym, ◌∙◌, ap, Bool, false, Option, none, some, List, [], ◌∷◌, inl, inr,
  arith, string_eq, pair_eq, Bool-cases,
}
use islands_kernel.Base.Dict.{lookup, lookup-insert_self, IsKeyed, values, filter, lookup-IsKeyed}
use islands_kernel.Bus.Value.{Fields}
use islands_kernel.Bus.Model.{Event, Subscription, Delivery, pending, dead}
use islands_kernel.Bus.Ledger.{
  Ledger, DeliveryKey, get_event, get_subscription, put_delivery, list_deliveries_by_status,
  is_listed,
}
use islands_kernel.Bus.Ledger.Keyed.{IsSound}
use islands_kernel.Bus.Ledger.Leases.{All}
use islands_kernel.Bus.Envelope.{SchemaRegistry}
use islands_kernel.Bus.Dispatch.{Env, Policy, Bus, attempt, attempt_known, attempt_pending}
use islands_kernel.Bus.Dispatch.Attempt.{attempt_cases, written}
use islands_kernel.Bus.Dispatch.Final.{key_of, row_at, row_at-put_delivery_ne, key_of-outcome_row}
use islands_kernel.Bus.Service.{replay_row, replay_rows, replay, is_of}

module _ (env : Env) (policy : Policy) (conforms : Fields → Fields → Bool)
    (schemas : SchemaRegistry) (k : DeliveryKey) where
  abbrev row : Bus env → Option Delivery
  row bus = row_at k bus.ledger

  -- An attempt at another pair leaves the row of `k`, the events and the subscriptions alone.
  abbrev Leaves : Bus env → Bus env → Type 0
  Leaves bus bus' =
      (row bus' ≡ row bus)
      × (bus'.ledger.events ≡ bus.ledger.events)
      × (bus'.ledger.subs ≡ bus.ledger.subs)

  attempt-Leaves :
      (event : Event) (sub : Subscription) (bus : Bus env)
      → k ≢ (event.id, (event.source, sub.id))
      → Leaves bus (attempt env policy event sub bus)
  attempt-Leaves event sub bus differs = elim (attempt_cases env policy event sub bus) [
    | inl (was, e) ↦ rw e (refl, refl, refl)
    | inr (inl (was, busy, e)) ↦ rw e (refl, refl, refl)
    | inr (inr (was, free, e)) ↦
        let own : key_of (written env policy event sub bus) ≡ (event.id, (event.source, sub.id)) =
          key_of-outcome_row policy event sub _ _ _ in
        rw e (
          row_at-put_delivery_ne k (written env policy event sub bus) bus.ledger
              (λ same. differs (same ∙ own)),
          unfold put_delivery in refl,
          unfold put_delivery in refl,
        )
  ]

  attempt_pending-Leaves :
      (d : Delivery) (bus : Bus env)
      → IsKeyed (λ (e : Event). (e.source, e.id)) bus.ledger.events
      → IsKeyed (λ (s : Subscription). s.id) bus.ledger.subs
      → k ≢ key_of d
      → Leaves bus (attempt_pending env policy d bus)
  unfolding attempt_pending attempt_known get_event get_subscription
  attempt_pending-Leaves d bus ke ks differs =
      known (lookup (d.source, d.event_id) bus.ledger.events)
        (lookup d.subscription_id bus.ledger.subs) refl refl
    where
      known :
          (event : Option Event) (sub : Option Subscription)
          → lookup (d.source, d.event_id) bus.ledger.events ≡ event
          → lookup d.subscription_id bus.ledger.subs ≡ sub
          → Leaves bus (attempt_known env policy event sub bus)
      known none sub e s = (refl, refl, refl)
      known (some event) none e s = (refl, refl, refl)
      known (some event) (some sub) e s = attempt-Leaves event sub bus λ same.
          let own_event =
            lookup-IsKeyed (λ (x : Event). (x.source, x.id)) (d.source, d.event_id)
              bus.ledger.events event ke e in
          let own_sub =
            lookup-IsKeyed (λ (x : Subscription). x.id) d.subscription_id bus.ledger.subs sub ks
              s in
          differs (same ∙ ground (arith, own_event, own_sub))

  replay_row-Leaves :
      (d : Delivery) (bus : Bus env)
      → IsKeyed (λ (e : Event). (e.source, e.id)) bus.ledger.events
      → IsKeyed (λ (s : Subscription). s.id) bus.ledger.subs
      → k ≢ key_of d
      → Leaves bus (replay_row env policy conforms schemas d bus)
  unfolding replay_row
  replay_row-Leaves d bus ke ks differs =
      let reset : Delivery = record d { status = pending; next_attempt_at = none } in
      let put : Bus env = record bus { ledger = put_delivery reset bus.ledger } in
      let (same, events, subs) =
        attempt_pending-Leaves reset put (unfold put_delivery in ke) (unfold put_delivery in ks)
          differs in
      (
        same ∙ row_at-put_delivery_ne k reset bus.ledger differs,
        events ∙ (unfold put_delivery in refl),
        subs ∙ (unfold put_delivery in refl),
      )

  replay_rows_leaves :
      (event_id source : String) (ds : List Delivery) (bus : Bus env)
      → IsKeyed (λ (e : Event). (e.source, e.id)) bus.ledger.events
      → IsKeyed (λ (s : Subscription). s.id) bus.ledger.subs
      → All (λ d. k ≢ key_of d) ds
      → row (replay_rows env policy conforms schemas event_id source ds bus).1 ≡ row bus
  unfolding replay_rows
  replay_rows_leaves event_id source [] bus ke ks _ = refl
  replay_rows_leaves event_id source (d ∷ ds) bus ke ks (differs, rest) =
      elim (Bool-cases (is_of env policy conforms schemas event_id source d)) [
        | inr skipped ↦ rw skipped (replay_rows_leaves event_id source ds bus ke ks rest)
        | inl replayed ↦
            let (same, events, subs) = replay_row-Leaves d bus ke ks differs in
            rw replayed (
              replay_rows_leaves event_id source ds (replay_row env policy conforms schemas d bus)
                (rw events ke) (rw subs ks) rest
              ∙ same)
      ]

others_listed :
    (k : DeliveryKey) (p : Delivery → Bool) (d : List (DeliveryKey × Delivery))
    → IsKeyed key_of d
    → ((r : Delivery) → lookup k d ≡ some r → p r ≡ false)
    → All (λ r. k ≢ key_of r) (filter p (values d))
unfolding values filter lookup
others_listed k p [] u n = tt
others_listed k p ((j, r) ∷ d) (own, fresh, u) n =
    let rest = others_listed k p d u (λ r' there. n r' (ground arith)) in
    elim (Bool-cases (p r)) [
      | inr off ↦ rw off rest
      | inl on ↦ rw on ((λ same. cc (on, n r (ground arith))), rest)
    ]

not_listed :
    (org : String) (l : Ledger) (r : Delivery) → r.status ≢ dead → is_listed org dead l r ≡ false
unfolding is_listed
not_listed org l r h = ground arith

-- Where the tables are keyed by their rows, a replay leaves every row that is not dead exactly as
-- it is: a delivered row is final, and a pending row is not retried.
pub replay_keeps :
    (env : Env) (policy : Policy) (conforms : Fields → Fields → Bool) (schemas : SchemaRegistry)
    (event_id source org : String) (bus : Bus env) (k : DeliveryKey) (d : Delivery)
    → IsSound bus.ledger
    → row_at k bus.ledger ≡ some d
    → d.status ≢ dead
    → row_at k (replay env policy conforms schemas event_id source org bus).1.ledger ≡ some d
unfolding replay list_deliveries_by_status
replay_keeps env policy conforms schemas event_id source org bus k d sound there alive =
    replay_rows_leaves env policy conforms schemas k event_id source _ bus sound.events sound.subs (
      others_listed k (is_listed org dead bus.ledger) bus.ledger.deliveries sound.deliveries (λ r e.
        not_listed org bus.ledger r (λ is_dead.
          alive (ap (λ (x : Delivery). x.status) (some-injective d r (sym there ∙ e)) ∙ is_dead))))
    ∙ there

attempt_known_no_sub :
    (env : Env) (policy : Policy) (event : Option Event) (bus : Bus env)
    → attempt_known env policy event none bus ≡ bus
unfolding attempt_known
attempt_known_no_sub env policy none bus = refl
attempt_known_no_sub env policy (some event) bus = refl

-- Where the subscription of a row is gone, replaying the row delivers nothing and reads no clock,
-- and leaves the row pending with no next time. A replay lists dead rows only, so it no longer
-- finds this one.
pub replay_row_orphan :
    (env : Env) (policy : Policy) (conforms : Fields → Fields → Bool) (schemas : SchemaRegistry)
    (d : Delivery) (bus : Bus env)
    → get_subscription d.subscription_id bus.ledger ≡ none
    → let bus' = replay_row env policy conforms schemas d bus in
      (bus'.world ≡ bus.world)
      × (row_at (key_of d) bus'.ledger
          ≡ some (record d { status = pending; next_attempt_at = none }))
unfolding replay_row attempt_pending get_subscription put_delivery
replay_row_orphan env policy conforms schemas d bus gone =
    rw (gone, attempt_known_no_sub env policy)
      (
        refl,
        lookup-insert_self (key_of d) (record d { status = pending; next_attempt_at = none })
            bus.ledger.deliveries,
      )
