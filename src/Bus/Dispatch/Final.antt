-- ===== src/Bus/Dispatch/Final.antt =====
-- bus/dispatch.py: delivered rows, under attempts, dispatches and retries.
use islands_kernel.Base.{
  ℕ, String, ◌≡◌, ◌≢◌, refl, ◌∙◌, true, Option, none, some, List, [], ◌∷◌, inl, inr, arith, ◌==◌,
  string_eq, pair_eq, if◌then◌else◌,
}
use islands_kernel.Base.Dict.{lookup, lookup-insert}
use islands_kernel.Bus.Model.{Event, Subscription, Delivery}
use islands_kernel.Bus.Ledger.{
  Ledger, DeliveryKey, get_delivery, put_delivery, get_event, get_subscription,
  matching_subscriptions,
}
use islands_kernel.Bus.Dispatch.{
  Env, Policy, Bus, is_done, outcome_row, attempt, attempt_all, dispatch, attempt_known,
  attempt_pending,
}
use islands_kernel.Bus.Dispatch.Attempt.{written, attempt_cases}

abbrev pub key_of : Delivery → DeliveryKey
key_of d = (d.event_id, (d.source, d.subscription_id))

-- The row of a key.
abbrev pub row_at : DeliveryKey → Ledger → Option Delivery
row_at k l = lookup k l.deliveries

pub row_at-put_delivery :
    (k : DeliveryKey) (d : Delivery) (l : Ledger)
    → row_at k (put_delivery d l) ≡ (if k == key_of d then some d else row_at k l)
unfolding put_delivery
row_at-put_delivery k d l = lookup-insert k (key_of d) d l.deliveries

pub row_at-put_delivery_ne :
    (k : DeliveryKey) (d : Delivery) (l : Ledger)
    → k ≢ key_of d
    → row_at k (put_delivery d l) ≡ row_at k l
row_at-put_delivery_ne k d l differs = row_at-put_delivery k d l ∙ ground arith

pub key_of-outcome_row :
    (policy : Policy) (event : Event) (sub : Subscription) (attempts now : ℕ)
    (raised : Option String)
    → key_of (outcome_row policy event sub attempts now raised) ≡ (event.id, (event.source, sub.id))
unfolding outcome_row
key_of-outcome_row policy event sub attempts now none = refl
key_of-outcome_row policy event sub attempts now (some raised) = refl

module _ (env : Env) (policy : Policy) (k : DeliveryKey) where
  -- The row of `k` in the ledger of a bus.
  abbrev pub row_of : Bus env → Option Delivery
  row_of bus = row_at k bus.ledger

  attempt_final :
      (event : Event) (sub : Subscription) (bus : Bus env)
      → is_done (row_of bus) ≡ true
      → row_of (attempt env policy event sub bus) ≡ row_of bus
  unfolding get_delivery
  attempt_final event sub bus done = elim (attempt_cases env policy event sub bus) [
    | inl (was, e) ↦ rw e
    | inr (inl (was, busy, e)) ↦ rw e
    | inr (inr (was, free, e)) ↦
        let own : key_of (written env policy event sub bus) ≡ (event.id, (event.source, sub.id)) =
          key_of-outcome_row policy event sub _ _ _ in
        rw e (
          row_at-put_delivery_ne k (written env policy event sub bus) bus.ledger
            (λ same. cc (same, own, done, was)))
  ]

  attempt_all_final :
      (event : Event) (subs : List Subscription) (bus : Bus env)
      → is_done (row_of bus) ≡ true
      → row_of (attempt_all env policy event subs bus) ≡ row_of bus
  unfolding attempt_all
  attempt_all_final event [] bus done = refl
  attempt_all_final event (sub ∷ subs) bus done =
      let same = attempt_final event sub bus done in
      attempt_all_final event subs (attempt env policy event sub bus) (rw same done) ∙ same

  -- A dispatch leaves a delivered row as it is.
  pub dispatch_final :
      (event : Event) (bus : Bus env)
      → is_done (row_of bus) ≡ true
      → row_of (dispatch env policy event bus) ≡ row_of bus
  unfolding dispatch
  dispatch_final event bus =
      attempt_all_final event (matching_subscriptions event.org event.type bus.ledger) bus

  -- So does a retry.
  pub attempt_pending_final :
      (d : Delivery) (bus : Bus env)
      → is_done (row_of bus) ≡ true
      → row_of (attempt_pending env policy d bus) ≡ row_of bus
  unfolding attempt_pending attempt_known
  attempt_pending_final d bus done =
      known (get_event d.source d.event_id bus.ledger)
        (get_subscription d.subscription_id bus.ledger)
    where
      known :
          (event : Option Event) (sub : Option Subscription)
          → row_of (attempt_known env policy event sub bus) ≡ row_of bus
      known none sub = refl
      known (some event) none = refl
      known (some event) (some sub) = attempt_final event sub bus done
