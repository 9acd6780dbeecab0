-- ===== src/Bus/Dispatch.antt =====
-- bus/dispatch.py: `BackoffPolicy` and `Dispatcher`. What the process does not compute itself (the
-- clock, the random tokens, the delivery of an event, the grants of a principal) is an `Env`.
pub mod Attempt
pub mod Final
use islands_kernel.Base.{
  ℕ, suc, ◌+◌, ◌-◌, ◌*◌, ◌^◌, min, String, ◌<>◌, Bool, true, false, Option, none, some, List, [],
  ◌∷◌, if◌then◌else◌, leb,
}
use islands_kernel.Identity.Model.{Grant}
use islands_kernel.Bus.Model.{Event, Subscription, Status, pending, delivered, dead, Delivery}
use islands_kernel.Bus.Ledger.{
  Ledger, same_status, get_event, get_subscription, matching_subscriptions, put_delivery,
  get_delivery, acquire_lease, release_lease,
}

-- `deliver` gives the class name of the exception that it raises, or `none`. It does not touch the
-- ledger: a handler that calls the bus again is not modelled.
pub record Env : Type 1 where
  pub World : Type 0
  pub now : World → ℕ × World
  pub now_iso : World → String × World
  pub token : String → World → String × World
  pub deliver : Subscription → Event → World → Option String × World
  pub grants_for : World → String → List Grant

-- The fields of `BackoffPolicy`, and `lease_ttl`.
pub record Policy : Type 0 where
  pub max_attempts : ℕ
  pub base : ℕ
  pub cap : ℕ
  pub lease_ttl : ℕ

-- The defaults of the source: 5 attempts, 1 s, 60 s, 30 s.
abbrev pub default_policy : Policy
default_policy = record { max_attempts = 5; base = 1000; cap = 60000; lease_ttl = 30000 }

-- `BackoffPolicy.next_at`
unfoldable pub next_at : Policy → ℕ → ℕ → ℕ
next_at policy attempts now = now + min policy.cap (policy.base * 2 ^ (attempts - 1))

-- `existing is not None and existing.status == "delivered"`
unfoldable pub is_done : Option Delivery → Bool
unfolding same_status
is_done none = false
is_done (some d) = same_status d.status delivered

-- `(existing.attempts if existing else 0) + 1`
unfoldable pub next_attempts : Option Delivery → ℕ
next_attempts none = 1
next_attempts (some d) = d.attempts + 1

-- The lease key f"dispatch:{event.source}:{event.id}:{sub.id}"
unfoldable pub lease_key : Event → Subscription → String
lease_key event sub = "dispatch:" <> (event.source <> (":" <> (event.id <> (":" <> sub.id))))

-- The row that an attempt writes, by what the delivery raised.
unfoldable pub outcome_row : Policy → Event → Subscription → ℕ → ℕ → Option String → Delivery
unfolding next_at
outcome_row policy event sub attempts now none = record {
  event_id = event.id;
  source = event.source;
  subscription_id = sub.id;
  status = delivered;
  attempts = attempts;
  last_error = none;
  next_attempt_at = none;
}
outcome_row policy event sub attempts now (some raised) = record {
  event_id = event.id;
  source = event.source;
  subscription_id = sub.id;
  status = if leb policy.max_attempts attempts then dead else pending;
  attempts = attempts;
  last_error = some raised;
  next_attempt_at =
      if leb policy.max_attempts attempts then none else some (next_at policy attempts now);
}

module _ (env : Env) where
  pub record Bus : Type 0 where
    pub ledger : Ledger
    pub world : env.World

module _ (env : Env) (policy : Policy) where
  -- `_attempt` under the lease, the `finally` clause included.
  unfoldable pub attempt_leased : Event → Subscription → ℕ → String → Bus env → Bus env
  attempt_leased event sub now holder bus =
      let existing : Option Delivery = get_delivery event.id event.source sub.id bus.ledger in
      let (raised, world) = env.deliver sub event bus.world in
      let row = outcome_row policy event sub (next_attempts existing) now raised in
      if is_done existing
      then record bus { ledger = release_lease (lease_key event sub) holder bus.ledger }
      else record {
        ledger = release_lease (lease_key event sub) holder (put_delivery row bus.ledger);
        world = world;
      }

  -- `_attempt`
  unfoldable pub attempt : Event → Subscription → Bus env → Bus env
  attempt event sub bus =
      let (now, drawn) = env.now bus.world in
      let (holder, world) = env.token "disp" drawn in
      let (won, ledger) =
        acquire_lease (lease_key event sub) holder (now + policy.lease_ttl) now bus.ledger in
      if is_done (get_delivery event.id event.source sub.id bus.ledger)
      then bus
      else if won
      then attempt_leased event sub now holder (record { ledger = ledger; world = world })
      else record { ledger = ledger; world = world }

  unfoldable pub attempt_all : Event → List Subscription → Bus env → Bus env
  attempt_all event [] bus = bus
  attempt_all event (sub ∷ subs) bus = attempt_all event subs (attempt event sub bus)

  unfoldable pub dispatch : Event → Bus env → Bus env
  unfolding attempt_all
  dispatch event bus =
      attempt_all event (matching_subscriptions event.org event.type bus.ledger) bus

  -- `if event is None or sub is None: return`
  unfoldable pub attempt_known : Option Event → Option Subscription → Bus env → Bus env
  attempt_known none sub bus = bus
  attempt_known (some event) none bus = bus
  attempt_known (some event) (some sub) bus = attempt event sub bus

  unfoldable pub attempt_pending : Delivery → Bus env → Bus env
  unfolding attempt_known
  attempt_pending d bus =
      attempt_known (get_event d.source d.event_id bus.ledger)
        (get_subscription d.subscription_id bus.ledger) bus
