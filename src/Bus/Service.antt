-- ===== src/Bus/Service.antt =====
-- bus/service.py: `BusService`, and the grant of bus/provisioning.py.
pub mod Publish
pub mod Stamped
pub mod Replay
use islands_kernel.Base.{
  ℕ, suc, ◌+◌, String, Bool, true, false, ◌&&◌, Option, none, some, List, [], ◌∷◌, ◌==◌, string_eq,
  if◌then◌else◌, Result, ok, err, not,
}
use islands_kernel.Base.Dict.{filter}
use islands_kernel.Identity.Model.{Grant, GrantTarget, event_type, to_use, TargetKind}
use islands_kernel.Identity.Store.{IdentityStore, add_grant}
use islands_kernel.Identity.Authorize.{authorize, same_kind}
use islands_kernel.Bus.Value.{Value, text, Fields, is_true, get_or, null}
use islands_kernel.Bus.Model.{Event, Subscription, Target, Delivery, EventContract, pending, dead}
use islands_kernel.Bus.Ledger.{
  Ledger, record_event, put_subscription, delete_subscription, list_subscriptions,
  list_deliveries_by_status, put_delivery, get_delivery, list_contracts, put_contract,
}
use islands_kernel.Bus.Envelope.{
  EnvelopeError, Draft, stamp_envelope, validate_envelope, SchemaRegistry, validate_data,
}
use islands_kernel.Bus.Dispatch.{Env, Policy, Bus, dispatch, attempt_pending}

pub data BusError : Type 0 where
  denied : BusError
  bad_envelope : EnvelopeError → BusError

-- The dict that `publish` returns.
pub record Receipt : Type 0 where
  pub id : String
  pub deduped : Bool

-- The event type as a target of grants.
abbrev pub on_type : String → GrantTarget
on_type type = record { kind = event_type; id = type }

-- The check of `_require`. A type that is no text equals the id of no target, so of the grants
-- only those on orgs can cover it.
unfoldable pub allows : List Grant → Value → ℕ → Option String → Bool
allows grants (text type) now org = authorize grants (on_type type) to_use now org
allows grants _ now org =
    authorize (filter (λ (g : Grant). same_kind g.target.kind TargetKind.org) grants) (on_type "")
      to_use now org

module _ (env : Env) where
  -- `new_event_id()`, drawn only where the body has no true `id`
  unfoldable pub draw_event_id : Fields → env.World → String × env.World
  draw_event_id body world =
      if is_true (get_or "id" null body) then ("", world) else env.token "evt" world

module _ (env : Env) (policy : Policy) (conforms : Fields → Fields → Bool)
    (schemas : SchemaRegistry) where
  -- The envelope and the data, in the order of the source.
  unfoldable pub validate : Draft → Result BusError Event
  validate draft = elim (validate_envelope draft) [
    | err e ↦ err (bad_envelope e)
    | ok event ↦ elim (validate_data conforms schemas event.schema event.payload) [
      | err e ↦ err (bad_envelope e)
      | ok _ ↦ ok event
    ]
  ]

  -- `record_event`, and `dispatch` for a new event
  unfoldable pub accept : Event → Bus env → Receipt × Bus env
  accept event bus =
      let (is_new, ledger) = record_event event bus.ledger in
      let recorded = record bus { ledger = ledger } in
      if is_new
      then (record { id = event.id; deduped = false }, dispatch env policy event recorded)
      else (record { id = event.id; deduped = true }, recorded)

  -- `publish` from the stamped envelope on
  unfoldable pub publish_draft :
      Draft → String → Option String → Bus env → Result BusError Receipt × Bus env
  publish_draft draft caller org bus =
      let (now, world) = env.now bus.world in
      let asked = record bus { world = world } in
      if allows (env.grants_for bus.world caller) draft.type now org
      then elim (validate draft) [
        | err e ↦ (err e, asked)
        | ok event ↦ let (receipt, done) = accept event asked in (ok receipt, done)
      ]
      else (err denied, asked)

  unfoldable pub publish :
      Fields → String → Option String → Bus env → Result BusError Receipt × Bus env
  unfolding draw_event_id
  publish body caller org bus =
      let (now_iso, timed) = env.now_iso bus.world in
      let (event_id, world) = draw_event_id env body timed in
      publish_draft (stamp_envelope event_id body caller org now_iso) caller org
        (record bus { world = world })

  -- One round of the loop of `replay`.
  unfoldable pub replay_row : Delivery → Bus env → Bus env
  replay_row d bus =
      let row : Delivery = record d { status = pending; next_attempt_at = none } in
      attempt_pending env policy row (record bus { ledger = put_delivery row bus.ledger })

  -- `d.event_id == event_id and d.source == source`
  unfoldable pub is_of : String → String → Delivery → Bool
  is_of event_id source d = d.event_id == event_id && d.source == source

  unfoldable pub replay_rows : String → String → List Delivery → Bus env → ℕ × Bus env
  unfolding is_of
  replay_rows event_id source [] bus = (0, bus)
  replay_rows event_id source (d ∷ ds) bus =
      let replayed = is_of event_id source d in
      let (n, done) = replay_rows event_id source ds (if replayed then replay_row d bus else bus) in
      (if replayed then suc n else n, done)

  unfoldable pub replay : String → String → String → Bus env → ℕ × Bus env
  unfolding replay_rows
  replay event_id source org bus =
      replay_rows event_id source (list_deliveries_by_status org dead bus.ledger) bus

module _ (env : Env) where
  unfoldable pub subscribe :
      String
      → String
      → String
      → String
      → Target
      → String
      → Bus env
      → Result BusError Subscription × Bus env
  subscribe caller org type consumer target grant_ref bus =
      let (now, timed) = env.now bus.world in
      let (sub_id, world) = env.token "sub" timed in
      let sub : Subscription = record {
        id = sub_id;
        org = org;
        consumer = consumer;
        type = type;
        target = target;
        grant_ref = grant_ref;
      } in
      if authorize (env.grants_for bus.world caller) (on_type type) to_use now (some org)
      then (ok sub, record { ledger = put_subscription sub bus.ledger; world = world })
      else (err denied, record bus { world = timed })

  unfoldable pub unsubscribe : String → Bus env → Bus env
  unsubscribe sub_id bus = record bus { ledger = delete_subscription sub_id bus.ledger }

  unfoldable pub dead_letters : String → Bus env → List Delivery
  dead_letters org bus = list_deliveries_by_status org dead bus.ledger

  unfoldable pub declare_contract : EventContract → Bus env → Bus env
  declare_contract c bus = record bus { ledger = put_contract c bus.ledger }

-- `grant_event_type_use`; `grant_id` is what `generate_raw_token("grant")` draws.
unfoldable pub grant_event_type_use :
    String → String → String → String → ℕ → IdentityStore → Grant × IdentityStore
grant_event_type_use grant_id principal_id type granted_by now store =
    let g : Grant = record {
      id = grant_id;
      principal_id = principal_id;
      target = on_type type;
      access = to_use;
      scopes_subset = none;
      granted_by = granted_by;
      granted_at = now;
      revoked_at = none;
    } in
    (g, add_grant g store)
