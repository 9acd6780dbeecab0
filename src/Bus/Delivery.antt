-- ===== src/Bus/Delivery.antt =====
-- bus/dispatch.py: `InProcessDelivery`, `HttpPushDelivery` and `RoutingDelivery`.
pub mod Routed
use islands_kernel.Base.{
  ℕ, String, ◌&&◌, Option, none, some, List, [], ◌∷◌, ◌==◌, string_eq, option_eq, if◌then◌else◌,
  leb, ltb,
}
use islands_kernel.Base.Dict.{Dict, lookup, insert}
use islands_kernel.Bus.Value.{Value, text, obj, Fields, end, field}
use islands_kernel.Bus.Model.{Event, Subscription}

-- The registered handlers and the HTTP client of the process. A handler, or a post, gives the
-- class name of the exception that it raises, if it does; a post that returns gives its status. The
-- url and the audience of a post may be null.
pub record Outside : Type 1 where
  pub World : Type 0
  pub handler : String → Event → World → Option String × World
  pub post : Option String → Fields → Option String → World → (Option String × ℕ) × World

-- `envelope_json`: the fields in the order of the dict.
unfoldable pub envelope_json : Event → Fields
envelope_json event = field "id" (text event.id) (
    field "type" (text event.type) (
      field "schema" (text event.schema) (
        field "source" (text event.source) (
          field "org" (text event.org) (
            field "principal" (text event.principal) (
              field "trace" (obj event.trace) (
                field "data" (obj event.payload)
                  (field "occurredAt" (text event.occurred_at) end))))))))

-- `InProcessDelivery._handlers`, by the names of the handlers
abbrev pub Handlers : Type 0
Handlers = Dict (Option String) String

unfoldable pub register_handler : String → String → Handlers → Handlers
register_handler key handler handlers = insert (some key) handler handlers

-- `sub.target.get("audience", "")`
abbrev pub audience_of : Subscription → Option String
audience_of sub = elim sub.target.audience [ none ↦ some "" | some audience ↦ audience ]

-- `if not (200 <= status < 300): raise RuntimeError`, after what the post raised.
unfoldable pub push_result : Option String × ℕ → Option String
push_result (some raised, status) = some raised
push_result (none, status) = if leb 200 status && ltb status 300 then none else some "RuntimeError"

module _ (outside : Outside) where
  -- `InProcessDelivery.deliver`
  unfoldable pub deliver_inprocess :
      Handlers → Subscription → Event → outside.World → Option String × outside.World
  deliver_inprocess handlers sub event world = elim (lookup sub.target.key handlers) [
    | none ↦ (some "LookupError", world)
    | some name ↦ outside.handler name event world
  ]

  -- `HttpPushDelivery.deliver`; a target without a url raises `KeyError`.
  unfoldable pub deliver_http : Subscription → Event → outside.World → Option String × outside.World
  deliver_http sub event world = elim sub.target.url [
    | none ↦ (some "KeyError", world)
    | some url ↦
        let (result, sent) = outside.post url (envelope_json event) (audience_of sub) world in
        (push_result result, sent)
  ]

  -- `RoutingDelivery.deliver`
  unfoldable pub deliver_routed :
      Handlers → Subscription → Event → outside.World → Option String × outside.World
  deliver_routed handlers sub event world =
      if sub.target.kind == some "http"
      then deliver_http sub event world
      else deliver_inprocess handlers sub event world
