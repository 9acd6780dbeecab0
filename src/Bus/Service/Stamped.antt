-- ===== src/Bus/Service/Stamped.antt =====
-- `publish` from the body on: whom the recorded event is for.
use islands_kernel.Base.{
  String, ◌≡◌, ◌≢◌, sym, refl, true, false, Bool, ◌⊎◌, arith, Option, none, some, inl, inr, ok,
}
use islands_kernel.Identity.Model.{to_use}
use islands_kernel.Identity.Authorize.{authorize}
use islands_kernel.Bus.Value.{text, null, Fields, get_or, is_true}
use islands_kernel.Bus.Model.{Event}
use islands_kernel.Bus.Ledger.{get_event}
use islands_kernel.Bus.Envelope.{stamp_envelope, SchemaRegistry}
use islands_kernel.Bus.Dispatch.{Env, Policy, Bus}
use islands_kernel.Bus.Service.{Receipt, on_type, allows, draw_event_id, publish}
use islands_kernel.Bus.Service.Publish.{publish_recorded}

module _ (env : Env) (policy : Policy) (conforms : Fields → Fields → Bool)
    (schemas : SchemaRegistry) where
  -- The world in which `publish` asks for the caller's grants.
  abbrev pub asking : Fields → Bus env → env.World
  asking body bus = (draw_event_id env body (env.now_iso bus.world).1).1

  -- Whatever the body says of a principal or an org, a publish that is accepted is of the type and
  -- the source that the body gives, under the id of the receipt, which is the body's where it gives
  -- one; and the caller's grants allow `use` on that type at the time of the call. Either the source
  -- and id were known before, the receipt says so, and the ledger is as it was; or they were not,
  -- and the event that the ledger then holds under them has that type, and names the caller as its
  -- principal and the caller's org as its org.
  pub publish_stamped :
      (body : Fields) (caller : String) (org : Option String) (bus : Bus env) (r : Receipt)
      → (publish env policy conforms schemas body caller org bus).0 ≡ ok r
      → let ledger = (publish env policy conforms schemas body caller org bus).1.ledger in
        (type : String) × (source : String) × (get_or "type" (text "") body ≡ text type)
        × (get_or "source" (text "") body ≡ text source)
        × (is_true (get_or "id" null body) ≡ true → get_or "id" null body ≡ text r.id)
        × (authorize
              (env.grants_for (asking body bus) caller)
              (on_type type)
              to_use
              (env.now (asking body bus)).0
              org
            ≡ true)
        × (((get_event source r.id bus.ledger ≢ none) × (r.deduped ≡ true) × (ledger ≡ bus.ledger))
            ⊎ ((get_event source r.id bus.ledger ≡ none)
                × (r.deduped ≡ false)
                × ((event : Event) × (get_event source r.id ledger ≡ some event)
                    × (event.type ≡ type)
                    × (event.principal ≡ caller)
                    × (some event.org ≡ org))))
  unfolding publish stamp_envelope
  publish_stamped body caller org bus r h =
      let draft =
        stamp_envelope (draw_event_id env body (env.now_iso bus.world).1).0 body caller org
          (env.now_iso bus.world).0 in
      let asked : Bus env = record bus { world = asking body bus } in
      let (event, may, reading, named, which) =
        publish_recorded env policy conforms schemas draft caller org asked r h in
      (
        event.type,
        event.source,
        reading.type,
        reading.source.0,
        λ given. ground (arith, given, reading.id.0, named),
        unfold allows in (rw reading.type at may),
        elim which [
          | inl (dup, was_known, same) ↦ inl (λ gone. was_known (cc (named, gone)), dup, same)
          | inr (new, absent, there) ↦ inr (
            cc (named, absent),
            new,
            (event, cc (named, there), refl, sym reading.principal, sym reading.org),
          )
        ],
      )
