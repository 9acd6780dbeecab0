-- ===== src/Bus/Service/Publish.antt =====
-- bus/service.py: `publish` from the draft on, once and again.
use islands_kernel.Base.{
  String, ◌≡◌, ◌≢◌, ◌⊎◌, refl, ◌∙◌, ap, Bool, true, false, Option, none, some, List, [], ◌∷◌, inl,
  inr, arith, string_eq, pair_eq, Bool-cases, Option-cases, Result-cases, Result, ok, err, is_ok,
}
use islands_kernel.Base.Dict.{insert, lookup-insert_self}
use islands_kernel.Bus.Value.{Fields, text}
use islands_kernel.Bus.Model.{Event, Subscription}
use islands_kernel.Bus.Ledger.{
  Ledger, record_event, put_delivery, get_event, matching_subscriptions,
}
use islands_kernel.Bus.Envelope.{Draft, SchemaRegistry}
use islands_kernel.Bus.Envelope.Stamp.{IsReading, validate_envelope_sound}
use islands_kernel.Bus.Dispatch.{Env, Policy, Bus, attempt, attempt_all, dispatch}
use islands_kernel.Bus.Dispatch.Attempt.{attempt_cases}
use islands_kernel.Bus.Service.{BusError, denied, Receipt, allows, validate, accept, publish_draft}

module _ (env : Env) (policy : Policy) where
  events-attempt :
      (event : Event) (sub : Subscription) (bus : Bus env)
      → (attempt env policy event sub bus).ledger.events ≡ bus.ledger.events
  unfolding put_delivery
  events-attempt event sub bus = elim (attempt_cases env policy event sub bus) [
    | inl (was, e) ↦ rw e
    | inr (inl (was, busy, e)) ↦ rw e
    | inr (inr (was, free, e)) ↦ rw e
  ]

  events-attempt_all :
      (event : Event) (subs : List Subscription) (bus : Bus env)
      → (attempt_all env policy event subs bus).ledger.events ≡ bus.ledger.events
  unfolding attempt_all
  events-attempt_all event [] bus = refl
  events-attempt_all event (sub ∷ subs) bus =
      events-attempt_all event subs (attempt env policy event sub bus)
      ∙ events-attempt event sub bus

  events-dispatch :
      (event : Event) (bus : Bus env)
      → (dispatch env policy event bus).ledger.events ≡ bus.ledger.events
  unfolding dispatch
  events-dispatch event bus =
      events-attempt_all event (matching_subscriptions event.org event.type bus.ledger) bus

module _ (env : Env) (policy : Policy) (conforms : Fields → Fields → Bool)
    (schemas : SchemaRegistry) where
  -- What is known under the source and the id of an event.
  abbrev pub known : Event → Bus env → Option Event
  known event bus = get_event event.source event.id bus.ledger

  accept-known :
      (event : Event) (bus : Bus env) (old : Event)
      → known event bus ≡ some old
      → accept env policy conforms schemas event bus
        ≡ (record { id = event.id; deduped = true }, bus)
  unfolding accept record_event get_event
  accept-known event bus old there = ground arith

  accept_new :
      (event : Event) (bus : Bus env)
      → known event bus ≡ none
      → let recorded : Ledger = record bus.ledger {
        events = insert (event.source, event.id) event bus.ledger.events;
      } in
        accept env policy conforms schemas event bus ≡ (
          record { id = event.id; deduped = false },
          dispatch env policy event (record bus { ledger = recorded }),
        )
  unfolding accept record_event get_event
  accept_new event bus new = ground arith

  -- The receipt of an event, and what is known of it afterwards.
  accept_cases :
      (event : Event) (bus : Bus env)
      → ((old : Event) × (known event bus ≡ some old)
          × (accept env policy conforms schemas event bus
              ≡ (record { id = event.id; deduped = true }, bus)))
        ⊎ ((known event bus ≡ none)
            × ((accept env policy conforms schemas event bus).0
                ≡ record { id = event.id; deduped = false })
            × (known event (accept env policy conforms schemas event bus).1 ≡ some event))
  accept_cases event bus = elim (Option-cases (known event bus)) [
    | inr (old, there) ↦ inl (old, there, accept-known event bus old there)
    | inl new ↦
        let e = accept_new event bus new in
        inr (
          new,
          ap (λ (x : Receipt × Bus env). x.0) e,
          rw e (
              unfold get_event in
              rw (events-dispatch env policy event)
                (lookup-insert_self (event.source, event.id) event bus.ledger.events)),
        )
  ]

  abbrev pub Outcome : Type 0
  Outcome = Result BusError Receipt × Bus env

  module _ (draft : Draft) (caller : String) (org : Option String) (bus : Bus env) where
    abbrev pub run : Outcome
    run = publish_draft env policy conforms schemas draft caller org bus

    abbrev pub allowed : Bool
    allowed = allows (env.grants_for bus.world caller) draft.type (env.now bus.world).0 org

    abbrev asked : Bus env
    asked = record bus { world = (env.now bus.world).1 }

    publish_denied : allowed ≡ false → run ≡ (err denied, asked)
    unfolding publish_draft
    publish_denied no' = ground arith

    publish_invalid :
        (e : BusError)
        → allowed ≡ true
        → validate env policy conforms schemas draft ≡ err e
        → run ≡ (err e, asked)
    unfolding publish_draft
    publish_invalid e yes' bad = ground arith

    publish_valid :
        (event : Event)
        → allowed ≡ true
        → validate env policy conforms schemas draft ≡ ok event
        → run ≡ (
          ok (accept env policy conforms schemas event asked).0,
          (accept env policy conforms schemas event asked).1,
        )
    unfolding publish_draft
    publish_valid event yes' good = ground arith

    publish_needs :
        (r : Receipt)
        → run.0 ≡ ok r
        → (event : Event) × (allowed ≡ true)
          × (validate env policy conforms schemas draft ≡ ok event)
    publish_needs r h = elim (Bool-cases allowed) [
      | inr no' ↦ absurd (cc (h, ap (λ (x : Outcome). x.0) (publish_denied no')))
      | inl yes' ↦ elim (Result-cases (validate env policy conforms schemas draft)) [
        | inr (e, bad) ↦ absurd (cc (h, ap (λ (x : Outcome). x.0) (publish_invalid e yes' bad)))
        | inl (event, good) ↦ (event, yes', good)
      ]
    ]

    IsReading-of_valid :
        (event : Event)
        → validate env policy conforms schemas draft ≡ ok event
        → IsReading draft event
    unfolding validate
    IsReading-of_valid event good = validate_envelope_sound draft event (ground arith)

    -- A publish that is accepted was allowed to the caller, and is of an event that reads the
    -- draft's fields. Either an event of that source and id was known, and the receipt says so and
    -- the ledger is unchanged; or none was, and the ledger now holds the event itself.
    pub publish_recorded :
        (r : Receipt)
        → run.0 ≡ ok r
        → (event : Event) × (allowed ≡ true)
          × IsReading draft event
          × (r.id ≡ event.id)
          × (((r.deduped ≡ true) × (known event bus ≢ none) × (run.1.ledger ≡ bus.ledger))
              ⊎ ((r.deduped ≡ false) × (known event bus ≡ none) × (known event run.1 ≡ some event)))
    publish_recorded r h =
        let (event, yes', good) = publish_needs r h in
        let e = publish_valid event yes' good in
        let reading = IsReading-of_valid event good in
        elim (accept_cases event asked) [
          | inl (old, there, same) ↦ (
            event,
            yes',
            reading,
            cc (h, e, same),
            inl (cc (h, e, same), λ absent. cc (there, absent), rw (e, same) refl),
          )
          | inr (new, receipt, there) ↦
              (event, yes', reading, cc (h, e, receipt), inr (cc (h, e, receipt), new, rw e there))
        ]

    -- A publish that raises leaves the ledger as it was.
    pub publish_atomic : is_ok run.0 ≡ false → run.1.ledger ≡ bus.ledger
    publish_atomic h = elim (Bool-cases allowed) [
      | inr no' ↦ rw (publish_denied no') refl
      | inl yes' ↦ elim (Result-cases (validate env policy conforms schemas draft)) [
        | inr (e, bad) ↦ rw (publish_invalid e yes' bad) refl
        | inl (event, good) ↦
            absurd (cc (h, ap (λ (x : Outcome). is_ok x.0) (publish_valid event yes' good)))
      ]
    ]

    -- Where an event of the draft's source and id is known, a publish changes nothing in the
    -- ledger, and if it is accepted its receipt says that it was a duplicate.
    publish_of_known :
        (source id : String) (old : Event)
        → draft.source ≡ text source
        → draft.id ≡ text id
        → get_event source id bus.ledger ≡ some old
        → (run.1.ledger ≡ bus.ledger)
          × ((r : Receipt) → run.0 ≡ ok r → r ≡ record { id = id; deduped = true })
    publish_of_known source id old of_source of_id there = elim (Result-cases run.0) [
      | inr (e, bad) ↦ (publish_atomic (rw bad refl), λ r h. absurd (cc (h, bad)))
      | inl (r, good) ↦
          let (event, yes', reading, same_id, which) = publish_recorded r good in
          let id' : event.id ≡ id = cc (of_id, reading.id.0) in
          let source' : event.source ≡ source = cc (of_source, reading.source.0) in
          let there' : known event bus ≡ some old = rw (id', source') there in
          elim which [
            | inl (dup, _, same) ↦ (same, λ r' h. ground (arith, good, h, dup, same_id, id'))
            | inr (fresh, absent, _) ↦ absurd (cc (there', absent))
          ]
    ]

  publish_of_same :
      (draft again : Draft) (caller caller' : String) (org org' : Option String) (bus : Bus env)
      (world : env.World) (r : Receipt)
      → (run draft caller org bus).0 ≡ ok r
      → again.source ≡ draft.source
      → again.id ≡ draft.id
      → let bus' : Bus env = record (run draft caller org bus).1 { world = world } in
        ((run again caller' org' bus').1.ledger ≡ bus'.ledger)
        × ((r' : Receipt)
            → (run again caller' org' bus').0 ≡ ok r'
            → r' ≡ record { id = r.id; deduped = true })
  publish_of_same draft again caller caller' org org' bus world r h of_source of_id =
      let (event, yes', reading, same_id, which) = publish_recorded draft caller org bus r h in
      let bus' : Bus env = record (run draft caller org bus).1 { world = world } in
      let stays = λ (old : Event) (there : known event bus' ≡ some old).
        publish_of_known again caller' org' bus' event.source event.id old
          (of_source ∙ reading.source.0) (of_id ∙ reading.id.0) there in
      rw same_id (elim which [
        | inr (fresh, absent, there) ↦ stays event there
        | inl (dup, was_known, same) ↦ elim (Option-cases (known event bus)) [
          | inl absent ↦ absurd (was_known absent)
          | inr (old, there) ↦ stays old (rw same there)
        ]
      ])

  -- After an accepted publish, a publish of any draft with the same source and id, by any caller
  -- and in any world, leaves the ledger as it is, and is at most acknowledged as a duplicate.
  pub publish_again :
      (draft again : Draft) (caller caller' : String) (org org' : Option String) (bus : Bus env)
      (world : env.World) (r : Receipt)
      → (run draft caller org bus).0 ≡ ok r
      → again.source ≡ draft.source
      → again.id ≡ draft.id
      → let bus' : Bus env = record (run draft caller org bus).1 { world = world } in
        let out = run again caller' org' bus' in
        (out.1.ledger ≡ bus'.ledger)
        × ((is_ok out.0 ≡ false) ⊎ (out.0 ≡ ok (record { id = r.id; deduped = true })))
  publish_again draft again caller caller' org org' bus world r h of_source of_id =
      let bus' : Bus env = record (run draft caller org bus).1 { world = world } in
      let (stays, receipts) =
        publish_of_same draft again caller caller' org org' bus world r h of_source of_id in
      (
        stays,
        elim (Result-cases (run again caller' org' bus').0) [
          | inl (r', e) ↦ inr (e ∙ ap ok (receipts r' e))
          | inr (e', e) ↦ inl (rw e refl)
        ],
      )
