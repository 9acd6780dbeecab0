-- ===== src/Bus/Server/Refines/Steps.antt =====
-- bus/store/server.py: each method that writes, on both ledgers.
use islands_kernel.Base.{
  ℕ, String, ◌≡◌, refl, ◌∙◌, Bool, true, false, inl, inr, arith, string_eq, pair_eq, ◌==◌, leb,
  Option-cases, Bool-cases,
}
use islands_kernel.Base.Dict.{Dict, lookup}
use islands_kernel.Base.Sql.{Engine, IsLawful, Json, IsFaithful}
use islands_kernel.Base.Sql.Held.{
  Holds, Holds-create, Holds-replace, ignore-Holds, Holds-ignore_new, Holds-ignore_old,
  update-Holds, Holds-update_hit, Holds-update_miss, Holds-delete_hit, Holds-delete_miss,
  Holds-delete,
}
use islands_kernel.Bus.Model.{Event, Subscription, Delivery, EventContract, Lease}
use islands_kernel.Bus.Ledger
use islands_kernel.Bus.Ledger.{Ledger}
use islands_kernel.Bus.Server
use islands_kernel.Bus.Server.{
  ServerLedger, EventRow, event_row, event_of, SubscriptionRow, subscription_row, subscription_of,
  ContractRow, contract_row, contract_of, LeaseRow,
}

-- A lease as the memory keeps it.
abbrev pub lease_of : LeaseRow → Lease
lease_of row = record { holder = row.holder; until = row.until }

module _ (db : Engine) (law : IsLawful db) (json : Json) (faithful : IsFaithful json) where
  -- Table by table, the server holds what the memory holds.
  pub record Implements (s : ServerLedger db json) (l : Ledger) : Type 0 where
    pub events : Holds db law (event_of json) s.events l.events
    pub subs : Holds db law (subscription_of json) s.subscriptions l.subs
    pub deliveries : Holds db law (λ (d : Delivery). d) s.deliveries l.deliveries
    pub contracts : Holds db law (contract_of json) s.contracts l.contracts
    pub leases : Holds db law lease_of s.leases l.leases

  event_of-row : (event : Event) → event_of json (event_row json event) ≡ event
  unfolding event_of event_row
  event_of-row event = cc (faithful.loads-dumps event.trace, faithful.loads-dumps event.payload)

  subscription_of-row :
      (sub : Subscription) → subscription_of json (subscription_row json sub) ≡ sub
  unfolding subscription_of subscription_row
  subscription_of-row sub = cc (faithful.loads-dumps sub.target)

  contract_of-row : (c : EventContract) → contract_of json (contract_row json c) ≡ c
  unfolding contract_of contract_row
  contract_of-row c = cc (faithful.loads-dumps c.emits, faithful.loads-dumps c.consumes)

  -- What a method answers and leaves behind is what the memory's method does.
  abbrev pub Simulates : Bool × ServerLedger db json → Bool × Ledger → Type 0
  Simulates out out' = (out.0 ≡ out'.0) × Implements out.1 out'.1

  pub create_ledger-Implements : Implements (Server.create_ledger db json) Ledger.empty
  unfolding Server.create_ledger
  create_ledger-Implements = record {
    events = Holds-create db law (event_of json);
    subs = Holds-create db law (subscription_of json);
    deliveries = Holds-create db law (λ (d : Delivery). d);
    contracts = Holds-create db law (contract_of json);
    leases = Holds-create db law lease_of;
  }

  module _ (s : ServerLedger db json) (l : Ledger) (h : Implements s l) where
    pub record_event-Simulates :
        (event : Event)
        → Simulates (Server.record_event db json event s) (Ledger.record_event event l)
    unfolding Server.record_event Ledger.record_event
    record_event-Simulates event =
        let k : String × String = (event.source, event.id) in
        let row = event_row json event in
        elim (Option-cases (lookup k l.events)) [
          | inl absent ↦
              rw (absent, Ledger.record_event)
                (
                  ignore-Holds db law (event_of json) k row s.events l.events h.events
                      ∙ ground arith,
                  record {
                    events =
                        Holds-ignore_new db law (event_of json) k row event s.events l.events
                          (event_of-row event) absent h.events;
                    subs = h.subs;
                    deliveries = h.deliveries;
                    contracts = h.contracts;
                    leases = h.leases;
                  },
                )
          | inr (old, there) ↦
              rw (there, Ledger.record_event)
                (
                  ignore-Holds db law (event_of json) k row s.events l.events h.events
                      ∙ ground arith,
                  record {
                    events =
                        Holds-ignore_old db law (event_of json) k row old s.events l.events there
                          h.events;
                    subs = h.subs;
                    deliveries = h.deliveries;
                    contracts = h.contracts;
                    leases = h.leases;
                  },
                )
        ]

    pub put_subscription-Implements :
        (sub : Subscription)
        → Implements (Server.put_subscription db json sub s) (Ledger.put_subscription sub l)
    unfolding Server.put_subscription Ledger.put_subscription
    put_subscription-Implements sub = record {
      events = h.events;
      subs =
          Holds-replace db law (subscription_of json) sub.id (subscription_row json sub) sub
            s.subscriptions l.subs (subscription_of-row sub) h.subs;
      deliveries = h.deliveries;
      contracts = h.contracts;
      leases = h.leases;
    }

    pub delete_subscription-Implements :
        (sub_id : String)
        → Implements
            (Server.delete_subscription db json sub_id s)
            (Ledger.delete_subscription sub_id l)
    unfolding Server.delete_subscription Ledger.delete_subscription
    delete_subscription-Implements sub_id = record {
      events = h.events;
      subs = Holds-delete db law (subscription_of json) sub_id s.subscriptions l.subs h.subs;
      deliveries = h.deliveries;
      contracts = h.contracts;
      leases = h.leases;
    }

    pub put_delivery-Implements :
        (d : Delivery) → Implements (Server.put_delivery db json d s) (Ledger.put_delivery d l)
    unfolding Server.put_delivery Ledger.put_delivery
    put_delivery-Implements d = record {
      events = h.events;
      subs = h.subs;
      deliveries =
          Holds-replace db law (λ (x : Delivery). x) (d.event_id, (d.source, d.subscription_id)) d d
            s.deliveries l.deliveries refl h.deliveries;
      contracts = h.contracts;
      leases = h.leases;
    }

    pub put_contract-Implements :
        (c : EventContract) → Implements (Server.put_contract db json c s) (Ledger.put_contract c l)
    unfolding Server.put_contract Ledger.put_contract
    put_contract-Implements c = record {
      events = h.events;
      subs = h.subs;
      deliveries = h.deliveries;
      contracts =
          Holds-replace db law (contract_of json) c.island (contract_row json c) c s.contracts
            l.contracts (contract_of-row c) h.contracts;
      leases = h.leases;
    }

    -- The leases alone change.
    with_leases :
        (t : db.Table String LeaseRow) (d : Dict String Lease)
        → Holds db law lease_of t d
        → Implements (record s { leases = t }) (record l { leases = d })
    with_leases t d held = record {
      events = h.events;
      subs = h.subs;
      deliveries = h.deliveries;
      contracts = h.contracts;
      leases = held;
    }

    pub acquire_lease-Simulates :
        (key holder : String) (until now : ℕ)
        → Simulates
            (Server.acquire_lease db json key holder until now s)
            (Ledger.acquire_lease key holder until now l)
    unfolding Server.acquire_lease Ledger.acquire_lease Ledger.is_free
    acquire_lease-Simulates key holder until now =
        let row : LeaseRow = record { lease_key = key; holder = holder; until = until } in
        let lease : Lease = record { holder = holder; until = until } in
        let t = (db.insert_or_ignore key row s.leases).1 in
        let test = λ (old : LeaseRow). leb old.until now in
        let check = λ (old : Lease). leb old.until now in
        let f = λ (old : LeaseRow). record old { holder = holder; until = until } in
        let inserted = ignore-Holds db law lease_of key row s.leases l.leases h.leases in
        elim (Option-cases (lookup key l.leases)) [
          | inl absent ↦
              let yes' : (db.insert_or_ignore key row s.leases).0 ≡ true =
                inserted ∙ ground arith in
              rw (absent, yes', Ledger.acquire_lease)
                (
                  refl,
                  with_leases _ _ (
                      Holds-ignore_new db law lease_of key row lease s.leases l.leases refl absent
                        h.leases),
                )
          | inr (cur, there) ↦
              let no' : (db.insert_or_ignore key row s.leases).0 ≡ false =
                inserted ∙ ground arith in
              let held =
                Holds-ignore_old db law lease_of key row cur s.leases l.leases there h.leases in
              let updated =
                update-Holds db law lease_of test check (λ r. refl) key f t l.leases held in
              elim (Bool-cases (leb cur.until now)) [
                | inl over ↦
                    rw (no', there, over, Ledger.acquire_lease, Ledger.is_free)
                      (
                        updated ∙ ground arith,
                        with_leases _ _ (
                            Holds-update_hit db law lease_of test check (λ r. refl) key f
                              (λ old. lease) cur t l.leases (λ r. refl) there over held),
                      )
                | inr live ↦
                    rw (no', there, live, Ledger.acquire_lease, Ledger.is_free)
                      (
                        updated ∙ ground arith,
                        with_leases _ l.leases (
                            Holds-update_miss db law lease_of test check (λ r. refl) key f t
                              l.leases (ground arith) held),
                      )
              ]
        ]

    pub release_lease-Implements :
        (key holder : String)
        → Implements (Server.release_lease db json key holder s) (Ledger.release_lease key holder l)
    unfolding Server.release_lease Ledger.release_lease
    release_lease-Implements key holder =
        let test = λ (old : LeaseRow). old.holder == holder in
        let check = λ (old : Lease). old.holder == holder in
        elim (Option-cases (lookup key l.leases)) [
          | inl absent ↦
              rw (absent, Ledger.release_lease)
                (with_leases _ l.leases (
                  Holds-delete_miss db law lease_of test check (λ r. refl) key s.leases l.leases
                    (ground arith) h.leases))
          | inr (cur, there) ↦ elim (Bool-cases (cur.holder == holder)) [
            | inl own ↦
                rw (there, own, Ledger.release_lease)
                  (with_leases _ _ (
                    Holds-delete_hit db law lease_of test check (λ r. refl) key cur s.leases
                      l.leases there own h.leases))
            | inr other ↦
                rw (there, other, Ledger.release_lease)
                  (with_leases _ l.leases (
                    Holds-delete_miss db law lease_of test check (λ r. refl) key s.leases l.leases
                      (ground arith) h.leases))
          ]
        ]
