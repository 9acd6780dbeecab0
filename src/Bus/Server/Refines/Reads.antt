-- ===== src/Bus/Server/Refines/Reads.antt =====
-- bus/store/server.py: each method that reads, on both ledgers.
use islands_kernel.Base.{
  ℕ, String, ◌≡◌, refl, ap, ◌&&◌, List, [], ◌∷◌, sym, arith, string_eq, pair_eq, ◌==◌, Option-cases,
  map, inl, inr,
}
use islands_kernel.Base.Dict.{filter, values}
use islands_kernel.Base.Sql.{SameElements, Engine, IsLawful, Json, IsFaithful}
use islands_kernel.Base.Sql.Held.{rows-Holds, all_rows-Holds, In-filter}
use islands_kernel.Bus.Model.{Subscription, Status, Delivery, EventContract}
use islands_kernel.Bus.TypeMatch.{type_matches}
use islands_kernel.Bus.Ledger
use islands_kernel.Bus.Ledger.{Ledger, is_listed, same_status}
use islands_kernel.Bus.Ledger.Keyed.{IsSound}
use islands_kernel.Bus.Server
use islands_kernel.Bus.Server.{
  ServerLedger, EventRow, event_of, SubscriptionRow, subscription_of, contract_of, is_joined,
  LeaseRow,
}
use islands_kernel.Bus.Server.Refines.Steps.{Implements}

map_id : {A : Type 0} (xs : List A) → map (λ (x : A). x) xs ≡ xs
map_id [] = refl
map_id (x ∷ xs) = ap (λ ys. x ∷ ys) (map_id xs)

module _ (db : Engine) (law : IsLawful db) (json : Json) (faithful : IsFaithful json) where
  -- Every read of the server gives what the memory's read gives; of a list, the same elements.
  pub record Agrees (s : ServerLedger db json) (l : Ledger) : Type 0 where
    pub event :
        (source event_id : String)
        → Server.get_event db json source event_id s ≡ Ledger.get_event source event_id l
    pub subscription :
        (sub_id : String)
        → Server.get_subscription db json sub_id s ≡ Ledger.get_subscription sub_id l
    pub delivery :
        (event_id source subscription_id : String)
        → Server.get_delivery db json event_id source subscription_id s
          ≡ Ledger.get_delivery event_id source subscription_id l
    pub held :
        (key : String) (now : ℕ) → Server.lease_held db json key now s ≡ Ledger.lease_held key now l
    pub subscriptions :
        (org : String)
        → SameElements (Server.list_subscriptions db json org s) (Ledger.list_subscriptions org l)
    pub matching :
        (org event_type : String)
        → SameElements
            (Server.matching_subscriptions db json org event_type s)
            (Ledger.matching_subscriptions org event_type l)
    pub deliveries :
        (org : String) (status : Status)
        → SameElements
            (Server.list_deliveries_by_status db json org status s)
            (Ledger.list_deliveries_by_status org status l)
    pub contracts : SameElements (Server.list_contracts db json s) (Ledger.list_contracts l)

  module _ (s : ServerLedger db json) (l : Ledger) (h : Implements db law json faithful s l)
      (v : IsSound l) where
    lease_held-agrees :
        (key : String) (now : ℕ) → Server.lease_held db json key now s ≡ Ledger.lease_held key now l
    unfolding Server.lease_held Ledger.lease_held
    lease_held-agrees key now = elim (Option-cases (db.find key s.leases)) [
      | inl absent ↦ ground (arith, h.leases key)
      | inr (row, there) ↦ ground (arith, h.leases key)
    ]

    delivery-agrees :
        (event_id source subscription_id : String)
        → Server.get_delivery db json event_id source subscription_id s
          ≡ Ledger.get_delivery event_id source subscription_id l
    unfolding Server.get_delivery Ledger.get_delivery
    delivery-agrees event_id source subscription_id =
        elim (Option-cases (db.find (event_id, (source, subscription_id)) s.deliveries)) [
          | inl absent ↦ ground (arith, h.deliveries (event_id, (source, subscription_id)))
          | inr (row, there) ↦ ground (arith, h.deliveries (event_id, (source, subscription_id)))
        ]

    subscriptions-agree :
        (org : String)
        → SameElements (Server.list_subscriptions db json org s) (Ledger.list_subscriptions org l)
    unfolding Server.list_subscriptions Ledger.list_subscriptions subscription_of
    subscriptions-agree org sub =
        rows-Holds db law (subscription_of json) (λ (row : SubscriptionRow json). row.org == org)
          (λ (x : Subscription). x.org == org) (λ r. refl) (λ (x : Subscription). x.id)
          s.subscriptions l.subs sub v.subs h.subs

    matching-agree :
        (org event_type : String)
        → SameElements
            (Server.matching_subscriptions db json org event_type s)
            (Ledger.matching_subscriptions org event_type l)
    unfolding Server.matching_subscriptions Ledger.matching_subscriptions Ledger.list_subscriptions
    matching-agree org event_type sub =
        let listed = subscriptions-agree org sub in
        let ours =
          In-filter (λ (x : Subscription). type_matches x.type event_type) sub
            (Server.list_subscriptions db json org s) in
        let theirs =
          In-filter (λ (x : Subscription). x.org == org && type_matches x.type event_type) sub
            (values l.subs) in
        let mine = In-filter (λ (x : Subscription). x.org == org) sub (values l.subs) in
        (
          λ i. ground (arith, listed, ours, theirs, mine),
          λ i. ground (arith, listed, ours, theirs, mine),
        )

    joined-agrees :
        (org : String) (status : Status) (d : Delivery)
        → is_joined db json org status s d ≡ is_listed org status l d
    unfolding is_joined is_listed event_of
    joined-agrees org status d = elim (Option-cases (db.find (d.source, d.event_id) s.events)) [
      | inl absent ↦ ground (arith, h.events (d.source, d.event_id))
      | inr (row, there) ↦ ground (arith, h.events (d.source, d.event_id))
    ]

    deliveries-agree :
        (org : String) (status : Status)
        → SameElements
            (Server.list_deliveries_by_status db json org status s)
            (Ledger.list_deliveries_by_status org status l)
    unfolding Server.list_deliveries_by_status Ledger.list_deliveries_by_status
    deliveries-agree org status d =
        rw (map_id (filter (is_joined db json org status s) (db.rows s.deliveries))) at (
          rows-Holds db law (λ (x : Delivery). x) (is_joined db json org status s)
            (is_listed org status l) (λ r. sym (joined-agrees org status r))
            (λ (x : Delivery). (x.event_id, (x.source, x.subscription_id))) s.deliveries
            l.deliveries d v.deliveries h.deliveries)

    contracts-agree : SameElements (Server.list_contracts db json s) (Ledger.list_contracts l)
    unfolding Server.list_contracts Ledger.list_contracts
    contracts-agree c =
        all_rows-Holds db law (contract_of json) (λ (x : EventContract). x.island) s.contracts
          l.contracts c v.contracts h.contracts

    pub Implements-Agrees : Agrees s l
    unfolding Server.get_event Ledger.get_event Server.get_subscription Ledger.get_subscription
    Implements-Agrees = record {
      event = λ source event_id. h.events (source, event_id);
      subscription = h.subs;
      delivery = delivery-agrees;
      held = lease_held-agrees;
      subscriptions = subscriptions-agree;
      matching = matching-agree;
      deliveries = deliveries-agree;
      contracts = contracts-agree;
    }
