-- ===== src/Bus/Server.antt =====
-- bus/store/server.py: `ServerLedgerStore`, the ledger on SQLite. The lock makes each method one
-- step.
pub mod Refines
use mathlib.Core.Option
use islands_kernel.Base.{
  ℕ, String, Bool, true, false, ◌&&◌, Option, none, some, List, ◌==◌, string_eq, pair_eq, map,
  if◌then◌else◌, leb, ltb,
}
use islands_kernel.Base.Dict.{filter}
use islands_kernel.Base.Sql.{Engine, Json}
use islands_kernel.Bus.Value.{Fields}
use islands_kernel.Bus.Model.{Event, Target, Subscription, Status, Delivery, EventContract}
use islands_kernel.Bus.TypeMatch.{type_matches}
use islands_kernel.Bus.Ledger.{DeliveryKey, same_status}

module _ (json : Json) where
  -- A row of the table `events`.
  pub record EventRow : Type 0 where
    pub source : String
    pub id : String
    pub type : String
    pub schema : String
    pub org : String
    pub principal : String
    pub occurred_at : String
    pub trace_json : json.Text Fields
    pub data_json : json.Text Fields

  unfoldable pub event_row : Event → EventRow
  event_row event = record {
    source = event.source;
    id = event.id;
    type = event.type;
    schema = event.schema;
    org = event.org;
    principal = event.principal;
    occurred_at = event.occurred_at;
    trace_json = json.dumps event.trace;
    data_json = json.dumps event.payload;
  }

  unfoldable pub event_of : EventRow → Event
  event_of row = record {
    id = row.id;
    type = row.type;
    schema = row.schema;
    source = row.source;
    org = row.org;
    principal = row.principal;
    occurred_at = row.occurred_at;
    trace = json.loads row.trace_json;
    payload = json.loads row.data_json;
  }

  -- A row of the table `subscriptions`.
  pub record SubscriptionRow : Type 0 where
    pub id : String
    pub org : String
    pub consumer : String
    pub type : String
    pub target_json : json.Text Target
    pub grant_ref : String

  unfoldable pub subscription_row : Subscription → SubscriptionRow
  subscription_row sub = record {
    id = sub.id;
    org = sub.org;
    consumer = sub.consumer;
    type = sub.type;
    target_json = json.dumps sub.target;
    grant_ref = sub.grant_ref;
  }

  unfoldable pub subscription_of : SubscriptionRow → Subscription
  subscription_of row = record {
    id = row.id;
    org = row.org;
    consumer = row.consumer;
    type = row.type;
    target = json.loads row.target_json;
    grant_ref = row.grant_ref;
  }

  -- A row of the table `contracts`.
  pub record ContractRow : Type 0 where
    pub island : String
    pub emits_json : json.Text (List String)
    pub consumes_json : json.Text (List String)

  unfoldable pub contract_row : EventContract → ContractRow
  contract_row c = record {
    island = c.island;
    emits_json = json.dumps c.emits;
    consumes_json = json.dumps c.consumes;
  }

  unfoldable pub contract_of : ContractRow → EventContract
  contract_of row = record {
    island = row.island;
    emits = json.loads row.emits_json;
    consumes = json.loads row.consumes_json;
  }

-- A row of the table `leases`.
pub record LeaseRow : Type 0 where
  pub lease_key : String
  pub holder : String
  pub until : ℕ

module _ (db : Engine) (json : Json) where
  -- The tables of `_SCHEMA`. The columns of `deliveries` are the fields of `Delivery`.
  pub record ServerLedger : Type 0 where
    pub events : db.Table (String × String) (EventRow json)
    pub subscriptions : db.Table String (SubscriptionRow json)
    pub deliveries : db.Table DeliveryKey Delivery
    pub contracts : db.Table String (ContractRow json)
    pub leases : db.Table String LeaseRow

  unfoldable pub create_ledger : ServerLedger
  create_ledger = record {
    events = db.create;
    subscriptions = db.create;
    deliveries = db.create;
    contracts = db.create;
    leases = db.create;
  }

  unfoldable pub record_event : Event → ServerLedger → Bool × ServerLedger
  record_event event s =
      let (inserted, t) =
        db.insert_or_ignore (event.source, event.id) (event_row json event) s.events in
      (inserted, record s { events = t })

  unfoldable pub get_event : String → String → ServerLedger → Option Event
  get_event source event_id s = Option.map (event_of json) (db.find (source, event_id) s.events)

  unfoldable pub put_subscription : Subscription → ServerLedger → ServerLedger
  put_subscription sub s = record s {
    subscriptions = db.insert_or_replace sub.id (subscription_row json sub) s.subscriptions;
  }

  unfoldable pub get_subscription : String → ServerLedger → Option Subscription
  get_subscription sub_id s = Option.map (subscription_of json) (db.find sub_id s.subscriptions)

  unfoldable pub delete_subscription : String → ServerLedger → ServerLedger
  delete_subscription sub_id s = record s {
    subscriptions = db.delete sub_id (λ row. true) s.subscriptions;
  }

  unfoldable pub list_subscriptions : String → ServerLedger → List Subscription
  list_subscriptions org s =
      map (subscription_of json)
        (filter (λ (row : SubscriptionRow json). row.org == org) (db.rows s.subscriptions))

  unfoldable pub matching_subscriptions : String → String → ServerLedger → List Subscription
  matching_subscriptions org event_type s =
      filter (λ (sub : Subscription). type_matches sub.type event_type) (list_subscriptions org s)

  unfoldable pub put_delivery : Delivery → ServerLedger → ServerLedger
  put_delivery d s = record s {
    deliveries = db.insert_or_replace (d.event_id, (d.source, d.subscription_id)) d s.deliveries;
  }

  unfoldable pub get_delivery : String → String → String → ServerLedger → Option Delivery
  get_delivery event_id source subscription_id s =
      db.find (event_id, (source, subscription_id)) s.deliveries

  -- The JOIN on the primary key of `events`, and the WHERE clause.
  unfoldable pub is_joined : String → Status → ServerLedger → Delivery → Bool
  is_joined org status s d = elim (db.find (d.source, d.event_id) s.events) [
    | none ↦ false
    | some row ↦ row.org == org && same_status d.status status
  ]

  unfoldable pub list_deliveries_by_status : String → Status → ServerLedger → List Delivery
  list_deliveries_by_status org status s = filter (is_joined org status s) (db.rows s.deliveries)

  unfoldable pub put_contract : EventContract → ServerLedger → ServerLedger
  put_contract c s = record s {
    contracts = db.insert_or_replace c.island (contract_row json c) s.contracts;
  }

  unfoldable pub list_contracts : ServerLedger → List EventContract
  list_contracts s = map (contract_of json) (db.rows s.contracts)

  -- The UPDATE runs only where the INSERT was ignored.
  unfoldable pub acquire_lease : String → String → ℕ → ℕ → ServerLedger → Bool × ServerLedger
  acquire_lease key holder until now s =
      let row : LeaseRow = record { lease_key = key; holder = holder; until = until } in
      let (inserted, t) = db.insert_or_ignore key row s.leases in
      let (updated, u) =
        db.update key (λ (old : LeaseRow). leb old.until now)
          (λ (old : LeaseRow). record old { holder = holder; until = until }) t in
      if inserted then (true, record s { leases = t }) else (updated, record s { leases = u })

  unfoldable pub release_lease : String → String → ServerLedger → ServerLedger
  release_lease key holder s = record s {
    leases = db.delete key (λ (row : LeaseRow). row.holder == holder) s.leases;
  }

  unfoldable pub lease_held : String → ℕ → ServerLedger → Bool
  lease_held key now s = elim (db.find key s.leases) [ none ↦ false | some row ↦ ltb now row.until ]
