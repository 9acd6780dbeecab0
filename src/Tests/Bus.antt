-- ===== src/Tests/Bus.antt =====
-- A publisher with a grant on her org, a subscriber, and a delivery that raises.
use islands_kernel.Base.{
  ℕ, suc, ◌<◌, ◌≤◌, ◌+◌, ◌≡◌, ◌⊎◌, refl, true, false, none, some, [], ◌∷◌, inl, inr, arith,
  string_eq, pair_eq, option_eq, ok, is_ok,
}
use islands_kernel.Base.Dict.{lookup}
use islands_kernel.Identity.Model.{Grant, org, to_use}
use islands_kernel.Identity.Authorize.{authorize, is_revoked, satisfies, covers}
use islands_kernel.Bus.Envelope.Stamp.{IsReading}
use islands_kernel.Bus.Value.{text, obj, Fields, is_true, get, end, field}
use islands_kernel.Bus.Model.{Event, Subscription, Delivery, pending, delivered, dead}
use islands_kernel.Bus.Ledger
use islands_kernel.Bus.Ledger.{Ledger, DeliveryKey, acquire_lease, lease_held, get_event}
use islands_kernel.Bus.Ledger.Keyed.{IsSound}
use islands_kernel.Bus.Ledger.Leases.{acquire, release, lease_calls, acquire_lease_exclusive}
use islands_kernel.Bus.Envelope.{
  Draft, validate_envelope, require_type, is_event_type, require_text, is_trace, require_dict,
  validate_data, stamp_envelope, SchemaRegistry,
}
use islands_kernel.Bus.Dispatch.{Env, default_policy, Bus, is_done, outcome_row, attempt, dispatch}
use islands_kernel.Bus.Dispatch.Attempt.{attempt_cases, outcome_row-failed}
use islands_kernel.Bus.Dispatch.Final.{row_at, row_of, dispatch_final}
use islands_kernel.Bus.Service.{
  Receipt, allows, validate, accept, draw_event_id, publish, publish_draft, replay,
}
use islands_kernel.Bus.Service.Publish.{publish_recorded, publish_again}
use islands_kernel.Bus.Service.Stamped.{publish_stamped}
use islands_kernel.Bus.Service.Replay.{replay_keeps}

abbrev acme_grant : Grant
acme_grant = record {
  id = "g1";
  principal_id = "ann";
  target = record { kind = org; id = "acme" };
  access = to_use;
  scopes_subset = none;
  granted_by = "root";
  granted_at = 0;
  revoked_at = none;
}

-- A clock that ticks when it is read. Every delivery raises.
abbrev env : Env
env = record {
  World = ℕ;
  now = λ w. (w, suc w);
  now_iso = λ w. ("now", w);
  token = λ prefix w. (prefix, w);
  deliver = λ sub event w. (some "LookupError", w);
  grants_for = λ w caller. acme_grant ∷ [];
}

abbrev trace : Fields
trace = field "store" (text "s") (field "ref" (text "r") end)

abbrev pub event : Event
event = record {
  id = "e1";
  type = "crm.lead";
  schema = "lead";
  source = "crm";
  org = "acme";
  principal = "ann";
  occurred_at = "now";
  trace = trace;
  payload = end;
}

abbrev draft : Draft
draft = record {
  id = text "e1";
  type = text "crm.lead";
  schema = text "lead";
  source = text "crm";
  org = some "acme";
  principal = "ann";
  occurred_at = text "now";
  trace = trace;
  payload = obj end;
}

abbrev pub sub : Subscription
sub = record {
  id = "sub1";
  org = "acme";
  consumer = "mailer";
  type = "crm.*";
  target = record { kind = none; key = none; url = none; audience = none };
  grant_ref = "g1";
}

abbrev pub done_row : Delivery
done_row = record {
  event_id = "e0";
  source = "crm";
  subscription_id = "sub1";
  status = delivered;
  attempts = 1;
  last_error = none;
  next_attempt_at = none;
}

abbrev stuck_row : Delivery
stuck_row = record {
  event_id = "e0";
  source = "crm";
  subscription_id = "sub0";
  status = pending;
  attempts = 1;
  last_error = some "LookupError";
  next_attempt_at = some 9;
}

abbrev done_key : DeliveryKey
done_key = ("e0", ("crm", "sub1"))

abbrev ledger : Ledger
ledger = record Ledger.empty {
  subs = ("sub1", sub) ∷ [];
  deliveries = (done_key, done_row) ∷ (("e0", ("crm", "sub0")), stuck_row) ∷ [];
}

abbrev bus : Bus env
bus = record { ledger = ledger; world = 100 }

abbrev schemas : SchemaRegistry
schemas = ("lead", end) ∷ []

acquire_lease_exclusive_example :
    let l =
      lease_calls
        (acquire "k" "ab" 50 12 ∷ release "k" "ab" ∷ [])
        (acquire_lease "k" "a" 40 10 ledger).1 in
    (lease_held "k" 20 l ≡ true) × ((acquire_lease "k" "c" 60 20 l).0 ≡ false)
unfolding acquire_lease Ledger.is_free lookup
acquire_lease_exclusive_example =
    acquire_lease_exclusive "k" "a" 40 10 ledger (acquire "k" "ab" 50 12 ∷ release "k" "ab" ∷ [])
      refl (omega arith, (inr (λ e. cc e), tt)) "c" 60 20 (omega arith)

accepted : validate_envelope draft ≡ ok event
unfolding validate_envelope require_type is_event_type require_text string_eq is_trace is_true get
    require_dict
accepted = refl

was_done : is_done (lookup done_key (ledger.deliveries)) ≡ true
unfolding is_done lookup string_eq pair_eq
was_done = refl

dispatch_final_example :
    row_of env default_policy done_key (dispatch env default_policy event bus)
    ≡ row_of env default_policy done_key bus
dispatch_final_example = dispatch_final env default_policy done_key event bus was_done

outcome_row-failed_example :
    let row = outcome_row default_policy event sub 5 100 (some "LookupError") in
    ((5 ≤ 5) × (row.status ≡ dead) × (row.next_attempt_at ≡ none))
    ⊎ ((5 < 5)
        × (row.status ≡ pending)
        × ((at : ℕ) × (row.next_attempt_at ≡ some at) × (100 ≤ at) × (at ≤ 100 + 60000)))
outcome_row-failed_example = outcome_row-failed default_policy event sub 5 100 "LookupError"

ledger-IsSound : IsSound ledger
unfolding lookup string_eq pair_eq
ledger-IsSound = record {
  events = tt;
  subs = (refl, refl, tt);
  deliveries = (refl, refl, (refl, refl, tt));
  contracts = tt;
}

stuck : row_at ("e0", ("crm", "sub0")) ledger ≡ some stuck_row
unfolding lookup string_eq pair_eq
stuck = refl

replay_keeps_example :
    row_at
      ("e0", ("crm", "sub0"))
      (replay env default_policy (λ _ _. true) schemas "e0" "crm" "acme" bus).1.ledger
    ≡ some stuck_row
replay_keeps_example =
    replay_keeps env default_policy (λ _ _. true) schemas "e0" "crm" "acme" bus
      ("e0", ("crm", "sub0")) stuck_row ledger-IsSound stuck (λ e. cc e)

abbrev receipt : Receipt
receipt = record { id = "e1"; deduped = false }

published :
    (publish_draft env default_policy (λ _ _. true) schemas draft "ann" (some "acme") bus).0
    ≡ ok receipt
unfolding publish_draft allows authorize is_revoked satisfies covers option_eq validate
    validate_envelope require_type is_event_type require_text is_trace is_true get require_dict
    validate_data lookup accept Ledger.record_event string_eq pair_eq
published = refl

publish_recorded_example : (e : Event) × (IsReading draft e) × (receipt.id ≡ e.id)
publish_recorded_example =
    let (e, may, reading, named, which) =
      publish_recorded env default_policy (λ _ _. true) schemas draft "ann" (some "acme") bus
        receipt published in
    (e, reading, named)

refused :
    is_ok (publish_draft env default_policy (λ _ _. true) [] draft "ann" (some "acme") bus).0
    ≡ false
unfolding publish_draft allows authorize is_revoked satisfies covers option_eq validate
    validate_envelope require_type is_event_type require_text is_trace is_true get require_dict
    validate_data lookup accept Ledger.record_event string_eq pair_eq
refused = refl

publish_again_example :
    let after : Bus env =
      record (publish_draft env default_policy
        (λ _ _. true)
        schemas
        draft
        "ann"
        (some "acme")
        bus).1 { world = 200 } in
    let out =
      publish_draft env default_policy (λ _ _. true) schemas draft "bob" (some "acme") after in
    (out.1.ledger ≡ after.ledger)
    × ((is_ok out.0 ≡ false) ⊎ (out.0 ≡ ok (record { id = "e1"; deduped = true })))
publish_again_example =
    publish_again env default_policy (λ _ _. true) schemas draft draft "ann" "bob" (some "acme")
      (some "acme") bus 200 receipt published refl refl

-- The body claims another principal and another org.
abbrev body : Fields
body = field "id" (text "e1") (
    field "type" (text "crm.lead") (
      field "schema" (text "lead") (
        field "source" (text "crm") (
          field "principal" (text "root") (
            field "org" (text "other") (field "trace" (obj trace) (field "data" (obj end) end)))))))

from_body :
    (publish env default_policy (λ _ _. true) schemas body "ann" (some "acme") bus).0 ≡ ok receipt
unfolding publish draw_event_id stamp_envelope publish_draft allows authorize is_revoked satisfies
    covers option_eq validate validate_envelope require_type is_event_type require_text is_trace
    is_true get require_dict validate_data lookup accept Ledger.record_event string_eq pair_eq
from_body = refl

-- The body says "root" and "other", the ledger "ann" and "acme".
publish_stamped_example :
    (e : Event) × (Ledger.get_event "crm" receipt.id
        (publish env default_policy (λ _ _. true) schemas body "ann" (some "acme") bus).1.ledger
      ≡ some e)
    × (e.principal ≡ "ann")
    × (some e.org ≡ some "acme")
unfolding Ledger.get_event lookup string_eq pair_eq get
publish_stamped_example =
    let (type, source, of_type, of_source, own_id, may, which) =
      publish_stamped env default_policy (λ _ _. true) schemas body "ann" (some "acme") bus receipt
        from_body in
    elim which [
      | inl (was_known, dup, same) ↦ cc dup
      | inr (absent, new, stored) ↦
          let (e, there, own_type, by, of) = stored in
          let named : source ≡ "crm" = cc of_source in (e, rw named at there, by, of)
    ]

attempt_cases_example : (attempt env default_policy event sub bus).world ≡ 101
unfolding Ledger.get_delivery lookup is_done Ledger.is_free string_eq pair_eq
attempt_cases_example = elim (attempt_cases env default_policy event sub bus) [
  | inl (was, e) ↦ cc was
  | inr (inl (was, busy, e)) ↦ cc busy
  | inr (inr (was, free, e)) ↦ rw e refl
]
