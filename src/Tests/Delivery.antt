-- ===== src/Tests/Delivery.antt =====
-- A push that the subscriber answers with 204.
use islands_kernel.Base.{ℕ, ◌≡◌, refl, none, some, [], inl, arith}
use islands_kernel.Bus.Value.{end}
use islands_kernel.Bus.Model.{Event, Subscription}
use islands_kernel.Bus.Delivery.{Outside, deliver_routed}
use islands_kernel.Bus.Delivery.Routed.{deliver_routed_iff}

abbrev outside : Outside
outside = record {
  World = ℕ;
  handler = λ name event w. (none, w);
  post = λ url body audience w. ((none, 204), w);
}

abbrev event : Event
event = record {
  id = "e1";
  type = "crm.lead";
  schema = "lead";
  source = "crm";
  org = "acme";
  principal = "ann";
  occurred_at = "now";
  trace = end;
  payload = end;
}

abbrev sub : Subscription
sub = record {
  id = "sub1";
  org = "acme";
  consumer = "mailer";
  type = "crm.*";
  target = record {
    kind = some "http";
    key = none;
    url = some (some "https://m");
    audience = none;
  };
  grant_ref = "g1";
}

deliver_routed_iff_example : (deliver_routed outside [] sub event 0).0 ≡ none
deliver_routed_iff_example =
    (deliver_routed_iff outside [] sub event 0).1
      (inl (refl, (some "https://m", refl, refl, omega arith, omega arith)))
