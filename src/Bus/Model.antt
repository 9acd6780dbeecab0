-- ===== src/Bus/Model.antt =====
-- bus/model.py: the rows of the ledger. `last_error` is the name of an exception's class.
use islands_kernel.Base.{ℕ, String, Option, List}
use islands_kernel.Bus.Value.{Fields}

-- An event whose envelope is valid; `payload` is the source's `data`.
pub record Event : Type 0 where
  pub id : String
  pub type : String
  pub schema : String
  pub source : String
  pub org : String
  pub principal : String
  pub occurred_at : String
  pub trace : Fields
  pub payload : Fields

-- The `target` dict of a subscription, by the keys that the code reads. `kind` and `key` are read by
-- `get`, for which a null is a missing key; `some none` is a `url` or an `audience` that is null.
pub record Target : Type 0 where
  pub kind : Option String
  pub key : Option String
  pub url : Option (Option String)
  pub audience : Option (Option String)

pub record Subscription : Type 0 where
  pub id : String
  pub org : String
  pub consumer : String
  pub type : String
  pub target : Target
  pub grant_ref : String

pub data Status : Type 0 where
  pending delivered dead : Status

pub record Delivery : Type 0 where
  pub event_id : String
  pub source : String
  pub subscription_id : String
  pub status : Status
  pub attempts : ℕ
  pub last_error : Option String
  pub next_attempt_at : Option ℕ

pub record EventContract : Type 0 where
  pub island : String
  pub emits : List String
  pub consumes : List String

pub record Lease : Type 0 where
  pub holder : String
  pub until : ℕ
