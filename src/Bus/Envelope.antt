-- ===== src/Bus/Envelope.antt =====
-- bus/envelope.py and bus/schema_registry.py: from a JSON body to an event that may be recorded.
pub mod Stamp
use islands_kernel.Base.{
  ℕ, String, Bool, true, false, ◌&&◌, ◌||◌, not, Option, none, some, List, [], ◌∷◌, ◌==◌, string_eq,
  if◌then◌else◌, leb, Result, ok, err, guard, ◌>>=◌, ◌>>◌,
}
use islands_kernel.Base.Dict.{Dict, lookup, insert}
use islands_kernel.Bus.Value.{Value, text, obj, null, Fields, end, get, get_or, is_true, or_value}
use islands_kernel.Bus.Model.{Event}
use islands_kernel.Bus.TypeMatch.{codes, same_code}

pub data FieldName : Type 0 where
  id schema source org principal occurred_at : FieldName

-- `EnvelopeError`, by its message.
pub data EnvelopeError : Type 0 where
  invalid_type bad_trace bad_data unknown_schema data_mismatch : EnvelopeError
  missing_field : FieldName → EnvelopeError

-- `[a-z0-9]`
unfoldable pub is_word : ℕ → Bool
is_word c = (leb b'a' c && leb c b'z') || (leb b'0' c && leb c b'9')

-- `[a-z0-9-]`
unfoldable pub is_label : ℕ → Bool
unfolding is_word
is_label c = is_word c || same_code c b'-'

-- Where a match of `^[a-z0-9]+(\.[a-z0-9-]+)+$` stands: before or in the first segment, just
-- behind a dot, or in a later segment.
pub data Place : Type 0 where
  start head dot label : Place

-- The match from a place on. `$` also stands before a line feed that ends the text.
unfoldable pub match_type : Place → List ℕ → Bool
unfolding is_word is_label
match_type start [] = false
match_type start (c ∷ cs) = is_word c && match_type head cs
match_type head [] = false
match_type head (c ∷ cs) =
    match_type (if is_word c then head else dot) cs && (is_word c || same_code c b'.')
match_type dot [] = false
match_type dot (c ∷ cs) = is_label c && match_type label cs
match_type label [] = true
match_type label (c ∷ []) = is_label c || same_code c 10
match_type label (c ∷ d ∷ cs) =
    match_type (if is_label c then label else dot) (d ∷ cs) && (is_label c || same_code c b'.')

-- `_TYPE_RE.match(ev.type)`
unfoldable pub is_event_type : String → Bool
unfolding match_type
is_event_type s = match_type start (codes s)

-- What `stamp_envelope` builds: an event whose fields are not yet validated.
pub record Draft : Type 0 where
  pub id : Value
  pub type : Value
  pub schema : Value
  pub source : Value
  pub org : Option String
  pub principal : String
  pub occurred_at : Value
  pub trace : Fields
  pub payload : Value

-- `body.get("trace") if isinstance(body.get("trace"), dict) else {}`
unfoldable pub as_dict : Value → Fields
as_dict (obj fs) = fs
as_dict _ = end

-- `event_id` is what `new_event_id` draws; `caller_org` is `claims.get("org")`.
unfoldable pub stamp_envelope : String → Fields → String → Option String → String → Draft
unfolding as_dict
stamp_envelope event_id body caller caller_org now_iso = record {
  id = or_value (get_or "id" null body) (text event_id);
  type = get_or "type" (text "") body;
  schema = get_or "schema" (text "") body;
  source = get_or "source" (text "") body;
  org = caller_org;
  principal = caller;
  occurred_at = or_value (get_or "occurredAt" null body) (text now_iso);
  trace = as_dict (get_or "trace" null body);
  payload = get_or "data" null body;
}

-- `isinstance(val, str) and val`
unfoldable pub as_text : Value → Option String
as_text (text s) = if s == "" then none else some s
as_text _ = none

-- One round of the loop over the field names.
unfoldable pub require_text : FieldName → Value → Result EnvelopeError String
unfolding as_text
require_text name v = elim (as_text v) [ none ↦ err (missing_field name) | some s ↦ ok s ]

unfoldable pub require_type : Value → Result EnvelopeError String
require_type (text s) = if is_event_type s then ok s else err invalid_type
require_type _ = err invalid_type

-- `ev.trace.get("store")` and `ev.trace.get("ref")` are true.
unfoldable pub is_trace : Fields → Bool
is_trace trace = is_true (get_or "store" null trace) && is_true (get_or "ref" null trace)

unfoldable pub require_dict : Value → Result EnvelopeError Fields
require_dict (obj fs) = ok fs
require_dict _ = err bad_data

-- `None` is no text.
abbrev pub optional_text : Option String → Value
optional_text none = null
optional_text (some s) = text s

-- `validate_envelope`. The event that it returns is the same object, at the types that the tests
-- have shown.
unfoldable pub validate_envelope : Draft → Result EnvelopeError Event
validate_envelope ev = do
  type' ← require_type ev.type
  id' ← require_text id ev.id
  schema' ← require_text schema ev.schema
  source' ← require_text source ev.source
  org' ← require_text org (optional_text ev.org)
  principal' ← require_text principal (text ev.principal)
  occurred_at' ← require_text occurred_at ev.occurred_at
  guard (is_trace ev.trace) bad_trace
  payload' ← require_dict ev.payload
  ok (record {
    id = id';
    type = type';
    schema = schema';
    source = source';
    org = org';
    principal = principal';
    occurred_at = occurred_at';
    trace = ev.trace;
    payload = payload';
  })

-- `SchemaRegistry._schemas`
abbrev pub SchemaRegistry : Type 0
SchemaRegistry = Dict String Fields

unfoldable pub register : String → Fields → SchemaRegistry → SchemaRegistry
register schema_id json_schema reg = insert schema_id json_schema reg

-- `conforms` is `jsonschema.validate`, of a library: whether it returns or raises.
unfoldable pub validate_data :
    (Fields → Fields → Bool) → SchemaRegistry → String → Fields → Result EnvelopeError (Unit {0})
validate_data conforms reg schema_id payload = elim (lookup schema_id reg) [
  | none ↦ err unknown_schema
  | some json_schema ↦ guard (conforms payload json_schema) data_mismatch
]
