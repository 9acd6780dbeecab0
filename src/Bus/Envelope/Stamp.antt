-- ===== src/Bus/Envelope/Stamp.antt =====
-- What an accepted envelope is: its text fields, its type, and who it is stamped for.
use islands_kernel.Base.{String, ◌≡◌, ◌≢◌, true, Option, none, some, arith, string_eq, ok}
use islands_kernel.Bus.Value.{Value, text, obj, Fields}
use islands_kernel.Bus.Model.{Event}
use islands_kernel.Bus.Envelope.{
  Draft, FieldName, is_event_type, require_text, require_type, is_trace, require_dict,
  optional_text, validate_envelope,
}

-- A text that is not empty.
abbrev pub IsText : Value → String → Type 0
IsText v s = (v ≡ text s) × (s ≢ "")

-- The event has the draft's fields, at the types that the bus requires of them.
pub record IsReading (ev : Draft) (event : Event) : Type 0 where
  pub id : IsText ev.id event.id
  pub type : ev.type ≡ text event.type
  pub type_form : is_event_type event.type ≡ true
  pub schema : IsText ev.schema event.schema
  pub source : IsText ev.source event.source
  pub org : ev.org ≡ some event.org
  pub org_named : ◌≢◌ {A = String} event.org ""
  pub principal : ev.principal ≡ event.principal
  pub principal_named : ◌≢◌ {A = String} event.principal ""
  pub occurred_at : IsText ev.occurred_at event.occurred_at
  pub trace : ev.trace ≡ event.trace
  pub trace_form : is_trace event.trace ≡ true
  pub payload : ev.payload ≡ obj event.payload

require_text_sound :
    (name : FieldName) (v : Value) (s : String) → require_text name v ≡ ok s → IsText v s
unfolding require_text
require_text_sound name v s h = (ground arith, ground arith)

require_type_sound :
    (v : Value) (s : String) → require_type v ≡ ok s → (v ≡ text s) × (is_event_type s ≡ true)
unfolding require_type
require_type_sound v s h = (ground arith, ground arith)

require_dict_sound : (v : Value) (fs : Fields) → require_dict v ≡ ok fs → v ≡ obj fs
unfolding require_dict
require_dict_sound v fs h = ground arith

text_sound : (s t : String) → text s ≡ text t → s ≡ t
text_sound s t h = cc

optional_text_sound : (o : Option String) (s : String) → optional_text o ≡ text s → o ≡ some s
optional_text_sound none s h = cc
optional_text_sound (some t) s h = cc

-- An envelope that is accepted is read as an event with the draft's fields.
pub validate_envelope_sound :
    (ev : Draft) (event : Event) → validate_envelope ev ≡ ok event → IsReading ev event
unfolding validate_envelope
validate_envelope_sound ev event h = record {
  id = ground (arith, require_text_sound FieldName.id ev.id event.id);
  type = ground (arith, require_type_sound ev.type event.type);
  type_form = ground (arith, require_type_sound ev.type event.type);
  schema = ground (arith, require_text_sound FieldName.schema ev.schema event.schema);
  source = ground (arith, require_text_sound FieldName.source ev.source event.source);
  org =
      optional_text_sound ev.org event.org
        (ground (arith, require_text_sound FieldName.org (optional_text ev.org) event.org));
  org_named = ground (arith, require_text_sound FieldName.org (optional_text ev.org) event.org);
  principal =
      text_sound ev.principal event.principal (
        ground (arith, require_text_sound FieldName.principal (text ev.principal) event.principal));
  principal_named =
      ground (arith, require_text_sound FieldName.principal (text ev.principal) event.principal);
  occurred_at =
      ground (arith, require_text_sound FieldName.occurred_at ev.occurred_at event.occurred_at);
  trace = ground arith;
  trace_form = ground arith;
  payload = ground (arith, require_dict_sound ev.payload event.payload);
}
