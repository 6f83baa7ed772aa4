-- ===== src/RecordGate/Export.antt =====
-- bridge.py: the validation of the audit events of an operation before they are exported.
pub mod Order
use Prim.Native.String.{◌++◌ as str_append}
use vap_spec.Base.{
  ℕ, Bool, true, false, not, ◌&&◌, ◌||◌, Option, none, some, String, List, [], ◌∷◌, str_eq,
  if◌then◌else◌,
}
use vap_spec.Runtime.Json.{Json, int}
use vap_spec.Runtime.Request.{◌>>=◌, ◌>>◌, check}
use vap_spec.RecordGate.Envelope.{
  Jcs, get, text_at, has_text, has_true, digest, has_digest, verified_body,
}
use vap_spec.RecordGate.Authority.{authorize}

pub data EventType : Type 0 where
  request_event dispatch_event result_event unknown_event : EventType

abbrev pub type_name : EventType → String
type_name request_event = "request"
type_name dispatch_event = "dispatch"
type_name result_event = "result"
type_name unknown_event = "unknown"

abbrev pub type_of : String → Option EventType
type_of s =
    if str_eq s "request"
    then some request_event
    else if str_eq s "dispatch"
    then some dispatch_event
    else if str_eq s "result"
    then some result_event
    else if str_eq s "unknown"
    then some unknown_event
    else none

abbrev pub same_type : EventType → EventType → Bool
same_type s t = str_eq (type_name s) (type_name t)

-- suffix in seen
abbrev pub has_type : EventType → List EventType → Bool
has_type t [] = false
has_type t (s ∷ rest) = same_type s t || has_type t rest

pub record Seen : Type 0 where
  pub request_seen : Bool
  pub result_seen : Bool
  pub seen : List EventType

-- What the events are validated for.
pub record ExportKeys : Type 0 where
  pub audit_public : String
  pub backend_public : String
  pub authority_public : String
  pub evaluation_id : String
  pub policy_digest : String

-- `checked_at` of a recorded authorization. The code passes any value on to `authorize`; the model
-- takes an integer that is not negative, and ends with an error on another value.
abbrev pub as_time : Json → Option ℕ
as_time (int n) = some n
as_time _ = none

module _ (lib : Jcs) (keys : ExportKeys) (oid od : String) where
  -- audit_event_binding and audit_event_identity
  unfoldable pub event_type : Json → Option (EventType × Json)
  event_type event = do
    b ← verified_body lib event keys.audit_public "event" "audit" true
    payload ← get "payload" b
    check (
        has_text "evaluation_id" keys.evaluation_id b
        && (has_text "policy_digest" keys.policy_digest b
            && (has_text "source_id" "gate-audit" b && has_text "operation_digest" od payload)))
    suffix ← text_at "event_type" b
    t ← type_of suffix
    check (has_text "event_id" (str_append oid (str_append ":" suffix)) b)
    some (t, payload)

  -- The authorization that a request event records holds at the time that it records.
  unfoldable pub is_authorized_again : Json → Option (Unit {0})
  is_authorized_again payload = do
    wanted ← get "intent" payload
    check (has_digest lib od wanted)
    request ← get "signed_request" payload
    signed ← get "intent" request
    check (has_digest lib od signed)
    recorded ← get "authorization" payload
    checked_at ← get "checked_at" recorded
    now ← as_time checked_at
    snapshot ← get "revocation_snapshot" recorded
    (op, identity) ← authorize lib keys.authority_public now snapshot request
    check (has_digest lib od op)
    d ← digest lib identity
    check (has_digest lib d recorded)

  -- native_result_binding
  unfoldable pub is_receipted : Json → Option (Unit {0})
  is_receipted payload = do
    envelope ← get "receipt" payload
    receipt ← verified_body lib envelope keys.backend_public "backend_receipt" "backend" false
    check (
        has_text "operation_digest" od receipt
        && (has_text "operation_id" oid receipt && has_true "committed" receipt))

  -- The tests on one event, by its type; its type was added to `seen` before.
  unfoldable pub next_seen : EventType → Json → Seen → Option Seen
  next_seen request_event payload s =
      is_authorized_again payload >> some (record s { request_seen = true })
  next_seen dispatch_event payload s = do
    wanted ← get "intent" payload
    check (has_digest lib od wanted)
    check s.request_seen
    some s
  next_seen unknown_event payload s = do
    check s.request_seen
    check (not s.result_seen)
    check (has_type dispatch_event s.seen)
    some s
  next_seen result_event payload s = do
    check s.request_seen
    check (has_type dispatch_event s.seen)
    is_receipted payload
    some (record s { result_seen = true })

  unfoldable pub validate_event : Json → Seen → Option (EventType × Seen)
  validate_event event s = do
    (t, payload) ← event_type event
    check (not (has_type t s.seen))
    s' ← next_seen t payload (record s { seen = t ∷ s.seen })
    some (t, s')

  unfoldable pub validate_all : List Json → Seen → Option Seen
  validate_all [] s = some s
  validate_all (event ∷ rest) s = validate_event event s >>= λ r. validate_all rest r.1

  abbrev pub nothing_seen : Seen
  nothing_seen = record { request_seen = false; result_seen = false; seen = [] }

  -- `validate_events`: whether there is a result.
  unfoldable pub validate_events : List Json → Option Bool
  validate_events events = do
    s ← validate_all events nothing_seen
    check (not s.result_seen || s.request_seen && has_type dispatch_event s.seen)
    some s.result_seen
