-- ===== src/Runtime/Receipt.antt =====
-- payment_runtime.py: digests, the receipt that the provider signs and `verify_receipt`.
-- SHA-256 and Ed25519 are parameters. `none` is `ValueError`.
use Prim.Native.String.{◌++◌ as str_append}
use vap_spec.Base.{
  ℕ, Bool, true, false, ◌&&◌, Option, none, some, String, ◌==◌, str_eq, if◌then◌else◌, length,
  codes, all,
}
use vap_spec.Runtime.Json.{
  Json, null, int, text, dict, Fields, end, field, get_field, count_fields, JsonLib, canonical_json,
  load_json,
}
use vap_spec.Runtime.Request.{
  is_integer, is_hex, request_bytes, ◌>>=◌, ◌>>◌, check, get_text, get_int, Prepared,
}

-- What the code takes from Python and from the `cryptography` package. A key, a digest and a
-- signature are in hexadecimal.
pub record Platform : Type 0 where
  pub json : JsonLib
  pub sha256 : String → String
  pub sign : String → String → String
  pub verifies : String → String → String → Bool

unfoldable pub bytes_digest : Platform → String → String
bytes_digest p raw = str_append "sha256:" (p.sha256 raw)

abbrev pub receipt_schema : String
receipt_schema = "synthetic-loopback-payment-receipt-v0"

abbrev pub signing_domain : String
signing_domain = "VSO local payment runtime receipt v0\0"

pub data Status : Type 0 where
  settled failed : Status

abbrev pub status_text : Status → String
status_text settled = "settled"
status_text failed = "failed"

abbrev optional : Option String → Json
optional none = null
optional (some s) = text s

-- The dict literal of `_signed_receipt`, its keys sorted.
unfoldable pub payload_json : String → String → Json → Status → Option String → ℕ → Json
payload_json provider_id request_digest request status failure_reason recorded_at_ms =
    let effect_id : Option String = elim status [ settled ↦ some request_digest | failed ↦ none ] in
    dict (
      field "effect_id" (optional effect_id) (
        field "failure_reason" (optional failure_reason) (
          field "provider_id" (text provider_id) (
            field "recorded_at_ms" (int recorded_at_ms) (
              field "request" request (
                field "request_digest" (text request_digest) (
                  field "schema" (text receipt_schema)
                    (field "status" (text (status_text status)) end))))))))

abbrev envelope_json : Json → String → Json
envelope_json payload signature =
    dict (field "payload" payload (field "signature" (text signature) end))

unfoldable pub signed_receipt :
    Platform
    → (private_key provider_id : String) → Prepared
    → Status
    → Option String
    → ℕ
    → Option String
signed_receipt p private_key provider_id request status failure_reason at_ms = do
  let payload =
      payload_json provider_id (bytes_digest p request.raw) request.snapshot status failure_reason
        at_ms
  message ← canonical_json p.json payload
  let signature = p.sign private_key (str_append signing_domain message)
  canonical_json p.json (envelope_json payload signature)

-- The fields of a payload, each of its type.
pub record Payload : Type 0 where
  pub schema : String
  pub provider_id : String
  pub request_digest : String
  pub request : Json
  pub status : String
  pub failure_reason : Option String
  pub effect_id : Option String
  pub recorded_at_ms : ℕ

abbrev get_optional : String → Fields → Option (Option String)
get_optional k fs = elim (get_field k fs) [
  | some v ↦ (elim v [ text s ↦ some (some s) | null ↦ some none | _ ↦ none ])
  | none ↦ none
]

unfoldable pub payload_fields : Json → Option Payload
payload_fields (dict fs) = do
  check (count_fields fs == 8)
  schema ← get_text "schema" fs
  provider_id ← get_text "provider_id" fs
  request_digest ← get_text "request_digest" fs
  request ← get_field "request" fs
  status ← get_text "status" fs
  failure_reason ← get_optional "failure_reason" fs
  effect_id ← get_optional "effect_id" fs
  recorded_at_ms ← get_int "recorded_at_ms" fs
  some (record {
    schema = schema;
    provider_id = provider_id;
    request_digest = request_digest;
    request = request;
    status = status;
    failure_reason = failure_reason;
    effect_id = effect_id;
    recorded_at_ms = recorded_at_ms;
  })
payload_fields _ = none

abbrev envelope_fields : Json → Option (Json × String)
envelope_fields (dict fs) = do
  check (count_fields fs == 2)
  payload ← get_field "payload" fs
  signature ← get_text "signature" fs
  some (payload, signature)
envelope_fields _ = none

abbrev is_none : Option String → Bool
is_none none = true
is_none (some s) = false

abbrev same_optional : Option String → String → Bool
same_optional none s = false
same_optional (some t) s = str_eq t s

abbrev known_failure : Option String → Bool
known_failure none = false
known_failure (some s) =
    if str_eq s "insufficient_funds"
    then true
    else if str_eq s "unknown_account"
    then true
    else str_eq s "balance_limit"

-- The status of a payload, where the fields that go with it are as they should be.
unfoldable pub terminal_status : Payload → Option Status
terminal_status payload =
    if str_eq payload.status "settled"
    then if same_optional payload.effect_id payload.request_digest && is_none payload.failure_reason
      then some settled
      else none
    else if str_eq payload.status "failed"
    then if is_none payload.effect_id && known_failure payload.failure_reason
      then some failed
      else none
    else none

-- A payload that was verified, with its status.
pub record Verified : Type 0 where
  pub payload : Payload
  pub status : Status

unfoldable pub verify_receipt :
    Platform → (raw_receipt raw_request provider_public_key provider_id : String) → Option Verified
verify_receipt p raw_receipt raw_request provider_public_key provider_id = do
  envelope ← load_json p.json raw_receipt
  (body, signature) ← envelope_fields envelope
  canonical ← canonical_json p.json envelope
  check (str_eq canonical raw_receipt)
  check (length (codes signature) == 128 && all is_hex (codes signature))
  payload ← payload_fields body
  check (str_eq payload.schema receipt_schema && str_eq payload.provider_id provider_id)
  check (is_integer payload.recorded_at_ms)
  message ← canonical_json p.json body
  check (p.verifies provider_public_key signature (str_append signing_domain message))
  check (str_eq payload.request_digest (bytes_digest p raw_request))
  bytes ← request_bytes p.json payload.request
  check (str_eq bytes raw_request)
  status ← terminal_status payload
  some (record { payload = payload; status = status })
