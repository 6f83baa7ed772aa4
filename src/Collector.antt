-- ===== src/Collector.antt =====
-- experiments/payment-collector-pilot/payment_collector.py: the bounded JSON of its messages, the
-- packages of original evidence and the signed statements over them. `none` is `ValueError`.
pub mod Custody
pub mod Store
pub mod Kept
pub mod Acknowledged
pub mod Present
pub mod Signed
pub mod Client
pub mod Adapter
use Prim.Native.String.{◌++◌ as str_append}
use vap_spec.Base.{
  ℕ, suc, ◌+◌, ◌*◌, ◌%◌, Bool, true, false, not, ◌&&◌, ◌||◌, Option, none, some, String, List, [],
  ◌∷◌, ltb, leb, ◌==◌, str_eq, length, all, codes, if◌then◌else◌,
}
use vap_spec.Runtime.Json.{
  Json, null, bool, int, negative, text, list, dict, Items, nil, cons, Fields, end, field,
  get_field, count_items, count_fields, max_integer, load_json,
}
use vap_spec.Runtime.Request.{
  Context, Request, request_fields, request_bytes, is_hash, is_integer, is_hex, ◌>>=◌, ◌>>◌, check,
  get_text, get_int,
}
use vap_spec.Runtime.Receipt.{Platform, bytes_digest, receipt_schema}
use vap_spec.RecordGate.Envelope.{get, as_text}
use vap_spec.Assessor.{exact_keys}

-- MAX_EVIDENCE_BYTES and MAX_MESSAGE_BYTES
abbrev pub max_evidence : ℕ
max_evidence = 65536

abbrev pub max_message : ℕ
max_message = 524288

-- What the code takes from Python beside the platform: bytes.hex and bytes.fromhex.
pub record CollectorLib : Type 0 where
  pub platform : Platform
  pub hex : String → String
  pub unhex : String → Option String

-- KINDS
pub data Kind : Type 0 where
  admission_record provider_receipt : Kind

abbrev pub kind_text : Kind → String
kind_text admission_record = "admission_record"
kind_text provider_receipt = "provider_receipt"

abbrev pub phase_text : Kind → String
phase_text admission_record = "admission"
phase_text provider_receipt = "outcome"

abbrev pub kind_of : String → Option Kind
kind_of s =
    if str_eq s "admission_record"
    then some admission_record
    else if str_eq s "provider_receipt"
    then some provider_receipt
    else none

-- A package that has its fields, with the bytes that it holds.
pub record Package : Type 0 where
  pub request_bytes : String
  pub request_digest : String
  pub context_digest : String
  pub kind : Kind
  pub evidence_bytes : String
  pub evidence_digest : String
  pub evidence_length : ℕ

-- Equality of JSON values. Both sides are read from canonical bytes, whose keys are in one order.
unfoldable mutual
  pub json_eq : Json → Json → Bool
  json_eq null null = true
  json_eq (bool true) (bool true) = true
  json_eq (bool false) (bool false) = true
  json_eq (int m) (int n) = m == n
  json_eq (negative m) (negative n) = m == n
  json_eq (text s) (text t) = str_eq s t
  json_eq (list xs) (list ys) = items_eq xs ys
  json_eq (dict fs) (dict gs) = fields_eq fs gs
  json_eq _ _ = false

  pub items_eq : Items → Items → Bool
  items_eq nil nil = true
  items_eq (cons v xs) (cons w ys) = json_eq v w && items_eq xs ys
  items_eq _ _ = false

  pub fields_eq : Fields → Fields → Bool
  fields_eq end end = true
  fields_eq (field j v fs) (field k w gs) = str_eq j k && (json_eq v w && fields_eq fs gs)
  fields_eq _ _ = false

abbrev pub domain : String
domain = "VSO synthetic payment custody v0\0"

abbrev pub text_is : String → Option Json → Bool
text_is s none = false
text_is s (some v) = elim v [ text t ↦ str_eq t s | _ ↦ false ]

abbrev pub same_context : Context → Context → Bool
same_context a b =
    str_eq a.tenant b.tenant
    && (str_eq a.environment b.environment
        && (str_eq a.api_audience b.api_audience
            && (str_eq a.idempotency_domain b.idempotency_domain
                && (str_eq a.currency b.currency && a.minor_unit_scale == b.minor_unit_scale))))

abbrev pub context_json : Context → Json
context_json c = dict (
    field "api_audience" (text c.api_audience) (
      field "currency" (text c.currency) (
        field "environment" (text c.environment) (
          field "idempotency_domain" (text c.idempotency_domain) (
            field "minor_unit_scale" (int c.minor_unit_scale)
              (field "tenant" (text c.tenant) end))))))

-- PACKAGE_FIELDS and BINDING_FIELDS
abbrev pub package_fields : List String
package_fields =
    "schema" ∷ "request_bytes" ∷ "request_digest" ∷ "context_digest" ∷ "kind" ∷ "phase"
    ∷ "evidence_bytes" ∷ "evidence_digest" ∷ "evidence_length" ∷ []

abbrev pub binding_fields : List String
binding_fields =
    "request_digest" ∷ "context_digest" ∷ "kind" ∷ "phase" ∷ "evidence_digest" ∷ "evidence_length"
    ∷ []

abbrev pub dict_at : String → Json → Option Fields
dict_at k v = get k v >>= λ x. elim x [ dict fs ↦ some fs | _ ↦ none ]

module _ (lib : CollectorLib) where
  abbrev string_value : String → Bool
  string_value s = leb (length (codes s)) max_message && lib.platform.json.is_nfc s

  -- `_value`: whether it returns.
  unfoldable mutual
    pub collector_value : Json → ℕ → Bool
    collector_value null depth = leb depth 20
    collector_value (bool b) depth = leb depth 20
    collector_value (int n) depth = leb depth 20 && leb n max_integer
    collector_value (negative n) depth = leb depth 20 && leb (suc n) max_integer
    collector_value (text s) depth = leb depth 20 && string_value s
    collector_value (list xs) depth =
        leb depth 20 && (leb (count_items xs) 256 && items_value xs (depth + 1))
    collector_value (dict fs) depth =
        leb depth 20 && (leb (count_fields fs) 128 && fields_value fs (depth + 1))

    pub items_value : Items → ℕ → Bool
    items_value nil depth = true
    items_value (cons v rest) depth = collector_value v depth && items_value rest depth

    pub fields_value : Fields → ℕ → Bool
    fields_value end depth = true
    fields_value (field k v rest) depth =
        leb depth 20 && (string_value k && (collector_value v depth && fields_value rest depth))

  -- `canonical_json`
  unfoldable pub canonical_message : Json → Option String
  canonical_message v = do
    check (collector_value v 0)
    check (leb (length (codes (lib.platform.json.dumps v))) max_message)
    some (lib.platform.json.dumps v)

  -- `load_json`
  unfoldable pub load_message : String → Option Json
  load_message raw = do
    check (leb (length (codes raw)) max_message)
    v ← lib.platform.json.loads raw
    canonical ← canonical_message v
    some v

  -- `digest`
  unfoldable pub digest : Json → Option String
  digest v = canonical_message v >>= λ raw. some (bytes_digest lib.platform raw)

  -- `_hex`
  unfoldable pub bytes_of_hex : ℕ → String → Option String
  bytes_of_hex maximum s =
      let n = length (codes s) in
      check (ltb 0 n && (leb n (maximum * 2) && (n % 2 == 0 && all is_hex (codes s))))
      >> lib.unhex s

  abbrev hex_at : ℕ → String → Fields → Option String
  hex_at maximum k fs = get_text k fs >>= bytes_of_hex maximum

  abbrev pub package_json : Package → Json
  package_json g = dict (
      field "context_digest" (text g.context_digest) (
        field "evidence_bytes" (text (lib.hex g.evidence_bytes)) (
          field "evidence_digest" (text g.evidence_digest) (
            field "evidence_length" (int g.evidence_length) (
              field "kind" (text (kind_text g.kind)) (
                field "phase" (text (phase_text g.kind)) (
                  field "request_bytes" (text (lib.hex g.request_bytes)) (
                    field "request_digest" (text g.request_digest)
                      (field "schema" (text "synthetic-payment-collection-package-v0") end)))))))))

  -- The evidence has to be of the request: the tests on its body.
  unfoldable pub is_of_request : Kind → String → Json → Bool
  is_of_request admission_record raw body =
      text_is "synthetic-payment-admission-proof-v0" (get "schema" body)
      && text_is (lib.hex raw) (get "request_bytes" body)
  is_of_request provider_receipt raw body = elim (dict_at "payload" body) [
    | none ↦ false
    | some payload ↦
        text_is receipt_schema (get_field "schema" payload)
        && (text_is (bytes_digest lib.platform raw) (get_field "request_digest" payload)
            && (elim (get_field "request" payload >>= request_bytes lib.platform.json) [
              | none ↦ false
              | some bytes ↦ str_eq bytes raw
            ]))
  ]

  -- `validate_package`
  unfoldable pub validate_package : String → Context → Option Package
  validate_package raw context = do
    value ← load_message raw
    fs ← exact_keys package_fields value
    check (text_is "synthetic-payment-collection-package-v0" (get_field "schema" fs))
    canonical ← canonical_message value
    check (str_eq canonical raw)
    kind_name ← get_text "kind" fs
    kind ← kind_of kind_name
    check (text_is (phase_text kind) (get_field "phase" fs))
    request_digest ← get_text "request_digest" fs
    context_digest ← get_text "context_digest" fs
    evidence_digest ← get_text "evidence_digest" fs
    evidence_length ← get_int "evidence_length" fs
    check (
        is_hash request_digest
        && (is_hash context_digest && (is_hash evidence_digest && is_integer evidence_length)))
    request_raw ← hex_at max_evidence "request_bytes" fs
    request ← load_json lib.platform.json request_raw
    canonical_request ← request_bytes lib.platform.json request
    r ← request_fields request
    expected_context ← digest (context_json context)
    check (
        str_eq canonical_request request_raw
        && (same_context r.context context
            && (str_eq request_digest (bytes_digest lib.platform request_raw)
                && str_eq context_digest expected_context)))
    evidence ← hex_at max_evidence "evidence_bytes" fs
    check (
        length (codes evidence) == evidence_length
        && str_eq (bytes_digest lib.platform evidence) evidence_digest)
    body ← load_json lib.platform.json evidence
    check (is_of_request kind request_raw body)
    some (record {
      request_bytes = request_raw;
      request_digest = request_digest;
      context_digest = context_digest;
      kind = kind;
      evidence_bytes = evidence;
      evidence_digest = evidence_digest;
      evidence_length = evidence_length;
    })

  -- `make_package`
  unfoldable pub make_package : Json → Kind → String → Option String
  make_package request kind evidence = do
    raw ← request_bytes lib.platform.json request
    check (ltb 0 (length (codes evidence)) && leb (length (codes evidence)) max_evidence)
    r ← request_fields request
    context_digest ← digest (context_json r.context)
    packed ← canonical_message (
        package_json (record {
          request_bytes = raw;
          request_digest = bytes_digest lib.platform raw;
          context_digest = context_digest;
          kind = kind;
          evidence_bytes = evidence;
          evidence_digest = bytes_digest lib.platform evidence;
          evidence_length = length (codes evidence);
        }))
    checked ← validate_package packed r.context
    some packed

  abbrev pub envelope_json : Json → String → Json
  envelope_json payload signature =
      dict (field "payload" payload (field "signature" (text signature) end))

  -- `sign_statement`
  unfoldable pub sign_statement : Json → String → Option String
  sign_statement payload private_key = do
    signed ← canonical_message payload
    canonical_message
        (envelope_json payload (lib.platform.sign private_key (str_append domain signed)))

  abbrev pub is_signature : String → Bool
  is_signature s = length (codes s) == 128 && all is_hex (codes s)

  abbrev pub as_dict : Json → Option Fields
  as_dict (dict fs) = some fs
  as_dict _ = none

  -- `_verify_statement`: the payload.
  unfoldable pub verify_statement : String → String → Option Json
  verify_statement raw public_key = do
    check (length (codes public_key) == 64)
    body ← load_message raw
    fs ← exact_keys ("payload" ∷ "signature" ∷ []) body
    canonical ← canonical_message body
    check (str_eq canonical raw)
    payload ← get_field "payload" fs
    entries ← as_dict payload
    signature ← get_text "signature" fs
    check (is_signature signature)
    signed ← canonical_message payload
    check (lib.platform.verifies public_key signature (str_append domain signed))
    some payload
