-- ===== src/Tests/Collections.antt =====
-- payment_collector.py with one package, over a JSON library and keys that are constants.
use Prim.Native.String.{◌++◌ as str_append}
use vap_spec.Base.{
  ◌≡◌, refl, true, false, Option, none, some, String, List, [], ◌∷◌, str_eq, if◌then◌else◌,
}
use vap_spec.Runtime.Json.{
  Json, text, dict, Fields, end, field, json_value, string_value, canonical_json, load_json,
  count_fields, get_field,
}
use vap_spec.Runtime.Outcome.{ok}
use vap_spec.Runtime.Request.{
  request_bytes, request_fields, valid_request, valid_context, is_text, is_hash, is_integer,
  decimal, number, same_scope,
}
use vap_spec.Runtime.Receipt.{bytes_digest}
use vap_spec.Runtime.Rows.{is_current, transaction}
use vap_spec.Gate.Policy.{member}
use vap_spec.RecordGate.Envelope.{get}
use vap_spec.Assessor.{exact_keys}
use vap_spec.Collector.{
  CollectorLib, admission_record, Package, json_eq, collector_value, canonical_message,
  load_message, digest, bytes_of_hex, package_json, is_of_request, validate_package, envelope_json,
  sign_statement, verify_statement,
}
use vap_spec.Collector.Custody.{
  Trusted, present, verify_ack, observed_state, present_parts, verify_readback,
}
use vap_spec.Collector.Store.{
  CollectorConfig, CollectorStore, find_record, find_package, insert_record, is_current_store,
  ack_json, collect_new, collect, readback_json, Post, do_posts,
}
use vap_spec.Collector.Kept.{collect-replay}
use vap_spec.Collector.Present.{IsInCustody, verify_readback-IsInCustody}
use vap_spec.Collector.Signed.{signed_envelope, verify_statement-sign_statement}
use vap_spec.Tests.Payments.{request_json, context}
use vap_spec.Tests.Publications.{some_hex}

-- A dict is written as its first key, an envelope as the first key of its payload.
abbrev first_key : Json → String
first_key (dict (field k (dict (field j v gs)) fs)) = j
first_key (dict (field k v fs)) = k
first_key _ = "x"

abbrev to_hex : String → String
to_hex s =
    if str_eq s "amount_minor"
    then "aa"
    else if str_eq s "request_bytes"
    then "bb"
    else if str_eq s "collector_id"
    then "cc"
    else if str_eq s "ack_digest"
    then "dd"
    else "ee"

abbrev of_hex : String → Option String
of_hex s = some (
    if str_eq s "aa"
    then "amount_minor"
    else if str_eq s "bb"
    then "request_bytes"
    else if str_eq s "cc"
    then "collector_id"
    else if str_eq s "dd"
    then "ack_digest"
    else "context_digest")

abbrev as_fields : Json → Fields
as_fields (dict fs) = fs
as_fields _ = end

abbrev signature : String
signature = str_append some_hex some_hex

abbrev lib_reading : (String → Option Json) → CollectorLib
lib_reading loads = record {
  platform = record {
    json = record { dumps = first_key; loads = loads; is_nfc = λ s. true };
    sha256 = λ s. some_hex;
    sign = λ k m. signature;
    verifies = λ k s m. true;
  };
  hex = to_hex;
  unhex = of_hex;
}

-- The library that reads nothing, whose writer the values below are made with.
abbrev writer : CollectorLib
writer = lib_reading (λ s. none)

abbrev a_digest : String
a_digest = str_append "sha256:" some_hex

abbrev evidence : Json
evidence = dict (
    field "request_bytes" (text "aa")
      (field "schema" (text "synthetic-payment-admission-proof-v0") end))

abbrev parcel : Package
parcel = record {
  request_bytes = "amount_minor";
  request_digest = a_digest;
  context_digest = a_digest;
  kind = admission_record;
  evidence_bytes = "request_bytes";
  evidence_digest = a_digest;
  evidence_length = 13;
}

abbrev config : CollectorConfig
config = record {
  context = context;
  private_key = some_hex;
  public_key = some_hex;
  collector_id = "collector";
  recovery_epoch = 1;
  drop_ack_after_commit = false;
}

abbrev nonce : String
nonce = "0123456789abcdef0123456789abcdef"

abbrev ack_envelope : Json
ack_envelope = envelope_json writer (ack_json writer config 7 parcel "context_digest") signature

abbrev readback_envelope : Json
readback_envelope =
    envelope_json writer
      (readback_json writer config 8 a_digest nonce a_digest (
        some (record {
          package_digest = a_digest;
          request_digest = a_digest;
          kind = admission_record;
          package_bytes = "context_digest";
          ack_bytes = "collector_id";
        })))
      signature

abbrev response : Json
response = dict (
    field "ack_bytes" (text "cc")
      (field "package_bytes" (text "ee") (field "readback_bytes" (text "dd") end)))

abbrev reads : String → Option Json
reads s =
    if str_eq s "amount_minor"
    then some request_json
    else if str_eq s "context_digest"
    then some (package_json writer parcel)
    else if str_eq s "request_bytes"
    then some evidence
    else if str_eq s "collector_id"
    then some ack_envelope
    else if str_eq s "ack_digest"
    then some readback_envelope
    else if str_eq s "ack_bytes"
    then some response
    else none

abbrev lib : CollectorLib
lib = lib_reading reads

abbrev store : CollectorStore
store = record {
  metadata = record {
    identity = some "collector";
    generation = some (record { recovery_epoch = 1; configuration_digest = a_digest });
  };
  records = [];
  collect_attempts = 0;
  query_attempts = 0;
}

abbrev trusted : Trusted
trusted = record { public_key = some_hex; collector_id = "collector"; recovery_epoch = 1 }

abbrev post : Post lib config
post = record {
  path = "/collections";
  count_fails = false;
  is_authorized = true;
  body = some "context_digest";
  now_ms = 9;
  hook_raises = false;
}

abbrev posts : List (Post lib config)
posts = post ∷ []

it_validates : validate_package lib "context_digest" context ≡ some parcel
unfolding validate_package load_message canonical_message collector_value count_fields exact_keys
    member get_field bytes_of_hex load_json canonical_json json_value request_bytes request_fields
    valid_request valid_context is_text is_hash is_integer decimal number same_scope digest
    is_of_request get string_value bytes_digest
it_validates = refl

it_collects : (collect lib config 7 "context_digest" store).0 ≡ ok ("collector_id", true)
unfolding validate_package load_message canonical_message collector_value count_fields exact_keys
    member get_field bytes_of_hex load_json canonical_json json_value request_bytes request_fields
    valid_request valid_context is_text is_hash is_integer decimal number same_scope digest
    is_of_request get collect transaction find_record find_package insert_record is_current_store
    is_current collect_new sign_statement ack_json string_value bytes_digest
it_collects = refl

it_is_present :
    verify_readback lib "ack_bytes" "context_digest" nonce trusted false
    ≡ some (present "collector_id")
unfolding verify_readback load_message canonical_message collector_value count_fields exact_keys
    member get_field bytes_of_hex observed_state verify_statement present_parts verify_ack
    readback_json ack_json is_hash is_integer get bytes_digest json_eq
it_is_present = refl

abbrev signed_payload : Json
signed_payload = ack_json writer config 7 parcel "context_digest"

abbrev payload_fields : Fields
payload_fields = as_fields signed_payload

it_signs : sign_statement lib (dict payload_fields) some_hex ≡ some "collector_id"
unfolding sign_statement canonical_message collector_value count_fields ack_json bytes_digest
it_signs = refl

it_reads :
    reads (first_key (signed_envelope lib payload_fields some_hex))
    ≡ some (signed_envelope lib payload_fields some_hex)
unfolding ack_json
it_reads = refl

collect-replay_example :
    collect lib config 8 "context_digest"
      (do_posts lib config posts (collect lib config 7 "context_digest" store).1)
    ≡ (
      ok ("collector_id", false),
      do_posts lib config posts (collect lib config 7 "context_digest" store).1,
    )
collect-replay_example =
    collect-replay lib config 7 8 "context_digest" "context_digest" "collector_id" true posts store
      parcel parcel it_collects it_validates it_validates refl refl

verify_readback-IsInCustody_example :
    IsInCustody lib "context_digest" nonce trusted false "collector_id"
verify_readback-IsInCustody_example =
    verify_readback-IsInCustody lib "ack_bytes" "context_digest" nonce trusted false "collector_id"
      it_is_present

verify_statement-sign_statement_example :
    verify_statement lib "collector_id" some_hex ≡ some (dict payload_fields)
verify_statement-sign_statement_example =
    verify_statement-sign_statement lib payload_fields some_hex some_hex "collector_id" it_reads
      (λ m. refl) (λ m. refl) refl it_signs
