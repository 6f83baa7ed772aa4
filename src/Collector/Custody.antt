-- ===== src/Collector/Custody.antt =====
-- payment_collector.py: `verify_ack` and `verify_readback`, which a client runs on what the collector
-- answers.
use vap_spec.Base.{
  ℕ, Bool, true, false, ◌&&◌, Option, none, some, String, List, [], ◌∷◌, leb, ◌==◌, str_eq, length,
  all, codes, if◌then◌else◌,
}
use vap_spec.Runtime.Json.{Json, null, Fields, get_field}
use vap_spec.Runtime.Request.{is_integer, is_hex, ◌>>=◌, ◌>>◌, check, get_text, get_int}
use vap_spec.Runtime.Receipt.{bytes_digest}
use vap_spec.RecordGate.Envelope.{get}
use vap_spec.Assessor.{exact_keys}
use vap_spec.Collector.{
  CollectorLib, max_evidence, max_message, json_eq, text_is, binding_fields, load_message,
  bytes_of_hex, verify_statement,
}

-- What a client knows of the collector.
pub record Trusted : Type 0 where
  pub public_key : String
  pub collector_id : String
  pub recovery_epoch : ℕ

pub data Presence : Type 0 where
  missing : Presence
  present : String → Presence

abbrev pub ack_schema : String
ack_schema = "synthetic-payment-collection-ack-v0"

abbrev pub readback_schema : String
readback_schema = "synthetic-payment-collection-readback-v0"

-- payload[field] == package[field], for each of the fields
abbrev pub agree_on : List String → Fields → Json → Bool
agree_on [] payload value = true
agree_on (k ∷ rest) payload value =
    (elim (get_field k payload) [
      | none ↦ false
      | some v ↦ (elim (get k value) [ none ↦ false | some w ↦ json_eq v w ])
    ])
    && agree_on rest payload value

abbrev pub is_nonce : String → Bool
is_nonce s = length (codes s) == 32 && all is_hex (codes s)

abbrev is_null_at : String → Fields → Bool
is_null_at k fs = elim (get_field k fs) [
  | none ↦ false
  | some v ↦ (elim v [ null ↦ true | _ ↦ false ])
]

module _ (lib : CollectorLib) where
  -- `verify_ack`, whose caller has validated the package
  unfoldable pub verify_ack : String → String → Trusted → Option Fields
  verify_ack ack packed trusted = do
    value ← load_message lib packed
    payload ← verify_statement lib ack trusted.public_key
    fs ←
        exact_keys
          ("schema" ∷ "collector_id" ∷ "storage_epoch" ∷ "recorded_at_ms" ∷ "package_digest"
            ∷ binding_fields)
          payload
    storage_epoch ← get_int "storage_epoch" fs
    recorded_at_ms ← get_int "recorded_at_ms" fs
    check (
        text_is ack_schema (get_field "schema" fs)
        && (text_is trusted.collector_id (get_field "collector_id" fs)
            && (is_integer storage_epoch
                && (leb storage_epoch trusted.recovery_epoch && is_integer recorded_at_ms))))
    check (
        text_is (bytes_digest lib.platform packed) (get_field "package_digest" fs)
        && agree_on binding_fields fs value)
    some fs

  -- The signed part of a readback, for a package and a nonce; `historical` admits an earlier epoch.
  -- It returns the state and the epoch that the collector observed.
  unfoldable pub observed_state :
      String → String → String → Trusted → Bool → Option (String × (ℕ × Fields))
  observed_state readback packed nonce trusted historical = do
    value ← load_message lib packed
    payload ← verify_statement lib readback trusted.public_key
    fs ←
        exact_keys
          ("schema" ∷ "collector_id" ∷ "recovery_epoch" ∷ "nonce" ∷ "observed_at_ms" ∷ "state"
            ∷ "package_digest" ∷ "context_digest" ∷ "ack_digest" ∷ [])
          payload
    epoch ← get_int "recovery_epoch" fs
    observed_at_ms ← get_int "observed_at_ms" fs
    check (
        text_is readback_schema (get_field "schema" fs)
        && (text_is trusted.collector_id (get_field "collector_id" fs)
            && (text_is nonce (get_field "nonce" fs) && is_nonce nonce)))
    check (
        (is_integer epoch
          && (if historical
              then leb epoch trusted.recovery_epoch
              else epoch == trusted.recovery_epoch))
        && is_integer observed_at_ms)
    check (
        text_is (bytes_digest lib.platform packed) (get_field "package_digest" fs)
        && agree_on ("context_digest" ∷ []) fs value)
    state ← get_text "state" fs
    some (state, (epoch, fs))

  -- The parts of a response that says PRESENT.
  unfoldable pub present_parts : Fields → Fields → ℕ → String → Trusted → Option Presence
  present_parts response observed epoch packed trusted = do
    ack_hex ← get_text "ack_bytes" response
    ack ← bytes_of_hex lib max_evidence ack_hex
    package_hex ← get_text "package_bytes" response
    original ← bytes_of_hex lib max_message package_hex
    check (
        str_eq original packed
        && text_is (bytes_digest lib.platform ack) (get_field "ack_digest" observed))
    verified ← verify_ack ack original (record trusted { recovery_epoch = epoch })
    some (present ack)

  unfoldable pub missing_parts : Fields → Fields → Option Presence
  missing_parts response observed =
      check (
        is_null_at "ack_bytes" response
        && (is_null_at "package_bytes" response && is_null_at "ack_digest" observed))
      >> some missing

  -- `verify_readback`: whether the package is present, with its acknowledgment.
  unfoldable pub verify_readback : String → String → String → Trusted → Bool → Option Presence
  verify_readback response_bytes packed nonce trusted historical = do
    response ← load_message lib response_bytes
    parts ← exact_keys ("readback_bytes" ∷ "ack_bytes" ∷ "package_bytes" ∷ []) response
    readback_hex ← get_text "readback_bytes" parts
    readback ← bytes_of_hex lib max_evidence readback_hex
    (state, (epoch, observed)) ← observed_state readback packed nonce trusted historical
    (if str_eq state "MISSING"
        then missing_parts parts observed
        else check (str_eq state "PRESENT") >> present_parts parts observed epoch packed trusted)
