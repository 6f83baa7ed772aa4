-- ===== src/Tests/Admissions.antt =====
-- authorization_gate.py with one request and its three envelopes, over a JSON library that is made of
-- constants.
use vap_spec.Base.{◌≢◌, ◌≡◌, refl, ◌⊎◌, true, false, some, String, [], ◌∷◌, str_eq, if◌then◌else◌}
use vap_spec.Runtime.Outcome.{authorized}
use vap_spec.Runtime.Json.{
  Json, null, int, text, dict, end, field, json_value, string_value, canonical_json, load_json,
  count_fields, get_field,
}
use vap_spec.Runtime.Request.{Prepared, is_text, is_hash, is_integer}
use vap_spec.Runtime.Receipt.{Platform, bytes_digest}
use vap_spec.Gate.Findings.{verdict, result, ◌⊕◌, require, available}
use vap_spec.Gate.Policy.{PersonIdentity, GateConfig, member, lookup}
use vap_spec.Gate.Evidence.{
  EvidenceBytes, GivenEvidence, not_given, given, given_bytes, freeze_evidence, approval_shape,
  status_shape, verified, read_envelope, envelope_verifies, maker_approval, checker_approval,
}
use vap_spec.Gate.Assess.{
  assess, assess_checked, assess_policy, assess_identity, assess_statement, assess_approval,
  assess_status, assess_subject, assess_freshness, assess_referent, differ, is_fresh,
  verified_approval, verified_status,
}
use vap_spec.Gate.Assess.Meaning.{Admissible, assess-Admissible}
use vap_spec.Gate.Admission.{Snapshots, gate_submit_prepared}
use vap_spec.Gate.Admission.Blocked.{gate_submit_prepared-blocked}
use vap_spec.Gate.Admission.Posts.{IsAdmitted, gate_submit_prepared-IsAdmitted}
use vap_spec.Tests.Payments.{context, adapter, lost, start, request_json}

abbrev hash : String
hash = "0123456789abcdef0123456789abcdef0123456789abcdef0123456789abcdef"

abbrev some_digest : String
some_digest = "sha256:0123456789abcdef0123456789abcdef0123456789abcdef0123456789abcdef"

abbrev pub signature : String
signature =
    "0123456789abcdef0123456789abcdef0123456789abcdef0123456789abcdef0123456789abcdef0123456789abcdef0123456789abcdef0123456789abcdef"

abbrev approval : String → String → Json
approval kind id = dict (
    field "approval_id" (text id) (
      field "expires_at_ms" (int 90) (
        field "issued_at_ms" (int 5) (
          field "kind" (text kind) (
            field "policy_digest" (text some_digest) (
              field "request_digest" (text some_digest)
                (field "schema" (text "synthetic-payment-admission-approval-v0") end)))))))

abbrev status : Json
status = dict (
    field "approval_digests"
      (dict (
        field "checker_approval" (text some_digest)
          (field "maker_approval" (text some_digest) end)))
      (field "configuration_digest" (text some_digest) (
        field "credential_id" (text "credential") (
          field "kind" (text "final_status") (
            field "observed_at_ms" (int 8) (
              field "policy_digest" (text some_digest) (
                field "principal_id" (text "principal") (
                  field "recovery_epoch" (int 1) (
                    field "request_digest" (text some_digest) (
                      field "revoked_at_ms" null (
                        field "schema" (text "synthetic-payment-admission-status-v0") (
                          field "state" (text "active") (
                            field "status_id" (text "s1")
                              (field "valid_until_ms" (int 50) end))))))))))))))

abbrev envelope : String → Json → Json
envelope key payload =
    dict
      (field "key_id" (text key) (field "payload" payload (field "signature" (text signature) end)))

-- An envelope is written as its key id, and every other value as one text.
abbrev show : Json → String
show (dict (field name (text k) rest)) = if str_eq name "key_id" then k else "doc"
show _ = "doc"

abbrev parse : String → Json
parse s =
    if str_eq s "ann"
    then envelope "ann" (approval "maker_approval" "a1")
    else if str_eq s "ben"
    then envelope "ben" (approval "checker_approval" "a2")
    else if str_eq s "desk"
    then envelope "desk" status
    else request_json

abbrev pub gate_platform : Platform
gate_platform = record {
  json = record { dumps = show; loads = λ s. some (parse s); is_nfc = λ s. true };
  sha256 = λ s. hash;
  sign = λ k m. signature;
  verifies = λ k s m. true;
}

abbrev person : String → String → PersonIdentity
person id role = record {
  person_id = id;
  roles = role ∷ [];
  tenant = "acme";
  environment = "test";
  api_audience = "api";
  idempotency_domain = "payments";
  valid_from_ms = 1;
  valid_until_ms = 99;
}

abbrev pub gate_config : GateConfig
gate_config = record {
  policy = record {
    schema = "synthetic-payment-admission-policy-v0";
    policy_id = "p1";
    version = "1";
    context = context;
    principal_id = "principal";
    credential_id = "credential";
    configuration_digest = some_digest;
    recovery_epoch = 1;
    allowed_sources = "alice" ∷ [];
    allowed_beneficiaries = "bob" ∷ [];
    max_amount_minor = 50;
    valid_from_ms = 1;
    valid_until_ms = 99;
  };
  policy_digest = some_digest;
  approvers = ("ann", "k1") ∷ ("ben", "k2") ∷ [];
  status_authorities = ("desk", "k3") ∷ [];
  identities = ("k1", person "Ann" "maker") ∷ ("k2", person "Ben" "checker") ∷ [];
  max_status_age_ms = 10;
}

abbrev pub gate_request : Prepared
gate_request = record {
  snapshot = request_json;
  request = record {
    schema = "synthetic-loopback-payment-request-v0";
    context = context;
    operation_id = "op1";
    idempotency_key = "k1";
    configuration_digest = some_digest;
    recovery_epoch = 1;
    source_account = "alice";
    beneficiary = "bob";
    amount_minor = 30;
  };
  raw = "doc";
}

abbrev envelopes : EvidenceBytes
envelopes = record { maker = some "ann"; checker = some "ben"; status = some "desk" }

it_is_authorized :
    (assess gate_platform gate_config gate_request envelopes [] 10).verdict ≡ authorized
unfolding assess result verdict ◌⊕◌ require available member lookup approval_shape status_shape
    verified read_envelope envelope_verifies assess_checked assess_policy assess_identity
    assess_statement assess_approval assess_status assess_subject assess_freshness assess_referent
    differ is_fresh verified_approval verified_status is_text is_hash is_integer bytes_digest
    json_value string_value canonical_json load_json count_fields get_field
it_is_authorized = refl

assess-Admissible_example :
    Admissible gate_platform gate_config gate_request.request
      (bytes_digest gate_platform "doc")
      envelopes
      10
      (verified_approval gate_platform gate_config maker_approval 10 envelopes)
      (verified_approval gate_platform gate_config checker_approval 10 envelopes)
      (verified_status gate_platform gate_config 10 envelopes)
assess-Admissible_example =
    assess-Admissible gate_platform gate_config gate_request envelopes [] 10 it_is_authorized

abbrev pub snapshots : Snapshots
snapshots = record { policy_bytes = "policy"; trust_bytes = "trust"; identities_bytes = "people" }

abbrev pub evidence : GivenEvidence
evidence = given (
    ("maker_approval", given_bytes "ann")
    ∷ ("checker_approval", given_bytes "ben")
    ∷ ("final_status", given_bytes "desk")
    ∷ [])

gate_submit_prepared-IsAdmitted_example :
    ((gate_submit_prepared gate_platform
        (λ s. s)
        gate_config
        snapshots
        adapter
        lost
        false
        gate_request
        evidence
        start).1.posted
      ≡ start.posted)
    ⊎ IsAdmitted gate_platform gate_config gate_request
        (freeze_evidence evidence).0
        10
        start.journal.proofs
        (gate_submit_prepared gate_platform
          (λ s. s)
          gate_config
          snapshots
          adapter
          lost
          false
          gate_request
          evidence
          start).1.journal.proofs
gate_submit_prepared-IsAdmitted_example =
    gate_submit_prepared-IsAdmitted gate_platform (λ s. s) gate_config snapshots adapter lost false
      gate_request evidence start

it_is_not_authorized :
    (assess gate_platform gate_config gate_request
      (freeze_evidence not_given).0
      (freeze_evidence not_given).1
      10).verdict
    ≢ authorized
unfolding assess result verdict ◌⊕◌ require available member verified assess_checked assess_policy
    assess_approval assess_status differ verified_approval verified_status freeze_evidence
it_is_not_authorized = λ e. cc

gate_submit_prepared-blocked_example :
    (gate_submit_prepared gate_platform
      (λ s. s)
      gate_config
      snapshots
      adapter
      lost
      false
      gate_request
      not_given
      start).1
    ≡ start
gate_submit_prepared-blocked_example =
    gate_submit_prepared-blocked gate_platform (λ s. s) gate_config snapshots adapter lost false
      gate_request not_given start it_is_not_authorized
