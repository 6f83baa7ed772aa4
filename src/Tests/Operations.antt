-- ===== src/Tests/Operations.antt =====
-- The pre-record gate with one operation, over a JSON library that is made of constants.
use vap_spec.Base.{
  ◌≤◌, ◌≡◌, refl, ◌⊎◌, true, false, none, some, String, List, [], ◌∷◌, ◌++◌, str_eq, if◌then◌else◌,
  arith,
}
use vap_spec.Runtime.Json.{
  Json, null, int, bool, text, list, dict, nil, end, field, count_fields, get_field,
}
use vap_spec.Gate.Policy.{member}
use vap_spec.RecordGate.Envelope.{Jcs, get, text_at, digest, decode, verified_body, intent, sign}
use vap_spec.RecordGate.Authority.{authorize, claim_body, revocations}
use vap_spec.RecordGate.Audit.{
  ServiceConfig, AuditStore, Action, prepare, claim, Operation, find_operation, is_prepared,
}
use vap_spec.RecordGate.Audit.Once.{audit_run, count_permits, audit_run-permits}
use vap_spec.RecordGate.Backend.{
  ApiEffect, ApiStore, find_effect, ApiAction, writes, lookups, backend,
}
use vap_spec.RecordGate.Backend.Effects.{
  IsPermitted, backend-IsPermitted, IsSingle, api_run, api_run-IsSingle,
}
use vap_spec.RecordGate.Dispatch.{
  GateKeys, Answers, DispatchReport, unresolved, because, authorized, execute, reconcile,
  audit_call, control_envelope,
}
use vap_spec.RecordGate.Dispatch.Backed.{IsBacked}
use vap_spec.RecordGate.Dispatch.Executed.{execute-IsBacked}
use vap_spec.RecordGate.Dispatch.Reconciled.{reconcile-IsBacked}
use vap_spec.Tests.Admissions.{signature}

abbrev pub op_json : Json
op_json = dict (
    field "operation_id" (text "op-1") (
      field "action" (text "create_record") (
        field "args" (dict (field "text" (text "hello") end))
          (field "target" (text "sandbox/records") end))))

abbrev pub envelope : String → Json → Json
envelope key body = dict (
    field "algorithm" (text "Ed25519")
      (field "body" body (field "key_id" (text key) (field "signature" (text signature) end))))

abbrev revocation_json : Json
revocation_json = envelope "authority" (
    dict (
      field "issued_at" (int 1) (
        field "kind" (text "revocations")
          (field "revoked" (list nil) (field "valid_until" (int 99) end)))))

abbrev pub request_json : Json
request_json = dict (
    field "approval"
      (envelope "authority" (
        dict (
          field "approver" (text "boss") (
            field "audience" (text "experimental-gate") (
              field "delegation_digest" (text "doc") (
                field "expires" (int 90) (
                  field "id" (text "a1") (
                    field "kind" (text "approval") (
                      field "not_before" (int 1) (
                        field "operation_digest" (text "op")
                          (field "subject" (text "agent") end)))))))))))
      (field "credential"
        (envelope "authority" (
          dict (
            field "audience" (text "experimental-gate") (
              field "expires" (int 90) (
                field "id" (text "c1") (
                  field "kind" (text "credential") (
                    field "not_before" (int 1)
                      (field "public_key" (text "key") (field "subject" (text "agent") end)))))))))
        (field "delegation"
          (envelope "authority" (
            dict (
              field "action" (text "create_record") (
                field "audience" (text "experimental-gate") (
                  field "delegator" (text "boss") (
                    field "expires" (int 90) (
                      field "id" (text "d1") (
                        field "kind" (text "delegation") (
                          field "not_before" (int 1) (
                            field "subject" (text "agent")
                              (field "target" (text "sandbox/records") end)))))))))))
          (field "intent" op_json (
            field "proof"
              (envelope "agent" (
                dict (
                  field "approval_digest" (text "doc") (
                    field "credential_digest" (text "doc") (
                      field "delegation_digest" (text "doc") (
                        field "kind" (text "request")
                          (field "operation_digest" (text "op") end)))))))
              end)))))

-- An operation is written as "op" and every other value as "doc".
abbrev show : Json → String
show (dict (field name v rest)) = if str_eq name "operation_id" then "op" else "doc"
show _ = "doc"

abbrev pub lib : Jcs
lib = record {
  dumps = λ v. some (show v);
  loads = λ s. some (if str_eq s "op" then op_json else request_json);
  sha256 = λ s. s;
  sign = λ k m. signature;
  verifies = λ k s m. true;
}

abbrev gate_keys : GateKeys
gate_keys = record {
  secret = "gate";
  audit_public = "audit";
  backend_public = "backend";
  authority_public = "authority";
  evaluation_time = 10;
}

abbrev permit : Json
permit = envelope "audit" (
    dict (
      field "action" (text "claim") (
        field "claimed" (bool true) (
          field "kind" (text "audit_ack") (
            field "operation_digest" (text "op") (
              field "operation_id" (text "op-1")
                (field "receipt" null (field "state" (text "dispatch_intent") end))))))))

abbrev prepared_ack : Json
prepared_ack = envelope "audit" (
    dict (
      field "action" (text "prepare") (
        field "claimed" (bool false) (
          field "kind" (text "audit_ack") (
            field "operation_digest" (text "op") (
              field "operation_id" (text "op-1")
                (field "receipt" null (field "state" (text "prepared") end))))))))

-- The answer to the write is lost.
abbrev answers : Answers
answers = record {
  revocations = revocation_json;
  refreshed_revocations = revocation_json;
  prepare_answer = some prepared_ack;
  claim_answer = some permit;
  write_answer = none;
  outcome_answer = none;
  unknown_answer = none;
  get_answer = none;
  lookup_answer = none;
}

abbrev pub identity_json : Json
identity_json = dict (
    field "approval_id" (text "a1") (
      field "approver" (text "boss") (
        field "checked_at" (int 10) (
          field "credential_id" (text "c1") (
            field "delegation_id" (text "d1") (
              field "delegator" (text "boss") (
                field "request_digest" (text "doc") (
                  field "revocation_snapshot" revocation_json (
                    field "revocations_digest" (text "doc")
                      (field "subject" (text "agent") end))))))))))

it_is_authorized :
    authorized lib gate_keys answers request_json
    ≡ some (op_json, "op-1", "op", identity_json, request_json)
unfolding authorized authorize claim_body revocations member get digest decode verified_body intent
    count_fields get_field
it_is_authorized = refl

execute-IsBacked_example :
    IsBacked lib gate_keys "op-1" "op" (execute lib gate_keys answers request_json none)
execute-IsBacked_example =
    execute-IsBacked lib gate_keys answers request_json none op_json "op-1" "op" identity_json
      request_json it_is_authorized

intent_is_read : intent lib op_json ≡ some op_json
unfolding intent get digest decode count_fields get_field
intent_is_read = refl

abbrev unreachable : DispatchReport
unreachable = record {
  state = unresolved;
  reason = because "reconciliation_unavailable_or_invalid";
  backend_attempted = false;
  unknown_persisted = false;
  sent = none;
}

it_reconciles : reconcile lib gate_keys answers op_json ≡ some unreachable
unfolding reconcile intent get digest decode count_fields get_field audit_call control_envelope sign
it_reconciles = refl

id_is_read : text_at "operation_id" op_json ≡ some "op-1"
unfolding get get_field
id_is_read = refl

op_is_digested : digest lib op_json ≡ some "op"
unfolding digest
op_is_digested = refl

reconcile-IsBacked_example :
    IsBacked lib gate_keys "op-1" "op" unreachable × (unreachable.sent ≡ none)
reconcile-IsBacked_example =
    reconcile-IsBacked lib gate_keys answers op_json op_json "op-1" "op" unreachable intent_is_read
      id_is_read op_is_digested it_reconciles

abbrev service_config : ServiceConfig
service_config = record {
  secret = "audit";
  evaluation_id = "e1";
  policy_digest = "p1";
  gate_public = "gate";
  backend_public = "backend";
  audit_public = "audit";
  fail_action = none;
  drop_ack = some "prepare";
  drop_after_commit = true;
}

abbrev prepare_request : Json
prepare_request = envelope "gate" (
    dict (
      field "action" (text "prepare") (
        field "authorization" identity_json (
          field "intent" op_json
            (field "kind" (text "control") (field "request" request_json end))))))

abbrev claim_request : Json
claim_request = envelope "gate" (
    dict
      (field "action" (text "claim") (field "intent" op_json (field "kind" (text "control") end))))

abbrev requests : List (Action × Json)
requests = (prepare, prepare_request) ∷ (claim, claim_request) ∷ (claim, claim_request) ∷ []

abbrev empty_store : AuditStore
empty_store = record { operations = []; events = [] }

audit_run-permits_example :
    (count_permits "op-1" (audit_run lib service_config requests empty_store) ≤ 1)
    × ((row : Operation)
        → find_operation "op-1" [] ≡ some row
        → is_prepared row.state ≡ false
        → count_permits "op-1" (audit_run lib service_config requests empty_store) ≡ 0)
audit_run-permits_example = audit_run-permits lib service_config "op-1" requests empty_store

abbrev write_request : Json
write_request = envelope "gate" (
    dict (
      field "action" (text "write")
        (field "intent" op_json (field "kind" (text "control") (field "permit" permit end)))))

abbrev empty_api : ApiStore
empty_api = record { effects = []; attempts = 0 }

backend-IsPermitted_example :
    ((backend lib service_config false writes write_request empty_api).1.effects ≡ [])
    ⊎ ((new : ApiEffect) × ((backend lib service_config false writes write_request
            empty_api).1.effects
          ≡ [] ++ new ∷ [])
        × IsPermitted lib service_config write_request empty_api new)
backend-IsPermitted_example = backend-IsPermitted lib service_config writes write_request empty_api

abbrev api_requests : List (ApiAction × Json)
api_requests = (writes, write_request) ∷ (writes, write_request) ∷ (lookups, write_request) ∷ []

api_run-IsSingle_example :
    IsSingle lib service_config (api_run lib service_config api_requests empty_api)
    × ((oid : String) (row : ApiEffect)
        → find_effect oid [] ≡ some row
        → find_effect oid (api_run lib service_config api_requests empty_api).effects ≡ some row)
api_run-IsSingle_example =
    api_run-IsSingle lib service_config api_requests empty_api
      (record { single = λ oid. omega arith })
