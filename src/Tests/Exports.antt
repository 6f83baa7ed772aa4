-- ===== src/Tests/Exports.antt =====
-- bridge.py, control_evidence.py and the openings of a store, at concrete inputs.
use vap_spec.Base.{◌↔◌, ◌≡◌, refl, true, false, some, List, [], ◌∷◌}
use vap_spec.Runtime.Json.{
  Json, int, bool, text, list, dict, nil, cons, end, field, count_fields, get_field,
}
use vap_spec.Runtime.Rows.{Generation, MetaTable}
use vap_spec.Runtime.Rows.Generations.{IsSince, open_run, open_run-IsSince}
use vap_spec.Gate.Policy.{member, distinct}
use vap_spec.RecordGate.Envelope.{get, digest, decode, verified_body, intent}
use vap_spec.RecordGate.Authority.{authorize, claim_body, revocations}
use vap_spec.RecordGate.Export.{
  EventType, has_type, ExportKeys, event_type, is_authorized_again, next_seen, validate_event,
  validate_all, validate_events,
}
use vap_spec.RecordGate.Export.Order.{AreOrdered, validate_events-AreOrdered}
use vap_spec.ControlState.{
  met_for_declared_paths, path_scope, path_says, judge_paths, judge_window, preflight,
}
use vap_spec.ControlState.Met.{IsMet, preflight-IsMet}
use vap_spec.Tests.Operations.{lib, op_json, request_json, identity_json, envelope}

abbrev keys : ExportKeys
keys = record {
  audit_public = "audit";
  backend_public = "backend";
  authority_public = "authority";
  evaluation_id = "e1";
  policy_digest = "p1";
}

abbrev request_event_json : Json
request_event_json = envelope "audit" (
    dict (
      field "evaluation_id" (text "e1") (
        field "event_id" (text "op-1:request") (
          field "event_type" (text "request") (
            field "kind" (text "event") (
              field "payload"
                (dict (
                  field "authorization" identity_json (
                    field "intent" op_json (
                      field "operation_digest" (text "op")
                        (field "signed_request" request_json end)))))
                (field "policy_digest" (text "p1")
                  (field "source_id" (text "gate-audit") end))))))))

events_are_valid : validate_events lib keys "op-1" "op" (request_event_json ∷ []) ≡ some false
unfolding validate_events validate_all validate_event event_type next_seen is_authorized_again
    authorize claim_body revocations member get digest decode verified_body intent count_fields
    get_field
events_are_valid = refl

validate_events-AreOrdered_example :
    (types : List EventType) × AreOrdered lib keys "op-1" "op" [] (request_event_json ∷ []) types
    × (false ≡ has_type EventType.result_event types)
validate_events-AreOrdered_example =
    validate_events-AreOrdered lib keys "op-1" "op" (request_event_json ∷ []) false events_are_valid

abbrev observation : Json
observation = dict (
    field "config_digest" (text "c1") (
      field "measured_ns" (int 95) (
        field "paths"
          (dict (
            field "api"
              (dict (field "reachable" (bool false) (field "target_healthy" (bool true) end))) end))
          (field "run_id" (text "r1") end))))

abbrev required_paths : Json
required_paths = list (cons (text "api") nil)

it_is_met :
    (preflight "r1" "c1" observation (int 100) (int 10) required_paths).status
    ≡ met_for_declared_paths
unfolding preflight path_scope path_says judge_paths judge_window distinct member get get_field
it_is_met = refl

preflight-IsMet_example :
    ((preflight "r1" "c1" observation (int 100) (int 10) required_paths).status
      ≡ met_for_declared_paths)
    ↔ IsMet "r1" "c1" observation (int 100) (int 10) required_paths
preflight-IsMet_example = preflight-IsMet "r1" "c1" observation (int 100) (int 10) required_paths

abbrev generation_two : Generation
generation_two = record { recovery_epoch = 2; configuration_digest = "c2" }

abbrev generation_one : Generation
generation_one = record { recovery_epoch = 1; configuration_digest = "c1" }

abbrev opened : MetaTable
opened = record { identity = some "store"; generation = some generation_one }

open_run-IsSince_example : IsSince "store" generation_one (
    open_run
      (("store", generation_two) ∷ ("store", generation_one) ∷ ("other", generation_two) ∷ [])
      opened)
open_run-IsSince_example =
    open_run-IsSince "store" generation_one
      (("store", generation_two) ∷ ("store", generation_one) ∷ ("other", generation_two) ∷ [])
      opened refl refl
