-- ===== src/Tests/Receipts.antt =====
-- payment_runtime.py: an adapter whose payment is settled, over a JSON library of three texts.
use vap_spec.Base.{◌≡◌, refl, true, none, some, String, [], ◌∷◌, str_eq, if◌then◌else◌, inr}
use vap_spec.Runtime.Outcome.{Result, ok, err}
use vap_spec.Runtime.Json.{
  Json, null, int, text, dict, end, field, json_value, string_value, canonical_json, load_json,
  count_fields, get_field,
}
use vap_spec.Runtime.Request.{
  Prepared, prepare, request_bytes, request_fields, valid_request, valid_context, is_text, is_hash,
  is_integer, decimal, number, same_scope, same_generation,
}
use vap_spec.Runtime.Receipt.{
  Platform, bytes_digest, settled, payload_fields, terminal_status, verify_receipt,
}
use vap_spec.Runtime.Rows.{
  find, select, overlaps, the_row, insert, clashes, is_current, transaction,
}
use vap_spec.Runtime.Journal.{
  finish, finish_all, by_digest, new_row, claim, claim_body, claim_new, claim_found, read,
  store_receipt, store_body, store_found,
}
use vap_spec.Runtime.Adapter.{
  Env, Report, finished, submit_prepared, read_status, dispatch, receive, from_row, from_state,
  from_terminal, retain_unknown, rejection,
}
use vap_spec.Runtime.Adapter.Moves.{submits, call, run}
use vap_spec.Runtime.Adapter.Reports.{Evidence, submit_prepared-Evidence, reconcile-Evidence}
use vap_spec.Tests.Payments.{request_json, request, lost, start, adapter}
use vap_spec.Tests.Admissions.{signature}

-- A dict is written as its first key.
abbrev first_key : Json → String
first_key (dict (field k v fs)) = k
first_key _ = "x"

abbrev payload : Json
payload = dict (
    field "effect_id" (text "sha256:amount_minor") (
      field "failure_reason" null (
        field "provider_id" (text "provider") (
          field "recorded_at_ms" (int 12) (
            field "request" request_json (
              field "request_digest" (text "sha256:amount_minor") (
                field "schema" (text "synthetic-loopback-payment-receipt-v0")
                  (field "status" (text "settled") end))))))))

abbrev receipt : Json
receipt = dict (field "payload" payload (field "signature" (text signature) end))

abbrev platform : Platform
platform = record {
  json = record {
    dumps = first_key;
    loads = λ s. some (if str_eq s "payload" then receipt else request_json);
    is_nfc = λ s. true;
  };
  sha256 = λ s. s;
  sign = λ k m. signature;
  verifies = λ k s m. true;
}

abbrev prepared : Prepared
prepared = record { snapshot = request_json; request = request; raw = "amount_minor" }

abbrev paid : Env
paid = record lost { response = some (200, "payload") }

abbrev report_of : Result Report → Report
report_of (ok r) = r
report_of (err e) = rejection platform adapter

abbrev report : Report
report = report_of (submit_prepared platform adapter paid none prepared start).0

it_settles :
    ((submit_prepared platform adapter paid none prepared start).0 ≡ ok report)
    × (report.state ≡ finished settled)
unfolding submit_prepared claim read find select overlaps the_row prepare request_bytes
    request_fields valid_request valid_context is_text is_hash is_integer decimal number same_scope
    canonical_json load_json json_value string_value count_fields get_field transaction claim_body
    is_current same_generation insert clashes new_row bytes_digest dispatch receive from_row
    from_state from_terminal retain_unknown claim_new claim_found payload_fields terminal_status
    verify_receipt store_receipt store_body store_found finish finish_all by_digest
it_settles = (refl, refl)

submit_prepared-Evidence_example : Evidence platform adapter prepared settled report
submit_prepared-Evidence_example =
    submit_prepared-Evidence platform adapter [] paid none prepared start report settled tt
      (it_settles.0) (it_settles.1)

abbrev later : Report
later =
    read_status platform adapter lost request_json
      (run platform adapter (submits paid none request_json ∷ []) start).journal

it_stays_settled :
    (prepare platform.json adapter.context request_json ≡ some prepared)
    × (later.state ≡ finished settled)
unfolding call submit_prepared claim read find select overlaps the_row prepare request_bytes
    request_fields valid_request valid_context is_text is_hash is_integer decimal number same_scope
    canonical_json load_json json_value string_value count_fields get_field transaction claim_body
    is_current same_generation insert clashes new_row bytes_digest dispatch receive from_row
    from_state from_terminal retain_unknown claim_new claim_found payload_fields terminal_status
    verify_receipt store_receipt store_body store_found finish finish_all by_digest read_status
it_stays_settled = (refl, refl)

reconcile-Evidence_example : Evidence platform adapter prepared settled later
reconcile-Evidence_example =
    reconcile-Evidence platform adapter (submits paid none request_json ∷ []) lost request_json
      prepared start later settled tt (it_stays_settled.0) (inr refl) (it_stays_settled.1)
