-- ===== src/Tests/Payments.antt =====
-- payment_runtime.py with one request, over a JSON library and keys that are constants.
use vap_spec.Base.{◌≤◌, ◌≡◌, refl, true, false, none, some, String, List, [], ◌∷◌, arith}
use vap_spec.Runtime.Outcome.{ok}
use vap_spec.Runtime.Json.{
  Json, int, text, dict, end, field, JsonLib, json_value, string_value, canonical_json, load_json,
  count_fields, get_field,
}
use vap_spec.Runtime.Request.{
  Context, Request, Prepared, prepare, request_bytes, request_fields, valid_request, valid_context,
  is_text, is_hash, is_integer, decimal, number, same_scope, same_generation,
}
use vap_spec.Runtime.Receipt.{Platform, bytes_digest, signed_receipt, payload_json, verify_receipt}
use vap_spec.Runtime.Rows.{
  MetaTable, find, select, overlaps, the_row, insert, clashes, is_current, transaction,
}
use vap_spec.Runtime.Provider.{
  ProviderConfig, ProviderStore, apply_payment, scope_of, balance, set_balance, move, is_too_long,
  has_effect,
}
use vap_spec.Runtime.Provider.Http.{Weather, Post, do_post}
use vap_spec.Runtime.Provider.Ledger.{total}
use vap_spec.Runtime.Provider.Steps.{total-do_post}
use vap_spec.Runtime.Provider.Replay.{serve, apply_payment-replay}
use vap_spec.Runtime.Provider.Effects.{IsConsistent, IsConsistent-serve}
use vap_spec.Runtime.Journal.{
  Adapter, Dispatch, by_digest, new_row, claimed, claim, claim_body, claim_new, read,
}
use vap_spec.Runtime.Adapter.{
  Env, State, submit_prepared, reconcile, dispatch, receive, from_row, retain_unknown,
}
use vap_spec.Runtime.Adapter.Moves.{Call, submits, reconciles, call, run}
use vap_spec.Runtime.Adapter.Once.{count_at, run-posts_once}
use vap_spec.Runtime.Adapter.Terminal.{Retained, run-row_kept}

abbrev configuration : String
configuration = "sha256:0123456789abcdef0123456789abcdef0123456789abcdef0123456789abcdef"

abbrev pub request_json : Json
request_json = dict (
    field "amount_minor" (text "30") (
      field "api_audience" (text "api") (
        field "beneficiary" (text "bob") (
          field "configuration_digest" (text configuration) (
            field "currency" (text "EUR") (
              field "environment" (text "test") (
                field "idempotency_domain" (text "payments") (
                  field "idempotency_key" (text "k1") (
                    field "minor_unit_scale" (int 2) (
                      field "operation_id" (text "op1") (
                        field "recovery_epoch" (int 1) (
                          field "schema" (text "synthetic-loopback-payment-request-v0") (
                            field "source_account" (text "alice")
                              (field "tenant" (text "acme") end))))))))))))))

-- Every value is written as one text, which is read back as the request.
abbrev json_lib : JsonLib
json_lib = record { dumps = λ v. "doc"; loads = λ s. some request_json; is_nfc = λ s. true }

abbrev platform : Platform
platform = record {
  json = json_lib;
  sha256 = λ s. s;
  sign = λ k m. "signature";
  verifies = λ k s m. true;
}

abbrev pub context : Context
context = record {
  tenant = "acme";
  environment = "test";
  api_audience = "api";
  idempotency_domain = "payments";
  currency = "EUR";
  minor_unit_scale = 2;
}

abbrev pub request : Request
request = record {
  schema = "synthetic-loopback-payment-request-v0";
  context = context;
  operation_id = "op1";
  idempotency_key = "k1";
  configuration_digest = configuration;
  recovery_epoch = 1;
  source_account = "alice";
  beneficiary = "bob";
  amount_minor = 30;
}

abbrev prepared : Prepared
prepared = record { snapshot = request_json; request = request; raw = "doc" }

request_is_prepared : prepare json_lib context request_json ≡ some prepared
unfolding prepare request_bytes request_fields valid_request valid_context is_text is_hash
    is_integer decimal number same_scope canonical_json load_json json_value string_value
    count_fields get_field
request_is_prepared = refl

abbrev config : ProviderConfig
config = record {
  context = context;
  private_key = "key";
  credential = "credential";
  configuration_digest = configuration;
  recovery_epoch = 1;
  provider_id = "provider";
}

abbrev pub meta : MetaTable
meta = record {
  identity = some "provider";
  generation = some (record { recovery_epoch = 1; configuration_digest = configuration });
}

abbrev store : ProviderStore
store = record {
  meta = meta;
  balances = ("alice", 100) ∷ ("bob", 5) ∷ [];
  payments = [];
  effects = [];
  post_attempts = 0;
  lookup_attempts = 0;
}

abbrev store_after : ProviderStore
store_after = record {
  meta = meta;
  balances = ("alice", 70) ∷ ("bob", 35) ∷ [];
  payments =
      record {
        identity = record {
          request_digest = "sha256:doc";
          scope = "sha256:doc";
          operation_id = "op1";
          idempotency_key = "k1";
          request_bytes = "doc";
        };
        status = vap_spec.Runtime.Receipt.settled;
        receipt_bytes = "doc";
      }
      ∷ [];
  effects =
      record {
        request_digest = "sha256:doc";
        source_account = "alice";
        beneficiary = "bob";
        amount_minor = 30;
      }
      ∷ [];
  post_attempts = 0;
  lookup_attempts = 0;
}

payment_settles : apply_payment platform config 7 prepared store ≡ (ok ("doc", true), store_after)
unfolding apply_payment scope_of canonical_json json_value string_value count_fields find select
    overlaps is_current same_generation balance move is_too_long set_balance has_effect bytes_digest
    signed_receipt payload_json insert clashes
payment_settles = refl

abbrev weather : Weather
weather = record {
  now_ms = 9;
  metric_fails = false;
  payment_fails = false;
  hook_raises = false;
  drop_after_commit = true;
}

abbrev post : Post
post = record {
  path = "/payments";
  authorization = "Bearer credential" ∷ [];
  content_length = "3" ∷ [];
  transfer_encoding = none;
  received = "doc";
}

apply_payment-replay_example :
    apply_payment platform config 8 prepared
      (serve platform config ((weather, post) ∷ []) store_after)
    ≡ (ok ("doc", false), serve platform config ((weather, post) ∷ []) store_after)
apply_payment-replay_example =
    apply_payment-replay platform config 7 8 prepared store store_after "doc" true
      ((weather, post) ∷ []) payment_settles

total-do_post_example :
    total (do_post platform config weather post store).1.balances ≡ total store.balances
total-do_post_example = total-do_post platform config weather post store

IsConsistent-serve_example : IsConsistent (serve platform config ((weather, post) ∷ []) store)
IsConsistent-serve_example =
    IsConsistent-serve platform config ((weather, post) ∷ []) store
      (record { matched = refl; once = λ d. omega arith })

abbrev pub adapter : Adapter
adapter = record {
  context = context;
  scope = "sha256:doc";
  provider_public_key = "public";
  provider_id = "provider";
  configuration_digest = configuration;
  recovery_epoch = 1;
}

-- A call in which the answer of the provider is lost.
abbrev pub lost : Env
lost = record {
  claim_fails = false;
  claimed_at_ms = 10;
  claim_hook_raises = false;
  before_dispatch_raises = false;
  response = none;
  response_hook_raises = false;
  store_fails = false;
  observed_at_ms = 11;
  read_fails = false;
  custody_raises = false;
}

abbrev pub start : State
start = record { journal = record { meta = meta; dispatches = []; proofs = [] }; posted = [] }

abbrev calls : List Call
calls =
    submits lost none request_json
    ∷ submits lost none request_json
    ∷ reconciles lost request_json
    ∷ []

run-posts_once_example :
    (count_at (λ r. r.operation_id) "sha256:doc" "op1" (run platform adapter calls start).posted
      ≤ 1)
    × (count_at
          (λ r. r.idempotency_key)
          "sha256:doc"
          "op1"
          (run platform adapter calls start).posted
        ≤ 1)
run-posts_once_example =
    run-posts_once platform adapter calls start "op1" (record { dispatches = refl; posted = refl })

abbrev claim_row : Dispatch
claim_row = record {
  identity = record {
    request_digest = "sha256:doc";
    scope = "sha256:doc";
    operation_id = "op1";
    idempotency_key = "k1";
    request_bytes = "doc";
  };
  state = claimed;
  receipt_bytes = none;
  claimed_at_ms = 10;
  observed_at_ms = none;
}

abbrev claimed_state : State
claimed_state = record {
  journal = record { meta = meta; dispatches = claim_row ∷ []; proofs = [] };
  posted = claim_row.identity ∷ [];
}

claim_is_there : by_digest "sha256:doc" claimed_state.journal.dispatches ≡ some claim_row
unfolding by_digest
claim_is_there = refl

one_post : (run platform adapter calls start).posted ≡ claim_row.identity ∷ []
unfolding call submit_prepared claim read find select overlaps the_row prepare request_bytes
    request_fields valid_request valid_context is_text is_hash is_integer decimal number same_scope
    canonical_json load_json json_value string_value count_fields get_field transaction claim_body
    is_current same_generation insert clashes new_row bytes_digest dispatch receive reconcile
    from_row retain_unknown claim_new
one_post = refl

run-row_kept_example :
    Retained claim_row "sha256:doc" (run platform adapter calls claimed_state).journal.dispatches
run-row_kept_example =
    run-row_kept platform adapter claim_row "sha256:doc" calls claimed_state claim_is_there
