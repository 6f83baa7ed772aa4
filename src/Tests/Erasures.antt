-- ===== src/Tests/Erasures.antt =====
-- Runs of the erasure pilot.
use Prim.Native.String.{◌++◌ as str_append}
use vap_spec.Base.{
  if◌then◌else◌, ◌≤◌, ◌≡◌, refl, true, false, List, Option, none, some, String, [], ◌∷◌, All,
}
use vap_spec.Runtime.Json.{
  Json, int, text, list, dict, nil, cons, end, field, get_field, count_fields, count_items,
}
use vap_spec.Gate.Policy.{lookup, member, distinct}
use vap_spec.RecordGate.Envelope.{get}
use vap_spec.Assessor.{bounded_json, exact_keys, digest_hex, is_input_text, strings}
use vap_spec.Pilot.{
  identifier, canonical, digest, same_digest, timestamp, sign_message, verify_message,
}
use vap_spec.Pilot.OneShot.{attempts}
use vap_spec.Pilot.Journal.{commits, find_row, is_claimed, set_result, Terminal}
use vap_spec.Erasure.Task.{
  Pins, PinnedKey, Context, location, valid_manifest, is_subject, key_time, validate_pins,
  request_body, authorization_body, validate_task,
}
use vap_spec.Erasure.{
  intent_row, ErasureResult, Row, final, local_unlink_confirmed, is_intent, valid_result,
  historical_context, valid_row, get_row, claim, finish,
}
use vap_spec.Erasure.Delete.{
  World, Env, unlinks, Provider, Call, object_name, measure, replay_if_claimed, event_time,
  provider_record, disposition, persist, observe, attempt, final_tests, acknowledged,
  acknowledgement, take, delete_current, proposal, delete_task, captured, delete, not_prepared,
}
use vap_spec.Erasure.Once.{eraser, delete-once}
use vap_spec.Erasure.Results.{IsSound, delete-valid, delete-IsSound, delete-Terminal}
use vap_spec.Erasure.Erased.{Erases, alone_call, delete-Erases}
use vap_spec.Erasure.Recorded.{IsRecorded, delete-IsRecorded}
use vap_spec.Tests.Publications.{some_hex, lib}

abbrev key : String → String → String → PinnedKey
key id public role = record {
  key_id = id;
  public_key = public;
  issuer = id;
  organization = "single-local-controller";
  roles = role ∷ [];
  not_before = "a";
  not_after = "aaaaaaaaaaaaaaa";
}

abbrev b_hex : String
b_hex = "bbbbbbbbbbbbbbbbbbbbbbbbbbbbbbbbbbbbbbbbbbbbbbbbbbbbbbbbbbbbbbbb"

abbrev c_hex : String
c_hex = "cccccccccccccccccccccccccccccccccccccccccccccccccccccccccccccccc"

abbrev pins : Pins
pins = record {
  provider_id = "p";
  tenant_id = "t";
  location = location;
  requester = key "rq" some_hex "responder";
  provider = key "pr" b_hex "provider";
  observer = key "ob" c_hex "reviewer";
}

abbrev config : Provider
config = record { pins = pins; secret = some_hex }

abbrev manifest_json : Json
manifest_json = dict (
    field "provider_id" (text "p") (
      field "tenant_id" (text "t") (
        field "object_id" (text "o") (
          field "version_id" (text "v") (
            field "sha256" (text some_hex)
              (field "byte_length" (int 3) (field "location" (text location) end)))))))

abbrev subject : Json
subject = dict (
    field "request_id" (text "r1") (
      field "provider_id" (text "p") (
        field "tenant_id" (text "t") (
          field "object_ids" (list (cons (text "o") nil))
            (field "payload_sha256" (text some_hex) (field "stage" (text "erasure") end))))))

abbrev signed : Json → Json
signed body = dict (
    field "algorithm" (text "Ed25519") (
      field "key_id" (text "rq")
        (field "body" body (field "signature" (text (str_append some_hex some_hex)) end))))

abbrev request : Json
request = signed (
    dict (
      field "record_id" (text "rec") (
        field "evaluation_id" (text "ev") (
          field "kind" (text "erasure.request") (
            field "issuer" (text "rq") (
              field "recorded_at" (text "aa") (
                field "binding" subject (
                  field "data"
                    (dict (
                      field "requested_at" (text "aa")
                        (field "requested_locations" (list (cons (text location) nil)) end)))
                    end))))))))

abbrev authorization : Json
authorization = signed (
    dict (
      field "kind" (text "deletion_authorization") (
        field "request_sha256" (text some_hex) (
          field "manifest_sha256" (text some_hex)
            (field "authorized_at" (text "aa") (field "valid_until" (text "aaaaaaaaaaaa") end))))))

abbrev task : Json
task = dict (
    field "format" (text "incident-erasure-task/0.1") (
      field "manifest" manifest_json
        (field "request" request (field "authorization" authorization end))))

abbrev env : Env
env = record {
  journal_opens = true;
  clock_proposed = some "aaa";
  at_start = [];
  namespace_opens = true;
  measures = true;
  journal_reopens = true;
  at_claim = [];
  claim_commit = commits;
  clock_acknowledged = some "aaaa";
  before_unlink_returns = true;
  at_hook = [];
  clock_final = some "aaaaa";
  measures_again = true;
  clock_unlinked = some "aaaaaa";
  status_reads = true;
  namespace_is_current = true;
  at_race = [];
  unlink = unlinks;
  after_unlink_returns = true;
  at_absence = [];
  measures_absence = true;
  namespace_stays = true;
  clock_observed = some "aaaaaaa";
  at_finish = [];
  finish_commit = commits;
  state_reads = true;
}

abbrev call : Call
call = record { task = task; acknowledge_only = false; env = env }

abbrev file_name : String
file_name = str_append some_hex ".bin"

abbrev world : World
world = record {
  journal = [];
  namespace = (file_name, record { identity = 9; is_regular = true; bytes = "abc" }) ∷ [];
}

abbrev context : Context
context = record {
  request_id = "r1";
  evaluation_id = "ev";
  subject = subject;
  operation_at = "aa";
  valid_until = "aaaaaaaaaaaa";
  task_sha256 = some_hex;
  manifest_sha256 = some_hex;
  request_record_id = "rec";
  manifest = record {
    provider_id = "p";
    tenant_id = "t";
    object_id = "o";
    version_id = "v";
    sha256 = some_hex;
    byte_length = 3;
    location = location;
  };
}

it_captures : captured lib config call ≡ some (context, file_name)
unfolding captured historical_context get get_field validate_task validate_pins identifier
    digest_hex distinct member timestamp is_input_text exact_keys valid_manifest request_body
    verify_message canonical bounded_json strings count_items count_fields key_time digest
    is_subject authorization_body object_name
it_captures = refl

abbrev or_else : Option ErasureResult → ErasureResult
or_else none = not_prepared
or_else (some r) = r

abbrev result : ErasureResult
result = or_else (delete lib config call world).0

it_deletes :
    ((delete lib config call world).0 ≡ some result)
    × (result.state ≡ final local_unlink_confirmed)
    × ((delete lib config call world).1.namespace ≡ [])
unfolding delete captured historical_context get get_field validate_task validate_pins identifier
    digest_hex distinct member timestamp is_input_text exact_keys valid_manifest request_body
    verify_message canonical bounded_json strings count_items count_fields key_time digest
    is_subject authorization_body object_name delete_task replay_if_claimed get_row find_row
    proposal event_time delete_current measure lookup take claim valid_row disposition
    acknowledgement provider_record sign_message acknowledged final_tests attempt observe persist
    finish valid_result same_digest set_result
it_deletes = (refl, refl, refl)

delete-once_example :
    attempts (eraser lib config) "r1" (call ∷ call ∷ []) world
    ≤ (if is_claimed "r1" world.journal then 0 else 1)
delete-once_example = delete-once lib config "r1" (call ∷ call ∷ []) world

delete-valid_example : valid_result result ≡ true
delete-valid_example = delete-valid lib config call world result (it_deletes.0)

abbrev world_after : World
world_after = (delete lib config call world).1

abbrev first : List Row → Row
first [] = intent_row lib config.pins "r1" "" task
first (r ∷ rows) = r

abbrev row : Row
row = first world_after.journal

row-IsTerminal : Terminal is_intent "r1" row world_after.journal
unfolding delete captured historical_context get get_field validate_task validate_pins identifier
    digest_hex distinct member timestamp is_input_text exact_keys valid_manifest request_body
    verify_message canonical bounded_json strings count_items count_fields key_time digest
    is_subject authorization_body object_name delete_task replay_if_claimed get_row find_row
    proposal event_time delete_current measure lookup take claim valid_row disposition
    acknowledgement provider_record sign_message acknowledged final_tests attempt observe persist
    finish valid_result same_digest set_result
row-IsTerminal = (refl, refl)

delete-IsSound_example : All IsSound (delete lib config call world).1.journal
delete-IsSound_example = delete-IsSound lib config call world tt

delete-Terminal_example : Terminal is_intent "r1" row (delete lib config call world_after).1.journal
delete-Terminal_example = delete-Terminal lib config call world_after "r1" row row-IsTerminal

delete-Erases_example :
    Erases lib context.manifest file_name world.namespace result
      (delete lib config (alone_call call) world).1.namespace
delete-Erases_example =
    delete-Erases lib config call context file_name world result it_captures (it_deletes.0)

delete-IsRecorded_example : IsRecorded "r1" result (delete lib config call world).1.journal
delete-IsRecorded_example =
    delete-IsRecorded lib config call context file_name world result it_captures (it_deletes.0)
      (it_deletes.1)
