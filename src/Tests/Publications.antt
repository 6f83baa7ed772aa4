-- ===== src/Tests/Publications.antt =====
-- Runs of the publication pilot.
use Prim.Native.String.{◌++◌ as str_append}
use vap_spec.Base.{
  if◌then◌else◌, ◌≤◌, ◌≡◌, refl, true, false, some, List, String, [], ◌∷◌, length, codes, All,
}
use vap_spec.Runtime.Json.{Json, text, dict, end, field, count_fields}
use vap_spec.Gate.Policy.{lookup, member}
use vap_spec.Assessor.{InputLib, bounded_json, digest_hex, is_input_text}
use vap_spec.Pilot.{
  PilotLib, identifier, is_sha256, canonical, digest, same_digest, timestamp, sign_message,
}
use vap_spec.Pilot.OneShot.{attempts}
use vap_spec.Pilot.Journal.{
  commits, unacknowledged, find_row, is_claimed, set_result, IsComplete, Terminal,
}
use vap_spec.Publication.{
  intent_row, confirmed, PublishResult, row_is, local_output_confirmed, Row, is_intent, safe_name,
  valid_snapshot, valid_row, get, claim, finish,
}
use vap_spec.Publication.Publish.{
  World, Env, links, complete, Publisher, Call, receipt_body, disposition, persist, read_artifact,
  observe, attempt, with_stage, publish_new, snapshot_of, publish,
}
use vap_spec.Publication.Once.{publisher, publish-once, tried}
use vap_spec.Publication.Terminal.{publish-IsComplete, publish-Terminal}
use vap_spec.Publication.Visible.{Adds, alone_call, publish-Adds}
use vap_spec.Publication.Confirmed.{Established, settled_call, publish-Established}

abbrev pub some_hex : String
some_hex = "aaaaaaaaaaaaaaaaaaaaaaaaaaaaaaaaaaaaaaaaaaaaaaaaaaaaaaaaaaaaaaaa"

-- An instant is the length of its text.
abbrev pub inputs : InputLib
inputs = record {
  dumps = λ v. some "{}";
  is_blank = λ s. false;
  instant = λ s. some (length (codes s));
}

abbrev pub lib : PilotLib
lib = record {
  input = inputs;
  sha256 = λ s. some_hex;
  sign = λ secret message. str_append some_hex some_hex;
  verifies = λ public signature message. true;
}

abbrev config : Publisher
config = record { destination_id = "venue"; secret = some_hex; key_id = "k" }

abbrev env : Env
env = record {
  journal_opens = true;
  before_claim = [];
  directories_open = true;
  stage = complete;
  stage_name = "s.stage";
  stage_identity = 7;
  claim_commit = commits;
  before_link = some true;
  at_before_link = [];
  link = links;
  after_link_returns = true;
  at_after_link = [];
  reads = true;
  clock = some "now";
  at_finish = [];
  finish_commit = commits;
  state_reads = true;
  cleans = true;
}

abbrev call : Call
call = record {
  request_id = "r1";
  fingerprint = some_hex;
  html = "<p>note</p>";
  disclosure_sha256 = some_hex;
  env = env;
}

-- The acknowledgment of the result is lost.
abbrev lost : Call
lost = record call { env = record env { finish_commit = unacknowledged } }

abbrev world : World
world = record { journal = []; visible = []; staged = [] }

abbrev receipt : Json
receipt = dict (
    field "algorithm" (text "Ed25519") (
      field "key_id" (text "k") (
        field "body" (receipt_body (snapshot_of lib config call) "now")
          (field "signature" (text (str_append some_hex some_hex)) end))))

abbrev result : PublishResult
result = record {
  state = confirmed;
  attempted = true;
  visible_name = str_append some_hex ".html";
  receipt = some receipt;
  journal_state = row_is local_output_confirmed;
  reason = "MEASURED_LOCAL_FILE_CONFIRMED";
}

it_publishes : (publish lib config (settled_call call) world).0 ≡ some result
unfolding publish get find_row identifier is_sha256 digest_hex publish_new with_stage claim
    valid_snapshot valid_row safe_name canonical bounded_json disposition same_digest digest attempt
    lookup member observe read_artifact timestamp is_input_text sign_message persist finish
    set_result count_fields
it_publishes = refl

publish-Established_example :
    Established lib config
      (snapshot_of lib config call)
      result
      (publish lib config (settled_call call) world).1
publish-Established_example = publish-Established lib config call world result it_publishes refl

publish-once_example :
    attempts (publisher lib config) "r1" (call ∷ lost ∷ call ∷ []) world
    ≤ (if is_claimed "r1" world.journal then 0 else 1)
publish-once_example = publish-once lib config "r1" (call ∷ lost ∷ call ∷ []) world

abbrev world_after : World
world_after = (publish lib config (settled_call call) world).1

abbrev first : List Row → Row
first [] = intent_row lib "r1" "" (snapshot_of lib config call)
first (r ∷ rows) = r

abbrev row : Row
row = first world_after.journal

row-IsTerminal : Terminal is_intent "r1" row world_after.journal
unfolding publish get find_row identifier is_sha256 digest_hex publish_new with_stage claim
    valid_snapshot valid_row safe_name canonical bounded_json disposition same_digest digest attempt
    lookup member observe read_artifact timestamp is_input_text sign_message persist finish
    set_result count_fields
row-IsTerminal = (refl, refl)

publish-IsComplete_example :
    All (IsComplete is_intent) (publish lib config (settled_call call) world).1.journal
publish-IsComplete_example = publish-IsComplete lib config (settled_call call) world tt

publish-Terminal_example :
    Terminal is_intent "r1" row (publish lib config lost world_after).1.journal
publish-Terminal_example = publish-Terminal lib config lost world_after "r1" row row-IsTerminal

publish-Adds_example :
    Adds
      (safe_name lib "r1")
      (record { identity = 7; is_regular = true; bytes = "<p>note</p>" })
      []
      (tried lib config (publish lib config (alone_call call) world).0)
      (publish lib config (alone_call call) world).1.visible
publish-Adds_example = publish-Adds lib config call world
