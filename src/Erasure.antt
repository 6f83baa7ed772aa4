-- ===== src/Erasure.antt =====
-- experiments/incident-erasure-pilot/erasure_pilot/provider.py: the results of a provider, and the
-- journal of the tasks that it took.
pub mod Task
pub mod Delete
pub mod Journal
pub mod Exits
pub mod Preserved
pub mod Once
pub mod Results
pub mod Erased
pub mod Recorded
use Prim.Native.String.{◌++◌ as str_append}
use vap_spec.Base.{
  ℕ, Bool, true, false, not, ◌&&◌, ◌||◌, Option, none, some, String, List, [], ◌∷◌, ◌++◌, str_eq,
  if◌then◌else◌,
}
use vap_spec.Runtime.Json.{Json, null, bool, text, dict, end, field}
use vap_spec.Runtime.Request.{◌>>=◌, ◌>>◌, check}
use vap_spec.RecordGate.Envelope.{get, text_at}
use vap_spec.Pilot.Journal.{
  Commit, commits, fails, unacknowledged, acknowledge, committed, ClaimStatus, claimed, replay,
  conflict, JournalRow, has_no_result, find_row, set_result,
}
use vap_spec.Pilot.{PilotLib, identifier, canonical, digest}
use vap_spec.Erasure.Task.{Pins, Context, validate_task}

-- TERMINAL
pub data End : Type 0 where
  local_unlink_confirmed acknowledged_only blocked outcome_unknown : End

pub data RowState : Type 0 where
  deletion_intent : RowState
  ended : End → RowState

-- RESULT_STATES
pub data ResultState : Type 0 where
  final : End → ResultState
  replay_no_action request_id_conflict : ResultState

pub data Standing : Type 0 where
  not_claimed unavailable : Standing
  row_is : RowState → Standing

pub record ErasureResult : Type 0 where
  pub state : ResultState
  pub attempted : Bool
  pub acknowledgement : Option Json
  pub attestation : Option Json
  pub receipt : Option Json
  pub journal_state : Standing
  pub reason : String

-- A row of the journal; its snapshot is the signed task.
abbrev pub Row : Type 0
Row = JournalRow Json RowState ErasureResult

abbrev pub end_text : End → String
end_text local_unlink_confirmed = "LOCAL_UNLINK_CONFIRMED"
end_text acknowledged_only = "ACKNOWLEDGED_ONLY"
end_text blocked = "BLOCKED"
end_text outcome_unknown = "OUTCOME_UNKNOWN"

abbrev pub row_state_text : RowState → String
row_state_text deletion_intent = "deletion_intent"
row_state_text (ended e) = end_text e

abbrev pub standing_text : Standing → String
standing_text not_claimed = "NOT_CLAIMED"
standing_text unavailable = "UNAVAILABLE"
standing_text (row_is s) = row_state_text s

abbrev pub state_text : ResultState → String
state_text (final e) = end_text e
state_text replay_no_action = "REPLAY_NO_ACTION"
state_text request_id_conflict = "REQUEST_ID_CONFLICT"

abbrev pub or_null : Option Json → Json
or_null none = null
or_null (some v) = v

abbrev pub result_json : ErasureResult → Json
result_json r = dict (
    field "state" (text (state_text r.state)) (
      field "attempted" (bool r.attempted) (
        field "acknowledgement" (or_null r.acknowledgement) (
          field "attestation" (or_null r.attestation) (
            field "receipt" (or_null r.receipt) (
              field "journal_state" (text (standing_text r.journal_state))
                (field "reason" (text r.reason) end)))))))

abbrev pub is_intent : RowState → Bool
is_intent deletion_intent = true
is_intent (ended e) = false

abbrev pub is_there {ℓ} : {A : Type ℓ} → Option A → Bool
is_there none = false
is_there (some a) = true

-- The tests of `_validate_result` on the state.
abbrev pub valid_state : ResultState → Bool → Bool → Bool → Bool → Bool
valid_state (final local_unlink_confirmed) attempted ack attestation receipt =
    attempted && (ack && (attestation && receipt))
valid_state (final outcome_unknown) attempted ack attestation receipt =
    not attestation && not receipt
valid_state (final blocked) attempted ack attestation receipt =
    not attempted && (not attestation && not receipt)
valid_state (final acknowledged_only) attempted ack attestation receipt =
    not attempted && (ack && (not attestation && not receipt))
valid_state replay_no_action attempted ack attestation receipt =
    not attempted && (not ack && (not attestation && not receipt))
valid_state request_id_conflict attempted ack attestation receipt =
    not attempted && (not ack && (not attestation && not receipt))

-- `_validate_result`, on a result that has its fields: whether it returns.
unfoldable pub valid_result : ErasureResult → Bool
valid_result r =
    not (str_eq r.reason "")
    && valid_state r.state r.attempted (is_there r.acknowledgement) (is_there r.attestation)
        (is_there r.receipt)

-- result["state"] == state and result["journal_state"] == state
abbrev pub agrees : End → ErasureResult → Bool
agrees e r =
    str_eq (state_text r.state) (end_text e) && str_eq (standing_text r.journal_state) (end_text e)

abbrev pub valid_outcome : RowState → Option ErasureResult → Bool
valid_outcome deletion_intent none = true
valid_outcome deletion_intent (some r) = false
valid_outcome (ended e) none = false
valid_outcome (ended e) (some r) = valid_result r && agrees e r

module _ (lib : PilotLib) (pins : Pins) where
  -- `_historical_context`
  unfoldable pub historical_context : Json → Option Context
  historical_context task = do
    request ← get "request" task
    body ← get "body" request
    data_json ← get "data" body
    at ← text_at "requested_at" data_json
    validate_task lib task pins at

  -- `_validate_row`: whether it returns.
  unfoldable pub valid_row : Row → Bool
  valid_row r = elim (historical_context r.snapshot) [
    | none ↦ false
    | some context ↦
        str_eq r.request_id context.request_id
        && (str_eq r.fingerprint context.task_sha256 && valid_outcome r.state r.result)
  ]

  -- `_decode_row`, where `none` raises
  abbrev pub decode_row : Option Row → Option (Option Row)
  decode_row none = some none
  decode_row (some r) = check (valid_row r) >> some (some r)

  abbrev pub reread : String → List Row → Option Row
  reread q rows = elim (find_row q rows) [
    | none ↦ none
    | some r ↦ if valid_row r then some r else none
  ]

  -- `get`
  unfoldable pub get_row : Bool → String → List Row → Option (Option Row)
  get_row opens q rows = check (identifier q && opens) >> decode_row (find_row q rows)

  abbrev pub intent_row : String → String → Json → Row
  intent_row q fingerprint task = record {
    request_id = q;
    fingerprint = fingerprint;
    state = deletion_intent;
    snapshot = task;
    result = none;
  }

  -- The transaction of `_claim`: the acknowledged row, and the rows that are committed.
  abbrev pub claim_row :
      Commit
      → String
      → String
      → Json
      → List Row
      → Option Row
      → Option (Row × ClaimStatus) × List Row
  claim_row c q fingerprint task rows (some r) = (
    acknowledge c (
        if valid_row r
        then some (r, if str_eq r.fingerprint fingerprint then replay else conflict)
        else none),
    rows,
  )
  claim_row c q fingerprint task rows none =
      let new = rows ++ intent_row q fingerprint task ∷ [] in
      (
        acknowledge c (
            if valid_row (intent_row q fingerprint task)
            then some (intent_row q fingerprint task, claimed)
            else none),
        committed c rows new,
      )

  -- `_claim`
  unfoldable pub claim :
      Commit → String → String → Json → List Row → Option (Row × ClaimStatus) × List Row
  claim c q fingerprint task rows = elim (historical_context task) [
    | none ↦ (none, rows)
    | some context ↦
        if str_eq q context.request_id && str_eq fingerprint context.task_sha256
        then claim_row c q fingerprint task rows (find_row q rows)
        else (none, rows)
  ]

  -- `_finish`: the acknowledged row, and the rows that are committed.
  unfoldable pub finish : Commit → String → End → ErasureResult → List Row → Option Row × List Row
  finish c q state result rows =
      let after = committed c rows (set_result is_intent q (ended state) result rows) in
      if identifier q && (valid_result result && agrees state result)
      then elim (canonical lib (result_json result)) [
        | none ↦ (none, rows)
        | some raw ↦ elim (reread q rows) [
          | none ↦ (none, rows)
          | some r ↦
              if is_intent r.state then (acknowledge c (reread q after), after) else (none, rows)
        ]
      ]
      else (none, rows)

  -- `_current_state`
  unfoldable pub current_state : Bool → String → List Row → Standing
  current_state opens q rows = elim (get_row opens q rows) [
    | none ↦ unavailable
    | some found ↦ (elim found [ none ↦ not_claimed | some r ↦ row_is r.state ])
  ]

-- `_replay`
unfoldable pub replay_result : ErasureResult → Row → String → ErasureResult
replay_result result r fingerprint =
    if str_eq r.fingerprint fingerprint
    then record result {
      state = replay_no_action;
      journal_state = row_is r.state;
      reason = "REQUEST_ALREADY_CLAIMED_NO_EVIDENCE_REASSERTED";
    }
    else record result {
      state = request_id_conflict;
      journal_state = row_is r.state;
      reason = "REQUEST_ID_BINDS_DIFFERENT_TASK";
    }
