-- ===== src/Publication.antt =====
-- experiments/incident-publication-pilot/publication_pilot/store.py: the journal of a publisher and
-- the rows it keeps.
pub mod Publish
pub mod Journal
pub mod Preserved
pub mod Once
pub mod Terminal
pub mod Confirmed
pub mod Visible
use Prim.Native.String.{◌++◌ as str_append}
use vap_spec.Base.{
  ℕ, Bool, true, false, not, ◌&&◌, Option, none, some, String, List, [], ◌∷◌, ◌++◌, leb, str_eq,
  if◌then◌else◌,
}
use vap_spec.Runtime.Json.{Json, null, bool, int, text, dict, end, field}
use vap_spec.Runtime.Request.{◌>>=◌, ◌>>◌, check}
use vap_spec.Pilot.Journal.{
  Commit, commits, fails, unacknowledged, acknowledge, committed, ClaimStatus, claimed, replay,
  conflict, JournalRow, find_row, is_claimed, set_result,
}
use vap_spec.Pilot.{PilotLib, max_bytes, identifier, is_sha256, canonical, same_digest}

pub record Snapshot : Type 0 where
  pub request_id : String
  pub fingerprint : String
  pub artifact_sha256 : String
  pub disclosure_sha256 : String
  pub byte_length : ℕ
  pub destination_id : String
  pub visible_name : String

-- STATES
pub data RowState : Type 0 where
  publication_intent blocked_after_intent local_output_confirmed outcome_unknown : RowState

-- The `journal_state` of a result.
pub data Standing : Type 0 where
  not_claimed unavailable : Standing
  row_is : RowState → Standing

-- The `state` of a result: BLOCKED_WITHOUT_PUBLICATION, REPLAY_NO_PUBLICATION, REQUEST_ID_CONFLICT,
-- LOCAL_OUTPUT_CONFIRMED and OUTCOME_UNKNOWN.
pub data PublishState : Type 0 where
  blocked replayed conflicting confirmed unknown : PublishState

pub record PublishResult : Type 0 where
  pub state : PublishState
  pub attempted : Bool
  pub visible_name : String
  pub receipt : Option Json
  pub journal_state : Standing
  pub reason : String

-- A row of the journal.
abbrev pub Row : Type 0
Row = JournalRow Snapshot RowState PublishResult

abbrev pub snapshot_json : Snapshot → Json
snapshot_json s = dict (
    field "request_id" (text s.request_id) (
      field "fingerprint" (text s.fingerprint) (
        field "artifact_sha256" (text s.artifact_sha256) (
          field "disclosure_sha256" (text s.disclosure_sha256) (
            field "byte_length" (int s.byte_length) (
              field "destination_id" (text s.destination_id)
                (field "visible_name" (text s.visible_name) end)))))))

abbrev pub row_state_text : RowState → String
row_state_text publication_intent = "publication_intent"
row_state_text blocked_after_intent = "blocked_after_intent"
row_state_text local_output_confirmed = "local_output_confirmed"
row_state_text outcome_unknown = "outcome_unknown"

abbrev pub standing_text : Standing → String
standing_text not_claimed = "NOT_CLAIMED"
standing_text unavailable = "UNAVAILABLE"
standing_text (row_is s) = row_state_text s

abbrev pub state_text : PublishState → String
state_text blocked = "BLOCKED_WITHOUT_PUBLICATION"
state_text replayed = "REPLAY_NO_PUBLICATION"
state_text conflicting = "REQUEST_ID_CONFLICT"
state_text confirmed = "LOCAL_OUTPUT_CONFIRMED"
state_text unknown = "OUTCOME_UNKNOWN"

abbrev pub or_null : Option Json → Json
or_null none = null
or_null (some v) = v

abbrev pub result_json : PublishResult → Json
result_json r = dict (
    field "state" (text (state_text r.state)) (
      field "attempted" (bool r.attempted) (
        field "visible_name" (text r.visible_name) (
          field "receipt" (or_null r.receipt) (
            field "journal_state" (text (standing_text r.journal_state))
              (field "reason" (text r.reason) end))))))

abbrev pub is_intent : RowState → Bool
is_intent publication_intent = true
is_intent blocked_after_intent = false
is_intent local_output_confirmed = false
is_intent outcome_unknown = false

module _ (lib : PilotLib) where
  -- `_safe_name`
  unfoldable pub safe_name : String → String
  safe_name request_id = str_append (lib.sha256 request_id) ".html"

  -- `_validate_snapshot`: whether it returns.
  unfoldable pub valid_snapshot : Snapshot → Bool
  valid_snapshot s =
      identifier s.request_id
      && (identifier s.destination_id
          && (is_sha256 s.fingerprint
              && (is_sha256 s.artifact_sha256
                  && (is_sha256 s.disclosure_sha256
                      && (leb s.byte_length max_bytes
                          && str_eq s.visible_name (safe_name s.request_id))))))

  -- `_validate_row`: whether it returns.
  unfoldable pub valid_row : Row → Bool
  valid_row r =
      valid_snapshot r.snapshot
      && (str_eq r.request_id r.snapshot.request_id && str_eq r.fingerprint r.snapshot.fingerprint)

  -- `_decode_row`, where `none` raises
  abbrev pub decode_row : Option Row → Option (Option Row)
  decode_row none = some none
  decode_row (some r) = check (valid_row r) >> some (some r)

  -- `get`
  unfoldable pub get : Bool → String → List Row → Option (Option Row)
  get opens q rows = check (identifier q && opens) >> decode_row (find_row q rows)

  -- Whether a row is of an action: its fingerprint and the digest of its snapshot.
  abbrev pub matches : Row → Snapshot → Bool
  matches r s =
      str_eq r.fingerprint s.fingerprint
      && same_digest lib (snapshot_json r.snapshot) (snapshot_json s)

  abbrev pub intent_row : String → String → Snapshot → Row
  intent_row q fingerprint s = record {
    request_id = q;
    fingerprint = fingerprint;
    state = publication_intent;
    snapshot = s;
    result = none;
  }

  -- The transaction of `_claim`: the acknowledged row, and the rows that are committed.
  abbrev pub claim_row :
      Commit
      → String
      → String
      → Snapshot
      → List Row
      → Option Row
      → Option (Row × ClaimStatus) × List Row
  claim_row c q fingerprint s rows (some r) = (
    acknowledge c (
        if valid_row r
        then some (
          r,
          if str_eq r.fingerprint fingerprint
                && same_digest lib (snapshot_json r.snapshot) (snapshot_json s)
              then replay
              else conflict,
        )
        else none),
    rows,
  )
  claim_row fails q fingerprint s rows none = (none, rows)
  claim_row unacknowledged q fingerprint s rows none =
      (none, rows ++ intent_row q fingerprint s ∷ [])
  claim_row commits q fingerprint s rows none = (
    (if valid_row (intent_row q fingerprint s)
        then some (intent_row q fingerprint s, claimed)
        else none),
    rows ++ intent_row q fingerprint s ∷ [],
  )

  -- `_claim`
  unfoldable pub claim :
      Commit → String → String → Snapshot → List Row → Option (Row × ClaimStatus) × List Row
  claim c q fingerprint s rows =
      if identifier q
        && (is_sha256 fingerprint
            && (valid_snapshot s && (str_eq s.request_id q && str_eq s.fingerprint fingerprint)))
      then elim (canonical lib (snapshot_json s)) [
        | none ↦ (none, rows)
        | some raw ↦ claim_row c q fingerprint s rows (find_row q rows)
      ]
      else (none, rows)

  abbrev pub reread : String → List Row → Option Row
  reread q rows = elim (find_row q rows) [
    | none ↦ none
    | some r ↦ if valid_row r then some r else none
  ]

  -- `_finish`: the acknowledged row, and the rows that are committed.
  unfoldable pub finish :
      Commit → String → RowState → PublishResult → List Row → Option Row × List Row
  finish c q state result rows =
      let after = committed c rows (set_result is_intent q state result rows) in
      if identifier q && not (is_intent state)
      then elim (canonical lib (result_json result)) [
        | none ↦ (none, rows)
        | some raw ↦ elim (reread q rows) [
          | none ↦ (none, rows)
          | some r ↦
              if is_intent r.state then (acknowledge c (reread q after), after) else (none, rows)
        ]
      ]
      else (none, rows)

  -- `_current_state`
  unfoldable pub current_state : Bool → String → List Row → Standing
  unfolding get
  current_state opens q rows = elim (get opens q rows) [
    | none ↦ unavailable
    | some found ↦ (elim found [ none ↦ not_claimed | some r ↦ row_is r.state ])
  ]

  -- `_replay`
  unfoldable pub replay_result : PublishResult → Row → Snapshot → PublishResult
  replay_result result r s =
      if matches r s
      then record result {
        state = replayed;
        reason = "REQUEST_ALREADY_CLAIMED_NO_RECEIPT_REASSERTED";
        journal_state = row_is r.state;
        receipt = none;
      }
      else record result {
        state = conflicting;
        reason = "REQUEST_ID_BINDS_DIFFERENT_ACTION";
        journal_state = row_is r.state;
        receipt = none;
      }
