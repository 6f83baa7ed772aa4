-- ===== src/Collector/Adapter.antt =====
-- payment_collector.py: the class CollectedAdapter, a gate's submission with custody of the evidence.
-- Its two callbacks run where the adapter calls them: one before the POST of a new claim, one after a
-- receipt was stored. Their tables are in the database of the adapter's journal.
pub mod Recorded
pub mod Required
pub mod Posted
pub mod Recovery
use vap_spec.Base.{
  ℕ, Bool, true, false, not, ◌&&◌, ◌||◌, Option, none, some, String, List, [], ◌∷◌, ◌++◌, ◌==◌,
  str_eq, if◌then◌else◌,
}
use vap_spec.Runtime.Json.{Json, text, int, dict, end, field}
use vap_spec.Runtime.Outcome.{
  Exc, value_error, db_error, Result, ok, err, ◌>>=◌, ◌>>◌, require, or_raise,
}
use vap_spec.Runtime.Request.{Prepared, prepare}
use vap_spec.Runtime.Receipt.{bytes_digest, verify_receipt}
use vap_spec.Runtime.Rows.{find}
use vap_spec.Runtime.Journal.{
  Adapter, Dispatch, Journal, is_claimed, identity_of, claim, store_receipt,
}
use vap_spec.Runtime.Adapter.{Env, State, Report, rejection}
use vap_spec.Gate.Policy.{GateConfig}
use vap_spec.Gate.Evidence.{GivenEvidence, freeze_evidence}
use vap_spec.Gate.Admission.{
  Snapshots, Admission, not_committed, unavailable_admission, admission_callback,
  gate_submit_prepared,
}
use vap_spec.Collector.{
  CollectorLib, Kind, admission_record, provider_receipt, kind_text, Package, context_json,
  canonical_message, digest, validate_package, make_package,
}
use vap_spec.Collector.Client.{Client, Exchange, Observation, collect_and_check}

pub data Stage : Type 0 where
  pre_dispatch post_effect historical_recovery : Stage

abbrev pub stage_text : Stage → String
stage_text pre_dispatch = "PRE_DISPATCH"
stage_text post_effect = "POST_EFFECT"
stage_text historical_recovery = "HISTORICAL_RECOVERY"

abbrev pub is_pre_dispatch : Stage → Bool
is_pre_dispatch pre_dispatch = true
is_pre_dispatch post_effect = false
is_pre_dispatch historical_recovery = false

abbrev pub is_admission : Kind → Bool
is_admission admission_record = true
is_admission provider_receipt = false

-- A row of custody_observations.
pub record CustodyRow : Type 0 where
  pub observation_digest : String
  pub request_digest : String
  pub kind : Kind
  pub stage : Stage
  pub record_bytes : String

-- A row of custody_prerequisites.
pub record Prerequisite : Type 0 where
  pub request_digest : String
  pub observation_digest : String

-- The custody tables; `epoch` is the row of custody_metadata.
pub record CustodyTables : Type 0 where
  pub epoch : Option ℕ
  pub observations : List CustodyRow
  pub prerequisites : List Prerequisite

abbrev pub has_observation : String → List CustodyRow → Bool
has_observation d [] = false
has_observation d (r ∷ rows) = str_eq r.observation_digest d || has_observation d rows

abbrev pub has_prerequisite : String → List Prerequisite → Bool
has_prerequisite d [] = false
has_prerequisite d (r ∷ rows) = str_eq r.request_digest d || has_prerequisite d rows

-- INSERT INTO custody_observations, with PRIMARY KEY(observation_digest)
unfoldable pub insert_observation : CustodyRow → List CustodyRow → Result (List CustodyRow)
insert_observation r rows =
    if has_observation r.observation_digest rows then err db_error else ok (rows ++ r ∷ [])

-- INSERT INTO custody_prerequisites, with PRIMARY KEY(request_digest)
unfoldable pub insert_prerequisite : Prerequisite → List Prerequisite → Result (List Prerequisite)
insert_prerequisite r rows =
    if has_prerequisite r.request_digest rows then err db_error else ok (rows ++ r ∷ [])

abbrev pub is_epoch : ℕ → Option ℕ → Bool
is_epoch n none = false
is_epoch n (some e) = e == n

-- Whether custody of the stage may be recorded for the row that `_find` gave.
abbrev pub is_eligible : Stage → Option Dispatch → Bool
is_eligible stage none = false
is_eligible stage (some row) = not (is_pre_dispatch stage) || is_claimed row.state

-- What happens in one call of a callback.
pub record CallbackEnv : Type 0 where
  pub exchange : Exchange
  pub collection_hook_raises : Bool
  pub persist_fails : Bool
  pub now_ms : ℕ
  pub persisted_hook_raises : Bool

-- The prerequisite that a row of its stage brings.
unfoldable pub add_prerequisite :
    Stage → Package → String → List Prerequisite → Result (List Prerequisite)
add_prerequisite post_effect g d rows = ok rows
add_prerequisite historical_recovery g d rows = ok rows
add_prerequisite pre_dispatch g d rows = do
  require (is_admission g.kind) (value_error "pre_dispatch_admission_record_required")
  insert_prerequisite (record { request_digest = g.request_digest; observation_digest = d }) rows

module _ (lib : CollectorLib) (adapter : Adapter) (client : Client) where
  -- `_identity`
  abbrev pub identity_json : Json
  identity_json = dict (
      field "collector_id" (text client.trusted.collector_id) (
        field "context" (context_json client.context)
          (field "public_key" (text client.trusted.public_key) end)))

  -- The record of `_persist`.
  unfoldable pub observation_json : ℕ → Package → String → Observation → Stage → String → Json
  observation_json now_ms g packed o stage identity_digest = dict (
      field "ack_bytes" (text (lib.hex o.ack_bytes)) (
        field "collector_epoch" (int client.trusted.recovery_epoch) (
          field "collector_identity_digest" (text identity_digest) (
            field "kind" (text (kind_text g.kind)) (
              field "nonce" (text o.nonce) (
                field "package_bytes" (text (lib.hex packed)) (
                  field "readback_bytes" (text (lib.hex o.readback_bytes)) (
                    field "recorded_at_ms" (int now_ms) (
                      field "request_digest" (text g.request_digest) (
                        field "schema" (text "synthetic-payment-custody-observation-v0")
                          (field "stage" (text (stage_text stage)) end)))))))))))

  -- `_persist`: the tables that are committed, where it does not raise.
  unfoldable pub persist :
      CallbackEnv
      → Prepared
      → String
      → Observation
      → Stage
      → Journal
      → CustodyTables
      → Result CustodyTables
  persist env request packed o stage j t = do
    g ← or_raise (validate_package lib packed client.context) (value_error "package")
    identity_digest ← or_raise (digest lib identity_json) (value_error "identity")
    raw ←
        or_raise
          (canonical_message lib (observation_json env.now_ms g packed o stage identity_digest))
          (value_error "record")
    require (not env.persist_fails) db_error
    require (is_epoch client.trusted.recovery_epoch t.epoch)
        (value_error "stale_custody_writer_epoch")
    row ← find identity_of adapter.scope request.request request.raw j.dispatches
    require (is_eligible stage row) (value_error "original_claim_not_eligible_for_custody")
    observations ←
        insert_observation
          (record {
            observation_digest = bytes_digest lib.platform raw;
            request_digest = g.request_digest;
            kind = g.kind;
            stage = stage;
            record_bytes = raw;
          })
          t.observations
    prerequisites ← add_prerequisite stage g (bytes_digest lib.platform raw) t.prerequisites
    ok (record t { observations = observations; prerequisites = prerequisites })

  abbrev pub after_persist : Bool → CustodyTables → Result CustodyTables → Bool × CustodyTables
  after_persist hook_raises t (ok t') = (hook_raises, t')
  after_persist hook_raises t (err e) = (true, t)

  -- `_collect_and_persist`: whether it raises, and the tables.
  unfoldable pub collect_and_persist :
      CallbackEnv → Prepared → String → Stage → Journal → CustodyTables → Bool × CustodyTables
  collect_and_persist env request packed stage j t =
      elim (collect_and_check lib client env.exchange packed) [
        | none ↦ (true, t)
        | some o ↦
            if env.collection_hook_raises
            then (true, t)
            else after_persist (is_pre_dispatch stage && env.persisted_hook_raises) t
                (persist env request packed o stage j t)
      ]

  -- A callback: the package of the evidence is made, collected and recorded.
  unfoldable pub keep_evidence :
      CallbackEnv
      → Prepared
      → Kind
      → Stage
      → Option String
      → Journal
      → CustodyTables
      → Bool × CustodyTables
  keep_evidence env request kind stage none j t = (true, t)
  keep_evidence env request kind stage (some evidence) j t =
      elim (make_package lib request.snapshot kind evidence) [
        | none ↦ (true, t)
        | some packed ↦ collect_and_persist env request packed stage j t
      ]

  -- Where the adapter calls `before`: the hook after the claim has returned, for a claim that is new.
  -- `proof` is the record that read_authorization finds.
  unfoldable pub before :
      Env
      → CallbackEnv
      → Option String
      → Prepared
      → Result (Dispatch × Bool) × Journal
      → CustodyTables
      → Bool × CustodyTables
  before env call proof request (ok (row, true), j) t =
      if env.claim_hook_raises
      then (false, t)
      else keep_evidence call request admission_record pre_dispatch proof j t
  before env call proof request (ok (row, false), j) t = (false, t)
  before env call proof request (err e, j) t = (false, t)

  -- Where the adapter calls `after`: the receipt of the answer is verified and stored.
  abbrev pub after_stored :
      CallbackEnv
      → Prepared
      → String
      → Result Dispatch × Journal
      → CustodyTables
      → Bool × CustodyTables
  after_stored call request receipt (ok row, j) t =
      keep_evidence call request provider_receipt post_effect (some receipt) j t
  after_stored call request receipt (err e, j) t = (false, t)

  unfoldable pub after :
      Env
      → CallbackEnv
      → Prepared
      → Option (ℕ × String)
      → Journal
      → CustodyTables
      → Bool × CustodyTables
  after env call request none j t = (false, t)
  after env call request (some (status, receipt)) j t =
      if not (status == 200)
      then (false, t)
      else elim (verify_receipt lib.platform receipt request.raw adapter.provider_public_key
          adapter.provider_id) [
            | none ↦ (false, t)
            | some v ↦
                if env.response_hook_raises
                then (false, t)
                else after_stored call request receipt
                    (store_receipt lib.platform adapter env.store_fails env.observed_at_ms request
                      receipt j)
                    t
          ]

  abbrev pub after_sent :
      Env
      → CallbackEnv
      → Prepared
      → Bool
      → Result (Dispatch × Bool) × Journal
      → CustodyTables
      → Bool × CustodyTables
  after_sent env call request stopped (ok (row, true), j) t =
      if env.claim_hook_raises || stopped
      then (false, t)
      else after env call request env.response j t
  after_sent env call request stopped (ok (row, false), j) t = (false, t)
  after_sent env call request stopped (err e, j) t = (false, t)

  module _ (config : GateConfig) (snapshots : Snapshots) where
    -- `submit` of a request that is prepared. What the two callbacks raise is what the adapter's call
    -- is told of them.
    unfoldable pub collected_submit_prepared :
        Env
        → (first second : CallbackEnv) → (proof : Option String) → (hook_raises : Bool) → Prepared
        → GivenEvidence
        → State × CustodyTables
        → Result (Report × Admission) × (State × CustodyTables)
    collected_submit_prepared env first second proof hook_raises request evidence (s, t) =
        let (e, problems) = freeze_evidence evidence in
        let claimed =
          claim lib.platform adapter env.claim_fails
            (some (admission_callback lib.platform lib.hex config snapshots hook_raises e problems))
            env.claimed_at_ms request s.journal in
        let (stopped, t1) = before env first proof request claimed t in
        let (failed, t2) = after_sent env second request stopped claimed t1 in
        let (result, s') =
          gate_submit_prepared lib.platform lib.hex config snapshots adapter
            (record env { before_dispatch_raises = stopped; custody_raises = failed }) hook_raises
            request evidence s in
        (result, (s', t2))

    -- `submit`; the custody that it reads back and attaches is not part of the answer here.
    unfoldable pub collected_submit :
        Env
        → (first second : CallbackEnv) → (proof : Option String) → (hook_raises : Bool) → Json
        → GivenEvidence
        → State × CustodyTables
        → Result (Report × Admission) × (State × CustodyTables)
    collected_submit env first second proof hook_raises request evidence (s, t) =
        elim (prepare lib.platform.json adapter.context request) [
          | none ↦ (
            ok (
              rejection lib.platform adapter,
              not_committed (unavailable_admission none "native_request_unusable"),
            ),
            (s, t),
          )
          | some r ↦ collected_submit_prepared env first second proof hook_raises r evidence (s, t)
        ]
