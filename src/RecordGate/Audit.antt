-- ===== src/RecordGate/Audit.antt =====
-- services.py: the audit service, which records operations, grants dispatches and stores outcomes.
pub mod Once
use Prim.Native.String.{◌++◌ as str_append}
use vap_spec.Base.{
  ℕ, Bool, true, false, not, ◌&&◌, ◌||◌, Option, none, some, String, List, [], ◌∷◌, ◌++◌, ◌==◌,
  str_eq, if◌then◌else◌,
}
use vap_spec.Runtime.Json.{Json, null, bool, text, list, dict, Items, nil, cons, Fields, end, field}
use vap_spec.Runtime.Request.{◌>>=◌, ◌>>◌, check}
use vap_spec.RecordGate.Envelope.{
  Jcs, get, text_at, has_text, has_true, digest, has_digest, sign, verified_body, intent,
}

pub data OperationState : Type 0 where
  prepared dispatch_intent result_unknown confirmed_success : OperationState

abbrev pub state_name : OperationState → String
state_name prepared = "prepared"
state_name dispatch_intent = "dispatch_intent"
state_name result_unknown = "result_unknown"
state_name confirmed_success = "confirmed_success"

-- A row of operations.
pub record Operation : Type 0 where
  pub id : String
  pub digest : String
  pub request : String
  pub state : OperationState
  pub receipt : Option String

pub record Event : Type 0 where
  pub event_id : String
  pub envelope : String

pub record AuditStore : Type 0 where
  pub operations : List Operation
  pub events : List Event

pub record ServiceConfig : Type 0 where
  pub secret : String
  pub evaluation_id : String
  pub policy_digest : String
  pub gate_public : String
  pub backend_public : String
  pub audit_public : String
  pub fail_action : Option String
  pub drop_ack : Option String
  pub drop_after_commit : Bool

pub data Action : Type 0 where
  prepare claim outcome get_state export_events : Action
  unsupported : String → Action

abbrev pub action_name : Action → String
action_name prepare = "prepare"
action_name claim = "claim"
action_name outcome = "outcome"
action_name get_state = "get"
action_name export_events = "export"
action_name (unsupported s) = s

-- What is acknowledged after the commit.
pub record Ack : Type 0 where
  pub operation_id : String
  pub operation_digest : String
  pub state : OperationState
  pub claimed : Bool
  pub receipt : Json

-- SELECT … FROM operations WHERE id=?
unfoldable pub find_operation : String → List Operation → Option Operation
find_operation oid [] = none
find_operation oid (r ∷ rows) = if str_eq r.id oid then some r else find_operation oid rows

-- UPDATE operations SET state=?, receipt=? WHERE id=?
unfoldable pub set_operation :
    String → OperationState → Option String → List Operation → List Operation
set_operation oid state receipt [] = []
set_operation oid state receipt (r ∷ rows) =
    let rest = set_operation oid state receipt rows in
    if str_eq r.id oid then record r { state = state; receipt = receipt } ∷ rest else r ∷ rest

abbrev pub has_event : String → List Event → Bool
has_event id [] = false
has_event id (e ∷ rest) = str_eq e.event_id id || has_event id rest

abbrev pub is_prepared : OperationState → Bool
is_prepared prepared = true
is_prepared dispatch_intent = false
is_prepared result_unknown = false
is_prepared confirmed_success = false

abbrev pub is_success : OperationState → Bool
is_success confirmed_success = true
is_success prepared = false
is_success dispatch_intent = false
is_success result_unknown = false

abbrev pub is_text_of : Option String → String → Bool
is_text_of none s = false
is_text_of (some t) s = str_eq t s

-- The answer of a handler: an HTTP 403, a closed connection, or a signed envelope.
pub data Reply : Type 0 where
  refused dropped : Reply
  answered : Json → Reply

abbrev pub reply_of : Option Json → Reply
reply_of none = refused
reply_of (some v) = answered v

module _ (lib : Jcs) (config : ServiceConfig) where
  -- `Service.event`, without its row
  unfoldable pub event_envelope : String → String → String → Fields → Option String
  event_envelope oid od suffix payload = do
    env ←
        sign lib
          (dict (
            field "evaluation_id" (text config.evaluation_id) (
              field "event_id" (text (str_append oid (str_append ":" suffix))) (
                field "event_type" (text suffix) (
                  field "kind" (text "event") (
                    field "payload" (dict (field "operation_digest" (text od) payload)) (
                      field "policy_digest" (text config.policy_digest)
                        (field "source_id" (text "gate-audit") end))))))))
          config.secret "audit" true
    lib.dumps env

  -- `Service.event`: the column event_id is UNIQUE.
  unfoldable pub add_event : String → String → String → Fields → List Event → Option (List Event)
  add_event oid od suffix payload events = do
    let event_id = str_append oid (str_append ":" suffix)
    raw ← event_envelope oid od suffix payload
    check (not (has_event event_id events))
    some (events ++ (record { event_id = event_id; envelope = raw }) ∷ [])

  -- `Service.control`
  unfoldable pub control : String → Json → Option Json
  control action envelope = do
    body ← verified_body lib envelope config.gate_public "control" "gate" false
    check (has_text "action" action body)
    some body

  unfoldable pub prepare_new :
      Json → String → String → Json → AuditStore → Option (Operation × AuditStore)
  prepare_new op oid od body s = do
    request ← get "request" body
    wanted ← get "intent" request
    check (has_digest lib od wanted)
    authorization ← get "authorization" body
    events ←
        add_event oid od "request"
          (field "authorization" authorization
            (field "intent" op (field "signed_request" request end)))
          s.events
    raw ← lib.dumps request
    let row : Operation = record {
      id = oid;
      digest = od;
      request = raw;
      state = prepared;
      receipt = none;
    }
    some (row, record { operations = s.operations ++ row ∷ []; events = events })

  abbrev pub is_prepare : Action → Bool
  is_prepare prepare = true
  is_prepare claim = false
  is_prepare outcome = false
  is_prepare get_state = false
  is_prepare export_events = false
  is_prepare (unsupported s) = false

  -- The row of the operation, written first where it is prepared.
  abbrev pub row_for :
      Action
      → Json
      → String
      → String
      → Json
      → Option Operation
      → AuditStore
      → Option (Operation × AuditStore)
  row_for action op oid od body (some row) s = check (str_eq row.digest od) >> some (row, s)
  row_for action op oid od body none s = check (is_prepare action) >> prepare_new op oid od body s

  -- json.loads of a stored receipt
  abbrev pub stored_receipt : Option String → Option Json
  stored_receipt none = some null
  stored_receipt (some raw) = lib.loads raw

  abbrev ack : Operation → OperationState → Bool → Json → Ack
  ack row state claimed receipt = record {
    operation_id = row.id;
    operation_digest = row.digest;
    state = state;
    claimed = claimed;
    receipt = receipt;
  }

  -- A confirmed outcome.
  unfoldable pub confirm : Operation → Json → Json → AuditStore → Option (Ack × AuditStore)
  confirm row body receipt s = do
    given ← get "receipt" body
    result ← verified_body lib given config.backend_public "backend_receipt" "backend" false
    check (
        has_text "operation_id" row.id result
        && (has_text "operation_digest" row.digest result && has_true "committed" result))
    if is_success row.state then some (ack row confirmed_success false receipt, s) else (do
      events ← add_event row.id row.digest "result" (field "receipt" given end) s.events
      raw ← lib.dumps given
      some (
        ack row confirmed_success false given,
        record {
          operations = set_operation row.id confirmed_success (some raw) s.operations;
          events = events;
        },
      ))

  -- An outcome that is not known.
  unfoldable pub leave_unknown : Operation → Json → Json → AuditStore → Option (Ack × AuditStore)
  leave_unknown row body receipt s = do
    check (has_text "state" "result_unknown" body)
    elim row.state [
      | dispatch_intent ↦ (do
        reason ← get "reason" body
        events ← add_event row.id row.digest "unknown" (field "reason" reason end) s.events
        some (
          ack row result_unknown false receipt,
          record {
            operations = set_operation row.id result_unknown row.receipt s.operations;
            events = events;
          },
        ))
      | prepared ↦ none
      | result_unknown ↦ some (ack row result_unknown false receipt, s)
      | confirmed_success ↦ some (ack row confirmed_success false receipt, s)
    ]

  unfoldable pub act :
      Action → Json → Json → Operation → Json → AuditStore → Option (Ack × AuditStore)
  act prepare op body row receipt s = do
    recorded ← lib.loads row.request
    request ← get "request" body
    d ← digest lib request
    check (has_digest lib d recorded)
    some (ack row row.state false receipt, s)
  act claim op body row receipt s =
      if is_prepared row.state
      then (do
        events ←
            add_event row.id row.digest "dispatch"
              (field "intent" op
                (field "meaning" (text "durable intent to dispatch; not proof of sending") end))
              s.events
        some (
          ack row dispatch_intent true receipt,
          record {
            operations = set_operation row.id dispatch_intent row.receipt s.operations;
            events = events;
          },
        ))
      else some (ack row row.state false receipt, s)
  act outcome op body row receipt s = do
    check (not (is_prepared row.state))
    if has_text "state" "confirmed_success" body
        then confirm row body receipt s
        else leave_unknown row body receipt s
  act get_state op body row receipt s = some (ack row row.state false receipt, s)
  act export_events op body row receipt s = none
  act (unsupported other) op body row receipt s = none

  -- The transaction of `Service.audit`, from the body of a control envelope.
  unfoldable pub audit_transaction : Action → Json → AuditStore → Option (Ack × AuditStore)
  audit_transaction action body s = do
    wanted ← get "intent" body
    op ← intent lib wanted
    oid ← text_at "operation_id" op
    od ← digest lib op
    (row, s') ← row_for action op oid od body (find_operation oid s.operations) s
    receipt ← stored_receipt row.receipt
    act action op body row receipt s'

  unfoldable pub ack_json : Action → Ack → Json
  ack_json action a = dict (
      field "action" (text (action_name action)) (
        field "claimed" (bool a.claimed) (
          field "kind" (text "audit_ack") (
            field "operation_digest" (text a.operation_digest) (
              field "operation_id" (text a.operation_id)
                (field "receipt" a.receipt (field "state" (text (state_name a.state)) end)))))))

  abbrev loaded : List Event → Option Items
  loaded [] = some nil
  loaded (e ∷ rest) = lib.loads e.envelope >>= λ v. loaded rest >>= λ more. some (cons v more)

  abbrev pub exported : AuditStore → Reply
  exported s = reply_of (
      loaded s.events >>= λ events.
      sign lib (dict (field "events" (list events) (field "kind" (text "audit_export") end)))
        config.secret "audit" false)

  abbrev pub committed : Action → AuditStore → Option (Ack × AuditStore) → Reply × AuditStore
  committed action s none = (refused, s)
  committed action s (some (a, s')) =
      if is_text_of config.drop_ack (action_name action)
      then (dropped, s')
      else (reply_of (sign lib (ack_json action a) config.secret "audit" false), s')

  abbrev pub audit_body : Action → Json → AuditStore → Reply × AuditStore
  audit_body export_events body s = (exported s, s)
  audit_body prepare body s = committed prepare s (audit_transaction prepare body s)
  audit_body claim body s = committed claim s (audit_transaction claim body s)
  audit_body outcome body s = committed outcome s (audit_transaction outcome body s)
  audit_body get_state body s = committed get_state s (audit_transaction get_state body s)
  audit_body (unsupported other) body s =
      committed (unsupported other) s (audit_transaction (unsupported other) body s)

  -- `Service.audit`
  unfoldable pub audit : Action → Json → AuditStore → Reply × AuditStore
  audit action envelope s = elim (control (action_name action) envelope) [
    | none ↦ (refused, s)
    | some body ↦
        if is_text_of config.fail_action (action_name action)
        then (refused, s)
        else audit_body action body s
  ]
