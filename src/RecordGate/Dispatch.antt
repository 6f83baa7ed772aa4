-- ===== src/RecordGate/Dispatch.antt =====
-- gate.py: one dispatch attempt after a durable record, and recovery by lookups. The answers of the
-- two services to each call are the environment; `none` is a call that raises.
pub mod Backed
pub mod Executed
pub mod Reconciled
use vap_spec.Base.{
  ℕ, Bool, true, false, not, ◌&&◌, ◌||◌, Option, none, some, String, List, [], ◌∷◌, str_eq,
  if◌then◌else◌,
}
use vap_spec.Runtime.Json.{Json, null, bool, text, dict, Fields, end, field}
use vap_spec.Runtime.Request.{◌>>=◌, ◌>>◌, check}
use vap_spec.RecordGate.Envelope.{
  Jcs, get, text_at, has_text, has_true, digest, has_digest, decode, sign, verified_body, intent,
}
use vap_spec.RecordGate.Authority.{authorize}
use vap_spec.RecordGate.Audit.{
  OperationState, prepared, dispatch_intent, result_unknown, confirmed_success, Action, prepare,
  claim, outcome, get_state, action_name, is_prepared, is_success,
}

pub record GateKeys : Type 0 where
  pub secret : String
  pub audit_public : String
  pub backend_public : String
  pub authority_public : String
  pub evaluation_time : ℕ

-- What a call meets: the revocation status at the two checks, and the answers in their order.
pub record Answers : Type 0 where
  pub revocations : Json
  pub refreshed_revocations : Json
  pub prepare_answer : Option Json
  pub claim_answer : Option Json
  pub write_answer : Option Json
  pub outcome_answer : Option Json
  pub unknown_answer : Option Json
  pub get_answer : Option Json
  pub lookup_answer : Option Json

pub data DispatchState : Type 0 where
  denied blocked unresolved confirmed not_dispatched : DispatchState

-- `raised` is the text of an exception.
pub data Why : Type 0 where
  raised : Why
  because : String → Why

-- A report, with the write that was sent to the simulated API.
pub record DispatchReport : Type 0 where
  pub state : DispatchState
  pub reason : Why
  pub backend_attempted : Bool
  pub unknown_persisted : Bool
  pub sent : Option Json

-- The fields of an acknowledgment that are used.
pub record Acked : Type 0 where
  pub state : OperationState
  pub claimed : Bool

abbrev pub state_of : String → Option OperationState
state_of s =
    if str_eq s "prepared"
    then some prepared
    else if str_eq s "dispatch_intent"
    then some dispatch_intent
    else if str_eq s "result_unknown"
    then some result_unknown
    else if str_eq s "confirmed_success"
    then some confirmed_success
    else none

abbrev pub as_bool : Json → Option Bool
as_bool (bool b) = some b
as_bool _ = none

abbrev pub is_null : Json → Bool
is_null null = true
is_null _ = false

abbrev pub is_intent : OperationState → Bool
is_intent dispatch_intent = true
is_intent prepared = false
is_intent result_unknown = false
is_intent confirmed_success = false

abbrev pub is_unknown : OperationState → Bool
is_unknown result_unknown = true
is_unknown prepared = false
is_unknown dispatch_intent = false
is_unknown confirmed_success = false

-- What an acknowledgment of an action has to say; `confirms` is fields['state'] == 'confirmed_success'.
unfoldable pub is_acceptable : Action → Bool → Acked → Bool
is_acceptable claim confirms a = not (is_prepared a.state) && (not a.claimed || is_intent a.state)
is_acceptable outcome confirms a =
    not a.claimed
    && (if confirms then is_success a.state else is_unknown a.state || is_success a.state)
is_acceptable _ confirms a = not a.claimed

abbrev pub report : DispatchState → String → DispatchReport
report state reason = record {
  state = state;
  reason = because reason;
  backend_attempted = false;
  unknown_persisted = false;
  sent = none;
}

module _ (lib : Jcs) (config : GateKeys) where
  abbrev pub receipt_body : Json → Option Json
  receipt_body receipt =
      verified_body lib receipt config.backend_public "backend_receipt" "backend" false

  abbrev pub binds : String → String → Json → Bool
  binds oid od body =
      has_text "operation_id" oid body
      && (has_text "operation_digest" od body && has_true "committed" body)

  -- `receipt_check`
  unfoldable pub receipt_check : String → String → Json → Bool
  receipt_check oid od receipt = elim (receipt_body receipt) [
    | none ↦ false
    | some body ↦ binds oid od body
  ]

  -- `audit_call`, from the answer of the service
  unfoldable pub accepted_ack : Action → Bool → String → String → Json → Option Acked
  accepted_ack action confirms oid od answer = do
    ack ← verified_body lib answer config.audit_public "audit_ack" "audit" false
    check (
        has_text "action" (action_name action) ack
        && (has_text "operation_id" oid ack && has_text "operation_digest" od ack))
    state_text ← text_at "state" ack
    state ← state_of state_text
    flag ← get "claimed" ack
    claimed ← as_bool flag
    receipt ← get "receipt" ack
    check (if is_success state then receipt_check oid od receipt else is_null receipt)
    let acked : Acked = record { state = state; claimed = claimed }
    check (is_acceptable action confirms acked)
    some acked

  -- `control`: what is sent to the two services.
  unfoldable pub control_envelope : String → Fields → Option Json
  control_envelope action fields =
      sign lib (dict (field "action" (text action) (field "kind" (text "control") fields)))
        config.secret "gate" false

  unfoldable pub audit_call :
      Action → Bool → Json → String → String → Fields → Option Json → Option (Json × Acked)
  audit_call action confirms op oid od fields answer = do
    request ← control_envelope (action_name action) (field "intent" op fields)
    envelope ← answer
    ack ← accepted_ack action confirms oid od envelope
    some (envelope, ack)

  -- `unresolved`, after the write was sent
  unfoldable pub leave_unresolved :
      Answers → Json → String → String → String → Json → DispatchReport
  leave_unresolved env op oid od reason sent =
      elim (audit_call outcome false op oid od
        (field "reason" (text reason) (field "state" (text "result_unknown") end))
        env.unknown_answer) [
          | none ↦ record {
            state = unresolved;
            reason = because reason;
            backend_attempted = true;
            unknown_persisted = false;
            sent = some sent;
          }
          | some (envelope, ack) ↦
              if is_success ack.state
              then record {
                state = confirmed;
                reason = because "durable_result_already_confirmed";
                backend_attempted = true;
                unknown_persisted = false;
                sent = some sent;
              }
              else record {
                state = unresolved;
                reason = because reason;
                backend_attempted = true;
                unknown_persisted = true;
                sent = some sent;
              }
        ]

  -- The receipt of the write is recorded.
  unfoldable pub record_outcome : Answers → Json → String → String → Json → Json → DispatchReport
  record_outcome env op oid od sent receipt =
      elim (audit_call outcome true op oid od
        (field "receipt" receipt (field "state" (text "confirmed_success") end))
        env.outcome_answer) [
          | none ↦ leave_unresolved env op oid od "result_not_durably_recorded" sent
          | some (envelope, ack) ↦ record {
            state = confirmed;
            reason = because "signed_backend_receipt_durably_recorded";
            backend_attempted = true;
            unknown_persisted = false;
            sent = some sent;
          }
        ]

  -- An answer to the write that is a receipt of the operation.
  abbrev pub receipt_in : String → String → Option Json → Option Json
  receipt_in oid od none = none
  receipt_in oid od (some v) = if receipt_check oid od v then some v else none

  abbrev pub after_write : Answers → Json → String → String → Json → Option Json → DispatchReport
  after_write env op oid od sent none =
      leave_unresolved env op oid od "response_missing_or_invalid" sent
  after_write env op oid od sent (some receipt) = record_outcome env op oid od sent receipt

  -- A permit was granted: the write. An envelope that cannot be signed is not sent.
  unfoldable pub send : Answers → Json → String → String → Json → Json → DispatchReport
  send env op oid od actual permit =
      elim (control_envelope "write" (field "intent" actual (field "permit" permit end))) [
        | none ↦ record (leave_unresolved env op oid od "response_missing_or_invalid" null) {
          sent = none;
        }
        | some write ↦ after_write env op oid od write (receipt_in oid od env.write_answer)
      ]

  abbrev pub after_claim :
      Answers → Json → String → String → Json → Option (Json × Acked) → DispatchReport
  after_claim env op oid od actual none = report blocked "dispatch_record_not_acknowledged"
  after_claim env op oid od actual (some (permit, ack)) =
      if ack.claimed
      then send env op oid od actual permit
      else if is_success ack.state
      then report confirmed "concurrent_durable_confirmation"
      else report unresolved "dispatch_already_claimed"

  -- What is sent in place of the operation has to be the operation, and still be authorized.
  unfoldable pub final_intent : Answers → Json → String → Json → Option Json → Option Json
  final_intent env op od request candidate = do
    actual ← elim candidate [ none ↦ intent lib op | some other ↦ intent lib other ]
    check (has_digest lib od actual)
    (refreshed, identity) ←
        authorize lib config.authority_public config.evaluation_time env.refreshed_revocations
          request
    check (has_digest lib od refreshed)
    some actual

  abbrev pub denial : DispatchReport
  denial = record {
    state = denied;
    reason = raised;
    backend_attempted = false;
    unknown_persisted = false;
    sent = none;
  }

  abbrev pub with_intent : Answers → Json → String → String → Option Json → DispatchReport
  with_intent env op oid od none = denial
  with_intent env op oid od (some actual) =
      after_claim env op oid od actual (audit_call claim false op oid od end env.claim_answer)

  abbrev pub after_prepare :
      Answers → Json → String → String → Json → Option Json → Option (Json × Acked) → DispatchReport
  after_prepare env op oid od request candidate none = report blocked "pre_record_not_acknowledged"
  after_prepare env op oid od request candidate (some (envelope, ack)) =
      if is_success ack.state
      then report confirmed "previously_confirmed_no_resend"
      else if not (is_prepared ack.state)
      then report unresolved "prior_dispatch_requires_reconciliation"
      else with_intent env op oid od (final_intent env op od request candidate)

  -- The operation of a request that is authorized, its id, digest and identity, and the request.
  unfoldable pub authorized : Answers → Json → Option (Json × String × String × Json × Json)
  authorized env given = do
    raw ← lib.dumps given
    request ← decode lib raw
    (op, identity) ←
        authorize lib config.authority_public config.evaluation_time env.revocations request
    oid ← text_at "operation_id" op
    od ← digest lib op
    some (op, oid, od, identity, request)

  -- `execute`, without the faults that kill the process
  unfoldable pub execute : Answers → Json → Option Json → DispatchReport
  execute env given candidate = elim (authorized env given) [
    | none ↦ denial
    | some (op, oid, od, identity, request) ↦ after_prepare env op oid od request candidate (
        audit_call prepare false op oid od
          (field "authorization" identity (field "request" request end)) env.prepare_answer)
  ]

  -- The receipt that a lookup found, if it found one; the outer `none` is an exception.
  unfoldable pub looked_up : Json → String → String → Option Json → Option (Option Json)
  looked_up op oid od answer = do
    request ← control_envelope "lookup" (field "intent" op end)
    envelope ← answer
    lookup ← verified_body lib envelope config.backend_public "lookup" "backend" false
    check (has_text "operation_id" oid lookup && has_text "operation_digest" od lookup)
    receipt ← get "receipt" lookup
    if is_null receipt
        then some none
        else check (receipt_check oid od receipt) >> some (some receipt)

  abbrev pub unavailable : DispatchReport
  unavailable = report unresolved "reconciliation_unavailable_or_invalid"

  abbrev pub after_lookup : Answers → Json → String → String → Option (Option Json) → DispatchReport
  after_lookup env op oid od none = unavailable
  after_lookup env op oid od (some none) =
      report unresolved "no_receipt_found_not_proof_of_nonexecution"
  after_lookup env op oid od (some (some receipt)) =
      elim (audit_call outcome true op oid od
        (field "receipt" receipt (field "state" (text "confirmed_success") end))
        env.outcome_answer) [
          | none ↦ unavailable
          | some acked ↦ report confirmed "reconciled_by_read_only_lookup"
        ]

  abbrev pub after_get : Answers → Json → String → String → Option (Json × Acked) → DispatchReport
  after_get env op oid od none = unavailable
  after_get env op oid od (some (envelope, ack)) =
      if is_success ack.state
      then report confirmed "previously_confirmed_no_lookup"
      else if is_prepared ack.state
      then report not_dispatched "no_durable_dispatch_intent"
      else after_lookup env op oid od (looked_up op oid od env.lookup_answer)

  abbrev wanted : Json → Option (Json × String × String)
  wanted given = do
    op ← intent lib given
    oid ← text_at "operation_id" op
    od ← digest lib op
    some (op, oid, od)

  -- `reconcile`; it raises where the operation is not an intent.
  unfoldable pub reconcile : Answers → Json → Option DispatchReport
  reconcile env given = wanted given >>= λ (op, oid, od).
      some (after_get env op oid od (audit_call get_state false op oid od end env.get_answer))
