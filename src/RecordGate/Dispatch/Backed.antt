-- ===== src/RecordGate/Dispatch/Backed.antt =====
-- gate.py: what a report of the gate rests on.
use vap_spec.Base.{◌≡◌, refl, Bool, true, false, ◌&&◌, Option, none, some, String, arith}
use vap_spec.Runtime.Json.{Json, Fields, end, field}
use vap_spec.Runtime.Request.{check}
use vap_spec.RecordGate.Envelope.{Jcs, get, text_at, has_text, has_digest, verified_body}
use vap_spec.RecordGate.Audit.{Action, claim, action_name, is_success}
use vap_spec.RecordGate.Audit.Once.{bind-eq_some}
use vap_spec.RecordGate.Dispatch.{
  GateKeys, DispatchState, confirmed, DispatchReport, Acked, state_of, as_bool, report,
  receipt_check, accepted_ack, control_envelope, audit_call,
}

-- The answer to a claim that grants the dispatch, and the write that was sent under it.
pub record Permitted (lib : Jcs) (config : GateKeys) (oid od : String) (sent : Option Json)
    : Type 0 where
  pub permit : Json
  pub acked : Acked
  pub accepted : accepted_ack lib config claim false oid od permit ≡ some acked
  pub claimed : acked.claimed ≡ true
  pub actual : Json
  pub same_digest : has_digest lib od actual ≡ true
  pub envelope :
      sent ≡ control_envelope lib config "write" (field "intent" actual (field "permit" permit end))

-- A receipt of the operation that the backend signed.
pub record Receipted (lib : Jcs) (config : GateKeys) (oid od : String) : Type 0 where
  pub receipt : Json
  pub checked : receipt_check lib config oid od receipt ≡ true

pub record IsBacked (lib : Jcs) (config : GateKeys) (oid od : String) (r : DispatchReport)
    : Type 0 where
  pub success : r.state ≡ confirmed → Receipted lib config oid od
  pub attempt : r.backend_attempted ≡ true → Permitted lib config oid od r.sent
  pub quiet : r.backend_attempted ≡ false → r.sent ≡ none

module _ (lib : Jcs) (config : GateKeys) (oid od : String) where
  pub accepted_ack-receipt :
      (action : Action) (confirms : Bool) (answer : Json) (a : Acked)
      → accepted_ack lib config action confirms oid od answer ≡ some a
      → is_success a.state ≡ true
      → Receipted lib config oid od
  unfolding accepted_ack
  accepted_ack-receipt action confirms answer a h success =
      let (ack, e0, h0) =
        bind-eq_some (verified_body lib answer config.audit_public "audit_ack" "audit" false) _ a
          h in
      let (u, e1, h1) =
        bind-eq_some
          (check (
            has_text "action" (action_name action) ack
            && (has_text "operation_id" oid ack && has_text "operation_digest" od ack)))
          _ a h0 in
      let (state_text, e2, h2) = bind-eq_some (text_at "state" ack) _ a h1 in
      let (state, e3, h3) = bind-eq_some (state_of state_text) _ a h2 in
      let (flag, e4, h4) = bind-eq_some (get "claimed" ack) _ a h3 in
      let (claimed, e5, h5) = bind-eq_some (as_bool flag) _ a h4 in
      let (receipt, e6, h6) = bind-eq_some (get "receipt" ack) _ a h5 in
      record { receipt = receipt; checked = ground arith }

  pub audit_call-ack :
      (action : Action) (confirms : Bool) (op : Json) (fields : Fields) (answer : Option Json)
      (envelope : Json) (a : Acked)
      → audit_call lib config action confirms op oid od fields answer ≡ some (envelope, a)
      → accepted_ack lib config action confirms oid od envelope ≡ some a
  unfolding audit_call
  audit_call-ack action confirms op fields answer envelope a h =
      let (request, e0, h0) =
        bind-eq_some (control_envelope lib config (action_name action) (field "intent" op fields)) _
          (envelope, a) h in
      let (given, e1, h1) = bind-eq_some answer _ (envelope, a) h0 in
      let (ack, e2, h2) =
        bind-eq_some (accepted_ack lib config action confirms oid od given) _ (envelope, a) h1 in
      ground arith

  pub unsent :
      (state : DispatchState) (reason : String)
      → (state ≡ confirmed → Receipted lib config oid od)
      → IsBacked lib config oid od (report state reason)
  unsent state reason success = record {
    success = success;
    attempt = λ h. absurd cc;
    quiet = λ h. refl;
  }
