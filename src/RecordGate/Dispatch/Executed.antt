-- ===== src/RecordGate/Dispatch/Executed.antt =====
-- gate.py: what `execute` reports and sends.
use vap_spec.Base.{
  ◌≡◌, refl, sym, true, false, Option, none, some, String, inl, inr, Bool-cases, Option-cases,
  arith,
}
use vap_spec.Runtime.Json.{Json, null, text, end, field}
use vap_spec.Runtime.Request.{check}
use vap_spec.RecordGate.Envelope.{Jcs, has_digest, intent}
use vap_spec.RecordGate.Authority.{authorize}
use vap_spec.RecordGate.Audit.{prepare, claim, outcome, is_prepared, is_success}
use vap_spec.RecordGate.Audit.Once.{bind-eq_some}
use vap_spec.RecordGate.Dispatch.{
  GateKeys, Answers, blocked, unresolved, confirmed, Acked, receipt_check, accepted_ack,
  control_envelope, audit_call, leave_unresolved, record_outcome, receipt_in, after_write, send,
  after_claim, final_intent, denial, with_intent, after_prepare, authorized, execute,
}
use vap_spec.RecordGate.Dispatch.Backed.{
  Permitted, Receipted, IsBacked, accepted_ack-receipt, audit_call-ack, unsent,
}

module _ (lib : Jcs) (config : GateKeys) (oid od : String) where
  -- An attempt whose report has nothing to show but the permit.
  leave_unresolved-IsBacked :
      (env : Answers) (op : Json) (reason : String) (sent : Json)
      → Permitted lib config oid od (some sent)
      → IsBacked lib config oid od (leave_unresolved lib config env op oid od reason sent)
  unfolding leave_unresolved
  leave_unresolved-IsBacked env op reason sent p =
      elim (Option-cases (
        audit_call lib config outcome false op oid od
          (field "reason" (text reason) (field "state" (text "result_unknown") end))
          env.unknown_answer)) [
            | inl fails ↦
                rw (fails, leave_unresolved)
                  (record { success = λ h. absurd cc; attempt = λ h. p; quiet = λ h. absurd cc })
            | inr ((envelope, ack), works) ↦ elim (Bool-cases (is_success ack.state)) [
              | inl good ↦
                  rw (works, good, leave_unresolved)
                    (record {
                      success = λ h.
                          accepted_ack-receipt lib config oid od outcome false envelope ack
                            (audit_call-ack lib config oid od outcome false op _ _ envelope ack
                              works)
                            good;
                      attempt = λ h. p;
                      quiet = λ h. absurd cc;
                    })
              | inr bad ↦
                  rw (works, bad, leave_unresolved)
                    (record { success = λ h. absurd cc; attempt = λ h. p; quiet = λ h. absurd cc })
            ]
          ]

  receipt_in-checked :
      (answer : Option Json) (receipt : Json)
      → receipt_in lib config oid od answer ≡ some receipt
      → receipt_check lib config oid od receipt ≡ true
  receipt_in-checked none receipt h = absurd cc
  receipt_in-checked (some v) receipt h = ground arith

  after_write-IsBacked :
      (env : Answers) (op : Json) (sent : Json) (answer : Option Json)
      → (r : Option Json) → receipt_in lib config oid od answer ≡ r
      → Permitted lib config oid od (some sent)
      → IsBacked lib config oid od (after_write lib config env op oid od sent r)
  unfolding record_outcome
  after_write-IsBacked env op sent answer none e p =
      leave_unresolved-IsBacked env op "response_missing_or_invalid" sent p
  after_write-IsBacked env op sent answer (some receipt) e p =
      elim (Option-cases (
        audit_call lib config outcome true op oid od
          (field "receipt" receipt (field "state" (text "confirmed_success") end))
          env.outcome_answer)) [
            | inl fails ↦
                rw (fails, record_outcome)
                  (leave_unresolved-IsBacked env op "result_not_durably_recorded" sent p)
            | inr (acked, works) ↦
                rw (works, record_outcome)
                  (record {
                    success = λ h. record {
                      receipt = receipt;
                      checked = receipt_in-checked answer receipt e;
                    };
                    attempt = λ h. p;
                    quiet = λ h. absurd cc;
                  })
          ]

  leave_unresolved-success :
      (env : Answers) (op : Json) (reason : String) (sent : Json)
      → ((leave_unresolved lib config env op oid od reason sent).state ≡ confirmed
          → Receipted lib config oid od)
        × ((leave_unresolved lib config env op oid od reason sent).backend_attempted ≡ true)
  unfolding leave_unresolved
  leave_unresolved-success env op reason sent =
      elim (Option-cases (
        audit_call lib config outcome false op oid od
          (field "reason" (text reason) (field "state" (text "result_unknown") end))
          env.unknown_answer)) [
            | inl fails ↦ rw (fails, leave_unresolved) (λ h. absurd cc, refl)
            | inr ((envelope, ack), works) ↦ elim (Bool-cases (is_success ack.state)) [
              | inl good ↦
                  rw (works, good, leave_unresolved)
                    (
                      λ h.
                          accepted_ack-receipt lib config oid od outcome false envelope ack
                            (audit_call-ack lib config oid od outcome false op _ _ envelope ack
                              works)
                            good,
                      refl,
                    )
              | inr bad ↦ rw (works, bad, leave_unresolved) (λ h. absurd cc, refl)
            ]
          ]

  send-IsBacked :
      (env : Answers) (op actual permit : Json) (acked : Acked)
      → accepted_ack lib config claim false oid od permit ≡ some acked
      → acked.claimed ≡ true
      → has_digest lib od actual ≡ true
      → IsBacked lib config oid od (send lib config env op oid od actual permit)
  unfolding send
  send-IsBacked env op actual permit acked accepted claimed same =
      elim (Option-cases
        (control_envelope lib config "write" (field "intent" actual (field "permit" permit end)))) [
          | inl fails ↦
              let (success, attempted) =
                leave_unresolved-success env op "response_missing_or_invalid" null in
              rw (fails, send)
                (record {
                  success = success;
                  attempt = λ h. record {
                    permit = permit;
                    acked = acked;
                    accepted = accepted;
                    claimed = claimed;
                    actual = actual;
                    same_digest = same;
                    envelope = sym fails;
                  };
                  quiet = λ h. refl;
                })
          | inr (write, works) ↦
              rw (works, send)
                (after_write-IsBacked env op write env.write_answer
                  (receipt_in lib config oid od env.write_answer) refl
                  (record {
                    permit = permit;
                    acked = acked;
                    accepted = accepted;
                    claimed = claimed;
                    actual = actual;
                    same_digest = same;
                    envelope = sym works;
                  }))
        ]

  after_claim-IsBacked :
      (env : Answers) (op actual : Json) (r : Option (Json × Acked))
      → ((permit : Json) (acked : Acked)
          → r ≡ some (permit, acked)
          → accepted_ack lib config claim false oid od permit ≡ some acked)
      → has_digest lib od actual ≡ true
      → IsBacked lib config oid od (after_claim lib config env op oid od actual r)
  after_claim-IsBacked env op actual none h same =
      unsent lib config oid od blocked "dispatch_record_not_acknowledged" (λ k. absurd cc)
  after_claim-IsBacked env op actual (some (permit, ack)) h same =
      let accepted = h permit ack refl in
      elim (Bool-cases ack.claimed) [
        | inl granted ↦ rw granted (send-IsBacked env op actual permit ack accepted granted same)
        | inr withheld ↦ elim (Bool-cases (is_success ack.state)) [
          | inl good ↦
              rw (withheld, good)
                (unsent lib config oid od confirmed "concurrent_durable_confirmation" (λ k.
                  accepted_ack-receipt lib config oid od claim false permit ack accepted good))
          | inr bad ↦
              rw (withheld, bad)
                (unsent lib config oid od unresolved "dispatch_already_claimed" (λ k. absurd cc))
        ]
      ]

  denial-IsBacked : IsBacked lib config oid od (denial lib config)
  denial-IsBacked = record { success = λ h. absurd cc; attempt = λ h. absurd cc; quiet = λ h. refl }

  final_intent-same :
      (env : Answers) (op request : Json) (candidate : Option Json) (actual : Json)
      → final_intent lib config env op od request candidate ≡ some actual
      → has_digest lib od actual ≡ true
  unfolding final_intent
  final_intent-same env op request candidate actual h =
      let (a, e0, h0) =
        bind-eq_some (elim candidate [ none ↦ intent lib op | some other ↦ intent lib other ]) _
          actual h in
      let (u, e1, h1) = bind-eq_some (check (has_digest lib od a)) _ actual h0 in
      let ((refreshed, identity), e2, h2) =
        bind-eq_some
          (authorize lib config.authority_public config.evaluation_time env.refreshed_revocations
            request)
          _ actual h1 in
      ground arith

  with_intent-IsBacked :
      (env : Answers) (op : Json) (r : Option Json)
      → ((actual : Json) → r ≡ some actual → has_digest lib od actual ≡ true)
      → IsBacked lib config oid od (with_intent lib config env op oid od r)
  with_intent-IsBacked env op none h = denial-IsBacked
  with_intent-IsBacked env op (some actual) h =
      after_claim-IsBacked env op actual
        (audit_call lib config claim false op oid od end env.claim_answer)
        (λ permit acked e.
          audit_call-ack lib config oid od claim false op end env.claim_answer permit acked e)
        (h actual refl)

  after_prepare-IsBacked :
      (env : Answers) (op request : Json) (candidate : Option Json) (r : Option (Json × Acked))
      → ((envelope : Json) (acked : Acked)
          → r ≡ some (envelope, acked)
          → accepted_ack lib config prepare false oid od envelope ≡ some acked)
      → IsBacked lib config oid od (after_prepare lib config env op oid od request candidate r)
  after_prepare-IsBacked env op request candidate none h =
      unsent lib config oid od blocked "pre_record_not_acknowledged" (λ k. absurd cc)
  after_prepare-IsBacked env op request candidate (some (envelope, ack)) h =
      elim (Bool-cases (is_success ack.state)) [
        | inl good ↦ rw good (
            unsent lib config oid od confirmed "previously_confirmed_no_resend" (λ k.
              accepted_ack-receipt lib config oid od prepare false envelope ack
                (h envelope ack refl) good))
        | inr bad ↦ elim (Bool-cases (is_prepared ack.state)) [
          | inr no_longer ↦
              rw (bad, no_longer)
                (unsent lib config oid od unresolved "prior_dispatch_requires_reconciliation"
                  (λ k. absurd cc))
          | inl still ↦
              rw (bad, still)
                (with_intent-IsBacked env op (final_intent lib config env op od request candidate)
                  (final_intent-same env op request candidate))
        ]
      ]

-- A request that is authorized, with any answers of the two services, forged and lost ones included.
-- The report confirms the operation only over a receipt of its id and digest that the backend
-- signed. A write is attempted only under a claim that the audit service signed as granted for the
-- same id and digest, and what is sent is that permit with an intent of the same digest; otherwise
-- nothing is sent.
pub execute-IsBacked :
    (lib : Jcs) (config : GateKeys) (env : Answers) (given : Json) (candidate : Option Json)
    (op : Json) (oid od : String) (identity request : Json)
    → authorized lib config env given ≡ some (op, oid, od, identity, request)
    → IsBacked lib config oid od (execute lib config env given candidate)
unfolding execute
execute-IsBacked lib config env given candidate op oid od identity request works =
    rw (works, execute)
      (after_prepare-IsBacked lib config oid od env op request candidate _ (λ envelope acked e.
        audit_call-ack lib config oid od prepare false op _ env.prepare_answer envelope acked e))
