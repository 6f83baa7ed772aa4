-- ===== src/RecordGate/Dispatch/Reconciled.antt =====
-- gate.py: what `reconcile` reports.
use vap_spec.Base.{
  ◌≡◌, refl, true, false, ◌&&◌, Option, none, some, String, inl, inr, Bool-cases, Option-cases,
  arith,
}
use vap_spec.Runtime.Json.{Json, text, end, field}
use vap_spec.Runtime.Request.{check}
use vap_spec.RecordGate.Envelope.{Jcs, get, text_at, has_text, digest, verified_body, intent}
use vap_spec.RecordGate.Audit.{outcome, get_state, is_prepared, is_success}
use vap_spec.RecordGate.Audit.Once.{bind-eq_some}
use vap_spec.RecordGate.Dispatch.{
  GateKeys, Answers, unresolved, confirmed, not_dispatched, DispatchReport, Acked, receipt_check,
  accepted_ack, control_envelope, audit_call, looked_up, after_lookup, after_get, reconcile,
}
use vap_spec.RecordGate.Dispatch.Backed.{IsBacked, accepted_ack-receipt, audit_call-ack, unsent}

module _ (lib : Jcs) (config : GateKeys) (oid od : String) where
  after_lookup-Receipted :
      (env : Answers) (op : Json) (r : Option (Option Json))
      → ((receipt : Json)
          → r ≡ some (some receipt)
          → receipt_check lib config oid od receipt ≡ true)
      → IsBacked lib config oid od (after_lookup lib config env op oid od r)
  after_lookup-Receipted env op none h =
      unsent lib config oid od unresolved "reconciliation_unavailable_or_invalid" (λ k. absurd cc)
  after_lookup-Receipted env op (some none) h =
      unsent lib config oid od unresolved "no_receipt_found_not_proof_of_nonexecution"
        (λ k. absurd cc)
  after_lookup-Receipted env op (some (some receipt)) h =
      elim (Option-cases (
        audit_call lib config outcome true op oid od
          (field "receipt" receipt (field "state" (text "confirmed_success") end))
          env.outcome_answer)) [
            | inl fails ↦
                rw (fails, after_lookup)
                  (unsent lib config oid od unresolved "reconciliation_unavailable_or_invalid"
                    (λ k. absurd cc))
            | inr (acked, works) ↦
                rw (works, after_lookup)
                  (unsent lib config oid od confirmed "reconciled_by_read_only_lookup"
                    (λ k. record { receipt = receipt; checked = h receipt refl }))
          ]

  looked_up-checked :
      (op : Json) (answer : Option Json) (receipt : Json)
      → looked_up lib config op oid od answer ≡ some (some receipt)
      → receipt_check lib config oid od receipt ≡ true
  unfolding looked_up
  looked_up-checked op answer receipt h =
      let (request, e0, h0) =
        bind-eq_some (control_envelope lib config "lookup" (field "intent" op end)) _ (some receipt)
          h in
      let (envelope, e1, h1) = bind-eq_some answer _ (some receipt) h0 in
      let (lookup, e2, h2) =
        bind-eq_some (verified_body lib envelope config.backend_public "lookup" "backend" false) _
          (some receipt) h1 in
      let (u, e3, h3) =
        bind-eq_some
          (check (has_text "operation_id" oid lookup && has_text "operation_digest" od lookup)) _
          (some receipt) h2 in
      let (found, e4, h4) = bind-eq_some (get "receipt" lookup) _ (some receipt) h3 in ground arith

  after_get-IsBacked :
      (env : Answers) (op : Json) (r : Option (Json × Acked))
      → ((envelope : Json) (acked : Acked)
          → r ≡ some (envelope, acked)
          → accepted_ack lib config get_state false oid od envelope ≡ some acked)
      → IsBacked lib config oid od (after_get lib config env op oid od r)
  after_get-IsBacked env op none h =
      unsent lib config oid od unresolved "reconciliation_unavailable_or_invalid" (λ k. absurd cc)
  after_get-IsBacked env op (some (envelope, ack)) h = elim (Bool-cases (is_success ack.state)) [
    | inl good ↦ rw good (
        unsent lib config oid od confirmed "previously_confirmed_no_lookup" (λ k.
          accepted_ack-receipt lib config oid od get_state false envelope ack (h envelope ack refl)
            good))
    | inr bad ↦ elim (Bool-cases (is_prepared ack.state)) [
      | inl still ↦
          rw (bad, still)
            (unsent lib config oid od not_dispatched "no_durable_dispatch_intent" (λ k. absurd cc))
      | inr no_longer ↦
          rw (bad, no_longer)
            (after_lookup-Receipted env op (looked_up lib config op oid od env.lookup_answer)
              (looked_up-checked op env.lookup_answer))
    ]
  ]

  lookup_quiet :
      (env : Answers) (op : Json) (r : Option (Option Json))
      → (after_lookup lib config env op oid od r).backend_attempted ≡ false
  lookup_quiet env op none = refl
  lookup_quiet env op (some none) = refl
  lookup_quiet env op (some (some receipt)) =
      elim (Option-cases (
        audit_call lib config outcome true op oid od
          (field "receipt" receipt (field "state" (text "confirmed_success") end))
          env.outcome_answer)) [
            | inl fails ↦ rw (fails, after_lookup) refl
            | inr (acked, works) ↦ rw (works, after_lookup) refl
          ]

  after_get-quiet :
      (env : Answers) (op : Json) (r : Option (Json × Acked))
      → (after_get lib config env op oid od r).backend_attempted ≡ false
  after_get-quiet env op none = refl
  after_get-quiet env op (some (envelope, ack)) = elim (Bool-cases (is_success ack.state)) [
    | inl good ↦ rw good refl
    | inr bad ↦ elim (Bool-cases (is_prepared ack.state)) [
      | inl still ↦ rw (bad, still) refl
      | inr no_longer ↦
          rw (bad, no_longer)
            (lookup_quiet env op (looked_up lib config op oid od env.lookup_answer))
    ]
  ]

-- A reconciliation confirms an operation only over a receipt of its id and digest that the backend
-- signed, and sends no write.
pub reconcile-IsBacked :
    (lib : Jcs) (config : GateKeys) (env : Answers) (given op : Json) (oid od : String)
    (r : DispatchReport)
    → intent lib given ≡ some op
    → text_at "operation_id" op ≡ some oid
    → digest lib op ≡ some od
    → reconcile lib config env given ≡ some r
    → IsBacked lib config oid od r × (r.sent ≡ none)
unfolding reconcile
reconcile-IsBacked lib config env given op oid od r e0 e1 e2 h =
    let got = audit_call lib config get_state false op oid od end env.get_answer in
    let e : reconcile lib config env given ≡ some (after_get lib config env op oid od got) =
      rw (e0, reconcile) (rw e1 (rw e2 refl)) in
    let same : r ≡ after_get lib config env op oid od got = cc in
    let backed : IsBacked lib config oid od (after_get lib config env op oid od got) =
      after_get-IsBacked lib config oid od env op got (λ envelope acked k.
        audit_call-ack lib config oid od get_state false op end env.get_answer envelope acked k) in
    rw same (backed, backed.quiet (after_get-quiet lib config oid od env op got))
