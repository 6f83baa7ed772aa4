-- ===== src/Gate/Admission/Posts.antt =====
-- authorization_gate.py: no POST without an admission.
use vap_spec.Base.{
  ℕ, ◌≡◌, refl, sym, ap, ◌∙◌, Bool, true, false, ◌||◌, some, String, List, [], ◌∷◌, ◌++◌, str_eq,
  ◌⊎◌, inl, inr, Bool-cases, Option-cases, arith,
}
use vap_spec.Runtime.Json.{canonical_json}
use vap_spec.Runtime.Outcome.{
  Verdict, authorized, Decision, value_error, db_error, blocked, fault, Result, ok, err,
}
use vap_spec.Runtime.Request.{Prepared, request_bytes}
use vap_spec.Runtime.Receipt.{Platform, bytes_digest}
use vap_spec.Runtime.Rows.{transaction}
use vap_spec.Runtime.Journal.{
  Adapter, Proof, Dispatch, Journal, Admit, claim, claim_body, claim_new, claim_found,
}
use vap_spec.Runtime.Adapter.{
  Env, State, Report, submit_prepared, after_claim, dispatch, provider_http, said,
}
use vap_spec.Runtime.Adapter.Changes.{Received, untouched, written, receive-Received}
use vap_spec.Gate.Policy.{GateConfig}
use vap_spec.Gate.Evidence.{
  EvidenceBytes, GivenEvidence, freeze_evidence, maker_approval, checker_approval,
}
use vap_spec.Gate.Assess.{assess, verified_approval, verified_status}
use vap_spec.Gate.Assess.Meaning.{Admissible, assess-Admissible}
use vap_spec.Gate.Admission.{
  Snapshots, has_proof, insert_proof, is_authorized, proof_json, add_proof, admission_callback,
  answer, gate_submit_prepared,
}

claim_new-admitted :
    (p : Platform) (adapter : Adapter) (admit : Admit) (at_ms : ℕ) (request : Prepared)
    (j j' : Journal) (row : Dispatch) (created : Bool)
    → claim_new p adapter (some admit) at_ms request j ≡ ok ((row, created), j')
    → admit request at_ms j.proofs ≡ ok j'.proofs
unfolding claim_new
claim_new-admitted p adapter admit at_ms request j j' row created h = ground arith

pub claim-admitted :
    (p : Platform) (adapter : Adapter) (db_fails : Bool) (admit : Admit) (at_ms : ℕ)
    (request : Prepared) (j j' : Journal) (row : Dispatch)
    → claim p adapter db_fails (some admit) at_ms request j ≡ (ok (row, true), j')
    → admit request at_ms j.proofs ≡ ok j'.proofs
unfolding claim transaction claim_body claim_found
claim-admitted p adapter db_fails admit at_ms request j j' row h =
    ground (arith, claim_new-admitted p adapter admit at_ms request j j' row true)

-- What the transaction of a new claim has added: an admitted decision at the time of the claim, and
-- its proof.
pub record IsAdmitted (p : Platform) (config : GateConfig) (request : Prepared) (e : EvidenceBytes)
    (at_ms : ℕ) (before after : List Proof) : Type 0 where
  pub admissible :
      Admissible p config request.request
        (bytes_digest p request.raw)
        e
        at_ms
        (verified_approval p config maker_approval at_ms e)
        (verified_approval p config checker_approval at_ms e)
        (verified_status p config at_ms e)
  pub proof : Proof
  pub only_proof : has_proof (bytes_digest p request.raw) before ≡ false
  pub added : after ≡ before ++ proof ∷ []
  pub of_request : proof.request_digest ≡ bytes_digest p request.raw
  pub at_time : proof.admitted_at_ms ≡ at_ms
  pub sealed : proof.record_digest ≡ bytes_digest p proof.record_bytes

is_authorized-verdict : (v : Verdict) → is_authorized v ≡ true → v ≡ authorized
is_authorized-verdict v h = ground arith

module _ (p : Platform) (hex : String → String) (config : GateConfig) (kept : Snapshots) where
  add_proof-eq_ok :
      (hook_raises : Bool) (e : EvidenceBytes) (d : Decision) (request : Prepared) (at_ms : ℕ)
      (before after : List Proof)
      → add_proof p hex config kept hook_raises e d request at_ms before ≡ ok after
      → (raw : String) × (has_proof (bytes_digest p request.raw) before ≡ false)
        × (after
            ≡ before
              ++ (record {
                request_digest = bytes_digest p request.raw;
                record_bytes = raw;
                record_digest = bytes_digest p raw;
                admitted_at_ms = at_ms;
              })
                ∷ [])
  unfolding add_proof insert_proof
  add_proof-eq_ok hook_raises e d request at_ms before after h =
      elim (Option-cases (canonical_json p.json (proof_json p hex config kept request e d))) [
        | inl fails ↦ absurd (ground (arith, fails))
        | inr (raw, works) ↦ (raw, ground (arith, works), ground (arith, works))
      ]

  admission_callback-IsAdmitted :
      (hook_raises : Bool) (e : EvidenceBytes) (problems : List String) (request : Prepared)
      (at_ms : ℕ) (before after : List Proof)
      → admission_callback p hex config kept hook_raises e problems request at_ms before ≡ ok after
      → IsAdmitted p config request e at_ms before after
  unfolding admission_callback
  admission_callback-IsAdmitted hook_raises e problems request at_ms before after h =
      let d = assess p config request e problems at_ms in
      elim (Bool-cases (is_authorized d.verdict)) [
        | inr fails ↦ absurd (ground (arith, fails))
        | inl works ↦
            let (raw, fresh, added) =
              add_proof-eq_ok hook_raises e d request at_ms before after (ground (arith, works)) in
            record {
              admissible =
                  assess-Admissible p config request e problems at_ms
                    (is_authorized-verdict d.verdict works);
              proof = record {
                request_digest = bytes_digest p request.raw;
                record_bytes = raw;
                record_digest = bytes_digest p raw;
                admitted_at_ms = at_ms;
              };
              only_proof = fresh;
              added = added;
              of_request = refl;
              at_time = refl;
              sealed = refl;
            }
      ]

  module _ (adapter : Adapter) where
    Received-proofs :
        (request : Prepared) (j j' : Journal)
        → Received p adapter request j j'
        → j'.proofs ≡ j.proofs
    Received-proofs request j j' (untouched e) = ap (λ x. x.proofs) e
    Received-proofs request j j' (written status receipt at_ms e) = ap (λ x. x.proofs) e

    dispatch-proofs :
        (env : Env) (request : Prepared) (s : State)
        → (dispatch p adapter env request s).1.journal.proofs ≡ s.journal.proofs
    unfolding dispatch
    dispatch-proofs env request s =
        elim (Bool-cases (env.claim_hook_raises || env.before_dispatch_raises)) [
          | inl raises ↦ rw (raises, dispatch) refl
          | inr sends ↦
              rw (sends, dispatch)
                (Received-proofs request s.journal _ (
                  receive-Received p adapter env request provider_http
                    (said "post_claim_outcome_unresolved") env.custody_raises env.response
                    s.journal))
        ]

    -- Either nothing is posted, or the claim was new.
    after_claim-posted :
        (env : Env) (request : Prepared) (r : Result (Dispatch × Bool)) (j : Journal)
        (posted : List _)
        → ((after_claim p adapter env request (r, j) posted).1.posted ≡ posted)
          ⊎ ((row : Dispatch) × (r ≡ ok (row, true))
              × ((after_claim p adapter env request (r, j) posted).1.journal.proofs ≡ j.proofs))
    after_claim-posted env request (err (value_error m)) j posted = inl refl
    after_claim-posted env request (err db_error) j posted = inl refl
    after_claim-posted env request (err (blocked d)) j posted = inl refl
    after_claim-posted env request (err fault) j posted = inl refl
    after_claim-posted env request (ok (row, false)) j posted = inl refl
    after_claim-posted env request (ok (row, true)) j posted =
        inr (row, refl, dispatch-proofs env request (record { journal = j; posted = posted }))

    pub answer-state :
        (request : Prepared) (r : Result Report × State)
        → (answer p hex config kept request r).1 ≡ r.1
    answer-state request (err (blocked d), s) = refl
    answer-state request (err (value_error m), s) = refl
    answer-state request (err db_error, s) = refl
    answer-state request (err fault, s) = refl
    answer-state request (ok report, s) = refl

    submit_prepared-posted :
        (env : Env) (admit : Admit) (request : Prepared) (s : State)
        → ((submit_prepared p adapter env (some admit) request s).1.posted ≡ s.posted)
          ⊎ (admit request env.claimed_at_ms s.journal.proofs
              ≡ ok ((submit_prepared p adapter env (some admit) request s).1.journal.proofs))
    unfolding submit_prepared
    submit_prepared-posted env admit request s =
        elim (Option-cases (request_bytes p.json request.snapshot)) [
          | inl fails ↦ inl (rw (fails, submit_prepared) refl)
          | inr (raw, works) ↦ elim (Bool-cases (str_eq raw request.raw)) [
            | inr other ↦ inl (rw (works, other, submit_prepared) refl)
            | inl same ↦
                let c =
                  claim p adapter env.claim_fails (some admit) env.claimed_at_ms request
                    s.journal in
                elim (after_claim-posted env request c.0 c.1 s.posted) [
                  | inl quiet ↦ inl (rw (works, same, submit_prepared) quiet)
                  | inr (row, new, proofs) ↦ inr (
                      rw (works, same, submit_prepared)
                        (claim-admitted p adapter env.claim_fails admit env.claimed_at_ms request
                            s.journal c.1 row (ap (λ x. (x, c.1)) new)
                          ∙ ap ok (sym proofs)))
                ]
          ]
        ]

    -- A submission through the gate, with any database failures, raising hooks and answers of the
    -- provider, either posts nothing, or its evidence is admissible at the time of the claim and
    -- exactly one proof of that admission, the first for the request, was added to the stored ones.
    pub gate_submit_prepared-IsAdmitted :
        (env : Env) (hook_raises : Bool) (request : Prepared) (evidence : GivenEvidence) (s : State)
        → ((gate_submit_prepared p hex config kept adapter env hook_raises request evidence
              s).1.posted
            ≡ s.posted)
          ⊎ IsAdmitted p config request
              (freeze_evidence evidence).0
              env.claimed_at_ms
              s.journal.proofs
              (gate_submit_prepared p hex config kept adapter env hook_raises request evidence
                s).1.journal.proofs
    unfolding gate_submit_prepared
    gate_submit_prepared-IsAdmitted env hook_raises request evidence s =
        let (e, problems) = freeze_evidence evidence in
        let admit : Admit = admission_callback p hex config kept hook_raises e problems in
        let answered =
          answer-state request (submit_prepared p adapter env (some admit) request s) in
        elim (submit_prepared-posted env admit request s) [
          | inl quiet ↦ inl (ap (λ x. x.posted) answered ∙ quiet)
          | inr accepted ↦ inr (
              rw answered (
                admission_callback-IsAdmitted hook_raises e problems request env.claimed_at_ms
                  s.journal.proofs _ accepted))
        ]
