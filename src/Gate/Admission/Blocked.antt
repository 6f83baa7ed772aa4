-- ===== src/Gate/Admission/Blocked.antt =====
-- authorization_gate.py: a submission whose decision is not AUTHORIZED changes nothing.
use vap_spec.Base.{
  ℕ, ◌≡◌, ◌≢◌, refl, ◌∙◌, Bool, true, false, some, String, List, str_eq, inl, inr, Bool-cases,
  Option-cases, arith,
}
use vap_spec.Runtime.Outcome.{
  Verdict, authorized, value_error, db_error, blocked, fault, Result, ok,
}
use vap_spec.Runtime.Request.{Prepared, request_bytes}
use vap_spec.Runtime.Receipt.{Platform}
use vap_spec.Runtime.Journal.{Adapter, Proof, Dispatch, Journal, Admit}
use vap_spec.Runtime.Adapter.{Env, State, submit_prepared, after_claim}
use vap_spec.Runtime.Adapter.Changes.{ClaimResult, raised, existing, created, claim-ClaimResult}
use vap_spec.Gate.Policy.{GateConfig}
use vap_spec.Gate.Evidence.{GivenEvidence, freeze_evidence}
use vap_spec.Gate.Assess.{assess}
use vap_spec.Gate.Admission.{Snapshots, is_authorized, admission_callback, gate_submit_prepared}
use vap_spec.Gate.Admission.Posts.{claim-admitted, answer-state}

module _ (p : Platform) (adapter : Adapter) where
  -- A claim that is not new leaves the state as it was.
  unclaimed :
      (env : Env) (request : Prepared) (at_ms : ℕ) (s : State)
      {r : Result (Dispatch × Bool) × Journal}
      → ClaimResult p adapter request at_ms s.journal r
      → ((row : Dispatch) (j : Journal) → r ≢ (ok (row, true), j))
      → (after_claim p adapter env request r s.posted).1 ≡ s
  unclaimed env request at_ms s (raised (value_error m)) h = refl
  unclaimed env request at_ms s (raised db_error) h = refl
  unclaimed env request at_ms s (raised (blocked d)) h = refl
  unclaimed env request at_ms s (raised fault) h = refl
  unclaimed env request at_ms s (existing row f) h = refl
  unclaimed env request at_ms s (created row j e c) h = absurd (h row j refl)

  refused_state :
      (env : Env) (admit : Admit) (request : Prepared) (s : State)
      → ((rows : List Proof) → admit request env.claimed_at_ms s.journal.proofs ≢ ok rows)
      → (submit_prepared p adapter env (some admit) request s).1 ≡ s
  unfolding submit_prepared
  refused_state env admit request s h =
      elim (Option-cases (request_bytes p.json request.snapshot)) [
        | inl fails ↦ rw (fails, submit_prepared) refl
        | inr (raw, works) ↦ elim (Bool-cases (str_eq raw request.raw)) [
          | inr other ↦ rw (works, other, submit_prepared) refl
          | inl same ↦
              rw (works, same, submit_prepared)
                (unclaimed env request env.claimed_at_ms s
                  (claim-ClaimResult p adapter env.claim_fails (some admit) env.claimed_at_ms
                    request s.journal)
                  (λ row j e. h j.proofs (
                    claim-admitted p adapter env.claim_fails admit env.claimed_at_ms request
                      s.journal j row e)))
        ]
      ]

unauthorized : (v : Verdict) → v ≢ authorized → is_authorized v ≡ false
unauthorized v h = ground arith

module _ (p : Platform) (hex : String → String) (config : GateConfig) (kept : Snapshots)
    (adapter : Adapter) where
  -- A submission through the gate whose decision at the time of the claim is DENIED or UNKNOWN leaves
  -- the journal, its proofs and what was posted as they were.
  pub gate_submit_prepared-blocked :
      (env : Env) (hook_raises : Bool) (request : Prepared) (evidence : GivenEvidence) (s : State)
      → (assess p config request
          (freeze_evidence evidence).0
          (freeze_evidence evidence).1
          env.claimed_at_ms).verdict
        ≢ authorized
      → (gate_submit_prepared p hex config kept adapter env hook_raises request evidence s).1 ≡ s
  unfolding gate_submit_prepared admission_callback
  gate_submit_prepared-blocked env hook_raises request evidence s h =
      let (e, problems) = freeze_evidence evidence in
      let admit : Admit = admission_callback p hex config kept hook_raises e problems in
      let no_verdict =
        unauthorized
          (assess p config request (freeze_evidence evidence).0 (freeze_evidence evidence).1
            env.claimed_at_ms).verdict
          h in
      answer-state p hex config kept adapter request
        (submit_prepared p adapter env (some admit) request s)
      ∙ refused_state p adapter env admit request s
          (λ rows k. absurd (ground (arith, no_verdict, k)))
