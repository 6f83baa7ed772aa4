-- ===== src/Gate/Admission.antt =====
-- authorization_gate.py: the admission callback, the proof that it adds to the transaction of a new
-- claim, and submissions through the gate. The proof record is read back by no definition here.
pub mod Posts
pub mod Blocked
use Prim.Native.String.{◌++◌ as str_append}
use vap_spec.Base.{
  ℕ, Bool, true, false, not, ◌&&◌, ◌||◌, Option, none, some, String, List, [], ◌∷◌, ◌++◌, str_eq,
  if◌then◌else◌,
}
use vap_spec.Runtime.Json.{
  Json, null, int, text, list, dict, Items, nil, cons, Fields, end, field, canonical_json,
}
use vap_spec.Runtime.Outcome.{
  Verdict, authorized, denied, unknown, Decision, value_error, db_error, blocked, fault, Exc,
  Result, ok, err, ◌>>=◌, ◌>>◌, require, or_raise,
}
use vap_spec.Runtime.Request.{Prepared, prepare}
use vap_spec.Runtime.Receipt.{Platform, bytes_digest}
use vap_spec.Runtime.Journal.{Adapter, Proof, Journal, Admit}
use vap_spec.Runtime.Adapter.{
  Env, State, Report, result, rejected, said, rejection, submit_prepared, reconcile,
}
use vap_spec.Gate.Policy.{GateConfig}
use vap_spec.Gate.Evidence.{EvidenceBytes, GivenEvidence, freeze_evidence}
use vap_spec.Gate.Assess.{assess}

-- The canonical bytes that the adapter keeps of its configuration.
pub record Snapshots : Type 0 where
  pub policy_bytes : String
  pub trust_bytes : String
  pub identities_bytes : String

abbrev pub verdict_text : Verdict → String
verdict_text authorized = "AUTHORIZED"
verdict_text denied = "DENIED"
verdict_text unknown = "UNKNOWN"

abbrev texts : List String → Items
texts [] = nil
texts (s ∷ rest) = cons (text s) (texts rest)

abbrev optional_int : Option ℕ → Json
optional_int none = null
optional_int (some n) = int n

abbrev optional_text : Option String → Json
optional_text none = null
optional_text (some s) = text s

-- The slots that have bytes, by their names sorted.
abbrev slots : (String → String) → EvidenceBytes → Fields
slots show e =
    let add : String → Option String → Fields → Fields =
      λ name o rest. elim o [ none ↦ rest | some raw ↦ field name (text (show raw)) rest ] in
    add "checker_approval" e.checker
      (add "final_status" e.status (add "maker_approval" e.maker end))

-- The decision as a dictionary, its keys sorted.
unfoldable pub decision_json : Platform → GateConfig → Snapshots → EvidenceBytes → Decision → Json
decision_json p config kept e d = dict (
    field "admitted_at_ms" (optional_int d.admitted_at_ms) (
      field "evaluated_at_ms" (optional_int d.evaluated_at_ms) (
        field "evidence_digests" (dict (slots (bytes_digest p) e)) (
          field "identity_manifest_digest" (text (bytes_digest p kept.identities_bytes)) (
            field "policy_digest" (text config.policy_digest) (
              field "reasons" (list (texts d.reasons)) (
                field "request_digest" (optional_text d.request_digest) (
                  field "schema" (text "synthetic-payment-admission-decision-v0") (
                    field "trust_manifest_digest" (text (bytes_digest p kept.trust_bytes))
                      (field "verdict" (text (verdict_text d.verdict)) end))))))))))

-- INSERT INTO authorization_proofs, with PRIMARY KEY(request_digest)
abbrev pub has_proof : String → List Proof → Bool
has_proof d [] = false
has_proof d (r ∷ rows) = str_eq r.request_digest d || has_proof d rows

unfoldable pub insert_proof : Proof → List Proof → Result (List Proof)
insert_proof new rows =
    if has_proof new.request_digest rows then err db_error else ok (rows ++ new ∷ [])

-- `_unavailable_admission`
unfoldable pub unavailable_admission : Option String → String → Decision
unavailable_admission d reason = record {
  verdict = unknown;
  request_digest = d;
  evaluated_at_ms = none;
  admitted_at_ms = none;
  reasons = reason ∷ [];
}

abbrev pub is_authorized : Verdict → Bool
is_authorized authorized = true
is_authorized denied = false
is_authorized unknown = false

-- What a submission through the gate answers: the report, and where the admission comes from.
pub data Admission : Type 0 where
  -- the evidence was not admitted, or its transaction was not committed
  not_committed : Decision → Admission
  -- the stored proof of the claim, if it is there
  from_store : Admission

-- `hex` is `bytes.hex`
module _ (p : Platform) (hex : String → String) (config : GateConfig) (kept : Snapshots) where
  unfoldable pub proof_json : Prepared → EvidenceBytes → Decision → Json
  proof_json request e d = dict (
      field "decision" (decision_json p config kept e d) (
        field "evidence" (dict (slots hex e)) (
          field "identity_manifest_bytes" (text (hex kept.identities_bytes)) (
            field "max_status_age_ms" (int config.max_status_age_ms) (
              field "policy_bytes" (text (hex kept.policy_bytes)) (
                field "request_bytes" (text (hex request.raw)) (
                  field "schema" (text "synthetic-payment-admission-proof-v0")
                    (field "trust_manifest_bytes" (text (hex kept.trust_bytes)) end))))))))

  unfoldable pub add_proof : Bool → EvidenceBytes → Decision → Admit
  add_proof hook_raises e d request at_ms proofs = do
    raw ← or_raise (canonical_json p.json (proof_json request e d)) (value_error "json")
    rows ←
        insert_proof
          (record {
            request_digest = bytes_digest p request.raw;
            record_bytes = raw;
            record_digest = bytes_digest p raw;
            admitted_at_ms = at_ms;
          })
          proofs
    require (not hook_raises) (
        blocked (
          unavailable_admission (some (bytes_digest p request.raw))
            "authorization_transaction_fault_no_post"))
    ok rows

  -- `admit` of `_admission_callback`
  unfoldable pub admission_callback : Bool → EvidenceBytes → List String → Admit
  admission_callback hook_raises e problems request at_ms proofs =
      let d = assess p config request e problems at_ms in
      if is_authorized d.verdict
      then add_proof hook_raises e d request at_ms proofs
      else err (blocked d)

  abbrev pub answer : Prepared → Result Report × State → Result (Report × Admission) × State
  answer request (err (blocked d), s) = (
    ok (
      result rejected (some (bytes_digest p request.raw))
          (said "mock_admission_not_committed_no_post") none,
      not_committed d,
    ),
    s,
  )
  answer request (err (value_error m), s) = (err (value_error m), s)
  answer request (err db_error, s) = (err db_error, s)
  answer request (err fault, s) = (err fault, s)
  answer request (ok report, s) = (ok (report, from_store), s)

  module _ (adapter : Adapter) where
    -- `AuthorizedAdapter._submit_prepared`
    unfoldable pub gate_submit_prepared :
        Env
        → (hook_raises : Bool) → Prepared
        → GivenEvidence
        → State
        → Result (Report × Admission) × State
    gate_submit_prepared env hook_raises request evidence s =
        let (e, problems) = freeze_evidence evidence in
        answer request (
          submit_prepared p adapter env (some (admission_callback hook_raises e problems)) request
            s)

    -- `AuthorizedAdapter.submit`
    unfoldable pub gate_submit :
        Env → Bool → Json → GivenEvidence → State → Result (Report × Admission) × State
    gate_submit env hook_raises request evidence s = elim (prepare p.json adapter.context request) [
      | none ↦ (
        ok (
          rejection p adapter,
          not_committed (unavailable_admission none "native_request_unusable"),
        ),
        s,
      )
      | some r ↦ gate_submit_prepared env hook_raises r evidence s
    ]

    -- `AuthorizedAdapter.reconcile`
    unfoldable pub gate_reconcile : Env → Json → State → (Report × Admission) × State
    gate_reconcile env request s = elim (prepare p.json adapter.context request) [
      | none ↦ (
        (rejection p adapter, not_committed (unavailable_admission none "native_request_unusable")),
        s,
      )
      | some r ↦
          let (report, s') = reconcile p adapter env r.snapshot s in ((report, from_store), s')
    ]
