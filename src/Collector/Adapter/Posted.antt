-- ===== src/Collector/Adapter/Posted.antt =====
-- payment_collector.py: a submission posts nothing without custody of its admission record.
use vap_spec.Base.{
  ℕ, ◌≡◌, refl, sym, ap, ◌∙◌, Bool, true, false, not, ◌&&◌, ◌||◌, Option, none, some, String, List,
  [], ◌∷◌, ◌++◌, ◌==◌, str_eq, if-cases, option-holds, append_assoc, ◌⊎◌, inl, inr, Bool-cases,
  Option-cases, arith,
}
use vap_spec.Runtime.Outcome.{value_error, db_error, blocked, fault, Result, ok, err}
use vap_spec.Runtime.Request.{Prepared, request_bytes}
use vap_spec.Runtime.Receipt.{verify_receipt}
use vap_spec.Runtime.Journal.{Adapter, Dispatch, Journal, Admit, claim, store_receipt}
use vap_spec.Runtime.Rows.{Identity}
use vap_spec.Runtime.Adapter.{Env, State, dispatch, after_claim, submit_prepared}
use vap_spec.Gate.Policy.{GateConfig}
use vap_spec.Gate.Evidence.{GivenEvidence, freeze_evidence}
use vap_spec.Gate.Admission.{Snapshots, admission_callback, gate_submit_prepared}
use vap_spec.Gate.Admission.Posts.{answer-state}
use vap_spec.Collector.{
  CollectorLib, Kind, admission_record, provider_receipt, Package, make_package,
}
use vap_spec.Collector.Client.{Client, collect_and_check}
use vap_spec.Collector.Adapter.{
  Stage, pre_dispatch, post_effect, historical_recovery, Prerequisite, CustodyTables,
  is_pre_dispatch, CallbackEnv, add_prerequisite, persist, after_persist, collect_and_persist,
  keep_evidence, before, after_stored, after, after_sent, collected_submit_prepared,
}
use vap_spec.Collector.Adapter.Recorded.{Persisted, persist-IsPersisted}
use vap_spec.Collector.Adapter.Required.{Extends, unchanged, IsRequired, keep_evidence-IsRequired}

module _ (lib : CollectorLib) (adapter : Adapter) (client : Client) where
  abbrev AfterExtends : CustodyTables → Bool × CustodyTables → Type 0
  AfterExtends t x = Extends t x.1

  unmarked :
      (stage : Stage) (g : Package) (d : String) (rows new : List Prerequisite)
      → is_pre_dispatch stage ≡ false
      → add_prerequisite stage g d rows ≡ ok new
      → new ≡ rows
  unfolding add_prerequisite
  unmarked pre_dispatch g d rows new h e = absurd cc
  unmarked post_effect g d rows new h e = ground (arith, e)
  unmarked historical_recovery g d rows new h e = ground (arith, e)

  Persisted-Extends :
      (stage : Stage) (packed : String) (t t' : CustodyTables)
      → is_pre_dispatch stage ≡ false
      → Persisted lib client packed stage t t'
      → Extends t t'
  Persisted-Extends stage packed t t' h persisted = record {
    more = persisted.row ∷ [];
    observed = persisted.observed;
    marked =
        unmarked stage persisted.parcel persisted.row.observation_digest t.prerequisites
          t'.prerequisites h persisted.marked;
  }

  after_persist-Extends :
      (raises : Bool) (t : CustodyTables) (r : Result CustodyTables)
      → ((t' : CustodyTables) → r ≡ ok t' → Extends t t')
      → Extends t (after_persist lib adapter client raises t r).1
  after_persist-Extends raises t (ok t') f = f t' refl
  after_persist-Extends raises t (err e) f = unchanged t

  pub collect_and_persist-Extends :
      (call : CallbackEnv) (request : Prepared) (packed : String) (stage : Stage) (j : Journal)
      (t : CustodyTables)
      → is_pre_dispatch stage ≡ false
      → Extends t (collect_and_persist lib adapter client call request packed stage j t).1
  unfolding collect_and_persist
  collect_and_persist-Extends call request packed stage j t h =
      option-holds (AfterExtends t) (collect_and_check lib client call.exchange packed) _ _
        (unchanged t)
        (λ o collected.
          if-cases (AfterExtends t) call.collection_hook_raises _ _ (λ raises. unchanged t)
            (λ returns.
              after_persist-Extends (is_pre_dispatch stage && call.persisted_hook_raises) t
                (persist lib adapter client call request packed o stage j t)
                (λ t' done. Persisted-Extends stage packed t t' h (
                  persist-IsPersisted lib adapter client call request packed o stage j t t' done))))

  keep_evidence-Extends :
      (call : CallbackEnv) (request : Prepared) (kind : Kind) (evidence : String) (j : Journal)
      (t : CustodyTables)
      → Extends t
          (keep_evidence lib adapter client call request kind post_effect (some evidence) j t).1
  unfolding keep_evidence
  keep_evidence-Extends call request kind evidence j t =
      option-holds (AfterExtends t) (make_package lib request.snapshot kind evidence) _ _
        (unchanged t)
        (λ packed made. collect_and_persist-Extends call request packed post_effect j t refl)

  after_stored-Extends :
      (call : CallbackEnv) (request : Prepared) (receipt : String) (r : Result Dispatch × Journal)
      (t : CustodyTables)
      → Extends t (after_stored lib adapter client call request receipt r t).1
  after_stored-Extends call request receipt (ok row, j) t =
      keep_evidence-Extends call request provider_receipt receipt j t
  after_stored-Extends call request receipt (err e, j) t = unchanged t

  after-Extends :
      (env : Env) (call : CallbackEnv) (request : Prepared) (response : Option (ℕ × String))
      (j : Journal) (t : CustodyTables)
      → Extends t (after lib adapter client env call request response j t).1
  unfolding after
  after-Extends env call request none j t = unchanged t
  after-Extends env call request (some (status, receipt)) j t =
      if-cases (AfterExtends t) (not (status == 200)) _ _ (λ refused. unchanged t)
        (λ answered.
          option-holds (AfterExtends t)
            (verify_receipt lib.platform receipt request.raw adapter.provider_public_key
              adapter.provider_id)
            _ _ (unchanged t)
            (λ v verified.
              if-cases (AfterExtends t) env.response_hook_raises _ _ (λ raises. unchanged t)
                (λ returns.
                  after_stored-Extends call request receipt
                    (store_receipt lib.platform adapter env.store_fails env.observed_at_ms request
                      receipt j)
                    t)))

  after_sent-Extends :
      (env : Env) (call : CallbackEnv) (request : Prepared) (stopped : Bool)
      (claimed : Result (Dispatch × Bool) × Journal) (t : CustodyTables)
      → Extends t (after_sent lib adapter client env call request stopped claimed t).1
  after_sent-Extends env call request stopped (ok (row, true), j) t =
      if-cases (AfterExtends t) (env.claim_hook_raises || stopped) _ _ (λ raises. unchanged t)
        (λ sent. after-Extends env call request env.response j t)
  after_sent-Extends env call request stopped (ok (row, false), j) t = unchanged t
  after_sent-Extends env call request stopped (err e, j) t = unchanged t

  IsRequired-extended :
      (call : CallbackEnv) (proof : Option String) (request : Prepared) (t t1 t2 : CustodyTables)
      → IsRequired lib adapter client call proof request t t1
      → Extends t1 t2
      → IsRequired lib adapter client call proof request t t2
  IsRequired-extended call proof request t t1 t2 r x = record {
    evidence = r.evidence;
    packed = r.packed;
    parcel = r.parcel;
    observation = r.observation;
    row = r.row;
    found = r.found;
    made = r.made;
    valid = r.valid;
    verified = r.verified;
    of_request = r.of_request;
    is_first = r.is_first;
    more = r.more ++ x.more;
    observed =
        x.observed
        ∙ (ap (λ rows. rows ++ x.more) r.observed
            ∙ append_assoc t.observations (r.row ∷ r.more) x.more);
    marked = x.marked ∙ r.marked;
  }

  dispatch-stopped :
      (env : Env) (stopped failed : Bool) (request : Prepared) (s : State)
      → (env.claim_hook_raises || stopped) ≡ true
      → (dispatch lib.platform adapter
          (record env { before_dispatch_raises = stopped; custody_raises = failed })
          request
          s).1.posted
        ≡ s.posted
  unfolding dispatch
  dispatch-stopped env stopped failed request s h = rw (h, dispatch) refl

  before-new :
      (env : Env) (call : CallbackEnv) (proof : Option String) (request : Prepared) (row : Dispatch)
      (j : Journal) (t : CustodyTables)
      → env.claim_hook_raises ≡ false
      → before lib adapter client env call proof request (ok (row, true), j) t
        ≡ keep_evidence lib adapter client call request admission_record pre_dispatch proof j t
  unfolding before
  before-new env call proof request row j t h = rw (h, before) refl

  -- Where the adapter's call posts after a claim, the callback `before` has recorded.
  after_claim-IsRequired :
      (env : Env) (call : CallbackEnv) (proof : Option String) (failed : Bool) (request : Prepared)
      (claimed : Result (Dispatch × Bool) × Journal) (posted : List Identity) (t : CustodyTables)
      → ((after_claim lib.platform adapter
            (record env {
              before_dispatch_raises =
                  (before lib adapter client env call proof request claimed t).0;
              custody_raises = failed;
            })
            request
            claimed
            posted).1.posted
          ≡ posted)
        ⊎ IsRequired lib adapter client call proof request t
            (before lib adapter client env call proof request claimed t).1
  after_claim-IsRequired env call proof failed request (err (value_error m), j) posted t = inl refl
  after_claim-IsRequired env call proof failed request (err db_error, j) posted t = inl refl
  after_claim-IsRequired env call proof failed request (err (blocked d), j) posted t = inl refl
  after_claim-IsRequired env call proof failed request (err fault, j) posted t = inl refl
  after_claim-IsRequired env call proof failed request (ok (row, false), j) posted t = inl refl
  after_claim-IsRequired env call proof failed request (ok (row, true), j) posted t =
      let claimed : Result (Dispatch × Bool) × Journal = (ok (row, true), j) in
      elim (Bool-cases env.claim_hook_raises) [
        | inl raises ↦ inl (
            dispatch-stopped env (before lib adapter client env call proof request claimed t).0
              failed request (record { journal = j; posted = posted })
              (ap (λ x. x || (before lib adapter client env call proof request claimed t).0)
                raises))
        | inr returns ↦
            elim (Bool-cases (before lib adapter client env call proof request claimed t).0) [
              | inl stopped ↦ inl (
                  dispatch-stopped env
                    (before lib adapter client env call proof request claimed t).0 failed request
                    (record { journal = j; posted = posted })
                    (ap (λ x. x || (before lib adapter client env call proof request claimed t).0)
                        returns
                      ∙ stopped))
              | inr recorded ↦
                  let e = before-new env call proof request row j t returns in
                  inr (
                    rw e (
                      keep_evidence-IsRequired lib adapter client call request proof j t
                        (ap (λ x. x.0) (sym e) ∙ recorded)))
            ]
      ]

  submit_prepared-IsRequired :
      (env : Env) (call : CallbackEnv) (proof : Option String) (failed : Bool) (admit : Admit)
      (request : Prepared) (s : State) (t : CustodyTables)
      → ((submit_prepared lib.platform adapter
            (record env {
              before_dispatch_raises =
                  (before lib adapter client env call proof request
                    (claim lib.platform adapter env.claim_fails
                      (some admit)
                      env.claimed_at_ms
                      request
                      s.journal)
                    t).0;
              custody_raises = failed;
            })
            (some admit)
            request
            s).1.posted
          ≡ s.posted)
        ⊎ IsRequired lib adapter client call proof request t
            (before lib adapter client env call proof request
              (claim lib.platform adapter env.claim_fails
                (some admit)
                env.claimed_at_ms
                request
                s.journal)
              t).1
  unfolding submit_prepared
  submit_prepared-IsRequired env call proof failed admit request s t =
      let claimed =
        claim lib.platform adapter env.claim_fails (some admit) env.claimed_at_ms request
          s.journal in
      elim (Option-cases (request_bytes lib.platform.json request.snapshot)) [
        | inl fails ↦ inl (rw (fails, submit_prepared) refl)
        | inr (raw, works) ↦ elim (Bool-cases (str_eq raw request.raw)) [
          | inr other ↦ inl (rw (works, other, submit_prepared) refl)
          | inl same ↦
              elim (after_claim-IsRequired env call proof failed request claimed s.posted t) [
                | inl quiet ↦ inl (rw (works, same, submit_prepared) quiet)
                | inr r ↦ inr r
              ]
        ]
      ]

  module _ (config : GateConfig) (snapshots : Snapshots) where
    -- A submission with custody either posts nothing, whatever databases and hooks fail and whatever
    -- the collector and the provider answer, or before the POST: the package of the admission record
    -- was made, the collector's acknowledgment of it was verified and read back under the nonce of
    -- the call, and its observation and the first prerequisite of its request were recorded. Both
    -- are in the tables afterwards.
    pub collected_submit_prepared-IsRequired :
        (env : Env) (first second : CallbackEnv) (proof : Option String) (hook_raises : Bool)
        (request : Prepared) (evidence : GivenEvidence) (s : State) (t : CustodyTables)
        → ((collected_submit_prepared lib adapter client config snapshots env first second proof
              hook_raises request evidence
              (s, t)).1.0.posted
            ≡ s.posted)
          ⊎ IsRequired lib adapter client first proof request t
              (collected_submit_prepared lib adapter client config snapshots env first second proof
                hook_raises request evidence
                (s, t)).1.1
    unfolding collected_submit_prepared gate_submit_prepared
    collected_submit_prepared-IsRequired env first second proof hook_raises request evidence s t =
        let (e, problems) = freeze_evidence evidence in
        let admit : Admit =
          admission_callback lib.platform lib.hex config snapshots hook_raises e problems in
        let claimed =
          claim lib.platform adapter env.claim_fails (some admit) env.claimed_at_ms request
            s.journal in
        let kept = before lib adapter client env first proof request claimed t in
        let ended = after_sent lib adapter client env second request kept.0 claimed kept.1 in
        elim (submit_prepared-IsRequired env first proof ended.0 admit request s t) [
          | inl quiet ↦ inl (
              ap (λ x. x.posted)
                (answer-state lib.platform lib.hex config snapshots adapter request _)
              ∙ quiet)
          | inr r ↦ inr (
              IsRequired-extended first proof request t kept.1 ended.1 r
                (after_sent-Extends env second request kept.0 claimed kept.1))
        ]
