-- ===== src/Collector/Adapter/Required.antt =====
-- payment_collector.py: a submission posts nothing without custody of its admission record.
use vap_spec.Base.{
  ◌≡◌, refl, sym, ap, ◌∙◌, Bool, true, false, ◌&&◌, Option, none, some, String, List, [], ◌∷◌, ◌++◌,
  append-nil, ◌⊎◌, inl, inr, Bool-cases, Option-cases,
}
use vap_spec.Runtime.Outcome.{Result, ok, err}
use vap_spec.Runtime.Request.{Prepared}
use vap_spec.Runtime.Journal.{Adapter, Journal}
use vap_spec.Collector.{
  CollectorLib, Kind, admission_record, Package, validate_package, make_package,
}
use vap_spec.Collector.Client.{Client, Observation, collect_and_check}
use vap_spec.Collector.Adapter.{
  Stage, pre_dispatch, CustodyRow, CustodyTables, has_prerequisite, is_pre_dispatch, CallbackEnv,
  persist, after_persist, collect_and_persist, keep_evidence,
}
use vap_spec.Collector.Adapter.Recorded.{
  Persisted, persist-IsPersisted, IsVerified, collect_and_check-IsVerified, add_prerequisite-pre,
}

-- Observations are added at most, and no prerequisite.
pub record Extends (t t' : CustodyTables) : Type 0 where
  pub more : List CustodyRow
  pub observed : t'.observations ≡ t.observations ++ more
  pub marked : t'.prerequisites ≡ t.prerequisites

pub unchanged : (t : CustodyTables) → Extends t t
unchanged t = record { more = []; observed = sym (append-nil t.observations); marked = refl }

module _ (lib : CollectorLib) (adapter : Adapter) (client : Client) where
  -- The record of an admission was collected and read back before, and the first prerequisite of
  -- the request says so.
  pub record IsRequired (call : CallbackEnv) (proof : Option String) (request : Prepared)
      (t t' : CustodyTables) : Type 0 where
    pub evidence : String
    pub packed : String
    pub parcel : Package
    pub observation : Observation
    pub row : CustodyRow
    pub more : List CustodyRow
    pub found : proof ≡ some evidence
    pub made : make_package lib request.snapshot admission_record evidence ≡ some packed
    pub valid : validate_package lib packed client.context ≡ some parcel
    pub verified : IsVerified lib adapter client call.exchange packed observation
    pub of_request : row.request_digest ≡ parcel.request_digest
    pub is_first : has_prerequisite parcel.request_digest t.prerequisites ≡ false
    pub observed : t'.observations ≡ t.observations ++ row ∷ more
    pub marked :
        t'.prerequisites
        ≡ t.prerequisites
          ++ (record {
            request_digest = parcel.request_digest;
            observation_digest = row.observation_digest;
          })
            ∷ []

  required :
      (call : CallbackEnv) (request : Prepared) (evidence packed : String) (o : Observation)
      (t t' : CustodyTables)
      → make_package lib request.snapshot admission_record evidence ≡ some packed
      → collect_and_check lib client call.exchange packed ≡ some o
      → Persisted lib client packed pre_dispatch t t'
      → IsRequired call (some evidence) request t t'
  required call request evidence packed o t t' made collected persisted =
      let (marked, is_first) =
        add_prerequisite-pre persisted.parcel persisted.row.observation_digest t.prerequisites
          t'.prerequisites persisted.marked in
      record {
        evidence = evidence;
        packed = packed;
        parcel = persisted.parcel;
        observation = o;
        row = persisted.row;
        more = [];
        found = refl;
        made = made;
        valid = persisted.valid;
        verified = collect_and_check-IsVerified lib adapter client call.exchange packed o collected;
        of_request = persisted.of_request;
        is_first = is_first;
        observed = persisted.observed;
        marked = marked;
      }

  after_persist-returned :
      (raises : Bool) (t : CustodyTables) (r : Result CustodyTables)
      → (after_persist lib adapter client raises t r).0 ≡ false
      → r ≡ ok (after_persist lib adapter client raises t r).1
  after_persist-returned raises t (ok t') h = refl
  after_persist-returned raises t (err e) h = absurd cc

  collect_and_persist-raised :
      (call : CallbackEnv) (request : Prepared) (packed : String) (stage : Stage) (j : Journal)
      (t : CustodyTables)
      → (collect_and_check lib client call.exchange packed ≡ none)
        ⊎ (call.collection_hook_raises ≡ true)
      → collect_and_persist lib adapter client call request packed stage j t ≡ (true, t)
  unfolding collect_and_persist
  collect_and_persist-raised call request packed stage j t (inl fails) =
      rw (fails, collect_and_persist) refl
  collect_and_persist-raised call request packed stage j t (inr raises) =
      elim (Option-cases (collect_and_check lib client call.exchange packed)) [
        | inl fails ↦ rw (fails, collect_and_persist) refl
        | inr (o, collected) ↦ rw (collected, raises, collect_and_persist) refl
      ]

  collect_and_persist-collected :
      (call : CallbackEnv) (request : Prepared) (packed : String) (stage : Stage) (j : Journal)
      (t : CustodyTables) (o : Observation)
      → collect_and_check lib client call.exchange packed ≡ some o
      → call.collection_hook_raises ≡ false
      → collect_and_persist lib adapter client call request packed stage j t
        ≡ after_persist lib adapter client
            (is_pre_dispatch stage && call.persisted_hook_raises)
            t
            (persist lib adapter client call request packed o stage j t)
  unfolding collect_and_persist
  collect_and_persist-collected call request packed stage j t o collected returns =
      rw (collected, returns, collect_and_persist) refl

  collect_and_persist-IsRequired :
      (call : CallbackEnv) (request : Prepared) (evidence packed : String) (j : Journal)
      (t : CustodyTables)
      → make_package lib request.snapshot admission_record evidence ≡ some packed
      → (collect_and_persist lib adapter client call request packed pre_dispatch j t).0 ≡ false
      → IsRequired call
          (some evidence)
          request
          t
          (collect_and_persist lib adapter client call request packed pre_dispatch j t).1
  collect_and_persist-IsRequired call request evidence packed j t made h =
      elim (Option-cases (collect_and_check lib client call.exchange packed)) [
        | inl fails ↦
            let e = collect_and_persist-raised call request packed pre_dispatch j t (inl fails) in
            absurd cc
        | inr (o, collected) ↦ elim (Bool-cases call.collection_hook_raises) [
          | inl raises ↦
              let e =
                collect_and_persist-raised call request packed pre_dispatch j t (inr raises) in
              absurd cc
          | inr returns ↦
              let e =
                collect_and_persist-collected call request packed pre_dispatch j t o collected
                  returns in
              let done =
                after_persist-returned (is_pre_dispatch pre_dispatch && call.persisted_hook_raises)
                  t (persist lib adapter client call request packed o pre_dispatch j t)
                  (ap (λ x. x.0) (sym e) ∙ h) in
              rw e (
                required call request evidence packed o t _ made collected (
                  persist-IsPersisted lib adapter client call request packed o pre_dispatch j t _
                    done))
        ]
      ]

  keep_evidence-none :
      (call : CallbackEnv) (request : Prepared) (kind : Kind) (stage : Stage) (j : Journal)
      (t : CustodyTables)
      → keep_evidence lib adapter client call request kind stage none j t ≡ (true, t)
  unfolding keep_evidence
  keep_evidence-none call request kind stage j t = refl

  keep_evidence-unmade :
      (call : CallbackEnv) (request : Prepared) (kind : Kind) (stage : Stage) (evidence : String)
      (j : Journal) (t : CustodyTables)
      → make_package lib request.snapshot kind evidence ≡ none
      → keep_evidence lib adapter client call request kind stage (some evidence) j t ≡ (true, t)
  unfolding keep_evidence
  keep_evidence-unmade call request kind stage evidence j t fails = rw (fails, keep_evidence) refl

  keep_evidence-made :
      (call : CallbackEnv) (request : Prepared) (kind : Kind) (stage : Stage)
      (evidence packed : String) (j : Journal) (t : CustodyTables)
      → make_package lib request.snapshot kind evidence ≡ some packed
      → keep_evidence lib adapter client call request kind stage (some evidence) j t
        ≡ collect_and_persist lib adapter client call request packed stage j t
  unfolding keep_evidence
  keep_evidence-made call request kind stage evidence packed j t made =
      rw (made, keep_evidence) refl

  pub keep_evidence-IsRequired :
      (call : CallbackEnv) (request : Prepared) (proof : Option String) (j : Journal)
      (t : CustodyTables)
      → (keep_evidence lib adapter client call request admission_record pre_dispatch proof j t).0
        ≡ false
      → IsRequired call proof request t
          (keep_evidence lib adapter client call request admission_record pre_dispatch proof j t).1
  keep_evidence-IsRequired call request none j t h =
      let e : keep_evidence lib adapter client call request admission_record pre_dispatch none j t
          ≡ (true, t) =
        keep_evidence-none call request admission_record pre_dispatch j t in
      absurd cc
  keep_evidence-IsRequired call request (some evidence) j t h =
      elim (Option-cases (make_package lib request.snapshot admission_record evidence)) [
        | inl fails ↦
            let e =
              keep_evidence-unmade call request admission_record pre_dispatch evidence j t fails in
            absurd cc
        | inr (packed, made) ↦
            let e =
              keep_evidence-made call request admission_record pre_dispatch evidence packed j t
                made in
            rw e (
              collect_and_persist-IsRequired call request evidence packed j t made
                (ap (λ x. x.0) (sym e) ∙ h))
      ]
