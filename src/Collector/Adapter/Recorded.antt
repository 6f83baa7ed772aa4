-- ===== src/Collector/Adapter/Recorded.antt =====
-- payment_collector.py: what `_persist` has recorded where it does not raise, and what the client has
-- verified before.
use vap_spec.Base.{
  ◌==◌, ◌≡◌, refl, sym, ap, ◌∙◌, false, not, Option, none, some, String, List, [], ◌∷◌, ◌++◌,
  str_eq, eq_iff, if◌then◌else◌, arith,
}
use vap_spec.Runtime.Json.{Fields}
use vap_spec.Runtime.Outcome.{value_error, db_error, ok, require, or_raise}
use vap_spec.Runtime.Request.{Prepared, check}
use vap_spec.Runtime.Receipt.{bytes_digest}
use vap_spec.Runtime.Rows.{find}
use vap_spec.Runtime.Journal.{Adapter, Journal, identity_of}
use vap_spec.RecordGate.Audit.Once.{bind-eq_some}
use vap_spec.Collector.{CollectorLib, Package, canonical_message, digest, validate_package}
use vap_spec.Collector.Custody.{Presence, missing, present, verify_ack, verify_readback}
use vap_spec.Collector.Client.{
  Client, Exchange, Observation, answer_of, signed_part, client_readback, collect_and_check,
}
use vap_spec.Collector.Adapter.{
  Stage, pre_dispatch, CustodyRow, Prerequisite, CustodyTables, has_prerequisite,
  insert_observation, insert_prerequisite, is_admission, CallbackEnv, is_epoch, is_eligible,
  identity_json, observation_json, add_prerequisite, persist,
}
use vap_spec.Collector.Kept.{bind-eq-ok, then-eq-ok}

or_raise-eq-ok {ℓ} : {A : Type ℓ} (o : Option A) (e : _) (a : A) → or_raise o e ≡ ok a → o ≡ some a
or_raise-eq-ok none e a h = absurd cc
or_raise-eq-ok (some x) e a h = ground (arith, h)

insert_observation-eq-ok :
    (r : CustodyRow) (rows new : List CustodyRow)
    → insert_observation r rows ≡ ok new
    → new ≡ rows ++ r ∷ []
unfolding insert_observation
insert_observation-eq-ok r rows new h = ground (arith, h)

insert_prerequisite-eq-ok :
    (r : Prerequisite) (rows new : List Prerequisite)
    → insert_prerequisite r rows ≡ ok new
    → (new ≡ rows ++ r ∷ []) × (has_prerequisite r.request_digest rows ≡ false)
unfolding insert_prerequisite
insert_prerequisite-eq-ok r rows new h = ground (arith, h)

pub add_prerequisite-pre :
    (g : Package) (d : String) (rows new : List Prerequisite)
    → add_prerequisite pre_dispatch g d rows ≡ ok new
    → (new ≡ rows ++ (record { request_digest = g.request_digest; observation_digest = d }) ∷ [])
      × (has_prerequisite g.request_digest rows ≡ false)
unfolding add_prerequisite
add_prerequisite-pre g d rows new h =
    insert_prerequisite-eq-ok _ rows new (then-eq-ok (require (is_admission g.kind) _) _ new h)

-- The row that is inserted, and the prerequisites of its stage.
pub record Persisted (lib : CollectorLib) (client : Client) (packed : String) (stage : Stage)
    (t t' : CustodyTables) : Type 0 where
  pub parcel : Package
  pub row : CustodyRow
  pub valid : validate_package lib packed client.context ≡ some parcel
  pub of_request : row.request_digest ≡ parcel.request_digest
  pub observed : t'.observations ≡ t.observations ++ row ∷ []
  pub marked :
      add_prerequisite stage parcel row.observation_digest t.prerequisites ≡ ok t'.prerequisites

module _ (lib : CollectorLib) (adapter : Adapter) (client : Client) where
  pub persist-IsPersisted :
      (env : CallbackEnv) (request : Prepared) (packed : String) (o : Observation) (stage : Stage)
      (j : Journal) (t t' : CustodyTables)
      → persist lib adapter client env request packed o stage j t ≡ ok t'
      → Persisted lib client packed stage t t'
  unfolding persist
  persist-IsPersisted env request packed o stage j t t' h =
      let (g, e0, h0) =
        bind-eq-ok (or_raise (validate_package lib packed client.context) (value_error "package")) _
          t' h in
      let (identity, e1, h1) =
        bind-eq-ok
          (or_raise (digest lib (identity_json lib adapter client)) (value_error "identity")) _ t'
          h0 in
      let (raw, e2, h2) =
        bind-eq-ok
          (or_raise
            (canonical_message lib
              (observation_json lib adapter client env.now_ms g packed o stage identity))
            (value_error "record"))
          _ t' h1 in
      let h3 = then-eq-ok (require (not env.persist_fails) db_error) _ t' h2 in
      let h4 =
        then-eq-ok
          (require (is_epoch client.trusted.recovery_epoch t.epoch)
            (value_error "stale_custody_writer_epoch"))
          _ t' h3 in
      let (claim, e5, h5) =
        bind-eq-ok (find identity_of adapter.scope request.request request.raw j.dispatches) _ t'
          h4 in
      let h6 =
        then-eq-ok
          (require (is_eligible stage claim)
            (value_error "original_claim_not_eligible_for_custody"))
          _ t' h5 in
      let row : CustodyRow = record {
        observation_digest = bytes_digest lib.platform raw;
        request_digest = g.request_digest;
        kind = g.kind;
        stage = stage;
        record_bytes = raw;
      } in
      let (observations, e7, h7) = bind-eq-ok (insert_observation row t.observations) _ t' h6 in
      let (prerequisites, e8, h8) =
        bind-eq-ok (add_prerequisite stage g (bytes_digest lib.platform raw) t.prerequisites) _ t'
          h7 in
      let whole : record t { observations = observations; prerequisites = prerequisites } ≡ t' =
        ground (arith, h8) in
      record {
        parcel = g;
        row = row;
        valid =
            or_raise-eq-ok (validate_package lib packed client.context) (value_error "package") g
              e0;
        of_request = refl;
        observed =
            ap (λ x. x.observations) (sym whole)
            ∙ insert_observation-eq-ok row t.observations observations e7;
        marked = e8 ∙ ap (λ x. ok x.prerequisites) whole;
      }

  -- What the client has verified of a package that it collected.
  pub record IsVerified (env : Exchange) (packed : String) (o : Observation) : Type 0 where
    pub ack_payload : Fields
    pub response : String
    pub acknowledged : verify_ack lib o.ack_bytes packed client.trusted ≡ some ack_payload
    pub is_present :
        verify_readback lib response packed env.nonce client.trusted false
        ≡ some (present o.ack_bytes)

  client_readback-present :
      (env : Exchange) (packed : String) (presence : Presence) (readback : String)
      → client_readback lib client env packed ≡ some (presence, readback)
      → (response : String) × (verify_readback lib response packed env.nonce client.trusted false
          ≡ some presence)
  unfolding client_readback
  client_readback-present env packed presence readback h =
      let (g, e0, h0) = bind-eq_some (validate_package lib packed client.context) _ _ h in
      let ((status, raw), e1, h1) = bind-eq_some (answer_of lib client env.query) _ _ h0 in
      let (u, e2, h2) = bind-eq_some (check (status == 200)) _ _ h1 in
      let (p, e3, h3) =
        bind-eq_some (verify_readback lib raw packed env.nonce client.trusted false) _ _ h2 in
      let (b, e4, h4) = bind-eq_some (signed_part lib client raw) _ _ h3 in
      let same : p ≡ presence = ground (arith, h4) in (raw, e3 ∙ ap some same)

  same_ack :
      (presence : Presence) (ack readback nonce : String) (o : Observation)
      → (elim presence [
        | missing ↦ none
        | present original ↦
            if str_eq original ack
            then some (record { ack_bytes = ack; readback_bytes = readback; nonce = nonce })
            else none
      ])
        ≡ some o
      → (presence ≡ present ack) × (o.ack_bytes ≡ ack)
  same_ack missing ack readback nonce o h = absurd cc
  same_ack (present original) ack readback nonce o h = ground (arith, h, eq_iff original ack)

  pub collect_and_check-IsVerified :
      (env : Exchange) (packed : String) (o : Observation)
      → collect_and_check lib client env packed ≡ some o
      → IsVerified env packed o
  unfolding collect_and_check
  collect_and_check-IsVerified env packed o h =
      let (g, e0, h0) = bind-eq_some (validate_package lib packed client.context) _ _ h in
      let ((status, ack), e1, h1) = bind-eq_some (answer_of lib client env.collection) _ _ h0 in
      let (u, e2, h2) = bind-eq_some (check (status == 200)) _ _ h1 in
      let (payload, e3, h3) = bind-eq_some (verify_ack lib ack packed client.trusted) _ _ h2 in
      let ((presence, readback), e4, h4) =
        bind-eq_some (client_readback lib client env packed) _ _ h3 in
      let (is_present, is_ack) = same_ack presence ack readback env.nonce o h4 in
      let (response, verified) = client_readback-present env packed presence readback e4 in
      record {
        ack_payload = payload;
        response = response;
        acknowledged = ap (λ x. verify_ack lib x packed client.trusted) is_ack ∙ e3;
        is_present = verified ∙ ap some (is_present ∙ ap present (sym is_ack));
      }
