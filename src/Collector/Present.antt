-- ===== src/Collector/Present.antt =====
-- payment_collector.py: what a verified readback establishes.
use mathlib.Core.Path.{subst}
use vap_spec.Base.{
  length, codes, all, inl, inr, Bool-cases, ◌⊎◌, ℕ, ◌≡◌, ◌≤◌, sym, ap, ◌∙◌, Bool, true, ◌&&◌, some,
  String, List, [], ◌∷◌, str_eq, eq_iff, leb, leb→le, ==_iff, ◌==◌, if◌then◌else◌, arith,
  &&-eq-true,
}
use vap_spec.Runtime.Json.{Json, text, int, Fields, get_field}
use vap_spec.Runtime.Request.{is_integer, is_hex, ◌>>◌, check, get_text, get_int}
use vap_spec.Runtime.Receipt.{bytes_digest}
use vap_spec.RecordGate.Audit.Once.{bind-eq_some}
use vap_spec.Assessor.{exact_keys}
use vap_spec.Collector.{
  CollectorLib, max_evidence, max_message, text_is, load_message, bytes_of_hex, verify_statement,
}
use vap_spec.Collector.Custody.{
  Trusted, present, verify_ack, observed_state, present_parts, missing_parts, verify_readback,
  readback_schema, agree_on, is_nonce,
}
use vap_spec.Collector.Acknowledged.{
  checked, some-injective, get_text-eq-some, get_int-eq-some, text_is-eq-true, exact_keys-eq-some,
  SameAt, agree_on-SameAt, IsSigned, verify_statement-IsSigned, IsAcknowledged,
  verify_ack-IsAcknowledged,
}

module _ (lib : CollectorLib) (packed nonce : String) (trusted : Trusted) (historical : Bool) where
  -- The bytes are the collector's signed answer to the nonce that it has the package in a state.
  pub record IsAnswer (readback state : String) (epoch : ℕ) (observed : Fields) : Type 0 where
    pub value : Json
    pub read : load_message lib packed ≡ some value
    pub signed : IsSigned lib trusted.public_key readback observed
    pub of_schema : get_field "schema" observed ≡ some (text readback_schema)
    pub of_collector : get_field "collector_id" observed ≡ some (text trusted.collector_id)
    pub of_nonce : get_field "nonce" observed ≡ some (text nonce)
    pub nonce_length : length (codes nonce) ≡ 32
    pub nonce_is_hex : all is_hex (codes nonce) ≡ true
    pub of_state : get_field "state" observed ≡ some (text state)
    pub of_package :
        get_field "package_digest" observed ≡ some (text (bytes_digest lib.platform packed))
    pub of_context : SameAt observed value "context_digest"
    pub of_epoch : get_field "recovery_epoch" observed ≡ some (int epoch)
    pub epoch_counts : epoch ≤ trusted.recovery_epoch
    pub epoch_is : (historical ≡ true) ⊎ (epoch ≡ trusted.recovery_epoch)

  -- The collector answered, to this nonce, that it has the package with an acknowledgment of the
  -- digest of `ack`; and `ack` is its signed statement on the package.
  pub record IsInCustody (ack : String) : Type 0 where
    pub readback : String
    pub epoch : ℕ
    pub observed : Fields
    pub answer : IsAnswer readback "PRESENT" epoch observed
    pub of_ack : get_field "ack_digest" observed ≡ some (text (bytes_digest lib.platform ack))
    pub acknowledged : IsAcknowledged lib packed trusted epoch ack

  -- is the epoch not later than the client's
  abbrev counts : ℕ → Bool
  counts epoch =
      is_integer epoch
      && (if historical then leb epoch trusted.recovery_epoch else epoch == trusted.recovery_epoch)

  counts-le : (epoch : ℕ) → counts epoch ≡ true → epoch ≤ trusted.recovery_epoch
  counts-le epoch h =
      ground (arith, h, leb→le epoch trusted.recovery_epoch, ==_iff epoch trusted.recovery_epoch)

  counts-eq :
      (epoch : ℕ) → counts epoch ≡ true → (historical ≡ true) ⊎ (epoch ≡ trusted.recovery_epoch)
  counts-eq epoch h = elim (Bool-cases historical) [
    | inl early ↦ inl early
    | inr now ↦ inr (ground (arith, h, now))
  ]

  abbrev readback_fields : List String
  readback_fields =
      "schema" ∷ "collector_id" ∷ "recovery_epoch" ∷ "nonce" ∷ "observed_at_ms" ∷ "state"
      ∷ "package_digest" ∷ "context_digest" ∷ "ack_digest" ∷ []

  abbrev is_answer : Fields → Bool
  is_answer fs =
      text_is readback_schema (get_field "schema" fs)
      && (text_is trusted.collector_id (get_field "collector_id" fs)
          && (text_is nonce (get_field "nonce" fs) && is_nonce nonce))

  abbrev is_of_package : Fields → Json → Bool
  is_of_package fs value =
      text_is (bytes_digest lib.platform packed) (get_field "package_digest" fs)
      && agree_on ("context_digest" ∷ []) fs value

  chosen :
      (state : String) (epoch : ℕ) (observed parts : Fields) (ack : String)
      → (if str_eq state "MISSING"
          then missing_parts lib parts observed
          else check (str_eq state "PRESENT")
            >> present_parts lib parts observed epoch packed trusted)
        ≡ some (present ack)
      → (state ≡ "PRESENT")
        × (present_parts lib parts observed epoch packed trusted ≡ some (present ack))
  unfolding missing_parts
  chosen state epoch observed parts ack h = ground (arith, h, eq_iff state "PRESENT")

  observed_state-IsAnswer :
      (readback state : String) (epoch : ℕ) (observed : Fields)
      → observed_state lib readback packed nonce trusted historical
        ≡ some (state, (epoch, observed))
      → IsAnswer readback state epoch observed
  unfolding observed_state
  observed_state-IsAnswer readback state epoch observed h =
      let (value, e0, h0) = bind-eq_some (load_message lib packed) _ _ h in
      let (payload, e1, h1) =
        bind-eq_some (verify_statement lib readback trusted.public_key) _ _ h0 in
      let (fs, e2, h2) = bind-eq_some (exact_keys readback_fields payload) _ _ h1 in
      let (at, e3, h3) = bind-eq_some (get_int "recovery_epoch" fs) _ _ h2 in
      let (observed_at, e4, h4) = bind-eq_some (get_int "observed_at_ms" fs) _ _ h3 in
      let (u, e5, h5) = bind-eq_some (check (is_answer fs)) _ _ h4 in
      let (w, e6, h6) = bind-eq_some (check (counts at && is_integer observed_at)) _ _ h5 in
      let (x, e7, h7) = bind-eq_some (check (is_of_package fs value)) _ _ h6 in
      let (name, e8, h8) = bind-eq_some (get_text "state" fs) _ _ h7 in
      let whole = some-injective (name, (at, fs)) (state, (epoch, observed)) h8 in
      let (counted, y) =
        &&-eq-true (counts at) (is_integer observed_at)
          (checked (counts at && is_integer observed_at) w e6) in
      let (schema, r1) =
        &&-eq-true (text_is readback_schema (get_field "schema" fs)) _ (checked _ u e5) in
      let (collector, r2) =
        &&-eq-true (text_is trusted.collector_id (get_field "collector_id" fs)) _ r1 in
      let (challenge, r3) = &&-eq-true (text_is nonce (get_field "nonce" fs)) _ r2 in
      let (sized, digits) = &&-eq-true (length (codes nonce) == 32) _ r3 in
      let (digests, agrees) =
        &&-eq-true (text_is (bytes_digest lib.platform packed) (get_field "package_digest" fs)) _
          (checked _ x e7) in
      subst (λ (z : String × (ℕ × Fields)). IsAnswer readback z.0 z.1.0 z.1.1) whole
        (record {
          value = value;
          read = e0;
          signed =
              verify_statement-IsSigned lib readback trusted.public_key payload fs e1
                (exact_keys-eq-some readback_fields payload fs e2);
          of_schema = text_is-eq-true readback_schema (get_field "schema" fs) schema;
          of_collector =
              text_is-eq-true trusted.collector_id (get_field "collector_id" fs) collector;
          of_nonce = text_is-eq-true nonce (get_field "nonce" fs) challenge;
          nonce_length = ground (arith, sized);
          nonce_is_hex = digits;
          of_state = get_text-eq-some "state" name fs e8;
          of_package =
              text_is-eq-true (bytes_digest lib.platform packed) (get_field "package_digest" fs)
                digests;
          of_context = (agree_on-SameAt ("context_digest" ∷ []) fs value agrees).0;
          of_epoch = get_int-eq-some "recovery_epoch" at fs e3;
          epoch_counts = counts-le at counted;
          epoch_is = counts-eq at counted;
        })

  present_parts-found :
      (response observed : Fields) (epoch : ℕ) (ack : String)
      → present_parts lib response observed epoch packed trusted ≡ some (present ack)
      → (acknowledged : Fields) × (text_is
            (bytes_digest lib.platform ack)
            (get_field "ack_digest" observed)
          ≡ true)
        × (verify_ack lib ack packed (record trusted { recovery_epoch = epoch })
            ≡ some acknowledged)
  unfolding present_parts
  present_parts-found response observed epoch ack h =
      let (ack_hex, e0, h0) = bind-eq_some (get_text "ack_bytes" response) _ _ h in
      let (a, e1, h1) = bind-eq_some (bytes_of_hex lib max_evidence ack_hex) _ _ h0 in
      let (package_hex, e2, h2) = bind-eq_some (get_text "package_bytes" response) _ _ h1 in
      let (original, e3, h3) = bind-eq_some (bytes_of_hex lib max_message package_hex) _ _ h2 in
      let (u, e4, h4) =
        bind-eq_some
          (check (
            str_eq original packed
            && text_is (bytes_digest lib.platform a) (get_field "ack_digest" observed)))
          _ _ h3 in
      let (fs, e5, h5) =
        bind-eq_some (verify_ack lib a original (record trusted { recovery_epoch = epoch })) _ _
          h4 in
      let (same_original, digests) = &&-eq-true (str_eq original packed) _ (checked _ u e4) in
      let same : a ≡ ack = ground (arith, h5) in
      let is_packed : original ≡ packed = ground (arith, same_original, eq_iff original packed) in
      (
        fs,
        ap (λ x. text_is (bytes_digest lib.platform x) (get_field "ack_digest" observed)) (sym same)
            ∙ digests,
        ap (λ x. verify_ack lib x packed (record trusted { recovery_epoch = epoch })) (sym same)
            ∙ (ap (λ x. verify_ack lib a x (record trusted { recovery_epoch = epoch }))
                  (sym is_packed)
                ∙ e5),
      )

-- Where a readback is verified as PRESENT: the collector signed, for this nonce of 32 hexadecimal
-- digits, that it has the package in an epoch that is the client's or, where history is admitted, not
-- later; and the acknowledgment that comes with it has the digest in that answer, and is the
-- collector's signed statement on exactly the bytes of the package, of an epoch that is not later.
pub verify_readback-IsInCustody :
    (lib : CollectorLib) (response packed nonce : String) (trusted : Trusted) (historical : Bool)
    (ack : String)
    → verify_readback lib response packed nonce trusted historical ≡ some (present ack)
    → IsInCustody lib packed nonce trusted historical ack
unfolding verify_readback missing_parts
verify_readback-IsInCustody lib response packed nonce trusted historical ack h =
    let (v, e0, h0) = bind-eq_some (load_message lib response) _ _ h in
    let (parts, e1, h1) =
      bind-eq_some (exact_keys ("readback_bytes" ∷ "ack_bytes" ∷ "package_bytes" ∷ []) v) _ _ h0 in
    let (hex, e2, h2) = bind-eq_some (get_text "readback_bytes" parts) _ _ h1 in
    let (readback, e3, h3) = bind-eq_some (bytes_of_hex lib max_evidence hex) _ _ h2 in
    let ((state, (epoch, observed)), e4, h4) =
      bind-eq_some (observed_state lib readback packed nonce trusted historical) _ _ h3 in
    let (is_present, whole) =
      chosen lib packed nonce trusted historical state epoch observed parts ack h4 in
    let (acknowledged, digests, verifies) =
      present_parts-found lib packed nonce trusted historical parts observed epoch ack whole in
    let stated : observed_state lib readback packed nonce trusted historical
        ≡ some ("PRESENT", (epoch, observed)) =
      e4 ∙ ap (λ x. some (x, (epoch, observed))) is_present in
    record {
      readback = readback;
      epoch = epoch;
      observed = observed;
      answer =
          observed_state-IsAnswer lib packed nonce trusted historical readback "PRESENT" epoch
            observed stated;
      of_ack =
          text_is-eq-true (bytes_digest lib.platform ack) (get_field "ack_digest" observed) digests;
      acknowledged = verify_ack-IsAcknowledged lib packed trusted epoch ack acknowledged verifies;
    }
