-- ===== src/Collector/Acknowledged.antt =====
-- payment_collector.py: what a verified statement and a verified acknowledgment establish.
use Prim.Native.String.{◌++◌ as str_append}
use vap_spec.Base.{
  Option, none, length, codes, All, inl, inr, Option-cases, ℕ, ◌≡◌, ◌≤◌, refl, sym, ap, ◌∙◌, Bool,
  true, false, ◌&&◌, some, String, List, [], ◌∷◌, str_eq, eq_iff, leb, leb→le, ◌==◌, arith,
  &&-eq-true,
}
use vap_spec.Runtime.Json.{Json, text, int, dict, Fields, get_field}
use vap_spec.Runtime.Request.{is_integer, check, get_text, get_int}
use vap_spec.Runtime.Receipt.{bytes_digest}
use vap_spec.RecordGate.Audit.Once.{bind-eq_some}
use vap_spec.RecordGate.Envelope.{get}
use vap_spec.Assessor.{exact_keys}
use vap_spec.Collector.{
  CollectorLib, text_is, json_eq, domain, binding_fields, as_dict, is_signature, canonical_message,
  load_message, verify_statement,
}
use vap_spec.Collector.Custody.{Trusted, verify_ack, ack_schema, agree_on}

pub checked : (b : Bool) (u : Unit) → check b ≡ some u → b ≡ true
checked true u h = refl
checked false u h = absurd cc

pub some-injective : {A : Type 0} (a b : A) → some a ≡ some b → a ≡ b
some-injective a b h = cc

pub get_text-eq-some :
    (k s : String) (fs : Fields) → get_text k fs ≡ some s → get_field k fs ≡ some (text s)
get_text-eq-some k s fs h = ground (arith, h)

pub get_int-eq-some :
    (k : String) (n : ℕ) (fs : Fields) → get_int k fs ≡ some n → get_field k fs ≡ some (int n)
get_int-eq-some k n fs h = ground (arith, h)

pub text_is-eq-true : (s : String) (o : Option Json) → text_is s o ≡ true → o ≡ some (text s)
text_is-eq-true s none h = absurd cc
text_is-eq-true s (some (text t)) h = ground (arith, h, eq_iff t s)
text_is-eq-true s (some v) h = absurd cc

pub exact_keys-eq-some :
    (ks : List String) (v : Json) (fs : Fields) → exact_keys ks v ≡ some fs → v ≡ dict fs
unfolding exact_keys
exact_keys-eq-some ks (dict gs) fs h = ground (arith, h)
exact_keys-eq-some ks v fs h = absurd cc

-- Both have a value at the key, and the values are the same.
pub record SameAt (fs : Fields) (value : Json) (k : String) : Type 0 where
  pub left : Json
  pub right : Json
  pub of_fields : get_field k fs ≡ some left
  pub of_value : get k value ≡ some right
  pub same : json_eq left right ≡ true

pub agree_on-SameAt :
    (ks : List String) (fs : Fields) (value : Json)
    → agree_on ks fs value ≡ true
    → All (SameAt fs value) ks
agree_on-SameAt [] fs value h = tt
agree_on-SameAt (k ∷ ks) fs value h = elim (Option-cases (get_field k fs)) [
  | inl gone ↦ absurd (ground (arith, h, gone))
  | inr (v, there) ↦ elim (Option-cases (get k value)) [
    | inl gone ↦ absurd (ground (arith, h, there, gone))
    | inr (w, here) ↦ (
      record {
        left = v;
        right = w;
        of_fields = there;
        of_value = here;
        same = ground (arith, h, there, here);
      },
      agree_on-SameAt ks fs value (ground (arith, h, there, here)),
    )
  ]
]

-- The bytes hold a payload with a signature that verifies under the key, in the collector's domain.
pub record IsSigned (lib : CollectorLib) (public_key raw : String) (payload : Fields) : Type 0 where
  pub body : Json
  pub signature : String
  pub message : String
  pub read : load_message lib raw ≡ some body
  pub holds : get "payload" body ≡ some (dict payload)
  pub signs : get "signature" body ≡ some (text signature)
  pub written : canonical_message lib (dict payload) ≡ some message
  pub verifies : lib.platform.verifies public_key signature (str_append domain message) ≡ true

pub verify_statement-IsSigned :
    (lib : CollectorLib) (raw public_key : String) (payload : Json) (entries : Fields)
    → verify_statement lib raw public_key ≡ some payload
    → payload ≡ dict entries
    → IsSigned lib public_key raw entries
unfolding verify_statement get
verify_statement-IsSigned lib raw public_key payload entries h shape =
    let (u0, e0, h0) = bind-eq_some (check (length (codes public_key) == 64)) _ _ h in
    let (body, e1, h1) = bind-eq_some (load_message lib raw) _ _ h0 in
    let (fs, e2, h2) = bind-eq_some (exact_keys ("payload" ∷ "signature" ∷ []) body) _ _ h1 in
    let (canonical, e3, h3) = bind-eq_some (canonical_message lib body) _ _ h2 in
    let (u4, e4, h4) = bind-eq_some (check (str_eq canonical raw)) _ _ h3 in
    let (given, e5, h5) = bind-eq_some (get_field "payload" fs) _ _ h4 in
    let (parts, e6, h6) = bind-eq_some (as_dict lib given) _ _ h5 in
    let (signature, e7, h7) = bind-eq_some (get_text "signature" fs) _ _ h6 in
    let (u8, e8, h8) = bind-eq_some (check (is_signature lib signature)) _ _ h7 in
    let (message, e9, h9) = bind-eq_some (canonical_message lib given) _ _ h8 in
    let (u10, e10, h10) =
      bind-eq_some (check (lib.platform.verifies public_key signature (str_append domain message)))
        _ _ h9 in
    let same : given ≡ dict entries = some-injective given payload h10 ∙ shape in
    let is_dict = exact_keys-eq-some ("payload" ∷ "signature" ∷ []) body fs e2 in
    record {
      body = body;
      signature = signature;
      message = message;
      read = e1;
      holds = ap (get "payload") is_dict ∙ (e5 ∙ ap some same);
      signs = ap (get "signature") is_dict ∙ get_text-eq-some "signature" signature fs e7;
      written = ap (canonical_message lib) (sym same) ∙ e9;
      verifies = checked _ u10 e10;
    }

module _ (lib : CollectorLib) (packed : String) (trusted : Trusted) where
  -- The bytes are the collector's signed statement, of an epoch up to a bound, that it has stored
  -- exactly the package.
  pub record IsAcknowledged (epoch : ℕ) (ack : String) : Type 0 where
    pub value : Json
    pub fields : Fields
    pub stored_in : ℕ
    pub read : load_message lib packed ≡ some value
    pub signed : IsSigned lib trusted.public_key ack fields
    pub of_schema : get_field "schema" fields ≡ some (text ack_schema)
    pub of_collector : get_field "collector_id" fields ≡ some (text trusted.collector_id)
    pub of_package :
        get_field "package_digest" fields ≡ some (text (bytes_digest lib.platform packed))
    pub of_epoch : get_field "storage_epoch" fields ≡ some (int stored_in)
    pub epoch_counts : stored_in ≤ epoch
    pub agrees : All (SameAt fields value) binding_fields

  abbrev ack_fields : List String
  ack_fields =
      "schema" ∷ "collector_id" ∷ "storage_epoch" ∷ "recorded_at_ms" ∷ "package_digest"
      ∷ binding_fields

  abbrev is_ack : ℕ → Fields → ℕ → ℕ → Bool
  is_ack bound fs storage_epoch recorded_at_ms =
      text_is ack_schema (get_field "schema" fs)
      && (text_is trusted.collector_id (get_field "collector_id" fs)
          && (is_integer storage_epoch && (leb storage_epoch bound && is_integer recorded_at_ms)))

  pub verify_ack-IsAcknowledged :
      (epoch : ℕ) (ack : String) (fields : Fields)
      → verify_ack lib ack packed (record trusted { recovery_epoch = epoch }) ≡ some fields
      → IsAcknowledged epoch ack
  unfolding verify_ack
  verify_ack-IsAcknowledged epoch ack fields h =
      let (value, e0, h0) = bind-eq_some (load_message lib packed) _ _ h in
      let (payload, e1, h1) = bind-eq_some (verify_statement lib ack trusted.public_key) _ _ h0 in
      let (fs, e2, h2) = bind-eq_some (exact_keys ack_fields payload) _ _ h1 in
      let (stored, e3, h3) = bind-eq_some (get_int "storage_epoch" fs) _ _ h2 in
      let (recorded, e4, h4) = bind-eq_some (get_int "recorded_at_ms" fs) _ _ h3 in
      let (u5, e5, h5) = bind-eq_some (check (is_ack epoch fs stored recorded)) _ _ h4 in
      let (u6, e6, h6) =
        bind-eq_some
          (check (
            text_is (bytes_digest lib.platform packed) (get_field "package_digest" fs)
            && agree_on binding_fields fs value))
          _ _ h5 in
      let (schema, rest) =
        &&-eq-true (text_is ack_schema (get_field "schema" fs)) _ (checked _ u5 e5) in
      let (collector, counts) =
        &&-eq-true (text_is trusted.collector_id (get_field "collector_id" fs)) _ rest in
      let (digests, agrees) =
        &&-eq-true (text_is (bytes_digest lib.platform packed) (get_field "package_digest" fs)) _
          (checked _ u6 e6) in
      record {
        value = value;
        fields = fs;
        stored_in = stored;
        read = e0;
        signed =
            verify_statement-IsSigned lib ack trusted.public_key payload fs e1
              (exact_keys-eq-some ack_fields payload fs e2);
        of_schema = text_is-eq-true ack_schema (get_field "schema" fs) schema;
        of_collector = text_is-eq-true trusted.collector_id (get_field "collector_id" fs) collector;
        of_package =
            text_is-eq-true (bytes_digest lib.platform packed) (get_field "package_digest" fs)
              digests;
        of_epoch = get_int-eq-some "storage_epoch" stored fs e3;
        epoch_counts = ground (arith, counts, leb→le stored epoch);
        agrees = agree_on-SameAt binding_fields fs value agrees;
      }
