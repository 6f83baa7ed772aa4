-- ===== src/Collector/Signed.antt =====
-- payment_collector.py: a statement that is signed is verified.
use mathlib.Core.Path.{subst}
use Prim.Native.String.{◌++◌ as str_append}
use vap_spec.Base.{
  ◌≡◌, refl, sym, ap, ◌∙◌, true, some, String, eq_refl, leb, ◌==◌, arith, length, codes,
}
use vap_spec.Runtime.Json.{Json, dict, Fields, get_field}
use vap_spec.Gate.Policy.{member}
use vap_spec.RecordGate.Audit.Once.{bind-eq_some}
use vap_spec.Assessor.{exact_keys}
use vap_spec.Collector.{
  CollectorLib, domain, max_message, canonical_message, load_message, envelope_json, is_signature,
  sign_statement, verify_statement,
}

module _ (lib : CollectorLib) where
  canonical_message-eq-some :
      (v : Json) (raw : String)
      → canonical_message lib v ≡ some raw
      → (raw ≡ lib.platform.json.dumps v) × (leb (length (codes raw)) max_message ≡ true)
  unfolding canonical_message
  canonical_message-eq-some v raw h = ground (arith, h)

  -- A value that json.loads reads back is loaded from its canonical bytes.
  load_message-canonical :
      (v : Json) (raw : String)
      → canonical_message lib v ≡ some raw
      → lib.platform.json.loads (lib.platform.json.dumps v) ≡ some v
      → load_message lib raw ≡ some v
  unfolding load_message
  load_message-canonical v raw h reads =
      let (is_dump, fits) = canonical_message-eq-some v raw h in
      let loaded : lib.platform.json.loads raw ≡ some v =
        ap lib.platform.json.loads is_dump ∙ reads in
      ground (arith, h, fits, loaded)

-- The envelope that `sign_statement` makes.
abbrev pub signed_envelope : CollectorLib → Fields → String → Json
signed_envelope lib payload private_key =
    envelope_json lib (dict payload)
      (lib.platform.sign private_key (str_append domain (lib.platform.json.dumps (dict payload))))

-- A statement on a dict that was signed is verified under the key that verifies the signatures, and
-- gives the statement back, where signatures have their shape and json.loads reads the envelope back
-- from its canonical bytes.
pub verify_statement-sign_statement :
    (lib : CollectorLib) (payload : Fields) (private_key public_key raw : String)
    → lib.platform.json.loads (lib.platform.json.dumps (signed_envelope lib payload private_key))
      ≡ some (signed_envelope lib payload private_key)
    → ((message : String) → is_signature lib (lib.platform.sign private_key message) ≡ true)
    → ((message : String)
        → lib.platform.verifies public_key (lib.platform.sign private_key message) message ≡ true)
    → (length (codes public_key) == 64) ≡ true
    → sign_statement lib (dict payload) private_key ≡ some raw
    → verify_statement lib raw public_key ≡ some (dict payload)
unfolding sign_statement verify_statement exact_keys member get_field
verify_statement-sign_statement lib payload private_key public_key raw reads shapes verifies key h =
    let (signed, e0, h0) = bind-eq_some (canonical_message lib (dict payload)) _ _ h in
    let (is_dump, fits) = canonical_message-eq-some lib (dict payload) signed e0 in
    let envelope =
      envelope_json lib (dict payload) (lib.platform.sign private_key (str_append domain signed)) in
    let same : signed_envelope lib payload private_key ≡ envelope =
      ap
        (λ x.
          envelope_json lib (dict payload) (lib.platform.sign private_key (str_append domain x)))
        (sym is_dump) in
    let loaded =
      load_message-canonical lib envelope raw h0
        (subst (λ v. lib.platform.json.loads (lib.platform.json.dumps v) ≡ some v) same reads) in
    let shape = shapes (str_append domain signed) in
    let verified = verifies (str_append domain signed) in
    rw (key, loaded, h0, eq_refl raw, shape, e0, verified) refl
