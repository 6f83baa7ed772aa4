-- ===== src/RecordGate/Envelope.antt =====
-- common.py: strict JSON, digests, signed envelopes and the intent of an operation. `none` is any
-- exception: no caller tells them apart but by the text of a report.
use Prim.Native.String.{◌++◌ as str_append}
use vap_spec.Base.{
  ℕ, ◌*◌, Bool, false, ◌&&◌, ◌||◌, Option, none, some, String, leb, ltb, ◌==◌, str_eq, length, all,
  codes, if◌then◌else◌,
}
use vap_spec.Runtime.Json.{Json, text, dict, end, field, get_field, count_fields}
use vap_spec.Runtime.Request.{is_hex, ◌>>=◌, ◌>>◌, check}

-- What the code takes from rfc8785, Python's json and hashlib, and the `cryptography` package: `dumps`
-- is rfc8785.dumps and `loads` is json.loads, which raises on a duplicate key. Keys, digests and
-- signatures are in hexadecimal.
pub record Jcs : Type 0 where
  pub dumps : Json → Option String
  pub loads : String → Option Json
  pub sha256 : String → String
  pub sign : String → String → String
  pub verifies : String → String → String → Bool

-- value[key]
unfoldable pub get : String → Json → Option Json
get k (dict fs) = get_field k fs
get k _ = none

abbrev pub as_text : Json → Option String
as_text (text s) = some s
as_text _ = none

abbrev pub text_at : String → Json → Option String
text_at k v = get k v >>= as_text

abbrev pub has_text : String → String → Json → Bool
has_text k s v = elim (text_at k v) [ none ↦ false | some t ↦ str_eq t s ]

abbrev pub is_true : Json → Bool
is_true (Json.bool b) = b
is_true _ = false

-- value[key] is True
abbrev pub has_true : String → Json → Bool
has_true k v = elim (get k v) [ none ↦ false | some b ↦ is_true b ]

abbrev pub domain : String
domain = "pre-record-gate-experiment/1\0"

abbrev pub research_domain : String
research_domain = "vap-evidence-research-adapter/1\0"

abbrev pub domain_of : Bool → String
domain_of research = if research then research_domain else domain

-- The part of an envelope that is signed.
abbrev pub unsigned : String → Json → Json
unsigned key_id body =
    dict (field "algorithm" (text "Ed25519") (field "body" body (field "key_id" (text key_id) end)))

abbrev pub is_signature : String → Bool
is_signature s = length (codes s) == 128 && all is_hex (codes s)

abbrev is_id_code : ℕ → Bool
is_id_code c = leb 97 c && leb c 122 || (leb 48 c && leb c 57 || c == 45)

abbrev pub is_operation_id : String → Bool
is_operation_id s = let n = length (codes s) in ltb 0 n && (leb n 80 && all is_id_code (codes s))

module _ (lib : Jcs) where
  -- scope_verifier.crypto.digest
  unfoldable pub digest : Json → Option String
  digest v = lib.dumps v >>= λ raw. some (lib.sha256 raw)

  -- digest(v) == d
  abbrev pub has_digest : String → Json → Bool
  has_digest d v = elim (digest v) [ none ↦ false | some e ↦ str_eq e d ]

  unfoldable pub decode : String → Option Json
  decode raw = do
    check (leb (length (codes raw)) (1024 * 1024))
    value ← lib.loads raw
    canonical ← lib.dumps value
    some value

  -- `sign`
  unfoldable pub sign : Json → String → String → Bool → Option Json
  sign body secret key_id research = lib.dumps (unsigned key_id body) >>= λ raw. some (
      dict (
        field "algorithm" (text "Ed25519") (
          field "body" body (
            field "key_id" (text key_id) (
              field "signature" (text (lib.sign secret (str_append (domain_of research) raw)))
                end)))))

  -- `check`: the body of an envelope.
  unfoldable pub verified_body : Json → String → String → String → Bool → Option Json
  verified_body (dict fs) public_key kind key_id research = do
    check (count_fields fs == 4)
    check (has_text "algorithm" "Ed25519" (dict fs) && has_text "key_id" key_id (dict fs))
    body ← get_field "body" fs
    check (has_text "kind" kind body)
    signature ← text_at "signature" (dict fs)
    raw ← lib.dumps (unsigned key_id body)
    check (
        is_signature signature
        && lib.verifies public_key signature (str_append (domain_of research) raw))
    some body
  verified_body _ public_key kind key_id research = none

  -- `intent`
  unfoldable pub intent : Json → Option Json
  intent (dict fs) = do
    check (count_fields fs == 4)
    operation_id ← text_at "operation_id" (dict fs)
    check (is_operation_id operation_id)
    check (
        has_text "action" "create_record" (dict fs)
        && has_text "target" "sandbox/records" (dict fs))
    args ← get_field "args" fs
    check (elim args [ dict a ↦ count_fields a == 1 | _ ↦ false ])
    argument ← text_at "text" args
    check (ltb 0 (length (codes argument)) && leb (length (codes argument)) 256)
    raw ← lib.dumps (dict fs)
    decode raw
  intent _ = none
