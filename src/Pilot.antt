-- ===== src/Pilot.antt =====
-- experiments/incident-publication-pilot/publication_pilot/protocol.py and the same functions of
-- experiments/incident-erasure-pilot/erasure_pilot/protocol.py: what the local pilots share.
pub mod OneShot
pub mod Journal
pub mod Files
use Prim.Native.String.{◌++◌ as str_append}
use vap_spec.Base.{
  ℕ, ◌*◌, Bool, false, ◌&&◌, ◌||◌, Option, none, some, String, List, [], ◌∷◌, ltb, leb, ◌==◌,
  str_eq, length, all, codes, if◌then◌else◌,
}
use vap_spec.Runtime.Json.{Json, text, dict, end, field, get_field}
use vap_spec.Runtime.Request.{is_hex, ◌>>=◌, ◌>>◌, check}
use vap_spec.Assessor.{InputLib, bounded_json, exact_keys, digest_hex, is_input_text}
use vap_spec.RecordGate.Envelope.{get, as_text}

-- What the pilots take from hashlib and `cryptography`, beside what the assessor takes. Keys, digests and
-- signatures are in hexadecimal, and a text stands for its bytes.
pub record PilotLib : Type 0 where
  pub input : InputLib
  pub open input use *
  pub sha256 : String → String
  pub sign : String → String → String
  pub verifies : String → String → String → Bool

-- MAX_HTML and MAX_OBJECT
abbrev pub max_bytes : ℕ
max_bytes = 1024 * 1024

abbrev is_alphanumeric : ℕ → Bool
is_alphanumeric c = leb 48 c && leb c 57 || (leb 65 c && leb c 90 || leb 97 c && leb c 122)

abbrev is_identifier_code : ℕ → Bool
is_identifier_code c = is_alphanumeric c || (c == 95 || c == 45)

abbrev identifier_codes : List ℕ → Bool
identifier_codes [] = false
identifier_codes (c ∷ cs) = is_alphanumeric c && (leb (length cs) 63 && all is_identifier_code cs)

-- `identifier`: whether it returns.
unfoldable pub identifier : String → Bool
identifier s = identifier_codes (codes s)

-- `_hex`: whether it returns.
unfoldable pub is_sha256 : String → Bool
unfolding digest_hex
is_sha256 s = digest_hex 32 s

abbrev pub byte_length : String → ℕ
byte_length s = length (codes s)

abbrev pub text_is : String → Option Json → Bool
text_is s none = false
text_is s (some v) = elim v [ text t ↦ str_eq t s | _ ↦ false ]

module _ (lib : PilotLib) where
  -- `canonical`
  unfoldable pub canonical : Json → Option String
  canonical v = check (bounded_json v 0) >> lib.dumps v

  -- `digest`
  unfoldable pub digest : Json → Option String
  unfolding canonical
  digest v = canonical v >>= λ raw. some (lib.sha256 raw)

  -- digest(v) == digest(w), where none raises
  unfoldable pub same_digest : Json → Json → Bool
  unfolding digest
  same_digest v w = elim (digest v) [
    | none ↦ false
    | some d ↦ (elim (digest w) [ none ↦ false | some e ↦ str_eq d e ])
  ]

  -- `timestamp`
  unfoldable pub timestamp : String → Option ℕ
  unfolding is_input_text
  timestamp s = check (is_input_text lib.input s) >> lib.instant s

  abbrev pub unsigned : Json → String → Json
  unsigned body key_id =
      dict
        (field "algorithm" (text "Ed25519") (field "key_id" (text key_id) (field "body" body end)))

  -- `_sign`, with the prefix of what is signed
  unfoldable pub sign_message : String → Json → String → String → Option Json
  unfolding canonical digest_hex is_input_text
  sign_message prefix body secret key_id = do
    check (digest_hex 32 secret && is_input_text lib.input key_id)
    raw ← canonical (unsigned body key_id)
    some (
        dict (
          field "algorithm" (text "Ed25519") (
            field "key_id" (text key_id) (
              field "body" body
                (field "signature" (text (lib.sign secret (str_append prefix raw))) end)))))

  -- `_verify`: the body of an envelope.
  unfoldable pub verify_message : String → Json → String → String → String → Option Json
  unfolding canonical
  verify_message prefix envelope public key_id kind = do
    fs ← exact_keys ("algorithm" ∷ "key_id" ∷ "body" ∷ "signature" ∷ []) envelope
    check (text_is "Ed25519" (get_field "algorithm" fs) && text_is key_id (get_field "key_id" fs))
    body ← get_field "body" fs
    check (text_is kind (get "kind" body))
    given ← get_field "signature" fs
    signature ← as_text given
    check (digest_hex 32 public && digest_hex 64 signature)
    raw ← canonical (unsigned body key_id)
    check (lib.verifies public signature (str_append prefix raw))
    some body
