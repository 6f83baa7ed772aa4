-- ===== src/Tests/Trusts.antt =====
-- model.py with a trust configuration of two keys.
use vap_spec.Base.{ℕ, codes, ◌≡◌, refl, false, Option, none, some, String, List, [], ◌∷◌}
use vap_spec.Runtime.Json.{
  Json, text, list, dict, nil, cons, end, field, count_fields, count_items, get_field,
}
use vap_spec.Gate.Policy.{member, distinct, lookup}
use vap_spec.Assessor.{
  InputLib, TrustKey, bounded_json, exact_keys, digest_hex, is_input_text, strings, is_choice,
  trust_key, fits, trust_keys, validate_trust,
}
use vap_spec.Assessor.Identities.{AllAgree, validate_trust-AllAgree}

abbrev hash : String
hash = "0123456789abcdef0123456789abcdef0123456789abcdef0123456789abcdef"

-- The instant of a timestamp is its first character here.
abbrev first_code : List ℕ → Option ℕ
first_code [] = none
first_code (c ∷ rest) = some c

abbrev input_lib : InputLib
input_lib = record {
  dumps = λ v. some "doc";
  is_blank = λ s. false;
  instant = λ s. first_code (codes s);
}

abbrev key_json : String → Json
key_json issuer = dict (
    field "issuer" (text issuer) (
      field "not_after" (text "9") (
        field "not_before" (text "1") (
          field "organization" (text "Acme") (
            field "public_key" (text hash)
              (field "roles" (list (cons (text "policy") nil)) end))))))

abbrev trust_json : Json
trust_json = dict (
    field "as_of" (text "5") (
      field "evaluation_id" (text "e1") (
        field "format" (text "incident-evidence-trust/0.1") (
          field "keys" (dict (field "k1" (key_json "desk") (field "k2" (key_json "desk") end))) (
            field "mode" (text "synthetic-test-only")
              (field "target_sha256" (text hash) (field "workflow" (text "transfer") end)))))))

abbrev desk_key : TrustKey
desk_key = record { public_key = hash; issuer = "desk"; organization = "Acme" }

trust_is_valid : validate_trust input_lib trust_json ≡ some (desk_key ∷ desk_key ∷ [])
unfolding validate_trust trust_keys trust_key fits is_choice strings is_input_text digest_hex
    exact_keys bounded_json lookup member distinct count_fields count_items get_field
trust_is_valid = refl

validate_trust-AllAgree_example : AllAgree (desk_key ∷ desk_key ∷ [])
validate_trust-AllAgree_example =
    validate_trust-AllAgree input_lib trust_json (desk_key ∷ desk_key ∷ []) trust_is_valid
