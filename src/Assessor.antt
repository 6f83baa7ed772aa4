-- ===== src/Assessor.antt =====
-- experiments/incident-evidence-assessor/incident_assessor/model.py: strict tests on input values, and
-- the trust configuration of an evaluator.
pub mod Identities
use vap_spec.Base.{
  ℕ, suc, ◌+◌, Bool, true, false, not, ◌&&◌, ◌||◌, Option, none, some, String, List, [], ◌∷◌, leb,
  ltb, ◌==◌, str_eq, length, all, codes, if◌then◌else◌,
}
use vap_spec.Runtime.Json.{
  Json, null, bool, int, negative, text, list, dict, Items, nil, cons, Fields, end, field,
  get_field, count_items, count_fields,
}
use vap_spec.Runtime.Request.{is_hex, ◌>>=◌, ◌>>◌, check}
use vap_spec.Gate.Policy.{member, distinct, lookup}
use vap_spec.RecordGate.Envelope.{get, as_text}
use vap_spec.RecordGate.Authority.{text_items}

-- What the code takes from Python and rfc8785: `dumps` is rfc8785.dumps, `is_blank` whether
-- str.strip leaves nothing, and `instant` the time that a timestamp denotes, where re and datetime
-- accept it.
pub record InputLib : Type 0 where
  pub dumps : Json → Option String
  pub is_blank : String → Bool
  pub instant : String → Option ℕ

abbrev pub max_input_items : ℕ
max_input_items = 10000

unfoldable mutual
  pub bounded_json : Json → ℕ → Bool
  bounded_json (dict fs) depth =
      leb depth 64 && (leb (count_fields fs) max_input_items && bounded_fields fs (depth + 1))
  bounded_json (list xs) depth =
      leb depth 64 && (leb (count_items xs) max_input_items && bounded_items xs (depth + 1))
  bounded_json null depth = leb depth 64
  bounded_json (bool b) depth = leb depth 64
  bounded_json (int n) depth = leb depth 64
  bounded_json (negative n) depth = leb depth 64
  bounded_json (text s) depth = leb depth 64

  pub bounded_items : Items → ℕ → Bool
  bounded_items nil depth = true
  bounded_items (cons v rest) depth = bounded_json v depth && bounded_items rest depth

  pub bounded_fields : Fields → ℕ → Bool
  bounded_fields end depth = true
  bounded_fields (field k v rest) depth = bounded_json v depth && bounded_fields rest depth

abbrev has_all : List String → Fields → Bool
has_all [] fs = true
has_all (k ∷ rest) fs = (elim (get_field k fs) [ none ↦ false | some v ↦ true ]) && has_all rest fs

abbrev only : List String → Fields → Bool
only allowed end = true
only allowed (field k v rest) = member k allowed && only allowed rest

-- `exact_keys`, without optional keys
unfoldable pub exact_keys : List String → Json → Option Fields
exact_keys required (dict fs) = check (has_all required fs && only required fs) >> some fs
exact_keys required _ = none

-- `digest_hex`
unfoldable pub digest_hex : ℕ → String → Bool
digest_hex size s = length (codes s) == size + size && all is_hex (codes s)

-- A key of the trust configuration.
pub record TrustKey : Type 0 where
  pub public_key : String
  pub issuer : String
  pub organization : String

abbrev pub roles : List String
roles =
    "policy" ∷ "gateway" ∷ "collector" ∷ "provider" ∷ "author" ∷ "reviewer" ∷ "responder"
    ∷ "recipient" ∷ []

abbrev pub workflows : List String
workflows = "transfer" ∷ "erasure" ∷ "publication" ∷ "incident_response" ∷ "cross_party" ∷ []

abbrev pub trust_fields : List String
trust_fields =
    "format" ∷ "evaluation_id" ∷ "workflow" ∷ "as_of" ∷ "target_sha256" ∷ "mode" ∷ "keys" ∷ []

abbrev pub trust_formats : List String
trust_formats = "incident-evidence-trust/0.1" ∷ []

abbrev pub trust_modes : List String
trust_modes = "synthetic-test-only" ∷ "explicit-evaluator" ∷ []

module _ (lib : InputLib) where
  -- `text`
  unfoldable pub is_input_text : String → Bool
  is_input_text s = not (lib.is_blank s) && leb (length (codes s)) 16384

  abbrev pub text_of : String → Fields → Option String
  text_of k fs = do v ← get_field k fs; s ← as_text v; check (is_input_text s); some s

  -- `strings`
  unfoldable pub strings : Json → Option (List String)
  strings (list xs) = do
    check (leb (count_items xs) max_input_items)
    ss ← text_items xs
    check (all is_input_text ss && distinct ss)
    some ss
  strings _ = none

  -- `enum`
  unfoldable pub is_choice : List String → String → Bool
  is_choice choices s = is_input_text s && member s choices

  abbrev pub choice_of : List String → String → Fields → Option String
  choice_of choices k fs = do v ← get_field k fs; s ← as_text v; check (is_choice choices s); some s

  abbrev pub time_of : String → Fields → Option ℕ
  time_of k fs = do s ← text_of k fs; lib.instant s

  abbrev pub hex_of : String → Fields → Option String
  hex_of k fs = do v ← get_field k fs; s ← as_text v; check (digest_hex 32 s); some s

  -- The tests on one key.
  unfoldable pub trust_key : Json → Option TrustKey
  trust_key key = do
    fs ←
        exact_keys
          ("public_key" ∷ "issuer" ∷ "organization" ∷ "roles" ∷ "not_before" ∷ "not_after" ∷ []) key
    public_key ← hex_of "public_key" fs
    issuer ← text_of "issuer" fs
    organization ← text_of "organization" fs
    given ← get_field "roles" fs
    held ← strings given
    check (all (is_choice roles) held)
    not_before ← time_of "not_before" fs
    not_after ← time_of "not_after" fs
    check (ltb not_before not_after)
    some (record { public_key = public_key; issuer = issuer; organization = organization })

  -- Whether a key fits those before it, by public key and by issuer.
  unfoldable pub fits : TrustKey → List (String × (String × String)) → List (String × String) → Bool
  fits k identities organizations =
      (elim (lookup k.public_key identities) [
        | none ↦ true
        | some (issuer, organization) ↦ str_eq issuer k.issuer && str_eq organization k.organization
      ])
      && (elim (lookup k.issuer organizations) [
        | none ↦ true
        | some organization ↦ str_eq organization k.organization
      ])

  -- The loop over the keys: those that it went over.
  unfoldable pub trust_keys :
      Fields → List (String × (String × String)) → List (String × String) → Option (List TrustKey)
  trust_keys end identities organizations = some []
  trust_keys (field key_id key rest) identities organizations = do
    check (is_input_text key_id)
    k ← trust_key key
    check (fits k identities organizations)
    more ←
        trust_keys rest ((k.public_key, (k.issuer, k.organization)) ∷ identities)
          ((k.issuer, k.organization) ∷ organizations)
    some (k ∷ more)

  abbrev pub dict_of : String → Fields → Option Fields
  dict_of k fs = get_field k fs >>= λ v. elim v [ dict d ↦ some d | _ ↦ none ]

  -- `validate_trust`: the keys, where it returns.
  unfoldable pub validate_trust : Json → Option (List TrustKey)
  validate_trust trust = do
    check (bounded_json trust 0)
    raw ← lib.dumps trust
    fs ← exact_keys trust_fields trust
    format ← choice_of trust_formats "format" fs
    evaluation_id ← text_of "evaluation_id" fs
    workflow ← choice_of workflows "workflow" fs
    as_of ← time_of "as_of" fs
    target ← hex_of "target_sha256" fs
    mode ← choice_of trust_modes "mode" fs
    keys ← dict_of "keys" fs
    check (leb (count_fields keys) max_input_items)
    trust_keys keys [] []
