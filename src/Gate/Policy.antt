-- ===== src/Gate/Policy.antt =====
-- authorization_gate.py: the configured policy, keys and identities.
use vap_spec.Base.{
  ℕ, Bool, true, false, not, ◌&&◌, ◌||◌, Option, none, some, String, List, [], ◌∷◌, leb, ltb,
  str_eq, length, all, if◌then◌else◌,
}
use vap_spec.Runtime.Request.{Context, valid_context, is_text, is_hash, is_integer}

pub record Policy : Type 0 where
  pub schema : String
  pub policy_id : String
  pub version : String
  pub context : Context
  pub principal_id : String
  pub credential_id : String
  pub configuration_digest : String
  pub recovery_epoch : ℕ
  pub allowed_sources : List String
  pub allowed_beneficiaries : List String
  pub max_amount_minor : ℕ
  pub valid_from_ms : ℕ
  pub valid_until_ms : ℕ

pub record PersonIdentity : Type 0 where
  pub person_id : String
  pub roles : List String
  pub tenant : String
  pub environment : String
  pub api_audience : String
  pub idempotency_domain : String
  pub valid_from_ms : ℕ
  pub valid_until_ms : ℕ

-- value in items
unfoldable pub member : String → List String → Bool
member s [] = false
member s (t ∷ rest) = str_eq t s || member s rest

-- len(value) == len(set(value))
unfoldable pub distinct : List String → Bool
distinct [] = true
distinct (s ∷ rest) = not (member s rest) && distinct rest

-- `_texts`
unfoldable pub are_texts : List String → Bool
are_texts xs = leb (length xs) 64 && (all is_text xs && distinct xs)

-- A dictionary with text keys.
unfoldable pub lookup {ℓ} : {V : Type ℓ} → String → List (String × V) → Option V
lookup k [] = none
lookup k ((j, v) ∷ rest) = if str_eq j k then some v else lookup k rest

-- `_policy`: whether it returns, for a policy that has its fields; `max_amount_minor` is read from
-- its decimal text before.
unfoldable pub valid_policy : Policy → Bool
valid_policy v =
    str_eq v.schema "synthetic-payment-admission-policy-v0"
    && (is_text v.policy_id
        && (is_text v.version
            && (is_text v.principal_id
                && (is_text v.credential_id
                    && (is_hash v.configuration_digest
                        && (is_integer v.recovery_epoch
                            && (are_texts v.allowed_sources
                                && (are_texts v.allowed_beneficiaries
                                    && (is_integer v.valid_from_ms
                                        && (is_integer v.valid_until_ms
                                            && (ltb v.valid_from_ms v.valid_until_ms
                                                && valid_context v.context)))))))))))

abbrev is_role : String → Bool
is_role r = str_eq r "maker" || str_eq r "checker"

abbrev some_role : List String → Bool
some_role [] = false
some_role (r ∷ rest) = true

-- `_identity_manifest`: the tests on one identity.
unfoldable pub valid_identity : PersonIdentity → Bool
valid_identity v =
    is_text v.person_id
    && (are_texts v.roles
        && (some_role v.roles
            && (all is_role v.roles
                && (is_text v.tenant
                    && (is_text v.environment
                        && (is_text v.api_audience
                            && (is_text v.idempotency_domain
                                && (is_integer v.valid_from_ms
                                    && (is_integer v.valid_until_ms
                                        && ltb v.valid_from_ms v.valid_until_ms)))))))))

-- What an admission is decided under: the policy and its digest, the public keys of the two roles
-- and the identities by public key.
pub record GateConfig : Type 0 where
  pub policy : Policy
  pub policy_digest : String
  pub approvers : List (String × String)
  pub status_authorities : List (String × String)
  pub identities : List (String × PersonIdentity)
  pub max_status_age_ms : ℕ
