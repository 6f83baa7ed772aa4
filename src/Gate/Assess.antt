-- ===== src/Gate/Assess.antt =====
-- authorization_gate.py: `_assess`, the decision on a new claim, with its findings in the order of
-- the code.
pub mod Admissible
pub mod Meaning
use Prim.Native.String.{◌++◌ as str_append}
use vap_spec.Base.{
  ℕ, ◌-◌, Bool, true, false, not, ◌&&◌, Option, none, some, String, List, [], ◌∷◌, leb, ltb, ◌==◌,
  str_eq, if◌then◌else◌,
}
use vap_spec.Runtime.Json.{Json}
use vap_spec.Runtime.Outcome.{Decision}
use vap_spec.Runtime.Request.{Context, Request, Prepared}
use vap_spec.Runtime.Receipt.{Platform, bytes_digest}
use vap_spec.Gate.Findings.{Findings, clear, ◌⊕◌, require, available, result}
use vap_spec.Gate.Policy.{Policy, PersonIdentity, GateConfig, member, lookup}
use vap_spec.Gate.Evidence.{
  Slot, maker_approval, checker_approval, final_status, because, slot_name, EvidenceBytes, at_slot,
  Approval, approval_shape, CredentialState, active, revoked, undetermined, CredentialStatus,
  status_shape, Checked, unusable, signed, verified,
}

-- The findings on the policy.
unfoldable pub assess_policy : Policy → Request → ℕ → Findings
assess_policy v r at_ms =
    let c = v.context in
    require (leb v.valid_from_ms at_ms && ltb at_ms v.valid_until_ms)
      "policy:outside_validity_window"
    ⊕ require (str_eq r.tenant c.tenant) "policy:tenant_mismatch"
    ⊕ require (str_eq r.environment c.environment) "policy:environment_mismatch"
    ⊕ require (str_eq r.api_audience c.api_audience) "policy:api_audience_mismatch"
    ⊕ require (str_eq r.idempotency_domain c.idempotency_domain)
        "policy:idempotency_domain_mismatch"
    ⊕ require (str_eq r.currency c.currency) "policy:currency_mismatch"
    ⊕ require (r.minor_unit_scale == c.minor_unit_scale) "policy:minor_unit_scale_mismatch"
    ⊕ require (str_eq r.configuration_digest v.configuration_digest)
        "policy:configuration_digest_mismatch"
    ⊕ require (r.recovery_epoch == v.recovery_epoch) "policy:recovery_epoch_mismatch"
    ⊕ require (member r.source_account v.allowed_sources) "policy:source_not_allowed"
    ⊕ require (member r.beneficiary v.allowed_beneficiaries) "policy:beneficiary_not_allowed"
    ⊕ require (leb r.amount_minor v.max_amount_minor) "policy:amount_limit_exceeded"

unfoldable pub assess_identity : Slot → String → Request → ℕ → Approval → PersonIdentity → Findings
assess_identity slot role r at_ms approval who =
    require (member role who.roles) (because slot ":role_ineligible")
    ⊕ require (str_eq who.tenant r.tenant) (because slot ":identity_tenant_mismatch")
    ⊕ require (str_eq who.environment r.environment) (because slot ":identity_environment_mismatch")
    ⊕ require (str_eq who.api_audience r.api_audience)
        (because slot ":identity_api_audience_mismatch")
    ⊕ require (str_eq who.idempotency_domain r.idempotency_domain)
        (because slot ":identity_idempotency_domain_mismatch")
    ⊕ require
        (leb who.valid_from_ms approval.issued_at_ms
          && ltb approval.issued_at_ms who.valid_until_ms)
        (because slot ":identity_not_eligible_at_issuance")
    ⊕ require (leb who.valid_from_ms at_ms && ltb at_ms who.valid_until_ms)
        (because slot ":identity_not_eligible_at_admission")

-- The findings on an approval itself.
unfoldable pub assess_statement : Slot → String → String → ℕ → Approval → Findings
assess_statement slot policy_digest d at_ms approval =
    require (str_eq approval.request_digest d) (because slot ":request_digest_mismatch")
    ⊕ require (str_eq approval.policy_digest policy_digest) (because slot ":policy_digest_mismatch")
    ⊕ require (ltb approval.issued_at_ms approval.expires_at_ms) (because slot ":invalid_window")
    ⊕ require (leb approval.issued_at_ms at_ms && ltb at_ms approval.expires_at_ms)
        (because slot ":outside_validity_window")

abbrev pub assess_signer : Slot → String → Request → ℕ → Approval → Option PersonIdentity → Findings
assess_signer slot role r at_ms approval none =
    available false (because slot ":configured_identity_missing")
assess_signer slot role r at_ms approval (some who) = assess_identity slot role r at_ms approval who

abbrev pub problem {ℓ} : {A : Type ℓ} → Checked A → Findings
problem (unusable reason) = available false reason
problem (signed a public) = clear

-- A CURRENT STATUS
abbrev pub assess_state : ℕ → CredentialStatus → CredentialState → Option ℕ → Findings
assess_state at_ms s revoked none = available false "final_status:revocation_time_missing"
assess_state at_ms s revoked (some t) =
    require (leb t s.observed_at_ms) "final_status:revocation_after_observation"
    ⊕ require (ltb at_ms t) "final_status:credential_revoked"
assess_state at_ms s active none = clear
assess_state at_ms s active (some t) = require false "final_status:contradictory_revocation_time"
assess_state at_ms s undetermined none = available false "final_status:active_state_not_supplied"
assess_state at_ms s undetermined (some t) =
    require false "final_status:contradictory_revocation_time"
    ⊕ available false "final_status:active_state_not_supplied"

-- `fresh`
unfoldable pub is_fresh : ℕ → ℕ → CredentialStatus → Bool
is_fresh max_age at_ms s =
    leb s.observed_at_ms at_ms
    && (ltb at_ms s.valid_until_ms && leb (at_ms - s.observed_at_ms) max_age)

unfoldable pub assess_freshness : ℕ → ℕ → CredentialStatus → Findings
assess_freshness max_age at_ms s =
    require (ltb s.observed_at_ms s.valid_until_ms) "final_status:invalid_window"
    ⊕ available (is_fresh max_age at_ms s) "final_status:missing_current_freshness"
    ⊕ (if is_fresh max_age at_ms s then assess_state at_ms s s.state s.revoked_at_ms else clear)

unfoldable pub assess_subject : Policy → String → String → CredentialStatus → Findings
assess_subject v policy_digest d s =
    require (str_eq s.request_digest d) "final_status:request_digest_mismatch"
    ⊕ require (str_eq s.policy_digest policy_digest) "final_status:policy_digest_mismatch"
    ⊕ require (str_eq s.principal_id v.principal_id) "final_status:principal_id_mismatch"
    ⊕ require (str_eq s.credential_id v.credential_id) "final_status:credential_id_mismatch"
    ⊕ require (str_eq s.configuration_digest v.configuration_digest)
        "final_status:configuration_digest_mismatch"
    ⊕ require (s.recovery_epoch == v.recovery_epoch) "final_status:recovery_epoch_mismatch"

-- The digest of the bytes in a slot; a slot whose envelope was verified has bytes.
abbrev pub evidence_digest : Platform → EvidenceBytes → Slot → String
evidence_digest p e slot = elim (at_slot slot e) [ none ↦ "" | some raw ↦ bytes_digest p raw ]

unfoldable pub assess_referent :
    Platform → EvidenceBytes → Slot → String → CredentialStatus → Checked Approval → Findings
assess_referent p e slot named s (unusable reason) =
    available false (str_append "final_status:" (because slot "_referent_unverifiable"))
assess_referent p e slot named s (signed approval public) =
    require (str_eq named (evidence_digest p e slot))
      (str_append "final_status:" (because slot "_digest_mismatch"))
    ⊕ require (leb approval.issued_at_ms s.observed_at_ms)
        (str_append "final_status:precedes_" (slot_name slot))

unfoldable pub differ : Option String → Option String → String → Findings
differ (some a) (some b) reason = require (not (str_eq a b)) reason
differ (some a) none reason = clear
differ none b reason = clear

module _ (p : Platform) (config : GateConfig) where
  abbrev pub signer : String → Option PersonIdentity
  signer public = lookup public config.identities

  abbrev pub person : Checked Approval → Option String
  person (unusable reason) = none
  person (signed approval public) = elim (signer public) [
    | none ↦ none
    | some who ↦ some who.person_id
  ]

  abbrev pub approval_name : Checked Approval → Option String
  approval_name (unusable reason) = none
  approval_name (signed approval public) = some approval.approval_id

  unfoldable pub assess_approval :
      Slot → String → Request → String → ℕ → Checked Approval → Findings
  assess_approval slot role r d at_ms (unusable reason) = clear
  assess_approval slot role r d at_ms (signed approval public) =
      assess_statement slot config.policy_digest d at_ms approval
      ⊕ assess_signer slot role r at_ms approval (signer public)

  unfoldable pub assess_status :
      EvidenceBytes
      → String
      → ℕ
      → Checked Approval
      → Checked Approval
      → Checked CredentialStatus
      → Findings
  assess_status e d at_ms maker checker (unusable reason) = clear
  assess_status e d at_ms maker checker (signed s public) =
      assess_subject config.policy config.policy_digest d s
      ⊕ assess_referent p e maker_approval s.maker_digest s maker
      ⊕ assess_referent p e checker_approval s.checker_digest s checker
      ⊕ assess_freshness config.max_status_age_ms at_ms s

  -- The findings on what the three envelopes were checked to be.
  unfoldable pub assess_checked :
      Request
      → String
      → EvidenceBytes
      → List String
      → ℕ
      → Checked Approval
      → Checked Approval
      → Checked CredentialStatus
      → Findings
  assess_checked r d e problems at_ms maker checker status =
      record { denials = []; gaps = problems }
      ⊕ assess_policy config.policy r at_ms
      ⊕ problem maker
      ⊕ problem checker
      ⊕ problem status
      ⊕ assess_approval maker_approval "maker" r d at_ms maker
      ⊕ assess_approval checker_approval "checker" r d at_ms checker
      ⊕ differ (person maker) (person checker) "approvals:same_configured_person"
      ⊕ differ (approval_name maker) (approval_name checker) "approvals:duplicate_approval_id"
      ⊕ assess_status e d at_ms maker checker status

  -- `_verified` for each slot
  unfoldable pub verified_approval : Slot → ℕ → EvidenceBytes → Checked Approval
  verified_approval slot at_ms e =
      verified p at_ms slot config.approvers (approval_shape slot) (λ a. a.issued_at_ms)
        (at_slot slot e)

  unfoldable pub verified_status : ℕ → EvidenceBytes → Checked CredentialStatus
  verified_status at_ms e =
      verified p at_ms final_status config.status_authorities status_shape (λ s. s.observed_at_ms)
        (at_slot final_status e)

  -- `_assess`
  unfoldable pub assess : Prepared → EvidenceBytes → List String → ℕ → Decision
  assess request e problems at_ms =
      let d = bytes_digest p request.raw in
      result d at_ms (
        assess_checked request.request d e problems at_ms (verified_approval maker_approval at_ms e)
          (verified_approval checker_approval at_ms e) (verified_status at_ms e))
