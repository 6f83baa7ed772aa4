-- ===== src/Gate/Assess/Admissible.antt =====
-- authorization_gate.py: what the decision AUTHORIZED means, stated without findings.
use vap_spec.Base.{ℕ, ◌-◌, ◌≤◌, ◌<◌, ◌≡◌, refl, true, Option, none, some, String, eq_iff, arith}
use vap_spec.Runtime.Request.{Request}
use vap_spec.Gate.Findings.{is_clear, clear_laws}
use vap_spec.Gate.Policy.{Policy, PersonIdentity, GateConfig, member}
use vap_spec.Gate.Evidence.{
  Slot, Approval, CredentialState, active, revoked, undetermined, CredentialStatus,
}
use vap_spec.Gate.Assess.{
  assess_policy, assess_identity, assess_statement, assess_state, is_fresh, assess_freshness,
  assess_subject,
}

-- The request is within the policy.
pub record IsWithin (v : Policy) (r : Request) (at_ms : ℕ) : Type 0 where
  pub from : v.valid_from_ms ≤ at_ms
  pub until : at_ms < v.valid_until_ms
  pub tenant : r.tenant ≡ v.context.tenant
  pub environment : r.environment ≡ v.context.environment
  pub api_audience : r.api_audience ≡ v.context.api_audience
  pub idempotency_domain : r.idempotency_domain ≡ v.context.idempotency_domain
  pub currency : r.currency ≡ v.context.currency
  pub minor_unit_scale : r.minor_unit_scale ≡ v.context.minor_unit_scale
  pub configuration_digest : r.configuration_digest ≡ v.configuration_digest
  pub recovery_epoch : r.recovery_epoch ≡ v.recovery_epoch
  pub source : member r.source_account v.allowed_sources ≡ true
  pub beneficiary : member r.beneficiary v.allowed_beneficiaries ≡ true
  pub amount : r.amount_minor ≤ v.max_amount_minor

pub policy_clear :
    (v : Policy) (r : Request) (at_ms : ℕ)
    → is_clear (assess_policy v r at_ms) ≡ true
    → IsWithin v r at_ms
unfolding assess_policy
policy_clear v r at_ms = simp clear_laws λ h. record {
  from = ground arith;
  until = ground arith;
  tenant = ground (arith, eq_iff r.tenant v.context.tenant);
  environment = ground (arith, eq_iff r.environment v.context.environment);
  api_audience = ground (arith, eq_iff r.api_audience v.context.api_audience);
  idempotency_domain = ground (arith, eq_iff r.idempotency_domain v.context.idempotency_domain);
  currency = ground (arith, eq_iff r.currency v.context.currency);
  minor_unit_scale = ground arith;
  configuration_digest = ground (arith, eq_iff r.configuration_digest v.configuration_digest);
  recovery_epoch = ground arith;
  source = ground arith;
  beneficiary = ground arith;
  amount = ground arith;
}

-- An approval is of this request under this policy, and a person with the role signed it.
pub record IsApproved (config : GateConfig) (role : String) (r : Request) (d : String) (at_ms : ℕ)
    (a : Approval) (who : PersonIdentity) : Type 0 where
  pub request_digest : a.request_digest ≡ d
  pub policy_digest : a.policy_digest ≡ config.policy_digest
  pub issued : a.issued_at_ms ≤ at_ms
  pub unexpired : at_ms < a.expires_at_ms
  pub role_held : member role who.roles ≡ true
  pub tenant : who.tenant ≡ r.tenant
  pub environment : who.environment ≡ r.environment
  pub api_audience : who.api_audience ≡ r.api_audience
  pub idempotency_domain : who.idempotency_domain ≡ r.idempotency_domain
  pub eligible_from : who.valid_from_ms ≤ a.issued_at_ms
  pub eligible_until : at_ms < who.valid_until_ms

pub approval_clear :
    (config : GateConfig) (slot : Slot) (role : String) (r : Request) (d : String) (at_ms : ℕ)
    (a : Approval) (who : PersonIdentity)
    → is_clear (assess_statement slot config.policy_digest d at_ms a) ≡ true
    → is_clear (assess_identity slot role r at_ms a who) ≡ true
    → IsApproved config role r d at_ms a who
unfolding assess_statement assess_identity
approval_clear config slot role r d at_ms a who = simp clear_laws λ h k. record {
  request_digest = ground (arith, eq_iff a.request_digest d);
  policy_digest = ground (arith, eq_iff a.policy_digest config.policy_digest);
  issued = ground arith;
  unexpired = ground arith;
  role_held = ground arith;
  tenant = ground (arith, eq_iff who.tenant r.tenant);
  environment = ground (arith, eq_iff who.environment r.environment);
  api_audience = ground (arith, eq_iff who.api_audience r.api_audience);
  idempotency_domain = ground (arith, eq_iff who.idempotency_domain r.idempotency_domain);
  eligible_from = ground arith;
  eligible_until = ground arith;
}

-- A status of this credential under this policy that is active and recent.
pub record IsActive (config : GateConfig) (d : String) (at_ms : ℕ) (s : CredentialStatus)
    : Type 0 where
  pub request_digest : s.request_digest ≡ d
  pub policy_digest : s.policy_digest ≡ config.policy_digest
  pub principal_id : s.principal_id ≡ config.policy.principal_id
  pub credential_id : s.credential_id ≡ config.policy.credential_id
  pub configuration_digest : s.configuration_digest ≡ config.policy.configuration_digest
  pub recovery_epoch : s.recovery_epoch ≡ config.policy.recovery_epoch
  pub state : s.state ≡ active
  pub revoked_at_ms : s.revoked_at_ms ≡ none
  pub observed : s.observed_at_ms ≤ at_ms
  pub valid : at_ms < s.valid_until_ms
  pub recent : at_ms - s.observed_at_ms ≤ config.max_status_age_ms

is_fresh-bounds :
    (max_age at_ms : ℕ) (s : CredentialStatus)
    → is_fresh max_age at_ms s ≡ true
    → (s.observed_at_ms ≤ at_ms) × (at_ms < s.valid_until_ms) × (at_ms - s.observed_at_ms ≤ max_age)
unfolding is_fresh
is_fresh-bounds max_age at_ms s h = ground arith

state_clear :
    (at_ms : ℕ) (s : CredentialStatus) (state : CredentialState) (t : Option ℕ)
    → s.observed_at_ms ≤ at_ms
    → is_clear (assess_state at_ms s state t) ≡ true
    → (state ≡ active) × (t ≡ none)
state_clear at_ms s revoked none old = simp clear_laws λ h. absurd cc
state_clear at_ms s revoked (some t) old = simp clear_laws λ h. absurd (ground arith)
state_clear at_ms s active none old = λ h. (refl, refl)
state_clear at_ms s active (some t) old = simp clear_laws λ h. absurd cc
state_clear at_ms s undetermined none old = simp clear_laws λ h. absurd cc
state_clear at_ms s undetermined (some t) old = simp clear_laws λ h. absurd cc

freshness_clear :
    (max_age at_ms : ℕ) (s : CredentialStatus)
    → is_clear (assess_freshness max_age at_ms s) ≡ true
    → (is_fresh max_age at_ms s ≡ true)
      × (is_clear (assess_state at_ms s s.state s.revoked_at_ms) ≡ true)
unfolding assess_freshness
freshness_clear max_age at_ms s = simp clear_laws λ h. ground arith

pub status_clear :
    (config : GateConfig) (d : String) (at_ms : ℕ) (s : CredentialStatus)
    → is_clear (assess_subject config.policy config.policy_digest d s) ≡ true
    → is_clear (assess_freshness config.max_status_age_ms at_ms s) ≡ true
    → IsActive config d at_ms s
unfolding assess_subject
status_clear config d at_ms s = simp clear_laws λ h k.
    let v = config.policy in
    let (fresh, c) = freshness_clear config.max_status_age_ms at_ms s k in
    let (old, valid, recent) = is_fresh-bounds config.max_status_age_ms at_ms s fresh in
    let (is_active, unrevoked) = state_clear at_ms s s.state s.revoked_at_ms old c in
    record {
      request_digest = ground (arith, eq_iff s.request_digest d);
      policy_digest = ground (arith, eq_iff s.policy_digest config.policy_digest);
      principal_id = ground (arith, eq_iff s.principal_id config.policy.principal_id);
      credential_id = ground (arith, eq_iff s.credential_id config.policy.credential_id);
      configuration_digest =
          ground (arith, eq_iff s.configuration_digest config.policy.configuration_digest);
      recovery_epoch = ground arith;
      state = is_active;
      revoked_at_ms = unrevoked;
      observed = old;
      valid = valid;
      recent = recent;
    }
