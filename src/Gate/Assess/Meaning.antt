-- ===== src/Gate/Assess/Meaning.antt =====
-- authorization_gate.py: an AUTHORIZED decision and the signed evidence behind it.
use vap_spec.Base.{
  ℕ, ◌≤◌, ◌≡◌, ◌≢◌, refl, true, false, Option, none, some, String, List, eq_iff, arith,
}
use vap_spec.Runtime.Outcome.{authorized}
use vap_spec.Runtime.Request.{Request, Prepared}
use vap_spec.Runtime.Receipt.{Platform, bytes_digest}
use vap_spec.Gate.Findings.{is_clear, result, is_clear-available, clear_laws, verdict-is_clear}
use vap_spec.Gate.Policy.{PersonIdentity, GateConfig, lookup}
use vap_spec.Gate.Evidence.{
  Slot, maker_approval, checker_approval, because, EvidenceBytes, Approval, CredentialStatus,
  Checked, unusable, signed,
}
use vap_spec.Gate.Assess.{
  assess_identity, assess_signer, evidence_digest, assess_referent, differ, person, assess_approval,
  assess_status, assess_checked, verified_approval, verified_status, assess,
}
use vap_spec.Gate.Assess.Admissible.{
  IsWithin, policy_clear, IsApproved, approval_clear, IsActive, status_clear,
}

-- What an approval in a slot has to show.
pub record IsBacked (p : Platform) (config : GateConfig) (slot : Slot) (role : String) (r : Request)
    (d : String) (e : EvidenceBytes) (at_ms : ℕ) (a : Approval) (public : String)
    (who : PersonIdentity) (named : String) (s : CredentialStatus) : Type 0 where
  pub known : lookup public config.identities ≡ some who
  pub approved : IsApproved config role r d at_ms a who
  pub named_digest : named ≡ evidence_digest p e slot
  pub before_status : a.issued_at_ms ≤ s.observed_at_ms

-- Two approvals by two persons and a status, for a request within the policy.
pub record Admissible (p : Platform) (config : GateConfig) (r : Request) (d : String)
    (e : EvidenceBytes) (at_ms : ℕ) (maker checker : Checked Approval)
    (status : Checked CredentialStatus) : Type 0 where
  pub maker_says : Approval
  pub maker_key : String
  pub maker_person : PersonIdentity
  pub checker_says : Approval
  pub checker_key : String
  pub checker_person : PersonIdentity
  pub status_says : CredentialStatus
  pub status_key : String
  pub maker_signed : maker ≡ signed maker_says maker_key
  pub checker_signed : checker ≡ signed checker_says checker_key
  pub status_signed : status ≡ signed status_says status_key
  pub maker_backed :
      IsBacked p config maker_approval "maker" r d e at_ms maker_says maker_key maker_person
        status_says.maker_digest status_says
  pub checker_backed :
      IsBacked p config checker_approval "checker" r d e at_ms checker_says checker_key
        checker_person status_says.checker_digest status_says
  pub two_persons : maker_person.person_id ≢ checker_person.person_id
  pub two_approvals : maker_says.approval_id ≢ checker_says.approval_id
  pub status_active : IsActive config d at_ms status_says
  pub within : IsWithin config.policy r at_ms

differ_clear :
    (x y : Option String) (a b reason : String)
    → x ≡ some a
    → y ≡ some b
    → is_clear (differ x y reason) ≡ true
    → a ≢ b
unfolding differ
differ_clear x y a b reason hx hy = rw (hx, hy) (simp clear_laws λ h k. ground (arith, eq_iff a b))

person_known :
    (p : Platform) (config : GateConfig) (a : Approval) (public : String) (who : PersonIdentity)
    → lookup public config.identities ≡ some who
    → person p config (signed a public) ≡ some who.person_id
person_known p config a public who known = rw (known, person) refl

signer_clear :
    (config : GateConfig) (slot : Slot) (role : String) (r : Request) (at_ms : ℕ) (a : Approval)
    (found : Option PersonIdentity)
    → is_clear (assess_signer slot role r at_ms a found) ≡ true
    → (who : PersonIdentity) × (found ≡ some who)
      × (is_clear (assess_identity slot role r at_ms a who) ≡ true)
signer_clear config slot role r at_ms a none h =
    absurd (ground (arith, is_clear-available false (because slot ":configured_identity_missing")))
signer_clear config slot role r at_ms a (some who) h = (who, refl, h)

IsBacked-clear :
    (p : Platform) (config : GateConfig) (slot : Slot) (role : String) (r : Request) (d : String)
    (e : EvidenceBytes) (at_ms : ℕ) (a : Approval) (public named : String) (s : CredentialStatus)
    → is_clear (assess_approval p config slot role r d at_ms (signed a public)) ≡ true
    → is_clear (assess_referent p e slot named s (signed a public)) ≡ true
    → (who : PersonIdentity) × IsBacked p config slot role r d e at_ms a public who named s
unfolding assess_approval assess_referent
IsBacked-clear p config slot role r d e at_ms a public named s = simp clear_laws λ h k.
    let (who, known, c) =
      signer_clear config slot role r at_ms a (lookup public config.identities) (ground arith) in
    (
      who,
      record {
        known = known;
        approved = approval_clear config slot role r d at_ms a who (ground arith) c;
        named_digest = ground (arith, eq_iff named (evidence_digest p e slot));
        before_status = ground arith;
      },
    )

checked_clear :
    (p : Platform) (config : GateConfig) (r : Request) (d : String) (e : EvidenceBytes)
    (problems : List String) (at_ms : ℕ) (maker checker : Checked Approval)
    (status : Checked CredentialStatus)
    → is_clear (assess_checked p config r d e problems at_ms maker checker status) ≡ true
    → Admissible p config r d e at_ms maker checker status
unfolding assess_checked assess_status
checked_clear p config r d e problems at_ms (unusable why) checker status =
    simp clear_laws λ h. absurd (ground arith)
checked_clear p config r d e problems at_ms (signed m m_key) (unusable why) status =
    simp clear_laws λ h. absurd (ground arith)
checked_clear p config r d e problems at_ms (signed m m_key) (signed c c_key) (unusable why) =
    simp clear_laws λ h. absurd (ground arith)
checked_clear p config r d e problems at_ms (signed m m_key) (signed c c_key) (signed s s_key) =
    simp clear_laws λ h.
      let (m_who, m_backed) =
        IsBacked-clear p config maker_approval "maker" r d e at_ms m m_key s.maker_digest s
          (ground arith) (ground arith) in
      let (c_who, c_backed) =
        IsBacked-clear p config checker_approval "checker" r d e at_ms c c_key s.checker_digest s
          (ground arith) (ground arith) in
      record {
        maker_says = m;
        maker_key = m_key;
        maker_person = m_who;
        checker_says = c;
        checker_key = c_key;
        checker_person = c_who;
        status_says = s;
        status_key = s_key;
        maker_signed = refl;
        checker_signed = refl;
        status_signed = refl;
        maker_backed = m_backed;
        checker_backed = c_backed;
        two_persons =
            differ_clear (person p config (signed m m_key)) (person p config (signed c c_key))
              m_who.person_id c_who.person_id "approvals:same_configured_person"
              (person_known p config m m_key m_who m_backed.known)
              (person_known p config c c_key c_who c_backed.known) (ground arith);
        two_approvals =
            differ_clear (some m.approval_id) (some c.approval_id) m.approval_id c.approval_id
              "approvals:duplicate_approval_id" refl refl (ground arith);
        status_active = status_clear config d at_ms s (ground arith) (ground arith);
        within = policy_clear config.policy r at_ms (ground arith);
      }

-- A decision that is AUTHORIZED rests on verified envelopes: two approvals of this request under the
-- configured policy, in force, by two different configured persons who hold the roles maker and
-- checker in the scope of the request at issuance and at admission, with different ids, and a recent
-- status of the configured credential that is active, names the digests of both envelopes and does
-- not precede them; and the request is within the policy, its amount bound included.
pub assess-Admissible :
    (p : Platform) (config : GateConfig) (request : Prepared) (e : EvidenceBytes)
    (problems : List String) (at_ms : ℕ)
    → (assess p config request e problems at_ms).verdict ≡ authorized
    → Admissible p config request.request
        (bytes_digest p request.raw)
        e
        at_ms
        (verified_approval p config maker_approval at_ms e)
        (verified_approval p config checker_approval at_ms e)
        (verified_status p config at_ms e)
unfolding assess result
assess-Admissible p config request e problems at_ms h =
    checked_clear p config request.request (bytes_digest p request.raw) e problems at_ms
      (verified_approval p config maker_approval at_ms e)
      (verified_approval p config checker_approval at_ms e) (verified_status p config at_ms e)
      (verdict-is_clear _ h)
