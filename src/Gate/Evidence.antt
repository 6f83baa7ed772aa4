-- ===== src/Gate/Evidence.antt =====
-- authorization_gate.py: the evidence of a submission, and what a signed envelope establishes.
use Prim.Native.String.{◌++◌ as str_append}
use vap_spec.Base.{
  ℕ, Bool, true, false, ◌&&◌, Option, none, some, String, List, [], ◌∷◌, leb, ltb, ◌==◌, str_eq,
  length, all, codes, if◌then◌else◌,
}
use vap_spec.Runtime.Json.{
  Json, null, int, text, dict, Fields, end, field, get_field, count_fields, canonical_json,
  load_json,
}
use vap_spec.Runtime.Request.{
  is_text, is_hash, is_integer, is_hex, ◌>>=◌, ◌>>◌, check, get_text, get_int,
}
use vap_spec.Runtime.Receipt.{Platform}
use vap_spec.Gate.Policy.{lookup}

-- SLOTS
pub data Slot : Type 0 where
  maker_approval checker_approval final_status : Slot

abbrev pub slot_name : Slot → String
slot_name maker_approval = "maker_approval"
slot_name checker_approval = "checker_approval"
slot_name final_status = "final_status"

abbrev pub because : Slot → String → String
because slot reason = str_append (slot_name slot) reason

-- The usable envelopes by slot.
pub record EvidenceBytes : Type 0 where
  pub maker : Option String
  pub checker : Option String
  pub status : Option String

abbrev pub at_slot : Slot → EvidenceBytes → Option String
at_slot maker_approval e = e.maker
at_slot checker_approval e = e.checker
at_slot final_status e = e.status

-- What a caller gives for a slot.
pub data Given : Type 0 where
  given_bytes : String → Given
  given_other : Given

pub data GivenEvidence : Type 0 where
  not_given : GivenEvidence
  not_a_dict : GivenEvidence
  given : List (String × Given) → GivenEvidence

abbrev slot_of : String → Option Slot
slot_of s =
    if str_eq s "maker_approval"
    then some maker_approval
    else if str_eq s "checker_approval"
    then some checker_approval
    else if str_eq s "final_status"
    then some final_status
    else none

abbrev known_slots : List (String × Given) → Bool
known_slots [] = true
known_slots ((name, raw) ∷ rest) =
    (elim (slot_of name) [ some s ↦ true | none ↦ false ]) && known_slots rest

abbrev put_slot : Option Slot → String → EvidenceBytes → EvidenceBytes
put_slot none raw e = e
put_slot (some maker_approval) raw e = record e { maker = some raw }
put_slot (some checker_approval) raw e = record e { checker = some raw }
put_slot (some final_status) raw e = record e { status = some raw }

abbrev usable : Given → Option String
usable (given_bytes raw) =
    let n = length (codes raw) in if ltb 0 n && leb n 16384 then some raw else none
usable given_other = none

unfoldable pub freeze_items : List (String × Given) → EvidenceBytes × List String
freeze_items [] = (record { maker = none; checker = none; status = none }, [])
freeze_items ((name, raw) ∷ rest) =
    let (e, problems) = freeze_items rest in
    elim (usable raw) [
      | none ↦ (e, str_append name ":original_canonical_envelope_bytes_required" ∷ problems)
      | some bytes ↦ (put_slot (slot_of name) bytes e, problems)
    ]

-- `_freeze_evidence`
unfoldable pub freeze_evidence : GivenEvidence → EvidenceBytes × List String
freeze_evidence not_given = (record { maker = none; checker = none; status = none }, [])
freeze_evidence not_a_dict =
    (record { maker = none; checker = none; status = none }, "evidence_slots_unusable" ∷ [])
freeze_evidence (given items) =
    if known_slots items
    then freeze_items items
    else (record { maker = none; checker = none; status = none }, "evidence_slots_unusable" ∷ [])

pub record Approval : Type 0 where
  pub approval_id : String
  pub request_digest : String
  pub policy_digest : String
  pub issued_at_ms : ℕ
  pub expires_at_ms : ℕ

pub data CredentialState : Type 0 where
  active revoked undetermined : CredentialState

pub record CredentialStatus : Type 0 where
  pub request_digest : String
  pub policy_digest : String
  pub maker_digest : String
  pub checker_digest : String
  pub principal_id : String
  pub credential_id : String
  pub configuration_digest : String
  pub recovery_epoch : ℕ
  pub observed_at_ms : ℕ
  pub valid_until_ms : ℕ
  pub state : CredentialState
  pub revoked_at_ms : Option ℕ

-- `_approval_shape`
unfoldable pub approval_shape : Slot → Json → Option Approval
approval_shape slot (dict fs) = do
  check (count_fields fs == 7)
  schema ← get_text "schema" fs
  kind ← get_text "kind" fs
  approval_id ← get_text "approval_id" fs
  request_digest ← get_text "request_digest" fs
  policy_digest ← get_text "policy_digest" fs
  issued_at_ms ← get_int "issued_at_ms" fs
  expires_at_ms ← get_int "expires_at_ms" fs
  check (str_eq schema "synthetic-payment-admission-approval-v0" && str_eq kind (slot_name slot))
  check (is_text approval_id && (is_hash request_digest && is_hash policy_digest))
  check (is_integer issued_at_ms && is_integer expires_at_ms)
  some (record {
    approval_id = approval_id;
    request_digest = request_digest;
    policy_digest = policy_digest;
    issued_at_ms = issued_at_ms;
    expires_at_ms = expires_at_ms;
  })
approval_shape slot _ = none

abbrev state_of : String → Option CredentialState
state_of s =
    if str_eq s "active"
    then some active
    else if str_eq s "revoked"
    then some revoked
    else if str_eq s "unknown"
    then some undetermined
    else none

abbrev get_optional_int : String → Fields → Option (Option ℕ)
get_optional_int k fs = elim (get_field k fs) [
  | some v ↦ (elim v [
    | int n ↦ if is_integer n then some (some n) else none
    | null ↦ some none
    | _ ↦ none
  ])
  | none ↦ none
]

abbrev get_dict : String → Fields → Option Fields
get_dict k fs = elim (get_field k fs) [
  | some v ↦ (elim v [ dict d ↦ some d | _ ↦ none ])
  | none ↦ none
]

-- `_status_shape`
unfoldable pub status_shape : Json → Option CredentialStatus
status_shape (dict fs) = do
  check (count_fields fs == 14)
  schema ← get_text "schema" fs
  kind ← get_text "kind" fs
  check (str_eq schema "synthetic-payment-admission-status-v0" && str_eq kind "final_status")
  status_id ← get_text "status_id" fs
  principal_id ← get_text "principal_id" fs
  credential_id ← get_text "credential_id" fs
  check (is_text status_id && (is_text principal_id && is_text credential_id))
  request_digest ← get_text "request_digest" fs
  policy_digest ← get_text "policy_digest" fs
  configuration_digest ← get_text "configuration_digest" fs
  check (is_hash request_digest && (is_hash policy_digest && is_hash configuration_digest))
  recovery_epoch ← get_int "recovery_epoch" fs
  observed_at_ms ← get_int "observed_at_ms" fs
  valid_until_ms ← get_int "valid_until_ms" fs
  check (is_integer recovery_epoch && (is_integer observed_at_ms && is_integer valid_until_ms))
  state_text ← get_text "state" fs
  state ← state_of state_text
  revoked_at_ms ← get_optional_int "revoked_at_ms" fs
  digests ← get_dict "approval_digests" fs
  check (count_fields digests == 2)
  maker_digest ← get_text "maker_approval" digests
  checker_digest ← get_text "checker_approval" digests
  check (is_hash maker_digest && is_hash checker_digest)
  some (record {
    request_digest = request_digest;
    policy_digest = policy_digest;
    maker_digest = maker_digest;
    checker_digest = checker_digest;
    principal_id = principal_id;
    credential_id = credential_id;
    configuration_digest = configuration_digest;
    recovery_epoch = recovery_epoch;
    observed_at_ms = observed_at_ms;
    valid_until_ms = valid_until_ms;
    state = state;
    revoked_at_ms = revoked_at_ms;
  })
status_shape _ = none

-- What an envelope is worth: a reason why it is not usable, or its statement and signer.
pub data Checked {ℓ} (A : Type ℓ) : Type ℓ where
  unusable : String → Checked A
  signed : A → (public : String) → Checked A

abbrev pub evidence_domain : String
evidence_domain = "VSO synthetic payment admission evidence v0\0"

pub record Envelope : Type 0 where
  pub key_id : String
  pub payload : Json
  pub signature : String

-- The envelope of canonical bytes, where its shape is right.
unfoldable pub read_envelope : Platform → String → Option Envelope
read_envelope p raw = load_json p.json raw >>= λ (v : Json). elim v [
  | dict fs ↦ (do
    check (count_fields fs == 3)
    key_id ← get_text "key_id" fs
    payload ← get_field "payload" fs
    signature ← get_text "signature" fs
    canonical ← canonical_json p.json (dict fs)
    check (str_eq canonical raw && is_text key_id)
    check (length (codes signature) == 128 && all is_hex (codes signature))
    some (record { key_id = key_id; payload = payload; signature = signature }))
  | _ ↦ none
]

-- Whether the signature of an envelope verifies under a public key.
unfoldable pub envelope_verifies : Platform → String → Envelope → Bool
envelope_verifies p public e =
    let body = dict (field "key_id" (text e.key_id) (field "payload" e.payload end)) in
    elim (canonical_json p.json body) [
      | none ↦ false
      | some message ↦ p.verifies public e.signature (str_append evidence_domain message)
    ]

module _ {ℓ} {A : Type ℓ} (p : Platform) (at_ms : ℕ) (slot : Slot) (keys : List (String × String))
    (shape : Json → Option A) (observed : A → ℕ) where
  abbrev pub judge_statement : Option A → String → Checked A
  judge_statement none public = unusable (because slot ":signed_statement_shape_unusable")
  judge_statement (some body) public =
      if ltb at_ms (observed body)
      then unusable (because slot ":statement_after_admission_time")
      else signed body public

  abbrev pub judge_key : Option String → Envelope → Checked A
  judge_key none e = unusable (because slot ":no_configured_role_key")
  judge_key (some public) e =
      if envelope_verifies p public e
      then judge_statement (shape e.payload) public
      else unusable (because slot ":signature_or_canonical_envelope_unverifiable")

  abbrev pub judge_envelope : Option Envelope → Checked A
  judge_envelope none = unusable (because slot ":signature_or_canonical_envelope_unverifiable")
  judge_envelope (some e) = judge_key (lookup e.key_id keys) e

  -- `_verified`
  unfoldable pub verified : Option String → Checked A
  verified none = unusable (because slot ":missing_envelope")
  verified (some raw) = judge_envelope (read_envelope p raw)
