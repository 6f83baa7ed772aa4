-- ===== src/RecordGate/Authority.antt =====
-- auth.py: whether a signed request is authorized, by a credential, a delegation and an approval.
use vap_spec.Base.{
  ℕ, Bool, true, false, not, ◌&&◌, Option, none, some, String, List, [], ◌∷◌, leb, ltb, ◌==◌,
  length, codes,
}
use vap_spec.Runtime.Json.{
  Json, int, negative, text, list, dict, Items, nil, cons, end, field, count_fields,
}
use vap_spec.Runtime.Request.{◌>>=◌, ◌>>◌, check}
use vap_spec.Gate.Policy.{member}
use vap_spec.RecordGate.Envelope.{
  Jcs, get, as_text, text_at, has_text, digest, verified_body, intent,
}

-- value <= now and now < value, for an integer
abbrev pub not_after : ℕ → Json → Bool
not_after now (int n) = leb n now
not_after now (negative n) = true
not_after now _ = false

abbrev pub after : ℕ → Json → Bool
after now (int n) = ltb now n
after now _ = false

abbrev pub runs : String → String → ℕ → Json → Bool
runs from until now v =
    (elim (get from v) [ none ↦ false | some t ↦ not_after now t ])
    && (elim (get until v) [ none ↦ false | some t ↦ after now t ])

abbrev pub text_items : Items → Option (List String)
text_items nil = some []
text_items (cons v rest) = as_text v >>= λ s. text_items rest >>= λ more. some (s ∷ more)

abbrev pub texts_at : String → Json → Option (List String)
texts_at k v = get k v >>= λ x. elim x [ list xs ↦ text_items xs | _ ↦ none ]

abbrev pub nonempty : String → Bool
nonempty s = ltb 0 (length (codes s))

abbrev pub fields_of : Json → ℕ
fields_of v = elim v [ dict fs ↦ count_fields fs | _ ↦ 0 ]

module _ (lib : Jcs) (trust : String) (now : ℕ) where
  -- The body of a credential, a delegation or an approval.
  unfoldable pub claim_body : String → List String → Json → Option Json
  claim_body name revoked request = do
    envelope ← get name request
    body ← verified_body lib envelope trust name "authority" false
    check (has_text "audience" "experimental-gate" body)
    check (runs "not_before" "expires" now body)
    id ← text_at "id" body
    check (not (member id revoked))
    some body

  -- The revocation status, if it is current.
  unfoldable pub revocations : Json → Option (Json × List String)
  revocations envelope = do
    status ← verified_body lib envelope trust "revocations" "authority" false
    check (runs "issued_at" "valid_until" now status)
    revoked ← texts_at "revoked" status
    some (status, revoked)

  -- `authorize`: the operation, and the dictionary that is recorded with it.
  unfoldable pub authorize : Json → Json → Option (Json × Json)
  authorize snapshot request = do
    (status, revoked) ← revocations snapshot
    c ← claim_body "credential" revoked request
    d ← claim_body "delegation" revoked request
    a ← claim_body "approval" revoked request
    subject ← text_at "subject" c
    check (nonempty subject)
    delegator ← text_at "delegator" d
    check (has_text "subject" subject d && nonempty delegator)
    wanted ← get "intent" request
    op ← intent lib wanted
    action ← text_at "action" op
    target ← text_at "target" op
    check (has_text "action" action d && has_text "target" target d)
    credential ← get "credential" request
    delegation ← get "delegation" request
    approval ← get "approval" request
    credential_digest ← digest lib credential
    delegation_digest ← digest lib delegation
    approval_digest ← digest lib approval
    op_digest ← digest lib op
    check (
        has_text "subject" subject a
        && (has_text "delegation_digest" delegation_digest a
            && has_text "operation_digest" op_digest a))
    approver ← text_at "approver" a
    check (nonempty approver)
    proof_envelope ← get "proof" request
    agent_key ← text_at "public_key" c
    proof ← verified_body lib proof_envelope agent_key "request" "agent" false
    check (
        fields_of proof == 5
        && (has_text "operation_digest" op_digest proof
            && (has_text "credential_digest" credential_digest proof
                && (has_text "delegation_digest" delegation_digest proof
                    && has_text "approval_digest" approval_digest proof))))
    credential_id ← text_at "id" c
    delegation_id ← text_at "id" d
    approval_id ← text_at "id" a
    request_digest ← digest lib request
    status_digest ← digest lib status
    some (
      op,
      dict (
          field "approval_id" (text approval_id) (
            field "approver" (text approver) (
              field "checked_at" (int now) (
                field "credential_id" (text credential_id) (
                  field "delegation_id" (text delegation_id) (
                    field "delegator" (text delegator) (
                      field "request_digest" (text request_digest) (
                        field "revocation_snapshot" snapshot (
                          field "revocations_digest" (text status_digest)
                            (field "subject" (text subject) end)))))))))),
    )
