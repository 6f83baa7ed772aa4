-- ===== src/Collector/Client.antt =====
-- payment_collector.py: `readback` and `collect_and_check` of the class CollectorClient. An exchange
-- has the status and the body of an answer, or none where the HTTP library raises.
use vap_spec.Base.{
  ℕ, false, Option, none, some, String, [], ◌∷◌, leb, ◌==◌, str_eq, length, codes, if◌then◌else◌,
}
use vap_spec.Runtime.Request.{Context, ◌>>=◌, ◌>>◌, check, get_text}
use vap_spec.Assessor.{exact_keys}
use vap_spec.Collector.{
  CollectorLib, max_evidence, max_message, load_message, bytes_of_hex, validate_package,
}
use vap_spec.Collector.Custody.{Trusted, Presence, missing, present, verify_ack, verify_readback}

pub record Client : Type 0 where
  pub context : Context
  pub trusted : Trusted

-- What comes of the exchanges of one collection, and the nonce that `secrets` gives.
pub record Exchange : Type 0 where
  pub collection : Option (ℕ × String)
  pub nonce : String
  pub query : Option (ℕ × String)

-- What a client keeps of a verified readback that says PRESENT.
pub record Observation : Type 0 where
  pub ack_bytes : String
  pub readback_bytes : String
  pub nonce : String

module _ (lib : CollectorLib) (client : Client) where
  -- `_http`: the status and the body, which is bounded.
  unfoldable pub answer_of : Option (ℕ × String) → Option (ℕ × String)
  answer_of exchange = do
    (status, raw) ← exchange
    check (leb (length (codes raw)) max_message)
    some (status, raw)

  -- readback_bytes of a response
  abbrev pub signed_part : String → Option String
  signed_part raw = do
    response ← load_message lib raw
    parts ← exact_keys ("readback_bytes" ∷ "ack_bytes" ∷ "package_bytes" ∷ []) response
    get_text "readback_bytes" parts >>= bytes_of_hex lib max_evidence

  -- `readback`: whether the package is present, with the bytes of the signed readback.
  unfoldable pub client_readback : Exchange → String → Option (Presence × String)
  client_readback env packed = do
    g ← validate_package lib packed client.context
    (status, raw) ← answer_of env.query
    check (status == 200)
    presence ← verify_readback lib raw packed env.nonce client.trusted false
    readback ← signed_part raw
    some (presence, readback)

  -- `collect_and_check`
  unfoldable pub collect_and_check : Exchange → String → Option Observation
  collect_and_check env packed = do
    g ← validate_package lib packed client.context
    (status, ack) ← answer_of env.collection
    check (status == 200)
    acknowledged ← verify_ack lib ack packed client.trusted
    (presence, readback) ← client_readback env packed
    (elim presence [
      | missing ↦ none
      | present original ↦
          if str_eq original ack
          then some (record { ack_bytes = ack; readback_bytes = readback; nonce = env.nonce })
          else none
    ])
