-- ===== src/RecordGate/Backend.antt =====
-- services.py: the simulated API, which takes effect once for an operation that has a permit.
pub mod Effects
use vap_spec.Base.{
  ℕ, suc, ◌≤◌, ◌≡◌, refl, sym, ap, ◌∙◌, Bool, true, false, not, ◌&&◌, ◌||◌, Option, none, some,
  String, List, [], ◌∷◌, ◌++◌, str_eq, eq_iff, if◌then◌else◌, ◌⊎◌, inl, inr, Bool-cases,
  Option-cases, arith,
}
use vap_spec.Runtime.Json.{Json, null, bool, text, dict, Fields, end, field}
use vap_spec.Runtime.Request.{◌>>=◌, ◌>>◌, check}
use vap_spec.RecordGate.Envelope.{
  Jcs, get, text_at, has_text, has_true, digest, has_digest, sign, verified_body, intent,
}
use vap_spec.RecordGate.Audit.{ServiceConfig, Reply, refused, dropped, answered, reply_of, control}

-- A row of effects.
pub record ApiEffect : Type 0 where
  pub id : String
  pub digest : String
  pub receipt : String

pub record ApiStore : Type 0 where
  pub effects : List ApiEffect
  pub attempts : ℕ

unfoldable pub find_effect : String → List ApiEffect → Option ApiEffect
find_effect oid [] = none
find_effect oid (r ∷ rows) = if str_eq r.id oid then some r else find_effect oid rows

pub data ApiAction : Type 0 where
  writes lookups : ApiAction

module _ (lib : Jcs) (config : ServiceConfig) where
  -- The body of a request: `insecure` is the deliberately broken boundary of a negative test.
  abbrev pub body_of : Bool → String → Json → Option Json
  body_of insecure action envelope =
      if insecure then some envelope else control lib config action envelope

  -- dispatch_permit_binding
  unfoldable pub has_permit : String → String → Json → Bool
  has_permit oid od body =
      elim (get "permit" body >>= λ permit.
      verified_body lib permit config.audit_public "audit_ack" "audit" false) [
        | none ↦ false
        | some ack ↦
            has_text "action" "claim" ack
            && (has_true "claimed" ack
                && (has_text "state" "dispatch_intent" ack
                    && (has_text "operation_id" oid ack && has_text "operation_digest" od ack)))
      ]

  unfoldable pub new_receipt : String → String → Option Json
  new_receipt oid od =
      sign lib
        (dict (
          field "committed" (bool true) (
            field "kind" (text "backend_receipt")
              (field "operation_digest" (text od) (field "operation_id" (text oid) end)))))
        config.secret "backend" false

  unfoldable pub new_effect : String → String → ApiStore → Option (Json × ApiStore)
  new_effect oid od s = do
    receipt ← new_receipt oid od
    raw ← lib.dumps receipt
    some (
      receipt,
      record s { effects = s.effects ++ (record { id = oid; digest = od; receipt = raw }) ∷ [] },
    )

  abbrev pub effect_for : String → String → Option ApiEffect → ApiStore → Option (Json × ApiStore)
  effect_for oid od none s = new_effect oid od s
  effect_for oid od (some row) s = do
    check (str_eq row.digest od)
    receipt ← lib.loads row.receipt
    some (receipt, s)

  -- The operation of a body, its id and its digest.
  abbrev pub operation_of : Json → Option (String × String)
  operation_of body = do
    wanted ← get "intent" body
    op ← intent lib wanted
    oid ← text_at "operation_id" op
    od ← digest lib op
    some (oid, od)

  -- The write of `Service.backend`, up to its commit.
  unfoldable pub write : Bool → Json → ApiStore → Option (Json × ApiStore)
  write insecure envelope s = do
    body ← body_of insecure "write" envelope
    (oid, od) ← operation_of body
    check (insecure || has_permit oid od body)
    effect_for oid od (find_effect oid s.effects) s

  unfoldable pub looked_up : Option ApiEffect → String → Option Json
  looked_up none od = some null
  looked_up (some row) od = check (str_eq row.digest od) >> lib.loads row.receipt

  unfoldable pub lookup_effect : Json → ApiStore → Option Json
  lookup_effect envelope s = do
    body ← control lib config "lookup" envelope
    (oid, od) ← operation_of body
    receipt ← looked_up (find_effect oid s.effects) od
    sign lib
        (dict (
          field "kind" (text "lookup") (
            field "operation_digest" (text od)
              (field "operation_id" (text oid) (field "receipt" receipt end)))))
        config.secret "backend" false

  -- An attempt to write is counted before anything is checked.
  abbrev pub counted : ApiStore → ApiStore
  counted s = record s { attempts = suc s.attempts }

  abbrev pub written : ApiStore → Option (Json × ApiStore) → Reply × ApiStore
  written s none = (refused, s)
  written s (some (receipt, s')) =
      (if config.drop_after_commit then dropped else answered receipt, s')

  -- `Service.backend`, with an action that it knows
  unfoldable pub backend : Bool → ApiAction → Json → ApiStore → Reply × ApiStore
  backend insecure writes envelope s = written (counted s) (write insecure envelope (counted s))
  backend insecure lookups envelope s = (reply_of (lookup_effect envelope s), s)
