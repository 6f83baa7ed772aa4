-- ===== src/Runtime/Provider.antt =====
-- payment_runtime.py: the provider's store and its handlers.
pub mod Http
pub mod Ledger
pub mod Applied
pub mod Steps
pub mod Replay
pub mod Effects
use mathlib.Core.Option
use Prim.Native.String.{◌++◌ as str_append}
use vap_spec.Base.{
  ℕ, suc, ◌+◌, ◌-◌, ◌^◌, Bool, true, false, not, ◌&&◌, ◌||◌, Option, none, some, String, List, [],
  ◌∷◌, ◌++◌, ltb, leb, ◌==◌, str_eq, if◌then◌else◌, length, codes, all,
}
use vap_spec.Runtime.Outcome.{
  Exc, value_error, db_error, blocked, fault, Result, ok, err, ◌>>=◌, ◌>>◌, require, or_raise,
}
use vap_spec.Runtime.Json.{Json, text, dict, end, field, canonical_json, load_json, max_body}
use vap_spec.Runtime.Request.{
  Context, Request, Prepared, request_fields, request_bytes, same_scope, same_generation, is_text,
  is_hash, number,
}
use vap_spec.Runtime.Receipt.{Platform, bytes_digest, Status, settled, failed, signed_receipt}
use vap_spec.Runtime.Rows.{
  transaction, MetaTable, is_current, Identity, select, overlaps, conflict, find, insert,
}

pub record ProviderConfig : Type 0 where
  pub context : Context
  pub private_key : String
  pub credential : String
  pub configuration_digest : String
  pub recovery_epoch : ℕ
  pub provider_id : String

pub record Payment : Type 0 where
  pub identity : Identity
  pub status : Status
  pub receipt_bytes : String

pub record Effect : Type 0 where
  pub request_digest : String
  pub source_account : String
  pub beneficiary : String
  pub amount_minor : ℕ

pub record ProviderStore : Type 0 where
  pub meta : MetaTable
  pub balances : List (String × ℕ)
  pub payments : List Payment
  pub effects : List Effect
  pub post_attempts : ℕ
  pub lookup_attempts : ℕ

-- digest({field: context[field] for field in SCOPE_FIELDS})
unfoldable pub scope_of : Platform → Context → Option String
scope_of p c = Option.map (bytes_digest p) (
    canonical_json p.json (
      dict (
        field "api_audience" (text c.api_audience) (
          field "environment" (text c.environment) (
            field "idempotency_domain" (text c.idempotency_domain)
              (field "tenant" (text c.tenant) end))))))

-- SELECT amount_minor FROM balances WHERE account=?
unfoldable pub balance : String → List (String × ℕ) → Option ℕ
balance account [] = none
balance account ((a, n) ∷ rest) = if str_eq a account then some n else balance account rest

-- UPDATE balances SET amount_minor=? WHERE account=?; the account is the primary key.
unfoldable pub set_balance : String → ℕ → List (String × ℕ) → List (String × ℕ)
set_balance account m [] = []
set_balance account m ((a, n) ∷ rest) =
    if str_eq a account then (a, m) ∷ rest else (a, n) ∷ set_balance account m rest

-- len(str(n)) > 78
unfoldable pub is_too_long : ℕ → Bool
is_too_long n = leb (10 ^ 78) n

-- What a payment comes to: its balances and effect where it settles, or the reason of its failure.
pub data Effected : Type 0 where
  refused : String → Effected
  moved : List (String × ℕ) → Effected

unfoldable pub move : Request → Option ℕ → Option ℕ → List (String × ℕ) → Effected
move r none b balances = refused "unknown_account"
move r (some source) none balances = refused "unknown_account"
move r (some source) (some beneficiary) balances =
    if ltb source r.amount_minor
    then refused "insufficient_funds"
    else if is_too_long (beneficiary + r.amount_minor)
    then refused "balance_limit"
    else moved (
        set_balance r.beneficiary (beneficiary + r.amount_minor)
          (set_balance r.source_account (source - r.amount_minor) balances))

-- The primary key of effects.
unfoldable pub has_effect : String → List Effect → Bool
has_effect d [] = false
has_effect d (e ∷ rest) = str_eq e.request_digest d || has_effect d rest

module _ (p : Platform) (config : ProviderConfig) (now_ms : ℕ) where
  abbrev identity_of : String → Prepared → Identity
  identity_of scope request = record {
    request_digest = bytes_digest p request.raw;
    scope = scope;
    operation_id = request.request.operation_id;
    idempotency_key = request.request.idempotency_key;
    request_bytes = request.raw;
  }

  -- The receipt and INSERT INTO payments, after the decision on the effect.
  unfoldable pub record_payment :
      String
      → Prepared
      → Status
      → Option String
      → ProviderStore
      → Result ((String × Bool) × ProviderStore)
  record_payment scope request status failure s = do
    receipt ←
        or_raise
          (signed_receipt p config.private_key config.provider_id request status failure now_ms)
          (value_error "json")
    payments ←
        insert (λ (q : Payment). q.identity)
          (record {
            identity = identity_of scope request;
            status = status;
            receipt_bytes = receipt;
          })
          s.payments
    ok ((receipt, true), record s { payments = payments })

  unfoldable pub settle :
      String → Prepared → Effected → ProviderStore → Result ((String × Bool) × ProviderStore)
  unfolding record_payment
  settle scope request (refused reason) s = record_payment scope request failed (some reason) s
  settle scope request (moved balances) s = do
    let digest = bytes_digest p request.raw
    require (not (has_effect digest s.effects)) db_error
    let effect =
        let e : Effect = record {
          request_digest = digest;
          source_account = request.request.source_account;
          beneficiary = request.request.beneficiary;
          amount_minor = request.request.amount_minor;
        } in
        e
    record_payment scope request settled none
        (record s { balances = balances; effects = s.effects ++ effect ∷ [] })

  unfoldable pub pay_new :
      String → Prepared → ProviderStore → Result ((String × Bool) × ProviderStore)
  unfolding settle move
  pay_new scope request s = do
    require (is_current config.recovery_epoch config.configuration_digest s.meta)
        (value_error "stale_runtime_generation")
    require
        (same_generation request.request config.context config.recovery_epoch
          config.configuration_digest)
        (value_error "request_currency_unit_or_generation_mismatch")
    let r = request.request
    settle scope request
        (move r (balance r.source_account s.balances) (balance r.beneficiary s.balances) s.balances)
        s

  unfoldable pub pay_found :
      String → Prepared → Option Payment → ProviderStore → Result ((String × Bool) × ProviderStore)
  unfolding pay_new
  pay_found scope request (some existing) s = ok ((existing.receipt_bytes, false), s)
  pay_found scope request none s = pay_new scope request s

  -- The transaction of `_apply_payment`: the receipt, and whether the payment is new.
  unfoldable pub payment_body : Prepared → ProviderStore → Result ((String × Bool) × ProviderStore)
  unfolding pay_found
  payment_body request s = do
    scope ← or_raise (scope_of p config.context) (value_error "json")
    existing ← find (λ (q : Payment). q.identity) scope request.request request.raw s.payments
    pay_found scope request existing s

  unfoldable pub apply_payment : Prepared → ProviderStore → Result (String × Bool) × ProviderStore
  unfolding payment_body transaction
  apply_payment request s = transaction (payment_body request) s
