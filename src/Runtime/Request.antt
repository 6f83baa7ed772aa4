-- ===== src/Runtime/Request.antt =====
-- payment_runtime.py: the tests on single values, the context and the request, and the canonical
-- bytes of a request. `none` is `ValueError`: no caller tells the messages of these apart.
mod Decimal
pub mod Valid
unfoldable pub use Decimal.{decimal, number}
use vap_spec.Base.{
  ℕ, ◌^◌, Bool, true, false, not, ◌&&◌, ◌||◌, Option, none, some, String, List, [], ◌∷◌, leb, ltb,
  ◌==◌, str_eq, if◌then◌else◌, length, codes, all, take, drop,
}
use vap_spec.Runtime.Json.{
  Json, int, text, dict, Fields, end, field, get_field, count_fields, JsonLib, max_integer,
  canonical_json, load_json,
}

infixl 10 ◌>>=◌ ◌>>◌
abbrev pub ◌>>=◌ {ℓ κ} : {A : Type ℓ} {B : Type κ} → Option A → (A → Option B) → Option B
none >>= f = none
some a >>= f = f a

abbrev pub ◌>>◌ {ℓ} : {B : Type ℓ} → Option (Unit {0}) → Option B → Option B
m >> k = m >>= λ _. k

abbrev pub check : Bool → Option (Unit {0})
check true = some tt
check false = none

-- `_text`, on a text
unfoldable pub is_text : String → Bool
is_text s = let cs = codes s in ltb 0 (length cs) && (leb (length cs) 128 && all (λ c. leb 32 c) cs)

abbrev pub is_hex : ℕ → Bool
is_hex c = leb 48 c && leb c 57 || leb 97 c && leb c 102

abbrev pub same_codes : List ℕ → List ℕ → Bool
same_codes [] [] = true
same_codes [] (d ∷ ds) = false
same_codes (c ∷ cs) [] = false
same_codes (c ∷ cs) (d ∷ ds) = c == d && same_codes cs ds

-- `_hash`, on a text: sha256:[0-9a-f]{64}
unfoldable pub is_hash : String → Bool
is_hash s =
    let cs = codes s in
    length cs == 71 && (same_codes (take 7 cs) (codes "sha256:") && all is_hex (drop 7 cs))

-- `_integer`, on an integer that is not negative
unfoldable pub is_integer : ℕ → Bool
is_integer n = leb n max_integer

pub record Context : Type 0 where
  pub tenant : String
  pub environment : String
  pub api_audience : String
  pub idempotency_domain : String
  pub currency : String
  pub minor_unit_scale : ℕ

-- A request that has its fields, each of its type. The amount is the number that its text denotes.
pub record Request : Type 0 where
  pub schema : String
  pub context : Context
  pub open context use *
  pub operation_id : String
  pub idempotency_key : String
  pub configuration_digest : String
  pub recovery_epoch : ℕ
  pub source_account : String
  pub beneficiary : String
  pub amount_minor : ℕ

abbrev pub request_schema : String
request_schema = "synthetic-loopback-payment-request-v0"

abbrev pub get_text : String → Fields → Option String
get_text k fs = elim (get_field k fs) [
  | some v ↦ (elim v [ text s ↦ some s | _ ↦ none ])
  | none ↦ none
]

abbrev pub get_int : String → Fields → Option ℕ
get_int k fs = elim (get_field k fs) [
  | some v ↦ (elim v [ int n ↦ some n | _ ↦ none ])
  | none ↦ none
]

-- [A-Z]{3}
abbrev is_currency : String → Bool
is_currency s = let cs = codes s in length cs == 3 && all (λ c. leb 65 c && leb c 90) cs

-- The tests of `validate_context` on a context that has its fields.
unfoldable pub valid_context : Context → Bool
unfolding is_text
valid_context c =
    is_text c.tenant
    && (is_text c.environment
        && (is_text c.api_audience
            && (is_text c.idempotency_domain
                && (is_currency c.currency && leb c.minor_unit_scale 9))))

-- set(item) == REQUEST_FIELDS, with the types that the later tests ask for.
unfoldable pub request_fields : Json → Option Request
request_fields (dict fs) = do
  check (count_fields fs == 14)
  schema ← get_text "schema" fs
  tenant ← get_text "tenant" fs
  environment ← get_text "environment" fs
  api_audience ← get_text "api_audience" fs
  idempotency_domain ← get_text "idempotency_domain" fs
  currency ← get_text "currency" fs
  minor_unit_scale ← get_int "minor_unit_scale" fs
  operation_id ← get_text "operation_id" fs
  idempotency_key ← get_text "idempotency_key" fs
  configuration_digest ← get_text "configuration_digest" fs
  recovery_epoch ← get_int "recovery_epoch" fs
  source_account ← get_text "source_account" fs
  beneficiary ← get_text "beneficiary" fs
  amount_text ← get_text "amount_minor" fs
  amount_minor ← decimal amount_text
  some (record {
    schema = schema;
    context = record {
      tenant = tenant;
      environment = environment;
      api_audience = api_audience;
      idempotency_domain = idempotency_domain;
      currency = currency;
      minor_unit_scale = minor_unit_scale;
    };
    operation_id = operation_id;
    idempotency_key = idempotency_key;
    configuration_digest = configuration_digest;
    recovery_epoch = recovery_epoch;
    source_account = source_account;
    beneficiary = beneficiary;
    amount_minor = amount_minor;
  })
request_fields _ = none

-- The tests of `request_bytes` on a request that has its fields.
unfoldable pub valid_request : Request → Bool
valid_request r =
    str_eq r.schema request_schema
    && (valid_context r.context
        && (is_text r.operation_id
            && (is_text r.idempotency_key
                && (is_text r.source_account
                    && (is_text r.beneficiary
                        && (not (str_eq r.source_account r.beneficiary)
                            && (is_hash r.configuration_digest
                                && (is_integer r.recovery_epoch && not (r.amount_minor == 0)))))))))

unfoldable pub request_bytes : JsonLib → Json → Option String
request_bytes lib request = do
  raw ← canonical_json lib request
  item ← load_json lib raw
  r ← request_fields item
  check (valid_request r)
  some raw

-- `_check_scope`: whether the request is of the context's scope.
unfoldable pub same_scope : Request → Context → Bool
same_scope r c =
    str_eq r.tenant c.tenant
    && (str_eq r.environment c.environment
        && (str_eq r.api_audience c.api_audience
            && str_eq r.idempotency_domain c.idempotency_domain))

-- `_check_generation`: whether it returns.
unfoldable pub same_generation : Request → Context → ℕ → String → Bool
same_generation r c epoch configuration =
    str_eq r.currency c.currency
    && (r.minor_unit_scale == c.minor_unit_scale
        && (r.recovery_epoch == epoch && str_eq r.configuration_digest configuration))

-- A request that was prepared: the value that was read back, its fields and its bytes.
pub record Prepared : Type 0 where
  pub snapshot : Json
  pub request : Request
  pub raw : String

-- `Adapter._prepare`
unfoldable pub prepare : JsonLib → Context → Json → Option Prepared
prepare lib context request = do
  raw ← request_bytes lib request
  snapshot ← load_json lib raw
  r ← request_fields snapshot
  check (same_scope r context)
  some (record { snapshot = snapshot; request = r; raw = raw })
