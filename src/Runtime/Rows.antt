-- ===== src/Runtime/Rows.antt =====
-- payment_runtime.py: what the two SQLite stores share: transactions, the metadata table and the
-- lookup of a row by a request's immutable identity.
pub mod Laws
pub mod Generations
use vap_spec.Base.{
  ℕ, Bool, true, false, not, ◌&&◌, ◌||◌, Option, none, some, String, List, [], ◌∷◌, ◌++◌, ltb, ◌==◌,
  str_eq, if◌then◌else◌,
}
use vap_spec.Runtime.Outcome.{Exc, value_error, db_error, Result, ok, err, ◌>>=◌, ◌>>◌, require}
use vap_spec.Runtime.Request.{Request}

-- BEGIN IMMEDIATE … COMMIT, with ROLLBACK on every exception.
unfoldable pub transaction {ℓ} : {A S : Type ℓ} → (S → Result (A × S)) → S → Result A × S
transaction body s = elim (body s) [ ok (a, s') ↦ (ok a, s') | err e ↦ (err e, s) ]

pub record Generation : Type 0 where
  pub recovery_epoch : ℕ
  pub configuration_digest : String

-- The metadata table: the rows 'identity' and 'generation'.
pub record MetaTable : Type 0 where
  pub identity : Option String
  pub generation : Option Generation

abbrev pub generation_step : Generation → Option Generation → Result (Option Generation)
generation_step new none = err (value_error "persisted_generation_missing")
generation_step new (some old) =
    if ltb new.recovery_epoch old.recovery_epoch
      || (new.recovery_epoch == old.recovery_epoch
          && not (str_eq new.configuration_digest old.configuration_digest))
    then err (value_error "persisted_generation_rollback_or_redefinition")
    else if ltb old.recovery_epoch new.recovery_epoch
    then ok (some new)
    else ok (some old)

-- `_meta`: the first opening of a store writes its identity and generation, and a later one checks
-- them and may advance the generation.
unfoldable pub open_meta : String → Generation → MetaTable → Result MetaTable
open_meta expected new m = elim m.identity [
  | none ↦ ok (record { identity = some expected; generation = some new })
  | some value ↦ (do
    require (str_eq value expected) (value_error "persisted_store_identity_mismatch")
    g ← generation_step new m.generation
    ok (record m { generation = g }))
]

-- `_current_generation`: whether it returns.
unfoldable pub is_current : ℕ → String → MetaTable → Bool
is_current epoch configuration m = elim m.generation [
  | none ↦ false
  | some g ↦ g.recovery_epoch == epoch && str_eq g.configuration_digest configuration
]

-- The columns that payments and dispatches share.
pub record Identity : Type 0 where
  pub request_digest : String
  pub scope : String
  pub operation_id : String
  pub idempotency_key : String
  pub request_bytes : String

unfoldable pub select {ℓ} : {A : Type ℓ} → (A → Bool) → List A → List A
select p [] = []
select p (x ∷ xs) = let rest = select p xs in if p x then x ∷ rest else rest

-- scope=? AND (operation_id=? OR idempotency_key=?)
unfoldable pub overlaps : String → String → String → Identity → Bool
overlaps scope operation_id idempotency_key r =
    str_eq r.scope scope
    && (str_eq r.operation_id operation_id || str_eq r.idempotency_key idempotency_key)

abbrev pub conflict : String
conflict = "immutable_request_identity_conflict"

unfoldable pub the_row {ℓ} :
    {A : Type ℓ} → (A → Identity) → Request → String → List A → Result (Option A)
the_row ident request raw [] = ok none
the_row ident request raw (row ∷ []) =
    if str_eq (ident row).operation_id request.operation_id
      && (str_eq (ident row).idempotency_key request.idempotency_key
          && str_eq (ident row).request_bytes raw)
    then ok (some row)
    else err (value_error conflict)
the_row ident request raw (row ∷ other ∷ rest) = err (value_error conflict)

-- `_find`
unfoldable pub find {ℓ} :
    {A : Type ℓ} → (A → Identity) → String → Request → String → List A → Result (Option A)
unfolding the_row
find ident scope request raw rows =
    the_row ident request raw
      (select (λ r. overlaps scope request.operation_id request.idempotency_key (ident r)) rows)

-- The constraints PRIMARY KEY(request_digest), UNIQUE(scope, operation_id) and
-- UNIQUE(scope, idempotency_key): whether a row clashes with another.
unfoldable pub clashes : Identity → Identity → Bool
unfolding overlaps
clashes new r =
    str_eq r.request_digest new.request_digest
    || overlaps new.scope new.operation_id new.idempotency_key r

abbrev pub clashes_any {ℓ} : {A : Type ℓ} → (A → Identity) → Identity → List A → Bool
clashes_any ident new [] = false
clashes_any ident new (r ∷ rows) = clashes new (ident r) || clashes_any ident new rows

-- INSERT INTO the table
unfoldable pub insert {ℓ} : {A : Type ℓ} → (A → Identity) → A → List A → Result (List A)
insert ident row rows =
    if clashes_any ident (ident row) rows then err db_error else ok (rows ++ row ∷ [])
