-- ===== src/Runtime/Journal.antt =====
-- payment_runtime.py: the adapter's journal of dispatch claims, and the table of admission proofs
-- that authorization_gate.py keeps in the same store.
use vap_spec.Base.{
  ℕ, Bool, true, false, not, ◌&&◌, Option, none, some, String, List, [], ◌∷◌, str_eq, if◌then◌else◌,
}
use vap_spec.Runtime.Outcome.{
  value_error, db_error, fault, Result, ok, err, ◌>>=◌, ◌>>◌, require, or_raise,
}
use vap_spec.Runtime.Request.{Context, Prepared, same_generation}
use vap_spec.Runtime.Receipt.{Platform, bytes_digest, Status, verify_receipt}
use vap_spec.Runtime.Rows.{transaction, MetaTable, is_current, Identity, find, insert}

pub record Adapter : Type 0 where
  pub context : Context
  pub scope : String
  pub provider_public_key : String
  pub provider_id : String
  pub configuration_digest : String
  pub recovery_epoch : ℕ

pub data DispatchState : Type 0 where
  claimed : DispatchState
  terminal : Status → DispatchState

-- A row of dispatches. The table's CHECK makes the receipt and its time go with a terminal state.
pub record Dispatch : Type 0 where
  pub identity : Identity
  pub state : DispatchState
  pub receipt_bytes : Option String
  pub claimed_at_ms : ℕ
  pub observed_at_ms : Option ℕ

-- A row of authorization_proofs.
pub record Proof : Type 0 where
  pub request_digest : String
  pub record_bytes : String
  pub record_digest : String
  pub admitted_at_ms : ℕ

pub record Journal : Type 0 where
  pub meta : MetaTable
  pub dispatches : List Dispatch
  pub proofs : List Proof

-- `admit_new_claim`: it may add to the proofs of the open transaction, or raise.
abbrev pub Admit : Type 0
Admit = Prepared → ℕ → List Proof → Result (List Proof)

abbrev pub identity_of : Dispatch → Identity
identity_of r = r.identity

-- SELECT * FROM dispatches WHERE request_digest=?
unfoldable pub by_digest : String → List Dispatch → Option Dispatch
by_digest d [] = none
by_digest d (r ∷ rows) = if str_eq r.identity.request_digest d then some r else by_digest d rows

abbrev pub is_claimed : DispatchState → Bool
is_claimed claimed = true
is_claimed (terminal s) = false

-- UPDATE dispatches SET state=?,receipt_bytes=?,observed_at_ms=? WHERE request_digest=? AND
-- state='CLAIMED'
unfoldable pub finish : Status → String → ℕ → String → Dispatch → Dispatch
finish status receipt at_ms d r =
    if str_eq r.identity.request_digest d && is_claimed r.state
    then record r {
      state = terminal status;
      receipt_bytes = some receipt;
      observed_at_ms = some at_ms;
    }
    else r

unfoldable pub finish_all : Status → String → ℕ → String → List Dispatch → List Dispatch
finish_all status receipt at_ms d [] = []
finish_all status receipt at_ms d (r ∷ rows) =
    finish status receipt at_ms d r ∷ finish_all status receipt at_ms d rows

module _ (p : Platform) (config : Adapter) where
  unfoldable pub new_row : Prepared → ℕ → Dispatch
  new_row request at_ms = record {
    identity = record {
      request_digest = bytes_digest p request.raw;
      scope = config.scope;
      operation_id = request.request.operation_id;
      idempotency_key = request.request.idempotency_key;
      request_bytes = request.raw;
    };
    state = claimed;
    receipt_bytes = none;
    claimed_at_ms = at_ms;
    observed_at_ms = none;
  }

  abbrev admitted : Option Admit → Prepared → ℕ → List Proof → Result (List Proof)
  admitted none request at_ms proofs = ok proofs
  admitted (some admit) request at_ms proofs = admit request at_ms proofs

  unfoldable pub claim_new :
      Option Admit → ℕ → Prepared → Journal → Result ((Dispatch × Bool) × Journal)
  claim_new admit at_ms request j = do
    require (is_current config.recovery_epoch config.configuration_digest j.meta)
        (value_error "stale_runtime_generation")
    require
        (same_generation request.request config.context config.recovery_epoch
          config.configuration_digest)
        (value_error "request_currency_unit_or_generation_mismatch")
    proofs ← admitted admit request at_ms j.proofs
    dispatches ← insert identity_of (new_row request at_ms) j.dispatches
    ok ((new_row request at_ms, true), record j { dispatches = dispatches; proofs = proofs })

  unfoldable pub claim_found :
      Option Admit → ℕ → Prepared → Option Dispatch → Journal → Result ((Dispatch × Bool) × Journal)
  claim_found admit at_ms request (some existing) j = ok ((existing, false), j)
  claim_found admit at_ms request none j = claim_new admit at_ms request j

  unfoldable pub claim_body :
      Bool → Option Admit → ℕ → Prepared → Journal → Result ((Dispatch × Bool) × Journal)
  unfolding claim_found
  claim_body db_fails admit at_ms request j = do
    require (not db_fails) db_error
    existing ← find identity_of config.scope request.request request.raw j.dispatches
    claim_found admit at_ms request existing j

  -- `_claim`: the row, and whether it is new.
  unfoldable pub claim :
      Bool → Option Admit → ℕ → Prepared → Journal → Result (Dispatch × Bool) × Journal
  unfolding transaction claim_body
  claim db_fails admit at_ms request j = transaction (claim_body db_fails admit at_ms request) j

  -- `_read`
  unfoldable pub read : Bool → Prepared → Journal → Result (Option Dispatch)
  read db_fails request j = do
    require (not db_fails) db_error
    find identity_of config.scope request.request request.raw j.dispatches

  abbrev pub same_receipt : Option String → String → Bool
  same_receipt none receipt = false
  same_receipt (some r) receipt = str_eq r receipt

  unfoldable pub store_found :
      Status → String → ℕ → Prepared → Option Dispatch → Journal → Result (Dispatch × Journal)
  store_found status receipt at_ms request none j =
      err (value_error "original_dispatch_claim_missing")
  store_found status receipt at_ms request (some existing) j =
      let d = bytes_digest p request.raw in
      let rows = finish_all status receipt at_ms d j.dispatches in
      if is_claimed existing.state
      then (do row ← or_raise (by_digest d rows) fault; ok (row, record j { dispatches = rows }))
      else if same_receipt existing.receipt_bytes receipt
      then ok (existing, j)
      else err (value_error "conflicting_terminal_receipt")

  unfoldable pub store_body :
      Bool → Status → String → ℕ → Prepared → Journal → Result (Dispatch × Journal)
  unfolding store_found
  store_body db_fails status receipt at_ms request j = do
    require (not db_fails) db_error
    existing ← find identity_of config.scope request.request request.raw j.dispatches
    store_found status receipt at_ms request existing j

  -- `_store_receipt`
  unfoldable pub store_receipt : Bool → ℕ → Prepared → String → Journal → Result Dispatch × Journal
  unfolding transaction store_body
  store_receipt db_fails at_ms request receipt j =
      elim (verify_receipt p receipt request.raw config.provider_public_key config.provider_id) [
        | none ↦ (err (value_error "native_receipt"), j)
        | some v ↦ transaction (store_body db_fails v.status receipt at_ms request) j
      ]
