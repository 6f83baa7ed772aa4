-- ===== src/Runtime/Adapter/Changes.antt =====
-- What each call does to the journal and to the requests that were posted.
use vap_spec.Base.{
  ℕ, ◌≡◌, refl, Bool, true, false, Option, none, some, String, arith, if◌then◌else◌, ◌==◌, inl, inr,
  Bool-cases, Option-cases,
}
use vap_spec.Runtime.Outcome.{Exc, db_error, fault, Result, ok, err, ◌>>=◌, or_raise}
use vap_spec.Runtime.Request.{Prepared}
use vap_spec.Runtime.Receipt.{Platform, bytes_digest, Status, verify_receipt}
use vap_spec.Runtime.Rows.{transaction, find, insert}
use vap_spec.Runtime.Journal.{
  Adapter, Dispatch, Journal, Admit, identity_of, finish_all, new_row, claim, claim_new,
  claim_found, store_receipt, store_body, store_found, by_digest, is_claimed, same_receipt,
}
use vap_spec.Runtime.Adapter.{Env, Report, Reason, receive, stored, retain_unknown}

module _ (p : Platform) (config : Adapter) where
  -- A journal that a call leaves: as it was, or with a receipt written to the request's claim.
  pub data Received (request : Prepared) (j j' : Journal) : Type 0 where
    untouched : j' ≡ j → Received request j j'
    written :
        (status : Status) (receipt : String) (at_ms : ℕ)
        → j' ≡ record j {
          dispatches = finish_all status receipt at_ms (bytes_digest p request.raw) j.dispatches;
        }
        → Received request j j'

  -- The claim is new: its row was inserted.
  pub record Claimed (request : Prepared) (at_ms : ℕ) (j j' : Journal) : Type 0 where
    pub absent : find identity_of config.scope request.request request.raw j.dispatches ≡ ok none
    pub inserted :
        insert identity_of (new_row p config request at_ms) j.dispatches ≡ ok j'.dispatches

  claim_new-eq_ok :
      (admit : Option Admit) (at_ms : ℕ) (request : Prepared) (j : Journal) {row : Dispatch}
      {created : Bool} {j' : Journal}
      → claim_new p config admit at_ms request j ≡ ok ((row, created), j')
      → (created ≡ true)
        × (row ≡ new_row p config request at_ms)
        × (insert identity_of (new_row p config request at_ms) j.dispatches ≡ ok j'.dispatches)
  unfolding claim_new
  claim_new-eq_ok none at_ms request j h = ground arith
  claim_new-eq_ok (some admit) at_ms request j h = ground arith

  -- What `_claim` returns and leaves.
  pub data ClaimResult (request : Prepared) (at_ms : ℕ) (j : Journal)
      : Result (Dispatch × Bool) × Journal → Type 0 where
    raised : (e : Exc) → ClaimResult request at_ms j (err e, j)
    existing :
        (row : Dispatch)
        → find identity_of config.scope request.request request.raw j.dispatches ≡ ok (some row)
        → ClaimResult request at_ms j (ok (row, false), j)
    created :
        (row : Dispatch) (j' : Journal)
        → row ≡ new_row p config request at_ms
        → Claimed request at_ms j j'
        → ClaimResult request at_ms j (ok (row, true), j')

  claimed_new :
      (admit : Option Admit) (at_ms : ℕ) (request : Prepared) (j : Journal)
      → find identity_of config.scope request.request request.raw j.dispatches ≡ ok none
      → (r : Result ((Dispatch × Bool) × Journal)) → claim_new p config admit at_ms request j ≡ r
      → ClaimResult request at_ms j (transaction (λ _. r) j)
  unfolding transaction
  claimed_new admit at_ms request j absent (err e) h = raised e
  claimed_new admit at_ms request j absent (ok ((row, true), j')) h =
      let (t, e, i) = claim_new-eq_ok admit at_ms request j h in
      created row j' e (record { absent = absent; inserted = i })
  claimed_new admit at_ms request j absent (ok ((row, false), j')) h =
      let (t, e, i) = claim_new-eq_ok admit at_ms request j h in cc

  claimed_found :
      (admit : Option Admit) (at_ms : ℕ) (request : Prepared) (j : Journal)
      → (f : Result (Option Dispatch))
      → find identity_of config.scope request.request request.raw j.dispatches ≡ f
      → ClaimResult request at_ms j
          (transaction (λ _. f >>= λ x. claim_found p config admit at_ms request x j) j)
  unfolding transaction claim_found
  claimed_found admit at_ms request j (err e) h = raised e
  claimed_found admit at_ms request j (ok (some row)) h = existing row h
  claimed_found admit at_ms request j (ok none) h =
      claimed_new admit at_ms request j h (claim_new p config admit at_ms request j) refl

  pub claim-ClaimResult :
      (db_fails : Bool) (admit : Option Admit) (at_ms : ℕ) (request : Prepared) (j : Journal)
      → ClaimResult request at_ms j (claim p config db_fails admit at_ms request j)
  unfolding claim
  claim-ClaimResult true admit at_ms request j = raised db_error
  claim-ClaimResult false admit at_ms request j =
      claimed_found admit at_ms request j
        (find identity_of config.scope request.request request.raw j.dispatches) refl

  written_row :
      (status : Status) (receipt : String) (at_ms : ℕ) (request : Prepared) (j : Journal)
      (o : Option Dispatch)
      → Received request j
          (transaction
            (λ _. or_raise o fault >>= λ row. ok (
              row,
              record j {
                dispatches =
                    finish_all status receipt at_ms (bytes_digest p request.raw) j.dispatches;
              },
            ))
            j).1
  unfolding transaction
  written_row status receipt at_ms request j none = untouched refl
  written_row status receipt at_ms request j (some row) = written status receipt at_ms refl

  store_written :
      (status : Status) (receipt : String) (at_ms : ℕ) (request : Prepared) (x : Option Dispatch)
      (j : Journal)
      → Received request j (transaction (store_found p config status receipt at_ms request x) j).1
  unfolding transaction store_found
  store_written status receipt at_ms request none j = untouched refl
  store_written status receipt at_ms request (some row) j =
      elim (Bool-cases (is_claimed row.state)) [
        | inl open_claim ↦
            rw (open_claim, transaction)
              (written_row status receipt at_ms request j (
                by_digest (bytes_digest p request.raw)
                  (finish_all status receipt at_ms (bytes_digest p request.raw) j.dispatches)))
        | inr closed ↦ elim (Bool-cases (same_receipt p config row.receipt_bytes receipt)) [
          | inl same ↦ rw (closed, same, transaction) (untouched refl)
          | inr other ↦ rw (closed, other, transaction) (untouched refl)
        ]
      ]

  store_body-Received :
      (status : Status) (receipt : String) (at_ms : ℕ) (request : Prepared) (j : Journal)
      (f : Result (Option Dispatch))
      → Received request j
          (transaction
            (λ j'. f >>= λ x. store_found p config status receipt at_ms request x j')
            j).1
  unfolding transaction
  store_body-Received status receipt at_ms request j (err e) = untouched refl
  store_body-Received status receipt at_ms request j (ok x) =
      store_written status receipt at_ms request x j

  store_receipt-Received :
      (db_fails : Bool) (at_ms : ℕ) (request : Prepared) (receipt : String) (j : Journal)
      → Received request j (store_receipt p config db_fails at_ms request receipt j).1
  unfolding store_receipt
  store_receipt-Received db_fails at_ms request receipt j =
      elim (Option-cases
        (verify_receipt p receipt request.raw config.provider_public_key config.provider_id)) [
          | inl e ↦ rw (e, store_receipt) (untouched refl)
          | inr (v, e) ↦ rw (e, store_receipt) (opened db_fails v.status at_ms request receipt j)
        ]
    where
      opened :
          (db_fails : Bool) (status : Status) (at_ms : ℕ) (request : Prepared) (receipt : String)
          (j : Journal)
          → Received request j
              (transaction (store_body p config db_fails status receipt at_ms request) j).1
      opened true status at_ms request receipt j = untouched refl
      opened false status at_ms request receipt j =
          store_body-Received status receipt at_ms request j
            (find identity_of config.scope request.request request.raw j.dispatches)

  stored-Received :
      (env : Env) (request : Prepared) (reason : Reason) (custody : Bool) (j : Journal)
      (r : Result Dispatch × Journal)
      → Received request j r.1
      → Received request j (stored p config env request reason custody r).1
  stored-Received env request reason custody j (ok row, j') h = h
  stored-Received env request reason custody j (err e, j') h = h

  Received-if :
      {request : Prepared} {j : Journal} (b : Bool) (x y : Report × Journal)
      → Received request j x.1
      → Received request j y.1
      → Received request j (if b then x else y).1
  Received-if true x y hx hy = hx
  Received-if false x y hx hy = hy

  -- An answer of the provider changes nothing but the request's own open claim.
  pub receive-Received :
      (env : Env) (request : Prepared) (refusal : ℕ → Reason) (failure : Reason) (custody : Bool)
      (response : Option (ℕ × String)) (j : Journal)
      → Received request j (receive p config env request refusal failure custody response j).1
  unfolding receive
  receive-Received env request refusal failure custody none j = untouched refl
  receive-Received env request refusal failure custody (some (status, receipt)) j =
      elim (Bool-cases (status == 200)) [
        | inr bad ↦ rw bad (untouched refl)
        | inl good ↦
            elim (Option-cases (
              verify_receipt p receipt request.raw config.provider_public_key config.provider_id)) [
                | inl e ↦ rw (good, e) (untouched refl)
                | inr (v, e) ↦
                    rw (good, e)
                      (Received-if env.response_hook_raises
                        (retain_unknown p config env request failure j, j) _ (untouched refl)
                        (stored-Received env request failure custody j
                          (store_receipt p config env.store_fails env.observed_at_ms request receipt
                            j)
                          (store_receipt-Received env.store_fails env.observed_at_ms request receipt
                            j)))
              ]
      ]
