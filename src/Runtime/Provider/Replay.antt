-- ===== src/Runtime/Provider/Replay.antt =====
-- A payment that was applied is never applied again: whatever comes in between, the same request
-- has its first receipt and changes nothing.
use vap_spec.Base.{ℕ, ◌≡◌, refl, Bool, false, some, String, List, [], ◌∷◌, arith, ◌∙◌, ap}
use vap_spec.Runtime.Outcome.{Result, ok, err}
use vap_spec.Runtime.Request.{Prepared}
use vap_spec.Runtime.Receipt.{Platform}
use vap_spec.Runtime.Rows.{transaction, find}
use vap_spec.Runtime.Rows.Laws.{find-insert_new, find-insert_kept}
use vap_spec.Runtime.Provider.{
  ProviderConfig, ProviderStore, Payment, scope_of, payment_body, apply_payment,
}
use vap_spec.Runtime.Provider.Http.{Weather, Post, do_post}
use vap_spec.Runtime.Provider.Applied.{
  payment_row, Applied, Outcome, replayed, applied, payment_body-eq-ok,
}
use vap_spec.Runtime.Provider.Steps.{Step, counted, paid, do_post-Step}

module _ (p : Platform) (config : ProviderConfig) where
  -- The POSTs that the provider serves, one after the other.
  abbrev pub serve : List (Weather × Post) → ProviderStore → ProviderStore
  serve [] s = s
  serve ((w, post) ∷ rest) s = serve rest (do_post p config w post s).1

  -- The request's payment is in the store with this receipt.
  record Holds (request : Prepared) (receipt : String) (s : ProviderStore) : Type 0 where
    scope : String
    in_scope : scope_of p config.context ≡ some scope
    row : Payment
    found :
        find (λ (q : Payment). q.identity) scope request.request request.raw s.payments
        ≡ ok (some row)
    issued : row.receipt_bytes ≡ receipt

  Holds-Step :
      {request : Prepared} {receipt : String} {s s' : ProviderStore}
      → Step p config s s'
      → Holds request receipt s
      → Holds request receipt s'
  Holds-Step {request} {receipt} {s} (counted n e) h = record {
    scope = h.scope;
    in_scope = h.in_scope;
    row = h.row;
    found =
        ap
          (λ (t : ProviderStore).
            find (λ (q : Payment). q.identity) h.scope request.request request.raw t.payments)
          e
        ∙ h.found;
    issued = h.issued;
  }
  Holds-Step {request} {receipt} {s} {s'} (paid n now_ms raw other r e a) h = record {
    scope = h.scope;
    in_scope = h.in_scope;
    row = h.row;
    found =
        find-insert_kept (λ (q : Payment). q.identity) h.scope request.request request.raw
          s.payments s'.payments h.row _ h.found a.inserted;
    issued = h.issued;
  }

  Holds-serve :
      {request : Prepared} {receipt : String} (posts : List (Weather × Post)) (s : ProviderStore)
      → Holds request receipt s
      → Holds request receipt (serve posts s)
  Holds-serve [] s h = h
  Holds-serve ((w, post) ∷ rest) s h =
      Holds-serve rest (do_post p config w post s).1 (Holds-Step (do_post-Step p config w post s) h)

  replay-Holds :
      (now_ms : ℕ) {request : Prepared} {receipt : String} (s : ProviderStore)
      → Holds request receipt s
      → apply_payment p config now_ms request s ≡ (ok (receipt, false), s)
  unfolding apply_payment
  replay-Holds now_ms {request} s h = ground (arith, h.in_scope, h.found, h.issued)

  Applied-Holds :
      {now_ms : ℕ} {request : Prepared} {receipt : String} {s s' : ProviderStore}
      → Applied p config now_ms request s receipt s'
      → Holds request receipt s'
  Applied-Holds {now_ms} {request} {receipt} {s} {s'} a = record {
    scope = a.scope;
    in_scope = a.in_scope;
    row = payment_row p config now_ms a.scope request a.status receipt;
    found =
        find-insert_new (λ (q : Payment). q.identity) a.scope request.request request.raw s.payments
          s'.payments _ a.absent a.inserted refl
          (record { operation_id = refl; idempotency_key = refl; request_bytes = refl });
    issued = refl;
  }

  Outcome-Holds :
      {now_ms : ℕ} {request : Prepared} {s : ProviderStore} {receipt : String} {created : Bool}
      {s' : ProviderStore}
      → Outcome p config now_ms request s receipt created s'
      → Holds request receipt s'
  Outcome-Holds {request} (replayed scope row in_scope found issued e same) = record {
    scope = scope;
    in_scope = in_scope;
    row = row;
    found =
        ap
          (λ (t : ProviderStore).
            find (λ (q : Payment). q.identity) scope request.request request.raw t.payments)
          same
        ∙ found;
    issued = issued;
  }
  Outcome-Holds (applied e a) = Applied-Holds a

  committed-Holds :
      (now_ms : ℕ) (request : Prepared) (s s' : ProviderStore) (receipt : String) (created : Bool)
      (r : Result ((String × Bool) × ProviderStore))
      → payment_body p config now_ms request s ≡ r
      → transaction (λ _. r) s ≡ (ok (receipt, created), s')
      → Holds request receipt s'
  unfolding transaction
  committed-Holds now_ms request s s' receipt created (err e) h t = ground arith
  committed-Holds now_ms request s s' receipt created (ok ((receipt', created'), s'')) h t =
      Outcome-Holds
        (payment_body-eq-ok p config now_ms request s receipt created s' (h ∙ ground arith))

  apply_payment-Holds :
      (now_ms : ℕ) (request : Prepared) (s s' : ProviderStore) (receipt : String) (created : Bool)
      → apply_payment p config now_ms request s ≡ (ok (receipt, created), s')
      → Holds request receipt s'
  unfolding apply_payment
  apply_payment-Holds now_ms request s s' receipt created h =
      committed-Holds now_ms request s s' receipt created (payment_body p config now_ms request s)
        refl h

  -- After `_apply_payment` has returned a receipt for a request, new or not, and after any POSTs
  -- that follow, `_apply_payment` of the same request returns the same receipt, says that the
  -- payment is not new, and leaves the store as it is.
  pub apply_payment-replay :
      (now_ms later_ms : ℕ) (request : Prepared) (s s' : ProviderStore) (receipt : String)
      (created : Bool) (posts : List (Weather × Post))
      → apply_payment p config now_ms request s ≡ (ok (receipt, created), s')
      → apply_payment p config later_ms request (serve posts s')
        ≡ (ok (receipt, false), serve posts s')
  apply_payment-replay now_ms later_ms request s s' receipt created posts h =
      replay-Holds later_ms (serve posts s')
        (Holds-serve posts s' (apply_payment-Holds now_ms request s s' receipt created h))
