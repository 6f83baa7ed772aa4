-- ===== src/Runtime/Provider/Applied.antt =====
-- What `_apply_payment` has done where it returns: either the payment was there and nothing
-- changes, or one row is new, with the effect of its outcome.
use vap_spec.Base.{
  ℕ, ◌≡◌, refl, Bool, true, false, Option, none, some, String, List, [], ◌∷◌, ◌++◌, arith, inl, inr,
  Bool-cases, Option-cases, ◌∙◌, ap, sym,
}
use vap_spec.Runtime.Outcome.{Result, ok, err, ◌>>=◌}
use vap_spec.Runtime.Request.{Prepared}
use vap_spec.Runtime.Receipt.{Platform, bytes_digest, Status, settled, failed}
use vap_spec.Runtime.Rows.{Identity, find, insert}
use vap_spec.Runtime.Provider.{
  ProviderConfig, ProviderStore, Payment, Effect, scope_of, balance, Effected, refused, moved, move,
  has_effect, identity_of, record_payment, settle, pay_new, pay_found, payment_body,
}

module _ (p : Platform) (config : ProviderConfig) (now_ms : ℕ) where
  abbrev pub payment_identity : Payment → Identity
  payment_identity q = q.identity

  -- The row that a payment leaves.
  abbrev pub payment_row : String → Prepared → Status → String → Payment
  payment_row scope request status receipt = record {
    identity = identity_of p config now_ms scope request;
    status = status;
    receipt_bytes = receipt;
  }

  record_payment-eq-ok :
      (scope : String) (request : Prepared) (status : Status) (failure : Option String)
      (s : ProviderStore) (receipt : String) (created : Bool) (s' : ProviderStore)
      → record_payment p config now_ms scope request status failure s ≡ ok ((receipt, created), s')
      → (created ≡ true)
        × (s' ≡ record s { payments = s'.payments })
        × (insert payment_identity (payment_row scope request status receipt) s.payments
            ≡ ok s'.payments)
  unfolding record_payment
  record_payment-eq-ok scope request status failure s receipt created s' h = ground arith

  abbrev pub effect_of : Prepared → Effect
  effect_of request = record {
    request_digest = bytes_digest p request.raw;
    source_account = request.request.source_account;
    beneficiary = request.request.beneficiary;
    amount_minor = request.request.amount_minor;
  }

  abbrev pub moves : Prepared → List (String × ℕ) → Effected
  moves request balances =
      let r = request.request in
      move r (balance r.source_account balances) (balance r.beneficiary balances) balances

  -- The balances and effects of a payment by its outcome.
  pub data Ledger (request : Prepared) (s s' : ProviderStore) (status : Status) : Type 0 where
    not_moved :
        status ≡ failed
        → s'.balances ≡ s.balances
        → s'.effects ≡ s.effects
        → Ledger request s s' status
    has_moved :
        status ≡ settled
        → moves request s.balances ≡ moved s'.balances
        → has_effect (bytes_digest p request.raw) s.effects ≡ false
        → s'.effects ≡ s.effects ++ effect_of request ∷ []
        → Ledger request s s' status

  -- What a new payment has changed.
  pub record Applied (request : Prepared) (s : ProviderStore) (receipt : String)
      (s' : ProviderStore) : Type 0 where
    pub scope : String
    pub in_scope : scope_of p config.context ≡ some scope
    pub absent : find payment_identity scope request.request request.raw s.payments ≡ ok none
    pub status : Status
    pub inserted :
        insert payment_identity (payment_row scope request status receipt) s.payments
        ≡ ok s'.payments
    pub meta : s'.meta ≡ s.meta
    pub ledger : Ledger request s s' status

  record Settled (scope : String) (request : Prepared) (s : ProviderStore) (receipt : String)
      (created : Bool) (s' : ProviderStore) : Type 0 where
    is_new : created ≡ true
    status : Status
    inserted :
        insert payment_identity (payment_row scope request status receipt) s.payments
        ≡ ok s'.payments
    meta : s'.meta ≡ s.meta
    ledger : Ledger request s s' status

  settle-eq-ok :
      (scope : String) (request : Prepared) (e : Effected) (s : ProviderStore) (receipt : String)
      (created : Bool) (s' : ProviderStore)
      → moves request s.balances ≡ e
      → settle p config now_ms scope request e s ≡ ok ((receipt, created), s')
      → Settled scope request s receipt created s'
  unfolding settle
  settle-eq-ok scope request (refused reason) s receipt created s' m h =
      let (is_new, same, inserted) =
        record_payment-eq-ok scope request failed (some reason) s receipt created s' h in
      record {
        is_new = is_new;
        status = failed;
        inserted = inserted;
        meta = ap (λ (t : ProviderStore). t.meta) same;
        ledger =
            not_moved refl (ap (λ (t : ProviderStore). t.balances) same)
              (ap (λ (t : ProviderStore). t.effects) same);
      }
  settle-eq-ok scope request (moved balances) s receipt created s' m h =
      elim (Bool-cases (has_effect (bytes_digest p request.raw) s.effects)) [
        | inl there ↦ ground arith
        | inr free ↦
            let after = record s {
              balances = balances;
              effects = s.effects ++ effect_of request ∷ [];
            } in
            let (is_new, same, inserted) =
              record_payment-eq-ok scope request settled none after receipt created s'
                (rw free at h) in
            record {
              is_new = is_new;
              status = settled;
              inserted = inserted;
              meta = ap (λ (t : ProviderStore). t.meta) same;
              ledger =
                  has_moved refl (m ∙ ap moved (sym (ap (λ (t : ProviderStore). t.balances) same)))
                    free (ap (λ (t : ProviderStore). t.effects) same);
            }
      ]

  pay_new-eq-ok :
      (scope : String) (request : Prepared) (s : ProviderStore) (receipt : String) (created : Bool)
      (s' : ProviderStore)
      → pay_new p config now_ms scope request s ≡ ok ((receipt, created), s')
      → Settled scope request s receipt created s'
  unfolding pay_new
  pay_new-eq-ok scope request s receipt created s' h =
      settle-eq-ok scope request (moves request s.balances) s receipt created s' refl (ground arith)

  -- Where the transaction commits, the payment is new, or it was there and the store is the same.
  pub data Outcome (request : Prepared) (s : ProviderStore) (receipt : String) (created : Bool)
      (s' : ProviderStore) : Type 0 where
    replayed :
        (scope : String) (row : Payment)
        → scope_of p config.context ≡ some scope
        → find payment_identity scope request.request request.raw s.payments ≡ ok (some row)
        → row.receipt_bytes ≡ receipt
        → created ≡ false
        → s' ≡ s
        → Outcome request s receipt created s'
    applied : created ≡ true → Applied request s receipt s' → Outcome request s receipt created s'

  pub payment_body-eq-ok :
      (request : Prepared) (s : ProviderStore) (receipt : String) (created : Bool)
      (s' : ProviderStore)
      → payment_body p config now_ms request s ≡ ok ((receipt, created), s')
      → Outcome request s receipt created s'
  unfolding payment_body
  payment_body-eq-ok request s receipt created s' h =
      elim (Option-cases (scope_of p config.context)) [
        | inl e ↦ ground arith
        | inr (scope, e) ↦
            go scope e (find payment_identity scope request.request request.raw s.payments) refl
              (ground arith)
      ]
    where
      go :
          (scope : String)
          → scope_of p config.context ≡ some scope
          → (f : Result (Option Payment))
          → find payment_identity scope request.request request.raw s.payments ≡ f
          → (f >>= λ existing. pay_found p config now_ms scope request existing s)
            ≡ ok ((receipt, created), s')
          → Outcome request s receipt created s'
      go scope e (err x) q g = cc
      go scope e (ok none) q g =
          let t = pay_new-eq-ok scope request s receipt created s' g in
          applied t.is_new (record {
            scope = scope;
            in_scope = e;
            absent = q;
            status = t.status;
            inserted = t.inserted;
            meta = t.meta;
            ledger = t.ledger;
          })
      go scope e (ok (some row)) q g =
          replayed scope row e q (ground arith) (ground arith) (ground arith)
