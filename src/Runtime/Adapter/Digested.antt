-- ===== src/Runtime/Adapter/Digested.antt =====
-- payment_runtime.py: the rows of the adapter's journal stand under the digests of their bytes, and
-- what `_find` and `_store_receipt` return for a request is of that request.
use vap_spec.Base.{
  ℕ, ◌≡◌, refl, sym, ap, ◌∙◌, Bool, true, false, Option, none, some, String, List, [], ◌∷◌, ◌++◌,
  All, arith, str_eq, eq_iff, inl, inr, Bool-cases, Option-cases,
}
use mathlib.Core.Path.{subst}
use vap_spec.Runtime.Outcome.{Result, ok, err, ◌>>=◌}
use vap_spec.Runtime.Request.{Prepared}
use vap_spec.Runtime.Receipt.{Platform, bytes_digest, Status, verify_receipt}
use vap_spec.Runtime.Rows.{transaction, find}
use vap_spec.Runtime.Rows.Laws.{find-eq_some, insert-eq_ok}
use vap_spec.Runtime.Journal.{
  Adapter, Dispatch, Journal, identity_of, new_row, finish, finish_all, by_digest, is_claimed,
  same_receipt, read, store_receipt, store_body, store_found,
}
use vap_spec.Runtime.Adapter.{State}
use vap_spec.Runtime.Adapter.Changes.{Received, untouched, written, Claimed}
use vap_spec.Runtime.Adapter.Moves.{
  Move, quiet, claimed_only, claimed_posted, Call, run, run_invariant,
}

module _ (p : Platform) where
  -- A row stands under the digest of its bytes.
  abbrev pub IsDigested : Dispatch → Type 0
  IsDigested r = r.identity.request_digest ≡ bytes_digest p r.identity.request_bytes

  finish_all-IsDigested :
      (status : Status) (receipt : String) (at_ms : ℕ) (d : String) (rows : List Dispatch)
      → All IsDigested rows
      → All IsDigested (finish_all status receipt at_ms d rows)
  unfolding finish_all finish
  finish_all-IsDigested status receipt at_ms d [] h = tt
  finish_all-IsDigested status receipt at_ms d (r ∷ rows) (here, there) = (
    elim (Bool-cases (str_eq r.identity.request_digest d)) [
      | inl same ↦ (elim (Bool-cases (is_claimed r.state)) [
        | inl claims ↦ rw (same, claims) here
        | inr ended ↦ rw (same, ended) here
      ])
      | inr other ↦ rw other here
    ],
    finish_all-IsDigested status receipt at_ms d rows there,
  )

  append-IsDigested :
      (rows : List Dispatch) (r : Dispatch)
      → All IsDigested rows
      → IsDigested r
      → All IsDigested (rows ++ r ∷ [])
  append-IsDigested [] r h k = (k, tt)
  append-IsDigested (x ∷ rows) r (here, there) k = (here, append-IsDigested rows r there k)

  by_digest-IsDigested :
      (d : String) (rows : List Dispatch) (r : Dispatch)
      → All IsDigested rows
      → by_digest d rows ≡ some r
      → bytes_digest p r.identity.request_bytes ≡ d
  unfolding by_digest
  by_digest-IsDigested d [] r h e = absurd cc
  by_digest-IsDigested d (x ∷ rows) r (here, there) e =
      elim (Bool-cases (str_eq x.identity.request_digest d)) [
        | inl same ↦
            let is_r : x ≡ r = ground (arith, e, same) in
            subst (λ (y : Dispatch). bytes_digest p y.identity.request_bytes ≡ d) is_r
              (sym here ∙ (eq_iff x.identity.request_digest d).0 same)
        | inr other ↦ by_digest-IsDigested d rows r there (ground (arith, e, other))
      ]

  module _ (config : Adapter) where
    abbrev pub AreDigested : State → Type 0
    AreDigested s = All IsDigested s.journal.dispatches

    Received-IsDigested :
        (request : Prepared) (j j' : Journal)
        → Received p config request j j'
        → All IsDigested j.dispatches
        → All IsDigested j'.dispatches
    Received-IsDigested request j j' (untouched e) h =
        subst (λ (t : Journal). All IsDigested t.dispatches) (sym e) h
    Received-IsDigested request j j' (written status receipt at_ms e) h =
        subst (λ (t : Journal). All IsDigested t.dispatches) (sym e)
          (finish_all-IsDigested status receipt at_ms (bytes_digest p request.raw) j.dispatches h)

    pub Claimed-IsDigested :
        (request : Prepared) (at_ms : ℕ) (j j' : Journal)
        → Claimed p config request at_ms j j'
        → All IsDigested j.dispatches
        → All IsDigested j'.dispatches
    unfolding new_row
    Claimed-IsDigested request at_ms j j' c h =
        let (at_end, free) =
          insert-eq_ok identity_of config.scope request.request request.raw
            (new_row p config request at_ms) j.dispatches j'.dispatches c.inserted in
        subst (λ rows. All IsDigested rows) (sym at_end)
          (append-IsDigested j.dispatches (new_row p config request at_ms) h refl)

    Move-IsDigested : (s s' : State) → Move p config s s' → AreDigested s → AreDigested s'
    Move-IsDigested s s' (quiet request r e) h =
        Received-IsDigested request s.journal s'.journal r h
    Move-IsDigested s s' (claimed_only request at_ms c e) h =
        Claimed-IsDigested request at_ms s.journal s'.journal c h
    Move-IsDigested s s' (claimed_posted request at_ms j c r e) h =
        Received-IsDigested request j s'.journal r
          (Claimed-IsDigested request at_ms s.journal j c h)

    pub run-IsDigested :
        (calls : List Call) (s : State) → AreDigested s → AreDigested (run p config calls s)
    run-IsDigested calls s h = run_invariant p config AreDigested Move-IsDigested calls s h

    module _ (request : Prepared) where
      -- The row's bytes have the digest of the request's.
      abbrev pub IsOf : Dispatch → Type 0
      IsOf row = bytes_digest p row.identity.request_bytes ≡ bytes_digest p request.raw

      pub find-IsOf :
          (rows : List Dispatch) (row : Dispatch)
          → find identity_of config.scope request.request request.raw rows ≡ ok (some row)
          → IsOf row
      find-IsOf rows row h =
          ap (bytes_digest p)
            (find-eq_some identity_of config.scope request.request request.raw rows row
              h).own.request_bytes

      pub read-IsOf :
          (fails : Bool) (j : Journal) (row : Dispatch)
          → read p config fails request j ≡ ok (some row)
          → IsOf row
      unfolding read
      read-IsOf true j row h = absurd cc
      read-IsOf false j row h = find-IsOf j.dispatches row h

      found-IsOf :
          (status : Status) (receipt : String) (at_ms : ℕ) (x : Option Dispatch) (j : Journal)
          (row : Dispatch)
          → ((r : Dispatch) → x ≡ some r → IsOf r)
          → All IsDigested j.dispatches
          → (transaction (store_found p config status receipt at_ms request x) j).0 ≡ ok row
          → IsOf row
      unfolding transaction store_found
      found-IsOf status receipt at_ms none j row f h e = absurd cc
      found-IsOf status receipt at_ms (some r) j row f h e =
          let d = bytes_digest p request.raw in
          let rows = finish_all status receipt at_ms d j.dispatches in
          elim (Bool-cases (is_claimed r.state)) [
            | inl claims ↦ elim (Option-cases (by_digest d rows)) [
              | inl gone ↦ absurd (ground (arith, e, claims, gone))
              | inr (x, there) ↦
                  let is_row : x ≡ row = ground (arith, e, claims, there) in
                  subst (λ y. IsOf y) is_row
                    (by_digest-IsDigested d rows x
                      (finish_all-IsDigested status receipt at_ms d j.dispatches h) there)
            ]
            | inr ended ↦ elim (Bool-cases (same_receipt p config r.receipt_bytes receipt)) [
              | inl same ↦
                  let is_row : r ≡ row = ground (arith, e, ended, same) in
                  subst (λ y. IsOf y) is_row (f r refl)
              | inr other ↦ absurd (ground (arith, e, ended, other))
            ]
          ]

      body-IsOf :
          (status : Status) (receipt : String) (at_ms : ℕ) (j : Journal) (row : Dispatch)
          (x : Result (Option Dispatch))
          → ((r : Dispatch) → x ≡ ok (some r) → IsOf r)
          → All IsDigested j.dispatches
          → (transaction
              (λ t. x >>= λ y. store_found p config status receipt at_ms request y t)
              j).0
            ≡ ok row
          → IsOf row
      unfolding transaction
      body-IsOf status receipt at_ms j row (err x) f h e = absurd cc
      body-IsOf status receipt at_ms j row (ok x) f h e =
          found-IsOf status receipt at_ms x j row (λ r same. f r (ap ok same)) h e

      opened-IsOf :
          (fails : Bool) (status : Status) (receipt : String) (at_ms : ℕ) (j : Journal)
          (row : Dispatch)
          → All IsDigested j.dispatches
          → (transaction (store_body p config fails status receipt at_ms request) j).0 ≡ ok row
          → IsOf row
      unfolding transaction store_body
      opened-IsOf true status receipt at_ms j row h e = absurd cc
      opened-IsOf false status receipt at_ms j row h e =
          body-IsOf status receipt at_ms j row
            (find identity_of config.scope request.request request.raw j.dispatches)
            (λ r there. find-IsOf j.dispatches r there) h e

      pub store_receipt-IsOf :
          (fails : Bool) (at_ms : ℕ) (receipt : String) (j : Journal) (row : Dispatch)
          → All IsDigested j.dispatches
          → (store_receipt p config fails at_ms request receipt j).0 ≡ ok row
          → IsOf row
      unfolding store_receipt
      store_receipt-IsOf fails at_ms receipt j row h e =
          elim (Option-cases
            (verify_receipt p receipt request.raw config.provider_public_key config.provider_id)) [
              | inl bad ↦ absurd (ground (arith, e, bad))
              | inr (v, good) ↦
                  opened-IsOf fails v.status receipt at_ms j row h (ground (arith, e, good))
            ]
