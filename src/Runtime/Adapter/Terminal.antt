-- ===== src/Runtime/Adapter/Terminal.antt =====
-- Claims are retained, and a terminal row is never changed.
use vap_spec.Base.{
  ℕ, ◌≡◌, refl, ap, sym, ◌∙◌, false, some, String, List, [], ◌∷◌, ◌++◌, arith, str_eq, inl, inr,
  Bool-cases,
}
use mathlib.Core.Path.{subst}
use vap_spec.Runtime.Request.{Prepared}
use vap_spec.Runtime.Receipt.{Platform, bytes_digest, Status}
use vap_spec.Runtime.Rows.Laws.{insert-eq_ok}
use vap_spec.Runtime.Journal.{
  Adapter, Dispatch, Journal, identity_of, new_row, finish, finish_all, by_digest, is_claimed,
}
use vap_spec.Runtime.Adapter.{State}
use vap_spec.Runtime.Adapter.Changes.{Received, untouched, written, Claimed}
use vap_spec.Runtime.Adapter.Moves.{
  Move, quiet, claimed_only, claimed_posted, Call, run, run_invariant,
}

-- What a row keeps: its identity and its time, and all of it once it is terminal.
pub record Keeps (r r' : Dispatch) : Type 0 where
  pub identity : r'.identity ≡ r.identity
  pub claimed_at : r'.claimed_at_ms ≡ r.claimed_at_ms
  pub terminal_same : is_claimed r.state ≡ false → r' ≡ r

Keeps-refl : (r : Dispatch) → Keeps r r
Keeps-refl r = record { identity = refl; claimed_at = refl; terminal_same = λ h. refl }

Keeps-trans : (a b c : Dispatch) → Keeps a b → Keeps b c → Keeps a c
Keeps-trans a b c h k = record {
  identity = k.identity ∙ h.identity;
  claimed_at = k.claimed_at ∙ h.claimed_at;
  terminal_same = λ t.
      let e = h.terminal_same t in
      let t' : is_claimed b.state ≡ false = ap (λ (r : Dispatch). is_claimed r.state) e ∙ t in
      k.terminal_same t' ∙ e;
}

Keeps-finish :
    (status : Status) (receipt : String) (at_ms : ℕ) (d : String) (r : Dispatch)
    → Keeps r (finish status receipt at_ms d r)
unfolding finish
Keeps-finish status receipt at_ms d r = record {
  identity = ground arith;
  claimed_at = ground arith;
  terminal_same = λ t. ground arith;
}

-- The row of a digest is there, and keeps what the first row had.
pub record Retained (first : Dispatch) (d : String) (rows : List Dispatch) : Type 0 where
  pub row : Dispatch
  pub there : by_digest d rows ≡ some row
  pub keeps : Keeps first row

by_digest-finish_all :
    (status : Status) (receipt : String) (at_ms : ℕ) (e d : String) (rows : List Dispatch)
    (r : Dispatch)
    → by_digest d rows ≡ some r
    → by_digest d (finish_all status receipt at_ms e rows) ≡ some (finish status receipt at_ms e r)
unfolding by_digest finish_all
by_digest-finish_all status receipt at_ms e d [] r h = cc
by_digest-finish_all status receipt at_ms e d (x ∷ rows) r h =
    let same = (Keeps-finish status receipt at_ms e x).identity in
    elim (Bool-cases (str_eq x.identity.request_digest d)) [
      | inl here ↦ rw (same, here) (ground arith)
      | inr there ↦
          rw (same, there) (by_digest-finish_all status receipt at_ms e d rows r (ground arith))
    ]

by_digest-append :
    (d : String) (xs ys : List Dispatch) (r : Dispatch)
    → by_digest d xs ≡ some r
    → by_digest d (xs ++ ys) ≡ some r
unfolding by_digest
by_digest-append d [] ys r h = cc
by_digest-append d (x ∷ xs) ys r h = ground (arith, by_digest-append d xs ys r)

module _ (p : Platform) (config : Adapter) (first : Dispatch) (d : String) where
  Retained-Received :
      (request : Prepared) (j j' : Journal)
      → Received p config request j j'
      → Retained first d j.dispatches
      → Retained first d j'.dispatches
  Retained-Received request j j' (untouched e) h =
      subst (λ (t : Journal). Retained first d t.dispatches) (sym e) h
  Retained-Received request j j' (written status receipt at_ms e) h =
      subst (λ (t : Journal). Retained first d t.dispatches) (sym e)
        (record {
          row = finish status receipt at_ms (bytes_digest p request.raw) h.row;
          there =
              by_digest-finish_all status receipt at_ms (bytes_digest p request.raw) d j.dispatches
                h.row h.there;
          keeps =
              Keeps-trans first h.row _ h.keeps
                (Keeps-finish status receipt at_ms (bytes_digest p request.raw) h.row);
        })

  Retained-Claimed :
      (request : Prepared) (at_ms : ℕ) (j j' : Journal)
      → Claimed p config request at_ms j j'
      → Retained first d j.dispatches
      → Retained first d j'.dispatches
  Retained-Claimed request at_ms j j' c h =
      let (at_end, free) =
        insert-eq_ok identity_of config.scope request.request request.raw
          (new_row p config request at_ms) j.dispatches j'.dispatches c.inserted in
      record {
        row = h.row;
        there = rw at_end (by_digest-append d j.dispatches _ h.row h.there);
        keeps = h.keeps;
      }

  Retained-Move :
      (s s' : State)
      → Move p config s s'
      → Retained first d s.journal.dispatches
      → Retained first d s'.journal.dispatches
  Retained-Move s s' (quiet request r e) h = Retained-Received request s.journal s'.journal r h
  Retained-Move s s' (claimed_only request at_ms c e) h =
      Retained-Claimed request at_ms s.journal s'.journal c h
  Retained-Move s s' (claimed_posted request at_ms j c r e) h =
      Retained-Received request j s'.journal r (Retained-Claimed request at_ms s.journal j c h)

  -- The row that stands for a digest in the journal stands for it after every run of calls: with its
  -- identity and claim time, and with no change at all if it was terminal.
  pub run-row_kept :
      (calls : List Call) (s : State)
      → by_digest d s.journal.dispatches ≡ some first
      → Retained first d (run p config calls s).journal.dispatches
  run-row_kept calls s h =
      run_invariant p config (λ (t : State). Retained first d t.journal.dispatches) Retained-Move
        calls s (record { row = first; there = h; keeps = Keeps-refl first })
