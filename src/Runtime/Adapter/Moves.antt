-- ===== src/Runtime/Adapter/Moves.antt =====
-- The calls of the adapter as moves of its state, and runs of calls.
use vap_spec.Base.{
  ℕ, ◌≡◌, refl, sym, Bool, false, ◌||◌, Option, none, some, List, [], ◌∷◌, ◌++◌, str_eq, inl, inr,
  Bool-cases, Option-cases,
}
use mathlib.Core.Path.{subst}
use vap_spec.Runtime.Outcome.{value_error, db_error, blocked, fault, Result, ok, err}
use vap_spec.Runtime.Json.{Json}
use vap_spec.Runtime.Request.{Prepared, prepare, request_bytes}
use vap_spec.Runtime.Receipt.{Platform}
use vap_spec.Runtime.Rows.{Identity}
use vap_spec.Runtime.Journal.{Adapter, Dispatch, Journal, Admit, new_row, read}
use vap_spec.Runtime.Adapter.{
  Env, State, said, lookup_http, provider_http, dispatch, after_claim, submit_prepared, reconcile,
  reconcile_row, is_finished, from_row,
}
use vap_spec.Runtime.Adapter.Changes.{
  Received, untouched, Claimed, ClaimResult, raised, existing, created, claim-ClaimResult,
  receive-Received,
}

-- A call of the adapter.
pub data Call : Type 0 where
  submits : Env → Option Admit → Json → Call
  reconciles : Env → Json → Call
  reads : Env → Json → Call

module _ (p : Platform) (config : Adapter) where
  -- The request's columns in the journal and in what is posted.
  abbrev pub sent : Prepared → Identity
  sent request = (new_row p config request 0).identity

  pub data Move (s s' : State) : Type 0 where
    -- nothing is posted, and at most the request's own claim has its receipt
    quiet :
        (request : Prepared)
        → Received p config request s.journal s'.journal
        → s'.posted ≡ s.posted
        → Move s s'
    -- the request is claimed and not posted
    claimed_only :
        (request : Prepared) (at_ms : ℕ)
        → Claimed p config request at_ms s.journal s'.journal
        → s'.posted ≡ s.posted
        → Move s s'
    -- the request is claimed and posted, and its claim may have a receipt
    claimed_posted :
        (request : Prepared) (at_ms : ℕ) (j : Journal)
        → Claimed p config request at_ms s.journal j
        → Received p config request j s'.journal
        → s'.posted ≡ s.posted ++ sent request ∷ []
        → Move s s'

  dispatch-Move :
      (env : Env) (request : Prepared) (at_ms : ℕ) (s : State) (j : Journal)
      → Claimed p config request at_ms s.journal j
      → Move s (dispatch p config env request (record { journal = j; posted = s.posted })).1
  unfolding dispatch
  dispatch-Move env request at_ms s j c =
      elim (Bool-cases (env.claim_hook_raises || env.before_dispatch_raises)) [
        | inl raises ↦ rw (raises, dispatch) (claimed_only request at_ms c refl)
        | inr sends ↦
            rw (sends, dispatch)
              (claimed_posted request at_ms j c
                (receive-Received p config env request provider_http
                  (said "post_claim_outcome_unresolved") env.custody_raises env.response j)
                refl)
      ]

  after_claim-Move :
      (env : Env) (request : Prepared) (at_ms : ℕ) (s : State)
      {r : Result (Dispatch × Bool) × Journal}
      → ClaimResult p config request at_ms s.journal r
      → Move s (after_claim p config env request r s.posted).1
  after_claim-Move env request at_ms s (raised (value_error m)) =
      quiet request (untouched refl) refl
  after_claim-Move env request at_ms s (raised db_error) = quiet request (untouched refl) refl
  after_claim-Move env request at_ms s (raised (blocked d)) = quiet request (untouched refl) refl
  after_claim-Move env request at_ms s (raised fault) = quiet request (untouched refl) refl
  after_claim-Move env request at_ms s (existing row f) = quiet request (untouched refl) refl
  after_claim-Move env request at_ms s (created row j e c) = dispatch-Move env request at_ms s j c

  pub submit_prepared-Move :
      (env : Env) (admit : Option Admit) (request : Prepared) (s : State)
      → Move s (submit_prepared p config env admit request s).1
  unfolding submit_prepared
  submit_prepared-Move env admit request s =
      elim (Option-cases (request_bytes p.json request.snapshot)) [
        | inl e ↦ rw (e, submit_prepared) (quiet request (untouched refl) refl)
        | inr (raw, e) ↦ elim (Bool-cases (str_eq raw request.raw)) [
          | inr other ↦ rw (e, submit_prepared, other) (quiet request (untouched refl) refl)
          | inl same ↦
              rw (e, submit_prepared, same)
                (after_claim-Move env request env.claimed_at_ms s (
                  claim-ClaimResult p config env.claim_fails admit env.claimed_at_ms request
                    s.journal))
        ]
      ]

  abbrev idle : Prepared → (s : State) → Move s s
  idle request s = quiet request (untouched refl) refl

  -- The state after a call; an AuthorizedAdapter submits with its admission callback.
  unfoldable pub call : Call → State → State
  call (submits env admit request) s = elim (prepare p.json config.context request) [
    | none ↦ s
    | some r ↦ (submit_prepared p config env admit r s).1
  ]
  call (reconciles env request) s = (reconcile p config env request s).1
  call (reads env request) s = s

  abbrev pub run : List Call → State → State
  run [] s = s
  run (c ∷ calls) s = run calls (call c s)

  pub data Moves (s s' : State) : Type 0 where
    still : s' ≡ s → Moves s s'
    moves : Move s s' → Moves s s'

  row-Moves :
      (env : Env) (request : Prepared) (s : State) (r : Result (Option Dispatch))
      → Moves s (record s { journal = (reconcile_row p config env request r s.journal).1 })
  row-Moves env request s (ok none) = still refl
  row-Moves env request s (err e) = still refl
  row-Moves env request s (ok (some row)) =
      elim (Bool-cases (is_finished p config (from_row p config row).state)) [
        | inl done ↦ rw done (still refl)
        | inr more ↦ rw more (
            moves (
              quiet request
                (receive-Received p config env request lookup_http
                  (said "read_only_reconciliation_unresolved") false env.response s.journal)
                refl))
      ]

  pub call-Moves : (c : Call) (s : State) → Moves s (call c s)
  unfolding call reconcile
  call-Moves (submits env admit request) s =
      elim (Option-cases (prepare p.json config.context request)) [
        | inl e ↦ rw (e, call) (still refl)
        | inr (r, e) ↦ rw (e, call) (moves (submit_prepared-Move env admit r s))
      ]
  call-Moves (reads env request) s = still refl
  call-Moves (reconciles env request) s =
      elim (Option-cases (prepare p.json config.context request)) [
        | inl e ↦ rw (e, call, reconcile) (still refl)
        | inr (r, e) ↦
            rw (e, call, reconcile) (row-Moves env r s (read p config env.read_fails r s.journal))
      ]

  -- An invariant of every move is one of every run.
  pub run_invariant :
      (P : State → Type 0)
      → ((s s' : State) → Move s s' → P s → P s')
      → (calls : List Call) (s : State) → P s
      → P (run calls s)
  run_invariant P keep [] s h = h
  run_invariant P keep (c ∷ calls) s h =
      run_invariant P keep calls (call c s) (kept_by P keep s (call c s) (call-Moves c s) h)
    where
      kept_by :
          (P : State → Type 0)
          → ((s s' : State) → Move s s' → P s → P s')
          → (s s' : State) → Moves s s'
          → P s
          → P s'
      kept_by P keep s s' (still e) h = subst P (sym e) h
      kept_by P keep s s' (moves m) h = keep s s' m h
