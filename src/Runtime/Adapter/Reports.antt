-- ===== src/Runtime/Adapter/Reports.antt =====
-- A report of SETTLED or FAILED rests on a receipt that verifies.
use vap_spec.Base.{
  ℕ, ◌≡◌, refl, ap, ◌∙◌, ◌⊎◌, All, Bool, true, false, not, ◌||◌, Option, none, some, String, List,
  arith, str_eq, if◌then◌else◌, ◌==◌, inl, inr, Bool-cases, Option-cases,
}
use mathlib.Core.Path.{subst}
use vap_spec.Runtime.Adapter.Changes.{ClaimResult, raised, existing, created, claim-ClaimResult}
use vap_spec.Runtime.Adapter.Moves.{Call, run}
use vap_spec.Runtime.Adapter.Digested.{
  IsDigested, AreDigested, run-IsDigested, Claimed-IsDigested, IsOf, find-IsOf, read-IsOf,
  store_receipt-IsOf,
}
use vap_spec.Runtime.Outcome.{value_error, db_error, blocked, fault, Result, ok, err}
use vap_spec.Runtime.Json.{Json}
use vap_spec.Runtime.Request.{Prepared, prepare, request_bytes}
use vap_spec.Runtime.Receipt.{Platform, bytes_digest, Status, Verified, verify_receipt}
use vap_spec.Runtime.Rows.{Identity}
use vap_spec.Runtime.Journal.{
  Adapter, Dispatch, DispatchState, claimed, terminal, Journal, Admit, read, store_receipt,
}
use vap_spec.Runtime.Adapter.{
  Env, State, Report, finished, Reason, said, lookup_http, provider_http, same_status,
  from_terminal, from_state, from_row, is_finished, kept, retain_unknown, stored, receive, dispatch,
  after_claim, submit_prepared, reconcile, reconcile_row, read_status, row_report,
}

module _ (p : Platform) (config : Adapter) (request : Prepared) where
  -- The receipt of the report verifies, with the reported status, for bytes that have the digest of
  -- the request's.
  pub record Evidence (status : Status) (report : Report) : Type 0 where
    pub receipt : String
    pub reported : report.receipt_bytes ≡ some receipt
    pub raw_request : String
    pub of_request : bytes_digest p raw_request ≡ bytes_digest p request.raw
    pub verified : Verified
    pub verifies :
        verify_receipt p receipt raw_request config.provider_public_key config.provider_id
        ≡ some verified
    pub same : verified.status ≡ status

  abbrev pub IsSound : Report → Type 0
  IsSound report = (status : Status) → report.state ≡ finished status → Evidence status report

  same_status→eq : (a b : Status) → same_status a b ≡ true → a ≡ b
  same_status→eq a b h = ground arith

  from_terminal-IsSound :
      (status : Status) (receipt : String) (row : Dispatch)
      → IsOf p config request row
      → IsSound (from_terminal p config status receipt row)
  unfolding from_terminal
  from_terminal-IsSound status receipt row own =
      elim (Option-cases (
        verify_receipt p receipt row.identity.request_bytes config.provider_public_key
          config.provider_id)) [
            | inl e ↦ rw (e, from_terminal) (λ st h. cc)
            | inr (v, e) ↦ elim (Bool-cases (same_status v.status status)) [
              | inr other ↦ rw (e, from_terminal, other) (λ st h. cc)
              | inl same ↦
                  rw (e, from_terminal, same)
                    (λ st h. record {
                      receipt = receipt;
                      reported = refl;
                      raw_request = row.identity.request_bytes;
                      of_request = own;
                      verified = v;
                      verifies = e;
                      same = same_status→eq v.status status same ∙ ground arith;
                    })
            ]
          ]

  from_state-IsSound :
      (state : DispatchState) (receipt : Option String) (row : Dispatch)
      → IsOf p config request row
      → IsSound (from_state p config state receipt row)
  unfolding from_state
  from_state-IsSound (terminal status) (some receipt) row own =
      from_terminal-IsSound status receipt row own
  from_state-IsSound (terminal status) none row own = λ st h. cc
  from_state-IsSound claimed receipt row own = λ st h. cc

  from_row-IsSound : (row : Dispatch) → IsOf p config request row → IsSound (from_row p config row)
  unfolding from_row
  from_row-IsSound row own = from_state-IsSound row.state row.receipt_bytes row own

  -- The row that a lookup returns is of the request.
  abbrev ReturnsOwn : Result (Option Dispatch) → Type 0
  ReturnsOwn r = (row : Dispatch) → r ≡ ok (some row) → IsOf p config request row

  IsSound-warning :
      (report : Report) (w : Option Reason)
      → IsSound report
      → IsSound (record report { warning = w })
  IsSound-warning report w s = λ st h.
      let e = s st h in
      record {
        receipt = e.receipt;
        reported = e.reported;
        raw_request = e.raw_request;
        of_request = e.of_request;
        verified = e.verified;
        verifies = e.verifies;
        same = e.same;
      }

  IsSound-if : (b : Bool) (x y : Report) → IsSound x → IsSound y → IsSound (if b then x else y)
  IsSound-if true x y hx hy = hx
  IsSound-if false x y hx hy = hy

  pair-if :
      (b : Bool) (x y : Report × Journal)
      → IsSound x.0
      → IsSound y.0
      → IsSound (if b then x else y).0
  pair-if true x y hx hy = hx
  pair-if false x y hx hy = hy

  kept-IsSound :
      (d : String) (reason : Reason) (r : Result (Option Dispatch))
      → ReturnsOwn r
      → IsSound (kept p config d reason r)
  kept-IsSound d reason (ok (some row)) own =
      IsSound-if (is_finished p config (from_row p config row).state)
        (record (from_row p config row) { warning = some reason }) _
        (IsSound-warning (from_row p config row) (some reason)
          (from_row-IsSound row (own row refl)))
        (λ st h. cc)
  kept-IsSound d reason (ok none) own = λ st h. cc
  kept-IsSound d reason (err e) own = λ st h. cc

  retain_unknown-IsSound :
      (env : Env) (reason : Reason) (j : Journal)
      → IsSound (retain_unknown p config env request reason j)
  unfolding retain_unknown
  retain_unknown-IsSound env reason j =
      kept-IsSound (bytes_digest p request.raw) reason (read p config env.read_fails request j)
        (read-IsOf p config request env.read_fails j)

  stored-IsSound :
      (env : Env) (reason : Reason) (custody : Bool) (r : Result Dispatch) (j : Journal)
      → ((row : Dispatch) → r ≡ ok row → IsOf p config request row)
      → IsSound (stored p config env request reason custody (r, j)).0
  stored-IsSound env reason custody (ok row) j own =
      IsSound-if custody _ (from_row p config row)
        (IsSound-warning (from_row p config row) (some (said "post_effect_custody_unresolved"))
          (from_row-IsSound row (own row refl)))
        (from_row-IsSound row (own row refl))
  stored-IsSound env reason custody (err e) j own = retain_unknown-IsSound env reason j

  receive-IsSound :
      (env : Env) (refusal : ℕ → Reason) (failure : Reason) (custody : Bool)
      (response : Option (ℕ × String)) (j : Journal)
      → All (IsDigested p) j.dispatches
      → IsSound (receive p config env request refusal failure custody response j).0
  unfolding receive
  receive-IsSound env refusal failure custody none j h = retain_unknown-IsSound env failure j
  receive-IsSound env refusal failure custody (some (status, receipt)) j h =
      pair-if (not (status == 200)) (retain_unknown p config env request (refusal status) j, j) _
        (retain_unknown-IsSound env (refusal status) j)
        (verified_case
          (verify_receipt p receipt request.raw config.provider_public_key config.provider_id))
    where
      verified_case :
          (o : Option Verified)
          → IsSound
              (elim o as (λ x. Report × Journal) [
                | none ↦ (retain_unknown p config env request failure j, j)
                | some v ↦
                    if env.response_hook_raises
                    then (retain_unknown p config env request failure j, j)
                    else stored p config env request failure custody (
                        store_receipt p config env.store_fails env.observed_at_ms request receipt j)
              ]).0
      verified_case none = retain_unknown-IsSound env failure j
      verified_case (some v) =
          pair-if env.response_hook_raises (retain_unknown p config env request failure j, j) _
            (retain_unknown-IsSound env failure j)
            (let (r, j') =
                store_receipt p config env.store_fails env.observed_at_ms request receipt j in
              stored-IsSound env failure custody r j' (λ row e.
                store_receipt-IsOf p config request env.store_fails env.observed_at_ms receipt j row
                  h e))

  dispatch-IsSound :
      (env : Env) (s : State) → AreDigested p config s → IsSound (dispatch p config env request s).0
  unfolding dispatch
  dispatch-IsSound env s h =
      elim (Bool-cases (env.claim_hook_raises || env.before_dispatch_raises)) [
        | inl raises ↦
            rw (raises, dispatch)
              (retain_unknown-IsSound env (said "post_claim_outcome_unresolved") s.journal)
        | inr sends ↦
            rw (sends, dispatch)
              (receive-IsSound env provider_http (said "post_claim_outcome_unresolved")
                env.custody_raises env.response s.journal h)
      ]

  abbrev IsSoundResult : Result Report → Type 0
  IsSoundResult (ok report) = IsSound report
  IsSoundResult (err e) = Unit

  after_claim-IsSound :
      (env : Env) (at_ms : ℕ) (s : State) (posted : List Identity)
      {r : Result (Dispatch × Bool) × Journal}
      → AreDigested p config s
      → ClaimResult p config request at_ms s.journal r
      → IsSoundResult (after_claim p config env request r posted).0
  after_claim-IsSound env at_ms s posted h (raised (value_error m)) = λ st e. ground (arith, e)
  after_claim-IsSound env at_ms s posted h (raised db_error) = λ st e. cc
  after_claim-IsSound env at_ms s posted h (raised (blocked d)) = tt
  after_claim-IsSound env at_ms s posted h (raised fault) = tt
  after_claim-IsSound env at_ms s posted h (existing row there) =
      from_row-IsSound row (find-IsOf p config request s.journal.dispatches row there)
  after_claim-IsSound env at_ms s posted h (created row j is_new claims) =
      dispatch-IsSound env (record { journal = j; posted = posted })
        (Claimed-IsDigested p config request at_ms s.journal j claims h)

  submit_prepared-IsSound :
      (env : Env) (admit : Option Admit) (s : State)
      → AreDigested p config s
      → IsSoundResult (submit_prepared p config env admit request s).0
  unfolding submit_prepared
  submit_prepared-IsSound env admit s h =
      elim (Option-cases (request_bytes p.json request.snapshot)) [
        | inl e ↦ rw (e, submit_prepared) tt
        | inr (raw, e) ↦ elim (Bool-cases (str_eq raw request.raw)) [
          | inr other ↦ rw (e, submit_prepared, other) tt
          | inl same ↦
              rw (e, submit_prepared, same)
                (after_claim-IsSound env env.claimed_at_ms s s.posted h (
                  claim-ClaimResult p config env.claim_fails admit env.claimed_at_ms request
                    s.journal))
        ]
      ]

  row_report-IsSound :
      (d : String) (absent unreadable : Reason) (r : Result (Option Dispatch))
      → ReturnsOwn r
      → IsSound (row_report p config d absent unreadable r)
  row_report-IsSound d absent unreadable (ok (some row)) own = from_row-IsSound row (own row refl)
  row_report-IsSound d absent unreadable (ok none) own = λ st h. cc
  row_report-IsSound d absent unreadable (err (value_error m)) own = λ st h. ground (arith, h)
  row_report-IsSound d absent unreadable (err db_error) own = λ st h. cc
  row_report-IsSound d absent unreadable (err (blocked e)) own = λ st h. cc
  row_report-IsSound d absent unreadable (err fault) own = λ st h. cc

  reconcile_row-IsSound :
      (env : Env) (r : Result (Option Dispatch)) (j : Journal)
      → ReturnsOwn r
      → All (IsDigested p) j.dispatches
      → IsSound (reconcile_row p config env request r j).0
  reconcile_row-IsSound env (ok none) j own h = λ st e. cc
  reconcile_row-IsSound env (err e) j own h =
      row_report-IsSound (bytes_digest p request.raw) (said "")
        (said "journal_unreadable_no_lookup") (err e) own
  reconcile_row-IsSound env (ok (some row)) j own h =
      pair-if (is_finished p config (from_row p config row).state) (from_row p config row, j) _
        (from_row-IsSound row (own row refl))
        (receive-IsSound env lookup_http (said "read_only_reconciliation_unresolved") false
          env.response j h)

  reconcile-IsSound :
      (env : Env) (given : Json) (s : State)
      → prepare p.json config.context given ≡ some request
      → AreDigested p config s
      → IsSound (reconcile p config env given s).0
        × IsSound (read_status p config env given s.journal)
  unfolding reconcile read_status
  reconcile-IsSound env given s e h =
      let own = read-IsOf p config request env.read_fails s.journal in
      rw (e, reconcile, read_status)
        (
          reconcile_row-IsSound env (read p config env.read_fails request s.journal) s.journal own
              h,
          row_report-IsSound (bytes_digest p request.raw) (said "no_durable_claim_in_this_store")
              (said "journal_unreadable") (read p config env.read_fails request s.journal) own,
        )

  IsSoundResult-Evidence :
      (status : Status) (report : Report) (r : Result Report)
      → IsSoundResult r
      → r ≡ ok report
      → report.state ≡ finished status
      → Evidence status report
  IsSoundResult-Evidence status report (ok x) sound e done =
      let same : x ≡ report = ground (arith, e) in
      subst (λ y. Evidence status y) same (sound status (ap (λ (y : Report). y.state) same ∙ done))
  IsSoundResult-Evidence status report (err x) sound e done = absurd cc

module _ (p : Platform) (config : Adapter) where
  -- Start from a journal whose rows stand under the digests of their bytes, as an empty one does, and
  -- make any calls of the adapter. Whatever the environment does and whatever the provider answers
  -- then, `_submit_prepared` reports SETTLED or FAILED for a request only with a receipt that
  -- `verify_receipt` accepts under the configured key, with that status, for bytes that have the
  -- digest of the request.
  pub submit_prepared-Evidence :
      (calls : List Call) (env : Env) (admit : Option Admit) (request : Prepared) (s : State)
      (report : Report) (status : Status)
      → AreDigested p config s
      → (submit_prepared p config env admit request (run p config calls s)).0 ≡ ok report
      → report.state ≡ finished status
      → Evidence p config request status report
  submit_prepared-Evidence calls env admit request s report status h e done =
      IsSoundResult-Evidence p config request status report _
        (submit_prepared-IsSound p config request env admit (run p config calls s)
          (run-IsDigested p config calls s h))
        e done

  -- So do reconciliation and the reading of the status: after any calls from such a journal, what
  -- they report as SETTLED or FAILED for a request comes with a receipt that `verify_receipt`
  -- accepts, with that status, for bytes that have the digest of the request.
  pub reconcile-Evidence :
      (calls : List Call) (env : Env) (given : Json) (request : Prepared) (s : State)
      (report : Report) (status : Status)
      → AreDigested p config s
      → prepare p.json config.context given ≡ some request
      → ((reconcile p config env given (run p config calls s)).0 ≡ report)
        ⊎ (read_status p config env given (run p config calls s).journal ≡ report)
      → report.state ≡ finished status
      → Evidence p config request status report
  reconcile-Evidence calls env given request s report status h e reported done =
      let (reconciled, status_read) =
        reconcile-IsSound p config request env given (run p config calls s) e
          (run-IsDigested p config calls s h) in
      elim reported [
        | inl same ↦
            IsSoundResult-Evidence p config request status report
              (ok (reconcile p config env given (run p config calls s)).0) reconciled (ap ok same)
              done
        | inr same ↦
            IsSoundResult-Evidence p config request status report
              (ok (read_status p config env given (run p config calls s).journal)) status_read
              (ap ok same) done
      ]
