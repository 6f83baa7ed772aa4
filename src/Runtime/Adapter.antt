-- ===== src/Runtime/Adapter.antt =====
-- payment_runtime.py: what the adapter's methods return and send. The environment of a call says
-- which database accesses and hooks fail, and what came of the HTTP exchange.
pub mod Changes
pub mod Moves
pub mod Once
pub mod Terminal
pub mod Digested
pub mod Reports
use vap_spec.Base.{
  ℕ, Bool, true, false, not, ◌&&◌, ◌||◌, Option, none, some, String, List, [], ◌∷◌, ◌++◌, ◌==◌,
  str_eq, if◌then◌else◌,
}
use vap_spec.Runtime.Outcome.{Exc, value_error, db_error, blocked, fault, Result, ok, err}
use vap_spec.Runtime.Json.{Json}
use vap_spec.Runtime.Request.{Prepared, prepare, request_bytes}
use vap_spec.Runtime.Receipt.{Platform, bytes_digest, Status, settled, failed, verify_receipt}
use vap_spec.Runtime.Rows.{Identity, conflict}
use vap_spec.Runtime.Journal.{
  Adapter, DispatchState, claimed, terminal, Dispatch, Journal, Admit, claim, read, store_receipt,
  new_row,
}

pub data ReportState : Type 0 where
  finished : Status → ReportState
  unknown rejected conflicting journal_unavailable : ReportState

-- `provider_http n` is "provider_http_<n>_claim_retained", and `lookup_http n` is
-- "read_only_lookup_http_<n>".
pub data Reason : Type 0 where
  said : String → Reason
  provider_http : ℕ → Reason
  lookup_http : ℕ → Reason

-- `_result`, less its constant flags; `warning` is observation_warning or custody_warning.
pub record Report : Type 0 where
  pub state : ReportState
  pub request_digest : Option String
  pub reason : Reason
  pub receipt_bytes : Option String
  pub warning : Option Reason

pub record Env : Type 0 where
  pub claim_fails : Bool
  pub claimed_at_ms : ℕ
  pub claim_hook_raises : Bool
  pub before_dispatch_raises : Bool
  pub response : Option (ℕ × String)
  pub response_hook_raises : Bool
  pub store_fails : Bool
  pub observed_at_ms : ℕ
  pub read_fails : Bool
  pub custody_raises : Bool

-- The journal, and the requests that were posted, in order.
pub record State : Type 0 where
  pub journal : Journal
  pub posted : List Identity

abbrev pub result : ReportState → Option String → Reason → Option String → Report
result state request_digest reason receipt = record {
  state = state;
  request_digest = request_digest;
  reason = reason;
  receipt_bytes = receipt;
  warning = none;
}

abbrev pub same_status : Status → Status → Bool
same_status settled settled = true
same_status settled failed = false
same_status failed settled = false
same_status failed failed = true

module _ (p : Platform) (config : Adapter) where
  unfoldable pub from_terminal : Status → String → Dispatch → Report
  from_terminal status receipt row =
      let d = some row.identity.request_digest in
      elim (verify_receipt p receipt row.identity.request_bytes config.provider_public_key
        config.provider_id) [
          | none ↦ result unknown d (said "stored_receipt_unverifiable_claim_retained") none
          | some v ↦
              if same_status v.status status
              then result (finished status) d (said "stored_verified_native_receipt") (some receipt)
              else result unknown d (said "stored_receipt_unverifiable_claim_retained") none
        ]

  unfoldable pub from_state : DispatchState → Option String → Dispatch → Report
  unfolding from_terminal
  from_state (terminal status) (some receipt) row = from_terminal status receipt row
  from_state (terminal status) none row =
      result unknown (some row.identity.request_digest) (said "durable_claim_outcome_unresolved")
        none
  from_state claimed receipt row =
      result unknown (some row.identity.request_digest) (said "durable_claim_outcome_unresolved")
        none

  -- `_from_row`
  unfoldable pub from_row : Dispatch → Report
  unfolding from_state
  from_row row = from_state row.state row.receipt_bytes row

  abbrev pub is_finished : ReportState → Bool
  is_finished (finished s) = true
  is_finished unknown = false
  is_finished rejected = false
  is_finished conflicting = false
  is_finished journal_unavailable = false

  abbrev pub kept : String → Reason → Result (Option Dispatch) → Report
  kept d reason (ok (some row)) =
      let stored = from_row row in
      if is_finished stored.state
      then record stored { warning = some reason }
      else result unknown (some d) reason none
  kept d reason (ok none) = result unknown (some d) reason none
  kept d reason (err e) = result unknown (some d) reason none

  -- `_retain_unknown`
  unfoldable pub retain_unknown : Env → Prepared → Reason → Journal → Report
  retain_unknown env request reason j =
      kept (bytes_digest p request.raw) reason (read p config env.read_fails request j)

  abbrev pub stored : Env → Prepared → Reason → Bool → Result Dispatch × Journal → Report × Journal
  stored env request reason custody (ok row, j) =
      let report = from_row row in
      (
        if custody
            then record report { warning = some (said "post_effect_custody_unresolved") }
            else report,
        j,
      )
  stored env request reason custody (err e, j) = (retain_unknown env request reason j, j)

  -- What is done with an answer of the provider: verify it, store it and report the row.
  unfoldable pub receive :
      Env
      → Prepared
      → (refusal : ℕ → Reason) → (failure : Reason) → Bool
      → Option (ℕ × String)
      → Journal
      → Report × Journal
  receive env request refusal failure custody none j = (retain_unknown env request failure j, j)
  receive env request refusal failure custody (some (status, receipt)) j =
      if not (status == 200)
      then (retain_unknown env request (refusal status) j, j)
      else elim (verify_receipt p receipt request.raw config.provider_public_key
          config.provider_id) [
            | none ↦ (retain_unknown env request failure j, j)
            | some v ↦
                if env.response_hook_raises
                then (retain_unknown env request failure j, j)
                else stored env request failure custody
                    (store_receipt p config env.store_fails env.observed_at_ms request receipt j)
          ]

  -- After the claim: the hooks, at most one POST, and the receipt.
  unfoldable pub dispatch : Env → Prepared → State → Report × State
  dispatch env request s =
      let failure = said "post_claim_outcome_unresolved" in
      if env.claim_hook_raises || env.before_dispatch_raises
      then (retain_unknown env request failure s.journal, s)
      else let (report, j) =
          receive env request provider_http failure env.custody_raises env.response s.journal in
        (
          report,
          record { journal = j; posted = s.posted ++ (new_row p config request 0).identity ∷ [] },
        )

  abbrev pub after_claim :
      Env → Prepared → Result (Dispatch × Bool) × Journal → List Identity → Result Report × State
  after_claim env request (err (value_error message), j) posted =
      let state = if str_eq message conflict then conflicting else rejected in
      (
        ok (result state (some (bytes_digest p request.raw)) (said message) none),
        record { journal = j; posted = posted },
      )
  after_claim env request (err db_error, j) posted = (
    ok (
        result journal_unavailable (some (bytes_digest p request.raw))
          (said "durable_claim_not_confirmed_no_post") none),
    record { journal = j; posted = posted },
  )
  after_claim env request (err (blocked d), j) posted =
      (err (blocked d), record { journal = j; posted = posted })
  after_claim env request (err fault, j) posted =
      (err fault, record { journal = j; posted = posted })
  after_claim env request (ok (row, false), j) posted =
      (ok (from_row row), record { journal = j; posted = posted })
  after_claim env request (ok (row, true), j) posted =
      let (report, s) = dispatch env request (record { journal = j; posted = posted }) in
      (ok report, s)

  -- `_submit_prepared`
  unfoldable pub submit_prepared : Env → Option Admit → Prepared → State → Result Report × State
  submit_prepared env admit request s = elim (request_bytes p.json request.snapshot) [
    | none ↦ (err (value_error "json"), s)
    | some raw ↦
        if not (str_eq raw request.raw)
        then (err (value_error "prepared_request_bytes_mismatch"), s)
        else after_claim env request
            (claim p config env.claim_fails admit env.claimed_at_ms request s.journal) s.posted
  ]

  abbrev pub rejection : Report
  rejection = result rejected none (said "request_schema_or_scope_rejected") none

  -- `submit`
  unfoldable pub submit : Env → Json → State → Result Report × State
  submit env request s = elim (prepare p.json config.context request) [
    | none ↦ (ok rejection, s)
    | some r ↦ submit_prepared env none r s
  ]

  abbrev pub row_report : String → Reason → Reason → Result (Option Dispatch) → Report
  row_report d absent unreadable (ok (some row)) = from_row row
  row_report d absent unreadable (ok none) = result unknown (some d) absent none
  row_report d absent unreadable (err (value_error message)) =
      result (if str_eq message conflict then conflicting else unknown) (some d) (said message) none
  row_report d absent unreadable (err db_error) = result unknown (some d) unreadable none
  row_report d absent unreadable (err (blocked e)) = result unknown (some d) unreadable none
  row_report d absent unreadable (err fault) = result unknown (some d) unreadable none

  -- `read_status`
  unfoldable pub read_status : Env → Json → Journal → Report
  read_status env request j = elim (prepare p.json config.context request) [
    | none ↦ rejection
    | some r ↦
        row_report (bytes_digest p r.raw) (said "no_durable_claim_in_this_store")
          (said "journal_unreadable") (read p config env.read_fails r j)
  ]

  abbrev pub reconcile_row : Env → Prepared → Result (Option Dispatch) → Journal → Report × Journal
  reconcile_row env r (ok (some row)) j =
      if is_finished (from_row row).state
      then (from_row row, j)
      else receive env r lookup_http (said "read_only_reconciliation_unresolved") false env.response
          j
  reconcile_row env r (ok none) j = (
    row_report (bytes_digest p r.raw) (said "no_durable_claim_in_this_store") (said "") (ok none),
    j,
  )
  reconcile_row env r (err e) j =
      (row_report (bytes_digest p r.raw) (said "") (said "journal_unreadable_no_lookup") (err e), j)

  -- `reconcile`: its one HTTP exchange is a GET.
  unfoldable pub reconcile : Env → Json → State → Report × State
  reconcile env request s = elim (prepare p.json config.context request) [
    | none ↦ (rejection, s)
    | some r ↦
        let (report, j) =
          reconcile_row env r (read p config env.read_fails r s.journal) s.journal in
        (report, record s { journal = j })
  ]
