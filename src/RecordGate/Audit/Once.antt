-- ===== src/RecordGate/Audit/Once.antt =====
-- services.py: the audit service grants the dispatch of an operation at most once.
use vap_spec.Base.{
  ℕ, ◌+◌, ◌≤◌, ◌≡◌, refl, sym, ap, ◌∙◌, Bool, false, ◌&&◌, Option, none, some, String, List, [],
  ◌∷◌, ◌++◌, str_eq, eq_iff, eq_refl, if◌then◌else◌, inl, inr, Bool-cases, Option-cases, arith,
}
use vap_spec.Runtime.Json.{Json, get_field}
use vap_spec.Runtime.Request.{◌>>=◌}
use vap_spec.RecordGate.Envelope.{
  Jcs, get, text_at, has_text, has_true, digest, has_digest, sign, verified_body, intent,
}
use vap_spec.RecordGate.Audit.{
  OperationState, dispatch_intent, result_unknown, confirmed_success, Operation, AuditStore,
  ServiceConfig, Action, prepare, claim, outcome, get_state, export_events, unsupported, Ack,
  find_operation, set_operation, is_prepared, prepare_new, row_for, stored_receipt, confirm,
  leave_unknown, act, audit_transaction, ack_json, is_text_of, Reply, refused, dropped, answered,
  reply_of, exported, committed, audit_body, audit, control, action_name,
}

-- 1 where the operation can still be dispatched: it has no row yet, or its row is prepared.
abbrev pub open_row : Option Operation → ℕ
open_row none = 1
open_row (some r) = if is_prepared r.state then 1 else 0

abbrev pub open_claims : String → List Operation → ℕ
open_claims oid rows = open_row (find_operation oid rows)

-- 1 where an acknowledgment grants the dispatch of the operation.
abbrev pub grants : String → Ack → ℕ
grants oid a = if a.claimed && str_eq a.operation_id oid then 1 else 0

pub bind-eq_some {ℓ κ} :
    {A : Type ℓ} {B : Type κ} (m : Option A) (f : A → Option B) (b : B)
    → (m >>= f) ≡ some b
    → (a : A) × (m ≡ some a) × (f a ≡ some b)
bind-eq_some none f b h = absurd cc
bind-eq_some (some a) f b h = (a, refl, h)

find_operation-id :
    (oid : String) (rows : List Operation) (row : Operation)
    → find_operation oid rows ≡ some row
    → row.id ≡ oid
unfolding find_operation
find_operation-id oid [] row h = absurd cc
find_operation-id oid (r ∷ rows) row h =
    ground (arith, eq_iff r.id oid, find_operation-id oid rows row)

find_operation-append :
    (oid : String) (rows : List Operation) (new : Operation)
    → open_claims oid (rows ++ new ∷ []) ≤ open_claims oid rows
unfolding find_operation
find_operation-append oid [] new = ground arith
find_operation-append oid (r ∷ rows) new = ground (arith, find_operation-append oid rows new)

find_operation-new :
    (rows : List Operation) (new : Operation)
    → find_operation new.id rows ≡ none
    → find_operation new.id (rows ++ new ∷ []) ≡ some new
unfolding find_operation
find_operation-new [] new h = ground (arith, eq_refl new.id)
find_operation-new (r ∷ rows) new h = ground (arith, find_operation-new rows new)

find_operation-set :
    (oid other : String) (state : OperationState) (receipt : Option String) (rows : List Operation)
    → is_prepared state ≡ false
    → open_claims oid (set_operation other state receipt rows) ≤ open_claims oid rows
unfolding find_operation set_operation
find_operation-set oid other state receipt [] h = omega arith
find_operation-set oid other state receipt (r ∷ rows) h =
    ground (arith, find_operation-set oid other state receipt rows)

find_operation-closed :
    (oid : String) (state : OperationState) (receipt : Option String) (rows : List Operation)
    (row : Operation)
    → is_prepared state ≡ false
    → find_operation oid rows ≡ some row
    → open_claims oid (set_operation oid state receipt rows) ≡ 0
unfolding find_operation set_operation
find_operation-closed oid state receipt [] row h k = absurd cc
find_operation-closed oid state receipt (r ∷ rows) row h k =
    ground (arith, find_operation-closed oid state receipt rows row)

module _ (lib : Jcs) (config : ServiceConfig) (oid : String) where
  abbrev Spends : AuditStore → Option (Ack × AuditStore) → Type 0
  Spends s r =
      (a : Ack) (s' : AuditStore)
      → r ≡ some (a, s')
      → grants oid a + open_claims oid s'.operations ≤ open_claims oid s.operations

  confirm-Spends :
      (row : Operation) (body receipt : Json) (s : AuditStore)
      → Spends s (confirm lib config row body receipt s)
  unfolding confirm
  confirm-Spends row body receipt s a s' h =
      let (given, e0, h0) = bind-eq_some (get "receipt" body) _ (a, s') h in
      let (result, e1, h1) =
        bind-eq_some
          (verified_body lib given config.backend_public "backend_receipt" "backend" false) _
          (a, s') h0 in
      elim (Option-cases (lib.dumps given)) [
        | inl fails ↦ ground (arith, fails)
        | inr (raw, works) ↦
            ground (
              arith,
              works,
              find_operation-set oid row.id confirmed_success (some raw) s.operations,
            )
      ]

  leave_unknown-Spends :
      (row : Operation) (body receipt : Json) (s : AuditStore)
      → Spends s (leave_unknown lib config row body receipt s)
  unfolding leave_unknown
  leave_unknown-Spends row body receipt s a s' h =
      ground (arith, find_operation-set oid row.id result_unknown row.receipt s.operations)

  act-Spends :
      (action : Action) (op body : Json) (row : Operation) (receipt : Json) (s : AuditStore)
      → find_operation row.id s.operations ≡ some row
      → Spends s (act lib config action op body row receipt s)
  unfolding act
  act-Spends prepare op body row receipt s found a s' h = ground arith
  act-Spends claim op body row receipt s found a s' h = ground (
    arith,
    eq_iff row.id oid,
    find_operation-closed row.id dispatch_intent row.receipt s.operations row,
    find_operation-set oid row.id dispatch_intent row.receipt s.operations,
  )
  act-Spends outcome op body row receipt s found a s' h =
      ground (
        arith,
        confirm-Spends row body receipt s a s',
        leave_unknown-Spends row body receipt s a s',
      )
  act-Spends get_state op body row receipt s found a s' h = ground arith
  act-Spends export_events op body row receipt s found a s' h = absurd cc
  act-Spends (unsupported other) op body row receipt s found a s' h = absurd cc

  prepared_row :
      (op : Json) (o od : String) (body : Json) (s s' : AuditStore) (row : Operation)
      → prepare_new lib config op o od body s ≡ some (row, s')
      → (row.id ≡ o) × (s'.operations ≡ s.operations ++ row ∷ [])
  unfolding prepare_new
  prepared_row op o od body s s' row k = ground arith

  written :
      (action : Action) (op : Json) (o od : String) (body : Json) (s s' : AuditStore)
      (row : Operation)
      → find_operation o s.operations ≡ none
      → row_for lib config action op o od body none s ≡ some (row, s')
      → (find_operation row.id s'.operations ≡ some row)
        × (open_claims oid s'.operations ≤ open_claims oid s.operations)
  written prepare op o od body s s' row gone k =
      let (e, rows) = prepared_row op o od body s s' row k in
      (
        rw rows (find_operation-new s.operations row (rw e gone)),
        rw rows (find_operation-append oid s.operations row),
      )
  written claim op o od body s s' row gone k = absurd cc
  written outcome op o od body s s' row gone k = absurd cc
  written get_state op o od body s s' row gone k = absurd cc
  written export_events op o od body s s' row gone k = absurd cc
  written (unsupported other) op o od body s s' row gone k = absurd cc

  row_for-kept :
      (action : Action) (op : Json) (o od : String) (body : Json) (s s' : AuditStore)
      (row : Operation)
      → row_for lib config action op o od body (find_operation o s.operations) s ≡ some (row, s')
      → (find_operation row.id s'.operations ≡ some row)
        × (open_claims oid s'.operations ≤ open_claims oid s.operations)
  row_for-kept action op o od body s s' row h =
      elim (Option-cases (find_operation o s.operations)) [
        | inr (old, there) ↦
            let k : row_for lib config action op o od body (some old) s ≡ some (row, s') =
              sym (ap (λ x. row_for lib config action op o od body x s) there) ∙ h in
            let e = find_operation-id o s.operations old there in ground (arith, there, e, k)
        | inl gone ↦
            let k : row_for lib config action op o od body none s ≡ some (row, s') =
              sym (ap (λ x. row_for lib config action op o od body x s) gone) ∙ h in
            written action op o od body s s' row gone k
      ]

  audit_transaction-Spends :
      (action : Action) (body : Json) (s : AuditStore)
      → Spends s (audit_transaction lib config action body s)
  unfolding audit_transaction
  audit_transaction-Spends action body s a s' h =
      let (wanted, e0, h0) = bind-eq_some (get "intent" body) _ (a, s') h in
      let (op, e1, h1) = bind-eq_some (intent lib wanted) _ (a, s') h0 in
      let (o, e2, h2) = bind-eq_some (text_at "operation_id" op) _ (a, s') h1 in
      let (od, e3, h3) = bind-eq_some (digest lib op) _ (a, s') h2 in
      let ((row, t), e4, h4) =
        bind-eq_some (row_for lib config action op o od body (find_operation o s.operations) s) _
          (a, s') h3 in
      let (receipt, e5, h5) = bind-eq_some (stored_receipt lib config row.receipt) _ (a, s') h4 in
      let (found, fewer) = row_for-kept action op o od body s t row e4 in
      let spent = act-Spends action op body row receipt t found a s' h5 in omega arith

-- Whether an answer of the audit service is a permit to dispatch the operation: the tests of the
-- backend's write on it, but for the signature.
unfoldable pub is_permit : String → Reply → Bool
is_permit oid refused = false
is_permit oid dropped = false
is_permit oid (answered v) = elim (get "body" v) [
  | none ↦ false
  | some b ↦ has_true "claimed" b && has_text "operation_id" oid b
]

abbrev pub one_if : Bool → ℕ
one_if b = if b then 1 else 0

abbrev pub count_permits : String → List Reply → ℕ
count_permits oid [] = 0
count_permits oid (r ∷ rest) = one_if (is_permit oid r) + count_permits oid rest

module _ (lib : Jcs) (config : ServiceConfig) where
  -- Requests to the audit service, in the order of their transactions, and its answers.
  abbrev pub audit_run : List (Action × Json) → AuditStore → List Reply
  audit_run [] s = []
  audit_run ((action, envelope) ∷ rest) s =
      let (reply, s') = audit lib config action envelope s in reply ∷ audit_run rest s'

  module _ (oid : String) where
    permit-ack :
        (action : Action) (a : Ack)
        → one_if (
            is_permit oid
              (reply_of (sign lib (ack_json lib config action a) config.secret "audit" false)))
          ≤ grants oid a
    unfolding is_permit sign ack_json get get_field
    permit-ack action a =
        elim (Option-cases (
          lib.dumps
            (vap_spec.RecordGate.Envelope.unsigned "audit" (ack_json lib config action a)))) [
              | inl fails ↦ ground (arith, fails)
              | inr (raw, works) ↦ ground (arith, works)
            ]

    permit-exported : (s : AuditStore) → is_permit oid (exported lib config s) ≡ false
    unfolding is_permit sign get get_field
    permit-exported s = ground arith

    committed-spends :
        (action : Action) (s : AuditStore) (r : Option (Ack × AuditStore))
        → ((a : Ack) (s' : AuditStore)
            → r ≡ some (a, s')
            → grants oid a + open_claims oid s'.operations ≤ open_claims oid s.operations)
        → one_if (is_permit oid (committed lib config action s r).0)
            + open_claims oid (committed lib config action s r).1.operations
          ≤ open_claims oid s.operations
    unfolding is_permit
    committed-spends action s none h = omega arith
    committed-spends action s (some (a, s')) h =
        let k = h a s' refl in
        let m = permit-ack action a in
        elim (Bool-cases (is_text_of config.drop_ack (action_name action))) [
          | inl drops ↦ rw drops (omega (arith, k))
          | inr sends ↦ rw sends (omega (arith, k, m))
        ]

    body-spends :
        (action : Action) (body : Json) (s : AuditStore)
        → one_if (is_permit oid (audit_body lib config action body s).0)
            + open_claims oid (audit_body lib config action body s).1.operations
          ≤ open_claims oid s.operations
    body-spends export_events body s = rw (permit-exported s) (omega arith)
    body-spends prepare body s =
        committed-spends prepare s _ (audit_transaction-Spends lib config oid prepare body s)
    body-spends claim body s =
        committed-spends claim s _ (audit_transaction-Spends lib config oid claim body s)
    body-spends outcome body s =
        committed-spends outcome s _ (audit_transaction-Spends lib config oid outcome body s)
    body-spends get_state body s =
        committed-spends get_state s _ (audit_transaction-Spends lib config oid get_state body s)
    body-spends (unsupported other) body s =
        committed-spends (unsupported other) s _
          (audit_transaction-Spends lib config oid (unsupported other) body s)

    audit-spends :
        (action : Action) (envelope : Json) (s : AuditStore)
        → one_if (is_permit oid (audit lib config action envelope s).0)
            + open_claims oid (audit lib config action envelope s).1.operations
          ≤ open_claims oid s.operations
    unfolding audit is_permit
    audit-spends action envelope s =
        elim (Option-cases (control lib config (action_name action) envelope)) [
          | inl fails ↦ rw (fails, audit) (omega arith)
          | inr (body, works) ↦
              elim (Bool-cases (is_text_of config.fail_action (action_name action))) [
                | inl faults ↦ rw (works, faults, audit) (omega arith)
                | inr runs ↦ rw (works, runs, audit) (body-spends action body s)
              ]
        ]

    permits-bound :
        (requests : List (Action × Json)) (s : AuditStore)
        → count_permits oid (audit_run requests s) ≤ open_claims oid s.operations
    permits-bound [] s = omega arith
    permits-bound ((action, envelope) ∷ rest) s =
        let k = audit-spends action envelope s in
        let m = permits-bound rest (audit lib config action envelope s).1 in omega (arith, k, m)

-- Whatever requests the audit service answers, forged and replayed ones included, with any injected
-- faults and lost acknowledgments: at most one answer is a permit to dispatch an operation, and none
-- is where the operation was dispatched before.
pub audit_run-permits :
    (lib : Jcs) (config : ServiceConfig) (oid : String) (requests : List (Action × Json))
    (s : AuditStore)
    → (count_permits oid (audit_run lib config requests s) ≤ 1)
      × ((row : Operation)
          → find_operation oid s.operations ≡ some row
          → is_prepared row.state ≡ false
          → count_permits oid (audit_run lib config requests s) ≡ 0)
audit_run-permits lib config oid requests s =
    let b = permits-bound lib config oid requests s in
    (ground (arith, b), λ row found closed. ground (arith, b, found, closed))
