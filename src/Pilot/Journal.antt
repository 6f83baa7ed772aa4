-- ===== src/Pilot/Journal.antt =====
-- The table of the journals publication_journal (publication_pilot/store.py) and erasure_journal
-- (erasure_pilot/provider.py): both have the same columns and are written by the same statements.
use vap_spec.Base.{
  ◌≡◌, refl, sym, Bool, true, false, ◌&&◌, Option, none, some, String, List, [], ◌∷◌, ◌++◌, str_eq,
  eq_refl, if◌then◌else◌, if-cases, arith, All,
}

-- What comes of a transaction: it is committed and acknowledged, it fails, or it is committed and
-- its acknowledgment is lost.
pub data Commit : Type 0 where
  commits fails unacknowledged : Commit

abbrev pub acknowledge {ℓ} : {A : Type ℓ} → Commit → Option A → Option A
acknowledge commits a = a
acknowledge fails a = none
acknowledge unacknowledged a = none

abbrev pub committed {ℓ} : {A : Type ℓ} → Commit → A → A → A
committed commits old new = new
committed fails old new = old
committed unacknowledged old new = new

pub data ClaimStatus : Type 0 where
  claimed replay conflict : ClaimStatus

abbrev pub is_claim : ClaimStatus → Bool
is_claim claimed = true
is_claim replay = false
is_claim conflict = false

abbrev pub is_replay : ClaimStatus → Bool
is_replay claimed = false
is_replay replay = true
is_replay conflict = false

-- A row. Its columns snapshot_json and result_json are canonical JSON of the values.
pub record JournalRow (Snapshot State Outcome : Type 0) : Type 0 where
  pub request_id : String
  pub fingerprint : String
  pub state : State
  pub snapshot : Snapshot
  pub result : Option Outcome

pub committed-preserves {ℓ κ} :
    {A : Type ℓ} (P : A → Type κ) (c : Commit) (old new : A)
    → P old
    → P new
    → P (committed c old new)
committed-preserves P commits old new a b = b
committed-preserves P fails old new a b = a
committed-preserves P unacknowledged old new a b = b

module _ {Snapshot State Outcome : Type 0} where
  abbrev pub has_no_result : JournalRow Snapshot State Outcome → Bool
  has_no_result r = elim r.result [ none ↦ true | some v ↦ false ]

  -- SELECT … WHERE request_id=?
  unfoldable pub find_row :
      String → List (JournalRow Snapshot State Outcome) → Option (JournalRow Snapshot State Outcome)
  find_row q [] = none
  find_row q (r ∷ rows) = if str_eq r.request_id q then some r else find_row q rows

  abbrev pub is_claimed : String → List (JournalRow Snapshot State Outcome) → Bool
  is_claimed q rows = elim (find_row q rows) [ none ↦ false | some r ↦ true ]

  pub find_row-append :
      (q : String) (rows more : List (JournalRow Snapshot State Outcome))
      (r : JournalRow Snapshot State Outcome)
      → find_row q rows ≡ some r
      → find_row q (rows ++ more) ≡ some r
  unfolding find_row
  find_row-append q [] more r h = absurd cc
  find_row-append q (o ∷ rows) more r h = ground (arith, find_row-append q rows more r)

  pub is_claimed-append :
      (q : String) (rows more : List (JournalRow Snapshot State Outcome))
      → is_claimed q rows ≡ true
      → is_claimed q (rows ++ more) ≡ true
  unfolding find_row
  is_claimed-append q [] more h = absurd cc
  is_claimed-append q (r ∷ rows) more h = ground (arith, is_claimed-append q rows more)

  pub is_claimed-new :
      (rows : List (JournalRow Snapshot State Outcome)) (r : JournalRow Snapshot State Outcome)
      → is_claimed r.request_id (rows ++ r ∷ []) ≡ true
  unfolding find_row
  is_claimed-new [] r = ground (arith, eq_refl r.request_id)
  is_claimed-new (o ∷ rows) r = ground (arith, is_claimed-new rows r)

  module _ (is_intent : State → Bool) where
    -- UPDATE … SET state=?, result_json=? WHERE request_id=? AND state is the intent
    unfoldable pub set_result :
        String
        → State
        → Outcome
        → List (JournalRow Snapshot State Outcome)
        → List (JournalRow Snapshot State Outcome)
    set_result q state result [] = []
    set_result q state result (r ∷ rows) =
        (if str_eq r.request_id q && is_intent r.state
          then record r { state = state; result = some result }
          else r)
        ∷ set_result q state result rows

    -- A row has a result where it is not an intent.
    abbrev pub IsComplete : JournalRow Snapshot State Outcome → Type 0
    IsComplete r = has_no_result r ≡ is_intent r.state

    -- The request has the row, which is terminal.
    abbrev pub Terminal :
        String
        → JournalRow Snapshot State Outcome
        → List (JournalRow Snapshot State Outcome)
        → Type 0
    Terminal q r rows = (find_row q rows ≡ some r) × (is_intent r.state ≡ false)

    pub is_claimed-set :
        (q o : String) (state : State) (result : Outcome)
        (rows : List (JournalRow Snapshot State Outcome))
        → is_claimed q (set_result o state result rows) ≡ is_claimed q rows
    unfolding find_row set_result
    is_claimed-set q o state result [] = refl
    is_claimed-set q o state result (r ∷ rows) =
        ground (arith, is_claimed-set q o state result rows)

    pub find_row-set :
        (q : String) (state : State) (result : Outcome)
        (rows : List (JournalRow Snapshot State Outcome)) (r : JournalRow Snapshot State Outcome)
        → find_row q rows ≡ some r
        → is_intent r.state ≡ true
        → find_row q (set_result q state result rows)
          ≡ some (record r { state = state; result = some result })
    unfolding find_row set_result
    find_row-set q state result [] r h intent = absurd cc
    find_row-set q state result (o ∷ rows) r h intent =
        ground (arith, find_row-set q state result rows r)

    pub set_result-Terminal :
        (q o : String) (state : State) (result : Outcome)
        (rows : List (JournalRow Snapshot State Outcome)) (r : JournalRow Snapshot State Outcome)
        → Terminal q r rows
        → Terminal q r (set_result o state result rows)
    unfolding find_row set_result
    set_result-Terminal q o state result [] r (h, t) = absurd cc
    set_result-Terminal q o state result (x ∷ rows) r (h, t) =
        (ground (arith, h, t, set_result-Terminal q o state result rows r), t)

    pub append-IsComplete :
        (rows : List (JournalRow Snapshot State Outcome)) (r : JournalRow Snapshot State Outcome)
        → All IsComplete rows
        → IsComplete r
        → All IsComplete (rows ++ r ∷ [])
    append-IsComplete [] r h k = (k, tt)
    append-IsComplete (x ∷ rows) r (here, there) k = (here, append-IsComplete rows r there k)

    pub set_result-IsComplete :
        (o : String) (state : State) (result : Outcome)
        (rows : List (JournalRow Snapshot State Outcome))
        → is_intent state ≡ false
        → All IsComplete rows
        → All IsComplete (set_result o state result rows)
    unfolding set_result
    set_result-IsComplete o state result [] t h = tt
    set_result-IsComplete o state result (x ∷ rows) t (here, there) = (
      if-cases IsComplete (str_eq x.request_id o && is_intent x.state) _ _ (λ set. sym t)
          (λ kept. here),
      set_result-IsComplete o state result rows t there,
    )
