-- ===== src/Publication/Journal.antt =====
-- store.py: a claimed request stays claimed, whatever publishers and other processes do.
use vap_spec.Base.{
  if-cases, option-holds, str_eq, ◌&&◌, not, ◌≡◌, refl, Bool, true, false, Option, none, some,
  String, List, [], ◌∷◌, ◌++◌, eq_iff, inl, inr, Option-cases, arith,
}
use vap_spec.Pilot.Journal.{
  committed-preserves, ClaimStatus, Commit, commits, fails, find_row, find_row-set, is_claim,
  is_claimed, is_claimed-append, is_claimed-new, is_claimed-set, set_result, unacknowledged,
}
use vap_spec.Pilot.{identifier, is_sha256, PilotLib, canonical}
use vap_spec.Publication.{
  valid_snapshot, Snapshot, RowState, PublishResult, Row, claim_row, claim, finish, intent_row,
  reread, snapshot_json, result_json, is_intent,
}

-- An acknowledgment says that the request is claimed now, and was not before.
abbrev pub is_new : Option (Row × ClaimStatus) → Bool
is_new none = false
is_new (some (r, status)) = is_claim status

module _ (lib : PilotLib) (P : List Row → Type 0) where
  -- What the two statements that write to the table preserve, the two transactions preserve.
  claim_row-preserves :
      (c : Commit) (q f : String) (s : Snapshot) (rows : List Row) (found : Option Row)
      → P rows
      → P (rows ++ intent_row lib q f s ∷ [])
      → P (claim_row lib c q f s rows found).1
  claim_row-preserves c q f s rows (some r) old new = old
  claim_row-preserves fails q f s rows none old new = old
  claim_row-preserves commits q f s rows none old new = new
  claim_row-preserves unacknowledged q f s rows none old new = new

  pub claim-preserves :
      (c : Commit) (q f : String) (s : Snapshot) (rows : List Row)
      → P rows
      → P (rows ++ intent_row lib q f s ∷ [])
      → P (claim lib c q f s rows).1
  unfolding claim
  claim-preserves c q f s rows old new =
      if-cases (λ (x : Option (Row × ClaimStatus) × List Row). P x.1)
        (identifier q
          && (is_sha256 f
              && (valid_snapshot lib s && (str_eq s.request_id q && str_eq s.fingerprint f))))
        _ _
        (λ valid.
          option-holds (λ (x : Option (Row × ClaimStatus) × List Row). P x.1)
            (canonical lib (snapshot_json s)) _ _ old
            (λ raw e. claim_row-preserves c q f s rows (find_row q rows) old new))
        (λ invalid. old)

  is_over :
      (q : String) (state : RowState)
      → (identifier q && not (is_intent state)) ≡ true
      → is_intent state ≡ false
  is_over q state h = ground (arith, h)

  pub finish-preserves :
      (c : Commit) (q : String) (state : RowState) (result : PublishResult) (rows : List Row)
      → P rows
      → (is_intent state ≡ false → P (set_result is_intent q state result rows))
      → P (finish lib c q state result rows).1
  unfolding finish
  finish-preserves c q state result rows old new =
      if-cases (λ (x : Option Row × List Row). P x.1) (identifier q && not (is_intent state)) _ _
        (λ valid.
          option-holds (λ (x : Option Row × List Row). P x.1) (canonical lib (result_json result)) _
            _ old
            (λ raw e.
              option-holds (λ (x : Option Row × List Row). P x.1) (reread lib q rows) _ _ old
                (λ r there.
                  if-cases (λ (x : Option Row × List Row). P x.1) (is_intent r.state) _ _
                    (λ intent. committed-preserves P c rows _ old (new (is_over q state valid)))
                    (λ over. old))))
        (λ invalid. old)

module _ (lib : PilotLib) where
  pub claim-keeps :
      (c : Commit) (q f o : String) (s : Snapshot) (rows : List Row)
      → is_claimed o rows ≡ true
      → is_claimed o (claim lib c q f s rows).1 ≡ true
  claim-keeps c q f o s rows h =
      claim-preserves lib (λ rs. is_claimed o rs ≡ true) c q f s rows h
        (is_claimed-append o rows (intent_row lib q f s ∷ []) h)

  pub finish-keeps :
      (c : Commit) (q o : String) (state : RowState) (result : PublishResult) (rows : List Row)
      → is_claimed o (finish lib c q state result rows).1 ≡ is_claimed o rows
  unfolding finish
  finish-keeps c q o state result rows = elim (Option-cases (canonical lib (result_json result))) [
    | inl bad ↦ ground (arith, bad)
    | inr (raw, good) ↦ elim (Option-cases (reread lib q rows)) [
      | inl gone ↦ ground (arith, good, gone)
      | inr (r, there) ↦ ground (arith, good, there, is_claimed-set is_intent o q state result rows)
    ]
  ]

  claim_row-takes :
      (c : Commit) (q f : String) (s : Snapshot) (rows : List Row) (found : Option Row)
      → find_row q rows ≡ found
      → is_new (claim_row lib c q f s rows found).0 ≡ true
      → (is_claimed q rows ≡ false) × (is_claimed q (claim_row lib c q f s rows found).1 ≡ true)
  claim_row-takes c q f s rows (some r) e h = absurd (ground (arith, h))
  claim_row-takes fails q f s rows none e h = absurd cc
  claim_row-takes unacknowledged q f s rows none e h = absurd cc
  claim_row-takes commits q f s rows none e h =
      (rw (e, is_claimed) refl, is_claimed-new rows (intent_row lib q f s))

  pub claim-takes :
      (c : Commit) (q f : String) (s : Snapshot) (rows : List Row)
      → is_new (claim lib c q f s rows).0 ≡ true
      → (is_claimed q rows ≡ false) × (is_claimed q (claim lib c q f s rows).1 ≡ true)
  unfolding claim
  claim-takes c q f s rows h = elim (Option-cases (canonical lib (snapshot_json s))) [
    | inl bad ↦ ground (arith, bad, h)
    | inr (raw, good) ↦ ground (arith, good, h, claim_row-takes c q f s rows (find_row q rows) refl)
  ]

find_row-id : (q : String) (rows : List Row) (r : Row) → find_row q rows ≡ some r → r.request_id ≡ q
unfolding find_row
find_row-id q [] r h = absurd cc
find_row-id q (o ∷ rows) r h = ground (arith, eq_iff o.request_id q, find_row-id q rows r)

module _ (lib : PilotLib) where
  reread-found :
      (q : String) (rows : List Row) (r : Row)
      → reread lib q rows ≡ some r
      → find_row q rows ≡ some r
  reread-found q rows r h = elim (Option-cases (find_row q rows)) [
    | inl gone ↦ absurd (ground (arith, gone, h))
    | inr (o, there) ↦ ground (arith, there, h)
  ]

  -- Where `_finish` is acknowledged, the row was an intent and now has the result.
  pub finish-acknowledged :
      (c : Commit) (q : String) (state : RowState) (result : PublishResult) (rows : List Row)
      (r : Row)
      → (finish lib c q state result rows).0 ≡ some r
      → (old : Row) × (find_row q rows ≡ some old)
        × (is_intent old.state ≡ true)
        × (find_row q (finish lib c q state result rows).1
            ≡ some (record old { state = state; result = some result }))
  unfolding finish
  finish-acknowledged c q state result rows r h =
      elim (Option-cases (canonical lib (result_json result))) [
        | inl bad ↦ absurd (ground (arith, bad, h))
        | inr (raw, good) ↦ elim (Option-cases (reread lib q rows)) [
          | inl gone ↦ absurd (ground (arith, good, gone, h))
          | inr (old, there) ↦
              let found = reread-found q rows old there in
              let written = find_row-set is_intent q state result rows old found in
              let intent : is_intent old.state ≡ true = ground (arith, good, there, h) in
              (
                old,
                found,
                intent,
                elim c
                      as (λ c.
                        (finish lib c q state result rows).0 ≡ some r
                        → find_row q (finish lib c q state result rows).1
                          ≡ some (record old { state = state; result = some result })) [
                            | commits ↦ λ h. ground (arith, good, there, h, written)
                            | fails ↦ λ h. absurd (ground (arith, good, there, h))
                            | unacknowledged ↦ λ h. absurd (ground (arith, good, there, h))
                          ]
                    h,
              )
        ]
      ]
