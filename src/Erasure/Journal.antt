-- ===== src/Erasure/Journal.antt =====
-- provider.py: what the transactions of the journal preserve, and what their acknowledgments say.
use vap_spec.Base.{
  ◌≡◌, refl, Bool, true, false, ◌&&◌, Option, none, some, String, List, [], ◌∷◌, ◌++◌, str_eq,
  if-cases, option-holds, inl, inr, Option-cases, arith, &&-eq-true,
}
use vap_spec.Runtime.Json.{Json}
use vap_spec.Pilot.{PilotLib, canonical, identifier}
use vap_spec.Pilot.Journal.{
  Commit, commits, fails, unacknowledged, ClaimStatus, is_claim, find_row, is_claimed, set_result,
  committed-preserves, is_claimed-new, find_row-set,
}
use vap_spec.Erasure.Task.{Pins}
use vap_spec.Erasure.{
  End, ended, ErasureResult, Row, is_intent, historical_context, valid_result, agrees, claim_row,
  claim, finish, reread, intent_row, result_json,
}

-- An acknowledgment says that the request is claimed now, and was not before.
abbrev pub is_new : Option (Row × ClaimStatus) → Bool
is_new none = false
is_new (some (r, status)) = is_claim status

module _ (lib : PilotLib) (pins : Pins) where
  module _ (P : List Row → Type 0) where
    abbrev Holds {ℓ} : {A : Type ℓ} → A × List Row → Type 0
    Holds x = P x.1

    -- What the two statements that write to the table preserve, the two transactions preserve.
    claim_row-preserves :
        (c : Commit) (q f : String) (task : Json) (rows : List Row) (found : Option Row)
        → P rows
        → P (rows ++ intent_row lib pins q f task ∷ [])
        → P (claim_row lib pins c q f task rows found).1
    claim_row-preserves c q f task rows (some r) old new = old
    claim_row-preserves c q f task rows none old new = committed-preserves P c rows _ old new

    pub claim-preserves :
        (c : Commit) (q f : String) (task : Json) (rows : List Row)
        → P rows
        → P (rows ++ intent_row lib pins q f task ∷ [])
        → P (claim lib pins c q f task rows).1
    unfolding claim
    claim-preserves c q f task rows old new =
        option-holds Holds (historical_context lib pins task) _ _ old (λ context e.
          if-cases Holds (str_eq q context.request_id && str_eq f context.task_sha256) _ _
            (λ same. claim_row-preserves c q f task rows (find_row q rows) old new) (λ other. old))

    pub finish-preserves :
        (c : Commit) (q : String) (state : End) (result : ErasureResult) (rows : List Row)
        → P rows
        → ((valid_result result && agrees state result) ≡ true
            → P (set_result is_intent q (ended state) result rows))
        → P (finish lib pins c q state result rows).1
    unfolding finish
    finish-preserves c q state result rows old new =
        if-cases Holds (identifier q && (valid_result result && agrees state result)) _ _
          (λ valid. option-holds Holds (canonical lib (result_json result)) _ _ old (λ raw e.
            option-holds Holds (reread lib pins q rows) _ _ old (λ r there.
              if-cases Holds (is_intent r.state) _ _
                (λ intent.
                  committed-preserves P c rows _ old (new ((&&-eq-true (identifier q) _ valid).1)))
                (λ over. old))))
          (λ invalid. old)

  claim_row-takes :
      (c : Commit) (q f : String) (task : Json) (rows : List Row) (found : Option Row)
      → find_row q rows ≡ found
      → is_new (claim_row lib pins c q f task rows found).0 ≡ true
      → (is_claimed q rows ≡ false)
        × (is_claimed q (claim_row lib pins c q f task rows found).1 ≡ true)
  claim_row-takes commits q f task rows (some r) e h = absurd (ground (arith, h))
  claim_row-takes fails q f task rows (some r) e h = absurd cc
  claim_row-takes unacknowledged q f task rows (some r) e h = absurd cc
  claim_row-takes fails q f task rows none e h = absurd cc
  claim_row-takes unacknowledged q f task rows none e h = absurd cc
  claim_row-takes commits q f task rows none e h =
      (rw (e, is_claimed) refl, is_claimed-new rows (intent_row lib pins q f task))

  pub claim-takes :
      (c : Commit) (q f : String) (task : Json) (rows : List Row)
      → is_new (claim lib pins c q f task rows).0 ≡ true
      → (is_claimed q rows ≡ false) × (is_claimed q (claim lib pins c q f task rows).1 ≡ true)
  unfolding claim
  claim-takes c q f task rows h = elim (Option-cases (historical_context lib pins task)) [
    | inl bad ↦ absurd (ground (arith, bad, h))
    | inr (context, good) ↦
        ground (arith, good, h, claim_row-takes c q f task rows (find_row q rows) refl)
  ]

  reread-found :
      (q : String) (rows : List Row) (r : Row)
      → reread lib pins q rows ≡ some r
      → find_row q rows ≡ some r
  reread-found q rows r h = elim (Option-cases (find_row q rows)) [
    | inl gone ↦ absurd (ground (arith, gone, h))
    | inr (o, there) ↦ ground (arith, there, h)
  ]

  -- Where `_finish` is acknowledged, the row was an intent and now has the result.
  pub finish-acknowledged :
      (c : Commit) (q : String) (state : End) (result : ErasureResult) (rows : List Row) (r : Row)
      → (finish lib pins c q state result rows).0 ≡ some r
      → (old : Row) × (find_row q rows ≡ some old)
        × (is_intent old.state ≡ true)
        × (find_row q (finish lib pins c q state result rows).1
            ≡ some (record old { state = ended state; result = some result }))
  unfolding finish
  finish-acknowledged c q state result rows r h =
      elim (Option-cases (canonical lib (result_json result))) [
        | inl bad ↦ absurd (ground (arith, bad, h))
        | inr (raw, good) ↦ elim (Option-cases (reread lib pins q rows)) [
          | inl gone ↦ absurd (ground (arith, good, gone, h))
          | inr (old, there) ↦
              let found = reread-found q rows old there in
              let written = find_row-set is_intent q (ended state) result rows old found in
              let intent : is_intent old.state ≡ true = ground (arith, good, there, h) in
              (
                old,
                found,
                intent,
                elim c
                      as (λ c.
                        (finish lib pins c q state result rows).0 ≡ some r
                        → find_row q (finish lib pins c q state result rows).1
                          ≡ some (record old { state = ended state; result = some result })) [
                            | commits ↦ λ h. ground (arith, good, there, h, written)
                            | fails ↦ λ h. absurd (ground (arith, good, there, h))
                            | unacknowledged ↦ λ h. absurd (ground (arith, good, there, h))
                          ]
                    h,
              )
        ]
      ]
