-- ===== src/Publication/Terminal.antt =====
-- store.py: the rows of the journal are well formed, and a terminal row does not change.
use vap_spec.Base.{refl, String, List, All}
use vap_spec.Pilot.Journal.{
  Commit, IsComplete, Terminal, append-IsComplete, find_row-append, set_result-IsComplete,
  set_result-Terminal,
}
use vap_spec.Pilot.{PilotLib}
use vap_spec.Publication.{
  Snapshot, RowState, PublishResult, Row, claim, finish, is_intent, intent_row,
}
use vap_spec.Publication.Publish.{World, Publisher, Call, publish}
use vap_spec.Publication.Journal.{claim-preserves, finish-preserves}
use vap_spec.Publication.Preserved.{publish-Kept}

module _ (lib : PilotLib) (config : Publisher) where
  claims_stay :
      (q : String) (r : Row) (c : Commit) (o f : String) (s : Snapshot) (rows : List Row)
      → Terminal is_intent q r rows
      → Terminal is_intent q r (claim lib c o f s rows).1
  claims_stay q r c o f s rows (h, t) =
      claim-preserves lib (Terminal is_intent q r) c o f s rows (h, t)
        (find_row-append q rows _ r h, t)

  finishes_stay :
      (q : String) (r : Row) (c : Commit) (o : String) (state : RowState) (result : PublishResult)
      (rows : List Row)
      → Terminal is_intent q r rows
      → Terminal is_intent q r (finish lib c o state result rows).1
  finishes_stay q r c o state result rows (h, t) =
      finish-preserves lib (Terminal is_intent q r) c o state result rows (h, t)
        (λ over. set_result-Terminal is_intent q o state result rows r (h, t))

  claims-IsComplete :
      (c : Commit) (o f : String) (s : Snapshot) (rows : List Row)
      → All (IsComplete is_intent) rows
      → All (IsComplete is_intent) (claim lib c o f s rows).1
  claims-IsComplete c o f s rows h =
      claim-preserves lib (All (IsComplete is_intent)) c o f s rows h
        (append-IsComplete is_intent rows (intent_row lib o f s) h refl)

  finishes-IsComplete :
      (c : Commit) (o : String) (state : RowState) (result : PublishResult) (rows : List Row)
      → All (IsComplete is_intent) rows
      → All (IsComplete is_intent) (finish lib c o state result rows).1
  finishes-IsComplete c o state result rows h =
      finish-preserves lib (All (IsComplete is_intent)) c o state result rows h
        (λ over. set_result-IsComplete is_intent o state result rows over h)

-- `publish` keeps the journal well formed, whatever the call and other processes do, from an empty one
-- on: a row has a result exactly where it is not an intent.
pub publish-IsComplete :
    (lib : PilotLib) (config : Publisher) (c : Call) (w : World)
    → All (IsComplete is_intent) w.journal
    → All (IsComplete is_intent) (publish lib config c w).1.journal
publish-IsComplete lib config c w h =
    publish-Kept lib config (All (IsComplete is_intent)) (claims-IsComplete lib config)
      (finishes-IsComplete lib config) c w h

-- The terminal row of a request stays as it is, its result included, whatever call of `publish` is
-- made for whatever request and whatever other processes do.
pub publish-Terminal :
    (lib : PilotLib) (config : Publisher) (c : Call) (w : World) (q : String) (r : Row)
    → Terminal is_intent q r w.journal
    → Terminal is_intent q r (publish lib config c w).1.journal
publish-Terminal lib config c w q r t =
    publish-Kept lib config (Terminal is_intent q r) (claims_stay lib config q r)
      (finishes_stay lib config q r) c w t
