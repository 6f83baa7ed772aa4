-- ===== src/Erasure/Results.antt =====
-- provider.py: what `delete` returns and what the journal keeps satisfies `_validate_result`.
use mathlib.Core.Path.{subst}
use vap_spec.Base.{
  ◌≡◌, refl, true, ◌&&◌, Option, none, some, String, List, [], ◌∷◌, ◌++◌, str_eq, if-cases, inl,
  inr, Bool-cases, All,
}
use vap_spec.Runtime.Json.{Json}
use vap_spec.Pilot.{PilotLib}
use vap_spec.Pilot.Journal.{Commit, Terminal, find_row-append, set_result-Terminal, set_result}
use vap_spec.Erasure.Task.{Context}
use vap_spec.Erasure.{
  End, ended, final, row_is, ErasureResult, Row, is_intent, valid_result, valid_outcome, agrees,
  claim, finish, intent_row,
}
use vap_spec.Erasure.Delete.{
  World, Env, Provider, Call, happen, is_accepted, persist, captured, deleted, delete, delete_task,
}
use vap_spec.Erasure.Journal.{claim-preserves, finish-preserves}
use vap_spec.Erasure.Exits.{Stages, Exit, idle, held, tried, delete_task-Exit}
use vap_spec.Erasure.Preserved.{delete-Has}

-- The state and the result of a row agree, and the result is valid.
abbrev pub IsSound : Row → Type 0
IsSound r = valid_outcome r.state r.result ≡ true

append-IsSound :
    (rows : List Row) (r : Row) → All IsSound rows → IsSound r → All IsSound (rows ++ r ∷ [])
append-IsSound [] r h k = (k, tt)
append-IsSound (x ∷ rows) r (here, there) k = (here, append-IsSound rows r there k)

set_result-IsSound :
    (q : String) (e : End) (result : ErasureResult) (rows : List Row)
    → (valid_result result && agrees e result) ≡ true
    → All IsSound rows
    → All IsSound (set_result is_intent q (ended e) result rows)
unfolding set_result
set_result-IsSound q e result [] valid h = tt
set_result-IsSound q e result (x ∷ rows) valid (here, there) = (
  if-cases IsSound (str_eq x.request_id q && is_intent x.state) _ _ (λ set. valid) (λ kept. here),
  set_result-IsSound q e result rows valid there,
)

module _ (lib : PilotLib) (config : Provider) where
  persist-valid :
      (env : Env) (context : Context) (e : End) (given : ErasureResult) (w : World)
      → valid_result (record given { state = final e }) ≡ true
      → valid_result (persist lib config env context e given w).0 ≡ true
  unfolding persist valid_result
  persist-valid env context e given w valid =
      let result : ErasureResult = record given {
        state = final e;
        journal_state = row_is (ended e);
      } in
      let (ack, rows) =
        finish lib config.pins env.finish_commit context.request_id e result
          (happen lib config env.at_finish w).journal in
      elim (Bool-cases (is_accepted lib config context e result ack)) [
        | inl accepted ↦ rw accepted valid
        | inr refused ↦ rw refused refl
      ]

  module _ (c : Call) (context : Context) (name : String) where
    -- Nothing has to be known of the worlds.
    abbrev pub anything : Stages lib config c context name
    anything = record {
      Before = λ w. Unit {0};
      Claimed = λ w. Unit {0};
      Tested = λ w. Unit {0};
      Tried = λ w. Unit {0};
      starts = λ w h. tt;
      waits = λ w h. tt;
      refused = λ w h. tt;
      granted = λ w h g. tt;
      hooks = λ w h. tt;
      tests = λ w identity at u h e. tt;
      tries = λ w h. tt;
      unlinks = λ w h. tt;
      waits_again = λ w h. tt;
    }

    exit-valid :
        (x : ErasureResult × World)
        → Exit lib config c context name anything x
        → valid_result x.0 ≡ true
    exit-valid x (idle r w still valid h) = valid
    exit-valid x (held e given w still valid h) = persist-valid c.env context e given w valid
    exit-valid x (tried e given w now valid seen h) = persist-valid c.env context e given w valid

  deleted-valid :
      (c : Call) (found : Option (Context × String)) (w : World) (r : ErasureResult)
      → (deleted lib config c found w).0 ≡ some r
      → valid_result r ≡ true
  deleted-valid c none w r h = absurd cc
  deleted-valid c (some (context, name)) w r h =
      let (result, w') = delete_task lib config c context name w in
      let same : result ≡ r = cc in
      subst (λ v. valid_result v ≡ true) same
        (exit-valid c context name _
          (delete_task-Exit lib config c context name (anything c context name) w tt))

  claims-IsSound :
      (c : Commit) (q f : String) (task : Json) (rows : List Row)
      → All IsSound rows
      → All IsSound (claim lib config.pins c q f task rows).1
  claims-IsSound c q f task rows h =
      claim-preserves lib config.pins (All IsSound) c q f task rows h
        (append-IsSound rows (intent_row lib config.pins q f task) h refl)

  finishes-IsSound :
      (c : Commit) (q : String) (e : End) (result : ErasureResult) (rows : List Row)
      → All IsSound rows
      → All IsSound (finish lib config.pins c q e result rows).1
  finishes-IsSound c q e result rows h =
      finish-preserves lib config.pins (All IsSound) c q e result rows h
        (λ valid. set_result-IsSound q e result rows valid h)

  claims_stay :
      (o : String) (r : Row) (c : Commit) (q f : String) (task : Json) (rows : List Row)
      → Terminal is_intent o r rows
      → Terminal is_intent o r (claim lib config.pins c q f task rows).1
  claims_stay o r c q f task rows (h, t) =
      claim-preserves lib config.pins (Terminal is_intent o r) c q f task rows (h, t)
        (find_row-append o rows _ r h, t)

  finishes_stay :
      (o : String) (r : Row) (c : Commit) (q : String) (e : End) (result : ErasureResult)
      (rows : List Row)
      → Terminal is_intent o r rows
      → Terminal is_intent o r (finish lib config.pins c q e result rows).1
  finishes_stay o r c q e result rows h =
      finish-preserves lib config.pins (Terminal is_intent o r) c q e result rows h
        (λ valid. set_result-Terminal is_intent o q (ended e) result rows r h)

-- On every path, errors and replays included, `delete` returns a result that `_validate_result`
-- accepts: a confirmed unlink was tried and has its three pieces of evidence, no other result claims
-- completion, and a replay has no acknowledgment.
pub delete-valid :
    (lib : PilotLib) (config : Provider) (c : Call) (w : World) (r : ErasureResult)
    → (delete lib config c w).0 ≡ some r
    → valid_result r ≡ true
unfolding delete
delete-valid lib config c w r h = deleted-valid lib config c (captured lib config c) w r h

-- `delete` keeps the journal sound, whatever the call and other processes do, from an empty one on: an
-- intent has no result, and a terminal row has a valid result of its state.
pub delete-IsSound :
    (lib : PilotLib) (config : Provider) (c : Call) (w : World)
    → All IsSound w.journal
    → All IsSound (delete lib config c w).1.journal
delete-IsSound lib config c w h =
    delete-Has lib config (All IsSound) (claims-IsSound lib config) (finishes-IsSound lib config) c
      w h

-- The terminal row of a request stays as it is, its result included, whatever call of `delete` is
-- made for whatever request and whatever other processes do.
pub delete-Terminal :
    (lib : PilotLib) (config : Provider) (c : Call) (w : World) (q : String) (r : Row)
    → Terminal is_intent q r w.journal
    → Terminal is_intent q r (delete lib config c w).1.journal
delete-Terminal lib config c w q r t =
    delete-Has lib config (Terminal is_intent q r) (claims_stay lib config q r)
      (finishes_stay lib config q r) c w t
