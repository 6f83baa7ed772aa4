-- ===== src/Erasure/Preserved.antt =====
-- provider.py: what claims and results of any task preserve, `delete` preserves.
use vap_spec.Base.{Option, none, some, String, List, [], ◌∷◌}
use vap_spec.Runtime.Json.{Json}
use vap_spec.Pilot.{PilotLib}
use vap_spec.Pilot.Journal.{Commit}
use vap_spec.Erasure.Task.{Context}
use vap_spec.Erasure.{End, ended, final, row_is, ErasureResult, Row, claim, finish}
use vap_spec.Erasure.Delete.{
  World, Event, claims, finishes, places, removes, Env, Provider, Call, happens, happen, persist,
  captured, deleted, delete,
}
use vap_spec.Erasure.Exits.{Stages, Exit, idle, held, tried, delete_task-Exit}

module _ (lib : PilotLib) (config : Provider) (P : List Row → Type 0)
    (claim_keeps : (c : Commit) (q f : String) (task : Json) (rows : List Row)
      → P rows
      → P (claim lib config.pins c q f task rows).1)
    (finish_keeps : (c : Commit) (q : String) (state : End) (result : ErasureResult)
        (rows : List Row)
      → P rows
      → P (finish lib config.pins c q state result rows).1) where
  abbrev Has : World → Type 0
  Has w = P w.journal

  happens-Has : (e : Event) (w : World) → Has w → Has (happens lib config e w)
  happens-Has (claims c q f task) w h = claim_keeps c q f task w.journal h
  happens-Has (finishes c q state result) w h = finish_keeps c q state result w.journal h
  happens-Has (places n f) w h = h
  happens-Has (removes n) w h = h

  pub happen-Has : (events : List Event) (w : World) → Has w → Has (happen lib config events w)
  happen-Has [] w h = h
  happen-Has (e ∷ events) w h = happen-Has events (happens lib config e w) (happens-Has e w h)

  pub persist-Has :
      (env : Env) (context : Context) (e : End) (given : ErasureResult) (w : World)
      → Has w
      → Has (persist lib config env context e given w).1
  unfolding persist
  persist-Has env context e given w h =
      finish_keeps env.finish_commit context.request_id e
        (record given { state = final e; journal_state = row_is (ended e) })
        (happen lib config env.at_finish w).journal (happen-Has env.at_finish w h)

  module _ (c : Call) (context : Context) (name : String) where
    abbrev stages : Stages lib config c context name
    stages = record {
      Before = Has;
      Claimed = Has;
      Tested = Has;
      Tried = Has;
      starts = happen-Has c.env.at_start;
      waits = happen-Has c.env.at_claim;
      refused = λ w h. claim_keeps _ _ _ _ _ h;
      granted = λ w h g. claim_keeps _ _ _ _ _ h;
      hooks = happen-Has c.env.at_hook;
      tests = λ w identity at unlinked_at h e. happen-Has c.env.at_race w h;
      tries = λ w h. h;
      unlinks = λ w h. h;
      waits_again = happen-Has c.env.at_absence;
    }

    exit-Has : (x : ErasureResult × World) → Exit lib config c context name stages x → Has x.1
    exit-Has x (idle r w still valid h) = h
    exit-Has x (held e given w still valid h) = persist-Has c.env context e given w h
    exit-Has x (tried e given w now valid seen h) = persist-Has c.env context e given w h

  deleted-Has :
      (c : Call) (found : Option (Context × String)) (w : World)
      → Has w
      → Has (deleted lib config c found w).1
  deleted-Has c none w h = h
  deleted-Has c (some (context, name)) w h =
      exit-Has c context name _
        (delete_task-Exit lib config c context name (stages c context name) w h)

  pub delete-Has : (c : Call) (w : World) → Has w → Has (delete lib config c w).1
  unfolding delete
  delete-Has c w h = deleted-Has c (captured lib config c) w h
