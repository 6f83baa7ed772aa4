-- ===== src/Erasure/Once.antt =====
-- provider.py: a provider is a one-shot service, and its journal keeps what is terminal.
use vap_spec.Base.{
  if◌then◌else◌, ◌≤◌, ◌≡◌, ◌∙◌, Bool, true, false, Option, none, some, String, List, arith,
}
use vap_spec.Runtime.Json.{Json}
use vap_spec.Pilot.{PilotLib}
use vap_spec.Pilot.OneShot.{OneShot, attempts, attempts-unclaimed}
use vap_spec.Pilot.Journal.{Commit, is_claimed, is_claimed-append, is_claimed-set}
use vap_spec.Erasure.Task.{Context}
use vap_spec.Erasure.{End, ended, ErasureResult, Row, is_intent, claim, finish}
use vap_spec.Erasure.Delete.{
  World, Event, Provider, Call, happen, persist, captured, deleted, delete,
}
use vap_spec.Erasure.Journal.{claim-preserves, finish-preserves, claim-takes}
use vap_spec.Erasure.Exits.{Stages, Exit, idle, held, tried, delete_task-Exit}
use vap_spec.Erasure.Preserved.{happen-Has, persist-Has, delete-Has}

module _ (lib : PilotLib) (config : Provider) where
  abbrev pub Claimed : String → List Row → Type 0
  Claimed q rows = is_claimed q rows ≡ true

  pub claims_keep :
      (q : String) (c : Commit) (o f : String) (task : Json) (rows : List Row)
      → Claimed q rows
      → Claimed q (claim lib config.pins c o f task rows).1
  claims_keep q c o f task rows h =
      claim-preserves lib config.pins (Claimed q) c o f task rows h (is_claimed-append q rows _ h)

  pub finishes_keep :
      (q : String) (c : Commit) (o : String) (e : End) (result : ErasureResult) (rows : List Row)
      → Claimed q rows
      → Claimed q (finish lib config.pins c o e result rows).1
  finishes_keep q c o e result rows h =
      finish-preserves lib config.pins (Claimed q) c o e result rows h
        (λ valid. is_claimed-set is_intent q o (ended e) result rows ∙ h)

  pub events_keep :
      (q : String) (events : List Event) (w : World)
      → Claimed q w.journal
      → Claimed q (happen lib config events w).journal
  events_keep q = happen-Has lib config (Claimed q) (claims_keep q) (finishes_keep q)

  -- Whether a call tried os.unlink.
  abbrev pub tries : Option ErasureResult → Bool
  tries none = false
  tries (some r) = r.attempted

  module _ (c : Call) (context : Context) (name : String) (start : World) where
    abbrev q : String
    q = context.request_id

    abbrev New : World → Type 0
    New w = (is_claimed q start.journal ≡ false) × Claimed q w.journal

    abbrev Old : World → Type 0
    Old w = Claimed q start.journal → Claimed q w.journal

    pub unclaimed_before :
        (w : World) → is_claimed q w.journal ≡ false → Old w → is_claimed q start.journal ≡ false
    unclaimed_before w free h = ground (arith, free, h)

    abbrev stages : Stages lib config c context name
    stages = record {
      Before = Old;
      Claimed = New;
      Tested = New;
      Tried = New;
      starts = λ w h b. events_keep q c.env.at_start w (h b);
      waits = λ w h b. events_keep q c.env.at_claim w (h b);
      refused = λ w h b. claims_keep q _ _ _ _ _ (h b);
      granted = λ w h g.
          let (free, taken) =
            claim-takes lib config.pins c.env.claim_commit q context.task_sha256 c.task w.journal
              g in
          (unclaimed_before w free h, taken);
      hooks = λ w h. (h.0, events_keep q c.env.at_hook w (h.1));
      tests = λ w identity at u h e. (h.0, events_keep q c.env.at_race w (h.1));
      tries = λ w h. h;
      unlinks = λ w h. h;
      waits_again = λ w h. (h.0, events_keep q c.env.at_absence w (h.1));
    }

    exit-takes :
        (x : ErasureResult × World)
        → Exit lib config c context name stages x
        → x.0.attempted ≡ true
        → New x.1
    unfolding persist
    exit-takes x (idle r w still valid h) now = absurd (ground (arith, still, now))
    exit-takes x (held e given w still valid h) now = absurd (ground (arith, still, now))
    exit-takes x (tried e given w tried_now valid seen h) now = (
      h.0,
      persist-Has lib config (Claimed q) (claims_keep q) (finishes_keep q) c.env context e given w
          (h.1),
    )

  abbrev pub id_of : Option (Context × String) → String
  id_of none = ""
  id_of (some (context, name)) = context.request_id

  -- The identifier of the request that a task is for.
  abbrev pub request_of : Call → String
  request_of c = id_of (captured lib config c)

  deleted-takes :
      (c : Call) (found : Option (Context × String)) (w : World)
      → tries (deleted lib config c found w).0 ≡ true
      → (is_claimed (id_of found) w.journal ≡ false)
        × Claimed (id_of found) (deleted lib config c found w).1.journal
  deleted-takes c none w h = absurd cc
  deleted-takes c (some (context, name)) w h =
      exit-takes c context name w _
        (delete_task-Exit lib config c context name (stages c context name w) w (λ b. b)) h

  pub delete-takes :
      (c : Call) (w : World)
      → tries (delete lib config c w).0 ≡ true
      → (is_claimed (request_of c) w.journal ≡ false)
        × Claimed (request_of c) (delete lib config c w).1.journal
  unfolding delete
  delete-takes c w h = deleted-takes c (captured lib config c) w h

  pub delete-keeps :
      (c : Call) (w : World) (q : String)
      → Claimed q w.journal
      → Claimed q (delete lib config c w).1.journal
  delete-keeps c w q h = delete-Has lib config (Claimed q) (claims_keep q) (finishes_keep q) c w h

  -- `delete` as a service whose effect is os.unlink.
  abbrev pub eraser : OneShot Call World
  eraser = record {
    request = request_of;
    is_claimed = λ q w. is_claimed q w.journal;
    step = λ c w. let (r, w') = delete lib config c w in (tries r, w');
    keeps = delete-keeps;
    takes = delete-takes;
  }

-- Whatever calls of `delete` are made, with any hooks and lost acknowledgments, and with other
-- processes that use the journal and change the namespace in between: at most one call for a request
-- tries os.unlink, and none does where the request was claimed before.
pub delete-once :
    (lib : PilotLib) (config : Provider) (q : String) (calls : List Call) (w : World)
    → attempts (eraser lib config) q calls w ≤ (if is_claimed q w.journal then 0 else 1)
delete-once lib config q calls w = attempts-unclaimed (eraser lib config) q calls w
