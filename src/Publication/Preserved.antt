-- ===== src/Publication/Preserved.antt =====
-- store.py: what claims and results of any request preserve, `publish` preserves.
use vap_spec.Base.{
  Bool, true, false, Option, none, some, String, List, [], ◌∷◌, inl, inr, Bool-cases, arith,
}
use vap_spec.Runtime.Json.{Json}
use vap_spec.Pilot.Journal.{Commit}
use vap_spec.Pilot.{PilotLib}
use vap_spec.Publication.{
  Snapshot, RowState, publication_intent, PublishResult, Row, claim, finish, row_is, get,
}
use vap_spec.Publication.Publish.{
  World, Event, claims, finishes, places, removes, happens, Env, Link, links, refuses, uncertain,
  Stage, absent, partial, complete, Publisher, Call, not_prepared, Disposition, not_established,
  owned, replays, happen, persist, after_link, put, linked, attempt, has_name, owned_intent,
  disposed, with_stage, stage, staging, publish_new, snapshot_of, published, publish,
}

module _ (lib : PilotLib) (config : Publisher) (P : List Row → Type 0)
    (claiming : (c : Commit) (o f : String) (s : Snapshot) (rows : List Row)
      → P rows
      → P (claim lib c o f s rows).1)
    (finishing : (c : Commit) (o : String) (state : RowState) (result : PublishResult)
        (rows : List Row)
      → P rows
      → P (finish lib c o state result rows).1) where
  abbrev Kept : World → World → Type 0
  Kept w w' = P w.journal → P w'.journal

  happens-Kept : (e : Event) (w : World) → Kept w (happens lib e w)
  happens-Kept (claims c s) w h = claiming c s.request_id s.fingerprint s w.journal h
  happens-Kept (finishes c o state result) w h = finishing c o state result w.journal h
  happens-Kept (places n f) w h = h
  happens-Kept (removes n) w h = h

  pub happen-Kept : (events : List Event) (w : World) → Kept w (happen lib events w)
  happen-Kept [] w h = h
  happen-Kept (e ∷ events) w h = happen-Kept events (happens lib e w) (happens-Kept e w h)

  persist-Kept :
      (env : Env) (result : PublishResult) (s : Snapshot) (state : RowState) (w : World)
      → Kept w (persist lib env result s state w).1
  unfolding persist
  persist-Kept env result s state w h =
      finishing env.finish_commit s.request_id state
        (record result { journal_state = row_is state }) (happen lib env.at_finish w).journal
        (happen-Kept env.at_finish w h)

  after_link-Kept :
      (env : Env) (result : PublishResult) (s : Snapshot) (receipt : Option Json) (w : World)
      → Kept w (after_link lib config env result s receipt w).1
  after_link-Kept env result s none w h = persist-Kept env _ s _ w h
  after_link-Kept env result s (some receipt) w h = persist-Kept env _ s _ w h

  linked-Kept :
      (env : Env) (result : PublishResult) (s : Snapshot) (html : String) (l : Link) (w : World)
      → Kept w (linked lib config env result s html l w).1
  linked-Kept env result s html links w h =
      after_link-Kept env result s _ _
        (happen-Kept env.at_after_link (put lib config env s html w) h)
  linked-Kept env result s html refuses w h = persist-Kept env _ s _ w h
  linked-Kept env result s html uncertain w h =
      persist-Kept env _ s _ (put lib config env s html w) h

  attempt-Kept :
      (env : Env) (result : PublishResult) (s : Snapshot) (html : String) (w : World)
      → Kept w (attempt lib config env result s html w).1
  unfolding attempt
  attempt-Kept env result s html w h =
      elim (Bool-cases (has_name lib config s.visible_name w.visible)) [
        | inl taken ↦ rw taken (persist-Kept env _ s _ w h)
        | inr free ↦
            rw free (linked-Kept env (record result { attempted = true }) s html env.link w h)
      ]

  owned_intent-Kept :
      (env : Env) (result : PublishResult) (s : Snapshot) (html : String) (permit : Option Bool)
      (w : World)
      → Kept w (owned_intent lib config env result s html permit w).1
  owned_intent-Kept env result s html none w h = persist-Kept env _ s _ w h
  owned_intent-Kept env result s html (some false) w h = persist-Kept env _ s _ w h
  owned_intent-Kept env result s html (some true) w h = attempt-Kept env result s html w h

  pub disposed-Kept :
      (env : Env) (result : PublishResult) (s : Snapshot) (html : String) (d : Disposition)
      (w : World)
      → Kept w (disposed lib config env result s html d w).1
  disposed-Kept env result s html not_established w h = h
  disposed-Kept env result s html (replays r) w h = h
  disposed-Kept env result s html owned w h =
      owned_intent-Kept env (record result { journal_state = row_is publication_intent }) s html
        env.before_link _ (happen-Kept env.at_before_link w h)

  with_stage-Kept :
      (env : Env) (result : PublishResult) (s : Snapshot) (html : String) (w : World)
      → Kept w (with_stage lib config env result s html w).1
  unfolding with_stage
  with_stage-Kept env result s html w h =
      disposed-Kept env result s html _ _
        (claiming env.claim_commit s.request_id s.fingerprint s w.journal h)

  staging-Kept :
      (env : Env) (result : PublishResult) (s : Snapshot) (html : String) (t : Stage) (w : World)
      → Kept w (staging lib config env result s html t w).1
  staging-Kept env result s html absent w h = h
  staging-Kept env result s html partial w h = ground (arith, h)
  staging-Kept env result s html complete w h =
      let k = with_stage-Kept env result s html (stage lib config env w) h in ground (arith, k)

  publish_new-Kept :
      (env : Env) (result : PublishResult) (s : Snapshot) (html : String) (w : World)
      → Kept w (publish_new lib config env result s html w).1
  unfolding publish_new
  publish_new-Kept env result s html w h =
      let k = staging-Kept env result s html env.stage w h in ground (arith, k)

  published-Kept :
      (env : Env) (result : PublishResult) (s : Snapshot) (html : String)
      (found : Option (Option Row)) (w : World)
      → Kept w (published lib config env result s html found w).1
  published-Kept env result s html none w h = h
  published-Kept env result s html (some none) w h =
      publish_new-Kept env result s html _ (happen-Kept env.before_claim w h)
  published-Kept env result s html (some (some r)) w h = ground (arith, h)

  pub publish-Kept : (c : Call) (w : World) → Kept w (publish lib config c w).1
  unfolding publish
  publish-Kept c w h =
      let k =
        published-Kept c.env (not_prepared (snapshot_of lib config c).visible_name)
          (snapshot_of lib config c) c.html (get lib c.env.journal_opens c.request_id w.journal) w
          h in
      ground (arith, k, h)
