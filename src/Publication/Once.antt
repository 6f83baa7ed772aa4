-- ===== src/Publication/Once.antt =====
-- store.py: a publisher is a one-shot service.
use vap_spec.Base.{
  if◌then◌else◌, ◌≡◌, refl, ◌∙◌, Bool, true, false, Option, none, some, String, List, arith, ◌≤◌,
}
use vap_spec.Pilot.Journal.{ClaimStatus, Commit, is_claimed}
use vap_spec.Pilot.{PilotLib}
use vap_spec.Pilot.OneShot.{OneShot, attempts, attempts-unclaimed}
use vap_spec.Publication.{Snapshot, RowState, PublishResult, Row, claim, finish, get, replay_result}
use vap_spec.Publication.Publish.{
  World, Env, Stage, absent, partial, complete, Publisher, Call, not_prepared, Disposition,
  not_established, owned, replays, disposition, disposed, with_stage, stage, staging, publish_new,
  snapshot_of, published, publish,
}
use vap_spec.Publication.Journal.{is_new, claim-keeps, claim-takes, finish-keeps}
use vap_spec.Publication.Preserved.{happen-Kept, disposed-Kept, publish-Kept}

module _ (lib : PilotLib) (config : Publisher) where
  abbrev pub Claimed : String → List Row → Type 0
  Claimed q rows = is_claimed q rows ≡ true

  pub claims_keep :
      (q : String) (c : Commit) (o f : String) (s : Snapshot) (rows : List Row)
      → Claimed q rows
      → Claimed q (claim lib c o f s rows).1
  claims_keep q c o f s rows h = claim-keeps lib c o f q s rows h

  pub finishes_keep :
      (q : String) (c : Commit) (o : String) (state : RowState) (result : PublishResult)
      (rows : List Row)
      → Claimed q rows
      → Claimed q (finish lib c o state result rows).1
  finishes_keep q c o state result rows h = finish-keeps lib c o q state result rows ∙ h

  -- A call that does not claim the request does not try to publish.
  disposition-owned :
      (s : Snapshot) (ack : Option (Row × ClaimStatus))
      → disposition lib s ack ≡ owned
      → is_new ack ≡ true
  unfolding disposition
  disposition-owned s none h = absurd cc
  disposition-owned s (some (r, status)) h = ground (arith, h)

  disposed-tries :
      (env : Env) (result : PublishResult) (s : Snapshot) (html : String) (d : Disposition)
      (w : World)
      → result.attempted ≡ false
      → (disposed lib config env result s html d w).0.attempted ≡ true
      → d ≡ owned
  unfolding replay_result
  disposed-tries env result s html not_established w idle h = absurd (ground (arith, idle, h))
  disposed-tries env result s html (replays r) w idle h = absurd (ground (arith, idle, h))
  disposed-tries env result s html owned w idle h = refl

  abbrev Takes : String → World → PublishResult × World → Type 0
  Takes q w r =
      r.0.attempted ≡ true → (is_claimed q w.journal ≡ false) × (is_claimed q r.1.journal ≡ true)

  with_stage-Takes :
      (env : Env) (result : PublishResult) (s : Snapshot) (html : String) (w : World)
      → result.attempted ≡ false
      → Takes s.request_id w (with_stage lib config env result s html w)
  unfolding with_stage
  with_stage-Takes env result s html w idle h =
      let (ack, rows) = claim lib env.claim_commit s.request_id s.fingerprint s w.journal in
      let mine = disposed-tries env result s html (disposition lib s ack) _ idle h in
      let (before, after) =
        claim-takes lib env.claim_commit s.request_id s.fingerprint s w.journal
          (disposition-owned s ack mine) in
      (
        before,
        disposed-Kept lib config (Claimed s.request_id) (claims_keep s.request_id)
            (finishes_keep s.request_id) env result s html (disposition lib s ack)
            (record w { journal = rows }) after,
      )

  staging-Takes :
      (env : Env) (result : PublishResult) (s : Snapshot) (html : String) (t : Stage) (w : World)
      → result.attempted ≡ false
      → Takes s.request_id w (staging lib config env result s html t w)
  staging-Takes env result s html absent w idle h = absurd (ground (arith, idle, h))
  staging-Takes env result s html partial w idle h = absurd (ground (arith, idle, h))
  staging-Takes env result s html complete w idle h =
      let k = with_stage-Takes env result s html (stage lib config env w) idle h in
      ground (arith, k)

  publish_new-Takes :
      (env : Env) (result : PublishResult) (s : Snapshot) (html : String) (w : World)
      → result.attempted ≡ false
      → Takes s.request_id w (publish_new lib config env result s html w)
  unfolding publish_new
  publish_new-Takes env result s html w idle h =
      let k = staging-Takes env result s html env.stage w idle in ground (arith, k, idle, h)

  published-Takes :
      (env : Env) (result : PublishResult) (s : Snapshot) (html : String)
      (found : Option (Option Row)) (w : World)
      → result.attempted ≡ false
      → Takes s.request_id w (published lib config env result s html found w)
  unfolding replay_result
  published-Takes env result s html none w idle h = absurd (ground (arith, idle, h))
  published-Takes env result s html (some (some r)) w idle h = absurd (ground (arith, idle, h))
  published-Takes env result s html (some none) w idle h =
      let (before, after) = publish_new-Takes env result s html _ idle h in
      let kept =
        happen-Kept lib config (Claimed s.request_id) (claims_keep s.request_id)
          (finishes_keep s.request_id) env.before_claim w in
      (ground (arith, before, kept), after)

  abbrev pub tried : Option PublishResult → Bool
  tried none = false
  tried (some r) = r.attempted

  pub publish-takes :
      (c : Call) (w : World)
      → tried (publish lib config c w).0 ≡ true
      → (is_claimed c.request_id w.journal ≡ false)
        × (is_claimed c.request_id (publish lib config c w).1.journal ≡ true)
  unfolding publish
  publish-takes c w h =
      let s = snapshot_of lib config c in
      let k =
        published-Takes c.env (not_prepared s.visible_name) s c.html
          (get lib c.env.journal_opens c.request_id w.journal) w refl in
      ground (arith, k, h)

  -- `publish` as a service whose effect is os.link.
  abbrev pub publisher : OneShot Call World
  publisher = record {
    request = λ c. c.request_id;
    is_claimed = λ q w. is_claimed q w.journal;
    step = λ c w. let (r, w') = publish lib config c w in (tried r, w');
    keeps = λ c w q h. publish-Kept lib config (Claimed q) (claims_keep q) (finishes_keep q) c w h;
    takes = publish-takes;
  }

-- Whatever calls of `publish` are made, with any hooks and lost acknowledgments, and with other
-- processes that publish and change the visible directory in between: at most one call on a request
-- tries os.link, and none does where the request was claimed before.
pub publish-once :
    (lib : PilotLib) (config : Publisher) (q : String) (calls : List Call) (w : World)
    → attempts (publisher lib config) q calls w ≤ (if is_claimed q w.journal then 0 else 1)
publish-once lib config q calls w = attempts-unclaimed (publisher lib config) q calls w
