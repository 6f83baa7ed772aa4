-- ===== src/Publication/Visible.antt =====
-- store.py: what `publish` does to the visible directory.
use vap_spec.Base.{
  ◌≡◌, refl, ◌∙◌, ◌⊎◌, Bool, true, false, not, Option, none, some, String, List, [], ◌∷◌, ◌++◌,
  str_eq, inl, inr, if-cases, Option-cases, arith,
}
use vap_spec.Gate.Policy.{lookup, member}
use vap_spec.Pilot.{PilotLib}
use vap_spec.Publication.{Snapshot, RowState, PublishResult, Row, get, safe_name}
use vap_spec.Pilot.Files.{File}
use vap_spec.Publication.Publish.{
  World, Env, Link, links, refuses, uncertain, Stage, absent, partial, complete, Publisher, Call,
  not_prepared, Disposition, not_established, owned, replays, persist, observe, put, linked,
  attempt, has_name, owned_intent, disposed, with_stage, stage, staging, publish_new, snapshot_of,
  valid_call, published, publish,
}
use vap_spec.Publication.Once.{tried}

-- An environment without other processes.
abbrev pub alone : Env → Env
alone env = record env {
  before_claim = [];
  at_before_link = [];
  at_after_link = [];
  at_finish = [];
}

abbrev pub alone_call : Call → Call
alone_call c = record c { env = alone c.env }

-- The visible directory is as it was, or the prepared file has a name that was free, and then the
-- result says that os.link was tried.
abbrev pub Adds : String → File → List (String × File) → Bool → List (String × File) → Type 0
Adds name f old attempted new =
    (new ≡ old) ⊎ ((attempted ≡ true) × (lookup name old ≡ none) × (new ≡ old ++ (name, f) ∷ []))

module _ (lib : PilotLib) (config : Publisher) (given : Env) (s : Snapshot) (html : String) where
  abbrev env : Env
  env = alone given

  abbrev prepared : File
  prepared = record { identity = given.stage_identity; is_regular = true; bytes = html }

  abbrev Grows : World → PublishResult × World → Type 0
  Grows w r = Adds s.visible_name prepared w.visible r.0.attempted r.1.visible

  persist-visible :
      (result : PublishResult) (state : RowState) (w : World)
      → (persist lib env result s state w).1.visible ≡ w.visible
  unfolding persist
  persist-visible result state w = refl

  persist-attempted :
      (result : PublishResult) (state : RowState) (w : World)
      → (persist lib env result s state w).0.attempted ≡ result.attempted
  unfolding persist
  persist-attempted result state w = ground arith

  linked-Grows :
      (result : PublishResult) (l : Link) (w : World)
      → result.attempted ≡ true
      → lookup s.visible_name w.visible ≡ none
      → Grows w (linked lib config env result s html l w)
  linked-Grows result links w tries free =
      let w' = put lib config env s html w in
      elim (Option-cases (observe lib config env s w'.visible)) [
        | inl bad ↦ rw bad (inr (persist-attempted _ _ w' ∙ tries, free, persist-visible _ _ w'))
        | inr (receipt, good) ↦
            rw good (inr (persist-attempted _ _ w' ∙ tries, free, persist-visible _ _ w'))
      ]
  linked-Grows result refuses w tries free = inl (persist-visible _ _ w)
  linked-Grows result uncertain w tries free =
      let w' = put lib config env s html w in
      inr (persist-attempted _ _ w' ∙ tries, free, persist-visible _ _ w')

  is_free :
      (n : String) (w : World) → has_name lib config n w.visible ≡ false → lookup n w.visible ≡ none
  is_free n w h = elim (Option-cases (lookup n w.visible)) [
    | inl free ↦ free
    | inr (f, taken) ↦ absurd (ground (arith, taken, h))
  ]

  attempt-Grows :
      (result : PublishResult) (w : World) → Grows w (attempt lib config env result s html w)
  unfolding attempt
  attempt-Grows result w =
      let tries : PublishResult = record result { attempted = true } in
      if-cases (Grows w) (has_name lib config s.visible_name w.visible) _ _
        (λ taken. inl (persist-visible _ _ w))
        (λ free. linked-Grows tries env.link w refl (is_free s.visible_name w free))

  owned_intent-Grows :
      (result : PublishResult) (permit : Option Bool) (w : World)
      → Grows w (owned_intent lib config env result s html permit w)
  owned_intent-Grows result none w = inl (persist-visible _ _ w)
  owned_intent-Grows result (some false) w = inl (persist-visible _ _ w)
  owned_intent-Grows result (some true) w = attempt-Grows result w

  disposed-Grows :
      (result : PublishResult) (d : Disposition) (w : World)
      → Grows w (disposed lib config env result s html d w)
  disposed-Grows result not_established w = inl refl
  disposed-Grows result (replays r) w = inl refl
  disposed-Grows result owned w = owned_intent-Grows _ env.before_link w

  with_stage-Grows :
      (result : PublishResult) (w : World) → Grows w (with_stage lib config env result s html w)
  unfolding with_stage
  with_stage-Grows result w = disposed-Grows result _ _

  staging-Grows :
      (result : PublishResult) (t : Stage) (w : World)
      → Grows w (staging lib config env result s html t w)
  staging-Grows result absent w = inl refl
  staging-Grows result partial w = inl (ground arith)
  staging-Grows result complete w =
      let k = with_stage-Grows result (stage lib config env w) in
      let (r, w') = with_stage lib config env result s html (stage lib config env w) in
      if-cases (λ x. Grows w (r, x)) env.cleans _ _ (λ e. k) (λ e. k)

  publish_new-Grows :
      (result : PublishResult) (w : World) → Grows w (publish_new lib config env result s html w)
  unfolding publish_new
  publish_new-Grows result w =
      let k = staging-Grows result env.stage w in
      if-cases (Grows w) (not env.directories_open) _ _ (λ shut. inl refl)
        (λ opens.
          if-cases (Grows w) (member env.stage_name w.staged) _ _ (λ taken. inl refl) (λ free. k))

  pub published-Grows :
      (result : PublishResult) (found : Option (Option Row)) (w : World)
      → Grows w (published lib config env result s html found w)
  published-Grows result none w = inl refl
  published-Grows result (some none) w = publish_new-Grows result w
  published-Grows result (some (some r)) w =
      if-cases (Grows w) (str_eq r.request_id s.request_id) _ _ (λ same. inl refl)
        (λ other. inl refl)

-- Where no other process changes the visible directory, `publish` leaves it as it was, or it adds
-- the file of the request, with the artifact, under a name that was free, and reports the attempt.
-- It overwrites and removes nothing.
pub publish-Adds :
    (lib : PilotLib) (config : Publisher) (c : Call) (w : World)
    → Adds
        (safe_name lib c.request_id)
        (record { identity = c.env.stage_identity; is_regular = true; bytes = c.html })
        w.visible
        (tried lib config (publish lib config (alone_call c) w).0)
        (publish lib config (alone_call c) w).1.visible
unfolding publish
publish-Adds lib config c w =
    let s = snapshot_of lib config c in
    let k =
      published-Grows lib config c.env s c.html (not_prepared s.visible_name)
        (get lib c.env.journal_opens c.request_id w.journal) w in
    if-cases
      (λ (x : Option PublishResult × World).
        Adds s.visible_name
          (record { identity = c.env.stage_identity; is_regular = true; bytes = c.html }) w.visible
          (tried lib config x.0) x.1.visible)
      (valid_call lib config c) _ _ (λ valid. k) (λ invalid. inl refl)
