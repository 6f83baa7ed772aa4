-- ===== src/Publication/Confirmed.antt =====
-- store.py: what a confirmed publication means.
use mathlib.Core.Path.{subst}
use vap_spec.Base.{
  ◌≡◌, ◌≢◌, refl, sym, ap, ◌∙◌, Bool, true, false, not, ◌&&◌, Option, none, some, String, List, [],
  str_eq, eq_iff, ==_iff, inl, inr, Bool-cases, if-cases, Option-cases, arith, ℕ, leb, ◌==◌,
}
use vap_spec.Runtime.Json.{Json}
use vap_spec.Runtime.Request.{check}
use vap_spec.RecordGate.Audit.Once.{bind-eq_some}
use vap_spec.Gate.Policy.{lookup, member}
use vap_spec.Pilot.Journal.{find_row}
use vap_spec.Pilot.{PilotLib, byte_length, sign_message, timestamp, max_bytes}
use vap_spec.Publication.{
  Snapshot, RowState, publication_intent, blocked_after_intent, local_output_confirmed,
  outcome_unknown, row_is, confirmed, PublishResult, Row, get, replay_result, finish,
}
use vap_spec.Pilot.Files.{File}
use vap_spec.Publication.Publish.{
  World, Env, Link, links, refuses, uncertain, Stage, absent, partial, complete, Publisher, Call,
  not_prepared, Disposition, not_established, owned, replays, happen, persist, domain, receipt_body,
  observe, after_link, put, linked, attempt, has_name, owned_intent, disposed, with_stage, stage,
  is_accepted, staging, publish_new, snapshot_of, valid_call, published, publish, read_artifact,
  is_safe_name,
}
use vap_spec.Publication.Journal.{finish-acknowledged}

-- An environment in which no other process acts between the readback and the commit of the result.
abbrev pub settled : Env → Env
settled env = record env { at_finish = [] }

abbrev pub settled_call : Call → Call
settled_call c = record c { env = settled c.env }

checked : (b : Bool) (u : Unit) → check b ≡ some u → b ≡ true
checked true u h = refl
checked false u h = absurd cc

module _ (lib : PilotLib) (config : Publisher) (s : Snapshot) where
  -- The file is visible with the measured artifact, the receipt signs it, and the journal has the
  -- result as the terminal one of the request.
  abbrev pub Established : PublishResult → World → Type 0
  Established r w =
      (f : File) × (receipt : Json) × (observed_at : String) × (row : Row) × (r.attempted ≡ true)
      × (lookup s.visible_name w.visible ≡ some f)
      × (lib.sha256 f.bytes ≡ s.artifact_sha256)
      × (byte_length f.bytes ≡ s.byte_length)
      × (r.receipt ≡ some receipt)
      × (sign_message lib domain (receipt_body s observed_at) config.secret config.key_id
          ≡ some receipt)
      × (find_row s.request_id w.journal ≡ some row)
      × (row.state ≡ local_output_confirmed)
      × (row.result ≡ some r)

  module _ (given : Env) (html : String) where
    abbrev env : Env
    env = settled given

    abbrev Means : PublishResult × World → Type 0
    Means r = r.0.state ≡ confirmed → Established r.0 r.1

    persist-other :
        (result : PublishResult) (state : RowState) (w : World)
        → result.state ≢ confirmed
        → Means (persist lib env result s state w)
    unfolding persist
    persist-other result state w other h = ground (arith, other, h)

    persist-recorded :
        (result : PublishResult) (state : RowState) (w : World)
        → (persist lib env result s state w).0.state ≡ confirmed
        → (row : Row) × ((persist lib env result s state w).0
            ≡ record result { journal_state = row_is state })
          × (find_row s.request_id (persist lib env result s state w).1.journal ≡ some row)
          × (row.state ≡ state)
          × (row.result ≡ some (record result { journal_state = row_is state }))
    unfolding persist
    persist-recorded result state w h =
        let final : PublishResult = record result { journal_state = row_is state } in
        let (ack, rows) = finish lib env.finish_commit s.request_id state final w.journal in
        elim (Bool-cases (is_accepted lib s state final ack)) [
          | inr refused ↦ absurd (ground (arith, refused, h))
          | inl accepted ↦ elim (Option-cases ack) [
            | inl gone ↦ absurd (ground (arith, gone, accepted))
            | inr (r, there) ↦
                let (old, found, intent, now) =
                  finish-acknowledged lib env.finish_commit s.request_id state final w.journal r
                    there in
                (
                  record old { state = state; result = some final },
                  rw accepted refl,
                  now,
                  refl,
                  refl,
                )
          ]
        ]

    read_artifact-found :
        (reads : Bool) (name : String) (expected : ℕ) (visible : List (String × File))
        (sha256 : String) (size : ℕ)
        → read_artifact lib reads name expected visible ≡ some (sha256, size)
        → (f : File) × (lookup name visible ≡ some f)
          × (lib.sha256 f.bytes ≡ sha256)
          × (byte_length f.bytes ≡ size)
    unfolding read_artifact
    read_artifact-found reads name expected visible sha256 size h =
        let (u, e0, h0) = bind-eq_some (check (is_safe_name lib name && reads)) _ _ h in
        let (f, e1, h1) = bind-eq_some (lookup name visible) _ _ h0 in
        let (v, e2, h2) =
          bind-eq_some (check (f.is_regular && leb (byte_length f.bytes) max_bytes)) _ _ h1 in
        let (t, e3, h3) = bind-eq_some (check (f.identity == expected)) _ _ h2 in
        (f, e1, ground (arith, h3), ground (arith, h3))

    observe-found :
        (visible : List (String × File)) (receipt : Json)
        → observe lib config env s visible ≡ some receipt
        → (f : File) × (observed_at : String) × (lookup s.visible_name visible ≡ some f)
          × (lib.sha256 f.bytes ≡ s.artifact_sha256)
          × (byte_length f.bytes ≡ s.byte_length)
          × (sign_message lib domain (receipt_body s observed_at) config.secret config.key_id
              ≡ some receipt)
    unfolding observe
    observe-found visible receipt h =
        let (u, e0, h0) = bind-eq_some (check env.after_link_returns) _ _ h in
        let ((sha256, size), e1, h1) =
          bind-eq_some (read_artifact lib env.reads s.visible_name env.stage_identity visible) _ _
            h0 in
        let (v, e2, h2) =
          bind-eq_some (check (str_eq sha256 s.artifact_sha256 && size == s.byte_length)) _ _ h1 in
        let (at, e3, h3) = bind-eq_some env.clock _ _ h2 in
        let (t, e5, h5) = bind-eq_some (timestamp lib at) _ _ h3 in
        let (f, there, digest, size_is) =
          read_artifact-found env.reads s.visible_name env.stage_identity visible sha256 size e1 in
        let same = checked _ v e2 in
        (
          f,
          at,
          there,
          ground (arith, digest, same, eq_iff sha256 s.artifact_sha256),
          ground (arith, size_is, same, ==_iff size s.byte_length),
          h5,
        )

    after_link-Means :
        (result : PublishResult) (receipt : Option Json) (w : World)
        → observe lib config env s w.visible ≡ receipt
        → result.attempted ≡ true
        → Means (after_link lib config env result s receipt w)
    unfolding persist
    after_link-Means result none w e tries h = absurd (ground (arith, h))
    after_link-Means result (some receipt) w e tries h =
        let final : PublishResult = record result {
          state = confirmed;
          reason = "MEASURED_LOCAL_FILE_CONFIRMED";
          receipt = some receipt;
        } in
        let (f, at, there, digest, size, signed) = observe-found w.visible receipt e in
        let (row, same, found, state_is, result_is) =
          persist-recorded final local_output_confirmed w h in
        (
          f,
          receipt,
          at,
          row,
          ap (λ r. r.attempted) same ∙ tries,
          there,
          digest,
          size,
          ap (λ r. r.receipt) same,
          signed,
          found,
          state_is,
          result_is ∙ ap some (sym same),
        )

    linked-Means :
        (result : PublishResult) (l : Link) (w : World)
        → result.attempted ≡ true
        → Means (linked lib config env result s html l w)
    linked-Means result links w tries h =
        after_link-Means result _ (happen lib env.at_after_link (put lib config env s html w)) refl
          tries h
    linked-Means result refuses w tries h = persist-other _ outcome_unknown w (λ e. absurd cc) h
    linked-Means result uncertain w tries h =
        persist-other _ outcome_unknown (put lib config env s html w) (λ e. absurd cc) h

    attempt-Means :
        (result : PublishResult) (w : World)
        → result.state ≢ confirmed
        → Means (attempt lib config env result s html w)
    unfolding attempt
    attempt-Means result w other =
        let tries : PublishResult = record result { attempted = true } in
        if-cases Means (has_name lib config s.visible_name w.visible) _ _
          (λ taken. persist-other _ blocked_after_intent w other)
          (λ free. linked-Means tries env.link w refl)

    owned_intent-Means :
        (result : PublishResult) (permit : Option Bool) (w : World)
        → result.state ≢ confirmed
        → Means (owned_intent lib config env result s html permit w)
    owned_intent-Means result none w other = persist-other _ outcome_unknown w (λ e. absurd cc)
    owned_intent-Means result (some false) w other = persist-other _ blocked_after_intent w other
    owned_intent-Means result (some true) w other = attempt-Means result w other

    disposed-Means :
        (result : PublishResult) (d : Disposition) (w : World)
        → result.state ≢ confirmed
        → Means (disposed lib config env result s html d w)
    unfolding replay_result
    disposed-Means result not_established w other h = absurd (other h)
    disposed-Means result (replays r) w other h = absurd (ground (arith, h))
    disposed-Means result owned w other h =
        let mine : PublishResult = record result { journal_state = row_is publication_intent } in
        owned_intent-Means mine env.before_link (happen lib env.at_before_link w) other h

    with_stage-Means :
        (result : PublishResult) (w : World)
        → result.state ≢ confirmed
        → Means (with_stage lib config env result s html w)
    unfolding with_stage
    with_stage-Means result w other = disposed-Means result _ _ other

    staging-Means :
        (result : PublishResult) (t : Stage) (w : World)
        → result.state ≢ confirmed
        → Means (staging lib config env result s html t w)
    staging-Means result absent w other h = absurd (other h)
    staging-Means result partial w other h = absurd (other h)
    staging-Means result complete w other h =
        let k = with_stage-Means result (stage lib config env w) other in
        let (r, w') = with_stage lib config env result s html (stage lib config env w) in
        if-cases (λ x. Means (r, x)) env.cleans _ _ (λ e. k) (λ e. k) h

    publish_new-Means :
        (result : PublishResult) (w : World)
        → result.state ≢ confirmed
        → Means (publish_new lib config env result s html w)
    unfolding publish_new
    publish_new-Means result w other =
        if-cases Means (not env.directories_open) _ _ (λ shut h. absurd (other h))
          (λ opens.
            if-cases Means (member env.stage_name w.staged) _ _ (λ taken h. absurd (other h))
              (λ free. staging-Means result env.stage w other))

    published-Means :
        (result : PublishResult) (found : Option (Option Row)) (w : World)
        → result.state ≢ confirmed
        → Means (published lib config env result s html found w)
    unfolding replay_result
    published-Means result none w other h = absurd (other h)
    published-Means result (some none) w other h =
        publish_new-Means result (happen lib env.before_claim w) other h
    published-Means result (some (some r)) w other h = absurd (ground (arith, other, h))

-- Where `publish` reports LOCAL_OUTPUT_CONFIRMED, whatever other processes did before the readback:
-- the visible file of the request has the digest and the length of the artifact that was passed, the
-- receipt is signed over the snapshot, and the journal has the result as the request's terminal one.
pub publish-Established :
    (lib : PilotLib) (config : Publisher) (c : Call) (w : World) (r : PublishResult)
    → (publish lib config (settled_call c) w).0 ≡ some r
    → r.state ≡ confirmed
    → Established lib config (snapshot_of lib config c) r (publish lib config (settled_call c) w).1
unfolding publish
publish-Established lib config c w r e h =
    let s = snapshot_of lib config c in
    let found = get lib c.env.journal_opens c.request_id w.journal in
    let k =
      published-Means lib config s c.env c.html (not_prepared s.visible_name) found w
        (λ e. absurd cc) in
    if-cases (λ (x : Option PublishResult × World). x.0 ≡ some r → Established lib config s r x.1)
      (valid_call lib config c) _ _
      (λ valid e.
        let (final, w') =
          published lib config (settled c.env) (not_prepared s.visible_name) s c.html found w in
        let same : final ≡ r = cc in
        subst (λ v. v.state ≡ confirmed → Established lib config s v w') same k h)
      (λ invalid e. absurd cc) e
