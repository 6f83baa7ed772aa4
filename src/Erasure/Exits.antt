-- ===== src/Erasure/Exits.antt =====
-- provider.py: how `delete` ends. It stops idle, it holds a claim and does not try, or it tries
-- os.unlink; a property of the three follows from what it has of the worlds before the claim, after
-- it, at os.unlink and after it.
use mathlib.Core.Path.{subst}
use vap_spec.Base.{
  ℕ, ◌≡◌, refl, Bool, true, false, not, Option, none, some, String, List, str_eq, if-cases,
  option-holds, arith,
}
use vap_spec.Runtime.Json.{Json}
use vap_spec.Gate.Policy.{lookup}
use vap_spec.Pilot.{PilotLib}
use vap_spec.Pilot.Journal.{ClaimStatus}
use vap_spec.Erasure.Task.{Context}
use vap_spec.Erasure.{
  End, local_unlink_confirmed, acknowledged_only, blocked, outcome_unknown, deletion_intent, final,
  unavailable, row_is, ErasureResult, Row, is_there, valid_result, get_row, claim, replay_result,
}
use vap_spec.Erasure.Delete.{
  World, removes, Unlink, unlinks, refuses, uncertain, Provider, Call, Measurement, is_expected,
  not_prepared, Disposition, not_established, owned, replays, happens, happen, replay_if_claimed,
  disposition, persist, observe, observed, unlinked, attempt, final_tests, tested, acknowledged,
  owned_intent, disposed, take, not_there, measured, delete_current, proposal, delete_task,
}
use vap_spec.Erasure.Journal.{is_new}

module _ (lib : PilotLib) (config : Provider) (c : Call) (context : Context) (name : String) where
  abbrev pub claiming : World → World
  claiming w = record w {
    journal =
        (claim lib config.pins c.env.claim_commit context.request_id context.task_sha256 c.task
          w.journal).1;
  }

  abbrev pub grants : World → Bool
  grants w =
      is_new
        (claim lib config.pins c.env.claim_commit context.request_id context.task_sha256 c.task
          w.journal).0

  -- What is known of the worlds, and why each step keeps it.
  pub record Stages : Type 1 where
    pub Before : World → Type 0
    pub Claimed : World → Type 0
    pub Tested : World → Type 0
    pub Tried : World → Type 0
    pub starts : (w : World) → Before w → Before (happen lib config c.env.at_start w)
    pub waits : (w : World) → Before w → Before (happen lib config c.env.at_claim w)
    pub refused : (w : World) → Before w → Before (claiming w)
    pub granted : (w : World) → Before w → grants w ≡ true → Claimed (claiming w)
    pub hooks : (w : World) → Claimed w → Claimed (happen lib config c.env.at_hook w)
    pub tests :
        (w : World) (identity : Option ℕ) (at unlinked_at : String)
        → Claimed w
        → final_tests lib config c.env context c.task name identity at w.namespace
          ≡ some unlinked_at
        → Tested (happen lib config c.env.at_race w)
    pub tries : (w : World) → Tested w → Tried w
    pub unlinks : (w : World) → Tested w → Tried (happens lib config (removes name) w)
    pub waits_again : (w : World) → Tried w → Tried (happen lib config c.env.at_absence w)

  module _ (s : Stages) where
    abbrev pub Ends : End → ErasureResult → Type 0
    Ends e given = valid_result (record given { state = final e }) ≡ true

    -- The evidence of a confirmed unlink.
    abbrev pub Observes : End → ErasureResult → World → Type 0
    Observes e given w =
        e ≡ local_unlink_confirmed
        → (unlinked_at : String) × (receipt : Json) × (attestation : Json) × (observe lib config
              c.env context name unlinked_at w.namespace
            ≡ some (receipt, attestation))
          × (given.receipt ≡ some receipt)
          × (given.attestation ≡ some attestation)

    pub data Exit : ErasureResult × World → Type 0 where
      idle :
          (r : ErasureResult) (w : World)
          → r.attempted ≡ false
          → valid_result r ≡ true
          → s.Before w
          → Exit (r, w)
      held :
          (e : End) (given : ErasureResult) (w : World)
          → given.attempted ≡ false
          → Ends e given
          → s.Claimed w
          → Exit (persist lib config c.env context e given w)
      tried :
          (e : End) (given : ErasureResult) (w : World)
          → given.attempted ≡ true
          → Ends e given
          → Observes e given w
          → s.Tried w
          → Exit (persist lib config c.env context e given w)

    -- A result that has no evidence yet.
    abbrev IsOpen : ErasureResult → Type 0
    IsOpen r = (r.attempted ≡ false) × (r.attestation ≡ none) × (r.receipt ≡ none)

    observed-Exit :
        (result : ErasureResult) (unlinked_at : String) (evidence : Option (Json × Json))
        (w : World)
        → result.attempted ≡ true
        → is_there result.acknowledgement ≡ true
        → ((e : Json × Json)
            → evidence ≡ some e
            → observe lib config c.env context name unlinked_at w.namespace ≡ some e)
        → s.Tried w
        → Exit (observed lib config c.env context result evidence w)
    unfolding valid_result
    observed-Exit result unlinked_at none w now ack seen h =
        tried outcome_unknown _ w now refl (λ e. absurd cc) h
    observed-Exit result unlinked_at (some (receipt, attestation)) w now ack seen h =
        tried local_unlink_confirmed
          (record result {
            reason = "EXACT_NAMESPACE_ENTRY_REMOVAL_CONFIRMED";
            attestation = some attestation;
            receipt = some receipt;
          })
          w now (ground (arith, now, ack))
          (λ e. (unlinked_at, receipt, attestation, seen (receipt, attestation) refl, refl, refl)) h

    unlinked-Exit :
        (result : ErasureResult) (unlinked_at : String) (u : Unlink) (w : World)
        → result.attempted ≡ true
        → is_there result.acknowledgement ≡ true
        → s.Tested w
        → Exit (unlinked lib config c.env context result name unlinked_at u w)
    unlinked-Exit result unlinked_at unlinks w now ack h =
        observed-Exit result unlinked_at _
          (happen lib config c.env.at_absence (happens lib config (removes name) w)) now ack
          (λ e seen. seen) (s.waits_again _ (s.unlinks w h))
    unlinked-Exit result unlinked_at refuses w now ack h =
        observed-Exit result unlinked_at none w now ack (λ e bad. absurd cc) (s.tries w h)
    unlinked-Exit result unlinked_at uncertain w now ack h =
        observed-Exit result unlinked_at none (happens lib config (removes name) w) now ack
          (λ e bad. absurd cc) (s.unlinks w h)

    attempt-Exit :
        (result : ErasureResult) (unlinked_at : String) (w : World)
        → is_there result.acknowledgement ≡ true
        → s.Tested w
        → Exit (attempt lib config c.env context result name unlinked_at w)
    unfolding attempt
    attempt-Exit result unlinked_at w ack h =
        let now : ErasureResult = record result { attempted = true } in
        option-holds Exit (lookup name w.namespace) _ _
          (observed-Exit now unlinked_at none w refl ack (λ e bad. absurd cc) (s.tries w h))
          (λ f there. unlinked-Exit now unlinked_at c.env.unlink w refl ack h)

    tested-Exit :
        (result : ErasureResult) (identity : Option ℕ) (at : String) (tests : Option String)
        (w : World)
        → IsOpen result
        → is_there result.acknowledgement ≡ true
        → final_tests lib config c.env context c.task name identity at w.namespace ≡ tests
        → s.Claimed w
        → Exit (tested lib config c.env context result name tests w)
    unfolding valid_result
    tested-Exit result identity at none w (rest, a, r) ack e h =
        held blocked _ w rest (ground (arith, rest, a, r)) h
    tested-Exit result identity at (some unlinked_at) w bare ack e h =
        attempt-Exit result unlinked_at (happen lib config c.env.at_race w) ack
          (s.tests w identity at unlinked_at h e)

    acknowledged-Exit :
        (result : ErasureResult) (identity : Option ℕ) (at : String) (w : World)
        → IsOpen result
        → is_there result.acknowledgement ≡ true
        → s.Claimed w
        → Exit (acknowledged lib config c context result name identity at w)
    unfolding acknowledged valid_result
    acknowledged-Exit result identity at w (rest, a, r) ack h =
        let hooked = s.hooks w h in
        if-cases Exit c.acknowledge_only _ _
          (λ only. held acknowledged_only _ w rest (ground (arith, rest, a, r, ack)) h)
          (λ deletes.
            if-cases Exit (not c.env.before_unlink_returns) _ _
              (λ raises. held outcome_unknown _ _ rest (ground (arith, rest, a, r)) hooked)
              (λ returns. tested-Exit result identity at _ _ (rest, a, r) ack refl hooked))

    owned_intent-Exit :
        (result : ErasureResult) (identity : Option ℕ) (given : Option (String × Json)) (w : World)
        → IsOpen result
        → s.Claimed w
        → Exit (owned_intent lib config c context result name identity given w)
    unfolding valid_result
    owned_intent-Exit result identity none w (rest, a, r) h =
        held outcome_unknown _ w rest (ground (arith, rest, a, r)) h
    owned_intent-Exit result identity (some (at, envelope)) w bare h =
        acknowledged-Exit (record result { acknowledgement = some envelope }) identity at w bare
          refl h

    -- A result of a call that found a row, or that found out nothing.
    abbrev IsFresh : ErasureResult → Type 0
    IsFresh r = IsOpen r × (r.acknowledgement ≡ none) × (r.state ≡ final blocked)

    abbrev IsStill : ErasureResult → Type 0
    IsStill r = (r.attempted ≡ false) × (valid_result r ≡ true)

    fresh-valid :
        (result : ErasureResult)
        → IsFresh result
        → str_eq result.reason "" ≡ false
        → valid_result result ≡ true
    unfolding valid_result
    fresh-valid result ((rest, a, q), k, b) said = ground (arith, rest, a, q, k, b, said)

    replay-valid :
        (result : ErasureResult) (r : Row)
        → IsFresh result
        → IsStill (replay_result result r context.task_sha256)
    unfolding replay_result valid_result
    replay-valid result r ((rest, a, q), k, b) =
        if-cases IsStill (str_eq r.fingerprint context.task_sha256) _ _
          (λ same. (rest, ground (arith, rest, a, q, k)))
          (λ other. (rest, ground (arith, rest, a, q, k)))

    abbrev AllStill : Option ErasureResult → Type 0
    AllStill o = (prior : ErasureResult) → o ≡ some prior → IsStill prior

    some-AllStill : (r : ErasureResult) → IsStill r → AllStill (some r)
    some-AllStill r still prior e = let same : r ≡ prior = cc in subst IsStill same still

    disposed-Exit :
        (result : ErasureResult) (identity : Option ℕ) (proposed_at : String) (d : Disposition)
        (w : World)
        → IsFresh result
        → s.Before w
        → (d ≡ owned → s.Claimed w)
        → Exit (disposed lib config c context result name identity proposed_at d w)
    disposed-Exit result identity proposed_at not_established w fresh before h =
        idle _ w (fresh.0.0) (fresh-valid _ fresh refl) before
    disposed-Exit result identity proposed_at (replays r) w fresh before h =
        let (still, valid) = replay-valid result r fresh in idle _ w still valid before
    disposed-Exit result identity proposed_at owned w fresh before h =
        owned_intent-Exit (record result { journal_state = row_is deletion_intent }) identity _ w
          (fresh.0) (h refl)

    disposition-owned :
        (ack : Option (Row × ClaimStatus))
        → disposition lib config context ack ≡ owned
        → is_new ack ≡ true
    unfolding disposition
    disposition-owned none h = absurd cc
    disposition-owned (some (r, status)) h = ground (arith, h)

    take-Exit :
        (result : ErasureResult) (identity : Option ℕ) (proposed_at : String) (w : World)
        → IsFresh result
        → s.Before w
        → Exit (take lib config c context result name identity proposed_at w)
    unfolding take
    take-Exit result identity proposed_at w fresh h =
        let w' = happen lib config c.env.at_claim w in
        let before = s.waits w h in
        disposed-Exit result identity proposed_at _ (claiming w') fresh (s.refused w' before)
          (λ mine. s.granted w' before (disposition-owned _ mine))

    replay_if_claimed-valid :
        (opens : Bool) (result : ErasureResult) (rows : List Row)
        → IsFresh result
        → AllStill (replay_if_claimed lib config opens result context rows)
    unfolding replay_if_claimed
    replay_if_claimed-valid opens result rows fresh =
        let failed : ErasureResult = record result {
          reason = "JOURNAL_UNAVAILABLE_BEFORE_CLAIM";
          journal_state = unavailable;
        } in
        let still = some-AllStill failed (fresh.0.0, fresh-valid failed fresh refl) in
        option-holds AllStill (get_row lib config.pins opens context.request_id rows) _ _ still
          (λ found e.
            option-holds AllStill found _ _ (λ prior bad. absurd cc)
              (λ r there.
                if-cases AllStill (str_eq r.request_id context.request_id) _ _
                  (λ same.
                    some-AllStill (replay_result result r context.task_sha256)
                      (replay-valid result r fresh))
                  (λ other. still)))

    not_there-Exit :
        (result : ErasureResult) (w : World)
        → IsFresh result
        → str_eq result.reason "" ≡ false
        → s.Before w
        → Exit (not_there lib config c.env context result w)
    unfolding not_there
    not_there-Exit result w fresh said h =
        option-holds Exit
          (replay_if_claimed lib config c.env.journal_reopens result context w.journal) _ _
          (idle result w (fresh.0.0) (fresh-valid result fresh said) h)
          (λ prior e.
            let (still, valid) = replay_if_claimed-valid _ result w.journal fresh prior e in
            idle prior w still valid h)

    measured-Exit :
        (result : ErasureResult) (proposed_at : String) (found : Option (Measurement × Option ℕ))
        (w : World)
        → IsFresh result
        → s.Before w
        → Exit (measured lib config c context result name proposed_at found w)
    measured-Exit result proposed_at none w fresh h = not_there-Exit _ w fresh refl h
    measured-Exit result proposed_at (some (m, identity)) w fresh h =
        if-cases Exit (is_expected context.manifest m) _ _
          (λ there. take-Exit result identity proposed_at w fresh h)
          (λ gone.
            not_there-Exit (record result { reason = "REQUESTED_OBJECT_NOT_PRESENT_AS_BOUND" }) w
              fresh refl h)

    delete_current-Exit :
        (result : ErasureResult) (proposed_at : String) (w : World)
        → IsFresh result
        → s.Before w
        → Exit (delete_current lib config c context result name proposed_at w)
    unfolding delete_current
    delete_current-Exit result proposed_at w fresh h =
        let w' = happen lib config c.env.at_start w in
        let before = s.starts w h in
        if-cases Exit (not c.env.namespace_opens) _ _
          (λ shut. idle _ w' (fresh.0.0) (fresh-valid _ fresh refl) before)
          (λ opens. measured-Exit result proposed_at _ w' fresh before)

    pub delete_task-Exit : (w : World) → s.Before w → Exit (delete_task lib config c context name w)
    unfolding delete_task valid_result
    delete_task-Exit w h =
        let fresh : IsFresh not_prepared = ((refl, refl, refl), refl, refl) in
        option-holds Exit
          (replay_if_claimed lib config c.env.journal_opens not_prepared context w.journal) _ _
          (option-holds Exit (proposal lib config c context) _ _ (idle _ w refl refl h)
            (λ at e. delete_current-Exit not_prepared at w fresh h))
          (λ prior e.
            let (still, valid) = replay_if_claimed-valid _ not_prepared w.journal fresh prior e in
            idle prior w still valid h)
