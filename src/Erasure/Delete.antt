-- ===== src/Erasure/Delete.antt =====
-- provider.py: `delete`. Its environment says which accesses fail, what the clock and the hooks
-- return, and what other processes do to the journal and to the namespace while it runs.
use Prim.Native.String.{◌++◌ as str_append}
use vap_spec.Base.{
  ℕ, zero, suc, Bool, true, false, not, ◌&&◌, ◌||◌, Option, none, some, String, List, [], ◌∷◌, ltb,
  leb, ◌==◌, str_eq, if◌then◌else◌,
}
use vap_spec.Runtime.Json.{Json, int, text, list, dict, Items, nil, cons, end, field}
use vap_spec.Runtime.Request.{◌>>=◌, ◌>>◌, check}
use vap_spec.Gate.Policy.{lookup}
use vap_spec.Pilot.Journal.{Commit, ClaimStatus, is_claim, is_replay, has_no_result}
use vap_spec.Pilot.Files.{File, remove_name}
use vap_spec.Pilot.{
  PilotLib, max_bytes, byte_length, identifier, digest, same_digest, timestamp, sign_message,
}
use vap_spec.Erasure.Task.{
  Pins, Manifest, Context, domain, record_prefix, location, exclusions, valid_manifest, key_time,
  validate_task,
}
use vap_spec.Erasure.{
  End, local_unlink_confirmed, acknowledged_only, blocked, outcome_unknown, deletion_intent, ended,
  final, not_claimed, unavailable, row_is, ErasureResult, Row, end_text, row_state_text,
  result_json, is_intent, historical_context, valid_row, get_row, claim, finish, current_state,
  replay_result,
}

pub record World : Type 0 where
  pub journal : List Row
  pub namespace : List (String × File)

-- What another process may do: use the same journal, or change the namespace.
pub data Event : Type 0 where
  claims : Commit → String → String → Json → Event
  finishes : Commit → String → End → ErasureResult → Event
  places : String → File → Event
  removes : String → Event

-- os.unlink of a name that is there: it removes it, it raises, or it removes it and raises.
pub data Unlink : Type 0 where
  unlinks refuses uncertain : Unlink

-- The lists of events are those before the first measurement, before the claim, before the final
-- tests, between them and os.unlink, before the absence is measured, and before the result is
-- committed. Each Bool says that an access works or a hook returns.
pub record Env : Type 0 where
  pub journal_opens : Bool
  pub clock_proposed : Option String
  pub at_start : List Event
  pub namespace_opens : Bool
  pub measures : Bool
  pub journal_reopens : Bool
  pub at_claim : List Event
  pub claim_commit : Commit
  pub clock_acknowledged : Option String
  pub before_unlink_returns : Bool
  pub at_hook : List Event
  pub clock_final : Option String
  pub measures_again : Bool
  pub clock_unlinked : Option String
  pub status_reads : Bool
  pub namespace_is_current : Bool
  pub at_race : List Event
  pub unlink : Unlink
  pub after_unlink_returns : Bool
  pub at_absence : List Event
  pub measures_absence : Bool
  pub namespace_stays : Bool
  pub clock_observed : Option String
  pub at_finish : List Event
  pub finish_commit : Commit
  pub state_reads : Bool

pub record Provider : Type 0 where
  pub pins : Pins
  pub secret : String

pub record Call : Type 0 where
  pub task : Json
  pub acknowledge_only : Bool
  pub env : Env

pub data Measurement : Type 0 where
  absent : Measurement
  present : String → ℕ → Measurement

abbrev pub text_items : List String → Items
text_items [] = nil
text_items (s ∷ rest) = cons (text s) (text_items rest)

-- s[:n]
abbrev pub prefix_of : ℕ → String → String
prefix_of zero s = ""
prefix_of (suc n) String.[] = ""
prefix_of (suc n) (String.◌∷◌ c s) = String.◌∷◌ c (prefix_of n s)

-- What `delete` returns before it knows more.
abbrev pub not_prepared : ErasureResult
not_prepared = record {
  state = final blocked;
  attempted = false;
  acknowledgement = none;
  attestation = none;
  receipt = none;
  journal_state = not_claimed;
  reason = "NOT_PREPARED";
}

abbrev pub is_expected : Manifest → Measurement → Bool
is_expected m absent = false
is_expected m (present sha256 size) = str_eq sha256 m.sha256 && size == m.byte_length

-- What the acknowledgment of a claim leads to.
pub data Disposition : Type 0 where
  not_established owned : Disposition
  replays : Row → Disposition

abbrev pub is_absent : Measurement → Bool
is_absent absent = true
is_absent (present sha256 size) = false

module _ (lib : PilotLib) where
  -- `object_name`
  unfoldable pub object_name : Manifest → Option String
  object_name m = do
    check (
        identifier m.provider_id
        && (identifier m.tenant_id && (identifier m.object_id && identifier m.version_id)))
    d ← digest lib (
        dict (
          field "provider_id" (text m.provider_id) (
            field "tenant_id" (text m.tenant_id)
              (field "object_id" (text m.object_id) (field "version_id" (text m.version_id) end)))))
    some (str_append d ".bin")

  -- `_measure`: what is there under the name, with its identity; `none` raises.
  unfoldable pub measure : Bool → String → List (String × File) → Option (Measurement × Option ℕ)
  measure works name namespace = check works >> elim (lookup name namespace) [
    | none ↦ some (absent, none)
    | some f ↦ do
      let size = byte_length f.bytes
      check (f.is_regular && (ltb 0 size && leb size max_bytes))
      some (present (lib.sha256 f.bytes) size, some f.identity)
  ]

  module _ (config : Provider) where
    abbrev pub happens : Event → World → World
    happens (claims c q fingerprint task) w = record w {
      journal = (claim lib config.pins c q fingerprint task w.journal).1;
    }
    happens (finishes c q state result) w = record w {
      journal = (finish lib config.pins c q state result w.journal).1;
    }
    happens (places n f) w = record w { namespace = (n, f) ∷ remove_name n w.namespace }
    happens (removes n) w = record w { namespace = remove_name n w.namespace }

    abbrev pub happen : List Event → World → World
    happen [] w = w
    happen (e ∷ events) w = happen events (happens e w)

    -- `_replay_if_claimed`
    unfoldable pub replay_if_claimed :
        Bool → ErasureResult → Context → List Row → Option ErasureResult
    replay_if_claimed opens result context rows =
        let failed : ErasureResult = record result {
          reason = "JOURNAL_UNAVAILABLE_BEFORE_CLAIM";
          journal_state = unavailable;
        } in
        elim (get_row lib config.pins opens context.request_id rows) [
          | none ↦ some failed
          | some found ↦ (elim found [
            | none ↦ none
            | some r ↦
                if str_eq r.request_id context.request_id
                then some (replay_result result r context.task_sha256)
                else some failed
          ])
        ]

    -- `_time`, from what the clock returns
    unfoldable pub event_time : Option String → String → Option String
    event_time clock earliest = do
      value ← clock
      at ← timestamp lib value
      from ← timestamp lib earliest
      check (leb from at && key_time lib config.pins.provider at)
      some value

    -- `_record`
    unfoldable pub provider_record : Context → String → String → String → Json → Option Json
    provider_record context prefix kind event_at data_json =
        let base = str_append prefix (str_append "-" (prefix_of 48 context.task_sha256)) in
        let record_id =
          if str_eq base context.request_record_id then str_append base "-p" else base in
        sign_message lib record_prefix
          (dict (
            field "record_id" (text record_id) (
              field "evaluation_id" (text context.evaluation_id) (
                field "kind" (text kind) (
                  field "issuer" (text config.pins.provider.issuer) (
                    field "recorded_at" (text event_at)
                      (field "binding" context.subject (field "data" data_json end))))))))
          config.secret config.pins.provider.key_id

    -- The tests of `delete` on what `_claim` returned.
    unfoldable pub disposition : Context → Option (Row × ClaimStatus) → Disposition
    disposition context none = not_established
    disposition context (some (r, status)) =
        let of_task = str_eq r.fingerprint context.task_sha256 && (elim (digest lib r.snapshot) [
          | none ↦ false
          | some d ↦ str_eq d context.task_sha256
        ]) in
        if not (valid_row lib config.pins r && str_eq r.request_id context.request_id)
        then not_established
        else if is_claim status
        then (if not of_task || not (is_intent r.state) || not (has_no_result r)
            then not_established
            else owned)
        else if of_task
        then (if is_replay status then replays r else not_established)
        else if is_replay status
        then not_established
        else replays r

    -- The tests of `_persist` on what `_finish` returned.
    abbrev pub is_accepted : Context → End → ErasureResult → Option Row → Bool
    is_accepted context state result none = false
    is_accepted context state result (some r) =
        valid_row lib config.pins r
        && (str_eq r.request_id context.request_id
            && (str_eq r.fingerprint context.task_sha256
                && (str_eq (row_state_text r.state) (end_text state)
                    && ((elim (digest lib r.snapshot) [
                      | none ↦ false
                      | some d ↦ str_eq d context.task_sha256
                    ])
                        && (elim r.result [
                          | none ↦ false
                          | some v ↦ same_digest lib (result_json v) (result_json result)
                        ])))))

    -- `_persist` of a result in the state
    unfoldable pub persist : Env → Context → End → ErasureResult → World → ErasureResult × World
    persist env context state given w0 =
        let w = happen env.at_finish w0 in
        let result = record given { state = final state; journal_state = row_is (ended state) } in
        let (ack, rows) =
          finish lib config.pins env.finish_commit context.request_id state result w.journal in
        (
          if is_accepted context state result ack then result else record result {
            state = final outcome_unknown;
            reason = "RESULT_PERSISTENCE_NOT_ESTABLISHED";
            attestation = none;
            receipt = none;
            journal_state = current_state lib config.pins env.state_reads context.request_id rows;
          },
          record w { journal = rows },
        )

    abbrev receipt_body : Context → Manifest → String → String → Json
    receipt_body context m unlinked_at observed_at = dict (
        field "kind" (text "local_unlink_receipt") (
          field "task_sha256" (text context.task_sha256) (
            field "request_id" (text context.request_id) (
              field "manifest_sha256" (text context.manifest_sha256) (
                field "before"
                  (dict
                    (field "sha256" (text m.sha256) (field "byte_length" (int m.byte_length) end)))
                  (field "unlinked_at" (text unlinked_at) (
                    field "observed_at" (text observed_at)
                      (field "after" (text "ABSENT") end))))))))

    -- What follows os.unlink: the receipt and the attestation.
    unfoldable pub observe :
        Env → Context → String → String → List (String × File) → Option (Json × Json)
    observe env context name unlinked_at namespace = do
      check env.after_unlink_returns
      (measured, identity) ← measure env.measures_absence name namespace
      check (is_absent measured && env.namespace_stays)
      observed_at ← event_time env.clock_observed unlinked_at
      receipt ←
          sign_message lib domain (receipt_body context context.manifest unlinked_at observed_at)
            config.secret config.pins.provider.key_id
      attestation ←
          provider_record context "completion" "erasure.provider_attestation" observed_at (
            dict (
              field "request_record_id" (text context.request_record_id) (
                field "completed_at" (text observed_at) (
                  field "locations" (list (cons (text location) nil))
                    (field "exclusions" (list (text_items exclusions)) end)))))
      some (receipt, attestation)

    abbrev pub observed :
        Env → Context → ErasureResult → Option (Json × Json) → World → ErasureResult × World
    observed env context result none w =
        persist env context outcome_unknown
          (record result {
            reason = "UNLINK_OR_SCOPED_COMPLETION_NOT_ESTABLISHED";
            attestation = none;
            receipt = none;
          })
          w
    observed env context result (some (receipt, attestation)) w =
        persist env context local_unlink_confirmed
          (record result {
            reason = "EXACT_NAMESPACE_ENTRY_REMOVAL_CONFIRMED";
            attestation = some attestation;
            receipt = some receipt;
          })
          w

    -- os.unlink, of a name that is there
    abbrev pub unlinked :
        Env → Context → ErasureResult → String → String → Unlink → World → ErasureResult × World
    unlinked env context result name unlinked_at unlinks w =
        let w' = happen env.at_absence (happens (removes name) w) in
        observed env context result (observe env context name unlinked_at w'.namespace) w'
    unlinked env context result name unlinked_at refuses w = observed env context result none w
    unlinked env context result name unlinked_at uncertain w =
        observed env context result none (happens (removes name) w)

    unfoldable pub attempt :
        Env → Context → ErasureResult → String → String → World → ErasureResult × World
    attempt env context given name unlinked_at w =
        let result : ErasureResult = record given { attempted = true } in
        elim (lookup name w.namespace) [
          | none ↦ observed env context result none w
          | some f ↦ unlinked env context result name unlinked_at env.unlink w
        ]

    -- The last tests before os.unlink: the time of the unlink.
    unfoldable pub final_tests :
        Env → Context → Json → String → Option ℕ → String → List (String × File) → Option String
    final_tests env context task name identity acknowledged_at namespace = do
      final_at ← event_time env.clock_final acknowledged_at
      current ← validate_task lib task config.pins final_at
      (measured, found) ← measure env.measures_again name namespace
      check (is_expected context.manifest measured)
      before ← identity
      now ← found
      check (now == before)
      unlinked_at ← event_time env.clock_unlinked final_at
      still ← validate_task lib task config.pins unlinked_at
      check env.status_reads
      f ← lookup name namespace
      check (f.is_regular && (f.identity == now && env.namespace_is_current))
      some unlinked_at

    abbrev pub tested :
        Env → Context → ErasureResult → String → Option String → World → ErasureResult × World
    tested env context result name none w =
        persist env context blocked
          (record result { reason = "FINAL_AUTHORIZATION_OR_OBJECT_NOT_ESTABLISHED" }) w
    tested env context result name (some unlinked_at) w =
        attempt env context result name unlinked_at (happen env.at_race w)

    -- After the acknowledgment
    unfoldable pub acknowledged :
        Call → Context → ErasureResult → String → Option ℕ → String → World → ErasureResult × World
    acknowledged c context result name identity acknowledged_at w0 =
        let w = happen c.env.at_hook w0 in
        if c.acknowledge_only
        then persist c.env context acknowledged_only
            (record result { reason = "REQUEST_RECEIVED_WITHOUT_DELETION" }) w0
        else if not c.env.before_unlink_returns
        then persist c.env context outcome_unknown
            (record result { reason = "BEFORE_UNLINK_CALLBACK_FAILED" }) w
        else tested c.env context result name
            (final_tests c.env context c.task name identity acknowledged_at w.namespace) w

    -- The acknowledgment, and its time
    unfoldable pub acknowledgement : Env → Context → String → Option (String × Json)
    acknowledgement env context proposed_at = do
      at ← event_time env.clock_acknowledged proposed_at
      envelope ← provider_record context "ack" "erasure.acknowledgement" at (
          dict (
            field "request_record_id" (text context.request_record_id)
              (field "acknowledged_at" (text at) (field "queue_state" (text "received") end))))
      some (at, envelope)

    abbrev pub owned_intent :
        Call
        → Context
        → ErasureResult
        → String
        → Option ℕ
        → Option (String × Json)
        → World
        → ErasureResult × World
    owned_intent c context result name identity none w =
        persist c.env context outcome_unknown
          (record result { reason = "ACKNOWLEDGEMENT_NOT_ESTABLISHED" }) w
    owned_intent c context result name identity (some (at, envelope)) w =
        acknowledged c context (record result { acknowledgement = some envelope }) name identity at
          w

    abbrev pub disposed :
        Call
        → Context
        → ErasureResult
        → String
        → Option ℕ
        → String
        → Disposition
        → World
        → ErasureResult × World
    disposed c context result name identity proposed_at not_established w = (
      record result {
        reason = "INTENT_ACKNOWLEDGEMENT_NOT_ESTABLISHED";
        journal_state =
            current_state lib config.pins c.env.state_reads context.request_id w.journal;
      },
      w,
    )
    disposed c context result name identity proposed_at (replays r) w =
        (replay_result result r context.task_sha256, w)
    disposed c context result name identity proposed_at owned w =
        owned_intent c context (record result { journal_state = row_is deletion_intent }) name
          identity (acknowledgement c.env context proposed_at) w

    -- The claim of a task whose object is there
    unfoldable pub take :
        Call → Context → ErasureResult → String → Option ℕ → String → World → ErasureResult × World
    take c context result name identity proposed_at w0 =
        let w = happen c.env.at_claim w0 in
        let (ack, rows) =
          claim lib config.pins c.env.claim_commit context.request_id context.task_sha256 c.task
            w.journal in
        disposed c context result name identity proposed_at (disposition context ack)
          (record w { journal = rows })

    -- The object is not there as it is bound: another call may have removed it.
    unfoldable pub not_there : Env → Context → ErasureResult → World → ErasureResult × World
    not_there env context result w =
        elim (replay_if_claimed env.journal_reopens result context w.journal) [
          | none ↦ (result, w)
          | some prior ↦ (prior, w)
        ]

    abbrev pub measured :
        Call
        → Context
        → ErasureResult
        → String
        → String
        → Option (Measurement × Option ℕ)
        → World
        → ErasureResult × World
    measured c context result name proposed_at none w =
        not_there c.env context
          (record result { reason = "REQUESTED_OBJECT_NOT_SAFELY_ESTABLISHED" }) w
    measured c context result name proposed_at (some (m, identity)) w =
        if is_expected context.manifest m
        then take c context result name identity proposed_at w
        else not_there c.env context
            (record result { reason = "REQUESTED_OBJECT_NOT_PRESENT_AS_BOUND" }) w

    unfoldable pub delete_current :
        Call → Context → ErasureResult → String → String → World → ErasureResult × World
    delete_current c context result name proposed_at w0 =
        let w = happen c.env.at_start w0 in
        if not c.env.namespace_opens
        then (
          record result {
            reason = "CONTROLLER_STORAGE_UNAVAILABLE";
            journal_state =
                current_state lib config.pins c.env.state_reads context.request_id w.journal;
          },
          w,
        )
        else measured c context result name proposed_at (measure c.env.measures name w.namespace) w

    -- The time of the proposal, at which the task has to be authorized
    unfoldable pub proposal : Call → Context → Option String
    proposal c context = do
      at ← event_time c.env.clock_proposed context.operation_at
      current ← validate_task lib c.task config.pins at
      some at

    unfoldable pub delete_task : Call → Context → String → World → ErasureResult × World
    delete_task c context name w =
        elim (replay_if_claimed c.env.journal_opens not_prepared context w.journal) [
          | some prior ↦ (prior, w)
          | none ↦ (elim (proposal c context) [
            | none ↦ (record not_prepared { reason = "AUTHORIZATION_NOT_CURRENT" }, w)
            | some at ↦ delete_current c context not_prepared name at w
          ])
        ]

    -- The task that `delete` captures, with the name of its object.
    unfoldable pub captured : Call → Option (Context × String)
    captured c = do
      context ← historical_context lib config.pins c.task
      check (valid_manifest config.pins context.manifest)
      name ← object_name context.manifest
      some (context, name)

    abbrev pub deleted : Call → Option (Context × String) → World → Option ErasureResult × World
    deleted c none w = (none, w)
    deleted c (some (context, name)) w =
        let (result, w') = delete_task c context name w in (some result, w')

    -- `delete`, where `none` raises `InputError`
    unfoldable pub delete : Call → World → Option ErasureResult × World
    delete c w = deleted c (captured c) w
