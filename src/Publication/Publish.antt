-- ===== src/Publication/Publish.antt =====
-- store.py: `publish`. Its environment says which accesses fail, what the hooks return, and what
-- other processes do to the journal and to the visible directory while it runs.
use vap_spec.Base.{
  ℕ, Bool, true, false, not, ◌&&◌, ◌||◌, Option, none, some, String, List, [], ◌∷◌, ◌++◌, leb, ◌==◌,
  length, take, drop, all, codes, str_eq, if◌then◌else◌,
}
use vap_spec.Runtime.Json.{Json, int, text, dict, end, field}
use vap_spec.Runtime.Request.{is_hex, same_codes, ◌>>=◌, ◌>>◌, check}
use vap_spec.Gate.Policy.{lookup, member}
use vap_spec.Pilot.Journal.{is_claim, is_replay, has_no_result, ClaimStatus, Commit}
use vap_spec.Pilot.Files.{File, remove_name}
use vap_spec.Pilot.{
  PilotLib, max_bytes, byte_length, identifier, is_sha256, same_digest, sign_message, timestamp,
}
use vap_spec.Publication.{
  Snapshot, RowState, publication_intent, blocked_after_intent, local_output_confirmed,
  outcome_unknown, not_claimed, unavailable, row_is, blocked, confirmed, unknown, PublishResult,
  Row, snapshot_json, row_state_text, result_json, is_intent, safe_name, valid_row, get, claim,
  finish, current_state, replay_result,
}

-- The journal, the visible directory, and the names in the private staging directory.
pub record World : Type 0 where
  pub journal : List Row
  pub visible : List (String × File)
  pub staged : List String

-- What another process may do: publish through the same journal, or change the visible directory.
pub data Event : Type 0 where
  claims : Commit → Snapshot → Event
  finishes : Commit → String → RowState → PublishResult → Event
  places : String → File → Event
  removes : String → Event

-- os.link to a free name: it links, it raises, or it links and raises.
pub data Link : Type 0 where
  links refuses uncertain : Link

-- The private stage: nothing, a file that is not complete, or the artifact.
pub data Stage : Type 0 where
  absent partial complete : Stage

-- `before_link` is the value of the hook, and `none` where it raises; a hook that is None is
-- `some true`. The three lists of events are those before the claim, before os.link, and between
-- os.link and the readback; the last is before the result is committed.
pub record Env : Type 0 where
  pub journal_opens : Bool
  pub before_claim : List Event
  pub directories_open : Bool
  pub stage : Stage
  pub stage_name : String
  pub stage_identity : ℕ
  pub claim_commit : Commit
  pub before_link : Option Bool
  pub at_before_link : List Event
  pub link : Link
  pub after_link_returns : Bool
  pub at_after_link : List Event
  pub reads : Bool
  pub clock : Option String
  pub at_finish : List Event
  pub finish_commit : Commit
  pub state_reads : Bool
  pub cleans : Bool

pub record Publisher : Type 0 where
  pub destination_id : String
  pub secret : String
  pub key_id : String

pub record Call : Type 0 where
  pub request_id : String
  pub fingerprint : String
  pub html : String
  pub disclosure_sha256 : String
  pub env : Env

abbrev pub remove_text : String → List String → List String
remove_text n [] = []
remove_text n (m ∷ rest) = let rest' = remove_text n rest in if str_eq m n then rest' else m ∷ rest'

abbrev pub domain : String
domain = "publication-pilot-control/0.1\0"

abbrev pub receipt_body : Snapshot → String → Json
receipt_body s observed_at = dict (
    field "kind" (text "local_publication_receipt") (
      field "request_id" (text s.request_id) (
        field "fingerprint" (text s.fingerprint) (
          field "artifact_sha256" (text s.artifact_sha256) (
            field "disclosure_sha256" (text s.disclosure_sha256) (
              field "byte_length" (int s.byte_length) (
                field "destination_id" (text s.destination_id) (
                  field "visible_name" (text s.visible_name)
                    (field "observed_at" (text observed_at) end)))))))))

-- What `publish` returns before it knows more.
abbrev pub not_prepared : String → PublishResult
not_prepared name = record {
  state = blocked;
  attempted = false;
  visible_name = name;
  receipt = none;
  journal_state = not_claimed;
  reason = "NOT_PREPARED";
}

-- What the acknowledgment of a claim leads to.
pub data Disposition : Type 0 where
  not_established owned : Disposition
  replays : Row → Disposition

module _ (lib : PilotLib) where
  abbrev pub happens : Event → World → World
  happens (claims c s) w = record w {
    journal = (claim lib c s.request_id s.fingerprint s w.journal).1;
  }
  happens (finishes c q state result) w = record w {
    journal = (finish lib c q state result w.journal).1;
  }
  happens (places n f) w = record w { visible = (n, f) ∷ remove_name n w.visible }
  happens (removes n) w = record w { visible = remove_name n w.visible }

  abbrev pub happen : List Event → World → World
  happen [] w = w
  happen (e ∷ events) w = happen events (happens e w)

  -- The tests of `publish` on what `_claim` returned.
  unfoldable pub disposition : Snapshot → Option (Row × ClaimStatus) → Disposition
  disposition s none = not_established
  disposition s (some (r, status)) =
      let of_action =
        str_eq r.fingerprint s.fingerprint
        && same_digest lib (snapshot_json r.snapshot) (snapshot_json s) in
      if not (valid_row lib r && str_eq r.request_id s.request_id)
      then not_established
      else if is_claim status
      then (if not of_action || not (is_intent r.state) || not (has_no_result r)
          then not_established
          else owned)
      else if of_action
      then (if is_replay status then replays r else not_established)
      else if is_replay status
      then not_established
      else replays r

  -- The tests of `_persist` on what `_finish` returned.
  abbrev pub is_accepted : Snapshot → RowState → PublishResult → Option Row → Bool
  is_accepted s state result none = false
  is_accepted s state result (some r) =
      valid_row lib r
      && (str_eq r.request_id s.request_id
          && (str_eq (row_state_text r.state) (row_state_text state)
              && (str_eq r.fingerprint s.fingerprint
                  && (same_digest lib (snapshot_json r.snapshot) (snapshot_json s)
                      && (elim r.result [
                        | none ↦ false
                        | some v ↦ same_digest lib (result_json v) (result_json result)
                      ])))))

  -- `_persist`
  unfoldable pub persist : Env → PublishResult → Snapshot → RowState → World → PublishResult × World
  persist env given s state w0 =
      let w = happen env.at_finish w0 in
      let result = record given { journal_state = row_is state } in
      let (ack, rows) = finish lib env.finish_commit s.request_id state result w.journal in
      (
        if is_accepted s state result ack then result else record result {
          state = unknown;
          reason = "PUBLICATION_RESULT_PERSISTENCE_NOT_ESTABLISHED";
          receipt = none;
          journal_state = current_state lib env.state_reads s.request_id rows;
        },
        record w { journal = rows },
      )

  -- SAFE_NAME.fullmatch(name)
  abbrev pub is_safe_name : String → Bool
  is_safe_name name =
      let cs = codes name in
      length cs == 69 && (all is_hex (take 64 cs) && same_codes (drop 64 cs) (codes ".html"))

  -- `_read_artifact` of the prepared file: the digest and the length.
  unfoldable pub read_artifact : Bool → String → ℕ → List (String × File) → Option (String × ℕ)
  read_artifact reads name expected visible = do
    check (is_safe_name name && reads)
    f ← lookup name visible
    check (f.is_regular && leb (byte_length f.bytes) max_bytes)
    check (f.identity == expected)
    some (lib.sha256 f.bytes, byte_length f.bytes)

  module _ (config : Publisher) where
    -- The readback and the receipt after os.link.
    unfoldable pub observe : Env → Snapshot → List (String × File) → Option Json
    observe env s visible = do
      check env.after_link_returns
      (sha256, size) ← read_artifact env.reads s.visible_name env.stage_identity visible
      check (str_eq sha256 s.artifact_sha256 && size == s.byte_length)
      observed_at ← env.clock
      at ← timestamp lib observed_at
      sign_message lib domain (receipt_body s observed_at) config.secret config.key_id

    abbrev pub after_link :
        Env → PublishResult → Snapshot → Option Json → World → PublishResult × World
    after_link env result s none w =
        persist env
          (record result { state = unknown; reason = "VISIBLE_OUTPUT_READBACK_NOT_ESTABLISHED" }) s
          outcome_unknown w
    after_link env result s (some receipt) w =
        persist env
          (record result {
            state = confirmed;
            reason = "MEASURED_LOCAL_FILE_CONFIRMED";
            receipt = some receipt;
          })
          s local_output_confirmed w

    abbrev pub put : Env → Snapshot → String → World → World
    put env s html w = record w {
      visible =
          w.visible
          ++ (
            s.visible_name,
            record { identity = env.stage_identity; is_regular = true; bytes = html },
          )
            ∷ [];
    }

    -- os.link and what follows it
    abbrev pub linked :
        Env → PublishResult → Snapshot → String → Link → World → PublishResult × World
    linked env result s html links w =
        let w' = happen env.at_after_link (put env s html w) in
        after_link env result s (observe env s w'.visible) w'
    linked env result s html refuses w =
        persist env
          (record result { state = unknown; reason = "ATOMIC_PUBLICATION_OUTCOME_UNKNOWN" }) s
          outcome_unknown w
    linked env result s html uncertain w =
        persist env
          (record result { state = unknown; reason = "ATOMIC_PUBLICATION_OUTCOME_UNKNOWN" }) s
          outcome_unknown (put env s html w)

    abbrev pub has_name : String → List (String × File) → Bool
    has_name n visible = elim (lookup n visible) [ none ↦ false | some f ↦ true ]

    unfoldable pub attempt : Env → PublishResult → Snapshot → String → World → PublishResult × World
    attempt env given s html w =
        let result : PublishResult = record given { attempted = true } in
        if has_name s.visible_name w.visible
        then persist env (record result { reason = "VISIBLE_NAME_ALREADY_EXISTS" }) s
            blocked_after_intent w
        else linked env result s html env.link w

    -- After the claim: the hook before_link.
    abbrev pub owned_intent :
        Env → PublishResult → Snapshot → String → Option Bool → World → PublishResult × World
    owned_intent env result s html none w =
        persist env (record result { state = unknown; reason = "BEFORE_LINK_CALLBACK_FAILED" }) s
          outcome_unknown w
    owned_intent env result s html (some false) w =
        persist env (record result { reason = "FINAL_GATE_BLOCKED_PUBLICATION" }) s
          blocked_after_intent w
    owned_intent env result s html (some true) w = attempt env result s html w

    abbrev pub disposed :
        Env → PublishResult → Snapshot → String → Disposition → World → PublishResult × World
    disposed env result s html not_established w = (
      record result {
        reason = "PUBLICATION_INTENT_ACKNOWLEDGEMENT_NOT_ESTABLISHED";
        journal_state = current_state lib env.state_reads s.request_id w.journal;
      },
      w,
    )
    disposed env result s html (replays r) w = (replay_result lib result r s, w)
    disposed env result s html owned w =
        owned_intent env (record result { journal_state = row_is publication_intent }) s html
          env.before_link (happen env.at_before_link w)

    -- The claim, once the artifact is staged.
    unfoldable pub with_stage :
        Env → PublishResult → Snapshot → String → World → PublishResult × World
    with_stage env result s html w =
        let (ack, rows) = claim lib env.claim_commit s.request_id s.fingerprint s w.journal in
        disposed env result s html (disposition s ack) (record w { journal = rows })

    abbrev pub stage_failure : PublishResult → PublishResult
    stage_failure result = record result { reason = "PRIVATE_STAGE_NOT_ESTABLISHED" }

    -- The removal of the stage, at the end.
    abbrev pub clean : Env → PublishResult × World → PublishResult × World
    clean env (result, w) = (
      result,
      if env.cleans then record w { staged = remove_text env.stage_name w.staged } else w,
    )

    abbrev pub stage : Env → World → World
    stage env w = record w { staged = env.stage_name ∷ w.staged }

    -- The private stage, which O_EXCL creates.
    abbrev pub staging :
        Env → PublishResult → Snapshot → String → Stage → World → PublishResult × World
    staging env result s html absent w = (stage_failure result, w)
    staging env result s html partial w = clean env (stage_failure result, stage env w)
    staging env result s html complete w = clean env (with_stage env result s html (stage env w))

    unfoldable pub publish_new :
        Env → PublishResult → Snapshot → String → World → PublishResult × World
    publish_new env result s html w =
        if not env.directories_open
        then (
          record result {
            reason = "CONTROLLER_DIRECTORIES_UNAVAILABLE";
            journal_state = current_state lib env.state_reads s.request_id w.journal;
          },
          w,
        )
        else if member env.stage_name w.staged
        then (stage_failure result, w)
        else staging env result s html env.stage w

    abbrev pub snapshot_of : Call → Snapshot
    snapshot_of c = record {
      request_id = c.request_id;
      fingerprint = c.fingerprint;
      artifact_sha256 = lib.sha256 c.html;
      disclosure_sha256 = c.disclosure_sha256;
      byte_length = byte_length c.html;
      destination_id = config.destination_id;
      visible_name = safe_name lib c.request_id;
    }

    abbrev pub valid_call : Call → Bool
    valid_call c =
        identifier c.request_id
        && (is_sha256 c.fingerprint
            && (is_sha256 c.disclosure_sha256 && leb (byte_length c.html) max_bytes))

    -- The first look at the journal.
    abbrev pub published :
        Env
        → PublishResult
        → Snapshot
        → String
        → Option (Option Row)
        → World
        → PublishResult × World
    published env result s html none w = (
      record result { reason = "JOURNAL_UNAVAILABLE_BEFORE_CLAIM"; journal_state = unavailable },
      w,
    )
    published env result s html (some none) w =
        publish_new env result s html (happen env.before_claim w)
    published env result s html (some (some r)) w =
        if str_eq r.request_id s.request_id then (replay_result lib result r s, w) else (
          record result {
            reason = "JOURNAL_UNAVAILABLE_BEFORE_CLAIM";
            journal_state = unavailable;
          },
          w,
        )

    -- `publish`, where `none` raises `InputError`
    unfoldable pub publish : Call → World → Option PublishResult × World
    publish c w =
        if valid_call c
        then (let s = snapshot_of c in
            let (result, w') =
              published c.env (not_prepared s.visible_name) s c.html
                (get lib c.env.journal_opens c.request_id w.journal) w in
            (some result, w'))
        else (none, w)
