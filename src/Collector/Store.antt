-- ===== src/Collector/Store.antt =====
-- payment_collector.py: the collector's store. It keeps the first package of a request and a kind,
-- and answers with its acknowledgment.
use vap_spec.Base.{
  ℕ, suc, Bool, true, false, not, ◌&&◌, ◌||◌, Option, none, some, String, List, [], ◌∷◌, ◌++◌,
  str_eq, if◌then◌else◌,
}
use vap_spec.Runtime.Json.{Json, null, int, text, dict, end, field}
use vap_spec.Runtime.Outcome.{
  value_error, db_error, blocked, fault, Result, ok, err, ◌>>=◌, ◌>>◌, require, or_raise,
}
use vap_spec.Runtime.Request.{Context, is_hash}
use vap_spec.Runtime.Receipt.{bytes_digest}
use vap_spec.Runtime.Rows.{MetaTable, transaction, is_current}
use vap_spec.Collector.{
  CollectorLib, Kind, kind_text, phase_text, Package, context_json, canonical_message, digest,
  validate_package, sign_statement,
}
use vap_spec.Collector.Custody.{ack_schema, readback_schema, is_nonce}

pub record CollectorConfig : Type 0 where
  pub context : Context
  pub private_key : String
  pub public_key : String
  pub collector_id : String
  pub recovery_epoch : ℕ
  pub drop_ack_after_commit : Bool

-- A row of collection_records.
pub record CollectionRow : Type 0 where
  pub package_digest : String
  pub request_digest : String
  pub kind : Kind
  pub package_bytes : String
  pub ack_bytes : String

pub record CollectorStore : Type 0 where
  pub metadata : MetaTable
  pub records : List CollectionRow
  pub collect_attempts : ℕ
  pub query_attempts : ℕ

abbrev pub same_kind : Kind → Kind → Bool
same_kind a b = str_eq (kind_text a) (kind_text b)

-- request_digest=? AND kind=?
abbrev pub is_at : String → Kind → CollectionRow → Bool
is_at request_digest kind r = str_eq r.request_digest request_digest && same_kind r.kind kind

-- SELECT … WHERE request_digest=? AND kind=?
unfoldable pub find_record : String → Kind → List CollectionRow → Option CollectionRow
find_record request_digest kind [] = none
find_record request_digest kind (r ∷ rows) =
    if is_at request_digest kind r then some r else find_record request_digest kind rows

-- SELECT … WHERE package_digest=?
unfoldable pub find_package : String → List CollectionRow → Option CollectionRow
find_package d [] = none
find_package d (r ∷ rows) = if str_eq r.package_digest d then some r else find_package d rows

abbrev pub is_found : Option CollectionRow → Bool
is_found none = false
is_found (some r) = true

-- INSERT INTO collection_records, under PRIMARY KEY(package_digest) and UNIQUE(request_digest, kind)
unfoldable pub insert_record : CollectionRow → List CollectionRow → Result (List CollectionRow)
insert_record r rows =
    if is_found (find_package r.package_digest rows)
      || is_found (find_record r.request_digest r.kind rows)
    then err db_error
    else ok (rows ++ r ∷ [])

abbrev pub conflict : String
conflict = "original_collection_conflict"

module _ (lib : CollectorLib) (config : CollectorConfig) where
  -- `_store_identity`
  abbrev pub identity_json : Json
  identity_json = dict (
      field "collector_id" (text config.collector_id) (
        field "context" (context_json config.context) (
          field "public_key" (text config.public_key)
            (field "schema" (text "synthetic-payment-custody-store-v0") end))))

  -- `_current_generation` of the store
  unfoldable pub is_current_store : MetaTable → Bool
  is_current_store m = elim (digest lib identity_json) [
    | none ↦ false
    | some d ↦ is_current config.recovery_epoch d m
  ]

  -- The statement of an acknowledgment, with `_binding`.
  unfoldable pub ack_json : ℕ → Package → String → Json
  ack_json now_ms g raw = dict (
      field "collector_id" (text config.collector_id) (
        field "context_digest" (text g.context_digest) (
          field "evidence_digest" (text g.evidence_digest) (
            field "evidence_length" (int g.evidence_length) (
              field "kind" (text (kind_text g.kind)) (
                field "package_digest" (text (bytes_digest lib.platform raw)) (
                  field "phase" (text (phase_text g.kind)) (
                    field "recorded_at_ms" (int now_ms) (
                      field "request_digest" (text g.request_digest) (
                        field "schema" (text ack_schema)
                          (field "storage_epoch" (int config.recovery_epoch) end)))))))))))

  -- An unknown package: its acknowledgment is signed and stored with it.
  unfoldable pub collect_new :
      ℕ → Package → String → CollectorStore → Result ((String × Bool) × CollectorStore)
  collect_new now_ms g raw s = do
    require (is_current_store s.metadata) (value_error "stale_store_generation")
    ack ←
        or_raise (sign_statement lib (ack_json now_ms g raw) config.private_key)
          (value_error "statement")
    rows ←
        insert_record
          (record {
            package_digest = bytes_digest lib.platform raw;
            request_digest = g.request_digest;
            kind = g.kind;
            package_bytes = raw;
            ack_bytes = ack;
          })
          s.records
    ok ((ack, true), record s { records = rows })

  abbrev pub collect_found :
      ℕ
      → Package
      → String
      → Option CollectionRow
      → CollectorStore
      → Result ((String × Bool) × CollectorStore)
  collect_found now_ms g raw none s = collect_new now_ms g raw s
  collect_found now_ms g raw (some old) s =
      if str_eq old.package_bytes raw
      then ok ((old.ack_bytes, false), s)
      else err (value_error conflict)

  abbrev pub collect_valid :
      ℕ → String → Option Package → CollectorStore → Result (String × Bool) × CollectorStore
  collect_valid now_ms raw none s = (err (value_error "package"), s)
  collect_valid now_ms raw (some g) s =
      transaction
        (λ t. collect_found now_ms g raw (find_record g.request_digest g.kind t.records) t) s

  -- `_collect`: the acknowledgment, and whether the package is new.
  unfoldable pub collect : ℕ → String → CollectorStore → Result (String × Bool) × CollectorStore
  collect now_ms raw s = collect_valid now_ms raw (validate_package lib raw config.context) s

  -- The statement of a readback.
  unfoldable pub readback_json : ℕ → String → String → String → Option CollectionRow → Json
  readback_json now_ms package_digest nonce context_digest row = dict (
      field "ack_digest"
        (elim row [ none ↦ null | some r ↦ text (bytes_digest lib.platform r.ack_bytes) ])
        (field "collector_id" (text config.collector_id) (
          field "context_digest" (text context_digest) (
            field "nonce" (text nonce) (
              field "observed_at_ms" (int now_ms) (
                field "package_digest" (text package_digest) (
                  field "recovery_epoch" (int config.recovery_epoch) (
                    field "schema" (text readback_schema) (
                      field "state" (text (if is_found row then "PRESENT" else "MISSING"))
                        end)))))))))

  abbrev hex_or_null : Option String → Json
  hex_or_null none = null
  hex_or_null (some s) = if str_eq s "" then null else text (lib.hex s)

  -- `_readback`
  unfoldable pub readback : ℕ → String → String → CollectorStore → Result String
  readback now_ms package_digest nonce s = do
    require (is_current_store s.metadata) (value_error "stale_store_generation")
    context_digest ← or_raise (digest lib (context_json config.context)) (value_error "context")
    let row = find_package package_digest s.records
    signed ←
        or_raise
          (sign_statement lib (readback_json now_ms package_digest nonce context_digest row)
            config.private_key)
          (value_error "statement")
    or_raise
        (canonical_message lib (
          dict (
            field "ack_bytes" (hex_or_null (elim row [ none ↦ none | some r ↦ some r.ack_bytes ])) (
              field "package_bytes"
                (hex_or_null (elim row [ none ↦ none | some r ↦ some r.package_bytes ]))
                (field "readback_bytes" (text (lib.hex signed)) end)))))
        (value_error "response")

  -- What a POST brings, and what goes wrong while it is served. A hook raises what is no ValueError.
  pub record Post : Type 0 where
    pub path : String
    pub count_fails : Bool
    pub is_authorized : Bool
    pub body : Option String
    pub now_ms : ℕ
    pub hook_raises : Bool

  pub data Reply : Type 0 where
    dropped : Reply
    answered : ℕ → String → Reply

  abbrev pub reply_to : Post → Result (String × Bool) → Reply
  reply_to post (ok (ack, created)) =
      if created && (post.hook_raises || config.drop_ack_after_commit)
      then dropped
      else answered 200 ack
  reply_to post (err (value_error message)) =
      answered (if str_eq message conflict then 409 else 400) "collection_rejected"
  reply_to post (err db_error) = dropped
  reply_to post (err (blocked d)) = dropped
  reply_to post (err fault) = dropped

  abbrev pub serve_body : Post → Option String → CollectorStore → Reply × CollectorStore
  serve_body post none s = (answered 400 "collection_rejected", s)
  serve_body post (some raw) s =
      let (result, s') = collect post.now_ms raw s in (reply_to post result, s')

  -- `do_POST` of /collections; `body` is none where its length is not as it is declared.
  unfoldable pub do_post : Post → CollectorStore → Reply × CollectorStore
  do_post post s =
      let counted : CollectorStore = record s { collect_attempts = suc s.collect_attempts } in
      if not (str_eq post.path "/collections")
      then (answered 404 "unsupported_path", s)
      else if post.count_fails
      then (dropped, s)
      else if not post.is_authorized
      then (answered 401 "ephemeral_credential_required", counted)
      else serve_body post post.body counted

  abbrev pub do_posts : List Post → CollectorStore → CollectorStore
  do_posts [] s = s
  do_posts (post ∷ rest) s = do_posts rest (do_post post s).1

  -- What a GET brings. `query` is the package digest and the nonce that parse_qs finds, each once.
  pub record Query : Type 0 where
    pub path : String
    pub count_fails : Bool
    pub is_authorized : Bool
    pub query : Option (String × String)
    pub reads : Bool
    pub now_ms : ℕ

  abbrev readback_reply : Result String → Reply
  readback_reply (ok response) = answered 200 response
  readback_reply (err (value_error message)) = answered 400 "readback_rejected"
  readback_reply (err db_error) = dropped
  readback_reply (err (blocked d)) = dropped
  readback_reply (err fault) = dropped

  abbrev answer_query : Query → Option (String × String) → CollectorStore → Reply
  answer_query q none s = answered 400 "readback_rejected"
  answer_query q (some (package_digest, nonce)) s =
      if not (is_hash package_digest && is_nonce nonce)
      then answered 400 "readback_rejected"
      else if not q.reads
      then dropped
      else readback_reply (readback q.now_ms package_digest nonce s)

  -- `do_GET` of /collections
  unfoldable pub do_get : Query → CollectorStore → Reply × CollectorStore
  do_get q s =
      let counted : CollectorStore = record s { query_attempts = suc s.query_attempts } in
      if not (str_eq q.path "/collections")
      then (answered 404 "unsupported_path", s)
      else if q.count_fails
      then (dropped, s)
      else if not q.is_authorized
      then (answered 401 "ephemeral_credential_required", counted)
      else (answer_query q q.query counted, counted)
