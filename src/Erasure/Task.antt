-- ===== src/Erasure/Task.antt =====
-- adapter.py: a task is a manifest of one object with a signed request and a signed authorization.
-- The pins are those that `validate_pins` accepts, with the key of each role in its own field.
use vap_spec.Base.{
  ℕ, Bool, false, ◌&&◌, Option, none, some, String, List, [], ◌∷◌, ltb, leb, ◌==◌, str_eq, length,
  all,
}
use vap_spec.Runtime.Json.{Json, int, list, Fields, get_field}
use vap_spec.Runtime.Request.{◌>>=◌, ◌>>◌, check}
use vap_spec.RecordGate.Envelope.{as_text, text_at}
use vap_spec.RecordGate.Authority.{text_items}
use vap_spec.Gate.Policy.{member, distinct}
use vap_spec.Assessor.{exact_keys, digest_hex, strings}
use vap_spec.Pilot.{PilotLib, max_bytes, identifier, digest, timestamp, verify_message, text_is}

abbrev pub domain : String
domain = "erasure-pilot-control/0.1\0"

-- ADAPTER and its separator: the prefix of what a record's signature signs.
abbrev pub record_prefix : String
record_prefix = "incident-evidence-adapter/0.1\0"

abbrev pub location : String
location = "active-object-namespace"

abbrev pub exclusions : List String
exclusions =
    "backups" ∷ "replicas" ∷ "downstream-copies" ∷ "training-derivatives"
    ∷ "open-handles-and-memory" ∷ "storage-media" ∷ []

pub record PinnedKey : Type 0 where
  pub key_id : String
  pub public_key : String
  pub issuer : String
  pub organization : String
  pub roles : List String
  pub not_before : String
  pub not_after : String

pub record Pins : Type 0 where
  pub provider_id : String
  pub tenant_id : String
  pub location : String
  pub requester : PinnedKey
  pub provider : PinnedKey
  pub observer : PinnedKey

pub record Manifest : Type 0 where
  pub provider_id : String
  pub tenant_id : String
  pub object_id : String
  pub version_id : String
  pub sha256 : String
  pub byte_length : ℕ
  pub location : String

-- What `validate_task` returns.
pub record Context : Type 0 where
  pub request_id : String
  pub evaluation_id : String
  pub subject : Json
  pub operation_at : String
  pub valid_until : String
  pub task_sha256 : String
  pub manifest_sha256 : String
  pub request_record_id : String
  pub manifest : Manifest

abbrev pub as_nat : Json → Option ℕ
as_nat (int n) = some n
as_nat _ = none

abbrev pub text_field : String → Fields → Option String
text_field k fs = get_field k fs >>= as_text

abbrev is_singleton : String → Option Json → Bool
is_singleton s none = false
is_singleton s (some v) = elim v [
  | list xs ↦ (elim (text_items xs) [
    | none ↦ false
    | some ts ↦ length ts == 1 && all (str_eq s) ts
  ])
  | _ ↦ false
]

-- The manifest that has the exact fields, each of its type.
abbrev read_manifest : Json → Option Manifest
read_manifest v = do
  fs ←
      exact_keys
        ("provider_id" ∷ "tenant_id" ∷ "object_id" ∷ "version_id" ∷ "sha256" ∷ "byte_length"
          ∷ "location" ∷ [])
        v
  provider_id ← text_field "provider_id" fs
  tenant_id ← text_field "tenant_id" fs
  object_id ← text_field "object_id" fs
  version_id ← text_field "version_id" fs
  sha256 ← text_field "sha256" fs
  given ← get_field "byte_length" fs
  byte_length ← as_nat given
  place ← text_field "location" fs
  some (record {
    provider_id = provider_id;
    tenant_id = tenant_id;
    object_id = object_id;
    version_id = version_id;
    sha256 = sha256;
    byte_length = byte_length;
    location = place;
  })

-- `_manifest`, on a manifest that has its fields: whether it returns.
unfoldable pub valid_manifest : Pins → Manifest → Bool
valid_manifest pins m =
    identifier m.provider_id
    && (identifier m.tenant_id
        && (identifier m.object_id
            && (identifier m.version_id
                && (digest_hex 32 m.sha256
                    && ((ltb 0 m.byte_length && leb m.byte_length max_bytes)
                        && (str_eq m.provider_id pins.provider_id
                            && (str_eq m.tenant_id pins.tenant_id
                                && str_eq m.location pins.location)))))))

-- subject == expected_subject
unfoldable pub is_subject : String → String → Manifest → Json → Bool
is_subject request_id manifest_sha256 m subject =
    elim (exact_keys
      ("request_id" ∷ "provider_id" ∷ "tenant_id" ∷ "object_ids" ∷ "payload_sha256" ∷ "stage" ∷ [])
      subject) [
        | none ↦ false
        | some fs ↦
            text_is request_id (get_field "request_id" fs)
            && (text_is m.provider_id (get_field "provider_id" fs)
                && (text_is m.tenant_id (get_field "tenant_id" fs)
                    && (is_singleton m.object_id (get_field "object_ids" fs)
                        && (text_is manifest_sha256 (get_field "payload_sha256" fs)
                            && text_is "erasure" (get_field "stage" fs)))))
      ]

-- The body of the request, with its data.
pub record RequestBody : Type 0 where
  pub record_id : String
  pub evaluation_id : String
  pub recorded_at : String
  pub binding : Json
  pub requested_at : String
  pub requested_locations : List String

pub record AuthorizationBody : Type 0 where
  pub request_sha256 : String
  pub manifest_sha256 : String
  pub authorized_at : String
  pub valid_until : String

abbrev pub within : ℕ → ℕ → ℕ → Bool
within from at until = leb from at && ltb at until

module _ (lib : PilotLib) where
  -- `_key_time`
  unfoldable pub key_time : PinnedKey → ℕ → Bool
  key_time key at = elim (timestamp lib key.not_before) [
    | none ↦ false
    | some from ↦ (elim (timestamp lib key.not_after) [
      | none ↦ false
      | some until ↦ within from at until
    ])
  ]

  -- The tests of `validate_pins` on one key.
  abbrev valid_key : String → PinnedKey → Bool
  valid_key role key =
      digest_hex 32 key.public_key
      && (identifier key.issuer
          && (str_eq key.organization "single-local-controller"
              && (length key.roles == 1
                  && (member role key.roles && (elim (timestamp lib key.not_before) [
                    | none ↦ false
                    | some from ↦ (elim (timestamp lib key.not_after) [
                      | none ↦ false
                      | some until ↦ ltb from until
                    ])
                  ])))))

  -- `validate_pins`, on pins that have their fields: whether it returns.
  unfoldable pub validate_pins : Pins → Bool
  validate_pins pins =
      let ids = pins.requester.key_id ∷ pins.provider.key_id ∷ pins.observer.key_id ∷ [] in
      let keys =
        pins.requester.public_key ∷ pins.provider.public_key ∷ pins.observer.public_key ∷ [] in
      identifier pins.provider_id
      && (identifier pins.tenant_id
          && (str_eq pins.location location
              && (all identifier ids
                  && (distinct ids
                      && (valid_key "responder" pins.requester
                          && (valid_key "provider" pins.provider
                              && (valid_key "reviewer" pins.observer && distinct keys)))))))

  -- `validate_data` of a request: its time and locations.
  abbrev request_data : Json → Option (String × List String)
  request_data v = do
    fs ← exact_keys ("requested_at" ∷ "requested_locations" ∷ []) v
    requested_at ← text_field "requested_at" fs
    instant ← timestamp lib requested_at
    given ← get_field "requested_locations" fs
    locations ← strings lib.input given
    check (ltb 0 (length locations))
    some (requested_at, locations)

  -- `_record`, of the request
  unfoldable pub request_body : Pins → Json → Option RequestBody
  request_body pins envelope = do
    body ←
        verify_message lib record_prefix envelope pins.requester.public_key pins.requester.key_id
          "erasure.request"
    fs ←
        exact_keys
          ("record_id" ∷ "evaluation_id" ∷ "kind" ∷ "issuer" ∷ "recorded_at" ∷ "binding" ∷ "data"
            ∷ [])
          body
    record_id ← text_field "record_id" fs
    evaluation_id ← text_field "evaluation_id" fs
    issuer ← text_field "issuer" fs
    check (identifier record_id && (identifier evaluation_id && identifier issuer))
    check (str_eq issuer pins.requester.issuer)
    recorded_at ← text_field "recorded_at" fs
    recorded ← timestamp lib recorded_at
    check (key_time pins.requester recorded)
    binding ← get_field "binding" fs
    data_json ← get_field "data" fs
    (requested_at, locations) ← request_data data_json
    some (record {
      record_id = record_id;
      evaluation_id = evaluation_id;
      recorded_at = recorded_at;
      binding = binding;
      requested_at = requested_at;
      requested_locations = locations;
    })

  unfoldable pub authorization_body : Pins → Json → Option AuthorizationBody
  authorization_body pins envelope = do
    body ←
        verify_message lib domain envelope pins.requester.public_key pins.requester.key_id
          "deletion_authorization"
    fs ←
        exact_keys
          ("kind" ∷ "request_sha256" ∷ "manifest_sha256" ∷ "authorized_at" ∷ "valid_until" ∷ [])
          body
    request_sha256 ← text_field "request_sha256" fs
    manifest_sha256 ← text_field "manifest_sha256" fs
    check (digest_hex 32 request_sha256 && digest_hex 32 manifest_sha256)
    authorized_at ← text_field "authorized_at" fs
    valid_until ← text_field "valid_until" fs
    some (record {
      request_sha256 = request_sha256;
      manifest_sha256 = manifest_sha256;
      authorized_at = authorized_at;
      valid_until = valid_until;
    })

  -- `validate_task`
  unfoldable pub validate_task : Json → Pins → String → Option Context
  validate_task task pins at = do
    check (validate_pins pins)
    action_at ← timestamp lib at
    fs ← exact_keys ("format" ∷ "manifest" ∷ "request" ∷ "authorization" ∷ []) task
    check (text_is "incident-erasure-task/0.1" (get_field "format" fs))
    manifest_json ← get_field "manifest" fs
    manifest ← read_manifest manifest_json
    check (valid_manifest pins manifest)
    request_json ← get_field "request" fs
    request ← request_body pins request_json
    request_id ← text_at "request_id" request.binding
    check (identifier request_id)
    manifest_sha256 ← digest lib manifest_json
    check (is_subject request_id manifest_sha256 manifest request.binding)
    check (
        member location request.requested_locations
        && all (λ l. member l (location ∷ exclusions)) request.requested_locations)
    check (str_eq request.recorded_at request.requested_at)
    authorization_json ← get_field "authorization" fs
    authorization ← authorization_body pins authorization_json
    request_sha256 ← digest lib request_json
    check (
        str_eq authorization.request_sha256 request_sha256
        && (str_eq authorization.manifest_sha256 manifest_sha256
            && str_eq authorization.authorized_at request.requested_at))
    start ← timestamp lib authorization.authorized_at
    until ← timestamp lib authorization.valid_until
    check (within start action_at until)
    check (key_time pins.requester start && key_time pins.requester action_at)
    task_sha256 ← digest lib task
    some (record {
      request_id = request_id;
      evaluation_id = request.evaluation_id;
      subject = request.binding;
      operation_at = request.requested_at;
      valid_until = authorization.valid_until;
      task_sha256 = task_sha256;
      manifest_sha256 = manifest_sha256;
      request_record_id = request.record_id;
      manifest = manifest;
    })
