-- ===== src/Runtime/Provider/Http.antt =====
-- payment_runtime.py: do_POST, do_GET and the lookup. A fault hook that raises and a database error
-- of the environment are the call's flags; `none` is a dropped connection.
use mathlib.Core.Option
use Prim.Native.String.{◌++◌ as str_append}
use vap_spec.Base.{
  ℕ, ◌+◌, Bool, true, false, not, ◌&&◌, ◌||◌, Option, none, some, String, List, [], ◌∷◌, ltb, leb,
  ◌==◌, str_eq, if◌then◌else◌, length, codes, all,
}
use vap_spec.Runtime.Outcome.{value_error, db_error, blocked, fault, Result, ok, err}
use vap_spec.Runtime.Json.{text, dict, end, field, canonical_json, load_json, max_body}
use vap_spec.Runtime.Request.{
  Prepared, request_fields, request_bytes, same_scope, is_text, is_hash, number,
}
use vap_spec.Runtime.Receipt.{Platform}
use vap_spec.Runtime.Rows.{select, overlaps, conflict}
use vap_spec.Runtime.Provider.{ProviderConfig, ProviderStore, Payment, scope_of, apply_payment}

pub record Response : Type 0 where
  pub status : ℕ
  pub raw : String

-- What the handler reads of a POST: `received` is what came of the body.
pub record Post : Type 0 where
  pub path : String
  pub authorization : List String
  pub content_length : List String
  pub transfer_encoding : Option String
  pub received : String

-- What the environment does during a call.
pub record Weather : Type 0 where
  pub now_ms : ℕ
  pub metric_fails : Bool
  pub payment_fails : Bool
  pub hook_raises : Bool
  pub drop_after_commit : Bool

abbrev is_decimal : String → Bool
is_decimal s = let cs = codes s in ltb 0 (length cs) && all (λ c. leb 48 c && leb c 57) cs

module _ (p : Platform) (config : ProviderConfig) where
  abbrev error : ℕ → String → Option Response
  error status message = some (record {
    status = status;
    raw = Option.get_or (canonical_json p.json (dict (field "error" (text message) end))) "";
  })

  -- hmac.compare_digest(supplied, "Bearer " + credential), for one header in ASCII
  unfoldable pub is_authorized : List String → Bool
  is_authorized [] = false
  is_authorized (supplied ∷ []) =
      all (λ c. ltb c 128) (codes supplied)
      && str_eq supplied (str_append "Bearer " config.credential)
  is_authorized (supplied ∷ other ∷ rest) = false

  abbrev has_length : Post → Bool
  has_length post = elim post.content_length [
    | [] ↦ false
    | n ∷ more ↦ (elim more [
      | [] ↦
          is_decimal n
          && (ltb 0 (number 0 (codes n)) && leb (number 0 (codes n)) max_body)
          && (elim post.transfer_encoding [ none ↦ true | some t ↦ false ])
      | m ∷ r ↦ false
    ])
  ]

  abbrev is_complete : Post → Bool
  is_complete post = elim post.content_length [
    | [] ↦ false
    | n ∷ more ↦ length (codes post.received) == number 0 (codes n)
  ]

  -- load_json, request_bytes(request) != raw and `_check_scope`
  unfoldable pub read_request : String → Option Prepared
  read_request raw = elim (load_json p.json raw) [
    | none ↦ none
    | some snapshot ↦ (elim (request_fields snapshot) [
      | none ↦ none
      | some r ↦ (elim (request_bytes p.json snapshot) [
        | none ↦ none
        | some bytes ↦
            if str_eq bytes raw && same_scope r config.context
            then some (record { snapshot = snapshot; request = r; raw = raw })
            else none
      ])
    ])
  ]

  -- The answer to a payment, and the handlers of its exceptions.
  abbrev answer : Weather → Result (String × Bool) → Option Response
  answer w (ok (receipt, created)) =
      if created && (w.hook_raises || w.drop_after_commit)
      then none
      else some (record { status = 200; raw = receipt })
  answer w (err (value_error message)) =
      if str_eq message conflict
      then error 409 "identity_conflict"
      else error 400 "request_rejected"
  answer w (err db_error) = none
  answer w (err (blocked d)) = none
  answer w (err fault) = none

  unfoldable pub pay : Weather → Option Prepared → ProviderStore → Option Response × ProviderStore
  pay w none s = (error 400 "request_rejected", s)
  pay w (some request) s =
      if w.payment_fails
      then (none, s)
      else let (r, s') = apply_payment p config w.now_ms request s in (answer w r, s')

  unfoldable pub do_post : Weather → Post → ProviderStore → Option Response × ProviderStore
  do_post w post s =
      let counted = record s { post_attempts = s.post_attempts + 1 } in
      if not (str_eq post.path "/payments")
      then (error 404 "unsupported_path", s)
      else if w.metric_fails
      then (none, s)
      else if not (is_authorized post.authorization)
      then (error 401 "ephemeral_credential_required", counted)
      else if not (has_length post)
      then (error 400 "body_length_or_transfer_encoding", counted)
      else if not (is_complete post)
      then (error 400 "incomplete_request_body", counted)
      else pay w (read_request post.received) counted

  -- A query whose fields each have one value, as `parse_qs` gives it.
  abbrev Query : Type 0
  Query = record { operation_id : String; idempotency_key : String; request_digest : String }

  unfoldable pub lookup_rows : String → String → String → List Payment → Option Response
  lookup_rows operation_id key digest [] = error 404 "not_observed_in_this_store"
  lookup_rows operation_id key digest (row ∷ []) =
      if str_eq row.identity.operation_id operation_id
        && (str_eq row.identity.idempotency_key key && str_eq row.identity.request_digest digest)
      then some (record { status = 200; raw = row.receipt_bytes })
      else error 409 conflict
  lookup_rows operation_id key digest (row ∷ other ∷ rest) = error 409 conflict

  -- `_lookup_payment`, for a query that has its three fields once each.
  unfoldable pub lookup_payment : String → String → String → ProviderStore → Option Response
  unfolding lookup_rows
  lookup_payment operation_id key digest s =
      if not (is_text operation_id && (is_text key && is_hash digest))
      then error 400 "lookup_query_shape"
      else elim (scope_of p config.context) [
        | none ↦ error 400 "lookup_query_shape"
        | some scope ↦
            lookup_rows operation_id key digest
              (select (λ (q : Payment). overlaps scope operation_id key q.identity) s.payments)
      ]
