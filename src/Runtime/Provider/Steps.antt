-- ===== src/Runtime/Provider/Steps.antt =====
-- Every POST either leaves the provider's store as it was, but for the counter, or applies one new
-- payment of the request that was read.
use vap_spec.Base.{
  ℕ, ◌+◌, ◌≡◌, refl, Bool, true, false, Option, none, some, String, arith, str_eq, eq_iff,
  if◌then◌else◌, inl, inr, Bool-cases, Option-cases, ap,
}
use vap_spec.Runtime.Outcome.{Result, ok, err}
use vap_spec.Runtime.Request.Valid.{request_bytes-IsValid, IsValid-request, valid_request-accounts}
use vap_spec.Runtime.Json.{Json, load_json}
use vap_spec.Runtime.Request.{Request, Prepared, request_bytes, request_fields}
use vap_spec.Runtime.Receipt.{Platform, Status}
use vap_spec.Runtime.Rows.{transaction}
use vap_spec.Runtime.Provider.{ProviderConfig, ProviderStore, payment_body, apply_payment}
use vap_spec.Runtime.Provider.Http.{Weather, Post, Response, read_request, do_post, pay}
use vap_spec.Runtime.Provider.Ledger.{total, total-move}
use vap_spec.Runtime.Provider.Applied.{
  Applied, Ledger, not_moved, has_moved, replayed, applied, payment_body-eq-ok,
}

module _ (p : Platform) (config : ProviderConfig) where
  data Paid (now_ms : ℕ) (request : Prepared) (s s' : ProviderStore) : Type 0 where
    unchanged : s' ≡ s → Paid now_ms request s s'
    changed :
        (receipt : String) → Applied p config now_ms request s receipt s' → Paid now_ms request s s'

  committed :
      (now_ms : ℕ) (request : Prepared) (s : ProviderStore)
      → (r : Result ((String × Bool) × ProviderStore)) → payment_body p config now_ms request s ≡ r
      → Paid now_ms request s (transaction (λ _. r) s).1
  unfolding transaction
  committed now_ms request s (err e) h = unchanged refl
  committed now_ms request s (ok ((receipt, created), s')) h =
      elim (payment_body-eq-ok p config now_ms request s receipt created s' h) [
        | replayed scope row a b c d same ↦ unchanged same
        | applied is_new a ↦ changed receipt a
      ]

  apply_payment-Paid :
      (now_ms : ℕ) (request : Prepared) (s : ProviderStore)
      → Paid now_ms request s (apply_payment p config now_ms request s).1
  unfolding apply_payment
  apply_payment-Paid now_ms request s =
      committed now_ms request s (payment_body p config now_ms request s) refl

  -- What a POST does to the store.
  pub data Step (s s' : ProviderStore) : Type 0 where
    counted : (n : ℕ) → s' ≡ record s { post_attempts = n } → Step s s'
    paid :
        (n now_ms : ℕ) (raw : String) (request : Prepared) (receipt : String)
        → read_request p config raw ≡ some request
        → Applied p config now_ms request (record s { post_attempts = n }) receipt s'
        → Step s s'

  pay-Step :
      (w : Weather) (raw : String) (n : ℕ) (s : ProviderStore)
      → Step s (pay p config w (read_request p config raw) (record s { post_attempts = n })).1
  unfolding pay
  pay-Step w raw n s = elim (Option-cases (read_request p config raw)) [
    | inl e ↦ rw e (counted n refl)
    | inr (request, e) ↦ elim (Bool-cases w.payment_fails) [
      | inl fails ↦ rw (e, fails) (counted n refl)
      | inr works ↦
          rw (e, works)
            (elim (apply_payment-Paid w.now_ms request (record s { post_attempts = n })) [
              | unchanged same ↦ counted n same
              | changed receipt a ↦ paid n w.now_ms raw request receipt e a
            ])
    ]
  ]

  Step-if :
      (b : Bool) (s : ProviderStore) (x y : Option Response × ProviderStore)
      → Step s x.1
      → Step s y.1
      → Step s (if b then x else y).1
  Step-if true s x y hx hy = hx
  Step-if false s x y hx hy = hy

  pub do_post-Step :
      (w : Weather) (post : Post) (s : ProviderStore) → Step s (do_post p config w post s).1
  unfolding do_post
  do_post-Step w post s =
      let n = s.post_attempts in
      let as_it_was : Step s s = counted n refl in
      let one_more : Step s (record s { post_attempts = s.post_attempts + 1 }) =
        counted (n + 1) refl in
      search (Step-if, as_it_was, one_more, pay-Step w post.received (n + 1) s) depth 9

  -- What the provider read is the request of the bytes.
  record IsRead (raw : String) (request : Prepared) : Type 0 where
    bytes : request.raw ≡ raw
    loaded : load_json p.json raw ≡ some request.snapshot
    fields : request_fields request.snapshot ≡ some request.request
    canonical : request_bytes p.json request.snapshot ≡ some raw

  IsRead-bytes :
      (raw : String) (snapshot : Json) (r : Request) (request : Prepared)
      → load_json p.json raw ≡ some snapshot
      → request_fields snapshot ≡ some r
      → (bytes : Option String) → request_bytes p.json snapshot ≡ bytes
      → read_request p config raw ≡ some request
      → IsRead raw request
  unfolding read_request
  IsRead-bytes raw snapshot r request loaded fields none e h = ground arith
  IsRead-bytes raw snapshot r request loaded fields (some bytes) e h =
      ground (arith, eq_iff bytes raw)

  read_request-IsRead :
      (raw : String) (request : Prepared)
      → read_request p config raw ≡ some request
      → IsRead raw request
  unfolding read_request
  read_request-IsRead raw request h = elim (Option-cases (load_json p.json raw)) [
    | inl e ↦ ground arith
    | inr (snapshot, loaded) ↦ elim (Option-cases (request_fields snapshot)) [
      | inl e ↦ ground arith
      | inr (r, fields) ↦
          IsRead-bytes raw snapshot r request loaded fields (request_bytes p.json snapshot) refl h
    ]
  ]

  -- A request that the provider read has two different accounts.
  pub read_request-accounts :
      (raw : String) (request : Prepared)
      → read_request p config raw ≡ some request
      → str_eq request.request.source_account request.request.beneficiary ≡ false
  read_request-accounts raw request h =
      let r = read_request-IsRead raw request h in
      let v = request_bytes-IsValid p.json request.snapshot raw r.canonical in
      valid_request-accounts request.request
        (IsValid-request v request.snapshot request.request r.loaded r.fields)

  total-Ledger :
      (now_ms : ℕ) (request : Prepared) (s s' : ProviderStore) {status : Status}
      → str_eq request.request.source_account request.request.beneficiary ≡ false
      → Ledger p config now_ms request s s' status
      → total s'.balances ≡ total s.balances
  total-Ledger now_ms request s s' ne (not_moved e balances effects) = ap total balances
  total-Ledger now_ms request s s' ne (has_moved e m free effects) =
      total-move request.request s.balances ne m

  total-Step : {s s' : ProviderStore} → Step s s' → total s'.balances ≡ total s.balances
  total-Step (counted n e) = ap (λ (t : ProviderStore). total t.balances) e
  total-Step {s} {s'} (paid n now_ms raw request receipt e a) =
      total-Ledger now_ms request (record s { post_attempts = n }) s'
        (read_request-accounts raw request e) a.ledger

  -- Whatever a POST holds, in whatever order its handler fails, the sum of all balances in the
  -- provider's store is the same after it.
  pub total-do_post :
      (w : Weather) (post : Post) (s : ProviderStore)
      → total (do_post p config w post s).1.balances ≡ total s.balances
  total-do_post w post s = total-Step (do_post-Step w post s)
