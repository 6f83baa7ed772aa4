-- ===== src/Collector/Kept.antt =====
-- payment_collector.py: a collected package stays with its acknowledgment, and replays return it.
use mathlib.Core.Path.{subst}
use vap_spec.Base.{
  append-nil, ℕ, ◌≡◌, refl, sym, ap, ◌∙◌, Bool, true, false, not, Option, none, some, String, List,
  [], ◌∷◌, ◌++◌, str_eq, eq_iff, eq_refl, if◌then◌else◌, if-cases, inl, inr, Option-cases, arith,
}
use vap_spec.Runtime.Outcome.{value_error, Result, ok, err, ◌>>=◌, ◌>>◌, require, or_raise}
use vap_spec.Runtime.Receipt.{bytes_digest}
use vap_spec.Runtime.Rows.{transaction}
use vap_spec.Collector.{
  CollectorLib, Kind, admission_record, provider_receipt, Package, validate_package, sign_statement,
}
use vap_spec.Collector.Store.{
  CollectorConfig, CollectionRow, CollectorStore, is_at, find_record, insert_record, conflict,
  is_current_store, ack_json, collect_new, collect_found, collect_valid, collect, Post, Reply,
  do_post, serve_body, do_posts, same_kind,
}

pub bind-eq-ok {ℓ κ} :
    {A : Type ℓ} {B : Type κ} (m : Result A) (f : A → Result B) (b : B)
    → (m >>= f) ≡ ok b
    → (a : A) × (m ≡ ok a) × (f a ≡ ok b)
bind-eq-ok (err e) f b h = absurd cc
bind-eq-ok (ok a) f b h = (a, refl, h)

pub then-eq-ok {κ} :
    {B : Type κ} (m : Result (Unit {0})) (next : Result B) (b : B)
    → (m >> next) ≡ ok b
    → next ≡ ok b
then-eq-ok (err e) next b h = absurd cc
then-eq-ok (ok u) next b h = h

transaction-eq-ok :
    {A S : Type 0} (m : Result (A × S)) (s : S) (a : A)
    → (transaction (λ _. m) s).0 ≡ ok a
    → m ≡ ok (a, (transaction (λ _. m) s).1)
unfolding transaction
transaction-eq-ok (err e) s a h = absurd cc
transaction-eq-ok (ok (b, t)) s a h =
    let same : b ≡ a = ground (arith, h) in ap (λ x. ok (x, t)) same

transaction-keeps :
    {A S : Type 0} (P : S → Type 0) (m : Result (A × S)) (s : S)
    → P s
    → ((a : A) (t : S) → m ≡ ok (a, t) → P t)
    → P (transaction (λ _. m) s).1
unfolding transaction
transaction-keeps P (err e) s h f = h
transaction-keeps P (ok (a, t)) s h f = f a t refl

find_record-append :
    (d : String) (k : Kind) (rows more : List CollectionRow) (r : CollectionRow)
    → find_record d k rows ≡ some r
    → find_record d k (rows ++ more) ≡ some r
unfolding find_record
find_record-append d k [] more r h = absurd cc
find_record-append d k (o ∷ rows) more r h = ground (arith, find_record-append d k rows more r)

same_kind-own : (k : Kind) → same_kind k k ≡ true
same_kind-own admission_record = refl
same_kind-own provider_receipt = refl

is_at-own : (r : CollectionRow) → is_at r.request_digest r.kind r ≡ true
is_at-own r = ground (arith, eq_refl r.request_digest, same_kind-own r.kind)

find_record-new :
    (rows : List CollectionRow) (r : CollectionRow)
    → find_record r.request_digest r.kind rows ≡ none
    → find_record r.request_digest r.kind (rows ++ r ∷ []) ≡ some r
unfolding find_record
find_record-new [] r h = rw (is_at-own r) refl
find_record-new (o ∷ rows) r h = ground (arith, find_record-new rows r)

insert_record-eq-ok :
    (r : CollectionRow) (rows new : List CollectionRow)
    → insert_record r rows ≡ ok new
    → (new ≡ rows ++ r ∷ []) × (find_record r.request_digest r.kind new ≡ some r)
unfolding insert_record
insert_record-eq-ok r rows new h = elim (Option-cases (find_record r.request_digest r.kind rows)) [
  | inl free ↦
      let grown : new ≡ rows ++ r ∷ [] = ground (arith, free, h) in
      (grown, rw grown (find_record-new rows r free))
  | inr (o, taken) ↦ absurd (ground (arith, taken, h))
]

module _ (lib : CollectorLib) (config : CollectorConfig) where
  -- What came of a collection that returned: the row of the package, with its acknowledgment.
  pub record IsCollected (raw ack : String) (g : Package) (s s' : CollectorStore) : Type 0 where
    pub row : CollectionRow
    pub more : List CollectionRow
    pub grown : s'.records ≡ s.records ++ more
    pub found : find_record g.request_digest g.kind s'.records ≡ some row
    pub original : row.package_bytes ≡ raw
    pub acknowledged : row.ack_bytes ≡ ack

  -- An acknowledgment that is returned for a package is the one that is stored with it.
  abbrev Collects :
      String → Package → CollectorStore → Result (String × Bool) × CollectorStore → Type 0
  Collects raw g s (result, s') =
      (ack : String) (created : Bool) → result ≡ ok (ack, created) → IsCollected raw ack g s s'

  collect_new-eq-ok :
      (now_ms : ℕ) (g : Package) (raw ack : String) (created : Bool) (s s' : CollectorStore)
      → collect_new lib config now_ms g raw s ≡ ok ((ack, created), s')
      → IsCollected raw ack g s s'
  unfolding collect_new
  collect_new-eq-ok now_ms g raw ack created s s' h =
      let h0 =
        then-eq-ok
          (require (is_current_store lib config s.metadata) (value_error "stale_store_generation"))
          _ _ h in
      let (signed, e1, h1) =
        bind-eq-ok
          (or_raise (sign_statement lib (ack_json lib config now_ms g raw) config.private_key)
            (value_error "statement"))
          _ _ h0 in
      let row : CollectionRow = record {
        package_digest = bytes_digest lib.platform raw;
        request_digest = g.request_digest;
        kind = g.kind;
        package_bytes = raw;
        ack_bytes = signed;
      } in
      let (rows, e2, h2) = bind-eq-ok (insert_record row s.records) _ _ h1 in
      let (grown, found) = insert_record-eq-ok row s.records rows e2 in
      let same : rows ≡ s'.records = ground (arith, h2) in
      let same_ack : signed ≡ ack = ground (arith, h2) in
      record {
        row = row;
        more = row ∷ [];
        grown = sym same ∙ grown;
        found = subst (λ rs. find_record g.request_digest g.kind rs ≡ some row) same found;
        original = refl;
        acknowledged = same_ack;
      }

  collect_found-eq-ok :
      (now_ms : ℕ) (g : Package) (raw ack : String) (created : Bool) (old : Option CollectionRow)
      (s s' : CollectorStore)
      → find_record g.request_digest g.kind s.records ≡ old
      → collect_found lib config now_ms g raw old s ≡ ok ((ack, created), s')
      → IsCollected raw ack g s s'
  collect_found-eq-ok now_ms g raw ack created none s s' e h =
      collect_new-eq-ok now_ms g raw ack created s s' h
  collect_found-eq-ok now_ms g raw ack created (some row) s s' e h =
      let same : s ≡ s' = ground (arith, h) in
      record {
        row = row;
        more = [];
        grown = ap (λ t. t.records) (sym same) ∙ sym (append-nil s.records);
        found = subst (λ t. find_record g.request_digest g.kind t.records ≡ some row) same e;
        original = ground (arith, h, eq_iff row.package_bytes raw);
        acknowledged = ground (arith, h);
      }

  collect_valid-Collects :
      (now_ms : ℕ) (raw : String) (g : Package) (s : CollectorStore)
      → Collects raw g s (collect_valid lib config now_ms raw (some g) s)
  unfolding transaction
  collect_valid-Collects now_ms raw g s ack created h =
      let found = find_record g.request_digest g.kind s.records in
      let m = collect_found lib config now_ms g raw found s in
      collect_found-eq-ok now_ms g raw ack created found s (transaction (λ _. m) s).1 refl
        (transaction-eq-ok m s (ack, created) h)

  collected :
      (now_ms : ℕ) (raw ack : String) (created : Bool) (s : CollectorStore) (v : Option Package)
      → validate_package lib raw config.context ≡ v
      → (collect_valid lib config now_ms raw v s).0 ≡ ok (ack, created)
      → (g : Package) × (validate_package lib raw config.context ≡ some g)
        × IsCollected raw ack g s (collect_valid lib config now_ms raw v s).1
  collected now_ms raw ack created s none e h = absurd cc
  collected now_ms raw ack created s (some g) e h =
      (g, e, collect_valid-Collects now_ms raw g s ack created h)

  pub collect-IsCollected :
      (now_ms : ℕ) (raw ack : String) (created : Bool) (s : CollectorStore)
      → (collect lib config now_ms raw s).0 ≡ ok (ack, created)
      → (g : Package) × (validate_package lib raw config.context ≡ some g)
        × IsCollected raw ack g s (collect lib config now_ms raw s).1
  unfolding collect
  collect-IsCollected now_ms raw ack created s h =
      collected now_ms raw ack created s (validate_package lib raw config.context) refl h

  -- A collection keeps the rows that are there.
  abbrev Has : String → Kind → CollectionRow → CollectorStore → Type 0
  Has d k r s = find_record d k s.records ≡ some r

  collect_valid-Has :
      (now_ms : ℕ) (raw d : String) (k : Kind) (r : CollectionRow) (v : Option Package)
      (s : CollectorStore)
      → Has d k r s
      → Has d k r (collect_valid lib config now_ms raw v s).1
  unfolding transaction
  collect_valid-Has now_ms raw d k r none s h = h
  collect_valid-Has now_ms raw d k r (some g) s h =
      let old = find_record g.request_digest g.kind s.records in
      let m = collect_found lib config now_ms g raw old s in
      transaction-keeps (Has d k r) m s h (λ (ack, created) t e.
        let done = collect_found-eq-ok now_ms g raw ack created old s t refl e in
        subst (λ rows. find_record d k rows ≡ some r) (sym done.grown)
          (find_record-append d k s.records done.more r h))

  serve_body-Has :
      (post : Post lib config) (body : Option String) (d : String) (k : Kind) (r : CollectionRow)
      (s : CollectorStore)
      → Has d k r s
      → Has d k r (serve_body lib config post body s).1
  unfolding collect
  serve_body-Has post none d k r s h = h
  serve_body-Has post (some raw) d k r s h =
      collect_valid-Has post.now_ms raw d k r (validate_package lib raw config.context) s h

  do_post-Has :
      (post : Post lib config) (d : String) (k : Kind) (r : CollectionRow) (s : CollectorStore)
      → Has d k r s
      → Has d k r (do_post lib config post s).1
  unfolding do_post
  do_post-Has post d k r s h =
      let kept : Reply lib config × CollectorStore → Type 0 = λ x. Has d k r x.1 in
      if-cases kept (not (str_eq post.path "/collections")) _ _ (λ elsewhere. h)
        (λ here.
          if-cases kept post.count_fails _ _ (λ fails. h)
            (λ works.
              if-cases kept (not post.is_authorized) _ _ (λ unknown. h)
                (λ known. serve_body-Has post post.body d k r _ h)))

  do_posts-Has :
      (posts : List (Post lib config)) (d : String) (k : Kind) (r : CollectionRow)
      (s : CollectorStore)
      → Has d k r s
      → Has d k r (do_posts lib config posts s)
  do_posts-Has [] d k r s h = h
  do_posts-Has (post ∷ rest) d k r s h =
      do_posts-Has rest d k r (do_post lib config post s).1 (do_post-Has post d k r s h)

  collect-Has :
      (now_ms : ℕ) (raw : String) (g : Package) (row : CollectionRow) (s : CollectorStore)
      → validate_package lib raw config.context ≡ some g
      → Has g.request_digest g.kind row s
      → collect lib config now_ms raw s ≡ (
        if str_eq row.package_bytes raw
            then ok (row.ack_bytes, false)
            else err (value_error conflict),
        s,
      )
  unfolding collect transaction
  collect-Has now_ms raw g row s e h = ground (arith, e, h)

-- Once a package was collected, whatever is posted to the collector afterwards, a valid package of
-- the same request and kind adds nothing: it is answered with the acknowledgment that was given
-- where its bytes are those that were collected, and refused as a conflict where they are others.
pub collect-replay :
    (lib : CollectorLib) (config : CollectorConfig) (now_ms later_ms : ℕ) (raw other ack : String)
    (created : Bool) (posts : List (Post lib config)) (s : CollectorStore) (g h : Package)
    → (collect lib config now_ms raw s).0 ≡ ok (ack, created)
    → validate_package lib raw config.context ≡ some g
    → validate_package lib other config.context ≡ some h
    → h.request_digest ≡ g.request_digest
    → h.kind ≡ g.kind
    → collect lib config later_ms other
        (do_posts lib config posts (collect lib config now_ms raw s).1)
      ≡ (
        if str_eq raw other then ok (ack, false) else err (value_error conflict),
        do_posts lib config posts (collect lib config now_ms raw s).1,
      )
collect-replay lib config now_ms later_ms raw other ack created posts s g h e valid valid_other
      same_digest same_kind =
    let (g', valid', done) = collect-IsCollected lib config now_ms raw ack created s e in
    let t = do_posts lib config posts (collect lib config now_ms raw s).1 in
    let kept =
      do_posts-Has lib config posts g'.request_digest g'.kind done.row
        (collect lib config now_ms raw s).1 done.found in
    let same : g ≡ g' = cc in
    let at_digest = same_digest ∙ ap (λ x. x.request_digest) same in
    let at_kind = same_kind ∙ ap (λ x. x.kind) same in
    let there : find_record h.request_digest h.kind t.records ≡ some done.row =
      ap (λ d. find_record d h.kind t.records) at_digest
      ∙ (ap (λ k. find_record g'.request_digest k t.records) at_kind ∙ kept) in
    collect-Has lib config later_ms other h done.row t valid_other there
    ∙ (ap
          (λ x. (
            if str_eq x other then ok (done.row.ack_bytes, false) else err (value_error conflict),
            t,
          ))
          done.original
        ∙ ap (λ a. (if str_eq raw other then ok (a, false) else err (value_error conflict), t))
            done.acknowledged)
