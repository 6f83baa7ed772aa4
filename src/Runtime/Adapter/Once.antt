-- ===== src/Runtime/Adapter/Once.antt =====
-- At most one POST for each operation id and for each idempotency key.
use vap_spec.Base.{
  ℕ, ◌+◌, ◌≤◌, ◌≡◌, refl, ap, ◌∙◌, Bool, true, false, ◌&&◌, String, List, [], ◌∷◌, ◌++◌, map,
  map-append, arith, str_eq, eq_iff, if◌then◌else◌, inl, inr, Bool-cases,
}
use vap_spec.Runtime.Request.{Prepared}
use vap_spec.Runtime.Receipt.{Platform, bytes_digest, Status}
use vap_spec.Runtime.Rows.{Identity, overlaps, clashes, clashes_any}
use vap_spec.Runtime.Rows.Laws.{insert-eq_ok}
use vap_spec.Runtime.Journal.{Adapter, Dispatch, Journal, identity_of, new_row, finish, finish_all}
use vap_spec.Runtime.Adapter.{State}
use vap_spec.Runtime.Adapter.Changes.{Received, untouched, written, Claimed}
use vap_spec.Runtime.Adapter.Moves.{
  sent, Move, quiet, claimed_only, claimed_posted, Call, run, run_invariant,
}

-- The rows of a scope whose column has a value.
abbrev pub is_at : (Identity → String) → String → String → Identity → Bool
is_at column scope value r = str_eq r.scope scope && str_eq (column r) value

abbrev pub count_at : (Identity → String) → String → String → List Identity → ℕ
count_at column scope value [] = 0
count_at column scope value (r ∷ rows) =
    (if is_at column scope value r then 1 else 0) + count_at column scope value rows

-- The identities of the claims.
abbrev pub claims : Journal → List Identity
claims j = map identity_of j.dispatches

identities-finish_all :
    (status : Status) (receipt : String) (at_ms : ℕ) (d : String) (rows : List Dispatch)
    → map identity_of (finish_all status receipt at_ms d rows) ≡ map identity_of rows
unfolding finish_all finish
identities-finish_all status receipt at_ms d [] = refl
identities-finish_all status receipt at_ms d (r ∷ rows) =
    ground (arith, identities-finish_all status receipt at_ms d rows)

claims-Received :
    (p : Platform) (config : Adapter) (request : Prepared) (j j' : Journal)
    → Received p config request j j'
    → claims j' ≡ claims j
claims-Received p config request j j' (untouched e) = ap claims e
claims-Received p config request j j' (written status receipt at_ms e) =
    ap claims e
    ∙ identities-finish_all status receipt at_ms (bytes_digest p request.raw) j.dispatches

module _ (column : Identity → String) where
  count-append :
      (scope value : String) (xs ys : List Identity)
      → count_at column scope value (xs ++ ys)
        ≡ count_at column scope value xs + count_at column scope value ys
  count-append scope value [] ys = omega arith
  count-append scope value (x ∷ xs) ys = omega (arith, count-append scope value xs ys)

  module _
      (unique : (a b : Identity)
        → str_eq b.scope a.scope ≡ true
        → str_eq (column b) (column a) ≡ true
        → clashes a b ≡ true) where
    count-free :
        (scope value : String) (new : Identity) (rows : List Dispatch)
        → clashes_any identity_of new rows ≡ false
        → is_at column scope value new ≡ true
        → count_at column scope value (map identity_of rows) ≡ 0
    count-free scope value new [] free here = refl
    count-free scope value new (r ∷ rows) free here = ground (
      arith,
      unique new r.identity,
      eq_iff r.identity.scope scope,
      eq_iff new.scope scope,
      eq_iff r.identity.scope new.scope,
      eq_iff (column r.identity) value,
      eq_iff (column new) value,
      eq_iff (column r.identity) (column new),
      count-free scope value new rows,
    )

    -- At most one claim, and no more POSTs than claims, at each value of the column.
    record IsOnce (s : State) : Type 0 where
      claims_once : (scope value : String) → count_at column scope value (claims s.journal) ≤ 1
      posts_claimed :
          (scope value : String)
          → count_at column scope value s.posted ≤ count_at column scope value (claims s.journal)

    module _ (p : Platform) (config : Adapter) where
      Claimed-count :
          (request : Prepared) (at_ms : ℕ) (j j' : Journal) (scope value : String)
          → Claimed p config request at_ms j j'
          → count_at column scope value (claims j) ≤ 1
          → (count_at column scope value (claims j') ≤ 1)
            × (count_at column scope value (claims j')
                ≡ count_at column scope value (claims j)
                  + count_at column scope value (sent p config request ∷ []))
      unfolding new_row
      Claimed-count request at_ms j j' scope value c h =
          let new = new_row p config request at_ms in
          let (at_end, free) =
            insert-eq_ok identity_of config.scope request.request request.raw new j.dispatches
              j'.dispatches c.inserted in
          let rows : claims j' ≡ claims j ++ new.identity ∷ [] =
            ap (map identity_of) at_end ∙ map-append identity_of j.dispatches (new ∷ []) in
          let sum =
            ap (count_at column scope value) rows
            ∙ count-append scope value (claims j) (new.identity ∷ []) in
          elim (Bool-cases (is_at column scope value new.identity)) [
            | inl here ↦
                let z = count-free scope value new.identity j.dispatches free here in
                (ground (arith, sum, z, here), sum)
            | inr there ↦ (ground (arith, sum, there), sum)
          ]

      IsOnce-Move : (s s' : State) → Move p config s s' → IsOnce s → IsOnce s'
      IsOnce-Move s s' (quiet request r same) once = record {
        claims_once = λ scope value.
            rw (claims-Received p config request s.journal s'.journal r)
              (once.claims_once scope value);
        posts_claimed = λ scope value.
            rw (same, claims-Received p config request s.journal s'.journal r)
              (once.posts_claimed scope value);
      }
      IsOnce-Move s s' (claimed_only request at_ms c same) once = record {
        claims_once = λ scope value.
            (Claimed-count request at_ms s.journal s'.journal scope value c
              (once.claims_once scope value)).0;
        posts_claimed = λ scope value.
            let (le, sum) =
              Claimed-count request at_ms s.journal s'.journal scope value c
                (once.claims_once scope value) in
            let b = once.posts_claimed scope value in rw same (omega arith);
      }
      IsOnce-Move s s' (claimed_posted request at_ms j c r more) once = record {
        claims_once = λ scope value.
            rw (claims-Received p config request j s'.journal r)
              (Claimed-count request at_ms s.journal j scope value c
                (once.claims_once scope value)).0;
        posts_claimed = λ scope value.
            let (le, sum) =
              Claimed-count request at_ms s.journal j scope value c
                (once.claims_once scope value) in
            let b = once.posts_claimed scope value in
            rw (more, claims-Received p config request j s'.journal r, count-append, sum)
              (omega arith);
      }

      count-run :
          (calls : List Call) (s : State) (scope value : String)
          → IsOnce s
          → count_at column scope value (run p config calls s).posted ≤ 1
      count-run calls s scope value once =
          let after = run_invariant p config IsOnce IsOnce-Move calls s once in
          let a = after.claims_once scope value in
          let b = after.posts_claimed scope value in omega arith

by_operation :
    (a b : Identity)
    → str_eq b.scope a.scope ≡ true
    → str_eq b.operation_id a.operation_id ≡ true
    → clashes a b ≡ true
unfolding clashes overlaps
by_operation a b h k = ground arith

by_key :
    (a b : Identity)
    → str_eq b.scope a.scope ≡ true
    → str_eq b.idempotency_key a.idempotency_key ≡ true
    → clashes a b ≡ true
unfolding clashes overlaps
by_key a b h k = ground arith

-- No claims and no posts yet.
pub record IsFresh (s : State) : Type 0 where
  pub dispatches : s.journal.dispatches ≡ []
  pub posted : s.posted ≡ []

fresh-IsOnce :
    (column : Identity → String)
    (unique : (a b : Identity)
      → str_eq b.scope a.scope ≡ true
      → str_eq (column b) (column a) ≡ true
      → clashes a b ≡ true)
    (s : State)
    → IsFresh s
    → IsOnce column unique s
fresh-IsOnce column unique s f = record {
  claims_once = λ scope value. ground (arith, f.dispatches);
  posts_claimed = λ scope value. ground (arith, f.posted);
}

-- Start from a journal with no claims and nothing posted. Whatever submissions, reconciliations and
-- status reads follow, with any admission callbacks, any database failures, hooks that raise, and
-- any answers of the provider: for each operation id at most one POST is sent, and for each
-- idempotency key at most one.
pub run-posts_once :
    (p : Platform) (config : Adapter) (calls : List Call) (s : State) (value : String)
    → IsFresh s
    → (count_at (λ r. r.operation_id) config.scope value (run p config calls s).posted ≤ 1)
      × (count_at (λ r. r.idempotency_key) config.scope value (run p config calls s).posted ≤ 1)
run-posts_once p config calls s value f = (
  count-run (λ r. r.operation_id) by_operation p config calls s config.scope value
      (fresh-IsOnce _ by_operation s f),
  count-run (λ r. r.idempotency_key) by_key p config calls s config.scope value
      (fresh-IsOnce _ by_key s f),
)
