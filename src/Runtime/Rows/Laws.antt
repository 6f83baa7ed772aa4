-- ===== src/Runtime/Rows/Laws.antt =====
-- `_find` and INSERT together: a row that was found is found after every insertion, and a row that
-- was inserted is found.
use vap_spec.Base.{
  ◌≡◌, refl, ap, Bool, true, false, none, some, String, List, [], ◌∷◌, ◌++◌, arith, eq_iff, eq_refl,
  inl, inr, Bool-cases,
}
use vap_spec.Runtime.Outcome.{ok}
use vap_spec.Runtime.Request.{Request}
use vap_spec.Runtime.Rows.{Identity, select, overlaps, the_row, find, clashes, clashes_any, insert}

module _ {ℓ} {A : Type ℓ} where
  pub select-append :
      (p : A → Bool) (xs ys : List A) → select p (xs ++ ys) ≡ select p xs ++ select p ys
  unfolding select
  select-append p [] ys = refl
  select-append p (x ∷ xs) ys = elim (Bool-cases (p x)) [
    | inl in_it ↦ rw in_it (ap (λ l. x ∷ l) (select-append p xs ys))
    | inr out ↦ rw out (select-append p xs ys)
  ]

  select-holds :
      (p : A → Bool) (xs : List A) (x : A) (rest : List A) → select p xs ≡ x ∷ rest → p x ≡ true
  unfolding select
  select-holds p [] x rest h = cc
  select-holds p (y ∷ xs) x rest h = elim (Bool-cases (p y)) [
    | inl in_it ↦ ground arith
    | inr out ↦ select-holds p xs x rest (ground arith)
  ]

module _ {ℓ} {A : Type ℓ} (ident : A → Identity) where
  clashes_any-select :
      (new : Identity) (p : A → Bool) (rows : List A)
      → clashes_any ident new rows ≡ false
      → clashes_any ident new (select p rows) ≡ false
  unfolding select
  clashes_any-select new p [] h = refl
  clashes_any-select new p (r ∷ rows) h = elim (Bool-cases (p r)) [
    | inl in_it ↦ rw in_it (ground (arith, clashes_any-select new p rows))
    | inr out ↦ rw out (clashes_any-select new p rows (ground arith))
  ]

  module _ (scope : String) (request : Request) (raw : String) where
    abbrev pub mine : A → Bool
    mine r = overlaps scope request.operation_id request.idempotency_key (ident r)

    the_row-eq_none : (l : List A) → the_row ident request raw l ≡ ok none → l ≡ []
    unfolding the_row
    the_row-eq_none [] h = refl
    the_row-eq_none (r ∷ []) h = ground arith
    the_row-eq_none (r ∷ q ∷ l) h = cc

    pub find-eq_none :
        (rows : List A) → find ident scope request raw rows ≡ ok none → select mine rows ≡ []
    unfolding find
    find-eq_none rows h = the_row-eq_none (select mine rows) h

    pub record IsMine (row : A) : Type 0 where
      pub operation_id : (ident row).operation_id ≡ request.operation_id
      pub idempotency_key : (ident row).idempotency_key ≡ request.idempotency_key
      pub request_bytes : (ident row).request_bytes ≡ raw

    -- The row that `_find` returns is the request's own.
    pub record Found (rows : List A) (row : A) : Type ℓ where
      pub only : select mine rows ≡ row ∷ []
      pub own : IsMine row

    the_row-eq_some :
        (l : List A) (row : A)
        → the_row ident request raw l ≡ ok (some row)
        → (l ≡ row ∷ []) × IsMine row
    unfolding the_row
    the_row-eq_some [] row h = cc
    the_row-eq_some (r ∷ []) row h = ground (
      arith,
      eq_iff (ident r).operation_id request.operation_id,
      eq_iff (ident r).idempotency_key request.idempotency_key,
      eq_iff (ident r).request_bytes raw,
    )
    the_row-eq_some (r ∷ q ∷ l) row h = cc

    pub find-eq_some :
        (rows : List A) (row : A)
        → find ident scope request raw rows ≡ ok (some row)
        → Found rows row
    unfolding find
    find-eq_some rows row h =
        let (only, own) = the_row-eq_some (select mine rows) row h in
        record { only = only; own = own }

    -- The row that is there alone, and is the request's own, is found.
    pub find_only :
        (rows : List A) (row : A)
        → Found rows row
        → find ident scope request raw rows ≡ ok (some row)
    unfolding find
    find_only rows row f = rw (
      f.only, f.own.operation_id, f.own.idempotency_key, f.own.request_bytes, eq_refl, eq_refl,
      eq_refl,
    )

    pub mine-own : (row : A) → (ident row).scope ≡ scope → IsMine row → mine row ≡ true
    unfolding overlaps
    mine-own row e own = rw (e, own.operation_id, own.idempotency_key, eq_refl, eq_refl)

    pub insert-eq_ok :
        (new : A) (rows rows' : List A)
        → insert ident new rows ≡ ok rows'
        → (rows' ≡ rows ++ new ∷ []) × (clashes_any ident (ident new) rows ≡ false)
    unfolding insert
    insert-eq_ok new rows rows' h = ground arith

    clash_or_not :
        (row new : A)
        → mine row ≡ true
        → clashes_any ident (ident new) (row ∷ []) ≡ false
        → IsMine row
        → mine new ≡ false
    unfolding clashes overlaps
    clash_or_not row new held kept own = ground (
      arith,
      eq_iff (ident row).scope scope,
      eq_iff (ident new).scope scope,
      eq_iff (ident row).scope (ident new).scope,
      eq_iff (ident row).operation_id (ident new).operation_id,
      eq_iff (ident row).idempotency_key (ident new).idempotency_key,
      eq_iff (ident new).operation_id request.operation_id,
      eq_iff (ident new).idempotency_key request.idempotency_key,
    )

    not-mine :
        (rows : List A) (row new : A)
        → Found rows row
        → clashes_any ident (ident new) rows ≡ false
        → mine new ≡ false
    unfolding clashes overlaps
    not-mine rows row new f free =
        let held : mine row ≡ true = select-holds mine rows row [] f.only in
        let kept : clashes_any ident (ident new) (row ∷ []) ≡ false =
          rw f.only at (clashes_any-select (ident new) mine rows free) in
        clash_or_not row new held kept f.own

    -- A row that was inserted for the request is found.
    pub find-insert_new :
        (rows rows' : List A) (new : A)
        → find ident scope request raw rows ≡ ok none
        → insert ident new rows ≡ ok rows'
        → (ident new).scope ≡ scope
        → IsMine new
        → find ident scope request raw rows' ≡ ok (some new)
    find-insert_new rows rows' new absent h e own =
        let (at_end, free) = insert-eq_ok new rows rows' h in
        let one : select mine (new ∷ []) ≡ new ∷ [] = unfold select in rw (mine-own new e own) in
        let only : select mine rows' ≡ new ∷ [] =
          rw (at_end, select-append, find-eq_none rows absent) one in
        find_only rows' new (record { only = only; own = own })

    -- Whatever is inserted later, the row that was found is found again.
    pub find-insert_kept :
        (rows rows' : List A) (row new : A)
        → find ident scope request raw rows ≡ ok (some row)
        → insert ident new rows ≡ ok rows'
        → find ident scope request raw rows' ≡ ok (some row)
    find-insert_kept rows rows' row new h inserted =
        let f = find-eq_some rows row h in
        let (at_end, free) = insert-eq_ok new rows rows' inserted in
        let other : mine new ≡ false = not-mine rows row new f free in
        let none_more : select mine (new ∷ []) ≡ [] = unfold select in rw other in
        let only : select mine rows' ≡ row ∷ [] =
          rw (at_end, select-append, f.only, none_more) refl in
        find_only rows' row (record { only = only; own = f.own })
