-- ===== src/Runtime/Provider/Effects.antt =====
-- The provider's effects: one for each settled payment and none for a failed one.
use vap_spec.Base.{
  ℕ, ◌+◌, ◌≤◌, ◌≡◌, refl, false, String, List, [], ◌∷◌, ◌++◌, arith, str_eq, eq_iff, sym,
  if◌then◌else◌, ◌∙◌, ap, length, length-append, inl, inr, Bool-cases,
}
use vap_spec.Runtime.Request.{Prepared}
use vap_spec.Runtime.Receipt.{Platform, Status, settled, failed}
use vap_spec.Runtime.Rows.Laws.{insert-eq_ok}
use vap_spec.Runtime.Provider.{ProviderConfig, ProviderStore, Payment, Effect, has_effect}
use vap_spec.Runtime.Provider.Http.{Weather, Post, do_post}
use vap_spec.Runtime.Provider.Applied.{payment_row, effect_of, Ledger, not_moved, has_moved}
use vap_spec.Runtime.Provider.Steps.{Step, counted, paid, do_post-Step}
use vap_spec.Runtime.Provider.Replay.{serve}

abbrev pub is_settled : Status → ℕ
is_settled settled = 1
is_settled failed = 0

-- SELECT count(*) FROM payments WHERE status='settled'
abbrev pub settled_count : List Payment → ℕ
settled_count [] = 0
settled_count (q ∷ rest) = is_settled q.status + settled_count rest

-- The effects with a digest.
abbrev pub effect_count : String → List Effect → ℕ
effect_count d [] = 0
effect_count d (e ∷ rest) = (if str_eq e.request_digest d then 1 else 0) + effect_count d rest

settled_count-append :
    (xs ys : List Payment) → settled_count (xs ++ ys) ≡ settled_count xs + settled_count ys
settled_count-append [] ys = omega arith
settled_count-append (x ∷ xs) ys = omega (arith, settled_count-append xs ys)

effect_count-append :
    (d : String) (xs ys : List Effect)
    → effect_count d (xs ++ ys) ≡ effect_count d xs + effect_count d ys
effect_count-append d [] ys = omega arith
effect_count-append d (x ∷ xs) ys = omega (arith, effect_count-append d xs ys)

effect_count-absent :
    (d : String) (xs : List Effect) → has_effect d xs ≡ false → effect_count d xs ≡ 0
unfolding has_effect
effect_count-absent d [] h = refl
effect_count-absent d (x ∷ xs) h = ground (arith, effect_count-absent d xs)

-- As many effects as settled payments, and one at most for each request digest.
pub record IsConsistent (s : ProviderStore) : Type 0 where
  pub matched : settled_count s.payments ≡ length s.effects
  pub once : (d : String) → effect_count d s.effects ≤ 1

module _ (p : Platform) (config : ProviderConfig) where
  once-append :
      (d : String) (e : Effect) (effects : List Effect)
      → has_effect e.request_digest effects ≡ false
      → effect_count d effects ≤ 1
      → effect_count d (effects ++ e ∷ []) ≤ 1
  once-append d e effects free h = elim (Bool-cases (str_eq e.request_digest d)) [
    | inl same ↦
        let e1 : e.request_digest ≡ d = (eq_iff e.request_digest d).0 same in
        let z = effect_count-absent d effects (ap (λ x. has_effect x effects) (sym e1) ∙ free) in
        rw effect_count-append (rw same (omega arith))
    | inr other ↦ rw effect_count-append (rw other (omega arith))
  ]

  IsConsistent-Ledger :
      (now_ms : ℕ) (request : Prepared) (s s' : ProviderStore) (status : Status)
      (scope receipt : String)
      → s'.payments ≡ s.payments ++ payment_row p config now_ms scope request status receipt ∷ []
      → Ledger p config now_ms request s s' status
      → IsConsistent s
      → IsConsistent s'
  IsConsistent-Ledger now_ms request s s' status scope receipt rows (not_moved e b effects) c =
      record {
        matched = rw (rows, effects, settled_count-append, e) (let m = c.matched in omega arith);
        once = λ d. rw effects (c.once d);
      }
  IsConsistent-Ledger now_ms request s s' status scope receipt rows (has_moved e m free effects) c =
      record {
        matched =
            rw (rows, effects, settled_count-append, e)
              (let m = c.matched in
                omega (arith, length-append s.effects (effect_of p config now_ms request ∷ [])));
        once = λ d.
            rw effects
              (once-append d (effect_of p config now_ms request) s.effects free (c.once d));
      }

  IsConsistent-Step : {s s' : ProviderStore} → Step p config s s' → IsConsistent s → IsConsistent s'
  IsConsistent-Step {s} {s'} (counted n e) c = record {
    matched = rw e c.matched;
    once = λ d. rw e (c.once d);
  }
  IsConsistent-Step {s} {s'} (paid n now_ms raw request receipt e a) c =
      IsConsistent-Ledger now_ms request (record s { post_attempts = n }) s' a.status a.scope
        receipt
        (insert-eq_ok (λ (q : Payment). q.identity) a.scope request.request request.raw _ s.payments
          s'.payments a.inserted).0
        a.ledger (record { matched = c.matched; once = c.once })

  -- From a store that has as many effects as settled payments, and at most one effect for each
  -- request digest, every sequence of POSTs leads to such a store.
  pub IsConsistent-serve :
      (posts : List (Weather × Post)) (s : ProviderStore)
      → IsConsistent s
      → IsConsistent (serve p config posts s)
  IsConsistent-serve [] s c = c
  IsConsistent-serve ((w, post) ∷ rest) s c =
      IsConsistent-serve rest (do_post p config w post s).1
        (IsConsistent-Step (do_post-Step p config w post s) c)
