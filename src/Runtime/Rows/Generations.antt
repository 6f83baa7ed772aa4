-- ===== src/Runtime/Rows/Generations.antt =====
-- payment_runtime.py: the identity and the generation of a store over any number of openings.
use vap_spec.Base.{
  ◌≤◌, ◌≡◌, refl, ap, ◌∙◌, Bool, true, false, not, ◌&&◌, ◌||◌, ltb, ◌==◌, Option, some, String,
  List, [], ◌∷◌, str_eq, inl, inr, Bool-cases, arith,
}
use vap_spec.Runtime.Outcome.{value_error, Result, ok, err, ◌>>=◌, ◌>>◌, require}
use vap_spec.Runtime.Rows.{Generation, MetaTable, generation_step, open_meta}

abbrev or_kept : MetaTable → Result MetaTable → MetaTable
or_kept m (ok m') = m'
or_kept m (err e) = m

-- Openings of a store; one that raises leaves the table as it is.
abbrev pub open_run : List (String × Generation) → MetaTable → MetaTable
open_run [] m = m
open_run ((expected, new) ∷ rest) m = open_run rest (or_kept m (open_meta expected new m))

-- A table whose identity is fixed and whose generation is not before another.
pub record IsSince (identity : String) (g : Generation) (m : MetaTable) : Type 0 where
  pub same_identity : m.identity ≡ some identity
  pub generation : Generation
  pub stored : m.generation ≡ some generation
  pub later : g.recovery_epoch ≤ generation.recovery_epoch
  pub same_epoch :
      generation.recovery_epoch ≡ g.recovery_epoch
      → generation.configuration_digest ≡ g.configuration_digest

step-later :
    (new old : Generation) (x : Option Generation)
    → generation_step new (some old) ≡ ok x
    → (g : Generation) × (x ≡ some g)
      × (old.recovery_epoch ≤ g.recovery_epoch)
      × (g.recovery_epoch ≡ old.recovery_epoch → g.configuration_digest ≡ old.configuration_digest)
step-later new old x h =
    elim (Bool-cases (
      ltb new.recovery_epoch old.recovery_epoch
      || (new.recovery_epoch == old.recovery_epoch
          && not (str_eq new.configuration_digest old.configuration_digest)))) [
            | inl refused ↦ absurd (ground (arith, refused))
            | inr allowed ↦ elim (Bool-cases (ltb old.recovery_epoch new.recovery_epoch)) [
              | inl advances ↦ (
                new,
                ground (arith, allowed, advances),
                ground (arith, advances),
                λ e. absurd (ground (arith, advances, e)),
              )
              | inr stays ↦ (old, ground (arith, allowed, stays), omega arith, λ e. refl)
            ]
          ]

open_meta-some :
    (expected identity : String) (new old : Generation) (m : MetaTable)
    → m.identity ≡ some identity
    → m.generation ≡ some old
    → open_meta expected new m ≡ (
        require (str_eq identity expected) (value_error "persisted_store_identity_mismatch")
        >> (generation_step new (some old) >>= λ g.
            ok (record { identity = some identity; generation = g })))
unfolding open_meta
open_meta-some expected identity new old m i o =
    let first : Option String → MetaTable =
      λ x. record { identity = x; generation = m.generation } in
    let second : Option Generation → MetaTable =
      λ y. record { identity = some identity; generation = y } in
    ap (open_meta expected new) (ap first i ∙ ap second o)

open_meta-IsSince :
    (identity expected : String) (g new : Generation) (m : MetaTable)
    → IsSince identity g m
    → IsSince identity g (or_kept m (open_meta expected new m))
open_meta-IsSince identity expected g new m s =
    let e = open_meta-some expected identity new s.generation m s.same_identity s.stored in
    rw e (checked (str_eq identity expected) (generation_step new (some s.generation)) refl)
  where
    checked :
        (b : Bool) (r : Result (Option Generation))
        → generation_step new (some s.generation) ≡ r
        → IsSince identity g (
            or_kept m (
              require b (value_error "persisted_store_identity_mismatch")
              >> (r >>= λ x. ok (record { identity = some identity; generation = x }))))
    checked false r h = s
    checked true (err e) h = s
    checked true (ok x) h =
        let (g', there, later, same) = step-later new s.generation x h in
        let before = s.later in
        let fixed = s.same_epoch in
        record {
          same_identity = refl;
          generation = g';
          stored = there;
          later = omega arith;
          same_epoch = λ k. same (omega arith) ∙ fixed (omega arith);
        }

-- However often a store is opened, with whatever identities and generations: the identity that was
-- stored stays, the recovery epoch never goes back, and as long as the epoch is the same so is the
-- configuration digest.
pub open_run-IsSince :
    (identity : String) (g : Generation) (openings : List (String × Generation)) (m : MetaTable)
    → m.identity ≡ some identity
    → m.generation ≡ some g
    → IsSince identity g (open_run openings m)
open_run-IsSince identity g openings m i o = all_openings openings m (record {
  same_identity = i;
  generation = g;
  stored = o;
  later = omega arith;
  same_epoch = λ k. refl;
})
  where
    all_openings :
        (openings : List (String × Generation)) (m : MetaTable)
        → IsSince identity g m
        → IsSince identity g (open_run openings m)
    all_openings [] m s = s
    all_openings ((expected, new) ∷ rest) m s =
        all_openings rest _ (open_meta-IsSince identity expected g new m s)
