-- ===== src/Erasure/Erased.antt =====
-- provider.py: what `delete` does to the namespace, and what a confirmed unlink means.
use mathlib.Core.Path.{subst}
use vap_spec.Base.{
  ℕ, ◌≡◌, ◌≢◌, ◌⊎◌, refl, sym, ap, ◌∙◌, Bool, true, false, ◌&&◌, Option, some, String, List, [],
  eq_iff, ==_iff, inl, inr, Option-cases, arith,
}
use vap_spec.Runtime.Json.{Json}
use vap_spec.Runtime.Request.{check}
use vap_spec.RecordGate.Audit.Once.{bind-eq_some}
use vap_spec.Gate.Policy.{lookup}
use vap_spec.Pilot.{PilotLib, byte_length}
use vap_spec.Pilot.Files.{File, remove_name}
use vap_spec.Erasure.Task.{Context, Manifest, validate_task}
use vap_spec.Erasure.{End, local_unlink_confirmed, final, ErasureResult, valid_result}
use vap_spec.Erasure.Delete.{
  World, Env, Provider, Call, Measurement, is_expected, is_absent, measure, persist, observe,
  final_tests, event_time, captured, deleted, delete, delete_task,
}
use vap_spec.Erasure.Exits.{Stages, Exit, idle, held, tried, delete_task-Exit}

-- An environment without other processes.
abbrev pub alone : Env → Env
alone env = record env {
  at_start = [];
  at_claim = [];
  at_hook = [];
  at_race = [];
  at_absence = [];
  at_finish = [];
}

abbrev pub alone_call : Call → Call
alone_call c = record c { env = alone c.env }

checked : (b : Bool) (u : Unit) → check b ≡ some u → b ≡ true
checked true u h = refl
checked false u h = absurd cc

module _ (lib : PilotLib) where
  -- The object of the manifest is under the name.
  abbrev pub HasObject : Manifest → String → List (String × File) → Type 0
  HasObject m name namespace =
      (f : File) × (lookup name namespace ≡ some f)
      × (lib.sha256 f.bytes ≡ m.sha256)
      × (byte_length f.bytes ≡ m.byte_length)

  -- The namespace is as it was and no unlink is confirmed, or the object was there as it is bound,
  -- its name alone is removed, and the result says that os.unlink was tried.
  abbrev pub Erases :
      Manifest → String → List (String × File) → ErasureResult → List (String × File) → Type 0
  Erases m name old r new =
      ((new ≡ old) × (r.state ≢ final local_unlink_confirmed))
      ⊎ (HasObject m name old × (new ≡ remove_name name old) × (r.attempted ≡ true))

  measure-expected :
      (works : Bool) (m : Manifest) (name : String) (namespace : List (String × File))
      (measured : Measurement) (identity : Option ℕ)
      → measure lib works name namespace ≡ some (measured, identity)
      → is_expected m measured ≡ true
      → HasObject m name namespace
  unfolding measure
  measure-expected works m name namespace measured identity h e =
      elim (Option-cases (lookup name namespace)) [
        | inl gone ↦ absurd (ground (arith, gone, h, e))
        | inr (f, there) ↦ (
          f,
          there,
          ground (arith, there, h, e, eq_iff (lib.sha256 f.bytes) m.sha256),
          ground (arith, there, h, e, ==_iff (byte_length f.bytes) m.byte_length),
        )
      ]

  measure-absent :
      (works : Bool) (name : String) (namespace : List (String × File)) (f : File)
      (measured : Measurement) (identity : Option ℕ)
      → lookup name namespace ≡ some f
      → measure lib works name namespace ≡ some (measured, identity)
      → is_absent measured ≡ false
  unfolding measure
  measure-absent works name namespace f measured identity there h = ground (arith, there, h)

  module _ (config : Provider) (given : Call) (context : Context) (name : String) where
    abbrev c : Call
    c = alone_call given

    final_tests-HasObject :
        (identity : Option ℕ) (at unlinked_at : String) (namespace : List (String × File))
        → final_tests lib config c.env context c.task name identity at namespace ≡ some unlinked_at
        → HasObject context.manifest name namespace
    unfolding final_tests
    final_tests-HasObject identity at unlinked_at namespace h =
        let (final_at, e0, h0) = bind-eq_some (event_time lib config c.env.clock_final at) _ _ h in
        let (current, e1, h1) =
          bind-eq_some (validate_task lib c.task config.pins final_at) _ _ h0 in
        let ((measured, found), e2, h2) =
          bind-eq_some (measure lib c.env.measures_again name namespace) _ _ h1 in
        let (u, e3, h3) = bind-eq_some (check (is_expected context.manifest measured)) _ _ h2 in
        measure-expected c.env.measures_again context.manifest name namespace measured found e2
          (checked _ u e3)

    observe-gone :
        (unlinked_at : String) (namespace : List (String × File)) (evidence : Json × Json)
        (f : File)
        → observe lib config c.env context name unlinked_at namespace ≡ some evidence
        → lookup name namespace ≢ some f
    unfolding observe
    observe-gone unlinked_at namespace evidence f h there =
        let (u, e0, h0) = bind-eq_some (check c.env.after_unlink_returns) _ _ h in
        let ((measured, identity), e1, h1) =
          bind-eq_some (measure lib c.env.measures_absence name namespace) _ _ h0 in
        let (v, e2, h2) =
          bind-eq_some (check (is_absent measured && c.env.namespace_stays)) _ _ h1 in
        let gone = checked _ v e2 in
        let still =
          measure-absent c.env.measures_absence name namespace f measured identity there e1 in
        absurd (ground (arith, gone, still))

    persist-namespace :
        (e : End) (r : ErasureResult) (w : World)
        → (persist lib config c.env context e r w).1.namespace ≡ w.namespace
    unfolding persist
    persist-namespace e r w = refl

    persist-confirmed :
        (e : End) (r : ErasureResult) (w : World)
        → (persist lib config c.env context e r w).0.state ≡ final local_unlink_confirmed
        → e ≡ local_unlink_confirmed
    unfolding persist
    persist-confirmed e r w h = ground (arith, h)

    persist-attempted :
        (e : End) (r : ErasureResult) (w : World)
        → (persist lib config c.env context e r w).0.attempted ≡ r.attempted
    unfolding persist
    persist-attempted e r w = ground arith

    module _ (start : World) where
      abbrev IsSame : World → Type 0
      IsSame w = w.namespace ≡ start.namespace

      abbrev WasThere : Type 0
      WasThere = HasObject context.manifest name start.namespace

      abbrev stages : Stages lib config c context name
      stages = record {
        Before = IsSame;
        Claimed = IsSame;
        Tested = λ w. IsSame w × WasThere;
        Tried = λ w.
            (IsSame w × WasThere) ⊎ ((w.namespace ≡ remove_name name start.namespace) × WasThere);
        starts = λ w h. h;
        waits = λ w h. h;
        refused = λ w h. h;
        granted = λ w h g. h;
        hooks = λ w h. h;
        tests = λ w identity at u h e. (
          h,
          subst (HasObject context.manifest name) h
              (final_tests-HasObject identity at u w.namespace e),
        );
        tries = λ w h. inl h;
        unlinks = λ w h. inr (ap (remove_name name) (h.0), h.1);
        waits_again = λ w h. h;
      }

      unconfirmed :
          (r : ErasureResult)
          → r.attempted ≡ false
          → valid_result r ≡ true
          → r.state ≢ final local_unlink_confirmed
      unfolding valid_result
      unconfirmed r still valid h = absurd (ground (arith, still, valid, h))

      exit-Erases :
          (x : ErasureResult × World)
          → Exit lib config c context name stages x
          → Erases context.manifest name start.namespace x.0 x.1.namespace
      exit-Erases x (idle r w still valid h) = inl (h, unconfirmed r still valid)
      exit-Erases x (held e r w still valid h) = inl (
        persist-namespace e r w ∙ h,
        λ k.
            unconfirmed (record r { state = final e }) still valid
              (ap final (persist-confirmed e r w k)),
      )
      exit-Erases x (tried e r w now valid seen (inr (gone, was))) =
          inr (was, persist-namespace e r w ∙ gone, persist-attempted e r w ∙ now)
      exit-Erases x (tried e r w now valid seen (inl (same, (f, there, digest, size)))) = inl (
        persist-namespace e r w ∙ same,
        λ k.
            let (u, receipt, attestation, observed, a, b) = seen (persist-confirmed e r w k) in
            observe-gone u w.namespace (receipt, attestation) f observed
              (ap (lookup name) same ∙ there),
      )

module _ (lib : PilotLib) (config : Provider) where
  deleted-Erases :
      (c : Call) (context : Context) (name : String) (w : World) (r : ErasureResult)
      → (deleted lib config (alone_call c) (some (context, name)) w).0 ≡ some r
      → Erases lib context.manifest name w.namespace r
          (deleted lib config (alone_call c) (some (context, name)) w).1.namespace
  deleted-Erases c context name w r h =
      let (result, w') = delete_task lib config (alone_call c) context name w in
      let same : result ≡ r = cc in
      subst (λ v. Erases lib context.manifest name w.namespace v w'.namespace) same
        (exit-Erases lib config c context name w _ (
          delete_task-Exit lib config (alone_call c) context name
            (stages lib config c context name w) w refl))

-- Where no other process changes the namespace, for a task of which `name` is the object's name:
-- `delete` leaves the namespace as it was and confirms nothing, or the object was there with the
-- digest and the length that the manifest binds, only its name is removed, and the result reports
-- the attempt.
pub delete-Erases :
    (lib : PilotLib) (config : Provider) (c : Call) (context : Context) (name : String) (w : World)
    (r : ErasureResult)
    → captured lib config c ≡ some (context, name)
    → (delete lib config (alone_call c) w).0 ≡ some r
    → Erases lib context.manifest name w.namespace r
        (delete lib config (alone_call c) w).1.namespace
unfolding delete captured
delete-Erases lib config c context name w r e h =
    subst
      (λ found.
        (deleted lib config (alone_call c) found w).0 ≡ some r
        → Erases lib context.manifest name w.namespace r
            (deleted lib config (alone_call c) found w).1.namespace)
      (sym e) (deleted-Erases lib config c context name w r) h
