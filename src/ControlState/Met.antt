-- ===== src/ControlState/Met.antt =====
-- control_evidence.py: what a judgment that the paths are closed means.
use mathlib.Core.Path.{subst}
use vap_spec.Base.{
  Bool, &&-eq-true, ◌-◌, ltb, ℕ, suc, ◌+◌, ◌≤◌, ◌<◌, ◌≡◌, ◌≢◌, ◌↔◌, refl, sym, ap, ◌∙◌, true, false,
  ◌&&◌, Option, none, some, String, List, [], ◌∷◌, all, any, All, arith, length, codes, eq_iff,
  eq_refl, str_eq, inl, inr, Option-cases,
}
use vap_spec.Runtime.Json.{Json, int, negative, bool, text, list, dict, Items, nil, cons, Fields}
use vap_spec.Gate.Policy.{member, distinct}
use vap_spec.RecordGate.Envelope.{get, has_text, as_text}
use vap_spec.RecordGate.Authority.{text_items}
use vap_spec.RecordGate.Audit.Once.{bind-eq_some}
use vap_spec.ControlState.{
  met_for_declared_paths, path_scope, as_clock, path_says, judge_paths, judge_observations,
  judge_window, measured_age, judge_clock, judge_scope, preflight, nonempty, age, is_bool,
}

-- The target of a path is healthy and the path does not reach it, as the observation has it.
pub record IsClosed (paths : Fields) (p : String) : Type 0 where
  pub path : Json
  pub observed : get p (dict paths) ≡ some path
  pub unreachable : get "reachable" path ≡ some (bool false)
  pub healthy : get "target_healthy" path ≡ some (bool true)

-- A measurement at or before `now`, by at most `max_age`; `negative n` is -(n + 1).
pub data IsRecent (now max_age : ℕ) : Json → Type 0 where
  since_zero : (n : ℕ) → n ≤ now → now ≤ n + max_age → IsRecent now max_age (int n)
  before_zero : (n : ℕ) → now + suc n ≤ max_age → IsRecent now max_age (negative n)

abbrev pub text_list : List String → Items
text_list [] = nil
text_list (s ∷ rest) = cons (text s) (text_list rest)

-- No two of the texts are the same.
abbrev pub AllDiffer : List String → Type 0
AllDiffer [] = Unit
AllDiffer (s ∷ rest) = All (λ t. t ≢ s) rest × AllDiffer rest

-- What MET_FOR_DECLARED_PATHS means, in terms of what `preflight` is given.
pub record IsMet (run_id config_digest : String)
    (observation now_ns max_age_ns required_paths : Json) : Type 0 where
  pub now : ℕ
  pub max_age : ℕ
  pub required : List String
  pub measured : Json
  pub paths : Fields
  pub has_clock : now_ns ≡ int now
  pub has_bound : max_age_ns ≡ int max_age
  pub has_scope : required_paths ≡ list (text_list required)
  pub some_required : required ≢ []
  pub all_named : All (λ p. 0 < length (codes p)) required
  pub all_differ : AllDiffer required
  pub measures : get "measured_ns" observation ≡ some measured
  pub recent : IsRecent now max_age measured
  pub same_run : get "run_id" observation ≡ some (text run_id)
  pub run_named : 0 < length (codes run_id)
  pub same_configuration : get "config_digest" observation ≡ some (text config_digest)
  pub configuration_named : 0 < length (codes config_digest)
  pub observed : get "paths" observation ≡ some (dict paths)
  pub closed : All (IsClosed paths) required

-- The tests of `preflight` that were passed.
record Passed (run_id config_digest : String) (observation now_ns max_age_ns required_paths : Json)
    : Type 0 where
  required : List String
  in_scope : path_scope required_paths ≡ some required
  max_age : ℕ
  bounded : as_clock max_age_ns ≡ some max_age
  age : ℕ
  measured : measured_age run_id config_digest observation now_ns ≡ some (some age)
  recent : age ≤ max_age
  same_run : (has_text "run_id" run_id observation && nonempty run_id) ≡ true
  same_configuration :
      (has_text "config_digest" config_digest observation && nonempty config_digest) ≡ true
  paths : Fields
  observed : get "paths" observation ≡ some (dict paths)
  closed : (judge_paths required (dict paths)).status ≡ met_for_declared_paths

text_items-list :
    (items : Items) (ps : List String) → text_items items ≡ some ps → items ≡ text_list ps
text_items-list nil [] h = refl
text_items-list nil (p ∷ ps) h = absurd cc
text_items-list (cons (text s) rest) ps h =
    let (more, e, f) = bind-eq_some (text_items rest) (λ more. some (s ∷ more)) ps h in
    let same : s ∷ more ≡ ps = ground (arith, f) in
    ap (cons (text s)) (text_items-list rest more e) ∙ ap text_list same
text_items-list (cons v rest) ps h = absurd cc

text_items-text_list : (ps : List String) → text_items (text_list ps) ≡ some ps
text_items-text_list [] = refl
text_items-text_list (s ∷ rest) = rw (text_items-text_list rest) refl

member-eq-false : (s : String) (ts : List String) → (member s ts ≡ false) ↔ All (λ t. t ≢ s) ts
unfolding member
member-eq-false s [] = (λ h. tt, λ h. refl)
member-eq-false s (t ∷ ts) = (
  λ h. (ground (arith, h, eq_iff t s), (member-eq-false s ts).0 (ground (arith, h))),
  λ (here, there).
      let out = (member-eq-false s ts).1 there in ground (arith, here, out, eq_iff t s),
)

distinct-AllDiffer : (ts : List String) → (distinct ts ≡ true) ↔ AllDiffer ts
unfolding distinct
distinct-AllDiffer [] = (λ h. tt, λ h. refl)
distinct-AllDiffer (t ∷ ts) = (
  λ h.
      ((member-eq-false t ts).0 (ground (arith, h)), (distinct-AllDiffer ts).0 (ground (arith, h))),
  λ (here, there).
      let out = (member-eq-false t ts).1 here in
      let rest = (distinct-AllDiffer ts).1 there in ground (arith, out, rest),
)

all-nonempty : (ts : List String) → (all nonempty ts ≡ true) ↔ All (λ p. 0 < length (codes p)) ts
all-nonempty [] = (λ h. tt, λ h. refl)
all-nonempty (t ∷ ts) = (
  λ h. (ground (arith, h), (all-nonempty ts).0 (ground (arith, h))),
  λ (here, there). let rest = (all-nonempty ts).1 there in ground (arith, here, rest),
)

has_text-get : (k t : String) (v : Json) → (has_text k t v ≡ true) ↔ (get k v ≡ some (text t))
has_text-get k t v = (
  λ h. elim (Option-cases (get k v)) [
    | inl gone ↦ absurd (ground (arith, h, gone))
    | inr (w, there) ↦ there ∙ ap some (is_text t w (ground (arith, h, there)))
  ],
  λ there. ground (arith, there, eq_refl t),
)
  where
    is_text :
        (t : String) (w : Json)
        → (elim (as_text w) as (λ x. Bool) [ none ↦ false | some s ↦ str_eq s t ]) ≡ true
        → w ≡ text t
    is_text t (text s) h = ap text ((eq_iff s t).0 h)
    is_text t w h = absurd cc

record Scope (v : Json) (ps : List String) : Type 0 where
  shape : v ≡ list (text_list ps)
  some_path : ps ≢ []
  named : all nonempty ps ≡ true
  differ : distinct ps ≡ true

path_scope-Scope : (v : Json) (ps : List String) → path_scope v ≡ some ps → Scope v ps
unfolding path_scope
path_scope-Scope (list items) ps h = elim (Option-cases (text_items items)) [
  | inl bad ↦ absurd (ground (arith, h, bad))
  | inr ([], good) ↦ absurd (ground (arith, h, good))
  | inr (q ∷ qs, good) ↦
      let same : q ∷ qs ≡ ps = ground (arith, h, good) in
      subst (Scope (list items)) same (record {
        shape = ap list (text_items-list items (q ∷ qs) good);
        some_path = λ e. cc;
        named = ground (arith, h, good);
        differ = ground (arith, h, good);
      })
]
path_scope-Scope v ps h = absurd cc

scope_made :
    (ps : List String)
    → ps ≢ []
    → all nonempty ps ≡ true
    → distinct ps ≡ true
    → path_scope (list (text_list ps)) ≡ some ps
unfolding path_scope
scope_made [] h named differ = absurd (h refl)
scope_made (p ∷ ps) h named differ =
    let e = text_items-text_list (p ∷ ps) in ground (arith, e, named, differ)

as_clock-eq-some : (v : Json) (n : ℕ) → as_clock v ≡ some n → v ≡ int n
as_clock-eq-some (int m) n h = ground (arith, h)
as_clock-eq-some v n h = absurd cc

age-IsRecent :
    (now max_age a : ℕ) (m : Json)
    → age now m ≡ some (some a)
    → a ≤ max_age
    → IsRecent now max_age m
age-IsRecent now max_age a (int n) h fits =
    since_zero n (ground (arith, h)) (ground (arith, h, fits))
age-IsRecent now max_age a (negative n) h fits = before_zero n (ground (arith, h, fits))
age-IsRecent now max_age a m h fits = absurd cc

IsRecent-age :
    (now max_age : ℕ) {m : Json}
    → IsRecent now max_age m
    → (a : ℕ) × (age now m ≡ some (some a)) × (a ≤ max_age)
IsRecent-age now max_age (since_zero n below fits) = (now - n, ground (arith, below), omega arith)
IsRecent-age now max_age (before_zero n fits) = (now + n + 1, refl, omega arith)

is_bool-eq-true : (value : Bool) (v : Json) → is_bool value v ≡ true → v ≡ bool value
is_bool-eq-true true (bool b) h = ap bool h
is_bool-eq-true false (bool true) h = absurd cc
is_bool-eq-true false (bool false) h = refl
is_bool-eq-true value v h = absurd cc

says :
    (key : String) (value : Bool) (paths : Json) (p : String)
    → path_says key value paths p ≡ true
    → (path : Json) × (get p paths ≡ some path) × (get key path ≡ some (bool value))
unfolding path_says
says key value paths p h = elim (Option-cases (get p paths)) [
  | inl gone ↦ absurd (ground (arith, h, gone))
  | inr (path, there) ↦ elim (Option-cases (get key path)) [
    | inl gone ↦ absurd (ground (arith, h, there, gone))
    | inr (v, holds) ↦
        let is_value = is_bool-eq-true value v (ground (arith, h, there, holds)) in
        (path, there, holds ∙ ap some is_value)
  ]
]

IsClosed-says :
    (paths : Fields) (p : String)
    → (path_says "reachable" false (dict paths) p && path_says "target_healthy" true (dict paths) p)
      ≡ true
    → IsClosed paths p
IsClosed-says paths p h =
    let (path, there, unreachable) = says "reachable" false (dict paths) p (ground (arith, h)) in
    let (path', there', healthy) = says "target_healthy" true (dict paths) p (ground (arith, h)) in
    let same : path' ≡ path = cc in
    record {
      path = path;
      observed = there;
      unreachable = unreachable;
      healthy = ap (get "target_healthy") (sym same) ∙ healthy;
    }

says-IsClosed :
    (paths : Fields) (p : String)
    → IsClosed paths p
    → (path_says "reachable" true (dict paths) p ≡ false)
      × ((path_says "reachable" false (dict paths) p
            && path_says "target_healthy" true (dict paths) p)
          ≡ true)
unfolding path_says
says-IsClosed paths p c =
    let there = c.observed in
    let unreachable = c.unreachable in
    let healthy = c.healthy in
    (rw (there, path_says, unreachable) refl, rw (there, path_says, unreachable, healthy) refl)

all-IsClosed :
    (paths : Fields) (required : List String)
    → all
        (λ p.
          path_says "reachable" false (dict paths) p
          && path_says "target_healthy" true (dict paths) p)
        required
      ≡ true
    → All (IsClosed paths) required
all-IsClosed paths [] h = tt
all-IsClosed paths (p ∷ rest) h =
    (IsClosed-says paths p (ground (arith, h)), all-IsClosed paths rest (ground (arith, h)))

IsClosed-all :
    (paths : Fields) (required : List String)
    → All (IsClosed paths) required
    → (any (path_says "reachable" true (dict paths)) required ≡ false)
      × (all
            (λ p.
              path_says "reachable" false (dict paths) p
              && path_says "target_healthy" true (dict paths) p)
            required
          ≡ true)
IsClosed-all paths [] h = (refl, refl)
IsClosed-all paths (p ∷ rest) (here, there) =
    let (out, closed) = says-IsClosed paths p here in
    let (outs, all_closed) = IsClosed-all paths rest there in
    (ground (arith, out, outs), ground (arith, closed, all_closed))

judge_paths-IsClosed :
    (required : List String) (paths : Fields)
    → ((judge_paths required (dict paths)).status ≡ met_for_declared_paths)
      ↔ All (IsClosed paths) required
unfolding judge_paths
judge_paths-IsClosed required paths = (
  λ h. all-IsClosed paths required (ground (arith, h)),
  λ closed.
      let (out, all_closed) = IsClosed-all paths required closed in ground (arith, out, all_closed),
)

observed_paths :
    (required : List String) (o : Option Json)
    → (judge_observations required o).status ≡ met_for_declared_paths
    → (paths : Fields) × (o ≡ some (dict paths))
      × ((judge_paths required (dict paths)).status ≡ met_for_declared_paths)
observed_paths required (some (dict fs)) h = (fs, refl, h)
observed_paths required (some _) h = absurd cc
observed_paths required none h = absurd cc

module _ (run_id config_digest : String) (observation now_ns max_age_ns required_paths : Json) where
  window-Passed :
      (required : List String) (max_age : ℕ) (a : Option ℕ)
      → path_scope required_paths ≡ some required
      → as_clock max_age_ns ≡ some max_age
      → measured_age run_id config_digest observation now_ns ≡ some a
      → (judge_window run_id config_digest required observation max_age a).status
        ≡ met_for_declared_paths
      → Passed run_id config_digest observation now_ns max_age_ns required_paths
  unfolding judge_window
  window-Passed required max_age none scope bounded measured h = absurd (ground arith)
  window-Passed required max_age (some a) scope bounded measured h =
      let (paths, observed, closed) =
        observed_paths required (get "paths" observation) (ground arith) in
      record {
        required = required;
        in_scope = scope;
        max_age = max_age;
        bounded = bounded;
        age = a;
        measured = measured;
        recent = ground arith;
        same_run = ground arith;
        same_configuration = ground arith;
        paths = paths;
        observed = observed;
        closed = closed;
      }

  clock-Passed :
      (required : List String) (m : Option ℕ) (a : Option (Option ℕ))
      → path_scope required_paths ≡ some required
      → as_clock max_age_ns ≡ m
      → measured_age run_id config_digest observation now_ns ≡ a
      → (judge_clock run_id config_digest required observation m a).status ≡ met_for_declared_paths
      → Passed run_id config_digest observation now_ns max_age_ns required_paths
  clock-Passed required (some m) (some a) s e f h = window-Passed required m a s e f h
  clock-Passed required (some m) none s e f h = absurd cc
  clock-Passed required none a s e f h = absurd cc

  scope-Passed :
      (r : Option (List String))
      → path_scope required_paths ≡ r
      → (judge_scope run_id config_digest observation now_ns max_age_ns r).status
        ≡ met_for_declared_paths
      → Passed run_id config_digest observation now_ns max_age_ns required_paths
  scope-Passed none e h = absurd cc
  scope-Passed (some required) e h =
      clock-Passed required (as_clock max_age_ns)
        (measured_age run_id config_digest observation now_ns) e refl refl h

  preflight-Passed :
      (preflight run_id config_digest observation now_ns max_age_ns required_paths).status
        ≡ met_for_declared_paths
      → Passed run_id config_digest observation now_ns max_age_ns required_paths
  unfolding preflight
  preflight-Passed h = scope-Passed (path_scope required_paths) refl h

  window-met :
      (required : List String) (max_age a : ℕ) (paths : Fields)
      → a ≤ max_age
      → (has_text "run_id" run_id observation && nonempty run_id) ≡ true
      → (has_text "config_digest" config_digest observation && nonempty config_digest) ≡ true
      → get "paths" observation ≡ some (dict paths)
      → (judge_paths required (dict paths)).status ≡ met_for_declared_paths
      → (judge_window run_id config_digest required observation max_age (some a)).status
        ≡ met_for_declared_paths
  unfolding judge_window
  window-met required max_age a paths recent same_run same_configuration observed closed =
      let in_time : ltb max_age a ≡ false = ground (arith, recent) in
      rw (same_run, same_configuration, in_time, observed) closed

  Passed-preflight :
      Passed run_id config_digest observation now_ns max_age_ns required_paths
      → (preflight run_id config_digest observation now_ns max_age_ns required_paths).status
        ≡ met_for_declared_paths
  unfolding preflight
  Passed-preflight q =
      ap (λ r. (judge_scope run_id config_digest observation now_ns max_age_ns r).status) q.in_scope
      ∙ (ap
            (λ m.
              (judge_clock run_id config_digest q.required observation m
                (measured_age run_id config_digest observation now_ns)).status)
            q.bounded
          ∙ (ap
                (λ a.
                  (judge_clock run_id config_digest q.required observation (some q.max_age)
                    a).status)
                q.measured
              ∙ window-met q.required q.max_age q.age q.paths q.recent q.same_run
                  q.same_configuration q.observed q.closed))

  measured-parts :
      (a : ℕ)
      → measured_age run_id config_digest observation now_ns ≡ some (some a)
      → (now : ℕ) × (m : Json) × (as_clock now_ns ≡ some now)
        × (get "measured_ns" observation ≡ some m)
        × (age now m ≡ some (some a))
  measured-parts a h = elim (Option-cases (as_clock now_ns)) [
    | inl gone ↦ absurd (ground (arith, h, gone))
    | inr (now, clock) ↦ elim (Option-cases (get "measured_ns" observation)) [
      | inl gone ↦ absurd (ground (arith, h, clock, gone))
      | inr (m, there) ↦ (now, m, clock, there, ground (arith, h, clock, there))
    ]
  ]

  Passed-IsMet :
      Passed run_id config_digest observation now_ns max_age_ns required_paths
      → IsMet run_id config_digest observation now_ns max_age_ns required_paths
  Passed-IsMet q =
      let (now, m, clock, measures, is_age) = measured-parts q.age q.measured in
      let scope = path_scope-Scope required_paths q.required q.in_scope in
      let (same_run, run_named) = &&-eq-true (has_text "run_id" run_id observation) _ q.same_run in
      let (same_configuration, configuration_named) =
        &&-eq-true (has_text "config_digest" config_digest observation) _ q.same_configuration in
      record {
        now = now;
        max_age = q.max_age;
        required = q.required;
        measured = m;
        paths = q.paths;
        has_clock = as_clock-eq-some now_ns now clock;
        has_bound = as_clock-eq-some max_age_ns q.max_age q.bounded;
        has_scope = scope.shape;
        some_required = scope.some_path;
        all_named = (all-nonempty q.required).0 scope.named;
        all_differ = (distinct-AllDiffer q.required).0 scope.differ;
        measures = measures;
        recent = age-IsRecent now q.max_age q.age m is_age q.recent;
        same_run = (has_text-get "run_id" run_id observation).0 same_run;
        run_named = ground (arith, run_named);
        same_configuration =
            (has_text-get "config_digest" config_digest observation).0 same_configuration;
        configuration_named = ground (arith, configuration_named);
        observed = q.observed;
        closed = (judge_paths-IsClosed q.required q.paths).0 q.closed;
      }

  IsMet-Passed :
      IsMet run_id config_digest observation now_ns max_age_ns required_paths
      → Passed run_id config_digest observation now_ns max_age_ns required_paths
  IsMet-Passed m =
      let (a, is_age, fits) = IsRecent-age m.now m.max_age m.recent in
      let clock = m.has_clock in
      let measures = m.measures in
      let run = (has_text-get "run_id" run_id observation).1 m.same_run in
      let configuration =
        (has_text-get "config_digest" config_digest observation).1 m.same_configuration in
      let run_named = m.run_named in
      let configuration_named = m.configuration_named in
      record {
        required = m.required;
        in_scope =
            ap path_scope m.has_scope
            ∙ scope_made m.required m.some_required ((all-nonempty m.required).1 m.all_named)
                ((distinct-AllDiffer m.required).1 m.all_differ);
        max_age = m.max_age;
        bounded = ap as_clock m.has_bound;
        age = a;
        measured =
            ap (λ v. measured_age run_id config_digest observation v) clock
            ∙ ground (arith, measures, is_age);
        recent = fits;
        same_run = ground (arith, run, run_named);
        same_configuration = ground (arith, configuration, configuration_named);
        paths = m.paths;
        observed = m.observed;
        closed = (judge_paths-IsClosed m.required m.paths).1 m.closed;
      }

-- `preflight` judges the declared paths MET if and only if: the clock and the bound are integers that
-- are not negative; the required paths are a list of at least one text, each not empty and each once;
-- the observation names the same run and configuration, neither empty, was measured at or before the
-- clock and not longer ago than the bound, and has every required path as not reaching a target that
-- is healthy.
pub preflight-IsMet :
    (run_id config_digest : String) (observation now_ns max_age_ns required_paths : Json)
    → ((preflight run_id config_digest observation now_ns max_age_ns required_paths).status
        ≡ met_for_declared_paths)
      ↔ IsMet run_id config_digest observation now_ns max_age_ns required_paths
preflight-IsMet run_id config_digest observation now_ns max_age_ns required_paths = (
  λ h.
      Passed-IsMet run_id config_digest observation now_ns max_age_ns required_paths
        (preflight-Passed run_id config_digest observation now_ns max_age_ns required_paths h),
  λ m.
      Passed-preflight run_id config_digest observation now_ns max_age_ns required_paths
        (IsMet-Passed run_id config_digest observation now_ns max_age_ns required_paths m),
)
