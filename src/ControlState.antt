-- ===== src/ControlState.antt =====
-- experiments/control-state-evidence/control_evidence.py: `preflight`, the judgment of one observation
-- of the paths that have to be closed.
pub mod Met
use vap_spec.Base.{
  ℕ, ◌+◌, ◌-◌, Bool, true, false, not, ◌&&◌, ◌||◌, Option, none, some, String, List, [], ◌∷◌, leb,
  ltb, str_eq, all, any, codes, length, if◌then◌else◌,
}
use vap_spec.Runtime.Json.{Json, int, negative, bool, text, list, dict, Items, nil, cons}
use vap_spec.Gate.Policy.{distinct}
use vap_spec.RecordGate.Envelope.{get, has_text}
use vap_spec.RecordGate.Authority.{texts_at, text_items}

pub data ControlStatus : Type 0 where
  not_established violated met_for_declared_paths : ControlStatus

pub record Judgment : Type 0 where
  pub status : ControlStatus
  pub reason : String

abbrev pub nonempty : String → Bool
nonempty s = ltb 0 (length (codes s))

abbrev pub some_path : List String → Bool
some_path [] = false
some_path (p ∷ rest) = true

-- required_paths, if it is a list of distinct texts that are not empty, and not empty itself
unfoldable pub path_scope : Json → Option (List String)
path_scope (list items) = elim (text_items items) [
  | none ↦ none
  | some paths ↦
      if some_path paths && (all nonempty paths && distinct paths) then some paths else none
]
path_scope _ = none

abbrev pub as_clock : Json → Option ℕ
as_clock (int n) = some n
as_clock _ = none

-- A time of measurement may be negative.
abbrev pub age : ℕ → Json → Option (Option ℕ)
age now (int n) = if ltb now n then some none else some (some (now - n))
age now (negative n) = some (some (now + n + 1))
age now _ = none

-- paths[p].get(key) is value, where paths[p] is an object
abbrev pub is_bool : Bool → Json → Bool
is_bool true (bool b) = b
is_bool false (bool b) = not b
is_bool v _ = false

unfoldable pub path_says : String → Bool → Json → String → Bool
path_says key value paths p = elim (get p paths) [
  | none ↦ false
  | some path ↦ (elim (get key path) [ none ↦ false | some v ↦ is_bool value v ])
]

abbrev pub judged : ControlStatus → String → Judgment
judged status reason = record { status = status; reason = reason }

unfoldable pub judge_paths : List String → Json → Judgment
judge_paths required paths =
    if any (path_says "reachable" true paths) required
    then judged violated "reachable_path"
    else if all
        (λ p. path_says "reachable" false paths p && path_says "target_healthy" true paths p)
        required
    then judged met_for_declared_paths "healthy_targets_unreachable_in_observation_window"
    else judged not_established "missing_unknown_or_unhealthy_path"

abbrev pub judge_observations : List String → Option Json → Judgment
judge_observations required (some (dict fs)) = judge_paths required (dict fs)
judge_observations required _ = judged not_established "missing_observations"

abbrev pub judge_age : List String → Json → ℕ → Option ℕ → Judgment
judge_age required observation max_age none = judged not_established "stale_or_future_observation"
judge_age required observation max_age (some a) =
    if ltb max_age a
    then judged not_established "stale_or_future_observation"
    else judge_observations required (get "paths" observation)

module _ (run_id config_digest : String) where
  unfoldable pub judge_window : List String → Json → ℕ → Option ℕ → Judgment
  judge_window required observation max_age a =
      if not (has_text "run_id" run_id observation && nonempty run_id)
      then judged not_established "run_mismatch"
      else if not (has_text "config_digest" config_digest observation && nonempty config_digest)
      then judged not_established "configuration_changed"
      else judge_age required observation max_age a

  abbrev pub measured_age : Json → Json → Option (Option ℕ)
  measured_age observation now_ns = elim (as_clock now_ns) [
    | none ↦ none
    | some now ↦ elim (get "measured_ns" observation) [ none ↦ none | some m ↦ age now m ]
  ]

  abbrev pub judge_clock : List String → Json → Option ℕ → Option (Option ℕ) → Judgment
  judge_clock required observation (some max_age) (some a) =
      judge_window required observation max_age a
  judge_clock required observation (some max_age) none =
      judged not_established "missing_or_invalid_clock"
  judge_clock required observation none a = judged not_established "missing_or_invalid_clock"

  abbrev pub judge_scope : Json → Json → Json → Option (List String) → Judgment
  judge_scope observation now_ns max_age_ns none = judged not_established "invalid_path_scope"
  judge_scope observation now_ns max_age_ns (some required) =
      judge_clock required observation (as_clock max_age_ns) (measured_age observation now_ns)

  -- `preflight`
  unfoldable pub preflight : Json → Json → Json → Json → Judgment
  preflight observation now_ns max_age_ns required_paths =
      judge_scope observation now_ns max_age_ns (path_scope required_paths)
