-- ===== src/Gate/Findings.antt =====
-- `_Decision` of authorization_gate.py: the reasons to deny and the facts that are not available.
use Prim.Native.Nat.{Ordering}
use Prim.Native.String.{compare}
use vap_spec.Base.{
  ℕ, ◌≡◌, refl, Bool, true, false, not, ◌&&◌, Option, none, some, String, List, [], ◌∷◌, ◌++◌,
  arith, if◌then◌else◌,
}
use vap_spec.Runtime.Outcome.{Verdict, authorized, denied, unknown, Decision}

-- self.denied and self.unknown
pub record Findings : Type 0 where
  pub denials : List String
  pub gaps : List String

abbrev pub clear : Findings
clear = record { denials = []; gaps = [] }

-- Findings in the order in which they are made.
infixr 20 ◌⊕◌
unfoldable pub ◌⊕◌ : Findings → Findings → Findings
f ⊕ g = record { denials = f.denials ++ g.denials; gaps = f.gaps ++ g.gaps }

-- `_Decision.require`
unfoldable pub require : Bool → String → Findings
require condition reason = if condition then clear else record { denials = reason ∷ []; gaps = [] }

-- `_Decision.available`
unfoldable pub available : Bool → String → Findings
available condition reason =
    if condition then clear else record { denials = []; gaps = reason ∷ [] }

abbrev pub is_empty : List String → Bool
is_empty [] = true
is_empty (s ∷ rest) = false

unfoldable pub is_clear : Findings → Bool
is_clear f = is_empty f.denials && is_empty f.gaps

unfoldable pub verdict : Findings → Verdict
verdict f =
    if not (is_empty f.denials)
    then denied
    else if not (is_empty f.gaps)
    then unknown
    else authorized

-- sorted(set(reasons)), by insertion
unfoldable pub insert_sorted : String → List String → List String
insert_sorted s [] = s ∷ []
insert_sorted s (t ∷ rest) = elim (compare s t) [
  | Ordering.lt ↦ s ∷ t ∷ rest
  | Ordering.eq ↦ t ∷ rest
  | Ordering.gt ↦ t ∷ insert_sorted s rest
]

unfoldable pub sorted_set : List String → List String
unfolding insert_sorted
sorted_set [] = []
sorted_set (s ∷ rest) = insert_sorted s (sorted_set rest)

abbrev or_supported : List String → List String
or_supported [] = "configured_mock_admission_supported_at_claim_time" ∷ []
or_supported (s ∷ rest) = s ∷ rest

abbrev admitted_at : Verdict → ℕ → Option ℕ
admitted_at authorized at_ms = some at_ms
admitted_at denied at_ms = none
admitted_at unknown at_ms = none

-- `_Decision.result`
unfoldable pub result : String → ℕ → Findings → Decision
unfolding verdict sorted_set
result request_digest at_ms f = record {
  verdict = verdict f;
  request_digest = some request_digest;
  evaluated_at_ms = some at_ms;
  admitted_at_ms = admitted_at (verdict f) at_ms;
  reasons = sorted_set (or_supported (f.denials ++ f.gaps));
}

pub is_clear-⊕ : (f g : Findings) → is_clear (f ⊕ g) ≡ (is_clear f && is_clear g)
unfolding is_clear ◌⊕◌
is_clear-⊕ f g = ground arith

pub is_clear-require : (c : Bool) (reason : String) → is_clear (require c reason) ≡ c
unfolding is_clear require
is_clear-require true reason = refl
is_clear-require false reason = refl

pub is_clear-available : (c : Bool) (reason : String) → is_clear (available c reason) ≡ c
unfolding is_clear available
is_clear-available true reason = refl
is_clear-available false reason = refl

pub verdict-is_clear : (f : Findings) → verdict f ≡ authorized → is_clear f ≡ true
unfolding verdict is_clear
verdict-is_clear f h = ground arith

pub is_clear-verdict : (f : Findings) → is_clear f ≡ true → verdict f ≡ authorized
unfolding verdict is_clear
is_clear-verdict f h = ground arith

pub ruleset clear_laws = (is_clear-⊕, is_clear-require, is_clear-available)
