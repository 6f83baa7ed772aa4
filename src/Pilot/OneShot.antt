-- ===== src/Pilot/OneShot.antt =====
-- What the journals of the publication and the erasure pilot promise, whatever the effect is: a
-- request that is claimed stays claimed, and an effect is tried only by the call that claims it.
use vap_spec.Base.{
  ℕ, ◌+◌, ◌≤◌, ◌≡◌, Bool, true, false, ◌&&◌, String, List, [], ◌∷◌, str_eq, eq_iff, if◌then◌else◌,
  arith,
}

-- A service over a state: `step` says whether a call tried its effect.
pub record OneShot (Call S : Type 0) : Type 0 where
  pub request : Call → String
  pub is_claimed : String → S → Bool
  pub step : Call → S → Bool × S
  pub keeps :
      (c : Call) (s : S) (q : String) → is_claimed q s ≡ true → is_claimed q (step c s).1 ≡ true
  pub takes :
      (c : Call) (s : S)
      → (step c s).0 ≡ true
      → (is_claimed (request c) s ≡ false) × (is_claimed (request c) (step c s).1 ≡ true)

module _ {Call S : Type 0} (service : OneShot Call S) (q : String) where
  -- How often the calls on a request try its effect.
  abbrev pub attempts : List Call → S → ℕ
  attempts [] s = 0
  attempts (c ∷ calls) s =
      let (tried, s') = service.step c s in
      (if tried && str_eq (service.request c) q then 1 else 0) + attempts calls s'

  abbrev pub unclaimed : S → ℕ
  unclaimed s = if service.is_claimed q s then 0 else 1

  step-spends :
      (c : Call) (s : S)
      → (if (service.step c s).0 && str_eq (service.request c) q then 1 else 0)
          + unclaimed (service.step c s).1
        ≤ unclaimed s
  step-spends c s =
      ground (arith, eq_iff (service.request c) q, service.keeps c s q, service.takes c s)

  pub attempts-unclaimed : (calls : List Call) (s : S) → attempts calls s ≤ unclaimed s
  attempts-unclaimed [] s = omega arith
  attempts-unclaimed (c ∷ calls) s =
      let spent = step-spends c s in
      let rest = attempts-unclaimed calls (service.step c s).1 in omega arith
