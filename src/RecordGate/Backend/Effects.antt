-- ===== src/RecordGate/Backend/Effects.antt =====
-- services.py: what the simulated API has done, once and for good.
use vap_spec.Base.{
  ℕ, ◌+◌, ◌≤◌, ◌≡◌, refl, true, false, Option, none, some, String, List, [], ◌∷◌, ◌++◌, str_eq,
  eq_iff, if◌then◌else◌, ◌⊎◌, inl, inr, Bool-cases, Option-cases, arith,
}
use vap_spec.Runtime.Json.{Json}
use vap_spec.RecordGate.Envelope.{Jcs}
use vap_spec.RecordGate.Audit.{ServiceConfig, control}
use vap_spec.RecordGate.Audit.Once.{bind-eq_some}
use vap_spec.RecordGate.Backend.{
  ApiEffect, ApiStore, find_effect, has_permit, new_receipt, new_effect, counted, effect_for,
  operation_of, write, ApiAction, writes, lookups, backend,
}

abbrev pub count_effects : String → List ApiEffect → ℕ
count_effects oid [] = 0
count_effects oid (r ∷ rows) = (if str_eq r.id oid then 1 else 0) + count_effects oid rows

count_effects-append :
    (oid : String) (rows : List ApiEffect) (new : ApiEffect)
    → count_effects oid (rows ++ new ∷ [])
      ≡ count_effects oid rows + (if str_eq new.id oid then 1 else 0)
count_effects-append oid [] new = omega arith
count_effects-append oid (r ∷ rows) new = omega (arith, count_effects-append oid rows new)

find_effect-none :
    (oid : String) (rows : List ApiEffect)
    → find_effect oid rows ≡ none
    → count_effects oid rows ≡ 0
unfolding find_effect
find_effect-none oid [] h = refl
find_effect-none oid (r ∷ rows) h = ground (arith, find_effect-none oid rows)

find_effect-append :
    (oid : String) (rows : List ApiEffect) (new old : ApiEffect)
    → find_effect oid rows ≡ some old
    → find_effect oid (rows ++ new ∷ []) ≡ some old
unfolding find_effect
find_effect-append oid [] new old h = absurd cc
find_effect-append oid (r ∷ rows) new old h = ground (arith, find_effect-append oid rows new old)

-- A new effect: its operation had none, and the request of the write carries a permit for it.
pub record IsPermitted (lib : Jcs) (config : ServiceConfig) (envelope : Json) (s : ApiStore)
    (new : ApiEffect) : Type 0 where
  pub body : Json
  pub from_gate : control lib config "write" envelope ≡ some body
  pub of_body : operation_of lib config body ≡ some (new.id, new.digest)
  pub permit : has_permit lib config new.id new.digest body ≡ true
  pub absent : find_effect new.id s.effects ≡ none

module _ (lib : Jcs) (config : ServiceConfig) where
  new_effect-rows :
      (oid od : String) (s s' : ApiStore) (receipt : Json)
      → new_effect lib config oid od s ≡ some (receipt, s')
      → (raw : String) × (s'.effects
          ≡ s.effects ++ (record { id = oid; digest = od; receipt = raw }) ∷ [])
  unfolding new_effect
  new_effect-rows oid od s s' receipt h =
      let (signed, e0, h0) = bind-eq_some (new_receipt lib config oid od) _ (receipt, s') h in
      let (raw, e1, h1) = bind-eq_some (lib.dumps signed) _ (receipt, s') h0 in (raw, ground arith)

  effect_for-rows :
      (oid od : String) (s s' : ApiStore) (receipt : Json) (row : Option ApiEffect)
      → effect_for lib config oid od row s ≡ some (receipt, s')
      → (s'.effects ≡ s.effects)
        ⊎ ((row ≡ none)
            × (raw : String) × (s'.effects
                ≡ s.effects ++ (record { id = oid; digest = od; receipt = raw }) ∷ []))
  effect_for-rows oid od s s' receipt none h =
      let (raw, rows) = new_effect-rows oid od s s' receipt h in inr (refl, raw, rows)
  effect_for-rows oid od s s' receipt (some row) h = inl (ground arith)

  write-rows :
      (envelope : Json) (s s' : ApiStore) (receipt : Json)
      → write lib config false envelope s ≡ some (receipt, s')
      → (s'.effects ≡ s.effects)
        ⊎ ((new : ApiEffect) × (s'.effects ≡ s.effects ++ new ∷ [])
            × IsPermitted lib config envelope s new)
  unfolding write
  write-rows envelope s s' receipt h =
      let (body, e0, h0) = bind-eq_some (control lib config "write" envelope) _ (receipt, s') h in
      let ((oid, od), e1, h1) = bind-eq_some (operation_of lib config body) _ (receipt, s') h0 in
      elim (Bool-cases (has_permit lib config oid od body)) [
        | inr unpermitted ↦ absurd (ground (arith, unpermitted))
        | inl permitted ↦
            elim (effect_for-rows oid od s s' receipt (find_effect oid s.effects)
              (ground (arith, permitted))) [
                | inl same ↦ inl same
                | inr (gone, raw, rows) ↦ inr (
                  record { id = oid; digest = od; receipt = raw },
                  rows,
                  record {
                    body = body;
                    from_gate = e0;
                    of_body = e1;
                    permit = permitted;
                    absent = gone;
                  },
                )
              ]
      ]

  -- Any request that the simulated API serves with its boundary in place, forged and replayed ones
  -- included, leaves its effects as they were, or adds one effect: that of a write whose envelope the
  -- gate signed, whose permit is a claim of the same operation that the audit service signed, and
  -- whose operation had no effect yet.
  pub backend-IsPermitted :
      (action : ApiAction) (envelope : Json) (s : ApiStore)
      → ((backend lib config false action envelope s).1.effects ≡ s.effects)
        ⊎ ((new : ApiEffect) × ((backend lib config false action envelope s).1.effects
              ≡ s.effects ++ new ∷ [])
            × IsPermitted lib config envelope s new)
  unfolding backend
  backend-IsPermitted lookups envelope s = inl refl
  backend-IsPermitted writes envelope s =
      let t = counted lib config s in
      elim (Option-cases (write lib config false envelope t)) [
        | inl fails ↦ inl (rw (fails, backend) refl)
        | inr ((receipt, s'), works) ↦ elim (write-rows envelope t s' receipt works) [
          | inl same ↦ inl (rw (works, backend) same)
          | inr (new, rows, p) ↦ inr (
            new,
            rw (works, backend) rows,
            record {
              body = p.body;
              from_gate = p.from_gate;
              of_body = p.of_body;
              permit = p.permit;
              absent = p.absent;
            },
          )
        ]
      ]

  abbrev pub api_run : List (ApiAction × Json) → ApiStore → ApiStore
  api_run [] s = s
  api_run ((action, envelope) ∷ rest) s =
      api_run rest (backend lib config false action envelope s).1

  -- At most one effect for each operation.
  pub record IsSingle (s : ApiStore) : Type 0 where
    pub single : (oid : String) → count_effects oid s.effects ≤ 1

  IsSingle-backend :
      (action : ApiAction) (envelope : Json) (s : ApiStore)
      → IsSingle s
      → IsSingle (backend lib config false action envelope s).1
  IsSingle-backend action envelope s h = record {
    single = λ oid. elim (backend-IsPermitted action envelope s) [
      | inl same ↦ rw same (h.single oid)
      | inr (new, rows, p) ↦
          let none_yet = find_effect-none new.id s.effects p.absent in
          let k = h.single oid in
          rw (rows, count_effects-append) (ground (arith, eq_iff new.id oid, none_yet, k))
    ];
  }

  kept_once :
      (oid : String) (row : ApiEffect) (action : ApiAction) (envelope : Json) (s : ApiStore)
      → find_effect oid s.effects ≡ some row
      → find_effect oid (backend lib config false action envelope s).1.effects ≡ some row
  kept_once oid row action envelope s h = elim (backend-IsPermitted action envelope s) [
    | inl same ↦ rw same h
    | inr (new, rows, p) ↦ rw rows (find_effect-append oid s.effects new row h)
  ]

  -- From a store with at most one effect for each operation, any run of requests leaves at most one
  -- for each, and an effect that is there stays as it is, its receipt and request digest included.
  pub api_run-IsSingle :
      (requests : List (ApiAction × Json)) (s : ApiStore)
      → IsSingle s
      → IsSingle (api_run requests s)
        × ((oid : String) (row : ApiEffect)
            → find_effect oid s.effects ≡ some row
            → find_effect oid (api_run requests s).effects ≡ some row)
  api_run-IsSingle [] s h = (h, λ oid row k. k)
  api_run-IsSingle ((action, envelope) ∷ rest) s h =
      let (single, kept) =
        api_run-IsSingle rest (backend lib config false action envelope s).1
          (IsSingle-backend action envelope s h) in
      (single, λ oid row k. kept oid row (kept_once oid row action envelope s k))
