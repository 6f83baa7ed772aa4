-- ===== src/Collector/Adapter/Recovery.antt =====
-- payment_collector.py: `_originals` and `recover_evidence` of CollectedAdapter.
use vap_spec.Base.{
  refl, ap, ◌∙◌, Option, none, some, String, List, [], ◌∷◌, ◌++◌, if◌then◌else◌, option-holds,
  append_assoc,
}
use vap_spec.Runtime.Outcome.{value_error, Result, ok, err}
use vap_spec.Runtime.Request.{Prepared, ◌>>=◌}
use vap_spec.Runtime.Journal.{Adapter, Journal}
use vap_spec.Runtime.Adapter.{Env, Report, is_finished, read_status}
use vap_spec.Collector.{CollectorLib, Kind, admission_record, provider_receipt, make_package}
use vap_spec.Collector.Client.{Client}
use vap_spec.Collector.Adapter.{
  historical_recovery, CustodyTables, CallbackEnv, collect_and_persist,
}
use vap_spec.Collector.Adapter.Required.{Extends, unchanged}
use vap_spec.Collector.Adapter.Posted.{collect_and_persist-Extends}

module _ (lib : CollectorLib) (adapter : Adapter) (client : Client) where
  -- The receipt of a terminal report.
  abbrev terminal_receipt : Report → Option String
  terminal_receipt r = if is_finished lib.platform adapter r.state then r.receipt_bytes else none

  abbrev package_of : Kind → Prepared → Option String → Option (List (Kind × String))
  package_of kind request none = some []
  package_of kind request (some evidence) =
      make_package lib request.snapshot kind evidence >>= λ packed. some ((kind, packed) ∷ [])

  -- `_originals`; `proof` is the record that read_authorization finds.
  unfoldable pub originals :
      Env → Option String → Prepared → Journal → Option (List (Kind × String))
  originals env proof request j = do
    admissions ← package_of admission_record request proof
    receipts ←
        package_of provider_receipt request
          (terminal_receipt (read_status lib.platform adapter env request.snapshot j))
    some (admissions ++ receipts)

  -- The loop of `recover_evidence`: the kinds that raised, and the tables.
  unfoldable pub recover_each :
      (Kind → CallbackEnv)
      → Prepared
      → List (Kind × String)
      → Journal
      → CustodyTables
      → List Kind × CustodyTables
  recover_each calls request [] j t = ([], t)
  recover_each calls request ((kind, packed) ∷ rest) j t =
      let (raised, t1) =
        collect_and_persist lib adapter client (calls kind) request packed historical_recovery j
          t in
      let (failures, t2) = recover_each calls request rest j t1 in
      (if raised then kind ∷ failures else failures, t2)

  -- `recover_evidence` of a request that is prepared; it has no HTTP exchange with the provider.
  unfoldable pub recover_evidence :
      Env
      → (Kind → CallbackEnv)
      → Option String
      → Prepared
      → Journal
      → CustodyTables
      → Result (List Kind) × CustodyTables
  recover_evidence env calls proof request j t = elim (originals env proof request j) [
    | none ↦ (err (value_error "original_evidence"), t)
    | some packages ↦
        (let (failures, t') = recover_each calls request packages j t in (ok failures, t'))
  ]

  Extends-trans : (t t1 t2 : CustodyTables) → Extends t t1 → Extends t1 t2 → Extends t t2
  Extends-trans t t1 t2 x y = record {
    more = x.more ++ y.more;
    observed =
        y.observed
        ∙ (ap (λ rows. rows ++ y.more) x.observed ∙ append_assoc t.observations x.more y.more);
    marked = y.marked ∙ x.marked;
  }

  recover_each-Extends :
      (calls : Kind → CallbackEnv) (request : Prepared) (packages : List (Kind × String))
      (j : Journal) (t : CustodyTables)
      → Extends t (recover_each calls request packages j t).1
  unfolding recover_each
  recover_each-Extends calls request [] j t = unchanged t
  recover_each-Extends calls request ((kind, packed) ∷ rest) j t =
      let t1 =
        (collect_and_persist lib adapter client (calls kind) request packed historical_recovery j
          t).1 in
      Extends-trans t t1 (recover_each calls request rest j t1).1
        (collect_and_persist-Extends lib adapter client (calls kind) request packed
          historical_recovery j t refl)
        (recover_each-Extends calls request rest j t1)

  -- Recovery of evidence, whatever the collector answers and whatever fails, keeps every recorded
  -- observation in its place and writes no prerequisite: no claim becomes one that had custody
  -- before its dispatch.
  pub recover_evidence-Extends :
      (env : Env) (calls : Kind → CallbackEnv) (proof : Option String) (request : Prepared)
      (j : Journal) (t : CustodyTables)
      → Extends t (recover_evidence env calls proof request j t).1
  unfolding recover_evidence
  recover_evidence-Extends env calls proof request j t =
      option-holds (λ (x : Result (List Kind) × CustodyTables). Extends t x.1)
        (originals env proof request j) _ _ (unchanged t)
        (λ packages found. recover_each-Extends calls request packages j t)
