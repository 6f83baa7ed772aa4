-- ===== src/Erasure/Recorded.antt =====
-- provider.py: a confirmed unlink is in the journal.
use mathlib.Core.Path.{subst}
use vap_spec.Base.{
  ◌≡◌, refl, sym, ap, some, String, List, inl, inr, Bool-cases, Option-cases, arith,
}
use vap_spec.Pilot.{PilotLib}
use vap_spec.Pilot.Journal.{find_row}
use vap_spec.Erasure.Task.{Context}
use vap_spec.Erasure.{
  End, local_unlink_confirmed, ended, final, row_is, ErasureResult, Row, valid_result, finish,
}
use vap_spec.Erasure.Delete.{
  World, Env, Provider, Call, happen, is_accepted, persist, captured, deleted, delete, delete_task,
}
use vap_spec.Erasure.Journal.{finish-acknowledged}
use vap_spec.Erasure.Exits.{Exit, idle, held, tried, delete_task-Exit}
use vap_spec.Erasure.Results.{anything}

-- The journal has the result as the terminal one of the request.
abbrev pub IsRecorded : String → ErasureResult → List Row → Type 0
IsRecorded q r rows =
    (row : Row) × (find_row q rows ≡ some row)
    × (row.state ≡ ended local_unlink_confirmed)
    × (row.result ≡ some r)

module _ (lib : PilotLib) (config : Provider) where
  persist-IsRecorded :
      (env : Env) (context : Context) (e : End) (given : ErasureResult) (w : World)
      → (persist lib config env context e given w).0.state ≡ final local_unlink_confirmed
      → IsRecorded context.request_id
          (persist lib config env context e given w).0
          (persist lib config env context e given w).1.journal
  unfolding persist
  persist-IsRecorded env context e given w h =
      let result : ErasureResult = record given {
        state = final e;
        journal_state = row_is (ended e);
      } in
      let before = (happen lib config env.at_finish w).journal in
      let (ack, rows) =
        finish lib config.pins env.finish_commit context.request_id e result before in
      elim (Bool-cases (is_accepted lib config context e result ack)) [
        | inr refused ↦ absurd (ground (arith, refused, h))
        | inl accepted ↦ elim (Option-cases ack) [
          | inl gone ↦ absurd (ground (arith, gone, accepted))
          | inr (r, there) ↦
              let (old, found, intent, now) =
                finish-acknowledged lib config.pins env.finish_commit context.request_id e result
                  before r there in
              let is_end : e ≡ local_unlink_confirmed = ground (arith, accepted, h) in
              (
                record old { state = ended e; result = some result },
                now,
                ap ended is_end,
                rw accepted refl,
              )
        ]
      ]

  module _ (c : Call) (context : Context) (name : String) where
    exit-IsRecorded :
        (x : ErasureResult × World)
        → Exit lib config c context name (anything lib config c context name) x
        → x.0.state ≡ final local_unlink_confirmed
        → IsRecorded context.request_id x.0 x.1.journal
    unfolding valid_result
    exit-IsRecorded x (idle r w still valid u) h = absurd (ground (arith, still, valid, h))
    exit-IsRecorded x (held e given w still valid u) h =
        persist-IsRecorded c.env context e given w h
    exit-IsRecorded x (tried e given w now valid seen u) h =
        persist-IsRecorded c.env context e given w h

  deleted-IsRecorded :
      (c : Call) (context : Context) (name : String) (w : World) (r : ErasureResult)
      → (deleted lib config c (some (context, name)) w).0 ≡ some r
      → r.state ≡ final local_unlink_confirmed
      → IsRecorded context.request_id r (deleted lib config c (some (context, name)) w).1.journal
  deleted-IsRecorded c context name w r h =
      let (result, w') = delete_task lib config c context name w in
      let same : result ≡ r = cc in
      subst
        (λ v. v.state ≡ final local_unlink_confirmed → IsRecorded context.request_id v w'.journal)
        same
        (exit-IsRecorded c context name _
          (delete_task-Exit lib config c context name (anything lib config c context name) w tt))

-- Where `delete` reports a confirmed unlink, the journal has that result as the terminal one of the
-- task's request, whatever other processes did in between.
pub delete-IsRecorded :
    (lib : PilotLib) (config : Provider) (c : Call) (context : Context) (name : String) (w : World)
    (r : ErasureResult)
    → captured lib config c ≡ some (context, name)
    → (delete lib config c w).0 ≡ some r
    → r.state ≡ final local_unlink_confirmed
    → IsRecorded context.request_id r (delete lib config c w).1.journal
unfolding delete
delete-IsRecorded lib config c context name w r e h =
    subst
      (λ found.
        (deleted lib config c found w).0 ≡ some r
        → r.state ≡ final local_unlink_confirmed
        → IsRecorded context.request_id r (deleted lib config c found w).1.journal)
      (sym e) (deleted-IsRecorded lib config c context name w r) h
