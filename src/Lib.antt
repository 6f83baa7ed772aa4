-- ===== src/Lib.antt =====
-- Verification of the experiments of this repository that decide, dispatch and record.
--
-- The repository specifies an audit-trail format (VAP) and tries out its ideas in Python programs
-- under experiments/. Modelled here are the programs whose correctness is a matter of ordering, of
-- state in a database and of signed evidence:
--
--   experiments/payment-runtime-pilot/payment_runtime.py: an adapter claims a payment durably,
--     posts it to a provider at most once and stores the provider's signed receipt; the provider
--     moves money between two balances, at most once for a request.
--   experiments/payment-authorization-pilot/authorization_gate.py: a gate in front of the adapter,
--     which admits a new claim only on two signed approvals and a signed credential status.
--   experiments/pre-record-gate/record_gate/: a gate that has an operation recorded by an audit
--     service before it is sent to a simulated API.
--   experiments/declared-scope-verifier/scope_verifier/crypto.py: Merkle trees with inclusion
--     proofs, and the digests and envelopes that the pre-record gate shares.
--   experiments/control-state-evidence/control_evidence.py: the judgment whether declared paths were
--     closed in an observation.
--   experiments/incident-evidence-assessor/incident_assessor/model.py: the trust configuration of an
--     evaluator.
--   experiments/payment-collector-pilot/payment_collector.py: a collector that keeps the original
--     evidence of payments, what its clients verify, and a wrapper of the gate that lets a payment be
--     posted only when the collector has the record of its admission.
--   experiments/incident-publication-pilot/publication_pilot/store.py: a publisher of one file for a
--     request, with a journal of intents and terminal results.
--   experiments/incident-erasure-pilot/erasure_pilot/: a provider that removes one object for a
--     signed task, with a journal of the same kind.
--
-- The files:
--
--   Base, Base/: names that the other modules share; tests and lists over native numbers; texts.
--   Merkle, Merkle/: crypto.py. Defs has split, merkle_root, audit_path and inclusion under these
--     names (`fold` is the function inside of inclusion), Hex the hexadecimal digests, Levels the
--     level-by-level computation that merkle_root is compared with. The rest are
--     proofs. A hash is a list of bytes, and SHA-256 a function that each definition takes.
--   Runtime/Json, Runtime/Request, Runtime/Receipt: the values, requests and receipts of
--     payment_runtime.py. `canonical_json`, `load_json`, `request_bytes`, `prepare`,
--     `signed_receipt` and `verify_receipt` have the names of the functions they model.
--   Runtime/Outcome: exceptions as values, and the decision that an exception carries.
--   Runtime/Rows: what both SQLite stores share: `transaction` is BEGIN IMMEDIATE to COMMIT with
--     ROLLBACK on every exception, `find` is _find, `insert` is INSERT under the table's keys.
--   Runtime/Provider: _apply_payment and, in Provider/Http, do_POST and _lookup_payment. The store
--     is a record of its tables; a payment is a row of payments and one of effects.
--   Runtime/Journal, Runtime/Adapter: _claim, _read, _store_receipt, _submit_prepared, submit,
--     reconcile and read_status of the class Adapter. The journal is the table dispatches and the
--     table authorization_proofs, which the gate keeps in the same database. The state adds the
--     requests that were posted, in order.
--   Gate/: authorization_gate.py. Findings is _Decision, Policy the configuration, Evidence
--     _freeze_evidence and _verified, Assess _assess, Admission the callback `admit` with submit and
--     reconcile of AuthorizedAdapter.
--   RecordGate/: Envelope is common.py, Authority is auth.py, Audit and Backend are the two roles of
--     the class Service in services.py, Dispatch is gate.py, Export is validate_events of bridge.py.
--   ControlState: preflight of control_evidence.py.
--   Assessor: model.py, the tests on input values and validate_trust.
--   Collector, Collector/: payment_collector.py. Collector has the packages and signed statements,
--     Custody verify_ack and verify_readback, Store the table collection_records with _collect,
--     _readback, do_POST and do_GET. CollectorLib adds bytes.hex and bytes.fromhex to Platform.
--     Client is CollectorClient, Adapter is CollectedAdapter: its tables, _persist and submit, with
--     its two callbacks (`before`, `after`) where the payment adapter calls them, and in
--     Adapter/Recovery recover_evidence. What read_authorization finds is an input of these.
--   Pilot, Pilot/: what the two incident pilots share. Pilot is protocol.py, Journal the table of the journals
--     with its statements, Files a directory, OneShot the interface that both services fill.
--   Publication, Publication/: store.py. Publication has the journal (_claim, _finish, get, _replay),
--     Publish the method publish with _persist and _read_artifact. The world of a call is the
--     journal, the visible directory and the names in the private one.
--   Erasure, Erasure/: Task is validate_task of adapter.py, Erasure the journal of provider.py, Delete
--     the method delete with _measure, _time, _record and _persist. The rest are proofs, over the
--     ways in which delete can end (Exits).
--   Tests/: the definitions at concrete inputs, and instances of the theorems.
--
-- The parts meet where the code has them meet: a gate's submission calls the adapter's with a
-- callback that runs in the transaction of the claim, so that its exception rolls the claim back, and
-- the custody adapter calls the gate's with callbacks that run between the claim and the POST, and
-- after a stored receipt.
--
-- Parameters. What the code takes from Python and from packages is a record that the definitions
-- take: JsonLib (json and unicodedata), Platform (with hashlib and Ed25519), Jcs (with rfc8785),
-- InputLib (with str.strip and datetime) and PilotLib (InputLib with hashlib and Ed25519).
-- No law of these is assumed, but where a theorem has it as a hypothesis or names a collision of the
-- hash. A text stands for the bytes of its encoding; lengths are counted in characters.
--
-- The environment. A call has a record of what goes wrong in it and of what the other side answers:
-- Env for the adapter, Weather for the provider, Answers for the pre-record gate, Exchange and
-- CallbackEnv for the custody adapter. In the publication and the erasure pilot it also has what
-- other processes do to the journal and to the directory in between, as lists of events. The
-- theorems hold for all of them, so for lost answers, forged answers, failing databases and raising
-- hooks. A run is a list of calls; transactions of one database do not overlap, as SQLite's locks see
-- to.
--
-- Bounds and fuel. merkle_root, audit_path and fold recurse on fuel, which is the number of leaves;
-- the equations of the root at every size show that it is enough. Other loops are structural. Python
-- integers are natural numbers, with the bounds that the code checks.
--
-- Not modelled: HTTP transport, process start and the command lines; the faults that kill a process;
-- the historical recheck of a proof record; the other experiments (evidence readers, incident
-- workflows, the incident collector), the reading of recorded custody in payment_collector.py, the
-- suites, demonstrations and fixtures.
mod Base
pub mod Merkle
pub mod Runtime
pub mod Gate
pub mod RecordGate
pub mod ControlState
pub mod Assessor
pub mod Pilot
pub mod Publication
pub mod Erasure
pub mod Collector
mod Tests
