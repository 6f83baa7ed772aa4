-- ===== src/RecordGate.antt =====
-- experiments/pre-record-gate/record_gate: a gate that has an operation recorded before it is sent.
-- services.py is Audit and Backend, gate.py is Dispatch, common.py is Envelope, auth.py is Authority.
pub mod Envelope
pub mod Authority
pub mod Audit
pub mod Backend
pub mod Dispatch
pub mod Export
