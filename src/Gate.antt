-- ===== src/Gate.antt =====
-- experiments/payment-authorization-pilot/authorization_gate.py: admission of a payment by signed
-- approvals and a status, in front of the adapter of the payment runtime.
pub mod Findings
pub mod Policy
pub mod Evidence
pub mod Assess
pub mod Admission
