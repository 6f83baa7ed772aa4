-- ===== src/Runtime.antt =====
-- experiments/payment-runtime-pilot/payment_runtime.py: the loopback payment provider and the
-- adapter that claims a request once, posts it at most once and reconciles by reading.
pub mod Json
pub mod Outcome
pub mod Request
pub mod Receipt
pub mod Rows
pub mod Provider
pub mod Journal
pub mod Adapter
