-- ===== src/Operations.antt =====
-- framework/operations.py: operations that run at most once for a key.
pub mod Idempotency
pub mod Kept
pub mod Committed
pub mod Later
pub mod First
pub mod Replay
