-- ===== src/Runtime.antt =====
-- framework/runtime.py
pub mod Manager
pub mod Lifecycle
pub mod Paths
pub mod Leases
