-- ===== src/Reload.antt =====
-- framework/reload.py: the reload of the apps' configurations while requests are served.
pub mod Ownership
pub mod Decide
pub mod Applied
pub mod Generations
pub mod Served
pub mod Runs
pub mod Invariant
