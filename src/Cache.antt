-- ===== src/Cache.antt =====
-- framework/cache.py
pub mod Memory
pub mod Lru
pub mod Manager
pub mod FailOpen
