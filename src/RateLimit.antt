-- ===== src/RateLimit.antt =====
-- framework/rate_limit.py
pub mod Memory
pub mod Budget
pub mod Capacity
