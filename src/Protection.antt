-- ===== src/Protection.antt =====
-- framework/protection.py
pub mod Proxy
pub mod Spoofing
pub mod Host
pub mod Allowed
pub mod Gate
pub mod Body
