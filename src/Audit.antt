-- ===== src/Audit.antt =====
-- framework/audit.py
pub mod Writer
pub mod Ledger
pub mod Accounting
