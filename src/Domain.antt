-- ===== src/Domain.antt =====
-- framework/domain
pub mod Packs
pub mod Contract
