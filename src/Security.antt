-- ===== src/Security.antt =====
-- framework/security.py
pub mod Permissions
pub mod Escalation
pub mod Walks
pub mod Roles
pub mod Delegation
pub mod Delegated
pub mod Claims
pub mod Tokens
pub mod ApiKeys
pub mod Authenticate
pub mod Coherence
pub mod Revocation
pub mod Sessions
pub mod Revoked
pub mod Race
