-- ===== src/Crud.antt =====
-- framework/crud.py: the REST handlers of a resource over the table that it is bound to.
pub mod Model
pub mod Fields
pub mod Clauses
pub mod Engine
pub mod Reads
pub mod Writes
pub mod Written
pub mod Calls
pub mod Unbound
pub mod Tenants
pub mod Shown
pub mod Paging
pub mod Isolation
pub mod Foreign
pub mod Scope
