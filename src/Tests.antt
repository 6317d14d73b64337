-- ===== src/Tests.antt =====
-- The theorems at concrete inputs.
mod Security
mod RateLimit
mod Cache
mod HttpClient
mod Protection
mod Domain
mod Runtime
mod Audit
mod Keys
mod Database
mod Crud
mod Paging
mod Reload
mod Operations
