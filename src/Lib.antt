-- ===== src/Lib.antt =====
-- JSON API Forge: a verification library of the framework's own logic. JSON API Forge serves REST
-- resources, operations, events and media for several projects, each described by JSON files. A request
-- passes the host and address checks, the body limit and the project's concurrency gate, is
-- authenticated, charged to a rate limit, and then handled; the answer may come from a cache, and the
-- audit writer records it in the background.
--
-- Parts, files of this library and the code they model:
--   * Security/Permissions, Security/Delegation, Security/Claims, Security/ApiKeys and
--     Security/Authenticate: framework/security.py (permission_matches, has_permission,
--     _expand_role_permissions; ensure_credential_delegation; _claim, _claim_set and the bearer branch
--     of authenticate_request; the table and the cache of API keys, create_api_key, revoke_api_key;
--     authenticate_request). Their theorems are in Escalation, Walks, Roles, Delegated, Tokens,
--     Coherence, Revocation, Sessions, Revoked and Race beside them.
--   * RateLimit/Memory: framework/rate_limit.py (MemoryRateLimiter); theorems in RateLimit/Budget and
--     RateLimit/Capacity.
--   * Cache/Memory and Cache/Manager: framework/cache.py (MemoryTTLCache; CacheManager over an interface
--     of a backend); theorems in Cache/Lru and Cache/FailOpen.
--   * Audit/Writer: framework/audit.py (AuditWriter); theorems in Audit/Ledger and
--     Audit/Accounting.
--   * HttpClient/Circuit: framework/services/http_client.py (ResilientHTTPClient.request); theorems in
--     HttpClient/Retries and HttpClient/Breaker.
--   * Protection/Proxy, Protection/Host, Protection/Gate, Protection/Body: framework/protection.py
--     (client_ip, request_is_https, ip_allowed; host_allowed; ConcurrencyGate;
--     RequestBodyLimitMiddleware); theorems on addresses in Protection/Spoofing, on Host headers in
--     Protection/Allowed.
--   * Runtime/Manager and Runtime/Lifecycle: framework/runtime.py (RuntimeManager: its construction and
--     paths; start and close); theorems in Runtime/Paths and Runtime/Leases.
--   * Domain/Packs: framework/domain/packs.py and the types of framework/config.py that it fills;
--     theorems in Domain/Contract.
--   * Crud: framework/crud.py. Crud/Model has the rows, the columns, ResourceConfig and the clauses of a
--     WHERE; Crud/Fields the payloads and the shown fields; Crud/Clauses the policies and the query
--     string; Crud/Engine the database as an interface with its laws; Crud/Reads and Crud/Writes the
--     handlers. Theorems in Crud/Written, Crud/Scope, Crud/Foreign, Crud/Isolation, Crud/Unbound,
--     Crud/Tenants and Crud/Shown, and on cursors in Crud/Paging.
--   * Reload/Ownership, Reload/Decide and Reload/Generations: framework/reload.py (_check_ownership;
--     the attempt of reload_now; _Generation, the counting of requests and the swap). Theorems in
--     Reload/Applied, Reload/Served, Reload/Runs and Reload/Invariant.
--   * Operations/Idempotency: framework/operations.py (_idempotency_cleanup_due and
--     execute_idempotent_operation). Theorems in Operations/Kept, Operations/Committed, Operations/Later,
--     Operations/First and Operations/Replay.
--   * Prelude: what all of them share: Python's dicts (Prelude/Dict), texts (Prelude/Text and
--     Prelude/Parts), exceptions as values (Prelude/Errors), lists and Boolean tests.
--   * Tests: the theorems at concrete inputs.
--
-- How the code becomes a model: a record holds the fields of an object, and a method is a function
-- on it. asyncio runs one task at a time, so the code between two awaits, and the code under a
-- lock, is one step; where tasks interleave, a list of events says in which order the steps come.
-- These operations are one step although they await the database or a service: a login, a
-- creation and a revocation of an API key; the start and the close of a manager; a load of a cached
-- value; the end of the wait and the cancellation in the close of the audit writer. A reload is two
-- steps, its clean-up and its end; a transaction and a handler of a resource are one. What happens when
-- two logins or changes of keys overlap is covered for one case only, in Security/Race.
-- Times are numbers of ticks, 10^9 in a second, and readings of a clock are arguments. The
-- limiter's floats are exact numbers of parts of a token, so rounding, which in the code can leave a
-- bucket a little short at the very end of a wait, is not modelled. Header texts are lists of ASCII codes,
-- and details of HTTP errors keep the fixed part of their text. Sets are lists of which only the
-- members count.
--
-- Parameters: Python's ipaddress (parse_ip, in_network), SHA-256 (hash_key, digest), PyJWT (decode),
-- the text of a JSON array or object (str), HTTPX's network and status test (send, is_success), the
-- database of the audit writer (the events that say what it does), the equality of configurations and
-- the start of services (same, starts), the database of the resources with SQLAlchemy's statements
-- (Engine, with the laws Sql, Collation and Listing), base64 and JSON (Codecs), the backend and the JSON
-- of the cache (Backend, parse, dump), the validation of JSON schemas, what a reload meets
-- (Surroundings), and the statements of an operation with the SELECT of expired rows (execute,
-- expired_ids with FindsExpired).
--
-- Bounds: the walk over roles has a depth of the number of roles plus two, and a theorem shows that it
-- always ends within it. A walk over pages has a bound on its requests, and a theorem shows that one
-- more than the table has rows is enough. The loop of retries recurses on the attempts that are left.
-- Every other loop follows a list.
--
-- Not modelled: Redis and its Lua script, the database servers and their drivers, files and object
-- storage, the routes and middleware of FastAPI, metrics and logs, the command line, the editor, the
-- TypeScript client and the scripts. TieredCache, the registry of locks of CacheManager, events, the
-- statements and parameters of operations, the watcher of reloads, data sources, validation, media
-- quotas, the checks of configurations and the fetching of JWKS are left out as well.
pub mod Prelude
pub mod Cache
pub mod RateLimit
pub mod Security
pub mod HttpClient
pub mod Domain
pub mod Crud
pub mod Protection
pub mod Audit
pub mod Runtime
pub mod Reload
pub mod Operations
pub mod Tests
