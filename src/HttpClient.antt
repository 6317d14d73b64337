-- ===== src/HttpClient.antt =====
-- framework/services/http_client.py
pub mod Circuit
pub mod Retries
pub mod Breaker
