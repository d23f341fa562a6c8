-- ===== src/Gateway.antt =====
-- services/api-gateway: the public API, which runs the deterministic extraction and queues recoveries.
pub mod Policy
pub mod Ports
pub mod UseCase
pub mod RateLimiter
pub mod Router
pub mod Dependencies
pub mod Doubles
