-- ===== src/Fetch.antt =====
-- The shared fetch component, mlsc/core/fetch.
pub mod Json
pub mod Contracts
pub mod Validate
pub mod Breaker
pub mod Throttle
pub mod Webhook
pub mod Cache
pub mod Client
mod Tests
