-- ===== src/Reliability.antt =====
-- src/shared/reliability: `withBulkhead`, `withRetry` and `idempotencyMiddleware`.
pub mod Bulkhead
pub mod Turns
pub mod Retry
pub mod Idempotency
pub mod IdempotencyLaws
pub mod Replays
mod Tests
