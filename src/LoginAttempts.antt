-- ===== src/LoginAttempts.antt =====
-- src/shared/security/login-attempt-tracker.ts: failed attempts are counted per identifier, in Redis
-- or, where none is configured, in the memory of the process. Five failures within fifteen minutes
-- lock the identifier for fifteen minutes.
-- The model's own part is the program's logic and its memory maps; Redis is a record of commands.
mod Defs
mod Memory
pub mod Locking
pub mod Outage
mod Tests
unfoldable pub use Defs.*
