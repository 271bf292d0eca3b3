-- ===== src/Auth.antt =====
-- src/modules/auth, with the user table that it works on: accounts, refresh-token families,
-- single-use tokens, login.
pub mod Data
pub mod Monad
pub mod Users
pub mod Repository
pub mod Refresh
pub mod Sessions
pub mod Recovery
pub mod Mfa
pub mod Login
pub mod LoginLaws
pub mod MfaLaws
pub mod RecoveryLaws
pub mod SessionLaws
mod Rows
pub mod Interleaving
pub mod Sequential
pub mod Rotation
pub mod Reuse
mod TableSteps
mod RevocationSteps
pub mod History
pub mod Exchange
pub mod Families
pub mod Sample
mod Tests
mod LoginTests
mod RaceTests
