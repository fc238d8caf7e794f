-- ===== src/Logs.antt =====
-- scripts/draw/write-watch-inputs.mjs: how the draw input's events are read from the chain.
pub mod Ranges
pub mod Search
pub mod Accounts
pub mod DrawInput
pub mod Retries
pub mod Cache
mod Tests
