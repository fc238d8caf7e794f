-- ===== src/Watcher.antt =====
-- scripts/draw/watch-root-proposals.mjs and scripts/draw/independent-watcher-cache.mjs: the watcher
-- that recomputes the root of every draw and raises an alarm in time for a veto.
pub mod Actions
pub mod Events
pub mod Batches
pub mod Cache
pub mod Node
pub mod Sync
pub mod States
pub mod Invariant
pub mod Verify
pub mod Round
mod Tests
