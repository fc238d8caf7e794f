-- ===== src/Draw.antt =====
-- The draw computation, scripts/draw/compute-winners.js.
pub mod Merkle
pub mod Input
pub mod Leaves
