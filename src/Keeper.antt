-- ===== src/Keeper.antt =====
-- The keeper: scripts/keeper-v5.js and scripts/keeper/.
pub mod Thresholds
pub mod Claims
pub mod Alerts
pub mod Deployment
pub mod Actions
pub mod Lifecycle
pub mod Settlement
pub mod Loop
