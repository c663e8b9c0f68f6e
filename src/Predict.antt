-- ===== src/Predict.antt =====
-- Prediction markets: the registry, its administration and the order builders.
pub mod Registry
pub mod Admin
pub mod Deploy
pub mod Orders
pub mod Stats
pub mod Markets
mod Tests
