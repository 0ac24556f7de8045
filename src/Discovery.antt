-- ===== src/Discovery.antt =====
-- The discovery layer, `discovery/`.
pub mod Domain
pub mod Repository
pub mod Service
pub mod Strategies
pub mod Registry
