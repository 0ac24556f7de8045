-- ===== src/Core.antt =====
-- What the layers share, `src/polymarket_market_discovery/core/`.
pub mod Time
pub mod Status
pub mod Models
pub mod Session
pub mod Lock
pub mod Recovery
