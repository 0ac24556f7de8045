-- ===== src/Orderbooks.antt =====
-- The orderbook layer, `orderbooks/`.
pub mod Domain
pub mod Fields
pub mod Parser
pub mod Collection
pub mod Repository
pub mod Completion
pub mod Service
