-- ===== src/Markets.antt =====
-- The market registry, `markets/`.
pub mod Domain
pub mod Gamma
pub mod Retrieval
pub mod Tokens
pub mod Registry
pub mod Repository
pub mod Service
