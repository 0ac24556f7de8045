-- ===== src/Discovery/Strategies.antt =====
-- `discovery/strategies/`: the strategy that intersects two leaderboards.
pub mod Paging
pub mod Rows
pub mod Leaderboard
pub mod Positions
pub mod Whale
