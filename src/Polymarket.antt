-- ===== src/Polymarket.antt =====
-- `polymarket/`: the client of Polymarket's APIs and the parameters of its requests.
pub mod Params
pub mod Requests
pub mod Settings
pub mod Client
