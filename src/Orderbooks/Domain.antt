-- ===== src/Orderbooks/Domain.antt =====
-- `orderbooks/domain.py`: levels, parsed books and results of the orderbook layer.
use polymarket_market_discov.Base.{ℕ, String, Bool, Option, List}
use polymarket_market_discov.Base.Decimal.{Decimal}
use polymarket_market_discov.Base.Json.{Fields}
use polymarket_market_discov.Core.Status.{Status}
use polymarket_market_discov.Core.Time.{Timestamp, Datetime}

abbrev pub parser_version_tag : String
parser_version_tag = "orderbook_parser_v1"

pub record OrderBookLevel : Type 0 where
  pub price : Decimal
  pub size : Decimal

-- A level as it is dumped: both numbers as texts.
pub record DumpedLevel : Type 0 where
  pub price : String
  pub size : String

pub record OrderBookCollectionItemPayload : Type 0 where
  pub condition_id : String
  pub token_id : String
  pub outcome : String
  pub market_status_checked_at : Timestamp
  pub selected_at : Timestamp

pub record ParsedOrderBook : Type 0 where
  pub condition_id : String
  pub token_id : String
  pub generated_at : Timestamp
  pub exchange_timestamp : Option Datetime
  pub exchange_timestamp_raw : Option String
  pub best_bid : Option Decimal
  pub best_ask : Option Decimal
  pub midpoint : Option Decimal
  pub spread : Option Decimal
  pub last_trade_price : Option Decimal
  pub bid_depth_top_1 : Decimal
  pub ask_depth_top_1 : Decimal
  pub bid_depth_top_3 : Decimal
  pub ask_depth_top_3 : Decimal
  pub bid_depth_top_5 : Decimal
  pub ask_depth_top_5 : Decimal
  pub bid_levels_count : ℕ
  pub ask_levels_count : ℕ
  pub min_order_size : Option Decimal
  pub tick_size : Option Decimal
  pub negative_risk : Option Bool
  pub bids : List DumpedLevel
  pub asks : List DumpedLevel
  pub book_hash : Option String
  pub valid_orderbook : Bool
  pub invalid_reason : Option String
  pub parser_version : String
  pub raw_payload : Fields

pub record OrderBookCollectionResult : Type 0 where
  pub run_id : Option String
  pub status : Status
  pub skip_reason : Option String
  pub selected_market_count : ℕ
  pub selected_token_count : ℕ
  pub success_count : ℕ
  pub failure_count : ℕ
  pub snapshots : List ParsedOrderBook
  pub generated_at : Timestamp
