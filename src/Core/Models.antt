-- ===== src/Core/Models.antt =====
-- `core/db/models/`: a row of each table, and the database as the tables' rows in the order of
-- insertion. Left out are the columns that the program never reads: the surrogate keys `id`
-- and the times `created_at`, which the database fills in.
use polymarket_market_discov.Base.{ℕ, String, Bool, Option, List, []}
use polymarket_market_discov.Base.Json.{Fields}
use polymarket_market_discov.Core.Status.{Status}
use polymarket_market_discov.Core.Time.{Timestamp, Datetime}
use polymarket_market_discov.Discovery.Domain.{DiscoveryEvidenceEnvelope, StrategyExecutionLogEntry}
use polymarket_market_discov.Orderbooks.Domain.{ParsedOrderBook}

pub record MarketDiscoveryRun : Type 0 where
  pub run_id : String
  pub status : Status
  pub started_at : Timestamp
  pub finished_at : Option Timestamp
  pub strategies : List String
  pub strategy_log : List StrategyExecutionLogEntry
  pub observation_count : ℕ
  pub discovered_market_count : ℕ
  pub registry_synced_at : Option Timestamp
  pub error_message : Option String

pub record MarketDiscoveryObservation : Type 0 where
  pub discovery_run_id : String
  pub strategy : String
  pub strategy_version : String
  pub condition_id : String
  pub observed_at : Timestamp
  pub evidence_json : DiscoveryEvidenceEnvelope

pub record MarketRegistrySyncRun : Type 0 where
  pub run_id : String
  pub status : Status
  pub started_at : Timestamp
  pub finished_at : Option Timestamp
  pub input_discovery_run_ids : List String
  pub checked_market_count : ℕ
  pub created_market_count : ℕ
  pub updated_market_count : ℕ
  pub error_message : Option String

pub record PolymarketMarket : Type 0 where
  pub condition_id : String
  pub event_id : Option String
  pub slug : Option String
  pub title : Option String
  pub question : Option String
  pub end_date : Option Datetime
  pub active : Option Bool
  pub closed : Option Bool
  pub archived : Option Bool
  pub enable_order_book : Option Bool
  pub first_discovered_at : Timestamp
  pub last_discovered_at : Timestamp
  pub status_checked_at : Timestamp
  pub raw_latest_payload : Fields
  pub updated_at : Timestamp

pub record PolymarketToken : Type 0 where
  pub token_id : String
  pub condition_id : String
  pub outcome : String
  pub outcome_index : ℕ
  pub first_seen_at : Timestamp
  pub last_seen_at : Timestamp

pub record MarketStatusSnapshot : Type 0 where
  pub sync_run_id : String
  pub condition_id : String
  pub checked_at : Timestamp
  pub active : Option Bool
  pub closed : Option Bool
  pub archived : Option Bool
  pub enable_order_book : Option Bool
  pub end_date : Option Datetime
  pub raw_payload : Fields

-- `config_json` is given by its two entries.
pub record OrderbookCollectionRun : Type 0 where
  pub run_id : String
  pub started_at : Timestamp
  pub finished_at : Option Timestamp
  pub status : Status
  pub selected_market_count : ℕ
  pub selected_token_count : ℕ
  pub success_count : ℕ
  pub failure_count : ℕ
  pub batch_size : ℕ
  pub market_registry_max_age_seconds : ℕ
  pub error_message : Option String

pub record OrderbookCollectionItem : Type 0 where
  pub run_id : String
  pub condition_id : String
  pub token_id : String
  pub outcome : String
  pub market_status_checked_at : Timestamp
  pub selected_at : Timestamp
  pub status : Status
  pub api_error : Option String

-- A stored book: the parsed book under the run that collected it.
pub record OrderbookSnapshot : Type 0 where
  pub run_id : String
  pub book : ParsedOrderBook
  pub open book use *

pub record Database : Type 0 where
  pub discovery_runs : List MarketDiscoveryRun
  pub observations : List MarketDiscoveryObservation
  pub sync_runs : List MarketRegistrySyncRun
  pub markets : List PolymarketMarket
  pub tokens : List PolymarketToken
  pub status_snapshots : List MarketStatusSnapshot
  pub collection_runs : List OrderbookCollectionRun
  pub collection_items : List OrderbookCollectionItem
  pub orderbook_snapshots : List OrderbookSnapshot

abbrev pub empty_database : Database
empty_database = record {
  discovery_runs = [];
  observations = [];
  sync_runs = [];
  markets = [];
  tokens = [];
  status_snapshots = [];
  collection_runs = [];
  collection_items = [];
  orderbook_snapshots = [];
}
