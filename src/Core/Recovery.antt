-- ===== src/Core/Recovery.antt =====
-- `core/db/recovery.py`: rows that a crashed run left behind are failed.
pub mod Settled
use polymarket_market_discov.Base.{
  String, ◌≡◌, refl, Bool, true, false, ◌&&◌, some, List, [], ◌∷◌, map, arith, if◌then◌else◌, ◌==◌,
  update_where, any_of, keep_if,
}
use polymarket_market_discov.Base.Dict.{contains}
use polymarket_market_discov.Core.Status.{Status, pending, running, failed, status_eq}
use polymarket_market_discov.Core.Models.{
  Database, MarketDiscoveryRun, MarketRegistrySyncRun, OrderbookCollectionRun,
  OrderbookCollectionItem,
}
use polymarket_market_discov.Core.Time.{Timestamp}
use polymarket_market_discov.Discovery.Domain.{StrategyExecutionLogEntry}

abbrev pub orphaned_run_error : String
orphaned_run_error = "Recovered orphaned run after collector lock was released"

abbrev pub fail_entry : Timestamp → StrategyExecutionLogEntry → StrategyExecutionLogEntry
fail_entry recovered_at entry = record entry {
  status = failed;
  finished_at = some recovered_at;
  error_message = some orphaned_run_error;
}

abbrev pub entry_running : StrategyExecutionLogEntry → Bool
entry_running entry = status_eq entry.status running

abbrev pub discovery_running : MarketDiscoveryRun → Bool
discovery_running run = status_eq run.status running

abbrev pub sync_running : MarketRegistrySyncRun → Bool
sync_running run = status_eq run.status running

abbrev pub collection_running : OrderbookCollectionRun → Bool
collection_running run = status_eq run.status running

unfoldable pub recover_discovery_run : Timestamp → MarketDiscoveryRun → MarketDiscoveryRun
recover_discovery_run recovered_at run = record run {
  strategy_log = update_where entry_running (fail_entry recovered_at) run.strategy_log;
  status = failed;
  finished_at = some recovered_at;
  error_message = some orphaned_run_error;
}

unfoldable pub recover_sync_run : Timestamp → MarketRegistrySyncRun → MarketRegistrySyncRun
recover_sync_run recovered_at run = record run {
  status = failed;
  finished_at = some recovered_at;
  error_message = some orphaned_run_error;
}

unfoldable pub recover_item : OrderbookCollectionItem → OrderbookCollectionItem
recover_item item = record item { status = failed; api_error = some orphaned_run_error }

unfoldable pub recover_collection_run : Timestamp → OrderbookCollectionRun → OrderbookCollectionRun
recover_collection_run recovered_at run = record run {
  status = failed;
  finished_at = some recovered_at;
  error_message = some orphaned_run_error;
}

abbrev pub run_ids : List OrderbookCollectionRun → List String
run_ids runs = map (λ run. run.run_id) runs

unfoldable pub orphaned_orderbook_ids : Database → List String
orphaned_orderbook_ids db = run_ids (keep_if collection_running db.collection_runs)

abbrev pub is_orphan_item : List String → OrderbookCollectionItem → Bool
is_orphan_item ids item = contains item.run_id ids && status_eq item.status pending

abbrev pub is_orphan_run : List String → OrderbookCollectionRun → Bool
is_orphan_run ids run = contains run.run_id ids

-- The two updates under `if orphaned_orderbook_ids`.
abbrev pub recover_collections : List String → Timestamp → Database → Database
recover_collections [] recovered_at db = db
recover_collections (id ∷ ids) recovered_at db = record db {
  collection_items = update_where (is_orphan_item (id ∷ ids)) recover_item db.collection_items;
  collection_runs =
      update_where (is_orphan_run (id ∷ ids)) (recover_collection_run recovered_at)
        db.collection_runs;
}

abbrev pub recover_runs : Timestamp → Database → Database
recover_runs recovered_at db = record db {
  discovery_runs =
      update_where discovery_running (recover_discovery_run recovered_at) db.discovery_runs;
  sync_runs = update_where sync_running (recover_sync_run recovered_at) db.sync_runs;
}

unfoldable pub recover_orphaned_runs : Timestamp → Database → Database
recover_orphaned_runs recovered_at db =
    recover_collections (orphaned_orderbook_ids db) recovered_at (recover_runs recovered_at db)
