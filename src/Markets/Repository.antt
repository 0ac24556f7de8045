-- ===== src/Markets/Repository.antt =====
-- `markets/repository.py`: the input of a registry sync, and its one transaction.
pub mod Commit
use polymarket_market_discov.Base.{
  ℕ, String, Bool, true, not, ◌&&◌, ◌||◌, Option, none, some, List, [], ◌∷◌, ◌++◌, map, length, eqb,
  ltb, ◌==◌, keep_if, update_where, any_of, is_some,
}
use polymarket_market_discov.Base.Dict.{contains, is_distinct}
use polymarket_market_discov.Base.Result.{ok, value_error, raise_if, Exec, ◌>>=◌, ◌>>◌}
use polymarket_market_discov.Base.Sort.{sort_by, sorted_set, leb_text}
use polymarket_market_discov.Core.Models.{
  Database, MarketDiscoveryRun, MarketDiscoveryObservation, MarketRegistrySyncRun, PolymarketMarket,
}
use polymarket_market_discov.Core.Session.{transaction, constraint}
use polymarket_market_discov.Core.Status.{running, completed, failed, status_eq}
use polymarket_market_discov.Core.Time.{Timestamp}
use polymarket_market_discov.Markets.Domain.{PolymarketMarketPayload}
use polymarket_market_discov.Markets.Retrieval.{condition_ids}
use polymarket_market_discov.Markets.Registry.{Registry, registry_of, sync_markets}

pub record MarketSyncInput : Type 0 where
  pub discovery_run_ids : List String
  pub condition_ids : List String

-- A completed discovery run that no sync has taken in yet.
abbrev pub is_unsynced : MarketDiscoveryRun → Bool
is_unsynced run = status_eq run.status completed && not (is_some run.registry_synced_at)

-- `order_by(started_at, run_id)`
abbrev pub starts_before : MarketDiscoveryRun → MarketDiscoveryRun → Bool
starts_before a b =
    ltb a.started_at b.started_at || eqb a.started_at b.started_at && leb_text a.run_id b.run_id

-- `column.is_(False) or column.is_(None)`
abbrev pub not_true : Option Bool → Bool
not_true none = true
not_true (some b) = not b

-- A market that is neither closed nor archived is checked again.
abbrev pub is_refreshable : PolymarketMarket → Bool
is_refreshable market = not_true market.closed && not_true market.archived

unfoldable pub pending_conditions : List String → List MarketDiscoveryObservation → List String
pending_conditions run_ids observations =
    map (λ o. o.condition_id) (keep_if (λ o. contains o.discovery_run_id run_ids) observations)

unfoldable pub refresh_conditions : List PolymarketMarket → List String
refresh_conditions markets = map (λ m. m.condition_id) (keep_if is_refreshable markets)

unfoldable pub unsynced_run_ids : List MarketDiscoveryRun → List String
unsynced_run_ids runs = map (λ r. r.run_id) (sort_by starts_before (keep_if is_unsynced runs))

unfoldable pub get_market_sync_input : Database → MarketSyncInput
get_market_sync_input db =
    let run_ids = unsynced_run_ids db.discovery_runs in
    record {
      discovery_run_ids = run_ids;
      condition_ids =
          sorted_set (pending_conditions run_ids db.observations ++ refresh_conditions db.markets);
    }

abbrev pub has_run_id : String → MarketRegistrySyncRun → Bool
has_run_id run_id run = run.run_id == run_id

abbrev pub new_sync_run : String → Timestamp → List String → MarketRegistrySyncRun
new_sync_run run_id started_at input_discovery_run_ids = record {
  run_id = run_id;
  status = running;
  started_at = started_at;
  finished_at = none;
  input_discovery_run_ids = input_discovery_run_ids;
  checked_market_count = 0;
  created_market_count = 0;
  updated_market_count = 0;
  error_message = none;
}

unfoldable pub create_market_sync_run : String → Timestamp → List String → Exec Database (Unit {0})
unfolding transaction
create_market_sync_run run_id started_at input_discovery_run_ids = transaction λ db. do
  constraint (any_of (has_run_id run_id) db.sync_runs) "market_registry_sync_runs_pkey"
  ok (
    tt,
    record db {
      sync_runs = db.sync_runs ++ new_sync_run run_id started_at input_discovery_run_ids ∷ [];
    },
  )

abbrev pub mark_synced : Timestamp → MarketDiscoveryRun → MarketDiscoveryRun
mark_synced checked_at run = record run { registry_synced_at = some checked_at }

abbrev pub complete_run : Timestamp → ℕ → Registry → MarketRegistrySyncRun → MarketRegistrySyncRun
complete_run checked_at count r run = record run {
  status = completed;
  finished_at = some checked_at;
  checked_market_count = count;
  created_market_count = r.created;
  updated_market_count = r.updated;
}

-- The rows that the transaction writes behind the loop.
abbrev pub write_registry : String → List String → Timestamp → ℕ → Registry → Database → Database
write_registry run_id discovery_run_ids checked_at count r db = record db {
  markets = r.markets;
  tokens = r.tokens;
  status_snapshots = r.snapshots;
  discovery_runs =
      update_where (λ run. contains run.run_id discovery_run_ids) (mark_synced checked_at)
        db.discovery_runs;
  sync_runs = update_where (has_run_id run_id) (complete_run checked_at count r) db.sync_runs;
}

unfoldable pub complete_market_sync_run :
    String → List PolymarketMarketPayload → List String → Timestamp → Exec Database (ℕ × ℕ)
complete_market_sync_run run_id payloads discovery_run_ids checked_at = transaction λ db. do
  raise_if (not (is_distinct (condition_ids payloads)))
      (value_error "Registry payloads contain duplicate condition IDs")
  r ←
      sync_markets run_id (any_of (has_run_id run_id) db.sync_runs) db.observations checked_at
        payloads (registry_of db)
  ok (
    (r.created, r.updated),
    write_registry run_id discovery_run_ids checked_at (length payloads) r db,
  )

abbrev pub fail_run : Timestamp → String → MarketRegistrySyncRun → MarketRegistrySyncRun
fail_run finished_at error_message run = record run {
  status = failed;
  finished_at = some finished_at;
  error_message = some error_message;
}

unfoldable pub fail_market_sync_run : String → Timestamp → String → Database → Database
fail_market_sync_run run_id finished_at error_message db = record db {
  sync_runs = update_where (has_run_id run_id) (fail_run finished_at error_message) db.sync_runs;
}
