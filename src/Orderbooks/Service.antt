-- ===== src/Orderbooks/Service.antt =====
-- `OrderbookCollectionService` of `orderbooks/service.py`.
pub mod Resolved
pub mod Ownership
pub mod Settled
use polymarket_market_discov.Base.{
  ℕ, ◌-◌, ◌*◌, String, Bool, true, false, not, ◌||◌, Option, none, some, List, [], ◌∷◌, length, ltb,
  if◌then◌else◌,
}
use polymarket_market_discov.Base.Batches.{batches}
use polymarket_market_discov.Base.Dict.{distinct}
use polymarket_market_discov.Base.Json.{Json}
use polymarket_market_discov.Base.Result.{
  Result, ok, raise, str, value_error, raise_if, Exec, ◌>>=◌, ◌>>◌,
}
use polymarket_market_discov.Base.Runtime.{Runtime}
use polymarket_market_discov.Base.Text.{f_string}
use polymarket_market_discov.Core.Lock.{Lock, behind_lock, with_pipeline_lock}
use polymarket_market_discov.Core.Models.{Database}
use polymarket_market_discov.Core.Recovery.{recover_orphaned_runs}
use polymarket_market_discov.Core.Status.{Status, skipped}
use polymarket_market_discov.Core.Time.{Timestamp, Datetime, ensure_utc}
use polymarket_market_discov.Orderbooks.Collection.{Collected, nothing_collected, collect_batches}
use polymarket_market_discov.Orderbooks.Completion.{
  complete_orderbook_collection_run, fail_orderbook_collection_run,
}
use polymarket_market_discov.Orderbooks.Domain.{
  OrderBookCollectionItemPayload, OrderBookCollectionResult,
}
use polymarket_market_discov.Orderbooks.Repository.{
  get_last_successful_market_registry_sync_at, has_collectable_markets,
  create_orderbook_collection_run, snapshot_collectable_markets, item_conditions,
}

-- `OrderbookCollectionService(...)`: the settings that are kept.
unfoldable pub orderbook_collection_service : ℕ → ℕ → Result (ℕ × ℕ)
orderbook_collection_service batch_size max_age = do
  raise_if (ltb batch_size 1 || ltb 500 batch_size)
      (value_error "Orderbook batch size must be between 1 and 500")
  raise_if (ltb max_age 1) (value_error "Market registry max age must be greater than zero")
  ok (batch_size, max_age)

unfoldable pub build_orderbook_run_id : Runtime → Timestamp → String
build_orderbook_run_id py generated_at = f_string (py.strftime generated_at ∷ "-orderbooks" ∷ [])

abbrev pub skipped_collection : Timestamp → String → OrderBookCollectionResult
skipped_collection started_at reason = record {
  run_id = none;
  status = skipped;
  skip_reason = some reason;
  selected_market_count = 0;
  selected_token_count = 0;
  success_count = 0;
  failure_count = 0;
  snapshots = [];
  generated_at = started_at;
}

-- What the `try` block leaves in the variables `items`, `snapshots`, `errors_by_token`, `status`.
pub record Finished : Type 0 where
  pub items : List OrderBookCollectionItemPayload
  pub collected : Collected
  pub status : Status

abbrev pub finished_collection : Timestamp → String → Finished → OrderBookCollectionResult
finished_collection started_at run_id f = record {
  run_id = some run_id;
  status = f.status;
  skip_reason = none;
  selected_market_count = length (distinct (item_conditions f.items));
  selected_token_count = length f.items;
  success_count = length f.collected.snapshots;
  failure_count = length f.collected.errors;
  snapshots = f.collected.snapshots;
  generated_at = started_at;
}

abbrev pub with_status :
    List OrderBookCollectionItemPayload
    → Collected
    → Result Status × Database
    → Result Finished × Database
with_status items c (ok status, db) =
    (ok (record { items = items; collected = c; status = status }), db)
with_status items c (raise exc, db) = (raise exc, db)

-- `get_order_books` is the client's answer to a batch of tokens; `finished_at` is the reading of the
-- clock behind the collection.
module _ (py : Runtime) (get_order_books : List String → Result Json) (batch_size max_age : ℕ)
    (started_at finished_at : Timestamp) where
  abbrev pub collect : List OrderBookCollectionItemPayload → Collected
  collect items =
      collect_batches py get_order_books started_at (batches items batch_size) nothing_collected

  abbrev pub after_snapshot :
      String → Result (List OrderBookCollectionItemPayload) × Database → Result Finished × Database
  after_snapshot run_id (raise exc, db) = (raise exc, db)
  after_snapshot run_id (ok items, db) =
      with_status items (collect items)
        (complete_orderbook_collection_run run_id (collect items) finished_at db)

  -- The block under `try`.
  unfoldable pub collect_books : String → Exec Database Finished
  collect_books run_id db =
      after_snapshot run_id (snapshot_collectable_markets run_id started_at db)

  -- The block under `except`, which raises again, and the result behind it.
  abbrev pub finish_collection :
      String → Result Finished × Database → Result OrderBookCollectionResult × Database
  finish_collection run_id (ok f, db) = (ok (finished_collection started_at run_id f), db)
  finish_collection run_id (raise exc, db) =
      (raise exc, fail_orderbook_collection_run run_id finished_at (str exc) db)

  abbrev pub after_create_run :
      String → Result (Unit {0}) × Database → Result OrderBookCollectionResult × Database
  after_create_run run_id (raise exc, db) = (raise exc, db)
  after_create_run run_id (ok u, db) = finish_collection run_id (collect_books run_id db)

  unfoldable pub collect_run : Exec Database OrderBookCollectionResult
  collect_run db =
      let run_id = build_orderbook_run_id py started_at in
      after_create_run run_id
        (create_orderbook_collection_run run_id started_at batch_size max_age db)

  -- `started_at - registry_synced_at > timedelta(seconds=max_age)`: a sync in the future is fresh.
  abbrev pub is_stale : Option Timestamp → Bool
  is_stale none = true
  is_stale (some synced_at) = ltb (max_age * 1000000) (started_at - synced_at)

  unfoldable pub run_orderbooks_locked : Exec Database OrderBookCollectionResult
  run_orderbooks_locked db =
      if is_stale (get_last_successful_market_registry_sync_at db)
      then (ok (skipped_collection started_at "stale_market_registry"), db)
      else if not (has_collectable_markets db)
      then (ok (skipped_collection started_at "no_collectable_markets"), db)
      else collect_run db

-- `run(now=...)`, by the session `me`.
module _ (py : Runtime) (get_order_books : List String → Result Json) (batch_size max_age : ℕ)
    (finished_at : Timestamp) (me : ℕ) where
  abbrev pub orderbooks_body : Timestamp → Bool → Exec Database OrderBookCollectionResult
  orderbooks_body started_at false db = (ok (skipped_collection started_at "pipeline_locked"), db)
  orderbooks_body started_at true db =
      run_orderbooks_locked py get_order_books batch_size max_age started_at finished_at
        (recover_orphaned_runs started_at db)

  unfoldable pub run_orderbooks : Datetime → Exec (Lock × Database) OrderBookCollectionResult
  run_orderbooks now =
      with_pipeline_lock me (λ acquired. behind_lock (orderbooks_body (ensure_utc now) acquired))
