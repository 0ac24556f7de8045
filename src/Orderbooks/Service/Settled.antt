-- ===== src/Orderbooks/Service/Settled.antt =====
-- No collection leaves its run in the status running: `run` and `_run_locked` in
-- `orderbooks/service.py`.
use polymarket_market_discov.Base.{
  ℕ, String, ◌≡◌, refl, Bool, true, false, not, List, if◌then◌else◌,
}
use polymarket_market_discov.Base.Json.{Json}
use polymarket_market_discov.Base.Result.{Result, ok, raise, str}
use polymarket_market_discov.Base.Runtime.{Runtime}
use polymarket_market_discov.Core.Lock.{Lock, acquires, with_pipeline_lock-behind_lock}
use polymarket_market_discov.Core.Models.{Database}
use polymarket_market_discov.Core.Recovery.{recover_orphaned_runs}
use polymarket_market_discov.Core.Recovery.Settled.{IsSettled, recover_orphaned_runs-IsSettled}
use polymarket_market_discov.Core.Status.{Status}
use polymarket_market_discov.Core.Time.{Timestamp, Datetime, ensure_utc}
use polymarket_market_discov.Orderbooks.Completion.{complete_orderbook_collection_run}
use polymarket_market_discov.Orderbooks.Domain.{OrderBookCollectionItemPayload}
use polymarket_market_discov.Orderbooks.Repository.{
  create_orderbook_collection_run, has_collectable_markets,
  get_last_successful_market_registry_sync_at,
}
use polymarket_market_discov.Orderbooks.Service.{
  Finished, build_orderbook_run_id, collect, with_status, after_snapshot, collect_books,
  finish_collection, after_create_run, collect_run, skipped_collection, run_orderbooks_locked,
  is_stale, orderbooks_body, run_orderbooks,
}
use polymarket_market_discov.Orderbooks.Service.Ownership.{
  Owns, create_run-Owns, create_run-raise, snapshot-Owns, fail_collection-IsSettled,
  complete-IsSettled, complete-raise,
}

module _ (py : Runtime) (get_order_books : List String → Result Json) (batch_size max_age : ℕ)
    (started_at finished_at : Timestamp) where
  abbrev run_id : String
  run_id = build_orderbook_run_id py started_at

  abbrev Finishes : Result Finished × Database → Type 0
  Finishes end =
      IsSettled
        (finish_collection py get_order_books batch_size max_age started_at finished_at run_id
          end).1

  after_snapshot-IsSettled :
      (result : Result (List OrderBookCollectionItemPayload)) (db : Database)
      → Owns run_id db
      → Finishes (
          after_snapshot py get_order_books batch_size max_age started_at finished_at run_id
            (result, db))
  after_snapshot-IsSettled (raise exc) db o =
      fail_collection-IsSettled run_id finished_at (str exc) db o
  after_snapshot-IsSettled (ok items) db o = go _ refl
    where
      go :
          (stored : Result Status)
          → (complete_orderbook_collection_run run_id
              (collect py get_order_books batch_size max_age started_at finished_at items)
              finished_at
              db).0
            ≡ stored
          → Finishes (
              with_status items
                (collect py get_order_books batch_size max_age started_at finished_at items)
                (
                  stored,
                  (complete_orderbook_collection_run run_id
                      (collect py get_order_books batch_size max_age started_at finished_at items)
                      finished_at
                      db).1,
                ))
      go (ok status) h =
          complete-IsSettled run_id finished_at
            (collect py get_order_books batch_size max_age started_at finished_at items) db status o
            h
      go (raise exc) h =
          rw
            (complete-raise run_id finished_at
              (collect py get_order_books batch_size max_age started_at finished_at items) db exc h)
            (fail_collection-IsSettled run_id finished_at (str exc) db o)

  collect_run-IsSettled :
      (db : Database)
      → IsSettled db
      → IsSettled (collect_run py get_order_books batch_size max_age started_at finished_at db).1
  unfolding collect_run collect_books
  collect_run-IsSettled db s = go _ refl
    where
      go :
          (created : Result (Unit {0}))
          → (create_orderbook_collection_run run_id started_at batch_size max_age db).0 ≡ created
          → IsSettled
              (after_create_run py get_order_books batch_size max_age started_at finished_at run_id
                (
                  created,
                  (create_orderbook_collection_run run_id started_at batch_size max_age db).1,
                )).1
      go (ok u) h = after_snapshot-IsSettled _ _ (
          snapshot-Owns run_id started_at _
            (create_run-Owns run_id started_at batch_size max_age db s))
      go (raise exc) h = rw (create_run-raise run_id started_at batch_size max_age db exc h) s

  pub run_orderbooks_locked-IsSettled :
      (db : Database)
      → IsSettled db
      → IsSettled
          (run_orderbooks_locked py get_order_books batch_size max_age started_at finished_at db).1
  unfolding run_orderbooks_locked
  run_orderbooks_locked-IsSettled db s =
      go
        (is_stale py get_order_books batch_size max_age started_at finished_at
          (get_last_successful_market_registry_sync_at db))
        (not (has_collectable_markets db))
    where
      go :
          (stale none_collectable : Bool)
          → IsSettled
              (if stale
                then (ok (skipped_collection started_at "stale_market_registry"), db)
                else if none_collectable
                then (ok (skipped_collection started_at "no_collectable_markets"), db)
                else collect_run py get_order_books batch_size max_age started_at finished_at db).1
      go true c = s
      go false true = s
      go false false = collect_run-IsSettled db s

module _ (py : Runtime) (get_order_books : List String → Result Json) (batch_size max_age : ℕ)
    (finished_at : Timestamp) (me : ℕ) where
  -- A collection that gets the lock leaves no run of any layer running, however it ends.
  pub run_orderbooks-IsSettled :
      (now : Datetime) (lock : Lock) (db : Database)
      → acquires me lock ≡ true
      → IsSettled
          (run_orderbooks py get_order_books batch_size max_age finished_at me now (lock, db)).1.1
  unfolding run_orderbooks
  run_orderbooks-IsSettled now lock db free =
      let t = ensure_utc now in
      rw
        (
          with_pipeline_lock-behind_lock me
              (orderbooks_body py get_order_books batch_size max_age finished_at me
                (ensure_utc now))
              lock db,
          free,
        )
        (run_orderbooks_locked-IsSettled py get_order_books batch_size max_age t finished_at
          (recover_orphaned_runs t db) (recover_orphaned_runs-IsSettled t db))
