-- ===== src/Orderbooks/Service/Resolved.antt =====
-- No run of `OrderbookCollectionService` leaves an item of its own pending: `_run_locked` in
-- `orderbooks/service.py`.
use polymarket_market_discov.Base.{
  ℕ, ◌<◌, String, ◌≡◌, refl, ◌∙◌, ap, subst, Bool, true, false, not, List, ◌++◌, map, All, arith,
  if◌then◌else◌, any_of,
}
use polymarket_market_discov.Base.Batches.{batches, batches_partition}
use polymarket_market_discov.Base.Json.{Json}
use polymarket_market_discov.Base.Result.{Result, ok, raise, str, >>=-eq-ok}
use polymarket_market_discov.Base.Runtime.{Runtime}
use polymarket_market_discov.Core.Models.{Database}
use polymarket_market_discov.Core.Session.{transaction, transaction-ok}
use polymarket_market_discov.Core.Status.{Status}
use polymarket_market_discov.Core.Time.{Timestamp}
use polymarket_market_discov.Orderbooks.Collection.{nothing_collected}
use polymarket_market_discov.Orderbooks.Collection.Coverage.{is_covered, collect_batches_covers}
use polymarket_market_discov.Orderbooks.Completion.{
  is_run_item, is_pending_item, complete_orderbook_collection_run,
}
use polymarket_market_discov.Orderbooks.Completion.Items.{
  is_pending_item_none, add_items-eq-ok, complete_orderbook_collection_run-resolves,
  fail_orderbook_collection_run-resolves,
}
use polymarket_market_discov.Orderbooks.Domain.{
  OrderBookCollectionItemPayload, OrderBookCollectionResult,
}
use polymarket_market_discov.Orderbooks.Repository.{
  create_orderbook_collection_run, snapshot_collectable_markets, pending_item, add_items,
  collectable_items, has_collectable_markets, get_last_successful_market_registry_sync_at,
}
use polymarket_market_discov.Orderbooks.Service.{
  Finished, orderbook_collection_service, build_orderbook_run_id, collect, with_status,
  after_snapshot, collect_books, finish_collection, after_create_run, skipped_collection,
  collect_run, run_orderbooks_locked, is_stale,
}

create_run-same_items :
    (run_id : String) (t : Timestamp) (size age : ℕ) (db : Database)
    → (create_orderbook_collection_run run_id t size age db).1.collection_items
      ≡ db.collection_items
unfolding create_orderbook_collection_run transaction
create_run-same_items run_id t size age db = ground arith

snapshot_collectable_markets-adds :
    (run_id : String) (t : Timestamp) (db : Database) (items : List OrderBookCollectionItemPayload)
    → (snapshot_collectable_markets run_id t db).0 ≡ ok items
    → (snapshot_collectable_markets run_id t db).1.collection_items
      ≡ db.collection_items ++ map (pending_item run_id) items
unfolding snapshot_collectable_markets
snapshot_collectable_markets-adds run_id t db items h =
    let body = transaction-ok _ db h in
    let (rows, added, last) =
      >>=-eq-ok (add_items run_id (collectable_items t db) db.collection_items) _ body in
    let selected : items ≡ collectable_items t db = cc in
    let written : (snapshot_collectable_markets run_id t db).1.collection_items ≡ rows = cc in
    rw (written, selected)
      (add_items-eq-ok run_id (collectable_items t db) db.collection_items rows added)

module _ (py : Runtime) (get_order_books : List String → Result Json) (batch_size max_age : ℕ)
    (started_at finished_at : Timestamp) (valid : 0 < batch_size) where
  abbrev run_id : String
  run_id = build_orderbook_run_id py started_at

  abbrev Resolved : Database → Type 0
  Resolved db = any_of (is_pending_item run_id) db.collection_items ≡ false

  abbrev finish : Result Finished × Database → Result OrderBookCollectionResult × Database
  finish end =
      finish_collection py get_order_books batch_size max_age started_at finished_at run_id end

  collected_covers :
      (items : List OrderBookCollectionItemPayload)
      → All
          (λ item.
            is_covered
              (collect py get_order_books batch_size max_age started_at finished_at items)
              item.token_id
            ≡ true)
          items
  collected_covers items = subst (All _) (batches_partition items batch_size valid).0 (
      collect_batches_covers py started_at get_order_books (batches items batch_size)
        nothing_collected)

  with_status-Resolved :
      (items : List OrderBookCollectionItemPayload) (start db : Database)
      → any_of (is_run_item run_id) start.collection_items ≡ false
      → db.collection_items ≡ start.collection_items ++ map (pending_item run_id) items
      → Resolved
          (finish (
            after_snapshot py get_order_books batch_size max_age started_at finished_at run_id
              (ok items, db))).1
  with_status-Resolved items start db fresh added = go _ refl
    where
      go :
          (result : Result Status)
          → (complete_orderbook_collection_run run_id
              (collect py get_order_books batch_size max_age started_at finished_at items)
              finished_at
              db).0
            ≡ result
          → Resolved
              (finish (
                with_status items
                  (collect py get_order_books batch_size max_age started_at finished_at items)
                  (
                    result,
                    (complete_orderbook_collection_run run_id
                        (collect py get_order_books batch_size max_age started_at finished_at items)
                        finished_at
                        db).1,
                  ))).1
      go (ok status) h =
          complete_orderbook_collection_run-resolves run_id
            (collect py get_order_books batch_size max_age started_at finished_at items) finished_at
            items start.collection_items db status fresh added (collected_covers items) h
      go (raise exc) h = fail_orderbook_collection_run-resolves run_id finished_at (str exc) _

  collect_books-Resolved :
      (db : Database)
      → any_of (is_run_item run_id) db.collection_items ≡ false
      → Resolved
          (finish (
            collect_books py get_order_books batch_size max_age started_at finished_at run_id db)).1
  unfolding collect_books
  collect_books-Resolved db fresh = go _ refl
    where
      go :
          (result : Result (List OrderBookCollectionItemPayload))
          → (snapshot_collectable_markets run_id started_at db).0 ≡ result
          → Resolved
              (finish (
                after_snapshot py get_order_books batch_size max_age started_at finished_at run_id
                  (result, (snapshot_collectable_markets run_id started_at db).1))).1
      go (ok items) h =
          with_status-Resolved items db _ fresh
            (snapshot_collectable_markets-adds run_id started_at db items h)
      go (raise exc) h = fail_orderbook_collection_run-resolves run_id finished_at (str exc) _

  collect_run-Resolved :
      (db : Database)
      → any_of (is_run_item run_id) db.collection_items ≡ false
      → Resolved (collect_run py get_order_books batch_size max_age started_at finished_at db).1
  unfolding collect_run
  collect_run-Resolved db fresh =
      go (create_orderbook_collection_run run_id started_at batch_size max_age db).0
    where
      fresh_start :
          any_of
            (is_run_item run_id)
            (create_orderbook_collection_run run_id started_at batch_size max_age
              db).1.collection_items
          ≡ false
      fresh_start =
          ap (any_of (is_run_item run_id))
            (create_run-same_items run_id started_at batch_size max_age db)
          ∙ fresh

      go :
          (result : Result (Unit {0}))
          → Resolved
              (after_create_run py get_order_books batch_size max_age started_at finished_at run_id
                (
                  result,
                  (create_orderbook_collection_run run_id started_at batch_size max_age db).1,
                )).1
      go (raise exc) = is_pending_item_none run_id _ fresh_start
      go (ok u) = collect_books-Resolved _ fresh_start

  run_locked-Resolved :
      (db : Database)
      → any_of (is_run_item run_id) db.collection_items ≡ false
      → Resolved
          (run_orderbooks_locked py get_order_books batch_size max_age started_at finished_at db).1
  unfolding run_orderbooks_locked
  run_locked-Resolved db fresh =
      go
        (is_stale py get_order_books batch_size max_age started_at finished_at
          (get_last_successful_market_registry_sync_at db))
        (not (has_collectable_markets db))
    where
      go :
          (stale none_collectable : Bool)
          → Resolved
              (if stale
                then (ok (skipped_collection started_at "stale_market_registry"), db)
                else if none_collectable
                then (ok (skipped_collection started_at "no_collectable_markets"), db)
                else collect_run py get_order_books batch_size max_age started_at finished_at db).1
      go true c = is_pending_item_none run_id db.collection_items fresh
      go false true = is_pending_item_none run_id db.collection_items fresh
      go false false = collect_run-Resolved db fresh

-- With settings that the constructor accepts, and where no item of the run is stored before, none of
-- the run's items is pending behind it: whether it is skipped, is completed or raises, and whatever
-- the CLOB answers.
pub run_orderbooks_locked-resolves :
    (py : Runtime) (get_order_books : List String → Result Json) (batch_size max_age : ℕ)
    (started_at finished_at : Timestamp) (db : Database)
    → orderbook_collection_service batch_size max_age ≡ ok (batch_size, max_age)
    → any_of (is_run_item (build_orderbook_run_id py started_at)) db.collection_items ≡ false
    → any_of
        (is_pending_item (build_orderbook_run_id py started_at))
        (run_orderbooks_locked py get_order_books batch_size max_age started_at finished_at
          db).1.collection_items
      ≡ false
unfolding orderbook_collection_service
run_orderbooks_locked-resolves py get_order_books batch_size max_age started_at finished_at db valid
      fresh =
    run_locked-Resolved py get_order_books batch_size max_age started_at finished_at (ground arith)
      db fresh
