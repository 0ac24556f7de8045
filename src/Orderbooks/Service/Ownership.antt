-- ===== src/Orderbooks/Service/Ownership.antt =====
-- What each transaction of a collection, in `orderbooks/repository.py`, does to the runs.
use polymarket_market_discov.Base.{
  ℕ, String, ◌≡◌, refl, Bool, false, not, ◌&&◌, List, [], ◌∷◌, ◌++◌, arith, eq_refl, update_where,
  any_of,
}
use polymarket_market_discov.Base.Result.{Exception, ok, raise}
use polymarket_market_discov.Core.Models.{Database, OrderbookCollectionRun}
use polymarket_market_discov.Core.Recovery.{discovery_running, sync_running, collection_running}
use polymarket_market_discov.Core.Recovery.Settled.{IsSettled}
use polymarket_market_discov.Core.Session.{transaction}
use polymarket_market_discov.Core.Status.{Status}
use polymarket_market_discov.Core.Time.{Timestamp}
use polymarket_market_discov.Orderbooks.Collection.{Collected}
use polymarket_market_discov.Orderbooks.Completion.{
  end_run, fail_collection, complete_orderbook_collection_run, fail_orderbook_collection_run,
}
use polymarket_market_discov.Orderbooks.Domain.{OrderBookCollectionItemPayload}
use polymarket_market_discov.Orderbooks.Repository.{
  is_collection_run, new_collection_run, create_orderbook_collection_run, count_selected,
  snapshot_collectable_markets, collectable_items, collection_status,
}

abbrev pub runs_elsewhere : String → OrderbookCollectionRun → Bool
runs_elsewhere run_id run = collection_running run && not (is_collection_run run_id run)

module _ (run_id : String) where
  -- Only the collection of this run may be running.
  pub record Owns (db : Database) : Type 0 where
    pub discovery : any_of discovery_running db.discovery_runs ≡ false
    pub sync : any_of sync_running db.sync_runs ≡ false
    pub others : any_of (runs_elsewhere run_id) db.collection_runs ≡ false

  -- An update of the run's row ends it, and leaves the other rows.
  ended_all :
      (change : OrderbookCollectionRun → OrderbookCollectionRun)
      (runs : List OrderbookCollectionRun)
      → ((run : OrderbookCollectionRun) → collection_running (change run) ≡ false)
      → any_of (runs_elsewhere run_id) runs ≡ false
      → any_of collection_running (update_where (is_collection_run run_id) change runs) ≡ false
  ended_all change [] ends h = refl
  ended_all change (r ∷ runs) ends h = ground (arith, ends r, ended_all change runs ends)

  counted_others :
      (items : List OrderBookCollectionItemPayload) (runs : List OrderbookCollectionRun)
      → any_of (runs_elsewhere run_id) runs ≡ false
      → any_of
          (runs_elsewhere run_id)
          (update_where (is_collection_run run_id) (count_selected items) runs)
        ≡ false
  counted_others items [] h = refl
  counted_others items (r ∷ runs) h = ground (arith, counted_others items runs)

  settled_others :
      (runs : List OrderbookCollectionRun)
      → any_of collection_running runs ≡ false
      → any_of (runs_elsewhere run_id) runs ≡ false
  settled_others [] h = refl
  settled_others (r ∷ runs) h = ground (arith, settled_others runs)

  created_others :
      (t : Timestamp) (size age : ℕ) (runs : List OrderbookCollectionRun)
      → any_of collection_running runs ≡ false
      → any_of (runs_elsewhere run_id) (runs ++ new_collection_run run_id t size age ∷ []) ≡ false
  created_others t size age [] h = ground (arith, eq_refl run_id)
  created_others t size age (r ∷ runs) h = ground (arith, created_others t size age runs)

  pub create_run-Owns :
      (t : Timestamp) (size age : ℕ) (db : Database)
      → IsSettled db
      → Owns (create_orderbook_collection_run run_id t size age db).1
  unfolding create_orderbook_collection_run transaction
  create_run-Owns t size age db s = record {
    discovery = ground (arith, s.discovery);
    sync = ground (arith, s.sync);
    others = ground (
      arith,
      settled_others db.collection_runs s.collection,
      created_others t size age db.collection_runs s.collection,
    );
  }

  pub create_run-raise :
      (t : Timestamp) (size age : ℕ) (db : Database) (exc : Exception)
      → (create_orderbook_collection_run run_id t size age db).0 ≡ raise exc
      → (create_orderbook_collection_run run_id t size age db).1 ≡ db
  unfolding create_orderbook_collection_run transaction
  create_run-raise t size age db exc h = ground arith

  pub snapshot-Owns :
      (t : Timestamp) (db : Database) → Owns db → Owns (snapshot_collectable_markets run_id t db).1
  unfolding snapshot_collectable_markets transaction
  snapshot-Owns t db o = record {
    discovery = ground (arith, o.discovery);
    sync = ground (arith, o.sync);
    others =
        ground
          (arith, o.others, counted_others (collectable_items t db) db.collection_runs o.others);
  }

  collection_status-ended :
      (t : Timestamp) (c : Collected) (run : OrderbookCollectionRun)
      → collection_running (end_run t c run) ≡ false
  unfolding collection_status
  collection_status-ended t c run = ground arith

  pub fail_collection-IsSettled :
      (t : Timestamp) (error : String) (db : Database)
      → Owns db
      → IsSettled (fail_orderbook_collection_run run_id t error db)
  unfolding fail_orderbook_collection_run
  fail_collection-IsSettled t error db o = record {
    discovery = o.discovery;
    sync = o.sync;
    collection = ended_all (fail_collection t error _) db.collection_runs (λ run. refl) o.others;
  }

  pub complete-IsSettled :
      (t : Timestamp) (c : Collected) (db : Database) (status : Status)
      → Owns db
      → (complete_orderbook_collection_run run_id c t db).0 ≡ ok status
      → IsSettled (complete_orderbook_collection_run run_id c t db).1
  unfolding complete_orderbook_collection_run transaction
  complete-IsSettled t c db status o h = record {
    discovery = ground (arith, o.discovery);
    sync = ground (arith, o.sync);
    collection =
        ground (
          arith,
          ended_all (end_run t c) db.collection_runs (collection_status-ended t c) o.others,
        );
  }

  pub complete-raise :
      (t : Timestamp) (c : Collected) (db : Database) (exc : Exception)
      → (complete_orderbook_collection_run run_id c t db).0 ≡ raise exc
      → (complete_orderbook_collection_run run_id c t db).1 ≡ db
  unfolding complete_orderbook_collection_run transaction
  complete-raise t c db exc h = ground arith
