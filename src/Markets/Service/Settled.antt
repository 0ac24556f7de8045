-- ===== src/Markets/Service/Settled.antt =====
-- No run of `MarketRegistryService` leaves a sync run in the status running: `run` in
-- `markets/service.py`.
use polymarket_market_discov.Base.{
  ℕ, String, ◌≡◌, refl, ◌∙◌, ap, true, false, List, [], ◌∷◌, ◌++◌, length, arith, eq_refl,
  update_where, any_of,
}
use polymarket_market_discov.Base.Dict.{contains}
use polymarket_market_discov.Base.Result.{Result, str}
use polymarket_market_discov.Base.Runtime.{Runtime}
use polymarket_market_discov.Core.Lock.{Lock, acquires, with_pipeline_lock-behind_lock}
use polymarket_market_discov.Core.Models.{Database, MarketRegistrySyncRun}
use polymarket_market_discov.Core.Recovery.{recover_orphaned_runs, sync_running}
use polymarket_market_discov.Core.Session.{transaction}
use polymarket_market_discov.Core.Time.{Timestamp, Datetime, ensure_utc}
use polymarket_market_discov.Markets.Domain.{MarketRegistrySyncResult}
use polymarket_market_discov.Markets.Retrieval.{Gamma}
use polymarket_market_discov.Markets.Repository.{
  get_market_sync_input, create_market_sync_run, fail_market_sync_run, has_run_id, fail_run,
  complete_run,
}
use polymarket_market_discov.Markets.Service.{run_markets_locked, run_markets, markets_body}
use polymarket_market_discov.Markets.Service.Outcome.{
  Ends, skips, refuses, fails, completes, run_id, created, run_markets_locked-Ends,
}
use polymarket_market_discov.Markets.Service.Promises.{create_market_sync_run-changes}
use polymarket_market_discov.Core.Models.{MarketDiscoveryRun}
use polymarket_market_discov.Core.Recovery.{discovery_running, collection_running}
use polymarket_market_discov.Core.Recovery.Settled.{IsSettled, recover_orphaned_runs-IsSettled}
use polymarket_market_discov.Markets.Repository.{mark_synced, new_sync_run}
use polymarket_market_discov.Markets.Repository.Commit.{complete_market_sync_run-written}

-- A change that ends the runs under `id` ends the new one, where no other is running.
module _ (id : String) (end_run : MarketRegistrySyncRun → MarketRegistrySyncRun)
    (ends : (run : MarketRegistrySyncRun) → sync_running (end_run run) ≡ false) where
  ends_all :
      (runs : List MarketRegistrySyncRun)
      → any_of sync_running runs ≡ false
      → any_of sync_running (update_where (has_run_id id) end_run runs) ≡ false
  ends_all [] h = refl
  ends_all (r ∷ runs) h = ground (arith, ends r, ends_all runs)

  ends_new :
      (runs : List MarketRegistrySyncRun) (new : MarketRegistrySyncRun)
      → any_of sync_running runs ≡ false
      → has_run_id id new ≡ true
      → any_of sync_running (update_where (has_run_id id) end_run (runs ++ new ∷ [])) ≡ false
  ends_new [] new h named = ground (arith, ends new)
  ends_new (r ∷ runs) new h named = ground (arith, ends r, ends_new runs new)

  ends_created :
      (t : Timestamp) (ids : List String) (db : Database)
      → any_of sync_running db.sync_runs ≡ false
      → any_of sync_running
          (update_where (has_run_id id) end_run (create_market_sync_run id t ids db).1.sync_runs)
        ≡ false
  unfolding create_market_sync_run transaction
  ends_created t ids db h = ground (
    arith,
    ends_all db.sync_runs,
    ends_new db.sync_runs (new_sync_run id t ids) h (eq_refl id),
    eq_refl id,
  )

marked_settled :
    (ids : List String) (t : Timestamp) (runs : List MarketDiscoveryRun)
    → any_of discovery_running runs ≡ false
    → any_of discovery_running (update_where (λ run. contains run.run_id ids) (mark_synced t) runs)
      ≡ false
marked_settled ids t [] h = refl
marked_settled ids t (r ∷ runs) h = ground (arith, marked_settled ids t runs)

module _ (py : Runtime) (gamma : Gamma) (batch_size : ℕ)
    (started_at checked_at finished_at : Timestamp) where
  Ends-IsSettled :
      (db : Database) (result : Result MarketRegistrySyncResult) (after : Database)
      → IsSettled db
      → Ends py gamma batch_size started_at checked_at finished_at db result after
      → IsSettled after
  unfolding fail_market_sync_run
  Ends-IsSettled db _ _ s (skips nothing) = s
  Ends-IsSettled db _ _ s (refuses exc) = s
  Ends-IsSettled db _ _ s (fails exc) =
      let ids = (get_market_sync_input db).discovery_run_ids in
      let id = run_id py gamma batch_size started_at checked_at finished_at in
      let same = create_market_sync_run-changes id started_at ids db in
      record {
        discovery = ap (λ d. any_of discovery_running d.discovery_runs) same ∙ s.discovery;
        sync =
            ends_created id (fail_run finished_at (str exc)) (λ r. refl) started_at ids db s.sync;
        collection = ap (λ d. any_of collection_running d.collection_runs) same ∙ s.collection;
      }
  Ends-IsSettled db _ _ s (completes payloads counts retrieved stored) =
      let ids = (get_market_sync_input db).discovery_run_ids in
      let id = run_id py gamma batch_size started_at checked_at finished_at in
      let start = created py gamma batch_size started_at checked_at finished_at db in
      let same = create_market_sync_run-changes id started_at ids db in
      let (r, written) =
        complete_market_sync_run-written id payloads ids checked_at start counts stored in
      rw written (record {
        discovery =
            marked_settled ids checked_at start.discovery_runs
              (ap (λ d. any_of discovery_running d.discovery_runs) same ∙ s.discovery);
        sync =
            ends_created id (complete_run checked_at (length payloads) r) (λ run. refl) started_at
              ids db s.sync;
        collection = ap (λ d. any_of collection_running d.collection_runs) same ∙ s.collection;
      })

  run_markets_locked-IsSettled :
      (db : Database)
      → IsSettled db
      → IsSettled (run_markets_locked py gamma batch_size started_at checked_at finished_at db).1
  run_markets_locked-IsSettled db s =
      Ends-IsSettled db _ _ s
        (run_markets_locked-Ends py gamma batch_size started_at checked_at finished_at db)

module _ (py : Runtime) (gamma : Gamma) (batch_size : ℕ) (checked_at finished_at : Timestamp)
    (me : ℕ) where
  -- A registry sync that gets the lock leaves no run of any layer running, however it ends.
  pub run_markets-IsSettled :
      (now : Datetime) (lock : Lock) (db : Database)
      → acquires me lock ≡ true
      → IsSettled (run_markets py gamma batch_size checked_at finished_at me now (lock, db)).1.1
  unfolding run_markets
  run_markets-IsSettled now lock db free =
      let t = ensure_utc now in
      rw
        (
          with_pipeline_lock-behind_lock me
              (markets_body py gamma batch_size checked_at finished_at me (ensure_utc now)) lock db,
          free,
        )
        (run_markets_locked-IsSettled py gamma batch_size t checked_at finished_at
          (recover_orphaned_runs t db) (recover_orphaned_runs-IsSettled t db))
