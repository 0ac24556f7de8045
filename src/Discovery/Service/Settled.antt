-- ===== src/Discovery/Service/Settled.antt =====
-- No discovery leaves its run in the status running: `run` and `_run_locked` in
-- `discovery/service.py`.
use polymarket_market_discov.Base.{
  ℕ, String, ◌≡◌, refl, ◌∙◌, ap, subst, true, false, Option, none, List, [], arith, find, any_of,
}
use polymarket_market_discov.Base.Result.{Exception, Result, ok, raise, str, >>=-eq-ok}
use polymarket_market_discov.Base.Runtime.{Runtime}
use polymarket_market_discov.Core.Lock.{Lock, acquires, with_pipeline_lock-behind_lock}
use polymarket_market_discov.Core.Models.{Database}
use polymarket_market_discov.Core.Recovery.{
  discovery_running, sync_running, collection_running, recover_orphaned_runs,
}
use polymarket_market_discov.Core.Recovery.Settled.{IsSettled, recover_orphaned_runs-IsSettled}
use polymarket_market_discov.Core.Session.{transaction-ok, transaction-raise}
use polymarket_market_discov.Core.Time.{Timestamp, Datetime, ensure_utc}
use polymarket_market_discov.Discovery.Domain.{StrategyDiscoveryResult, DiscoveryRunResult}
use polymarket_market_discov.Discovery.Repository.{
  is_discovery_run, create_discovery_run, get_run, write_run, change_run, complete_discovery,
  complete_discovery_run, fail_discovery, fail_discovery_run, observation_rows, add_observations,
}
use polymarket_market_discov.Discovery.Repository.Ownership.{
  Owns, get_run-eq-ok, find-passes, written_ended, change_run-eq-ok, change_run-runs,
  create_discovery_run-Owns,
}
use polymarket_market_discov.Discovery.Service.{
  Strategy, build_discovery_run_id, raised, fail_with, after_complete, after_loop,
  after_create_discovery, run_discovery_locked, discovery_body, run_discovery,
}
use polymarket_market_discov.Discovery.Service.Loop.{
  fail_discovery-runs, fail_discovery-ends, run_strategies-Owns,
}

-- How a discovery that began from `start` ends: no discovery run is running, the runs of the other
-- layers are as they were, and after an exception every other table is, too.
abbrev IsKept : Database → Result DiscoveryRunResult → Database → Type 0
IsKept start (ok result) after = Unit
IsKept start (raise exc) after = after ≡ record start { discovery_runs = after.discovery_runs }

record EndsWell (start : Database) (result : Result DiscoveryRunResult) (after : Database)
    : Type 0 where
  ended : any_of discovery_running after.discovery_runs ≡ false
  same_syncs : after.sync_runs ≡ start.sync_runs
  same_collections : after.collection_runs ≡ start.collection_runs
  kept : IsKept start result after

raised-database :
    (py : Runtime) (strategies : List Strategy) (t u : Timestamp) (exc : Exception)
    (recorded : Result (Unit {0}) × Database)
    → recorded.0 ≡ ok tt
    → raised py strategies t u exc recorded ≡ (raise exc, recorded.1)
raised-database py strategies t u exc recorded h = ground arith

module _ (py : Runtime) (strategies : List Strategy) (started_at finished_at : Timestamp) where
  abbrev run_id : String
  run_id = build_discovery_run_id py started_at

  fail_with-EndsWell :
      (strategy : Option String) (exc : Exception) (start db : Database)
      → Owns run_id start db
      → (let end = fail_with py strategies started_at finished_at run_id strategy exc db in
          EndsWell start end.0 end.1)
  unfolding fail_discovery_run
  fail_with-EndsWell strategy exc start db o =
      let change = fail_discovery strategy finished_at (str exc) in
      let works =
        change_run-runs run_id change start db (fail_discovery-runs strategy finished_at (str exc))
          o in
      let (run, run', named, changed, written) = change_run-eq-ok run_id change db works in
      let (same_id, ended) = fail_discovery-ends strategy finished_at (str exc) run run' changed in
      let named' : is_discovery_run run_id run' ≡ true = rw same_id named in
      rw
        (
          raised-database py strategies started_at finished_at exc (change_run run_id change db)
              works,
          written,
        )
        (record {
          ended = written_ended run_id run' named' db.discovery_runs ended o.others;
          same_syncs = ap (λ d. d.sync_runs) o.rest;
          same_collections = ap (λ d. d.collection_runs) o.rest;
          kept =
              ap {A = Database} {B = Database}
                (λ d. record d { discovery_runs = (write_run run_id run' db).discovery_runs })
                o.rest;
        })

  complete_discovery_run-EndsWell :
      (results : List StrategyDiscoveryResult) (result : DiscoveryRunResult) (start db : Database)
      → Owns run_id start db
      → (complete_discovery_run run_id results finished_at db).0 ≡ ok tt
      → EndsWell start (ok result) (complete_discovery_run run_id results finished_at db).1
  unfolding complete_discovery_run
  complete_discovery_run-EndsWell results result start db o h =
      let body = transaction-ok _ db h in
      let (run, found, later) =
        >>=-eq-ok (get_run run_id (find (is_discovery_run run_id) db.discovery_runs)) _ body in
      let news = observation_rows run_id results in
      let (rows, added, last) = >>=-eq-ok (add_observations news db.observations) _ later in
      let named =
        find-passes run_id db.discovery_runs run
          (get_run-eq-ok run_id (find (is_discovery_run run_id) db.discovery_runs) run found) in
      let written : (complete_discovery_run run_id results finished_at db).1
          ≡ write_run run_id (complete_discovery finished_at news run)
              (record db { observations = rows }) =
        cc in
      rw written (record {
        ended =
            written_ended run_id (complete_discovery finished_at news run) named db.discovery_runs
              refl o.others;
        same_syncs = ap (λ d. d.sync_runs) o.rest;
        same_collections = ap (λ d. d.collection_runs) o.rest;
        kept = tt;
      })

  complete_discovery_run-raise :
      (results : List StrategyDiscoveryResult) (db : Database) (exc : Exception)
      → (complete_discovery_run run_id results finished_at db).0 ≡ raise exc
      → (complete_discovery_run run_id results finished_at db).1 ≡ db
  unfolding complete_discovery_run
  complete_discovery_run-raise results db exc h = transaction-raise _ db h

  after_loop-EndsWell :
      (strategy : Option String) (results : Result (List StrategyDiscoveryResult))
      (start db : Database)
      → Owns run_id start db
      → (let end = after_loop py strategies started_at finished_at run_id strategy results db in
          EndsWell start end.0 end.1)
  after_loop-EndsWell strategy (raise exc) start db o = fail_with-EndsWell strategy exc start db o
  after_loop-EndsWell strategy (ok results) start db o = go _ refl
    where
      go :
          (stored : Result (Unit {0}))
          → (complete_discovery_run run_id results finished_at db).0 ≡ stored
          → (let end =
                after_complete py strategies started_at finished_at run_id results
                  (stored, (complete_discovery_run run_id results finished_at db).1) in
              EndsWell start end.0 end.1)
      go (ok u) h = complete_discovery_run-EndsWell results _ start db o h
      go (raise exc) h =
          rw (complete_discovery_run-raise results db exc h)
            (fail_with-EndsWell none exc start db o)

  create_discovery_run-raise :
      (db : Database) (exc : Exception)
      → (create_discovery_run run_id started_at db).0 ≡ raise exc
      → (create_discovery_run run_id started_at db).1 ≡ db
  unfolding create_discovery_run
  create_discovery_run-raise db exc h = transaction-raise _ db h

  run_discovery_locked-EndsWell :
      (db : Database)
      → any_of discovery_running db.discovery_runs ≡ false
      → (let end = run_discovery_locked py strategies started_at finished_at db in
          EndsWell db end.0 end.1)
  unfolding run_discovery_locked
  run_discovery_locked-EndsWell db settled = go _ refl
    where
      go :
          (created : Result (Unit {0}))
          → (create_discovery_run run_id started_at db).0 ≡ created
          → (let end =
                after_create_discovery py strategies started_at finished_at run_id
                  (created, (create_discovery_run run_id started_at db).1) in
              EndsWell db end.0 end.1)
      go (ok u) h = after_loop-EndsWell _ _ db _ (
          run_strategies-Owns run_id started_at strategies [] db _
            (create_discovery_run-Owns run_id started_at db settled h))
      go (raise exc) h =
          rw (create_discovery_run-raise db exc h)
            (record { ended = settled; same_syncs = refl; same_collections = refl; kept = refl })

  -- A discovery that raises, from a database in which no discovery run is running, leaves every table
  -- but that of the discovery runs as it was.
  pub run_discovery_locked-raise :
      (db : Database) (exc : Exception)
      → any_of discovery_running db.discovery_runs ≡ false
      → (run_discovery_locked py strategies started_at finished_at db).0 ≡ raise exc
      → (run_discovery_locked py strategies started_at finished_at db).1 ≡ record db {
        discovery_runs =
            (run_discovery_locked py strategies started_at finished_at db).1.discovery_runs;
      }
  run_discovery_locked-raise db exc settled h =
      subst (λ r. IsKept db r (run_discovery_locked py strategies started_at finished_at db).1) h
        ((run_discovery_locked-EndsWell db settled).kept)

module _ (py : Runtime) (strategies : List Strategy) (finished_at : Timestamp) (me : ℕ) where
  -- A discovery that gets the lock leaves no run of any layer running, however it ends.
  pub run_discovery-IsSettled :
      (now : Datetime) (lock : Lock) (db : Database)
      → acquires me lock ≡ true
      → IsSettled (run_discovery py strategies finished_at me now (lock, db)).1.1
  unfolding run_discovery
  run_discovery-IsSettled now lock db free =
      let t = ensure_utc now in
      let start = recover_orphaned_runs t db in
      let settled = recover_orphaned_runs-IsSettled t db in
      let end = run_discovery_locked-EndsWell py strategies t finished_at start settled.discovery in
      rw
        (
          with_pipeline_lock-behind_lock me
              (discovery_body py strategies finished_at me (ensure_utc now)) lock db,
          free,
        )
        (record {
          discovery = end.ended;
          sync = ap (any_of sync_running) end.same_syncs ∙ settled.sync;
          collection = ap (any_of collection_running) end.same_collections ∙ settled.collection;
        })
