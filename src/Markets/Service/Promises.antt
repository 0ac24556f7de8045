-- ===== src/Markets/Service/Promises.antt =====
-- What a run of `MarketRegistryService` promises, from `run` and `_run_locked` of `markets/service.py`.
use polymarket_market_discov.Base.{
  ℕ, ◌+◌, String, ◌≡◌, refl, sym, ◌∙◌, ap, ap₂, subst, List, [], ◌∷◌, ◌++◌, All, All-append, arith,
}
use mathlib.Core.List.{map-append}
use polymarket_market_discov.Base.Batches.{batches, concat, batches_partition}
use polymarket_market_discov.Base.Result.{Exception, Result, ok, raise, str, >>=-eq-ok}
use polymarket_market_discov.Base.Runtime.{Runtime}
use polymarket_market_discov.Core.Models.{Database}
use polymarket_market_discov.Core.Session.{transaction}
use polymarket_market_discov.Core.Status.{completed}
use polymarket_market_discov.Core.Time.{Timestamp}
use polymarket_market_discov.Markets.Domain.{PolymarketMarketPayload, MarketRegistrySyncResult}
use polymarket_market_discov.Markets.Gamma.Contract.{IsBinary}
use polymarket_market_discov.Markets.Retrieval.{Gamma, condition_ids, retrieve_market_batch}
use polymarket_market_discov.Markets.Retrieval.Complete.{retrieve_market_batch_lem}
use polymarket_market_discov.Markets.Registry.{registry_of}
use polymarket_market_discov.Markets.Registry.Growth.{Growth, new_payloads}
use polymarket_market_discov.Markets.Repository.{
  get_market_sync_input, create_market_sync_run, fail_market_sync_run, unsynced_run_ids,
}
use polymarket_market_discov.Markets.Repository.Commit.{
  registry_after, complete_market_sync_run-Growth, complete_market_sync_run-consumes,
}
use polymarket_market_discov.Markets.Service.{
  retrieve_batches, run_markets_locked, build_market_run_id,
}
use polymarket_market_discov.Markets.Service.{market_registry_service}
use polymarket_market_discov.Markets.Service.Outcome.{
  Ends, skips, refuses, fails, completes, run_id, created, run_markets_locked-Ends,
}

module _ (py : Runtime) (gamma : Gamma) where
  retrieve_batches_lem :
      (bs : List (List String)) (payloads : List PolymarketMarketPayload)
      → retrieve_batches py gamma bs ≡ ok payloads
      → (condition_ids payloads ≡ concat bs) × All IsBinary payloads
  unfolding retrieve_batches
  retrieve_batches_lem [] payloads h = let e : payloads ≡ [] = cc in rw e (refl, tt)
  retrieve_batches_lem (b ∷ bs) payloads h =
      let (ps, first, h1) = >>=-eq-ok (retrieve_market_batch py gamma b) _ h in
      let (others, rest, h2) = >>=-eq-ok (retrieve_batches py gamma bs) _ h1 in
      let e : payloads ≡ ps ++ others = cc in
      let one = retrieve_market_batch_lem py gamma b ps first in
      let more = retrieve_batches_lem bs others rest in
      rw e (
        map-append (λ (p : PolymarketMarketPayload). p.condition_id) ps others
            ∙ ap₂ ◌++◌ one.0 more.0,
        All-append IsBinary ps others one.1 more.1,
      )

pub create_market_sync_run-changes :
    (run_id : String) (t : Timestamp) (ids : List String) (db : Database)
    → (create_market_sync_run run_id t ids db).1
      ≡ record db { sync_runs = (create_market_sync_run run_id t ids db).1.sync_runs }
unfolding create_market_sync_run transaction
create_market_sync_run-changes run_id t ids db = ground arith

module _ (py : Runtime) (gamma : Gamma) (batch_size : ℕ)
    (started_at checked_at finished_at : Timestamp) where
  abbrev pub run : Database → Result MarketRegistrySyncResult × Database
  run db = run_markets_locked py gamma batch_size started_at checked_at finished_at db

  -- The exception leaves everything but the table of sync runs as it was.
  Kept : Database → Result MarketRegistrySyncResult → Database → Type 0
  Kept db (ok result) after = Unit
  Kept db (raise exc) after = after ≡ record db { sync_runs = after.sync_runs }

  Ends-Kept :
      (db : Database) (result : Result MarketRegistrySyncResult) (after : Database)
      → Ends py gamma batch_size started_at checked_at finished_at db result after
      → Kept db result after
  unfolding Kept fail_market_sync_run
  Ends-Kept db _ _ (skips nothing) = tt
  Ends-Kept db _ _ (refuses exc) = refl
  Ends-Kept db _ _ (fails exc) =
      ap {A = Database} {B = Database}
        (λ d. record d {
          sync_runs =
              (fail_market_sync_run (run_id py gamma batch_size started_at checked_at finished_at)
                finished_at (str exc)
                (created py gamma batch_size started_at checked_at finished_at db)).sync_runs;
        })
        (create_market_sync_run-changes
          (run_id py gamma batch_size started_at checked_at finished_at) started_at
          (get_market_sync_input db).discovery_run_ids db)
  Ends-Kept db _ _ (completes payloads counts retrieved stored) = tt

  -- An exception of a registry sync leaves every table but that of the sync runs as it was.
  pub run_markets_locked-raise :
      (db : Database) (exc : Exception)
      → (run db).0 ≡ raise exc
      → (run db).1 ≡ record db { sync_runs = (run db).1.sync_runs }
  unfolding Kept
  run_markets_locked-raise db exc h =
      subst (λ result. Kept db result (run db).1) h
        (Ends-Kept db (run db).0 (run db).1
          (run_markets_locked-Ends py gamma batch_size started_at checked_at finished_at db))

  -- What a completed sync has done between two databases.
  pub record Synced (db : Database) (result : MarketRegistrySyncResult) (after : Database)
      : Type 0 where
    pub payloads : List PolymarketMarketPayload
    pub all_retrieved : condition_ids payloads ≡ (get_market_sync_input db).condition_ids
    pub all_binary : All IsBinary payloads
    pub grown :
        Growth
          (build_market_run_id py started_at)
          db.observations
          checked_at
          (new_payloads db.markets payloads)
          payloads
          (registry_of db)
          (registry_after (result.created_market_count, result.updated_market_count) after)
    pub checked_all :
        result.checked_market_count ≡ result.created_market_count + result.updated_market_count
    pub consumed : unsynced_run_ids after.discovery_runs ≡ []

  Done : Database → Result MarketRegistrySyncResult → Database → Type 0
  Done db (ok result) after = result.status ≡ completed → Synced db result after
  Done db (raise exc) after = Unit

  Ends-Done :
      (db : Database) (result : Result MarketRegistrySyncResult) (after : Database)
      → market_registry_service batch_size ≡ ok batch_size
      → Ends py gamma batch_size started_at checked_at finished_at db result after
      → Done db result after
  unfolding Done market_registry_service get_market_sync_input
  Ends-Done db _ _ valid (skips nothing) = λ h. cc
  Ends-Done db _ _ valid (refuses exc) = tt
  Ends-Done db _ _ valid (fails exc) = tt
  Ends-Done db _ after valid (completes payloads counts retrieved stored) = λ h.
      let input = get_market_sync_input db in
      let start = created py gamma batch_size started_at checked_at finished_at db in
      let id = run_id py gamma batch_size started_at checked_at finished_at in
      let same : start ≡ record db { sync_runs = start.sync_runs } =
        create_market_sync_run-changes id started_at input.discovery_run_ids db in
      let (named, binary) =
        retrieve_batches_lem py gamma (batches input.condition_ids batch_size) payloads retrieved in
      let grown =
        complete_market_sync_run-Growth id payloads input.discovery_run_ids checked_at start counts
          stored in
      record {
        payloads = payloads;
        all_retrieved = named ∙ (batches_partition input.condition_ids batch_size (ground arith)).0;
        all_binary = binary;
        grown =
            subst
              (λ d.
                Growth id d.observations checked_at (new_payloads d.markets payloads) payloads
                  (registry_of d) (registry_after counts after))
              same grown;
        checked_all = omega (arith, grown.all_counts);
        consumed =
            complete_market_sync_run-consumes id payloads input.discovery_run_ids checked_at start
              counts (ap (λ d. unsynced_run_ids d.discovery_runs) (sym same)) stored;
      }

  -- A registry sync that completes has retrieved a payload with the binary contract for each market
  -- of its input, in the input's order; it has added rows for exactly the markets and tokens that
  -- were not stored, behind the old ones, which keep their identity, and a status snapshot for each
  -- payload; its counters add up to the payloads; and no discovery run is left unsynced.
  pub run_markets_locked-Synced :
      (db : Database) (result : MarketRegistrySyncResult)
      → market_registry_service batch_size ≡ ok batch_size
      → (run db).0 ≡ ok result
      → result.status ≡ completed
      → Synced db result (run db).1
  unfolding Done
  run_markets_locked-Synced db result valid h =
      subst (λ r. Done db r (run db).1) h
        (Ends-Done db (run db).0 (run db).1 valid
          (run_markets_locked-Ends py gamma batch_size started_at checked_at finished_at db))
