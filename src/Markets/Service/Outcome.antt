-- ===== src/Markets/Service/Outcome.antt =====
-- How a run of `MarketRegistryService` ends, from `_run_locked` of `markets/service.py`.
use polymarket_market_discov.Base.{
  ℕ, String, ◌≡◌, refl, sym, ◌∙◌, subst, true, List, length, inl, inr, Bool-cases,
}
use polymarket_market_discov.Base.Batches.{batches}
use polymarket_market_discov.Base.Result.{Exception, Result, ok, raise, str}
use polymarket_market_discov.Base.Runtime.{Runtime}
use polymarket_market_discov.Core.Models.{Database}
use polymarket_market_discov.Core.Time.{Timestamp}
use polymarket_market_discov.Markets.Domain.{PolymarketMarketPayload, MarketRegistrySyncResult}
use polymarket_market_discov.Markets.Retrieval.{Gamma}
use polymarket_market_discov.Markets.Repository.{
  get_market_sync_input, create_market_sync_run, complete_market_sync_run, fail_market_sync_run,
}
use polymarket_market_discov.Markets.Repository.Commit.{
  complete_market_sync_run-raise, create_market_sync_run-raise,
}
use polymarket_market_discov.Markets.Service.{
  retrieve_batches, sync_input, sync_pending, run_markets_locked, nothing_to_sync, with_count,
  store, finish, after_create, skipped_sync, completed_sync, build_market_run_id,
}

module _ (py : Runtime) (gamma : Gamma) (batch_size : ℕ)
    (started_at checked_at finished_at : Timestamp) where
  abbrev pub run_id : String
  run_id = build_market_run_id py started_at

  -- The database behind the row of the new run.
  abbrev pub created : Database → Database
  created db =
      (create_market_sync_run run_id started_at (get_market_sync_input db).discovery_run_ids db).1

  -- The four ways in which `_run_locked` ends: nothing to do; no row for the run; an exception in
  -- the `try` block; a completed sync.
  pub data Ends (db : Database) : Result MarketRegistrySyncResult → Database → Type 0 where
    skips :
        nothing_to_sync (get_market_sync_input db) ≡ true
        → Ends db (ok (skipped_sync started_at "no_markets_to_sync")) db
    refuses : (exc : Exception) → Ends db (raise exc) db
    fails :
        (exc : Exception)
        → Ends db (raise exc) (fail_market_sync_run run_id finished_at (str exc) (created db))
    completes :
        (payloads : List PolymarketMarketPayload) (counts : ℕ × ℕ)
        → retrieve_batches py gamma (batches (get_market_sync_input db).condition_ids batch_size)
          ≡ ok payloads
        → (complete_market_sync_run run_id payloads
            (get_market_sync_input db).discovery_run_ids
            checked_at
            (created db)).0
          ≡ ok counts
        → Ends db
            (ok (
              completed_sync started_at run_id
                (get_market_sync_input db)
                (length payloads, counts)))
            (complete_market_sync_run run_id payloads
              (get_market_sync_input db).discovery_run_ids
              checked_at
              (created db)).1

  finish-Ends :
      (db : Database) (retrieved : Result (List PolymarketMarketPayload))
      → retrieve_batches py gamma (batches (get_market_sync_input db).condition_ids batch_size)
        ≡ retrieved
      → (let input = get_market_sync_input db in
          let end = finish py gamma batch_size started_at checked_at finished_at run_id input (
            store py gamma batch_size started_at checked_at finished_at run_id input retrieved
              (created db)) in
          Ends db end.0 end.1)
  finish-Ends db (raise exc) h = fails exc
  finish-Ends db (ok payloads) h = go _ _ refl refl
    where
      go :
          (result : Result (ℕ × ℕ)) (db' : Database)
          → (complete_market_sync_run run_id payloads
              (get_market_sync_input db).discovery_run_ids
              checked_at
              (created db)).0
            ≡ result
          → (complete_market_sync_run run_id payloads
              (get_market_sync_input db).discovery_run_ids
              checked_at
              (created db)).1
            ≡ db'
          → (let input = get_market_sync_input db in
              let end =
                finish py gamma batch_size started_at checked_at finished_at run_id input
                  (with_count (length payloads) (result, db')) in
              Ends db end.0 end.1)
      go (ok counts) db' done e =
          subst
            (λ d.
              Ends db
                (ok (
                  completed_sync started_at run_id (get_market_sync_input db)
                    (length payloads, counts)))
                d)
            e (completes payloads counts h done)
      go (raise exc) db' failed e =
          subst (λ d. Ends db (raise exc) (fail_market_sync_run run_id finished_at (str exc) d))
            (sym (
                complete_market_sync_run-raise run_id payloads
                  (get_market_sync_input db).discovery_run_ids checked_at (created db) exc failed)
              ∙ e)
            (fails exc)

  sync_pending-Ends :
      (db : Database)
      → (let end =
            sync_pending py gamma batch_size started_at checked_at finished_at
              (get_market_sync_input db)
              db in
          Ends db end.0 end.1)
  unfolding sync_pending sync_input
  sync_pending-Ends db = go _ _ refl refl
    where
      go :
          (result : Result (Unit {0})) (db' : Database)
          → (create_market_sync_run run_id started_at
              (get_market_sync_input db).discovery_run_ids
              db).0
            ≡ result
          → created db ≡ db'
          → (let end =
                after_create py gamma batch_size started_at checked_at finished_at run_id
                  (get_market_sync_input db)
                  (result, db') in
              Ends db end.0 end.1)
      go (raise exc) db' refused e =
          subst (λ d. Ends db (raise exc) d)
            (sym (
                create_market_sync_run-raise run_id started_at
                  (get_market_sync_input db).discovery_run_ids db exc refused)
              ∙ e)
            (refuses exc)
      go (ok u) db' done e =
          subst
            (λ d.
              let end =
                after_create py gamma batch_size started_at checked_at finished_at run_id
                  (get_market_sync_input db) (ok u, d) in
              Ends db end.0 end.1)
            e (finish-Ends db _ refl)

  pub run_markets_locked-Ends :
      (db : Database)
      → Ends db
          (run_markets_locked py gamma batch_size started_at checked_at finished_at db).0
          (run_markets_locked py gamma batch_size started_at checked_at finished_at db).1
  unfolding run_markets_locked
  run_markets_locked-Ends db = elim (Bool-cases (nothing_to_sync (get_market_sync_input db))) [
    | inl nothing ↦ rw nothing (skips nothing)
    | inr pending ↦ rw pending (sync_pending-Ends db)
  ]
