-- ===== src/Markets/Repository/Commit.antt =====
-- The transaction of a registry sync, from `complete_market_sync_run` in `markets/repository.py`.
use polymarket_market_discov.Base.{
  ℕ, String, ◌≡◌, refl, ◌∙◌, ap, Bool, true, not, ◌||◌, List, [], ◌∷◌, map, length, arith, eq_refl,
  ◌==◌, update_where, any_of, keep_if, inl, inr, Bool-cases,
}
use polymarket_market_discov.Base.Dict.{contains, is_distinct}
use polymarket_market_discov.Base.Result.{Exception, ok, raise, value_error, raise_if, >>=-eq-ok}
use polymarket_market_discov.Base.Sort.{sort_by, insert_sorted}
use polymarket_market_discov.Core.Models.{Database, MarketDiscoveryRun}
use polymarket_market_discov.Core.Session.{transaction, transaction-ok, transaction-raise}
use polymarket_market_discov.Core.Time.{Timestamp}
use polymarket_market_discov.Markets.Domain.{PolymarketMarketPayload}
use polymarket_market_discov.Markets.Retrieval.{condition_ids}
use polymarket_market_discov.Markets.Registry.{Registry, registry_of, sync_markets}
use polymarket_market_discov.Markets.Registry.Growth.{Growth, new_payloads}
use polymarket_market_discov.Markets.Registry.Growth.Loop.{sync_markets-Growth}
use polymarket_market_discov.Markets.Repository.{
  is_unsynced, starts_before, unsynced_run_ids, mark_synced, has_run_id, write_registry,
  complete_market_sync_run, create_market_sync_run,
}

contains-insert_sorted :
    (before : MarketDiscoveryRun → MarketDiscoveryRun → Bool) (k : String) (r : MarketDiscoveryRun)
    (rs : List MarketDiscoveryRun)
    → contains k (map (λ run. run.run_id) (insert_sorted before r rs))
      ≡ ((r.run_id == k) || contains k (map (λ run. run.run_id) rs))
unfolding insert_sorted
contains-insert_sorted before k r [] = refl
contains-insert_sorted before k r (s ∷ rs) = ground (arith, contains-insert_sorted before k r rs)

contains-sort_by :
    (before : MarketDiscoveryRun → MarketDiscoveryRun → Bool) (k : String)
    (rs : List MarketDiscoveryRun)
    → contains k (map (λ run. run.run_id) (sort_by before rs))
      ≡ contains k (map (λ run. run.run_id) rs)
unfolding sort_by
contains-sort_by before k [] = refl
contains-sort_by before k (r ∷ rs) =
    contains-insert_sorted before k r (sort_by before rs)
    ∙ ap (λ b. (r.run_id == k) || b) (contains-sort_by before k rs)

all_marked :
    (ids : List String) (t : Timestamp) (runs : List MarketDiscoveryRun)
    → ((k : String)
        → contains k (map (λ run. run.run_id) (keep_if is_unsynced runs)) ≡ true
        → contains k ids ≡ true)
    → keep_if is_unsynced (update_where (λ run. contains run.run_id ids) (mark_synced t) runs) ≡ []
all_marked ids t [] known = refl
all_marked ids t (r ∷ runs) known = elim (Bool-cases (is_unsynced r)) [
  | inl pending ↦
      let found : contains r.run_id ids ≡ true =
        known r.run_id (rw pending (ground (arith, eq_refl r.run_id))) in
      rw found (ground (arith, all_marked ids t runs (λ k h. known k (rw pending (ground arith)))))
  | inr other ↦ ground (arith, all_marked ids t runs (λ k h. known k (rw other h)))
]

-- Marking the runs that were pending leaves none pending.
pub unsynced_run_ids-marked :
    (t : Timestamp) (runs : List MarketDiscoveryRun)
    → unsynced_run_ids
        (update_where (λ run. contains run.run_id (unsynced_run_ids runs)) (mark_synced t) runs)
      ≡ []
unfolding unsynced_run_ids sort_by
unsynced_run_ids-marked t runs =
    ap (λ l. map (λ (run : MarketDiscoveryRun). run.run_id) (sort_by starts_before l))
      (all_marked (unsynced_run_ids runs) t runs
        (λ k h. contains-sort_by starts_before k (keep_if is_unsynced runs) ∙ h))

-- The counters that the transaction returns, with the rows that it leaves.
abbrev pub registry_after : ℕ × ℕ → Database → Registry
registry_after (created, updated) db = record {
  created = created;
  updated = updated;
  markets = db.markets;
  tokens = db.tokens;
  snapshots = db.status_snapshots;
}

module _ (run_id : String) (payloads : List PolymarketMarketPayload)
    (discovery_run_ids : List String) (checked_at : Timestamp) (db : Database) where
  abbrev after : Database
  after = (complete_market_sync_run run_id payloads discovery_run_ids checked_at db).1

  record Committed (counts : ℕ × ℕ) : Type 0 where
    r : Registry
    distinct_ids : is_distinct (condition_ids payloads) ≡ true
    synced :
        sync_markets run_id
          (any_of (has_run_id run_id) db.sync_runs)
          db.observations
          checked_at
          payloads
          (registry_of db)
        ≡ ok r
    counted : counts ≡ (r.created, r.updated)
    written : after ≡ write_registry run_id discovery_run_ids checked_at (length payloads) r db

  committed :
      (counts : ℕ × ℕ)
      → (complete_market_sync_run run_id payloads discovery_run_ids checked_at db).0 ≡ ok counts
      → Committed counts
  unfolding complete_market_sync_run
  committed counts h =
      let body = transaction-ok _ db h in
      let (u, tested, later) =
        >>=-eq-ok
          (raise_if (not (is_distinct (condition_ids payloads)))
            (value_error "Registry payloads contain duplicate condition IDs"))
          _ body in
      let (r, synced, last) =
        >>=-eq-ok
          (sync_markets run_id (any_of (has_run_id run_id) db.sync_runs) db.observations checked_at
            payloads (registry_of db))
          _ later in
      record { r = r; distinct_ids = ground arith; synced = synced; counted = cc; written = cc }

  -- An exception rolls the whole transaction back.
  pub complete_market_sync_run-raise :
      (exc : Exception)
      → (complete_market_sync_run run_id payloads discovery_run_ids checked_at db).0 ≡ raise exc
      → after ≡ db
  unfolding complete_market_sync_run
  complete_market_sync_run-raise exc h = transaction-raise _ db h

  pub complete_market_sync_run-written :
      (counts : ℕ × ℕ)
      → (complete_market_sync_run run_id payloads discovery_run_ids checked_at db).0 ≡ ok counts
      → (r : Registry) × (after
          ≡ write_registry run_id discovery_run_ids checked_at (length payloads) r db)
  complete_market_sync_run-written counts h = let c = committed counts h in (c.r, c.written)

  pub complete_market_sync_run-Growth :
      (counts : ℕ × ℕ)
      → (complete_market_sync_run run_id payloads discovery_run_ids checked_at db).0 ≡ ok counts
      → Growth run_id db.observations checked_at
          (new_payloads db.markets payloads)
          payloads
          (registry_of db)
          (registry_after counts after)
  complete_market_sync_run-Growth counts h =
      let c = committed counts h in
      rw (c.counted, c.written)
        (sync_markets-Growth run_id db.observations checked_at
          (any_of (has_run_id run_id) db.sync_runs) payloads (registry_of db) c.r c.distinct_ids
          c.synced)

  pub complete_market_sync_run-consumes :
      (counts : ℕ × ℕ)
      → discovery_run_ids ≡ unsynced_run_ids db.discovery_runs
      → (complete_market_sync_run run_id payloads discovery_run_ids checked_at db).0 ≡ ok counts
      → unsynced_run_ids after.discovery_runs ≡ []
  complete_market_sync_run-consumes counts all h =
      let c = committed counts h in
      rw (c.written, all) (unsynced_run_ids-marked checked_at db.discovery_runs)

pub create_market_sync_run-raise :
    (run_id : String) (t : Timestamp) (ids : List String) (db : Database) (exc : Exception)
    → (create_market_sync_run run_id t ids db).0 ≡ raise exc
    → (create_market_sync_run run_id t ids db).1 ≡ db
unfolding create_market_sync_run transaction
create_market_sync_run-raise run_id t ids db exc h = ground arith
