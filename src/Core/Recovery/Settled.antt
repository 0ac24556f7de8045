-- ===== src/Core/Recovery/Settled.antt =====
-- After a recovery nothing is left running, and a second one finds nothing to do.
use polymarket_market_discov.Base.{
  String, ◌≡◌, refl, sym, subst, true, false, List, [], ◌∷◌, arith, inl, inr, Bool-cases, eq_refl,
  update_where, any_of, keep_if, update_where-none, any_of-update_where,
}
use polymarket_market_discov.Base.Dict.{contains}
use polymarket_market_discov.Core.Models.{Database, OrderbookCollectionRun}
use polymarket_market_discov.Core.Time.{Timestamp}
use polymarket_market_discov.Core.Recovery.{
  discovery_running, sync_running, collection_running, recover_discovery_run, recover_sync_run,
  recover_collection_run, run_ids, orphaned_orderbook_ids, is_orphan_run, recover_collections,
  recover_runs, recover_orphaned_runs,
}

-- No run of any layer is running.
pub record IsSettled (db : Database) : Type 0 where
  pub discovery : any_of discovery_running db.discovery_runs ≡ false
  pub sync : any_of sync_running db.sync_runs ≡ false
  pub collection : any_of collection_running db.collection_runs ≡ false

abbrev running_ids : List OrderbookCollectionRun → List String
running_ids runs = run_ids (keep_if collection_running runs)

running_ids-nil :
    (runs : List OrderbookCollectionRun)
    → running_ids runs ≡ []
    → any_of collection_running runs ≡ false
running_ids-nil [] h = refl
running_ids-nil (run ∷ runs) h = ground (arith, running_ids-nil runs)

running_ids_settled :
    (runs : List OrderbookCollectionRun)
    → any_of collection_running runs ≡ false
    → running_ids runs ≡ []
running_ids_settled [] h = refl
running_ids_settled (run ∷ runs) h = ground (arith, running_ids_settled runs)

-- A running run is among the orphans, by its identifier.
abbrev Covers : List String → List OrderbookCollectionRun → Type 0
Covers ids [] = Unit
Covers ids (run ∷ runs) =
    (collection_running run ≡ true → contains run.run_id ids ≡ true) × Covers ids runs

Covers-cons :
    (id : String) (ids : List String) (runs : List OrderbookCollectionRun)
    → Covers ids runs
    → Covers (id ∷ ids) runs
Covers-cons id ids [] c = tt
Covers-cons id ids (run ∷ runs) c = (λ h. ground (arith, c.0 h), Covers-cons id ids runs c.1)

running_ids_running :
    (run : OrderbookCollectionRun) (runs : List OrderbookCollectionRun)
    → collection_running run ≡ true
    → running_ids (run ∷ runs) ≡ run.run_id ∷ running_ids runs
running_ids_running run runs h = ground arith

running_ids_ended :
    (run : OrderbookCollectionRun) (runs : List OrderbookCollectionRun)
    → collection_running run ≡ false
    → running_ids (run ∷ runs) ≡ running_ids runs
running_ids_ended run runs h = ground arith

running_ids-Covers : (runs : List OrderbookCollectionRun) → Covers (running_ids runs) runs
running_ids-Covers [] = tt
running_ids-Covers (run ∷ runs) = elim (Bool-cases (collection_running run)) [
  | inl is_running ↦
      subst (λ ids. Covers ids (run ∷ runs)) (sym (running_ids_running run runs is_running))
        (
          λ h. ground (arith, eq_refl run.run_id),
          Covers-cons run.run_id (running_ids runs) runs (running_ids-Covers runs),
        )
  | inr ended ↦
      subst (λ ids. Covers ids (run ∷ runs)) (sym (running_ids_ended run runs ended))
        (λ h. cc, running_ids-Covers runs)
]

collections_recovered :
    (ids : List String) (t : Timestamp) (runs : List OrderbookCollectionRun)
    → Covers ids runs
    → any_of collection_running (update_where (is_orphan_run ids) (recover_collection_run t) runs)
      ≡ false
unfolding recover_collection_run
collections_recovered ids t [] c = refl
collections_recovered ids t (run ∷ runs) c =
    ground (arith, collections_recovered ids t runs c.1, c.0)

recover_collections-settled :
    (ids : List String) (t : Timestamp) (db : Database)
    → running_ids db.collection_runs ≡ ids
    → any_of collection_running (recover_collections ids t db).collection_runs ≡ false
recover_collections-settled [] t db h = running_ids-nil db.collection_runs h
recover_collections-settled (id ∷ ids) t db h =
    collections_recovered (id ∷ ids) t db.collection_runs
      (rw h at (running_ids-Covers db.collection_runs))

recover_collections-discovery_runs :
    (ids : List String) (t : Timestamp) (db : Database)
    → (recover_collections ids t db).discovery_runs ≡ db.discovery_runs
recover_collections-discovery_runs [] t db = refl
recover_collections-discovery_runs (id ∷ ids) t db = refl

recover_collections-sync_runs :
    (ids : List String) (t : Timestamp) (db : Database)
    → (recover_collections ids t db).sync_runs ≡ db.sync_runs
recover_collections-sync_runs [] t db = refl
recover_collections-sync_runs (id ∷ ids) t db = refl

-- After a recovery no discovery run, registry sync run or collection run is running.
pub recover_orphaned_runs-IsSettled :
    (t : Timestamp) (db : Database) → IsSettled (recover_orphaned_runs t db)
unfolding recover_orphaned_runs orphaned_orderbook_ids
recover_orphaned_runs-IsSettled t db = record {
  discovery = rw recover_collections-discovery_runs (
      any_of-update_where discovery_running discovery_running (recover_discovery_run t)
        db.discovery_runs (λ run h. unfold recover_discovery_run in refl) (λ run h. h));
  sync = rw recover_collections-sync_runs (
      any_of-update_where sync_running sync_running (recover_sync_run t) db.sync_runs
        (λ run h. unfold recover_sync_run in refl) (λ run h. h));
  collection = recover_collections-settled (orphaned_orderbook_ids db) t (recover_runs t db) refl;
}

-- Where nothing is running, a recovery changes nothing.
pub recover_orphaned_runs_settled :
    (t : Timestamp) (db : Database) → IsSettled db → recover_orphaned_runs t db ≡ db
unfolding recover_orphaned_runs orphaned_orderbook_ids
recover_orphaned_runs_settled t db s = rw (
  running_ids_settled db.collection_runs s.collection,
  update_where-none discovery_running (recover_discovery_run t) db.discovery_runs s.discovery,
  update_where-none sync_running (recover_sync_run t) db.sync_runs s.sync,
)

-- A second recovery, at whatever time, finds nothing to do.
pub recover-recover :
    (t u : Timestamp) (db : Database)
    → recover_orphaned_runs u (recover_orphaned_runs t db) ≡ recover_orphaned_runs t db
recover-recover t u db =
    recover_orphaned_runs_settled u (recover_orphaned_runs t db)
      (recover_orphaned_runs-IsSettled t db)
