-- ===== src/Discovery/Repository/Ownership.antt =====
-- A discovery run changes its own row only.
use polymarket_market_discov.Base.{
  String, ◌≡◌, refl, ap, Bool, true, false, not, ◌&&◌, Option, none, some, List, [], ◌∷◌, ◌++◌,
  arith, eq_refl, find, update_where, any_of, Option-cases, inl, inr, any_of-find,
}
use polymarket_market_discov.Base.Result.{Exception, Result, ok, raise, >>=-eq-ok}
use polymarket_market_discov.Core.Models.{Database, MarketDiscoveryRun}
use polymarket_market_discov.Core.Recovery.{discovery_running}
use polymarket_market_discov.Core.Session.{transaction, transaction-ok, transaction-raise}
use polymarket_market_discov.Core.Time.{Timestamp}
use polymarket_market_discov.Discovery.Repository.{
  is_discovery_run, new_discovery_run, create_discovery_run, get_run, write_run, change_run,
}

pub get_run-eq-ok :
    (run_id : String) (found : Option MarketDiscoveryRun) (run : MarketDiscoveryRun)
    → get_run run_id found ≡ ok run
    → found ≡ some run
unfolding get_run
get_run-eq-ok run_id none run h = cc
get_run-eq-ok run_id (some r) run h = ground arith

abbrev pub runs_elsewhere : String → MarketDiscoveryRun → Bool
runs_elsewhere run_id run = discovery_running run && not (is_discovery_run run_id run)

module _ (run_id : String) where
  -- Between `start` and `db` only discovery runs have changed; the run has a row, and no other run is
  -- running.
  pub record Owns (start db : Database) : Type 0 where
    pub rest : db ≡ record start { discovery_runs = db.discovery_runs }
    pub stored : any_of (is_discovery_run run_id) db.discovery_runs ≡ true
    pub others : any_of (runs_elsewhere run_id) db.discovery_runs ≡ false

  pub find-passes :
      (runs : List MarketDiscoveryRun) (run : MarketDiscoveryRun)
      → find (is_discovery_run run_id) runs ≡ some run
      → is_discovery_run run_id run ≡ true
  find-passes [] run h = cc
  find-passes (r ∷ runs) run h = ground (arith, find-passes runs run)

  module _ (run : MarketDiscoveryRun) (named : is_discovery_run run_id run ≡ true) where
    written_stored :
        (runs : List MarketDiscoveryRun)
        → any_of (is_discovery_run run_id) runs ≡ true
        → any_of
            (is_discovery_run run_id)
            (update_where (is_discovery_run run_id) (λ old. run) runs)
          ≡ true
    written_stored [] h = h
    written_stored (r ∷ runs) h = ground (arith, written_stored runs)

    written_others :
        (runs : List MarketDiscoveryRun)
        → any_of (runs_elsewhere run_id) runs ≡ false
        → any_of (runs_elsewhere run_id) (update_where (is_discovery_run run_id) (λ old. run) runs)
          ≡ false
    written_others [] h = refl
    written_others (r ∷ runs) h = ground (arith, written_others runs)

    pub written_ended :
        (runs : List MarketDiscoveryRun)
        → discovery_running run ≡ false
        → any_of (runs_elsewhere run_id) runs ≡ false
        → any_of discovery_running (update_where (is_discovery_run run_id) (λ old. run) runs)
          ≡ false
    written_ended [] ended h = refl
    written_ended (r ∷ runs) ended h = ground (arith, written_ended runs)

    pub write_run-Owns :
        (start db : Database) → Owns start db → Owns start (write_run run_id run db)
    write_run-Owns start db o = record {
      rest =
          ap {A = Database} {B = Database}
            (λ d. record d { discovery_runs = (write_run run_id run db).discovery_runs }) o.rest;
      stored = written_stored db.discovery_runs o.stored;
      others = written_others db.discovery_runs o.others;
    }

  -- What a change of the row writes, where it is written.
  pub change_run-eq-ok :
      (change : MarketDiscoveryRun → Result MarketDiscoveryRun) (db : Database)
      → (change_run run_id change db).0 ≡ ok tt
      → (run : MarketDiscoveryRun) × (run' : MarketDiscoveryRun) × (is_discovery_run run_id run
          ≡ true)
        × (change run ≡ ok run')
        × ((change_run run_id change db).1 ≡ write_run run_id run' db)
  unfolding change_run
  change_run-eq-ok change db h =
      let body = transaction-ok _ db h in
      let (run, found, later) =
        >>=-eq-ok (get_run run_id (find (is_discovery_run run_id) db.discovery_runs)) _ body in
      let (run', changed, last) = >>=-eq-ok (change run) _ later in
      let here : find (is_discovery_run run_id) db.discovery_runs ≡ some run =
        get_run-eq-ok run_id (find (is_discovery_run run_id) db.discovery_runs) run found in
      (run, run', find-passes db.discovery_runs run here, changed, cc)

  change_run-raise :
      (change : MarketDiscoveryRun → Result MarketDiscoveryRun) (db : Database) (exc : Exception)
      → (change_run run_id change db).0 ≡ raise exc
      → (change_run run_id change db).1 ≡ db
  unfolding change_run
  change_run-raise change db exc h = transaction-raise _ db h

  pub change_run-Owns :
      (change : MarketDiscoveryRun → Result MarketDiscoveryRun) (start db : Database)
      → ((run run' : MarketDiscoveryRun) → change run ≡ ok run' → run'.run_id ≡ run.run_id)
      → Owns start db
      → Owns start (change_run run_id change db).1
  change_run-Owns change start db keeps o = go (change_run run_id change db).0 refl
    where
      go :
          (result : Result (Unit {0}))
          → (change_run run_id change db).0 ≡ result
          → Owns start (change_run run_id change db).1
      go (ok tt) h =
          let (run, run', named, changed, written) = change_run-eq-ok change db h in
          let kept : is_discovery_run run_id run' ≡ true = rw (keeps run run' changed) named in
          rw written (write_run-Owns run' kept start db o)
      go (raise exc) h = rw (change_run-raise change db exc h) o

  -- A change that cannot fail does not fail on a row that is stored.
  pub change_run-runs :
      (change : MarketDiscoveryRun → Result MarketDiscoveryRun) (start db : Database)
      → ((run : MarketDiscoveryRun) → (run' : MarketDiscoveryRun) × (change run ≡ ok run'))
      → Owns start db
      → (change_run run_id change db).0 ≡ ok tt
  unfolding change_run get_run transaction
  change_run-runs change start db works o =
      elim (Option-cases (find (is_discovery_run run_id) db.discovery_runs)) [
        | inl absent ↦
            ground (arith, o.stored, any_of-find (is_discovery_run run_id) db.discovery_runs)
        | inr (run, found) ↦ let (run', changed) = works run in ground arith
      ]

  created_stored :
      (t : Timestamp) (runs : List MarketDiscoveryRun)
      → any_of (is_discovery_run run_id) (runs ++ new_discovery_run run_id t ∷ []) ≡ true
  created_stored t [] = ground (arith, eq_refl run_id)
  created_stored t (r ∷ runs) = ground (arith, created_stored t runs)

  created_others :
      (t : Timestamp) (runs : List MarketDiscoveryRun)
      → any_of discovery_running runs ≡ false
      → any_of (runs_elsewhere run_id) (runs ++ new_discovery_run run_id t ∷ []) ≡ false
  created_others t [] h = ground (arith, eq_refl run_id)
  created_others t (r ∷ runs) h = ground (arith, created_others t runs)

  pub create_discovery_run-Owns :
      (t : Timestamp) (db : Database)
      → any_of discovery_running db.discovery_runs ≡ false
      → (create_discovery_run run_id t db).0 ≡ ok tt
      → Owns db (create_discovery_run run_id t db).1
  unfolding create_discovery_run
  create_discovery_run-Owns t db settled h =
      let body = transaction-ok _ db h in
      let e : (create_discovery_run run_id t db).1
          ≡ record db { discovery_runs = db.discovery_runs ++ new_discovery_run run_id t ∷ [] } =
        ground arith in
      rw e (record {
        rest = refl;
        stored = created_stored t db.discovery_runs;
        others = created_others t db.discovery_runs settled;
      })
