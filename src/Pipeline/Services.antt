-- ===== src/Pipeline/Services.antt =====
-- The coordinator over the three services, as `cli.py` puts them together.
use polymarket_market_discov.Base.{
  ℕ, String, ◌≡◌, refl, Bool, true, Option, none, some, List, ◌∙◌, ap,
}
use polymarket_market_discov.Base.Json.{Json}
use polymarket_market_discov.Base.Result.{Result, ok}
use polymarket_market_discov.Base.Runtime.{Runtime}
use polymarket_market_discov.Core.Lock.{Lock, acquires, with_pipeline_lock-behind_lock}
use polymarket_market_discov.Core.Models.{Database}
use polymarket_market_discov.Core.Recovery.Settled.{IsSettled}
use polymarket_market_discov.Core.Time.{Timestamp, Datetime, east, ensure_utc}
use polymarket_market_discov.Discovery.Service.{Strategy, run_discovery, discovery_body}
use polymarket_market_discov.Discovery.Service.Settled.{run_discovery-IsSettled}
use polymarket_market_discov.Markets.Retrieval.{Gamma}
use polymarket_market_discov.Markets.Service.{run_markets, markets_body}
use polymarket_market_discov.Markets.Service.Settled.{run_markets-IsSettled}
use polymarket_market_discov.Orderbooks.Service.{run_orderbooks, orderbooks_body}
use polymarket_market_discov.Orderbooks.Service.Settled.{run_orderbooks-IsSettled}
use polymarket_market_discov.Pipeline.{
  Layers, LayerTrigger, Runners, Cycle, PipelineRunResult, run_cycle,
}
use polymarket_market_discov.Pipeline.Cascade.{effect, run_cycle-effects}

-- What the services are built with. `clock` is the reading behind a service's work.
pub record Settings : Type 0 where
  pub py : Runtime
  pub strategies : List Strategy
  pub gamma : Gamma
  pub get_order_books : List String → Result Json
  pub market_batch_size : ℕ
  pub orderbook_batch_size : ℕ
  pub max_age : ℕ
  pub clock : Timestamp
  pub session : ℕ

abbrev utc : Timestamp → Datetime
utc now = record { wall = now; tzinfo = east 0 }

unfoldable pub service_runners : Settings → Runners (Lock × Database)
service_runners o = record {
  discovery = λ now. run_discovery o.py o.strategies o.clock o.session (utc now);
  markets = λ now. run_markets o.py o.gamma o.market_batch_size o.clock o.clock o.session (utc now);
  orderbooks = λ now.
      run_orderbooks o.py o.get_order_books o.orderbook_batch_size o.max_age o.clock o.session
        (utc now);
}

module _ (o : Settings) (now : Timestamp) where
  -- The lock is as it was, and nothing is running.
  abbrev IsIdle : Lock → Lock × Database → Type 0
  IsIdle lock s = (s.0 ≡ lock) × IsSettled s.1

  discovery-IsIdle :
      (trigger : Option LayerTrigger) (lock : Lock) (s : Lock × Database)
      → acquires o.session lock ≡ true
      → IsIdle lock s
      → IsIdle lock (effect trigger ((service_runners o).discovery now) s)
  unfolding service_runners run_discovery
  discovery-IsIdle none lock s free idle = idle
  discovery-IsIdle (some t) lock s free (same, settled) = (
    ap (λ r. r.1.0)
          (with_pipeline_lock-behind_lock o.session
            (discovery_body o.py o.strategies o.clock o.session (ensure_utc (utc now))) s.0 s.1)
        ∙ same,
    run_discovery-IsSettled o.py o.strategies o.clock o.session (utc now) s.0 s.1 (rw same free),
  )

  markets-IsIdle :
      (trigger : Option LayerTrigger) (lock : Lock) (s : Lock × Database)
      → acquires o.session lock ≡ true
      → IsIdle lock s
      → IsIdle lock (effect trigger ((service_runners o).markets now) s)
  unfolding service_runners run_markets
  markets-IsIdle none lock s free idle = idle
  markets-IsIdle (some t) lock s free (same, settled) = (
    ap (λ r. r.1.0)
          (with_pipeline_lock-behind_lock o.session
            (markets_body o.py o.gamma o.market_batch_size o.clock o.clock o.session
              (ensure_utc (utc now)))
            s.0 s.1)
        ∙ same,
    run_markets-IsSettled o.py o.gamma o.market_batch_size o.clock o.clock o.session (utc now) s.0
        s.1 (rw same free),
  )

  orderbooks-IsIdle :
      (trigger : Option LayerTrigger) (lock : Lock) (s : Lock × Database)
      → acquires o.session lock ≡ true
      → IsIdle lock s
      → IsIdle lock (effect trigger ((service_runners o).orderbooks now) s)
  unfolding service_runners run_orderbooks
  orderbooks-IsIdle none lock s free idle = idle
  orderbooks-IsIdle (some t) lock s free (same, settled) = (
    ap (λ r. r.1.0)
          (with_pipeline_lock-behind_lock o.session
            (orderbooks_body o.py o.get_order_books o.orderbook_batch_size o.max_age o.clock
              o.session (ensure_utc (utc now)))
            s.0 s.1)
        ∙ same,
    run_orderbooks-IsSettled o.py o.get_order_books o.orderbook_batch_size o.max_age o.clock
        o.session (utc now) s.0 s.1 (rw same free),
  )

-- A cycle over the three services, from a lock that the process can get and a database in which
-- nothing is running, leaves the lock as it was and nothing running, whichever layers run and
-- however each of them ends.
pub service_cycle-IsSettled :
    (o : Settings) (due : Layers Bool) (default : LayerTrigger) (now : Timestamp) (lock : Lock)
    (db : Database) (r : PipelineRunResult) (c : Cycle (Lock × Database))
    → acquires o.session lock ≡ true
    → IsSettled db
    → run_cycle (service_runners o) due default now (lock, db) ≡ ok (r, c)
    → (c.state.0 ≡ lock) × IsSettled c.state.1
service_cycle-IsSettled o due default now lock db r c free settled h =
    rw (run_cycle-effects (service_runners o) due default now (lock, db) r c h) (
      orderbooks-IsIdle o now r.triggers.orderbooks lock _ free (
        markets-IsIdle o now r.triggers.markets lock _ free
          (discovery-IsIdle o now r.triggers.discovery lock (lock, db) free (refl, settled))))
