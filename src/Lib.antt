-- ===== src/Lib.antt =====
-- A model of the Polymarket market discovery collector, and what is proved of it.
--
-- The program collects data on prediction markets in three layers, each a service that writes to one
-- database. Discovery finds markets by strategies; Markets keeps a registry of the discovered markets
-- from the Gamma API; Orderbooks stores the books of the registered markets from the CLOB API. A
-- coordinator runs the layers in cycles, and a completed layer makes the next one due. Each service
-- holds an advisory lock for its whole run and first fails the rows that a crashed run left running.
--
-- Paths are below src/polymarket_market_discovery/.
--   Base        shared: Python's lists, sets and dicts over texts, exceptions as results, sorting,
--               batches, split and join, JSON values, decimals, floats, and the text conversions as
--               the record Runtime
--   Core        core/time.py, core/db/models/, core/db/engine.py, core/db/lock.py (Lock, and for many
--               sessions at once Lock/Sessions), core/db/recovery.py
--   Polymarket  settings.py (Settings; the names and defaults in Settings/Loading), polymarket/params/
--               (Params) and polymarket/client.py (Client; the calls as the services use them are in
--               Client/Services)
--   Discovery   discovery/domain.py (Domain), discovery/repository.py (Repository),
--               discovery/service.py (Service), discovery/registry.py (Registry) and
--               discovery/strategies/whale_leaderboard.py (Strategies: its loops in Paging, its two
--               sources in Leaderboard and Positions, the strategy in Whale)
--   Markets     markets/domain.py (Domain), markets/service.py (Gamma, Retrieval, Service) and
--               markets/repository.py (Tokens, Registry, Repository)
--   Orderbooks  orderbooks/domain.py (Domain), orderbooks/parser.py (Fields, Parser),
--               orderbooks/service.py (Collection, Service) and orderbooks/repository.py (Repository,
--               Completion)
--   Pipeline    pipeline/coordinator.py; its loop over the clock is in Schedule, and the coordinator over
--               the three services, from cli.py, in Services
--   Cli         cli.py: the arguments and what they build (Cli), the commands and exit codes (Run), and
--               core/logging.py (Logging)
--   Samples     the theorems at concrete inputs
-- A function keeps its Python name, without a leading underscore, where it is one function here; the
-- blocks of a long function are functions of their own, whose comments name the block. The method run
-- of a service is run_discovery, run_markets or run_orderbooks, and its _run_locked is called
-- run_discovery_locked and so on.
--
-- How the model reads the code:
--   - A method that reads and writes the database takes the database and returns a result and the
--     database behind it. A session is a transaction: an exception in its block changes nothing. A
--     table is the list of its rows in the order of insertion. The keys and unique constraints that
--     an insertion can violate are tests where the rows are added, and raise an exception that carries
--     the constraint's name. Foreign keys to a run that the same method made just before, the
--     surrogate keys and the columns created_at are left out.
--   - Sets and dicts with text keys are lists in the order of insertion. Texts are ordered by code
--     points, also where the database sorts them.
--   - A point in time is a number of microseconds since the year 1, in UTC. Where a conversion to UTC
--     would fall before that, Python raises and the model stops at 0. The readings of the clock during
--     a run are arguments.
--   - Decimals are finite and exact: NaN, infinities and the rounding at 28 digits are left out. The
--     floats of the settings have the infinities and NaN, which no comparison holds of; their finite
--     values are exact. The size threshold of a positions request, which the program gives itself, is
--     a finite decimal.
--   - What Python does with texts (int, Decimal, fromisoformat, strip, lower, json.loads, strftime) is
--     the parameter Runtime. What the HTTP client meets at the n-th attempt of a request is the
--     parameter Http of the client; the services take the client's calls as the parameters Gamma,
--     DataApi and get_order_books, so that one request is answered alike during one run. Nothing is
--     assumed of them, except where a theorem names it. The limiters and the semaphore of the client
--     only delay a request; a wait for a limiter is an event of a call.
--   - asyncio.gather is the calls in their order: where several raise, the first in order is raised.
--   - The text of pydantic's ValidationError is reduced to its first failure. A field named data in
--     the source, which is no name here, is called payload.
--   - The monotonic clock of the coordinator counts ticks, so many to the second, where Python's is a
--     float. run_cycle returns, with its result, the last values of its variables. The endless loop of
--     run_forever is given the readings of any number of rounds, so that it needs no fuel. Fuel is in
--     batches, where the length of the list is enough, and in the loops over the pages of an API: 42
--     rounds for a leaderboard, whose offsets are 0, 25, ..., 1000, and 22 for the positions of a
--     wallet, whose offsets are 0, 500, ..., 10000, each with the test that ends the loop.
--   - The command line begins behind argparse, with the texts that it finds for each option; schedule
--     is the rounds before the keyboard interrupts it.
--
-- Not modelled: the third-party HTTP client, limiters, argparse and alembic, whose answers are
-- parameters; where pydantic finds a setting and how it reads its text, which is the parameter Source;
-- the database's engine, and how SQLAlchemy writes its URL; the formatter and the stream of the log; and
-- the migrations, whose constraints are taken from the models.
pub mod Base
pub mod Core
pub mod Polymarket
pub mod Discovery
pub mod Markets
pub mod Orderbooks
pub mod Pipeline
pub mod Cli
pub mod Samples
