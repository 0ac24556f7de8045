-- ===== src/Samples.antt =====
-- Tests: the theorems at concrete inputs. Here are the values that the tests share.
mod Discovery
mod Pipeline
mod System
mod Core
mod Markets
mod Orderbooks
mod Polymarket
mod Strategies
mod Cli
use polymarket_market_discov.Base.{
  ℕ, String, Bool, true, false, Option, none, some, List, [], ◌∷◌, ◌==◌, if◌then◌else◌,
}
use polymarket_market_discov.Base.Decimal.{Decimal}
use polymarket_market_discov.Base.Int.{pos}
use polymarket_market_discov.Base.Json.{Json, bool, string, list, cons, nil, Fields, field, end}
use polymarket_market_discov.Base.Result.{ok}
use polymarket_market_discov.Base.Runtime.{Runtime}
use polymarket_market_discov.Core.Models.{Database, empty_database}
use polymarket_market_discov.Core.Status.{completed, running}

abbrev tenths : ℕ → Decimal
tenths n = record { coefficient = pos n; places = 1 }

abbrev read_tenths : String → Option Decimal
read_tenths s = if s == "0.4" then some (tenths 4) else if s == "0.6" then some (tenths 6) else none

abbrev py : Runtime
py = record {
  repr = λ value. "value";
  lower = λ text. text;
  upper = λ text. text;
  strip = λ text. text;
  decimal = read_tenths;
  decimal_text = λ d. "0.x";
  integer = λ text. none;
  hexadecimal = λ text. none;
  urljoin = λ base url. base;
  fromisoformat = λ text. none;
  fromtimestamp = λ seconds. ok 0;
  loads = λ text. none;
  strftime = λ t. "T";
}

abbrev texts : String → String → Json
texts a b = list (cons (string a) (cons (string b) nil))

-- A row of the Gamma API.
abbrev market_row : Fields
market_row = field "conditionId" (string "c1") (
    field "clobTokenIds" (texts "t1" "t2")
      (field "outcomes" (texts "Yes" "No") (field "active" (bool true) end)))

-- One completed discovery run with an observation of "c1", and a sync that was left running.
abbrev discovered : Database
discovered = record empty_database {
  discovery_runs =
      record {
        run_id = "d1";
        status = completed;
        started_at = 1;
        finished_at = some 2;
        strategies = [];
        strategy_log = [];
        observation_count = 1;
        discovered_market_count = 1;
        registry_synced_at = none;
        error_message = none;
      }
      ∷ [];
  observations =
      record {
        discovery_run_id = "d1";
        strategy = "whale_leaderboard";
        strategy_version = "v1";
        condition_id = "c1";
        observed_at = 2;
        evidence_json = record { schema_version = 1; items = [] };
      }
      ∷ [];
  sync_runs =
      record {
        run_id = "s0";
        status = running;
        started_at = 1;
        finished_at = none;
        input_discovery_run_ids = [];
        checked_market_count = 0;
        created_market_count = 0;
        updated_market_count = 0;
        error_message = none;
      }
      ∷ [];
}
