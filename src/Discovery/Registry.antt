-- ===== src/Discovery/Registry.antt =====
-- `discovery/registry.py`, and `MarketDiscoveryService.__init__`: the strategies that a run names.
pub mod Built
use polymarket_market_discov.Base.{
  String, Bool, true, false, not, ◌&&◌, ◌↔◌, Option, none, some, List, [], ◌∷◌, map, All, ◌≡◌, refl,
  ap, sym, ◌∙◌, arith, Option-cases, ap₂, ◌==◌, eq_iff, Bool-cases, inl, inr, if◌then◌else◌,
  keep_if,
}
use polymarket_market_discov.Base.Dict.{
  contains, distinct, lookup, distinct_from, keys, contains-keys, contains-distinct,
  contains-keep_if,
}
use polymarket_market_discov.Base.Result.{
  Result, ok, raise, value_error, key_error, raise_if, is_ok, ◌>>=◌, ◌>>◌,
}
use polymarket_market_discov.Base.Runtime.{Runtime}
use polymarket_market_discov.Base.Sort.{sorted_set, contains-sorted_set}
use polymarket_market_discov.Base.Text.{f_string, join}
use polymarket_market_discov.Core.Time.{Timestamp}
use polymarket_market_discov.Discovery.Service.{Strategy}
use polymarket_market_discov.Discovery.Strategies.Rows.{DataApi}
use polymarket_market_discov.Discovery.Strategies.Whale.{whale_name, whale_strategy}
use polymarket_market_discov.Markets.Retrieval.{difference, is_empty}

-- The strategies by their names.
abbrev pub Factories : Type 0
Factories = List (String × Strategy)

-- `STRATEGY_FACTORIES`, with the client and the clock of the one strategy.
abbrev pub strategy_factories : Runtime → DataApi → Timestamp → Timestamp → Factories
strategy_factories py api begun_at ended_at =
    (whale_name, whale_strategy py api begun_at ended_at) ∷ []

module _ (factories : Factories) where
  abbrev pub available_strategy_names : List String
  available_strategy_names = keys factories

  -- `names or list(available_strategy_names())`
  abbrev pub selected_names : Option (List String) → List String
  selected_names none = available_strategy_names
  selected_names (some []) = available_strategy_names
  selected_names (some (name ∷ names)) = name ∷ names

  -- `[STRATEGY_FACTORIES[name]() for name in names]`
  unfoldable pub build_each : List String → Result (List Strategy)
  build_each [] = ok []
  build_each (name ∷ names) = elim (lookup name factories) [
    | none ↦ raise (key_error name)
    | some strategy ↦ (do strategies ← build_each names; ok (strategy ∷ strategies))
  ]

  unfoldable pub build_strategies : Option (List String) → Result (List Strategy)
  unfolding build_each
  build_strategies names = do
    let unknown = difference (selected_names names) available_strategy_names
    raise_if (not (is_empty unknown))
        (value_error (f_string ("Unknown market discovery strategies: " ∷ join ", " unknown ∷ [])))
    build_each (distinct (selected_names names))
