-- ===== src/Discovery/Registry/Built.antt =====
-- Which names `build_strategies` accepts, and what it builds.
use polymarket_market_discov.Base.{
  String, Bool, true, false, not, ◌&&◌, Option, some, List, [], ◌∷◌, map, ◌≡◌, refl, ap, sym, ◌∙◌,
  arith, Option-cases, ap₂, ◌==◌, eq_iff, Bool-cases, inl, inr, keep_if,
}
use polymarket_market_discov.Base.Dict.{
  contains, distinct, lookup, distinct_from, keys, contains-keys, contains-keep_if,
}
use polymarket_market_discov.Base.Result.{Result, ok, raise, is_ok}
use polymarket_market_discov.Base.Runtime.{Runtime}
use polymarket_market_discov.Base.Sort.{sorted_set, contains-sorted_set}
use polymarket_market_discov.Core.Time.{Timestamp}
use polymarket_market_discov.Discovery.Service.{Strategy}
use polymarket_market_discov.Discovery.Strategies.Rows.{DataApi}
use polymarket_market_discov.Discovery.Strategies.Whale.{whale_name, whale_strategy}
use polymarket_market_discov.Markets.Retrieval.{difference, is_empty}
use polymarket_market_discov.Discovery.Registry.{
  Factories, strategy_factories, selected_names, build_each, build_strategies,
}

-- `set(names) <= set(available)`
abbrev pub all_in : List String → List String → Bool
all_in available [] = true
all_in available (name ∷ names) = contains name available && all_in available names

all_in-distinct_from :
    (available seen names : List String)
    → all_in available names ≡ true
    → all_in available (distinct_from seen names) ≡ true
all_in-distinct_from available seen [] within = refl
all_in-distinct_from available seen (name ∷ names) within = ground (
  arith,
  all_in-distinct_from available seen names,
  all_in-distinct_from available (name ∷ seen) names,
)

keep_if-all_in :
    (available names : List String)
    → all_in available names ≡ true
    → keep_if (λ name. not (contains name available)) names ≡ []
keep_if-all_in available [] within = refl
keep_if-all_in available (name ∷ names) within = ground (arith, keep_if-all_in available names)

missing_name :
    (available names : List String)
    → all_in available names ≡ false
    → (name : String) × (contains name names ≡ true) × (contains name available ≡ false)
missing_name available [] outside = cc
missing_name available (name ∷ names) outside = elim (Bool-cases (contains name available)) [
  | inl here ↦
      let outside' = rw here at outside in
      let (other, listed, missing) = missing_name available names outside' in
      (other, ground (arith, eq_iff name other), missing)
  | inr missing ↦ (name, ground (arith, eq_iff name name), missing)
]

is_empty-contains :
    (name : String) (names : List String) → contains name names ≡ true → is_empty names ≡ false
is_empty-contains name [] listed = cc
is_empty-contains name (other ∷ names) listed = refl

is_empty-sorted_set : is_empty (sorted_set []) ≡ true
unfolding sorted_set
is_empty-sorted_set = refl

is_empty-difference :
    (names available : List String) → is_empty (difference names available) ≡ all_in available names
is_empty-difference names available = elim (Bool-cases (all_in available names)) [
  | inl within ↦ rw within (rw (keep_if-all_in available names within) is_empty-sorted_set)
  | inr outside ↦
      let (name, listed, missing) = missing_name available names outside in
      let unknown = keep_if (λ (n : String). not (contains n available)) names in
      rw outside (
        is_empty-contains name (difference names available) (
          ground (
            arith,
            contains-sorted_set name unknown,
            contains-keep_if (λ n. not (contains n available)) name names,
          )))
]

module _ (factories : Factories) where
  -- Every factory is filed under the name of what it makes.
  abbrev pub IsNamed : Type 0
  IsNamed =
      (name : String) (strategy : Strategy)
      → lookup name factories ≡ some strategy
      → strategy.name ≡ name

  build_each_lem :
      (names : List String)
      → IsNamed
      → all_in (keys factories) names ≡ true
      → (strategies : List Strategy) × (build_each factories names ≡ ok strategies)
        × (map (λ strategy. strategy.name) strategies ≡ names)
  unfolding build_each
  build_each_lem [] named within = ([], refl, refl)
  build_each_lem (name ∷ names) named within = elim (Option-cases (lookup name factories)) [
    | inl missing ↦ absurd (ground (arith, contains-keys name factories))
    | inr (strategy, e) ↦
        let (strategies, built, same) = build_each_lem names named (ground arith) in
        (
          strategy ∷ strategies,
          rw (e, build_each) (rw built refl),
          ap₂ (λ (first : String) (rest : List String). first ∷ rest) (named name strategy e) same,
        )
  ]

  pub build_strategies_cases :
      (names : Option (List String))
      → IsNamed
      → (is_ok (build_strategies factories names)
          ≡ all_in (keys factories) (selected_names factories names))
        × ((strategies : List Strategy)
            → build_strategies factories names ≡ ok strategies
            → map (λ strategy. strategy.name) strategies
              ≡ distinct (selected_names factories names))
  unfolding build_strategies
  build_strategies_cases names named =
      let selected = selected_names factories names in
      let empty = is_empty-difference selected (keys factories) in
      elim (Bool-cases (all_in (keys factories) selected)) [
        | inl within ↦
            let (built, e, same) =
              build_each_lem (distinct selected) named
                (all_in-distinct_from (keys factories) [] selected within) in
            (
              rw empty (rw within (rw e refl)),
              λ strategies returned.
                  let returned' = rw empty at returned in
                  let returned'' = rw within at returned' in
                  let returned3 = rw e at returned'' in
                  let list : built ≡ strategies = cc in rw (← list) same,
            )
        | inr outside ↦ (
          rw empty (rw outside refl),
          λ strategies returned.
              let returned' = rw empty at returned in
              let returned'' = rw outside at returned' in cc,
        )
      ]

  abbrev pub names_built : Result (List Strategy) → Result (List String)
  names_built (ok strategies) = ok (map (λ strategy. strategy.name) strategies)
  names_built (raise exc) = raise exc

module _ (py : Runtime) (api : DataApi) (begun_at ended_at : Timestamp) where
  pub strategy_factories-IsNamed : IsNamed (strategy_factories py api begun_at ended_at)
  strategy_factories-IsNamed name strategy found = elim (Bool-cases (whale_name == name)) [
    | inl e ↦
        let found' = rw e at found in
        let same : whale_strategy py api begun_at ended_at ≡ strategy = cc in
        ap (λ (s : Strategy). s.name) (sym same) ∙ (eq_iff whale_name name).0 e
    | inr e ↦ let found' = rw e at found in cc
  ]
