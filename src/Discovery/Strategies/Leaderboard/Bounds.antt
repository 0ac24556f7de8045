-- ===== src/Discovery/Strategies/Leaderboard/Bounds.antt =====
-- The leaderboard loop ends within its fuel, and what it finds is within its bounds.
use polymarket_market_discov.Base.{
  ℕ, ◌≤◌, ◌<◌, String, Bool, true, false, some, List, [], ◌∷◌, ◌++◌, length, All, All-append,
  length-append, ◌≡◌, refl, arith, leb, subst, Bool-cases, inl, inr,
}
use polymarket_market_discov.Base.Dict.{contains, is_distinct, is_distinct-append_one}
use polymarket_market_discov.Base.Json.{Json, list, dict, Fields, nil, cons, elements}
use polymarket_market_discov.Base.Result.{Result, ok, Result-cases}
use polymarket_market_discov.Base.Runtime.{Runtime}
use polymarket_market_discov.Base.Text.{text_length, begins_0x}
use polymarket_market_discov.Discovery.Strategies.Leaderboard.{
  read_wallets, read_page, after_rows, leaderboard_round, leaderboard_request, fetch_leaderboard,
  wants_more, wallet_count,
}
use polymarket_market_discov.Discovery.Strategies.Paging.{pages_enough, pages_keeps}
use polymarket_market_discov.Polymarket.Requests.{leaderboard_params}
use polymarket_market_discov.Discovery.Strategies.Rows.{DataApi, parse_leaderboard_wallet}

-- A text of 42 characters that begins with "0x".
abbrev pub IsWallet : String → Type 0
IsWallet wallet = (text_length wallet ≡ 42) × (begins_0x wallet ≡ true)

-- At most 25 wallets, no two alike.
pub record IsFound (wallets : List String) : Type 0 where
  pub distinct : is_distinct wallets ≡ true
  pub few : length wallets ≤ 25
  pub addresses : All IsWallet wallets

IsFound-add :
    (wallets : List String) (wallet : String)
    → IsFound wallets
    → length wallets < 25
    → contains wallet wallets ≡ false
    → IsWallet wallet
    → IsFound (wallets ++ wallet ∷ [])
IsFound-add wallets wallet found few new address = record {
  distinct = ground (arith, is_distinct-append_one wallets wallet, found.distinct);
  few = omega (arith, length-append wallets (wallet ∷ []));
  addresses = All-append IsWallet wallets (wallet ∷ []) found.addresses (address, tt);
}

module _ (py : Runtime) where
  parse_leaderboard_wallet-IsWallet :
      (row : Fields) (wallet : String)
      → parse_leaderboard_wallet py row ≡ ok wallet
      → IsWallet wallet
  unfolding parse_leaderboard_wallet
  parse_leaderboard_wallet-IsWallet row wallet parsed = ground arith

module _ (py : Runtime) (api : DataApi) (order_by : String) where
  read_wallets-IsFound :
      (rows : List Json) (wallets : List String) (result : List String)
      → IsFound wallets
      → length wallets < 25
      → read_wallets py api order_by rows wallets ≡ ok result
      → IsFound result
  unfolding read_wallets
  read_wallets-IsFound [] wallets result found few read =
      let same : wallets ≡ result = cc in subst IsFound same found
  read_wallets-IsFound (dict row ∷ rows) wallets result found few read =
      elim (Result-cases (parse_leaderboard_wallet py row)) [
        | inl (exc, e) ↦ let read' = rw (e, read_wallets) at read in cc
        | inr (wallet, e) ↦
            let read' = rw (e, read_wallets) at read in
            let address = parse_leaderboard_wallet-IsWallet py row wallet e in
            elim (Bool-cases (contains wallet wallets)) [
              | inl old ↦ read_wallets-IsFound rows wallets result found few (rw old at read')
              | inr new ↦
                  let read'' = rw new at read' in
                  let found' = IsFound-add wallets wallet found few new address in
                  elim (Bool-cases (leb wallet_count (length (wallets ++ wallet ∷ [])))) [
                    | inl full ↦
                        let ends = rw full at read'' in
                        let same : wallets ++ wallet ∷ [] ≡ result = cc in subst IsFound same found'
                    | inr room ↦
                        read_wallets-IsFound rows (wallets ++ wallet ∷ []) result found'
                          (ground arith) (rw room at read'')
                  ]
            ]
      ]
  read_wallets-IsFound (_ ∷ rows) wallets result found few read = cc

  after_rows-IsFound :
      (rows : List Json) (wallets result : List String) (more : Bool)
      → IsFound wallets
      → length wallets < 25
      → after_rows py api order_by rows (read_wallets py api order_by rows wallets)
        ≡ ok (result, more)
      → IsFound result
  after_rows-IsFound rows wallets result more found few ends =
      elim (Result-cases (read_wallets py api order_by rows wallets)) [
        | inl (exc, e) ↦ let ends' = rw e at ends in cc
        | inr (last, e) ↦
            let ends' = rw e at ends in
            let same : last ≡ result = cc in
            subst IsFound same (read_wallets-IsFound rows wallets last found few e)
      ]

  read_page-IsFound :
      (payload : Json) (wallets result : List String) (more : Bool)
      → IsFound wallets
      → length wallets < 25
      → read_page py api order_by wallets payload ≡ ok (result, more)
      → IsFound result
  read_page-IsFound (list nil) wallets result more found few ends =
      let same : wallets ≡ result = cc in subst IsFound same found
  read_page-IsFound (list (cons row rows)) wallets result more found few ends =
      after_rows-IsFound (row ∷ elements rows) wallets result more found few ends
  read_page-IsFound _ wallets result more found few ends = cc

  leaderboard_round-IsFound :
      (offset : ℕ) (wallets result : List String) (more : Bool)
      → IsFound wallets
      → wants_more py api order_by offset wallets ≡ true
      → leaderboard_round py api order_by offset wallets ≡ ok (result, more)
      → IsFound result
  unfolding leaderboard_round
  leaderboard_round-IsFound offset wallets result more found wants ends =
      elim (Result-cases (leaderboard_params py (leaderboard_request py api order_by offset))) [
        | inl (exc, e) ↦ let ends' = rw e at ends in cc
        | inr (params, e) ↦
            let ends' = rw e at ends in
            elim (Result-cases (api.get_leaderboard params)) [
              | inl (exc, g) ↦ let ends'' = rw g at ends' in cc
              | inr (payload, g) ↦
                  read_page-IsFound payload wallets result more found (ground arith) (rw g at ends')
            ]
      ]

  -- The leaderboard is fetched within its fuel, whatever the API answers: the loop ends.
  pub fetch_leaderboard_terminates :
      (result : Result (List String)) × (fetch_leaderboard py api order_by ≡ some result)
  unfolding fetch_leaderboard
  fetch_leaderboard_terminates =
      pages_enough (wants_more py api order_by) (leaderboard_round py api order_by) 25 1000
        (λ offset wallets behind. ground arith) 41 0 [] (omega arith)

  -- A leaderboard that is fetched has at most 25 wallets, no two alike, each a text of 42 characters
  -- that begins with "0x".
  pub fetch_leaderboard-IsFound :
      (wallets : List String)
      → fetch_leaderboard py api order_by ≡ some (ok wallets)
      → IsFound wallets
  unfolding fetch_leaderboard
  fetch_leaderboard-IsFound wallets fetched =
      pages_keeps (wants_more py api order_by) (leaderboard_round py api order_by) 25 IsFound
        leaderboard_round-IsFound 42 0 [] wallets
        (record { distinct = refl; few = omega arith; addresses = tt }) fetched
