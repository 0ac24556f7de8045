-- ===== src/Discovery/Strategies/Positions/Collected.antt =====
-- The collection of the wallets' positions: its loops end, and its observations are the markets.
use polymarket_market_discov.Base.{
  ℕ, String, Bool, true, false, some, List, [], ◌∷◌, ◌++◌, map, All, All-append, ◌≡◌, arith, ◌==◌,
  subst, inl, inr,
}
use polymarket_market_discov.Base.Dict.{distinct}
use polymarket_market_discov.Base.Json.{Json, list, dict, Fields, nil, cons, elements, null, get}
use polymarket_market_discov.Base.Result.{Result, ok, >>=-eq-ok, Result-cases}
use polymarket_market_discov.Base.Runtime.{Runtime, text_of}
use polymarket_market_discov.Core.Time.{Timestamp}
use polymarket_market_discov.Discovery.Strategies.Paging.{pages_enough, pages_keeps, finished}
use polymarket_market_discov.Discovery.Strategies.Positions.{
  Row, normalize_position_evidence, read_positions, after_positions, read_positions_page,
  positions_round, positions_request, wants_positions, collect_single_wallet_positions,
  gather_positions, collect_wallet_positions,
}
use polymarket_market_discov.Discovery.Strategies.Positions.Grouping.{
  ids, items_of, all_rows, HasId, observed, observations-group_results,
}
use polymarket_market_discov.Discovery.Strategies.Rows.{DataApi, required_string}
use polymarket_market_discov.Markets.Gamma.{is_missing}
use polymarket_market_discov.Polymarket.Params.{current_positions_params}

module _ (py : Runtime) where
  is_missing-text : (value : Json) → is_missing py value ≡ false → (text_of py value == "") ≡ false
  is_missing-text null present = cc
  is_missing-text _ present = present

  required_string-filled :
      (row : Fields) (key text : String)
      → required_string py row key ≡ ok text
      → (text == "") ≡ false
  unfolding required_string
  required_string-filled row key text read = ground (arith, is_missing-text (get row key))

  normalize_position_evidence-HasId :
      (row : Fields) (wallet : String) (position : Row)
      → normalize_position_evidence py row wallet ≡ ok position
      → HasId position
  unfolding normalize_position_evidence
  normalize_position_evidence-HasId row wallet position read =
      let (id, e, rest) = >>=-eq-ok (required_string py row "conditionId") _ read in
      let named = required_string-filled row "conditionId" id e in ground arith

module _ (py : Runtime) (api : DataApi) (wallet : String) where
  read_positions-HasId :
      (rows : List Json) (positions last : List Row)
      → All HasId positions
      → read_positions py api wallet rows positions ≡ ok last
      → All HasId last
  unfolding read_positions
  read_positions-HasId [] positions last named read =
      let same : positions ≡ last = cc in subst (All HasId) same named
  read_positions-HasId (dict row ∷ rows) positions last named read =
      elim (Result-cases (normalize_position_evidence py row wallet)) [
        | inl (exc, e) ↦ let read' = rw (e, read_positions) at read in cc
        | inr (position, e) ↦
            let this = normalize_position_evidence-HasId py row wallet position e in
            read_positions-HasId rows (positions ++ position ∷ []) last
              (All-append HasId positions (position ∷ []) named (this, tt))
              (rw (e, read_positions) at read)
      ]
  read_positions-HasId (_ ∷ rows) positions last named read = cc

  after_positions-HasId :
      (rows : List Json) (positions last : List Row) (more : Bool)
      → All HasId positions
      → after_positions py api wallet rows (read_positions py api wallet rows positions)
        ≡ ok (last, more)
      → All HasId last
  after_positions-HasId rows positions last more named ends =
      elim (Result-cases (read_positions py api wallet rows positions)) [
        | inl (exc, e) ↦ let ends' = rw e at ends in cc
        | inr (found, e) ↦
            let ends' = rw e at ends in
            let same : found ≡ last = cc in
            subst (All HasId) same (read_positions-HasId rows positions found named e)
      ]

  read_positions_page-HasId :
      (payload : Json) (positions last : List Row) (more : Bool)
      → All HasId positions
      → read_positions_page py api wallet positions payload ≡ ok (last, more)
      → All HasId last
  read_positions_page-HasId (list nil) positions last more named ends =
      let same : positions ≡ last = cc in subst (All HasId) same named
  read_positions_page-HasId (list (cons row rows)) positions last more named ends =
      after_positions-HasId (row ∷ elements rows) positions last more named ends
  read_positions_page-HasId _ positions last more named ends = cc

  positions_round-HasId :
      (offset : ℕ) (positions last : List Row) (more : Bool)
      → All HasId positions
      → wants_positions py api wallet offset positions ≡ true
      → positions_round py api wallet offset positions ≡ ok (last, more)
      → All HasId last
  unfolding positions_round
  positions_round-HasId offset positions last more named wants ends =
      let (params, _, asked) =
        >>=-eq-ok (current_positions_params py (positions_request py api wallet offset)) _ ends in
      let (payload, _, read) = >>=-eq-ok (api.get_current_positions params) _ asked in
      read_positions_page-HasId payload positions last more named read

  -- The positions of a wallet are collected within their fuel, whatever the API answers: the loop
  -- ends.
  pub collect_single_wallet_positions_terminates :
      (result : Result (List Row)) × (collect_single_wallet_positions py api wallet ≡ some result)
  unfolding collect_single_wallet_positions
  collect_single_wallet_positions_terminates =
      pages_enough (wants_positions py api wallet) (positions_round py api wallet) 500 10000
        (λ offset positions behind. ground arith) 21 0 [] (omega arith)

  collect_single_wallet_positions-HasId :
      (positions : List Row)
      → finished (collect_single_wallet_positions py api wallet) ≡ ok positions
      → All HasId positions
  unfolding collect_single_wallet_positions
  collect_single_wallet_positions-HasId positions collected =
      let (result, e) = collect_single_wallet_positions_terminates in
      let collected' = rw e at collected in
      pages_keeps (wants_positions py api wallet) (positions_round py api wallet) 500 (All HasId)
        positions_round-HasId 22 0 [] positions tt (rw collected' at e)

module _ (py : Runtime) (api : DataApi) where
  gather_positions-HasId :
      (wallets : List String) (results : List (List Row))
      → gather_positions py api wallets ≡ ok results
      → All HasId (all_rows results)
  unfolding gather_positions
  gather_positions-HasId [] results gathered =
      let same : [] ≡ results = cc in
      subst (λ (r : List (List Row)). All HasId (all_rows r)) same tt
  gather_positions-HasId (wallet ∷ wallets) results gathered =
      let (result, e, more) =
        >>=-eq-ok (finished (collect_single_wallet_positions py api wallet)) _ gathered in
      let (rest, g, last) = >>=-eq-ok (gather_positions py api wallets) _ more in
      let same : result ∷ rest ≡ results = cc in
      subst (λ (r : List (List Row)). All HasId (all_rows r)) same
        (All-append HasId result (all_rows rest)
          (collect_single_wallet_positions-HasId py api wallet result e)
          (gather_positions-HasId wallets rest g))

  -- Where the positions of all wallets are read, their observations are never refused: each market
  -- that a position names has one observation, in the order of the first positions, wallet by
  -- wallet, and its evidence is the items of the positions in that market, in their order.
  pub collect_wallet_positions_lem :
      (wallets : List String) (observed_at : Timestamp) (results : List (List Row))
      → gather_positions py api wallets ≡ ok results
      → collect_wallet_positions py api wallets observed_at
        ≡ ok (
            map
              (λ id. observed observed_at id (items_of id (all_rows results)))
              (distinct (ids (all_rows results))))
  unfolding collect_wallet_positions
  collect_wallet_positions_lem wallets observed_at results gathered = rw gathered (
      observations-group_results observed_at results
        (gather_positions-HasId wallets results gathered))
