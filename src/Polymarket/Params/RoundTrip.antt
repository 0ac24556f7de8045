-- ===== src/Polymarket/Params/RoundTrip.antt =====
-- `CurrentPositionsParams` reads back what its `output_params` writes.
use polymarket_market_discov.Base.{
  ℕ, ◌∙◌, Bool, String, false, Option, none, some, List, [], ◌∷◌, map, keep_if, not, ◌≡◌, refl, ap,
  arith, ◌==◌, All, subst,
}
use polymarket_market_discov.Base.Decimal.{Decimal}
use polymarket_market_discov.Base.Int.{ℤ, pos}
use polymarket_market_discov.Base.Json.{Json, Fields, get, bool, int, float, string}
use polymarket_market_discov.Base.Result.{Result, ok, raise, value_error, >>=-eq-ok, ◌>>=◌}
use polymarket_market_discov.Base.Runtime.{Runtime}
use polymarket_market_discov.Base.Split.{has_comma, split_comma-join, split_comma}
use polymarket_market_discov.Base.Text.{join}
use polymarket_market_discov.Polymarket.Params.{
  ListInput, not_given, written, PositionsInput, CurrentPositionsParams, pieces, parse_market,
  parse_event_id, read_integers, validated_positions, current_positions_params, written_markets,
  written_ids, positions_output,
}

module _ (py : Runtime) where
  -- A text that survives a split at commas, a strip and the test for an empty piece.
  abbrev pub IsPlain : String → Type 0
  IsPlain text = (has_comma text ≡ false) × (py.strip text ≡ text) × ((text == "") ≡ false)

  keep_if-strip :
      (texts : List String)
      → All IsPlain texts
      → keep_if (λ item. not (item == "")) (map py.strip texts) ≡ texts
  keep_if-strip [] plain = refl
  keep_if-strip (text ∷ texts) ((_, strips, filled), rest) =
      rw strips (rw filled (ap (λ (l : List String). text ∷ l) (keep_if-strip texts rest)))

  no_commas : (texts : List String) → All IsPlain texts → All (λ t. has_comma t ≡ false) texts
  no_commas [] plain = tt
  no_commas (text ∷ texts) ((plain, _, _), rest) = (plain, no_commas texts rest)

  pieces-join :
      (texts : List String)
      → py.strip "" ≡ ""
      → All IsPlain texts
      → pieces py (join "," texts) ≡ texts
  unfolding pieces split_comma
  pieces-join [] empty plain = rw empty refl
  pieces-join (text ∷ texts) empty plain =
      rw (split_comma-join text texts (no_commas (text ∷ texts) plain))
        (keep_if-strip (text ∷ texts) plain)

  abbrev pub printed : ℤ → String
  printed n = py.repr (int n)

  -- `int(str(n))` is `n`, and the text of `n` is plain.
  abbrev pub IsReadBack : ℤ → Type 0
  IsReadBack n = IsPlain (printed n) × (py.integer (printed n) ≡ some n)

  IsReadBack-IsPlain : (ids : List ℤ) → All IsReadBack ids → All IsPlain (map printed ids)
  IsReadBack-IsPlain [] back = tt
  IsReadBack-IsPlain (n ∷ ids) ((plain, _), rest) = (plain, IsReadBack-IsPlain ids rest)

  read_integers-printed :
      (ids : List ℤ) → All IsReadBack ids → read_integers py (map printed ids) ≡ ok ids
  unfolding read_integers
  read_integers-printed [] back = refl
  read_integers-printed (n ∷ ids) ((_, reads), rest) =
      rw reads (rw (read_integers-printed ids rest) refl)

  -- The fields of a query, by their names in the source: texts, numbers and flags as they are written.
  abbrev text_of : Json → Result String
  text_of (string text) = ok text
  text_of value = raise (value_error "text")

  abbrev optional_text : Json → Option String
  optional_text (string text) = some text
  optional_text value = none

  abbrev list_input {ℓ} : {A : Type ℓ} → Json → ListInput A
  list_input (string text) = written text
  list_input value = not_given

  abbrev decimal_or_raise : Option Decimal → Result Decimal
  decimal_or_raise none = raise (value_error "float")
  decimal_or_raise (some value) = ok value

  abbrev decimal_of : Json → Result Decimal
  decimal_of (float text) = decimal_or_raise (py.decimal text)
  decimal_of value = raise (value_error "float")

  abbrev flag_of : Json → Result Bool
  flag_of (bool flag) = ok flag
  flag_of value = raise (value_error "bool")

  abbrev number_of : Json → Result ℕ
  number_of (int (pos n)) = ok n
  number_of value = raise (value_error "int")

  -- `CurrentPositionsParams(**query)`
  abbrev pub reread : Fields → Result CurrentPositionsParams
  reread query = do
    user ← text_of (get query "user")
    size_threshold ← decimal_of (get query "sizeThreshold")
    redeemable ← flag_of (get query "redeemable")
    mergeable ← flag_of (get query "mergeable")
    limit ← number_of (get query "limit")
    offset ← number_of (get query "offset")
    sort_by ← text_of (get query "sortBy")
    sort_direction ← text_of (get query "sortDirection")
    current_positions_params py (record {
      user = user;
      market = list_input (get query "market");
      event_id = list_input (get query "eventId");
      size_threshold = size_threshold;
      redeemable = redeemable;
      mergeable = mergeable;
      limit = limit;
      offset = offset;
      sort_by = sort_by;
      sort_direction = sort_direction;
      title = optional_text (get query "title");
    })

  abbrev rewritten {ℓ} : {A : Type ℓ} → Option String → ListInput A
  rewritten none = not_given
  rewritten (some text) = written text

  abbrev copied : CurrentPositionsParams → PositionsInput
  copied params = record {
    user = params.user;
    market = rewritten (written_markets py params.market);
    event_id = rewritten (written_ids py params.event_id);
    size_threshold = params.size_threshold;
    redeemable = params.redeemable;
    mergeable = params.mergeable;
    limit = params.limit;
    offset = params.offset;
    sort_by = params.sort_by;
    sort_direction = params.sort_direction;
    title = params.title;
  }

  -- Each field of the query is found under its name.
  reread-positions_output :
      (params : CurrentPositionsParams)
      → py.decimal (py.decimal_text params.size_threshold) ≡ some params.size_threshold
      → reread (positions_output py params) ≡ current_positions_params py (copied params)
  unfolding positions_output
  reread-positions_output params size = go params.market params.event_id params.title
    where
      go :
          (market : Option (List String)) (event_id : Option (List ℤ)) (title : Option String)
          → (let p = record params { market = market; event_id = event_id; title = title } in
              reread (positions_output py p) ≡ current_positions_params py (copied p))
      go none none none = rw size refl
      go none none (some title) = rw size refl
      go none (some ids) none = rw size refl
      go none (some ids) (some title) = rw size refl
      go (some markets) none none = rw size refl
      go (some markets) none (some title) = rw size refl
      go (some markets) (some ids) none = rw size refl
      go (some markets) (some ids) (some title) = rw size refl

  abbrev pub AllOf {ℓ} : {A : Type ℓ} → (A → Type 0) → Option (List A) → Type 0
  AllOf P none = Unit
  AllOf P (some items) = All P items

  parse_market-rewritten :
      (market : Option (List String))
      → py.strip "" ≡ ""
      → AllOf IsPlain market
      → parse_market py (rewritten (written_markets py market)) ≡ market
  unfolding parse_market
  parse_market-rewritten none empty plain = refl
  parse_market-rewritten (some markets) empty plain = ap some (pieces-join markets empty plain)

  parse_event_id-rewritten :
      (ids : Option (List ℤ))
      → py.strip "" ≡ ""
      → AllOf IsReadBack ids
      → parse_event_id py (rewritten (written_ids py ids)) ≡ ok ids
  unfolding parse_event_id
  parse_event_id-rewritten none empty back = refl
  parse_event_id-rewritten (some ids) empty back =
      rw (pieces-join (map printed ids) empty (IsReadBack-IsPlain ids back))
        (rw (read_integers-printed ids back) refl)

  validated_positions-eq :
      (given params : CurrentPositionsParams)
      → validated_positions py given ≡ ok params
      → given ≡ params
  unfolding validated_positions
  validated_positions-eq given params accepted = ground arith

  copied-accepted :
      (given : PositionsInput) (params : CurrentPositionsParams)
      → current_positions_params py given ≡ ok params
      → ((text : String) → py.upper (py.upper text) ≡ py.upper text)
      → py.strip "" ≡ ""
      → AllOf IsPlain params.market
      → AllOf IsReadBack params.event_id
      → current_positions_params py (copied params) ≡ ok params
  unfolding current_positions_params
  copied-accepted given params accepted upper empty plain back =
      let (ids, _, passed) = >>=-eq-ok (parse_event_id py given.event_id) _ accepted in
      let same = validated_positions-eq _ params passed in
      let key : py.upper given.sort_by ≡ params.sort_by =
        ap (λ (p : CurrentPositionsParams). p.sort_by) same in
      let direction : py.upper given.sort_direction ≡ params.sort_direction =
        ap (λ (p : CurrentPositionsParams). p.sort_direction) same in
      let key' : py.upper params.sort_by ≡ params.sort_by = cc (key, upper given.sort_by) in
      let direction' : py.upper params.sort_direction ≡ params.sort_direction =
        cc (direction, upper given.sort_direction) in
      let valid : validated_positions py params ≡ ok params =
        subst (λ (p : CurrentPositionsParams). validated_positions py p ≡ ok params) same passed in
      rw (parse_event_id-rewritten params.event_id empty back)
        (rw (parse_market-rewritten params.market empty plain) (rw (key', direction') valid))

  -- Parameters that the constructor has accepted, written by `output_params` (the markets and the
  -- event ids as one text each, with commas, each field under its name) and given to the constructor
  -- again, are accepted and are the same. This holds where no market holds a comma, is empty or has
  -- white space around it, the event ids and the size threshold read back from their texts, upper
  -- case is kept by `upper` and the empty text by `strip`.
  pub current_positions_params-reread :
      (given : PositionsInput) (params : CurrentPositionsParams)
      → current_positions_params py given ≡ ok params
      → ((text : String) → py.upper (py.upper text) ≡ py.upper text)
      → py.strip "" ≡ ""
      → py.decimal (py.decimal_text params.size_threshold) ≡ some params.size_threshold
      → AllOf IsPlain params.market
      → AllOf IsReadBack params.event_id
      → reread (positions_output py params) ≡ ok params
  current_positions_params-reread given params accepted upper empty size plain back =
      reread-positions_output params size
      ∙ copied-accepted given params accepted upper empty plain back
