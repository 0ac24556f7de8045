-- ===== src/Polymarket/Params.antt =====
-- `polymarket/params/profile/current_positions.py`: the parameters of a request for positions, with
-- pydantic's constraints and validators.
-- The text of a `ValidationError` is reduced to that of its first failure, and of a constraint to
-- the name of the field.
pub mod RoundTrip
use polymarket_market_discov.Base.{
  ℕ, String, Bool, true, false, not, ◌&&◌, ◌||◌, Option, none, some, List, [], ◌∷◌, map, keep_if,
  eqb, leb, ◌==◌, if◌then◌else◌,
}
use polymarket_market_discov.Base.Decimal.{Decimal, zero_decimal, leb_decimal}
use polymarket_market_discov.Base.Dict.{contains}
use polymarket_market_discov.Base.Int.{ℤ, pos, leb_ℤ}
use polymarket_market_discov.Base.Json.{
  Json, bool, int, float, string, dict, Items, nil, cons, Fields, end, field,
}
use polymarket_market_discov.Base.Result.{Result, ok, raise, value_error, raise_if, ◌>>=◌, ◌>>◌}
use polymarket_market_discov.Base.Runtime.{Runtime}
use polymarket_market_discov.Base.Split.{split_comma}
use polymarket_market_discov.Base.Text.{codes, text_length, begins_0x, behind_0x, join}

abbrev pub is_hex : ℕ → Bool
is_hex c = (leb b'0' c && leb c b'9') || (leb b'A' c && leb c b'F') || (leb b'a' c && leb c b'f')

abbrev pub all_hex : List ℕ → Bool
all_hex [] = true
all_hex (c ∷ cs) = is_hex c && all_hex cs

-- A text of 42 characters that matches `^0x[a-fA-F0-9]{40}$`.
unfoldable pub is_address : String → Bool
is_address text = eqb (text_length text) 42 && begins_0x text && all_hex (codes (behind_0x text))

abbrev pub constraint : String → Bool → Result (Unit {0})
constraint name holds = raise_if (not holds) (value_error name)

-- `output_params` leaves out what is `None`.
abbrev pub put : String → Option Json → Fields → Fields
put key none row = row
put key (some value) row = field key value row

abbrev pub text_or_none : Option String → Option Json
text_or_none none = none
text_or_none (some text) = some (string text)

-- What a caller may give for `market` and `eventId`.
pub data ListInput {ℓ} (A : Type ℓ) : Type ℓ where
  not_given : ListInput A
  listed : List A → ListInput A
  written : String → ListInput A

-- `CurrentPositionsParams`, where the two lists are given in the form `F`.
pub record Positions (F : Type 0 → Type 0) : Type 0 where
  pub user : String
  pub market : F String
  pub event_id : F ℤ
  pub size_threshold : Decimal
  pub redeemable : Bool
  pub mergeable : Bool
  pub limit : ℕ
  pub offset : ℕ
  pub sort_by : String
  pub sort_direction : String
  pub title : Option String

abbrev pub PositionsInput : Type 0
PositionsInput = Positions ListInput

abbrev pub OptionList : Type 0 → Type 0
OptionList A = Option (List A)

abbrev pub CurrentPositionsParams : Type 0
CurrentPositionsParams = Positions OptionList

abbrev sort_keys : List String
sort_keys =
    "CURRENT" ∷ "INITIAL" ∷ "TOKENS" ∷ "CASHPNL" ∷ "PERCENTPNL" ∷ "TITLE" ∷ "RESOLVING" ∷ "PRICE"
    ∷ "AVGPRICE" ∷ []

abbrev short_title : Option String → Bool
short_title none = true
short_title (some title) = leb (text_length title) 100

module _ (py : Runtime) where
  -- `[item.strip() for item in value.split(",") if item.strip()]`
  unfoldable pub pieces : String → List String
  pieces text = keep_if (λ item. not (item == "")) (map py.strip (split_comma text))

  unfoldable pub parse_market : ListInput String → Option (List String)
  parse_market not_given = none
  parse_market (listed markets) = some markets
  parse_market (written text) = some (pieces text)

  abbrev read_hexadecimal : String → Option ℤ → Result (Unit {0})
  read_hexadecimal text none = raise (value_error text)
  read_hexadecimal text (some n) = ok tt

  unfoldable pub check_markets : List String → Result (Unit {0})
  check_markets [] = ok tt
  check_markets (market ∷ markets) = do
    raise_if (not (eqb (text_length market) 66) || not (begins_0x market))
        (value_error "market must contain 0x-prefixed 64-hex condition IDs")
    read_hexadecimal market (py.hexadecimal (behind_0x market))
    check_markets markets

  unfoldable pub validate_market : Option (List String) → Result (Unit {0})
  validate_market none = ok tt
  validate_market (some markets) = check_markets markets

  abbrev pub read_integer : String → Option ℤ → Result ℤ
  read_integer text none = raise (value_error text)
  read_integer text (some n) = ok n

  unfoldable pub read_integers : List String → Result (List ℤ)
  read_integers [] = ok []
  read_integers (item ∷ items) = do
    n ← read_integer item (py.integer item)
    rest ← read_integers items
    ok (n ∷ rest)

  unfoldable pub parse_event_id : ListInput ℤ → Result (Option (List ℤ))
  parse_event_id not_given = ok none
  parse_event_id (listed ids) = ok (some ids)
  parse_event_id (written text) = do ids ← read_integers (pieces text); ok (some ids)

  unfoldable pub check_event_ids : List ℤ → Result (Unit {0})
  check_event_ids [] = ok tt
  check_event_ids (event_id ∷ ids) = do
    raise_if (not (leb_ℤ (pos 1) event_id))
        (value_error "eventId values must be greater than or equal to 1")
    check_event_ids ids

  unfoldable pub validate_event_id : Option (List ℤ) → Result (Unit {0})
  validate_event_id none = ok tt
  validate_event_id (some ids) = check_event_ids ids

  abbrev pub validate_market_or_event_id :
      CurrentPositionsParams
      → Option (List String)
      → Option (List ℤ)
      → Result CurrentPositionsParams
  validate_market_or_event_id params (some markets) (some ids) =
      raise (value_error "market cannot be used together with eventId")
  validate_market_or_event_id params _ _ = ok params

  -- The constraints that the fields declare.
  unfoldable pub positions_constraints : CurrentPositionsParams → Result (Unit {0})
  positions_constraints params = do
    constraint "user" (is_address params.user)
    constraint "sizeThreshold" (leb_decimal zero_decimal params.size_threshold)
    constraint "limit" (leb params.limit 500)
    constraint "offset" (leb params.offset 10000)
    constraint "sortBy" (contains params.sort_by sort_keys)
    constraint "sortDirection" (contains params.sort_direction ("ASC" ∷ "DESC" ∷ []))
    constraint "title" (short_title params.title)

  -- The validators that run once the fields are parsed.
  unfoldable pub validated_positions : CurrentPositionsParams → Result CurrentPositionsParams
  validated_positions params = do
    positions_constraints params
    validate_market params.market
    validate_event_id params.event_id
    validate_market_or_event_id params params.market params.event_id

  -- `CurrentPositionsParams(...)`
  unfoldable pub current_positions_params : PositionsInput → Result CurrentPositionsParams
  current_positions_params given = do
    ids ← parse_event_id given.event_id
    validated_positions (record {
      user = given.user;
      market = parse_market given.market;
      event_id = ids;
      size_threshold = given.size_threshold;
      redeemable = given.redeemable;
      mergeable = given.mergeable;
      limit = given.limit;
      offset = given.offset;
      sort_by = py.upper given.sort_by;
      sort_direction = py.upper given.sort_direction;
      title = given.title;
    })

  -- `",".join(market)`, `",".join(str(event_id) for event_id in eventId)`
  abbrev pub written_markets : Option (List String) → Option String
  written_markets none = none
  written_markets (some markets) = some (join "," markets)

  abbrev pub written_ids : Option (List ℤ) → Option String
  written_ids none = none
  written_ids (some ids) = some (join "," (map (λ n. py.repr (int n)) ids))

  unfoldable pub positions_output : CurrentPositionsParams → Fields
  positions_output params = field "user" (string params.user) (
      put "market" (text_or_none (written_markets params.market)) (
        put "eventId" (text_or_none (written_ids params.event_id)) (
          field "sizeThreshold" (float (py.decimal_text params.size_threshold)) (
            field "redeemable" (bool params.redeemable) (
              field "mergeable" (bool params.mergeable) (
                field "limit" (int (pos params.limit)) (
                  field "offset" (int (pos params.offset)) (
                    field "sortBy" (string params.sort_by) (
                      field "sortDirection" (string params.sort_direction)
                        (put "title" (text_or_none params.title) end))))))))))
