-- ===== src/Markets/Gamma.antt =====
-- The rows of the Gamma API, from `parse_gamma_market` on in `markets/service.py`.
pub mod Contract
use polymarket_market_discov.Base.{
  ℕ, suc, String, Bool, true, false, not, ◌&&◌, ◌||◌, Option, none, some, List, [], ◌∷◌, length,
  eqb, ◌==◌, if◌then◌else◌,
}
use polymarket_market_discov.Base.Dict.{distinct}
use polymarket_market_discov.Base.Json.{
  Json, null, bool, string, list, dict, Items, nil, cons, Fields, get,
}
use polymarket_market_discov.Base.Result.{Result, ok, raise, value_error, raise_if, ◌>>=◌, ◌>>◌}
use polymarket_market_discov.Base.Runtime.{Runtime, text_of}
use polymarket_market_discov.Base.Text.{f_string, strip_z}
use polymarket_market_discov.Core.Time.{Datetime, naive, east}
use polymarket_market_discov.Markets.Domain.{
  MarketTokenPayload, PolymarketMarketPayload, non_empty_string, validate_binary_token_contract,
}

-- `value is None or str(value) == ""`
abbrev pub is_missing : Runtime → Json → Bool
is_missing py null = true
is_missing py value = text_of py value == ""

module _ (py : Runtime) where
  unfoldable pub required_string : Fields → String → Result String
  required_string row key = do
    raise_if (is_missing py (get row key))
        (value_error (f_string ("Gamma market missing required field " ∷ key ∷ [])))
    ok (text_of py (get row key))

  unfoldable pub optional_string : Json → Option String
  optional_string value = if is_missing py value then none else some (text_of py value)

  abbrev bool_of_text : String → Json → Result (Option Bool)
  bool_of_text lowered value =
      if lowered == "true" || lowered == "1"
      then ok (some true)
      else if lowered == "false" || lowered == "0"
      then ok (some false)
      else raise (value_error (f_string ("Invalid boolean value: " ∷ py.repr value ∷ [])))

  unfoldable pub optional_bool : Json → Result (Option Bool)
  optional_bool null = ok none
  optional_bool (bool b) = ok (some b)
  optional_bool (string s) = if s == "" then ok none else bool_of_text (py.lower s) (string s)
  optional_bool value =
      raise (value_error (f_string ("Invalid boolean value: " ∷ py.repr value ∷ [])))

  abbrev as_utc : Datetime → Datetime
  as_utc parsed = record parsed { tzinfo = east 0 }

  -- `parsed if parsed.tzinfo else parsed.replace(tzinfo=UTC)`
  abbrev or_utc : Datetime → Datetime
  or_utc parsed = elim parsed.tzinfo [ naive ↦ as_utc parsed | _ ↦ parsed ]

  abbrev read_datetime : Json → Option Datetime → Result (Option Datetime)
  read_datetime value none =
      raise (value_error (f_string ("Invalid Gamma datetime: " ∷ py.repr value ∷ [])))
  read_datetime value (some parsed) = ok (some parsed)

  abbrev iso_datetime : String → Option Datetime
  iso_datetime text = elim (strip_z text) [
    | some rest ↦ elim (py.fromisoformat rest) [ none ↦ none | some parsed ↦ some (as_utc parsed) ]
    | none ↦ elim (py.fromisoformat text) [ none ↦ none | some parsed ↦ some (or_utc parsed) ]
  ]

  unfoldable pub parse_datetime : Json → Result (Option Datetime)
  parse_datetime value =
      if is_missing py value then ok none else read_datetime value (iso_datetime (text_of py value))

  -- The items of a list, if each is a text.
  abbrev texts_of : Items → Option (List String)
  texts_of nil = some []
  texts_of (cons (string s) items) = elim (texts_of items) [ none ↦ none | some l ↦ some (s ∷ l) ]
  texts_of (cons item items) = none

  abbrev list_of_strings : String → Option (List String) → Result (List String)
  list_of_strings name none =
      raise (value_error (f_string ("Gamma field " ∷ name ∷ " must be a list of strings" ∷ [])))
  list_of_strings name (some texts) = ok texts

  abbrev as_texts : Json → Option (List String)
  as_texts (list items) = texts_of items
  as_texts value = none

  unfoldable pub parse_string_list : Json → String → Result (List String)
  parse_string_list (string s) name = elim (py.loads s) [
    | none ↦
        raise (value_error (f_string ("Gamma field " ∷ name ∷ " must contain a JSON list" ∷ [])))
    | some value ↦ list_of_strings name (as_texts value)
  ]
  parse_string_list value name = list_of_strings name (as_texts value)

  -- `row["events"][0].get("id")`, where `events` is a list that begins with an object.
  abbrev first_event_id : Json → Option String
  first_event_id (list (cons (dict event) events)) = optional_string (get event "id")
  first_event_id value = none

  abbrev or_else : Option String → Option String → Option String
  or_else none other = other
  or_else (some text) other = some text

  -- `MarketTokenPayload(...)`, which strips its texts.
  unfoldable pub token_payload : String → String → ℕ → Result MarketTokenPayload
  token_payload token_id outcome index = do
    token_id' ← non_empty_string py token_id
    outcome' ← non_empty_string py outcome
    ok (record { token_id = token_id'; outcome = outcome'; outcome_index = index })

  -- `enumerate(zip(token_ids, outcomes))`, from `index` on.
  unfoldable pub token_payloads : ℕ → List String → List String → Result (List MarketTokenPayload)
  token_payloads index (t ∷ token_ids) (o ∷ outcomes) = do
    token ← token_payload t o index
    tokens ← token_payloads (suc index) token_ids outcomes
    ok (token ∷ tokens)
  token_payloads index _ _ = ok []

  unfoldable pub parse_gamma_market : Fields → Result PolymarketMarketPayload
  parse_gamma_market row = do
    condition_id ← required_string row "conditionId"
    token_ids ← parse_string_list (get row "clobTokenIds") "clobTokenIds"
    outcomes ← parse_string_list (get row "outcomes") "outcomes"
    raise_if (not (eqb (length token_ids) 2) || not (eqb (length outcomes) 2)) (
        value_error
          (f_string ("Market " ∷ condition_id ∷ " must have exactly two outcome tokens" ∷ [])))
    raise_if (not (eqb (length (distinct token_ids)) 2) || not (eqb (length (distinct outcomes)) 2))
        (value_error (f_string ("Market " ∷ condition_id ∷ " has duplicate outcome tokens" ∷ [])))
    end_date ← parse_datetime (get row "endDate")
    active ← optional_bool (get row "active")
    closed ← optional_bool (get row "closed")
    archived ← optional_bool (get row "archived")
    enable_order_book ← optional_bool (get row "enableOrderBook")
    tokens ← token_payloads 0 token_ids outcomes
    stripped_id ← non_empty_string py condition_id
    let question = optional_string (get row "question")
    validate_binary_token_contract (record {
      condition_id = stripped_id;
      event_id = or_else (optional_string (get row "eventId")) (first_event_id (get row "events"));
      slug = optional_string (get row "slug");
      title = or_else (optional_string (get row "title")) question;
      question = question;
      end_date = end_date;
      active = active;
      closed = closed;
      archived = archived;
      enable_order_book = enable_order_book;
      tokens = tokens;
      raw_payload = row;
    })
