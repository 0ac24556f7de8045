-- ===== src/Cli/Logging.antt =====
-- `core/logging.py`: the handler of the root logger.
use polymarket_market_discov.Base.{
  ℕ, String, ◌≡◌, refl, Bool, true, false, not, ◌&&◌, Option, none, some, List, [], ◌∷◌, ◌++◌,
  arith, keep_if, any_of, eqb, ◌==◌, if◌then◌else◌,
}
use polymarket_market_discov.Base.Dict.{lookup}
use polymarket_market_discov.Base.Result.{Result, ok, raise, value_error, >>=-eq-ok, ◌>>=◌}
use polymarket_market_discov.Base.Runtime.{Runtime}

abbrev pub stdout_handler_name : String
stdout_handler_name = "polymarket_market_discovery_jsonl_stdout"

-- `_LEVEL_MAP`, with the numbers of the `logging` module.
abbrev level_map : List (String × ℕ)
level_map = ("DEBUG", 10) ∷ ("INFO", 20) ∷ ("WARNING", 30) ∷ ("ERROR", 40) ∷ ("CRITICAL", 50) ∷ []

abbrev pub Handler : Type 0
Handler = Option String

-- The loggers that the program sets: a handler is given by its name.
pub record Loggers : Type 0 where
  pub handlers : List Handler
  pub level : ℕ
  pub httpcore_level : ℕ
  pub httpx_level : ℕ

abbrev is_stdout : Handler → Bool
is_stdout none = false
is_stdout (some name) = name == stdout_handler_name

abbrev other : Handler → Bool
other handler = not (is_stdout handler)

abbrev level_or_raise : Option ℕ → Result ℕ
level_or_raise none = raise (value_error "Provide one of this log levels")
level_or_raise (some level) = ok level

module _ (py : Runtime) where
  unfoldable pub log_level : String → Result ℕ
  log_level value = level_or_raise (lookup (py.upper value) level_map)

  abbrev configured : Loggers → ℕ → Loggers
  configured root level =
      if any_of is_stdout root.handlers && eqb root.level level then root else record {
        handlers = keep_if other root.handlers ++ some stdout_handler_name ∷ [];
        level = level;
        httpcore_level = 30;
        httpx_level = 30;
      }

  unfoldable pub configure_logging : String → Loggers → Result Loggers
  configure_logging level root = do found ← log_level level; ok (configured root found)

any_of-append_one :
    (handlers : List Handler) (handler : Handler)
    → is_stdout handler ≡ true
    → any_of is_stdout (handlers ++ handler ∷ []) ≡ true
any_of-append_one [] handler named = ground arith
any_of-append_one (first ∷ handlers) handler named =
    ground (arith, any_of-append_one handlers handler)

-- A second call with the level of the first changes nothing.
pub configure_logging-configure_logging :
    (py : Runtime) (level : String) (root once : Loggers)
    → configure_logging py level root ≡ ok once
    → configure_logging py level once ≡ ok once
unfolding configure_logging
configure_logging-configure_logging py level root once first =
    let (found, e, last) = >>=-eq-ok (log_level py level) _ first in rw e (settled found last)
  where
    settled :
        (found : ℕ)
        → ok (configured py root found) ≡ ok once
        → ok (configured py once found) ≡ ok once
    settled found last =
        ground
          (arith, any_of-append_one (keep_if other root.handlers) (some stdout_handler_name) refl)
