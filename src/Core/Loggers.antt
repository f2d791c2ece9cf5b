-- ===== src/Core/Loggers.antt =====
-- `configure_logging` of src/core/logging.py over the loggers of Python's logging module.
use Prim.Native.Char.{Char, code}
use Prim.Native.String.{char_at, ◌∷◌ as put, [] as no_text, ◌++◌ as append}
use smartcourse_core.Base.{
  Bool, List, String, [], false, if◌then◌else◌, leb, true, ℕ, ◌&&◌, ◌++◌, ◌-◌, ◌==◌, ◌∷◌, nat_eq,
  string_eq,
}

pub data Renderer : Type 0 where
  json_renderer console_renderer : Renderer

-- A StreamHandler with the formatter that renders for it.
pub record LogHandler : Type 0 where
  pub stream : String
  pub renderer : Renderer

pub record Logger : Type 0 where
  pub handlers : List LogHandler
  pub propagate : Bool
  -- 0 where the level is not set
  pub level : ℕ

-- The loggers by their names, a logger that was never asked for like a new one, the root, and the configuration of structlog.
pub record LogSetup : Type 0 where
  pub loggers : String → Logger
  pub root_handlers : List LogHandler
  pub root_level : ℕ
  pub structlog_level : ℕ
  pub cache_logger_on_first_use : Bool

-- `logging.getLevelNamesMapping()`
abbrev pub level_names : List (String × ℕ)
level_names =
    ("CRITICAL", 50)
    ∷ ("FATAL", 50)
    ∷ ("ERROR", 40)
    ∷ ("WARN", 30)
    ∷ ("WARNING", 30)
    ∷ ("INFO", 20)
    ∷ ("DEBUG", 10)
    ∷ ("NOTSET", 0)
    ∷ []

abbrev pub info : ℕ
info = 20

abbrev pub level_of : List (String × ℕ) → String → ℕ
level_of [] name = info
level_of (e ∷ l) name = if e.0 == name then e.1 else level_of l name

-- `str.upper`, on the letters of ASCII; a text with others is no name of a level, save for the few
-- that Python spells with a letter of ASCII.
abbrev pub upper_char : Char → Char
upper_char c =
    if leb 97 (code c) && leb (code c) 122
    then char_at "ABCDEFGHIJKLMNOPQRSTUVWXYZ" (code c - 97)
    else c

abbrev pub upper : String → String
upper no_text = no_text
upper (put c s) = put (upper_char c) (upper s)

-- `logging.getLevelNamesMapping().get(level.upper(), logging.INFO)`
abbrev pub threshold : String → ℕ
threshold level = level_of level_names (upper level)

abbrev pub uvicorn_loggers : List String
uvicorn_loggers = "uvicorn" ∷ "uvicorn.error" ∷ "uvicorn.access" ∷ []

abbrev pub stdout_handler : Bool → LogHandler
stdout_handler json_logs = record {
  stream = "stdout";
  renderer = if json_logs then json_renderer else console_renderer;
}

-- `uvicorn_logger.handlers = [handler]` and `uvicorn_logger.propagate = False`
abbrev pub own_handler : LogHandler → String → (String → Logger) → String → Logger
own_handler handler name loggers other =
    if name == other
    then record (loggers other) { handlers = handler ∷ []; propagate = false }
    else loggers other

abbrev pub own_handlers : LogHandler → List String → (String → Logger) → String → Logger
own_handlers handler [] loggers = loggers
own_handlers handler (name ∷ l) loggers = own_handlers handler l (own_handler handler name loggers)

unfoldable pub configure_logging : String → Bool → LogSetup → LogSetup
configure_logging level json_logs setup =
    let numeric_level = threshold level in
    let handler = stdout_handler json_logs in
    record {
      loggers = own_handlers handler uvicorn_loggers setup.loggers;
      root_handlers = handler ∷ [];
      root_level = numeric_level;
      structlog_level = numeric_level;
      cache_logger_on_first_use = true;
    }

-- The prefixes of a dotted name, in front of others, after those that end before what was read.
abbrev prefixes : List String → String → String → List String
prefixes above read no_text = read ∷ above
prefixes above read (put c rest) =
    let next = append read (put c no_text) in
    let longer = prefixes (read ∷ above) next rest in
    let same = prefixes above next rest in if code c == 46 then longer else same

-- A logger and those above it below the root, from the logger up.
abbrev pub lineage : String → List String
lineage name = prefixes [] "" name

-- `Logger.callHandlers`: the handlers of the loggers from one up, as far as they propagate, and at
-- the end those of the root.
abbrev pub reached : LogSetup → List String → List LogHandler
reached setup [] = setup.root_handlers
reached setup (name ∷ above) =
    let further = reached setup above in
    let logger = setup.loggers name in logger.handlers ++ (if logger.propagate then further else [])

-- `Logger.getEffectiveLevel`: the first level from a logger up that is set.
abbrev pub effective_level : (String → Logger) → ℕ → List String → ℕ
effective_level loggers root [] = root
effective_level loggers root (name ∷ above) =
    let further = effective_level loggers root above in
    if (loggers name).level == 0 then further else (loggers name).level

-- Where an event of a level goes, for a logger of that name.
abbrev pub emitted : LogSetup → String → ℕ → List LogHandler
emitted setup name level =
    if leb (effective_level setup.loggers setup.root_level (lineage name)) level
    then reached setup (lineage name)
    else []
