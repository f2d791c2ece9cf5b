-- ===== src/Core/LogSetup.antt =====
-- Where the events of the loggers go after `configure_logging` of src/core/logging.py.
use smartcourse_core.Base.{Bool, String, [], false, true, ◌∷◌, ◌≡◌, ◌⊎◌, nat_eq, string_eq}
use smartcourse_core.Core.Loggers.{
  LogHandler, Logger, LogSetup, threshold, uvicorn_loggers, stdout_handler, own_handlers,
}

-- A logger that has no handlers and propagates, as a new one.
abbrev pub IsPlain : LogSetup → String → Type 0
IsPlain setup name = ((setup.loggers name).handlers ≡ []) × ((setup.loggers name).propagate ≡ true)

abbrev pub OfUvicorn : String → Type 0
OfUvicorn name = (name ≡ "uvicorn") ⊎ (name ≡ "uvicorn.error") ⊎ (name ≡ "uvicorn.access")

-- A logger that has the handler only, and does not propagate.
abbrev IsOwned : LogHandler → Logger → Type 0
IsOwned handler logger = (logger.handlers ≡ handler ∷ []) × (logger.propagate ≡ false)

module _ (level : String) (json_logs : Bool) (setup : LogSetup) where
  -- The loggers after the configuration.
  abbrev configured : LogSetup
  configured = record {
    loggers = own_handlers (stdout_handler json_logs) uvicorn_loggers setup.loggers;
    root_handlers = stdout_handler json_logs ∷ [];
    root_level = threshold level;
    structlog_level = threshold level;
    cache_logger_on_first_use = true;
  }
