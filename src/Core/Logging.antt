-- ===== src/Core/Logging.antt =====
-- The request context of src/core/logging.py.
use smartcourse_core.Base.{Option, String, none, some}
use smartcourse_core.Platform.{Platform}
use smartcourse_core.Effects.{M, ok}

module _ {P : Platform} where
  unfoldable pub bind_request_id : String → M P (Unit {0})
  bind_request_id request_id w = (ok tt, record w { request_id = some request_id })

  unfoldable pub current_request_id : M P (Option String)
  current_request_id w = (ok w.request_id, w)

  unfoldable pub clear_request_context : M P (Unit {0})
  clear_request_context w = (ok tt, record w { request_id = none })
