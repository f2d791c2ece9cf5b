-- ===== src/Core/ServerErrors.antt =====
-- The handler of `Exception` that src/core/handlers.py registers, beside the request context that
-- src/app.py adds: Starlette runs that handler outside all the middleware of the application.
use smartcourse_core.Base.{Bool, List, String, [], false, none, some, ◌++◌, ◌∷◌, ◌≡◌}
use smartcourse_core.Platform.{Platform}
use smartcourse_core.Config.{AppSettings}
use smartcourse_core.Core.Errors.{unexpected}
use smartcourse_core.Core.Logging.{bind_request_id, clear_request_context, current_request_id}
use smartcourse_core.Core.Handlers.{JsonResponse, ErrorBody, handle_unexpected_error, body}
use smartcourse_core.Core.Middleware.{
  Message, Scope, AsgiApp, request_context, usable_id, request_id_header,
}
use smartcourse_core.Core.Requests.{request_line}
use smartcourse_core.Effects.{World, M, LogEvent, ok, err, ◌>>=◌, pure, word}

-- `ServerErrorMiddleware` of Starlette, the outermost layer: an exception that comes out of the
-- layers inside, before a response has started, is answered and raised on: by the handler, or in
-- debug mode by a traceback.
pub record ServerErrors (P : Platform) : Type 0 where
  pub render : JsonResponse ErrorBody → List (Message P)
  pub serve : Bool → (String → M P (JsonResponse ErrorBody)) → AsgiApp P → AsgiApp P
  pub serve-raises :
      (handler : String → M P (JsonResponse ErrorBody)) (inner : AsgiApp P) (name : String)
      (w v : World P)
      → inner w ≡ (ok ([], err (unexpected name)), v)
      → serve false handler inner w
        ≡ (handler name >>= λ response. pure (render response, err (unexpected name))) v

-- What `create_app` puts together, with `debug=settings.app.debug`: the handler of `Exception` outermost, the request context, and
-- the rest (the other middleware, the handlers of the other classes and the routes).
unfoldable pub layered :
    {P : Platform} → ServerErrors P → AppSettings → AsgiApp P → Scope P → AsgiApp P
unfolding request_context handle_unexpected_error
layered errors settings rest scope =
    errors.serve settings.debug handle_unexpected_error (request_context rest scope)

module _ {P : Platform} (errors : ServerErrors P) (settings : AppSettings) (rest : AsgiApp P)
    (scope : Scope P) (w v : World P) (id name : String) where
  -- The world in which the rest of the application runs.
  abbrev pub bound : World P
  bound = record w { request_id = some id }

  abbrev pub exception_line : LogEvent
  exception_line = record { event = "unhandled_exception"; fields = ("exc_info", word name) ∷ [] }

  context_raises :
      scope.type ≡ "http"
      → usable_id (P.header scope.headers request_id_header) ≡ some id
      → rest bound ≡ (ok ([], err (unexpected name)), v)
      → request_context rest scope w ≡ (
        ok ([], err (unexpected name)),
        record v { logs = v.logs ++ request_line scope 500 ∷ []; request_id = none },
      )
  unfolding request_context bind_request_id clear_request_context
  context_raises http given raises = simp (http, given, raises, ◌>>=◌)

  -- Where debug mode is off, an HTTP request with an id in its header whose handling raises what no
  -- one expected, before anything is sent: the response says 500, but it carries no request id, neither in its body nor, unless
  -- JSONResponse sets one, in its header, and the line of the exception is logged after the context
  -- of the request was cleared.
  pub server_error_without_id :
      settings.debug ≡ false
      → scope.type ≡ "http"
      → usable_id (P.header scope.headers request_id_header) ≡ some id
      → rest bound ≡ (ok ([], err (unexpected name)), v)
      → layered errors settings rest scope w ≡ (
        ok (
          errors.render (record {
            status_code = 500;
            content = record {
              code = "INTERNAL_ERROR";
              message = "An unexpected error occurred.";
              details = [];
              request_id = none;
            };
          }),
          err (unexpected name),
        ),
        record v {
          logs = (v.logs ++ request_line scope 500 ∷ []) ++ exception_line ∷ [];
          request_id = none;
        },
      )
  unfolding layered handle_unexpected_error body current_request_id
  server_error_without_id no_debug http given raises = rw no_debug (
      errors.serve-raises handle_unexpected_error (request_context rest scope) name w
        (record v { logs = v.logs ++ request_line scope 500 ∷ []; request_id = none })
        (context_raises http given raises))
