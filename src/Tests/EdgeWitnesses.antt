-- ===== src/Tests/EdgeWitnesses.antt =====
-- The theorems on the published key, the loggers and the outermost layer at concrete inputs.
use smartcourse_core.Base.{
  List, Option, String, [], false, if◌then◌else◌, none, refl, some, true, ◌==◌, ◌∷◌, ◌≡◌, nat_eq,
  string_eq,
}
use smartcourse_core.Config.{default_security, default_app, failed}
use smartcourse_core.Core.Errors.{unexpected}
use smartcourse_core.Core.Handlers.{JsonResponse, ErrorBody}
use smartcourse_core.Core.Middleware.{
  Message, response_start, response_body, Scope, AsgiApp, request_id_header,
}
use smartcourse_core.Core.Requests.{request_line}
use smartcourse_core.Core.ServerErrors.{
  ServerErrors, layered, server_error_without_id, exception_line,
}
use smartcourse_core.Core.Jwks.{Jwk, build_jwks}
use smartcourse_core.Core.KeyNumbers.{value_of_bytes, b64url_decode}
use smartcourse_core.Core.PublishedKey.{build_jwks_lem}
use smartcourse_core.Core.Loggers.{LogSetup, console_renderer}
use smartcourse_core.Courses.Schemas.{ListQuery}
use smartcourse_core.Courses.Routes.{list_courses_route}
use smartcourse_core.Courses.Bounds.{Returned, Fits, list_courses_route_bound}
use smartcourse_core.Effects.{M, Result, ok, err, ◌>>=◌, pure}
use smartcourse_core.Tests.Memory.{memory}
use smartcourse_core.Tests.Worlds.{world}

abbrev no_headers : String → Option String
no_headers name = none

abbrev rendered : JsonResponse ErrorBody → List (Message memory)
rendered r = response_start r.status_code no_headers ∷ response_body r.content.code ∷ []

-- What is done with the run of the layers inside.
abbrev answer_error :
    (String → M memory (JsonResponse ErrorBody))
    → Result (List (Message memory) × Result (Unit {0}))
    → AsgiApp memory
answer_error handler (ok ([], err (unexpected name))) =
    handler name >>= λ response. pure (rendered response, err (unexpected name))
answer_error handler r = λ w. (r, w)

abbrev errors : ServerErrors memory
errors = record {
  render = rendered;
  serve = λ debug handler inner w. answer_error handler (inner w).0 (inner w).1;
  serve-raises = λ handler inner name w v h. rw h refl;
}

abbrev named_scope : Scope memory
named_scope = record {
  type = "http";
  method = "GET";
  path = "/";
  headers = λ name. if name == request_id_header then some "r-1" else none;
}

abbrev broken : AsgiApp memory
broken w = (ok ([], err (unexpected "KeyError")), w)

server_error_without_id_example : layered errors (default_app failed) broken named_scope world ≡ (
  ok (
    response_start 500 no_headers ∷ response_body "INTERNAL_ERROR" ∷ [],
    err (unexpected "KeyError"),
  ),
  record world {
    logs =
        request_line named_scope 500
        ∷ exception_line errors (default_app failed) broken named_scope world world "r-1" "KeyError"
        ∷ [];
  },
)
server_error_without_id_example =
    server_error_without_id errors (default_app failed) broken named_scope world
      (record world { request_id = some "r-1" }) "r-1" "KeyError" refl refl refl refl

build_jwks_lem_example :
    (key : Jwk) × (build_jwks {P = memory} default_security world ≡ (ok (key ∷ []), world))
    × (value_of_bytes 0 (b64url_decode key.n) ≡ 3233)
    × (value_of_bytes 0 (b64url_decode key.e) ≡ 17)
    × (key.alg ≡ default_security.jwt_algorithm)
    × (key.kid ≡ default_security.jwt_kid)
build_jwks_lem_example = build_jwks_lem {P = memory} default_security tt world refl

-- A library gave its logger a level, and uvicorn its own a handler.
abbrev before_setup : LogSetup
before_setup = record {
  loggers = λ name.
      if name == "uvicorn"
      then record {
        handlers = record { stream = "stderr"; renderer = console_renderer } ∷ [];
        propagate = false;
        level = 20;
      }
      else if name == "library"
      then record { handlers = []; propagate = true; level = 40 }
      else record { handlers = []; propagate = true; level = 0 };
  root_handlers = [];
  root_level = 30;
  structlog_level = 0;
  cache_logger_on_first_use = false;
}

abbrev two_each : ListQuery memory
two_each = record { q = none; level = none; status = none; limit = some 2; cursor = none }

list_courses_route_bound_example :
    Returned (λ r. Fits (some 2) r.content.value) (list_courses_route two_each world).0
list_courses_route_bound_example = list_courses_route_bound {P = memory} two_each world
