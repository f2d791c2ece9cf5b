-- ===== src/App.antt =====
-- src/app.py: start-up and shutdown, and the assembly of the application.
pub mod Startup
use smartcourse_core.Base.{Bool, List, String, [], ◌++◌, ◌∷◌}
use smartcourse_core.Platform.{Platform}
use smartcourse_core.Config.{Settings}
use smartcourse_core.Core.Jwks.{Jwk, build_jwks}
use smartcourse_core.Effects.{M}
use smartcourse_core.Core.Router.{ModuleInfo, ApiRouter, build_api_router}
use smartcourse_core.Db.Postgres.{init_postgres}
use smartcourse_core.Db.Process.{
  Process, Answer, answers, raises, init_mongo, init_redis, check_postgres, check_mongo,
  check_redis, close_postgres, close_mongo, close_redis,
}

-- What the servers answer during start-up.
pub record Servers : Type 0 where
  pub beanie : Answer
  pub select_one : Answer
  pub mongo_ping : Answer
  pub redis_ping : Answer

-- A warning of the log: the event, the name of the dependency, the text of the exception.
pub record Warning : Type 0 where
  pub event : String
  pub name : String
  pub detail : String

-- `except Exception as exc: await logger.awarning(…)`
abbrev pub warned : String → String → Answer → List Warning
warned event name answers = []
warned event name (raises detail) = record { event = event; name = name; detail = detail } ∷ []

-- `_run_lifespan`
unfoldable pub run_lifespan : Settings → Servers → Process → Process × List Warning
unfolding init_postgres init_mongo init_redis check_postgres check_mongo check_redis
run_lifespan settings servers p =
    let p1 : Process = record p { postgres = init_postgres settings.postgres p.postgres } in
    let p2 : Process = init_redis settings.redis p1 in
    let (beanie, p3) = init_mongo settings.mongo servers.beanie p2 in
    (
      p3,
      warned "mongo_init_failed_at_startup" "mongo" beanie
          ++ (warned "dependency_unavailable_at_startup" "postgres"
                (check_postgres servers.select_one p3)
              ++ (warned "dependency_unavailable_at_startup" "mongo"
                    (check_mongo servers.mongo_ping p3)
                  ++ warned "dependency_unavailable_at_startup" "redis"
                      (check_redis servers.redis_ping p3))),
    )

-- The `finally` block of `lifespan`.
unfoldable pub shut_down : Process → Process
unfolding close_postgres close_mongo close_redis
shut_down p = close_redis (close_mongo (close_postgres p))

pub data Middleware : Type 0 where
  cors : List String → Bool → Middleware
  request_context : Middleware

-- The application: its middleware from the outermost in, its handlers and its routes.
pub record Application : Type 0 where
  pub title : String
  pub debug : Bool
  pub middleware : List Middleware
  pub handlers : List String
  pub api : ApiRouter
  pub root_routes : List String

-- `app.add_middleware`: what is added last runs first.
abbrev pub add_middleware : Middleware → Application → Application
add_middleware m a = record a { middleware = m ∷ a.middleware }

unfoldable pub create_app : Settings → List ModuleInfo → Application
unfolding build_api_router
create_app settings modules =
    let bare : Application = record {
      title = settings.app.service_name;
      debug = settings.app.debug;
      middleware = [];
      handlers =
          "AppError" ∷ "RequestValidationError" ∷ "StarletteHTTPException" ∷ "Exception" ∷ [];
      api = record { prefix = ""; included = [] };
      root_routes = [];
    } in
    let with_cors =
      add_middleware (cors settings.cors.allow_origins settings.cors.allow_credentials) bare in
    let with_context = add_middleware request_context with_cors in
    record with_context {
      api = build_api_router settings.app.api_prefix modules;
      root_routes = "/.well-known/jwks.json" ∷ [];
    }

-- `/.well-known/jwks.json`
unfoldable pub jwks : {P : Platform} → Settings → M P (List Jwk)
unfolding build_jwks
jwks settings = build_jwks settings.security
