-- ===== src/Db/Postgres.antt =====
-- src/db/postgres.py: the engine and the session factory of the process, and one transaction for
-- each request.
use smartcourse_core.Base.{Bool, Option, String, none, some, ℕ}
use smartcourse_core.Platform.{Platform}
use smartcourse_core.Config.{PostgresSettings}
use smartcourse_core.Core.Errors.{unexpected}
use smartcourse_core.Effects.{M, ok, err, raise}

pub record Engine : Type 0 where
  pub dsn : String
  pub pool_size : ℕ
  pub max_overflow : ℕ
  pub echo : Bool
  pub connect_timeout : ℕ

-- `_engine` and `_session_factory` (the engine that it is bound to).
pub record Globals : Type 0 where
  pub engine : Option Engine
  pub session_factory : Option Engine

abbrev pub engine_of : PostgresSettings → Engine
engine_of settings = record {
  dsn = settings.dsn;
  pool_size = settings.pool_size;
  max_overflow = settings.max_overflow;
  echo = settings.echo;
  connect_timeout = 5;
}

unfoldable pub init_postgres : PostgresSettings → Globals → Globals
init_postgres settings g = record {
  engine = some (engine_of settings);
  session_factory = some (engine_of settings);
}

-- The body of the `async with`: what stands for the request is run, and its session is committed
-- or, if it raises, rolled back.
unfoldable pub in_transaction : {P : Platform} {A : Type 0} → M P A → M P A
in_transaction {P} request w =
    let (r, w') = request w in
    elim r [
      | ok a ↦ (ok a, record w' { session = P.commit w'.session })
      | err e ↦ (err e, record w' { session = P.rollback w'.session })
    ]

unfoldable pub get_session : {P : Platform} {A : Type 0} → Globals → M P A → M P A
unfolding in_transaction
get_session g request = elim g.session_factory [
  | none ↦ raise (unexpected "RuntimeError")
  | some _ ↦ in_transaction request
]
