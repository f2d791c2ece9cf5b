-- ===== src/Db/Process.antt =====
-- The clients of the process: the module variables of src/db/postgres.py, src/db/mongo.py and
-- src/db/redis.py, and what their servers answer.
use smartcourse_core.Base.{Bool, List, Option, String, [], none, some, true, ℕ, ◌++◌, ◌∷◌}
use smartcourse_core.Config.{MongoSettings, RedisSettings}
use smartcourse_core.Db.Postgres.{Globals}

-- How a call of a server ends: it answers, or the client library raises.
pub data Answer : Type 0 where
  answers : Answer
  raises : String → Answer

pub record MongoClient : Type 0 where
  pub url : String
  pub server_selection_timeout_ms : ℕ

pub record RedisHandle : Type 0 where
  pub url : String
  pub socket_timeout_us : ℕ
  pub socket_connect_timeout_us : ℕ
  pub decode_responses : Bool

pub record Process : Type 0 where
  pub postgres : Globals
  pub mongo_client : Option MongoClient
  pub mongo_database : Option String
  pub redis_client : Option RedisHandle
  -- the clients that were closed
  pub closed : List String

-- A function of a module that may raise, with the process that it leaves.
abbrev pub Step : Type 0
Step = Process → Answer × Process

-- `init_mongo`: both variables are set before `init_beanie` may raise.
unfoldable pub init_mongo : MongoSettings → Answer → Step
init_mongo settings beanie p = (
  beanie,
  record p {
    mongo_client = some (record {
      url = settings.url;
      server_selection_timeout_ms = settings.server_selection_timeout_ms;
    });
    mongo_database = some settings.database;
  },
)

unfoldable pub init_redis : RedisSettings → Process → Process
init_redis settings p = record p {
  redis_client = some (record {
    url = settings.url;
    socket_timeout_us = settings.socket_timeout_us;
    socket_connect_timeout_us = settings.socket_timeout_us;
    decode_responses = true;
  });
}

-- `if _client is None: raise RuntimeError(…)` before the server is asked
abbrev pub guarded : {A : Type 0} → Option A → Answer → Answer
guarded none reply = raises "RuntimeError"
guarded (some _) reply = reply

unfoldable pub check_postgres : Answer → Process → Answer
check_postgres select_one p = guarded p.postgres.engine select_one

unfoldable pub check_mongo : Answer → Process → Answer
check_mongo ping p = guarded p.mongo_client ping

-- `get_redis().ping()`
unfoldable pub check_redis : Answer → Process → Answer
check_redis ping p = guarded p.redis_client ping

-- `get_mongo` and `get_redis`: none is a RuntimeError.
unfoldable pub get_mongo : Process → Option String
get_mongo p = p.mongo_database

unfoldable pub get_redis : Process → Option RedisHandle
get_redis p = p.redis_client

abbrev close_if : {A : Type 0} → Option A → String → Process → Process
close_if none name p = p
close_if (some _) name p = record p { closed = p.closed ++ name ∷ [] }

unfoldable pub close_postgres : Process → Process
close_postgres p = close_if p.postgres.engine "postgres" p

unfoldable pub close_mongo : Process → Process
close_mongo p = close_if p.mongo_client "mongo" p

unfoldable pub close_redis : Process → Process
close_redis p = close_if p.redis_client "redis" p
