-- ===== src/App/Startup.antt =====
-- The start-up and the shutdown of src/app.py.
use smartcourse_core.Base.{Bool, List, String, [], false, refl, some, true, ◌&&◌, ◌++◌, ◌∷◌, ◌≡◌}
use smartcourse_core.Config.{Settings}
use smartcourse_core.App.{Warning, warned, Servers, run_lifespan, shut_down}
use smartcourse_core.Db.Postgres.{engine_of, init_postgres}
use smartcourse_core.Db.Process.{
  Process, Answer, answers, raises, init_mongo, init_redis, check_postgres, check_mongo,
  check_redis, close_postgres, close_mongo, close_redis, get_mongo, get_redis, RedisHandle,
}

abbrev pub is_answer : Answer → Bool
is_answer answers = true
is_answer (raises detail) = false

abbrev pub all_answer : Servers → Bool
all_answer s =
    is_answer s.beanie
    && (is_answer s.select_one && (is_answer s.mongo_ping && is_answer s.redis_ping))

abbrev pub is_empty : {A : Type 0} → List A → Bool
is_empty [] = true
is_empty (x ∷ l) = false

warned_empty :
    (event name : String) (a : Answer) (l : List Warning)
    → is_empty (warned event name a ++ l) ≡ (is_answer a && is_empty l)
warned_empty event name answers l = refl
warned_empty event name (raises detail) l = refl

last_empty : (event name : String) (a : Answer) → is_empty (warned event name a) ≡ is_answer a
last_empty event name answers = refl
last_empty event name (raises detail) = refl

warnings_empty :
    (a b c d : Answer)
    → is_empty (
        warned "mongo_init_failed_at_startup" "mongo" a
        ++ (warned "dependency_unavailable_at_startup" "postgres" b
            ++ (warned "dependency_unavailable_at_startup" "mongo" c
                ++ warned "dependency_unavailable_at_startup" "redis" d)))
      ≡ (is_answer a && (is_answer b && (is_answer c && is_answer d)))
warnings_empty a b c d =
    rw
      (
        warned_empty "mongo_init_failed_at_startup" "mongo" a,
        warned_empty "dependency_unavailable_at_startup" "postgres" b,
        warned_empty "dependency_unavailable_at_startup" "mongo" c,
        last_empty,
      )
      refl

module _ (settings : Settings) (servers : Servers) (p : Process) where
  run_lifespan_lem :
      let (p', warnings) = run_lifespan settings servers p in
      (p'.postgres.session_factory ≡ some (engine_of settings.postgres))
      × (get_mongo p' ≡ some settings.mongo.database)
      × ((r : RedisHandle) × (get_redis p' ≡ some r))
      × (is_empty warnings ≡ all_answer servers)
  unfolding run_lifespan init_postgres init_mongo init_redis check_postgres check_mongo check_redis
      get_mongo get_redis
  run_lifespan_lem = (
    refl,
    refl,
    (_, refl),
    warnings_empty servers.beanie servers.select_one servers.mongo_ping servers.redis_ping,
  )

  shut_down_after_start :
      (shut_down (run_lifespan settings servers p).0).closed
      ≡ ((p.closed ++ "postgres" ∷ []) ++ "mongo" ∷ []) ++ "redis" ∷ []
  unfolding shut_down run_lifespan init_postgres init_mongo init_redis check_postgres check_mongo
      check_redis close_postgres close_mongo close_redis
  shut_down_after_start = refl

  -- Start-up never fails: whatever the servers answer, each of the three clients is there after it,
  -- and there is a warning unless all of them answered. What it opens, shutdown closes: the three
  -- clients, each once.
  pub lifespan_lem :
      let (p', warnings) = run_lifespan settings servers p in
      (p'.postgres.session_factory ≡ some (engine_of settings.postgres))
      × (get_mongo p' ≡ some settings.mongo.database)
      × ((r : RedisHandle) × (get_redis p' ≡ some r))
      × (is_empty warnings ≡ all_answer servers)
      × ((shut_down p').closed ≡ ((p.closed ++ "postgres" ∷ []) ++ "mongo" ∷ []) ++ "redis" ∷ [])
  lifespan_lem =
      let (factory, database, handle, warnings) = run_lifespan_lem in
      (factory, database, handle, warnings, shut_down_after_start)
