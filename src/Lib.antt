-- ===== src/Lib.antt =====
-- Smartcourse: the API of a course platform, a FastAPI application over PostgreSQL, MongoDB and
-- Redis. This library models the program and proves what makes it correct.
--
-- The parts of the program and the files that model them:
--   src/config.py: Config. Floats of seconds are kept in microseconds.
--   src/core: Core. Errors (exceptions.py), Security (security.py), Dependencies
--     (dependencies.py: the user of a bearer token), Logging (the request context of logging.py),
--     Response (response.py: envelopes and cursors), Handlers (handlers.py), Middleware
--     (middleware.py), Router (router.py), Jwks (the key set of security.py), Loggers
--     (configure_logging of logging.py), ServerErrors (the outermost layer of the application that
--     app.py puts together), and Validation, the checks of fields that the pydantic
--     models declare.
--   src/db: Db. Postgres (postgres.py, with the transaction of each request) and Process (the
--     clients of postgres.py, mongo.py and redis.py, and the calls of their servers).
--   src/modules/users: Users. src/modules/auth: Auth. src/modules/courses: Courses.
--   src/modules/health: Health. Each has Model (models.py), Schemas (schemas.py), Service
--     (service.py) and Routes (routes.py), where the program has them.
--   src/app.py: App. src/main.py: Main. scripts: Scripts. migrations/postgres: Migrations
--     (Versions and History for versions, Environment for env.py).
--
-- How they fit together: a route runs a function of its service in `in_transaction`, which is the
-- generator `get_session`; what it raises goes to `handle`. Effects has the state that such a run
-- passes along, `World`: the session, the Redis client, the clock in microseconds, the number of
-- random draws, the log and the request id. A function of the program is a function of `M`, from a
-- world to a result, which is a value or an exception, and a world; what was done before a raise
-- stays done.
--
-- Code that is not the program's is a record of operations and laws, in Platform: Redis (strings
-- with a time to live), Orm (a SQLAlchemy session: rows that the transaction sees and rows that are
-- committed), Crypto (argon2, PyJWT, hashes, random draws, UUIDs) and Text (ISO times, JSON,
-- base64, headers, ILIKE, addresses). Each law says what its documentation says. Tests.Memory has
-- an instance of all of them in memory, and the other modules of Tests run the program and the
-- theorems on it.
--
-- Bounds: every loop of the program is over the rows of a query, and is structural recursion. The
-- fuel of `follow` bounds the pages that a client asks for; as much as there are rows is enough.
-- A natural number is a UUID, an instant or a count; a difference is written out where it matters.
--
-- Auth.Families follows the refresh tokens over whole runs. Active counts the active tokens of a
-- family; History says how the rows of an earlier table go on; Keeps says which programs keep the
-- table sound and how that passes to what is composed of them, with a transaction around it; Parts
-- to CourseRoutes go through the functions of the services up to the routes. Accepted tells when a
-- refresh returns; Holder, Branches and Automaton relate one request to an automaton. Reach is the step relation of
-- the routes; a step is a whole request, and Auth.Refresh.Race shows what two requests do that
-- overlap.
--
-- Not modelled: the processors of structlog, which format a line of the log, the reading of
-- environment variables and of alembic.ini, and the start of uvicorn, which are calls of libraries.
-- Other interleavings of two requests than that of Auth.Refresh.Race are not modelled.
pub mod Base
pub mod Core
pub mod Users
pub mod Auth
pub mod Courses
pub mod Health
pub mod Scripts
pub mod Main
pub mod Migrations
pub mod App
pub mod Platform
pub mod Effects
pub mod Config
pub mod Db
pub mod Tests
