-- ===== src/Core/Middleware.antt =====
-- src/core/middleware.py: `RequestContextMiddleware`.
use smartcourse_core.Base.{
  List, Option, String, [], if◌then◌else◌, map, none, not, some, ℕ, ◌==◌, ◌∷◌, nat_eq, string_eq,
}
use smartcourse_core.Platform.{Platform}
use smartcourse_core.Core.Logging.{bind_request_id, clear_request_context}
use smartcourse_core.Effects.{M, Result, ◌>>=◌, ◌>>◌, pure, log, draw, word, count}

-- The messages that an ASGI application sends.
pub data Message (P : Platform) : Type 0 where
  response_start : ℕ → P.Headers → Message P
  response_body : String → Message P

pub record Scope (P : Platform) : Type 0 where
  pub type : String
  pub method : String
  pub path : String
  pub headers : P.Headers

-- A run of the application inside: what it sends, in order, and how it ends. It gets no reply to
-- what it sends, so the messages can be rewritten afterwards.
abbrev pub AsgiApp : Platform → Type 0
AsgiApp P = M P (List (Message P) × Result (Unit {0}))

abbrev pub request_id_header : String
request_id_header = "X-Request-ID"

-- `header or _new_request_id()`: an empty header counts as none.
abbrev pub usable_id : Option String → Option String
usable_id none = none
usable_id (some s) = if s == "" then none else some s

-- `send_wrapper`
abbrev pub with_request_id : {P : Platform} → String → Message P → Message P
with_request_id {P} request_id (response_start status headers) =
    response_start status (P.set_header request_id_header request_id headers)
with_request_id request_id (response_body body) = response_body body

-- `status_code` after the messages: that of the last start, and 500 before any.
abbrev pub last_status : {P : Platform} → ℕ → List (Message P) → ℕ
last_status code [] = code
last_status code (response_start status headers ∷ l) = last_status status l
last_status code (response_body body ∷ l) = last_status code l

module _ {P : Platform} where
  -- `_new_request_id`
  abbrev pub new_request_id : M P String
  new_request_id = draw (λ n. P.str_uuid (P.uuid4 n))

  abbrev pub id_or_new : Option String → M P String
  id_or_new none = new_request_id
  id_or_new (some s) = pure s

  -- The `finally` block. The duration is not kept in the log line.
  abbrev pub finish : Scope P → ℕ → M P (Unit {0})
  finish scope status_code = do
    log "http_request" (
        ("method", word scope.method)
        ∷ ("path", word scope.path)
        ∷ ("status_code", count status_code)
        ∷ [])
    clear_request_context

  -- `try`/`finally` over a run: whether it returns or raises, `finish` runs. An exception of the
  -- model's own monad cannot come out of the inner run, which reports its end as a value.
  unfoldable pub request_context : AsgiApp P → Scope P → AsgiApp P
  unfolding bind_request_id clear_request_context
  request_context inner scope = if not (scope.type == "http") then inner else do
    request_id ← id_or_new (usable_id (P.header scope.headers request_id_header))
    bind_request_id request_id
    run ← inner
    finish scope (last_status 500 run.0)
    pure (map (with_request_id request_id) run.0, run.1)
