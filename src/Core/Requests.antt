-- ===== src/Core/Requests.antt =====
-- The request id that src/core/middleware.py carries through a request.
use smartcourse_core.Base.{
  All, List, String, [], length, length-map, map, none, some, ℕ, ◌++◌, ◌∷◌, ◌≡◌,
}
use smartcourse_core.Platform.{Platform}
use smartcourse_core.Core.Logging.{bind_request_id, clear_request_context}
use smartcourse_core.Core.Middleware.{
  Message, response_start, response_body, Scope, AsgiApp, request_id_header, usable_id,
  with_request_id, last_status, request_context,
}
use smartcourse_core.Effects.{World, Result, ok, LogEvent, word, count, ◌>>=◌, ◌>>◌}

-- Whether the start of a response has the id in its header.
abbrev pub CarriesId : (P : Platform) → String → Message P → Type 0
CarriesId P request_id (response_start status headers) =
    P.header headers request_id_header ≡ some request_id
CarriesId P request_id (response_body body) = Unit

carried :
    (P : Platform) (request_id : String) (l : List (Message P))
    → All (CarriesId P request_id) (map (with_request_id request_id) l)
carried P request_id [] = tt
carried P request_id (response_start status headers ∷ l) =
    (P.header-set_header request_id_header request_id headers, carried P request_id l)
carried P request_id (response_body body ∷ l) = (tt, carried P request_id l)

abbrev pub request_line : {P : Platform} → Scope P → ℕ → LogEvent
request_line scope status_code = record {
  event = "http_request";
  fields =
      ("method", word scope.method)
      ∷ ("path", word scope.path)
      ∷ ("status_code", count status_code)
      ∷ [];
}

module _ {P : Platform} (inner : AsgiApp P) (scope : Scope P) (w inside : World P)
    (request_id : String) (messages : List (Message P)) (end : Result (Unit {0})) where
  -- A request with an id in its header runs with that id bound. However the application inside
  -- ends, every start of a response that it sent goes out with the id, one line with its last
  -- status, or 500 if it sent none, is logged, the context is cleared, and its end is passed on.
  pub request_context_lem :
      scope.type ≡ "http"
      → usable_id (P.header scope.headers request_id_header) ≡ some request_id
      → inner (record w { request_id = some request_id }) ≡ (ok (messages, end), inside)
      → (sent : List (Message P)) × (request_context inner scope w ≡ (
        ok (sent, end),
        record inside {
          logs = inside.logs ++ request_line scope (last_status 500 messages) ∷ [];
          request_id = none;
        },
      ))
        × All (CarriesId P request_id) sent
        × (length sent ≡ length messages)
  unfolding request_context bind_request_id clear_request_context
  request_context_lem http given ran = (
    map (with_request_id request_id) messages,
    simp (http, given, ran, ◌>>=◌, ◌>>◌),
    carried P request_id messages,
    length-map (with_request_id request_id) messages,
  )
