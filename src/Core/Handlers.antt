-- ===== src/Core/Handlers.antt =====
-- src/core/handlers.py: an exception becomes an HTTP response.
use Prim.Native.String.{◌++◌ as append}
use smartcourse_core.Base.{
  List, Option, String, [], if◌then◌else◌, leb, map, ℕ, ◌==◌, ◌∷◌, nat_eq, string_eq,
}
use smartcourse_core.Platform.{Platform}
use smartcourse_core.Core.Errors.{
  FieldError, AppError, Exception, app, invalid_request, http_exception, unexpected,
}
use smartcourse_core.Core.Logging.{current_request_id}
use smartcourse_core.Effects.{M, ◌>>=◌, ◌>>◌, pure, when, log, word}

pub record ErrorBody : Type 0 where
  pub code : String
  pub message : String
  pub details : List FieldError
  pub request_id : Option String

pub record JsonResponse (A : Type 0) : Type 0 where
  pub status_code : ℕ
  pub content : A

abbrev pub status_by_code : List (String × ℕ)
status_by_code =
    ("NOT_FOUND", 404)
    ∷ ("CONFLICT", 409)
    ∷ ("VALIDATION_ERROR", 422)
    ∷ ("UNAUTHORIZED", 401)
    ∷ ("FORBIDDEN", 403)
    ∷ ("BUSINESS_RULE_VIOLATION", 422)
    ∷ ("RATE_LIMITED", 429)
    ∷ []

-- `_STATUS_BY_CODE.get(code, default)`
abbrev pub status_of : String → ℕ → List (String × ℕ) → ℕ
status_of code default [] = default
status_of code default (e ∷ l) = if e.0 == code then e.1 else status_of code default l

-- `".".join(str(p) for p in loc)`
abbrev pub dotted : List String → String
dotted [] = ""
dotted (p ∷ []) = p
dotted (p ∷ q ∷ l) = append p (append "." (dotted (q ∷ l)))

abbrev pub field_error : List String × String → FieldError
field_error e = record { field = dotted e.0; message = e.1 }

module _ {P : Platform} where
  -- `_body`
  unfoldable pub body : String → String → List FieldError → M P ErrorBody
  unfolding current_request_id
  body code message details = do
    request_id ← current_request_id
    pure (record { code = code; message = message; details = details; request_id = request_id })

  unfoldable pub handle_app_error : AppError → M P (JsonResponse ErrorBody)
  unfolding body
  handle_app_error exc = do
    let http_status = status_of exc.code 400 status_by_code
    when (leb 500 http_status)
        (log "unhandled_app_error" (("code", word exc.code) ∷ ("message", word exc.message) ∷ []))
    content ← body exc.code exc.message exc.details
    pure (record { status_code = http_status; content = content })

  unfoldable pub handle_request_validation_error :
      List (List String × String) → M P (JsonResponse ErrorBody)
  unfolding body
  handle_request_validation_error errors = do
    content ← body "VALIDATION_ERROR" "Validation failed" (map field_error errors)
    pure (record { status_code = 422; content = content })

  unfoldable pub handle_http_exception : ℕ → String → M P (JsonResponse ErrorBody)
  unfolding body
  handle_http_exception status_code detail = do
    content ← body (if status_code == 404 then "NOT_FOUND" else "HTTP_ERROR") detail []
    pure (record { status_code = status_code; content = content })

  unfoldable pub handle_unexpected_error : String → M P (JsonResponse ErrorBody)
  unfolding body
  handle_unexpected_error exc = do
    log "unhandled_exception" (("exc_info", word exc) ∷ [])
    content ← body "INTERNAL_ERROR" "An unexpected error occurred." []
    pure (record { status_code = 500; content = content })

  -- `register_exception_handlers`: the handler of each class of exception.
  unfoldable pub handle : Exception → M P (JsonResponse ErrorBody)
  unfolding handle_app_error handle_request_validation_error handle_http_exception
      handle_unexpected_error
  handle (app e) = handle_app_error e
  handle (invalid_request errors) = handle_request_validation_error errors
  handle (http_exception status_code detail) = handle_http_exception status_code detail
  handle (unexpected name) = handle_unexpected_error name
