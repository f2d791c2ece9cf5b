-- ===== src/Core/Statuses.antt =====
-- The responses of the exception handlers of src/core/handlers.py.
use smartcourse_core.Base.{List, Option, String, [], refl, ℕ, ◌++◌, ◌∷◌, ◌≡◌}
use smartcourse_core.Platform.{Platform}
use smartcourse_core.Core.Errors.{
  FieldError, ErrorClass, app_error, not_found, conflict, validation, unauthorized, forbidden,
  business_rule, rate_limited, class_code, class_message, or_default, or_empty, Exception, app,
  invalid_request, http_exception, unexpected, init_error,
}
use smartcourse_core.Core.Handlers.{
  ErrorBody, JsonResponse, handle, handle_app_error, handle_unexpected_error, body,
}
use smartcourse_core.Core.Logging.{current_request_id}
use smartcourse_core.Effects.{World, ok, word}

-- The HTTP status of each class of error.
abbrev pub status_of_class : ErrorClass → ℕ
status_of_class app_error = 400
status_of_class not_found = 404
status_of_class conflict = 409
status_of_class validation = 422
status_of_class unauthorized = 401
status_of_class forbidden = 403
status_of_class business_rule = 422
status_of_class rate_limited = 429

abbrev pub app_response :
    ErrorClass → Option String → Option (List FieldError) → Option String → JsonResponse ErrorBody
app_response c message details request_id = record {
  status_code = status_of_class c;
  content = record {
    code = class_code c;
    message = or_default message (class_message c);
    details = or_empty details;
    request_id = request_id;
  };
}

-- The status of the response to an exception, and what is logged of it.
abbrev pub status_of_exception : Exception → ℕ
status_of_exception (app e) = 400
status_of_exception (invalid_request errors) = 422
status_of_exception (http_exception status_code detail) = status_code
status_of_exception (unexpected name) = 500

module _ {P : Platform} (w : World P) where
  -- An error that the application raises is answered by the status of its class, which is never
  -- 500, with its code, its message or the message of the class, and the id of the request; the
  -- handler changes nothing and logs nothing.
  pub handle-app :
      (c : ErrorClass) (message : Option String) (details : Option (List FieldError))
      → handle (app (init_error c message details)) w
        ≡ (ok (app_response c message details w.request_id), w)
  unfolding handle handle_app_error body current_request_id
  handle-app app_error message details = refl
  handle-app not_found message details = refl
  handle-app conflict message details = refl
  handle-app validation message details = refl
  handle-app unauthorized message details = refl
  handle-app forbidden message details = refl
  handle-app business_rule message details = refl
  handle-app rate_limited message details = refl

  -- An exception that no one expected is answered by 500 and a message that does not depend on it:
  -- two exceptions cannot be told apart from the response, only from the log.
  pub unexpected_hidden :
      (a b : String)
      → ((handle (unexpected a) w).0 ≡ (handle (unexpected b) w).0)
        × ((handle (unexpected a) w).1.session ≡ w.session)
        × ((handle (unexpected a) w).1.logs
            ≡ w.logs
              ++ record { event = "unhandled_exception"; fields = ("exc_info", word a) ∷ [] } ∷ [])
  unfolding handle handle_unexpected_error body current_request_id
  unexpected_hidden a b = (refl, refl, refl)
