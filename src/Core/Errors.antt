-- ===== src/Core/Errors.antt =====
-- src/core/exceptions.py, and what else can be raised through a handler.
use smartcourse_core.Base.{
  List, Option, String, [], if◌then◌else◌, none, some, ℕ, ◌==◌, nat_eq, string_eq,
}

pub record FieldError : Type 0 where
  pub field : String
  pub message : String

-- `AppError` and its subclasses.
pub data ErrorClass : Type 0 where
  app_error not_found conflict validation unauthorized forbidden business_rule rate_limited :
      ErrorClass

abbrev pub class_code : ErrorClass → String
class_code app_error = "INTERNAL_ERROR"
class_code not_found = "NOT_FOUND"
class_code conflict = "CONFLICT"
class_code validation = "VALIDATION_ERROR"
class_code unauthorized = "UNAUTHORIZED"
class_code forbidden = "FORBIDDEN"
class_code business_rule = "BUSINESS_RULE_VIOLATION"
class_code rate_limited = "RATE_LIMITED"

abbrev pub class_message : ErrorClass → String
class_message app_error = "Application error"
class_message not_found = "Resource not found"
class_message conflict = "Conflict with current state"
class_message validation = "Validation failed"
class_message unauthorized = "Authentication required"
class_message forbidden = "Not allowed to perform this action"
class_message business_rule = "Business rule violation"
class_message rate_limited = "Too many requests"

pub record AppError : Type 0 where
  pub code : String
  pub message : String
  pub details : List FieldError

-- `message or self.message`: an empty text is false too.
abbrev pub or_default : Option String → String → String
or_default none d = d
or_default (some m) d = if m == "" then d else m

abbrev pub or_empty : Option (List FieldError) → List FieldError
or_empty none = []
or_empty (some l) = l

-- `AppError.__init__`
abbrev pub init_error : ErrorClass → Option String → Option (List FieldError) → AppError
init_error c message details = record {
  code = class_code c;
  message = or_default message (class_message c);
  details = or_empty details;
}

-- What a handler can raise: an `AppError`, a request that does not validate (the location and the
-- message of each error), an `HTTPException` of the framework, or any other exception, by name.
pub data Exception : Type 0 where
  app : AppError → Exception
  invalid_request : List (List String × String) → Exception
  http_exception : ℕ → String → Exception
  unexpected : String → Exception
