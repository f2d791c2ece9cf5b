-- ===== src/Auth/Schemas.antt =====
-- src/modules/auth/schemas.py: the bodies of the requests, as they come and as they are accepted.
use smartcourse_core.Base.{
  Bool, List, Option, String, if◌then◌else◌, none, some, ℕ, ◌++◌, ◌==◌, nat_eq, string_eq,
}
use smartcourse_core.Platform.{Platform}
use smartcourse_core.Core.Errors.{invalid_request}
use smartcourse_core.Core.Validation.{
  Checked, good, bad, errors_of, text_field, any_text, email_field,
}
use smartcourse_core.Users.Model.{User, UserRole, student, instructor}
use smartcourse_core.Effects.{M, pure, raise}

-- A JSON body: a field that is absent is none.
pub record RegisterBody : Type 0 where
  pub email : Option String
  pub password : Option String
  pub full_name : Option String
  pub role : Option String

pub record RegisterRequest : Type 0 where
  pub email : String
  pub password : String
  pub full_name : String
  pub role : UserRole

pub record LoginBody : Type 0 where
  pub email : Option String
  pub password : Option String

pub record LoginRequest : Type 0 where
  pub email : String
  pub password : String

pub record ResetPasswordBody : Type 0 where
  pub token : Option String
  pub new_password : Option String

pub record ResetPasswordRequest : Type 0 where
  pub token : String
  pub new_password : String

pub record UserPublic : Type 0 where
  pub id : ℕ
  pub email : String
  pub full_name : String
  pub role : UserRole
  pub is_active : Bool
  pub created_at : ℕ

-- `UserPublic.model_validate(user, from_attributes=True)`
abbrev pub public_user : User → UserPublic
public_user u = record {
  id = u.id;
  email = u.email;
  full_name = u.full_name;
  role = u.role;
  is_active = u.is_active;
  created_at = u.created_at;
}

-- `SelfRegisterableRole = UserRole.STUDENT`: a `Literal` of two members, with a default.
abbrev pub role_field : Option String → Checked UserRole
role_field none = good student
role_field (some s) =
    if s == "student"
    then good student
    else if s == "instructor"
    then good instructor
    else bad "literal_error"

abbrev role_errors :
    {A B C D : Type 0} → Checked A → Checked B → Checked C → Checked D → List (List String × String)
role_errors e p n r =
    errors_of "email" e
    ++ (errors_of "password" p ++ (errors_of "full_name" n ++ errors_of "role" r))

module _ {P : Platform} where
  abbrev pub register_of :
      Checked String → Checked String → Checked String → Checked UserRole → M P RegisterRequest
  register_of (good e) (good p) (good n) (good r) =
      pure (record { email = e; password = p; full_name = n; role = r })
  register_of e p n r = raise (invalid_request (role_errors e p n r))

  unfoldable pub register_request : RegisterBody → M P RegisterRequest
  register_request b =
      register_of (email_field P b.email) (text_field 8 128 b.password)
        (text_field 1 255 b.full_name) (role_field b.role)

  abbrev pub login_of : Checked String → Checked String → M P LoginRequest
  login_of (good e) (good p) = pure (record { email = e; password = p })
  login_of e p = raise (invalid_request (errors_of "email" e ++ errors_of "password" p))

  unfoldable pub login_request : LoginBody → M P LoginRequest
  login_request b = login_of (email_field P b.email) (any_text b.password)

  abbrev pub field_of : String → Checked String → M P String
  field_of field (good s) = pure s
  field_of field (bad kind) = raise (invalid_request (errors_of {A = String} field (bad kind)))

  -- `RefreshRequest` and `LogoutRequest`, and `ForgotPasswordRequest`
  unfoldable pub refresh_request : Option String → M P String
  refresh_request refresh_token = field_of "refresh_token" (any_text refresh_token)

  unfoldable pub forgot_password_request : Option String → M P String
  forgot_password_request email = field_of "email" (email_field P email)

  abbrev pub reset_of : Checked String → Checked String → M P ResetPasswordRequest
  reset_of (good t) (good p) = pure (record { token = t; new_password = p })
  reset_of t p = raise (invalid_request (errors_of "token" t ++ errors_of "new_password" p))

  unfoldable pub reset_password_request : ResetPasswordBody → M P ResetPasswordRequest
  reset_password_request b = reset_of (any_text b.token) (text_field 8 128 b.new_password)
