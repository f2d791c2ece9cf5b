-- ===== src/Auth/Families/Requests.antt =====
-- What a route does before its service function: the check of the body (src/modules/auth/schemas.py)
-- and the user of the token (src/core/dependencies.py) leave the refresh tokens sound.
use smartcourse_core.Base.{List, Option, String, none, some, ◌/◌}
use smartcourse_core.Platform.{Platform}
use smartcourse_core.Auth.Model.{RefreshToken}
use smartcourse_core.Platform.Crypto.{Claims}
use smartcourse_core.Config.{SecuritySettings}
use smartcourse_core.Core.Errors.{Exception, unexpected, unauthorized}
use smartcourse_core.Core.Security.{
  access_token_denylist_key, checked_type, decode_access_token, load_public_key, loaded,
}
use smartcourse_core.Core.Dependencies.{get_current_user, accept_claims, user_of_claims}
use smartcourse_core.Core.Validation.{Checked, good, bad, text_field, any_text, email_field}
use smartcourse_core.Users.Model.{UserRole}
use smartcourse_core.Auth.Schemas.{
  RegisterBody, LoginBody, ResetPasswordBody, register_request, register_of, login_request,
  login_of, refresh_request, field_of, forgot_password_request, reset_password_request, reset_of,
  role_field,
}
use smartcourse_core.Auth.Families.Keeps.{Keeps-returned, Keeps, Keeps-bind, Keeps-raise_if}
use smartcourse_core.Effects.{now, ◌>>=◌, pure, or_raise, raise_if}
use smartcourse_core.Platform.Redis.{second}
use smartcourse_core.Auth.Families.Parts.{Keeps-loaded}

module _ {P : Platform} {base : List RefreshToken} where
  Keeps-register_of :
      (e p n : Checked String) (r : Checked UserRole) → Keeps {P = P} base (register_of e p n r)
  Keeps-register_of (good e) (good p) (good n) (good r) w g = g
  Keeps-register_of e p n r w g = g

  pub Keeps-register_request : (b : RegisterBody) → Keeps {P = P} base (register_request b)
  unfolding register_request
  Keeps-register_request b =
      Keeps-register_of (email_field P b.email) (text_field 8 128 b.password)
        (text_field 1 255 b.full_name) (role_field b.role)

  Keeps-login_of : (e p : Checked String) → Keeps {P = P} base (login_of e p)
  Keeps-login_of (good e) (good p) w g = g
  Keeps-login_of e p w g = g

  pub Keeps-login_request : (b : LoginBody) → Keeps {P = P} base (login_request b)
  unfolding login_request
  Keeps-login_request b = Keeps-login_of (email_field P b.email) (any_text b.password)

  Keeps-field_of : (field : String) (c : Checked String) → Keeps {P = P} base (field_of field c)
  Keeps-field_of field (good s) w g = g
  Keeps-field_of field (bad kind) w g = g

  pub Keeps-refresh_request : (o : Option String) → Keeps {P = P} base (refresh_request o)
  unfolding refresh_request
  Keeps-refresh_request o = Keeps-field_of "refresh_token" (any_text o)

  pub Keeps-forgot_password_request :
      (o : Option String) → Keeps {P = P} base (forgot_password_request o)
  unfolding forgot_password_request
  Keeps-forgot_password_request o = Keeps-field_of "email" (email_field P o)

  Keeps-reset_of : (t p : Checked String) → Keeps {P = P} base (reset_of t p)
  Keeps-reset_of (good t) (good p) w g = g
  Keeps-reset_of t p w g = g

  pub Keeps-reset_password_request :
      (b : ResetPasswordBody) → Keeps {P = P} base (reset_password_request b)
  unfolding reset_password_request
  Keeps-reset_password_request b =
      Keeps-reset_of (any_text b.token) (text_field 8 128 b.new_password)

  pub Keeps-or_raise :
      {A : Type 0} (o : Option A) (e : Exception) → Keeps {P = P} base (or_raise o e)
  Keeps-or_raise none e w g = g
  Keeps-or_raise (some a) e w g = g

  Keeps-user_of_claims : (c : Claims) → Keeps {P = P} base (user_of_claims c)
  Keeps-user_of_claims c =
      Keeps-bind (or_raise (P.parse_uuid c.sub) (unexpected "ValueError"))
        (λ user_id. do
          role ← or_raise c.role (unexpected "KeyError")
          pure (record { id = user_id; role = role; jti = c.jti; expires_at = c.exp }))
        (Keeps-or_raise (P.parse_uuid c.sub) (unexpected "ValueError"))
        (λ user_id.
          Keeps-returned (or_raise c.role (unexpected "KeyError"))
            (λ role. record { id = user_id; role = role; jti = c.jti; expires_at = c.exp })
            (Keeps-or_raise c.role (unexpected "KeyError")))

  Keeps-accept_claims : (o : Option Claims) → Keeps {P = P} base (accept_claims o)
  Keeps-accept_claims none w g = g
  Keeps-accept_claims (some c) w g =
      Keeps-bind
        (raise_if (P.exists w.clock (access_token_denylist_key c.jti) w.conn) unauthorized
          "Token has been revoked")
        (λ _. user_of_claims c)
        (Keeps-raise_if (P.exists w.clock (access_token_denylist_key c.jti) w.conn) unauthorized
          "Token has been revoked")
        (λ _. Keeps-user_of_claims c) w g

  pub Keeps-get_current_user :
      (o : Option P.Token) (settings : SecuritySettings)
      → Keeps {P = P} base (get_current_user o settings)
  unfolding get_current_user decode_access_token load_public_key
  Keeps-get_current_user none settings w g = g
  Keeps-get_current_user (some token) settings w g =
      Keeps-bind (decode_access_token token settings) accept_claims
        (Keeps-bind (loaded (P.public_pem settings.jwt_public_key_path))
          (λ public_key. do
            t ← now
            pure (checked_type (P.decode (t / second) token public_key settings.jwt_algorithm)))
          (Keeps-loaded (P.public_pem settings.jwt_public_key_path)) (λ k w g. g))
        Keeps-accept_claims w g
