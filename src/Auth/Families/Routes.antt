-- ===== src/Auth/Families/Routes.antt =====
-- The routes of src/modules/auth/routes.py leave the refresh tokens sound.
use smartcourse_core.Base.{List, Option, String, ℕ}
use smartcourse_core.Platform.{Platform}
use smartcourse_core.Auth.Model.{RefreshToken}
use smartcourse_core.Config.{Settings}
use smartcourse_core.Core.Logging.{current_request_id}
use smartcourse_core.Core.Response.{Envelope, success}
use smartcourse_core.Core.Handlers.{JsonResponse}
use smartcourse_core.Core.Dependencies.{CurrentUser, get_current_user}
use smartcourse_core.Users.Model.{student}
use smartcourse_core.Auth.Schemas.{
  RegisterBody, LoginBody, ResetPasswordBody, register_request, login_request, refresh_request,
  forgot_password_request, reset_password_request, UserPublic, public_user,
}
use smartcourse_core.Auth.Routes.{
  register_route, login_route, refresh_route, logout_route, forgot_password_route,
  reset_password_route, client_host, respond,
}
use smartcourse_core.Auth.Service.{
  TokenPair, login, refresh_tokens, register, logout, forgot_password, reset_password,
  logging_sender,
}
use smartcourse_core.Auth.Families.Active.{Apart}
use smartcourse_core.Auth.Families.Logins.{Safe-login}
use smartcourse_core.Auth.Families.Rotations.{Safe-refresh_tokens, Keeps-logout}
use smartcourse_core.Auth.Families.Accounts.{
  Keeps-register, Keeps-forgot_password, Keeps-reset_password,
}
use smartcourse_core.Auth.Families.Keeps.{
  Safe-then, Keeps, Safe, Keeps-bind, Safe-bind, Safe-of-Keeps, Keeps-in_transaction,
}
use smartcourse_core.Db.Postgres.{in_transaction}
use smartcourse_core.Effects.{M, ◌>>=◌, ◌>>◌}
use smartcourse_core.Auth.Families.Requests.{
  Keeps-register_request, Keeps-login_request, Keeps-refresh_request, Keeps-forgot_password_request,
  Keeps-reset_password_request, Keeps-get_current_user,
}
use smartcourse_core.Core.Dependencies.{CurrentUser}

module _ {P : Platform} where
  -- What answers a request changes nothing.
  abbrev pub answered : {A : Type 0} → ℕ → A → M P (JsonResponse (Envelope A))
  answered status value = do content ← success value; respond status content

module _ {P : Platform} {base : List RefreshToken} where
  pub Keeps-answered :
      (A : Type 0) (status : ℕ) (value : A) → Keeps {P = P} base (answered status value)
  unfolding success current_request_id
  Keeps-answered A status value w g = g

  -- A route: the check of what came in, the service function, and the reply.
  Keeps-handled :
      {B A C : Type 0} (parse : M P B) (m : B → M P A) (reply : A → M P C)
      → Keeps base parse
      → ((b : B) → Safe base (m b))
      → ((a : A) → Keeps base (reply a))
      → Keeps {P = P} base (in_transaction (parse >>= λ b. m b >>= reply))
  Keeps-handled parse m reply parsed safe replied =
      Keeps-in_transaction (parse >>= λ b. m b >>= reply) (
        Safe-bind parse (λ b. m b >>= reply) parsed
          (λ b. Safe-then (m b) reply (safe b) (λ a. Safe-of-Keeps (reply a) (replied a))))

  Keeps-logging_sender :
      (to subject body : String) → Keeps base (logging_sender {P = P} to subject body)
  Keeps-logging_sender to subject body w g = g

  pub Keeps-register_route :
      (raw : RegisterBody) (client : Option String) (settings : Settings)
      → Keeps {P = P} base (register_route raw client settings)
  unfolding register_route
  Keeps-register_route raw client settings =
      Keeps-handled (register_request raw)
        (λ body.
          register body.email body.password body.full_name body.role (client_host client)
            settings.security logging_sender)
        (λ user. answered 201 (public_user user)) (Keeps-register_request raw)
        (λ body.
          Safe-of-Keeps
            (register body.email body.password body.full_name body.role (client_host client)
              settings.security logging_sender)
            (Keeps-register body.email body.password body.full_name body.role settings.security
              logging_sender Keeps-logging_sender (client_host client)))
        (λ user. Keeps-answered UserPublic 201 (public_user user))

  pub Keeps-login_route :
      (raw : LoginBody) (settings : Settings)
      → Apart P
      → Keeps {P = P} base (login_route raw settings)
  unfolding login_route
  Keeps-login_route raw settings apart =
      Keeps-handled (login_request raw) (λ body. login body.email body.password settings.security)
        (λ logged_in. answered 200 logged_in.1) (Keeps-login_request raw)
        (λ body. Safe-login body.email body.password settings.security apart)
        (λ logged_in. Keeps-answered (TokenPair P) 200 logged_in.1)

  pub Keeps-refresh_route :
      (raw : Option String) (settings : Settings) → Keeps {P = P} base (refresh_route raw settings)
  unfolding refresh_route
  Keeps-refresh_route raw settings =
      Keeps-handled (refresh_request raw) (λ token. refresh_tokens token settings.security)
        (λ refreshed. answered 200 refreshed.1) (Keeps-refresh_request raw)
        (λ token. Safe-refresh_tokens token settings.security)
        (λ refreshed. Keeps-answered (TokenPair P) 200 refreshed.1)

module _ {P : Platform} where
  -- The route of `logout` from the user of the token on.
  abbrev logout_of : CurrentUser → String → M P (JsonResponse (Unit {0}))
  logout_of current_user refresh_token = do
    logout refresh_token current_user.jti current_user.expires_at
    respond 204 tt

module _ {P : Platform} {base : List RefreshToken} where
  Keeps-logout_of :
      (u : CurrentUser) (raw : Option String)
      → Keeps {P = P} base (refresh_request raw >>= logout_of u)
  Keeps-logout_of u raw =
      Keeps-bind (refresh_request raw) (logout_of u) (Keeps-refresh_request raw) (λ refresh_token.
        Keeps-bind (logout refresh_token u.jti u.expires_at) (λ _. respond 204 tt)
          (Keeps-logout refresh_token u.jti u.expires_at) (λ _ w g. g))

  pub Keeps-logout_route :
      (raw : Option String) (credentials : Option P.Token) (settings : Settings)
      → Keeps {P = P} base (logout_route raw credentials settings)
  unfolding logout_route
  Keeps-logout_route raw credentials settings =
      let route : M P (JsonResponse (Unit {0})) =
        get_current_user credentials settings.security >>= λ u.
        refresh_request raw >>= logout_of u in
      Keeps-in_transaction route (
        Safe-of-Keeps route (
          Keeps-bind (get_current_user credentials settings.security)
            (λ u. refresh_request raw >>= logout_of u)
            (Keeps-get_current_user credentials settings.security) (λ u. Keeps-logout_of u raw)))

  pub Keeps-forgot_password_route :
      (raw : Option String) (settings : Settings)
      → Keeps {P = P} base (forgot_password_route raw settings)
  unfolding forgot_password_route
  Keeps-forgot_password_route raw settings =
      Keeps-handled (forgot_password_request raw)
        (λ email. forgot_password email settings.security logging_sender) (λ _. respond 202 tt)
        (Keeps-forgot_password_request raw)
        (λ email. Safe-of-Keeps (forgot_password email settings.security logging_sender) (
          Keeps-forgot_password email "" "" student settings.security logging_sender
            Keeps-logging_sender))
        (λ _ w g. g)

  pub Keeps-reset_password_route :
      (raw : ResetPasswordBody) → Keeps {P = P} base (reset_password_route raw)
  unfolding reset_password_route
  Keeps-reset_password_route raw =
      Keeps-handled (reset_password_request raw)
        (λ body. reset_password body.token body.new_password) (λ _. respond 204 tt)
        (Keeps-reset_password_request raw)
        (λ body.
          Safe-of-Keeps (reset_password body.token body.new_password)
            (Keeps-reset_password body.token body.new_password))
        (λ _ w g. g)
