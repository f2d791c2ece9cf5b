-- ===== src/Auth/Routes.antt =====
-- src/modules/auth/routes.py. A handler runs in the transaction of `get_session`; the user of the
-- token is found before the body is refused.
use smartcourse_core.Base.{Option, String, none, some, ℕ}
use smartcourse_core.Platform.{Platform}
use smartcourse_core.Config.{Settings}
use smartcourse_core.Core.Errors.{not_found}
use smartcourse_core.Core.Dependencies.{get_current_user}
use smartcourse_core.Core.Handlers.{JsonResponse}
use smartcourse_core.Core.Response.{Envelope, success}
use smartcourse_core.Users.Service.{get_by_id}
use smartcourse_core.Users.Model.{User}
use smartcourse_core.Auth.Schemas.{
  RegisterBody, register_request, LoginBody, login_request, refresh_request,
  forgot_password_request, ResetPasswordBody, reset_password_request, UserPublic, public_user,
}
use smartcourse_core.Auth.Service.{
  TokenPair, register, login, refresh_tokens, logout, forgot_password, reset_password,
  logging_sender,
}
use smartcourse_core.Db.Postgres.{in_transaction}
use smartcourse_core.Effects.{M, ◌>>=◌, ◌>>◌, pure, raise_app}

abbrev pub client_host : Option String → String
client_host none = "unknown"
client_host (some host) = host

module _ {P : Platform} where
  abbrev pub respond : {A : Type 0} → ℕ → A → M P (JsonResponse A)
  respond status_code content = pure (record { status_code = status_code; content = content })

  unfoldable pub register_route :
      RegisterBody → Option String → Settings → M P (JsonResponse (Envelope UserPublic))
  unfolding in_transaction register_request
  register_route raw client settings = in_transaction (do
    body ← register_request raw
    user ←
        register body.email body.password body.full_name body.role (client_host client)
          settings.security logging_sender
    content ← success (public_user user)
    respond 201 content)

  unfoldable pub login_route : LoginBody → Settings → M P (JsonResponse (Envelope (TokenPair P)))
  unfolding in_transaction login_request
  login_route raw settings = in_transaction (do
    body ← login_request raw
    logged_in ← login body.email body.password settings.security
    content ← success logged_in.1
    respond 200 content)

  unfoldable pub refresh_route :
      Option String → Settings → M P (JsonResponse (Envelope (TokenPair P)))
  unfolding in_transaction refresh_request
  refresh_route raw settings = in_transaction (do
    refresh_token ← refresh_request raw
    refreshed ← refresh_tokens refresh_token settings.security
    content ← success refreshed.1
    respond 200 content)

  unfoldable pub logout_route :
      Option String → Option P.Token → Settings → M P (JsonResponse (Unit {0}))
  unfolding in_transaction refresh_request
  logout_route raw credentials settings = in_transaction (do
    current_user ← get_current_user credentials settings.security
    refresh_token ← refresh_request raw
    logout refresh_token current_user.jti current_user.expires_at
    respond 204 tt)

  abbrev pub user_or_404 : Option User → M P User
  user_or_404 none = raise_app not_found "User not found"
  user_or_404 (some u) = pure u

  unfoldable pub me_route : Option P.Token → Settings → M P (JsonResponse (Envelope UserPublic))
  unfolding in_transaction get_by_id
  me_route credentials settings = in_transaction (do
    current_user ← get_current_user credentials settings.security
    found ← get_by_id current_user.id
    user ← user_or_404 found
    content ← success (public_user user)
    respond 200 content)

  unfoldable pub forgot_password_route : Option String → Settings → M P (JsonResponse (Unit {0}))
  unfolding in_transaction forgot_password_request
  forgot_password_route raw settings = in_transaction (do
    email ← forgot_password_request raw
    forgot_password email settings.security logging_sender
    respond 202 tt)

  unfoldable pub reset_password_route : ResetPasswordBody → M P (JsonResponse (Unit {0}))
  unfolding in_transaction reset_password_request
  reset_password_route raw = in_transaction (do
    body ← reset_password_request raw
    reset_password body.token body.new_password
    respond 204 tt)
