-- ===== src/Auth/Service/Accounts.antt =====
-- src/modules/auth/service.py: `register`, `forgot_password` and `reset_password`.
use Prim.Native.String.{◌++◌ as append}
use smartcourse_core.Base.{
  Option, String, is_none, ltb, none, not, some, ℕ, ◌*◌, ◌==◌, nat_eq, string_eq,
}
use smartcourse_core.Platform.{Platform}
use smartcourse_core.Platform.Redis.{Value, number, text}
use smartcourse_core.Config.{SecuritySettings}
use smartcourse_core.Core.Errors.{unexpected, unauthorized, conflict, rate_limited}
use smartcourse_core.Core.Security.{hash_password}
use smartcourse_core.Users.Model.{User, UserRole}
use smartcourse_core.Users.Service.{get_by_email, get_by_id, create_user}
use smartcourse_core.Effects.{
  M, ◌>>=◌, ◌>>◌, pure, raise, raise_app, raise_if, when, now, run_sql, redis_write, redis_incr,
  redis_getdel,
}
use smartcourse_core.Auth.Service.Tokens.{
  Sender, register_throttle_key, password_reset_key, new_raw_token, revoke_active_tokens,
}

module _ {P : Platform} where
  unfoldable pub register :
      String → String → String → UserRole → String → SecuritySettings → Sender P → M P User
  register email password full_name role client_ip settings send = do
    attempts ← redis_incr (register_throttle_key client_ip)
    when (attempts == 1) (redis_write (λ t. P.expire t (register_throttle_key client_ip) 3600))
    raise_if (ltb settings.register_throttle_per_hour attempts) rate_limited
        "Too many registration attempts from this address."
    existing ← get_by_email email
    raise_if (not (is_none existing)) conflict "An account with this email already exists."
    hashed ← hash_password password
    user ← create_user email hashed full_name role
    send email "Welcome to SmartCourse" (append (append "Welcome, " full_name) "!")
    pure user

  abbrev pub send_reset : Option User → String → SecuritySettings → Sender P → M P (Unit {0})
  send_reset none email settings send = pure tt
  send_reset (some user) email settings send = do
    raw ← new_raw_token
    redis_write (λ t.
        P.set t (password_reset_key (P.sha256_hex raw)) (text (P.str_uuid user.id))
          (settings.password_reset_token_expires_minutes * 60))
    send email "Reset your SmartCourse password" (append "Reset token: " raw)

  unfoldable pub forgot_password : String → SecuritySettings → Sender P → M P (Unit {0})
  forgot_password email settings send = do
    user ← get_by_email email
    send_reset user email settings send

  -- `uuid.UUID(user_id_raw)` of what GETDEL returned
  abbrev pub reset_user_id : Option Value → M P ℕ
  reset_user_id none = raise_app unauthorized "Invalid or expired reset token."
  reset_user_id (some (number _)) = raise (unexpected "ValueError")
  reset_user_id (some (text s)) = elim (P.parse_uuid s) [
    | none ↦ raise (unexpected "ValueError")
    | some i ↦ pure i
  ]

  abbrev pub set_password : Option User → String → M P (Unit {0})
  set_password none new_password = raise_app unauthorized "Invalid or expired reset token."
  set_password (some user) new_password = do
    hashed ← hash_password new_password
    t ← now
    run_sql (P.save_user (record user { hashed_password = hashed; updated_at = t }))
    revoke_active_tokens none (some user.id)

  unfoldable pub reset_password : String → String → M P (Unit {0})
  reset_password token new_password = do
    raw_id ← redis_getdel (password_reset_key (P.sha256_hex token))
    user_id ← reset_user_id raw_id
    user ← get_by_id user_id
    set_password user new_password
