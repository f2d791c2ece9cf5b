-- ===== src/Auth/Service/Sessions.antt =====
-- src/modules/auth/service.py: `login`, `refresh_tokens` and `logout`.
use smartcourse_core.Base.{
  Bool, Option, String, [], false, if◌then◌else◌, is_none, leb, ltb, max, none, not, some, ℕ, ◌-◌,
  ◌/◌, ◌==◌, ◌||◌, ◌∷◌, nat_eq, string_eq,
}
use smartcourse_core.Platform.{Platform}
use smartcourse_core.Platform.Redis.{Value, number, text, second}
use smartcourse_core.Config.{SecuritySettings}
use smartcourse_core.Core.Errors.{unexpected, unauthorized, rate_limited}
use smartcourse_core.Core.Security.{access_token_denylist_key, verify_password}
use smartcourse_core.Users.Model.{User}
use smartcourse_core.Users.Service.{get_by_email, get_by_id}
use smartcourse_core.Auth.Model.{RefreshToken}
use smartcourse_core.Effects.{
  word, M, ◌>>=◌, ◌>>◌, pure, raise, raise_app, raise_if, now, log, draw, query, run_sql,
  scalar_one_or_none, redis_read, redis_write, redis_incr_expire,
}
use smartcourse_core.Auth.Service.Tokens.{
  TokenPair, failed_login_key, revoked, token_pair, issue_refresh_token, revoke_active_tokens,
}

-- The user that passes `user is None or not user.is_active or not password_ok`.
abbrev pub admitted : Option User → Bool → Option User
admitted none accepted = none
admitted (some user) accepted = if not user.is_active || not accepted then none else some user

module _ {P : Platform} where
  -- `failures is not None and int(failures) >= limit`
  abbrev pub locked_out : ℕ → Option Value → M P Bool
  locked_out limit none = pure false
  locked_out limit (some (number n)) = pure (leb limit n)
  locked_out limit (some (text _)) = raise (unexpected "ValueError")

  -- `user is not None and verify_password(…)`
  abbrev pub password_ok : String → Option User → M P Bool
  password_ok password none = pure false
  password_ok password (some user) = verify_password password user.hashed_password

  -- The pipeline of a failed login, and the error that it ends in.
  abbrev pub login_failed : {A : Type 0} → String → SecuritySettings → M P A
  login_failed email settings = do
    redis_incr_expire (failed_login_key email) settings.failed_login_lockout_seconds
    raise_app unauthorized "Invalid email or password."

  abbrev pub login_as : Option User → String → SecuritySettings → M P (User × TokenPair P)
  login_as none email settings = login_failed email settings
  login_as (some user) email settings = do
    redis_write (λ t. P.delete t (failed_login_key email))
    family_id ← draw P.uuid4
    refresh_raw ← issue_refresh_token user.id family_id settings
    tokens ← token_pair user refresh_raw settings
    pure (user, tokens)

  abbrev pub check_credentials : String → String → SecuritySettings → M P (User × TokenPair P)
  check_credentials email password settings = do
    user ← get_by_email email
    accepted ← password_ok password user
    login_as (admitted user accepted) email settings

  unfoldable pub login : String → String → SecuritySettings → M P (User × TokenPair P)
  login email password settings = do
    failures ← redis_read (λ t. P.get t (failed_login_key email))
    locked ← locked_out settings.failed_login_max_attempts failures
    raise_if locked rate_limited "Too many failed login attempts. Try again later."
    check_credentials email password settings

  -- The user of a refresh: `user is None or not user.is_active` is refused.
  abbrev pub available : Option User → M P User
  available none = raise_app unauthorized "Account is not available."
  available (some user) =
      if user.is_active then pure user else raise_app unauthorized "Account is not available."

  -- A token that was revoked before: its family is revoked and committed.
  abbrev pub reuse_detected : {A : Type 0} → RefreshToken → M P A
  reuse_detected row = do
    revoke_active_tokens (some row.family_id) none
    run_sql P.commit
    log "refresh_token_reuse_detected" (
        ("family_id", word (P.str_uuid row.family_id))
        ∷ ("user_id", word (P.str_uuid row.user_id))
        ∷ [])
    raise_app unauthorized "Refresh token has been revoked."

  abbrev pub rotate : RefreshToken → SecuritySettings → M P (User × TokenPair P)
  rotate row settings = do
    t ← now
    raise_if (ltb row.expires_at t) unauthorized "Refresh token has expired."
    found ← get_by_id row.user_id
    user ← available found
    new_raw ← issue_refresh_token user.id row.family_id settings
    run_sql (P.save_token (revoked t row))
    tokens ← token_pair user new_raw settings
    pure (user, tokens)

  abbrev pub refresh_row : Option RefreshToken → SecuritySettings → M P (User × TokenPair P)
  refresh_row none settings = raise_app unauthorized "Invalid refresh token."
  refresh_row (some row) settings =
      if is_none row.revoked_at then rotate row settings else reuse_detected row

  unfoldable pub refresh_tokens : String → SecuritySettings → M P (User × TokenPair P)
  refresh_tokens raw_refresh_token settings = do
    rows ← query (P.select_tokens (λ r. r.token_hash == P.sha256_hex raw_refresh_token))
    found ← scalar_one_or_none rows
    refresh_row found settings

  abbrev pub revoke_family_of : Option RefreshToken → M P (Unit {0})
  revoke_family_of none = pure tt
  revoke_family_of (some row) = revoke_active_tokens (some row.family_id) none

  -- `max(exp - now, 1)`: where `exp` has passed, the difference of ℕ is 0 and the maximum is 1.
  unfoldable pub logout : String → String → ℕ → M P (Unit {0})
  logout raw_refresh_token access_token_jti access_token_expires_at = do
    rows ← query (P.select_tokens (λ r. r.token_hash == P.sha256_hex raw_refresh_token))
    found ← scalar_one_or_none rows
    revoke_family_of found
    t ← now
    let ttl_seconds = max (access_token_expires_at - t / second) 1
    redis_write (λ t. P.set t (access_token_denylist_key access_token_jti) (text "1") ttl_seconds)
