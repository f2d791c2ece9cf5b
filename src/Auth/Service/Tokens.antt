-- ===== src/Auth/Service/Tokens.antt =====
-- src/modules/auth/service.py: the tokens, and what its functions share.
use Prim.Native.String.{◌++◌ as append}
use smartcourse_core.Base.{
  Bool, Option, String, [], false, is_none, none, not, some, true, ℕ, ◌&&◌, ◌*◌, ◌+◌, ◌==◌, ◌∷◌,
  nat_eq, string_eq,
}
use smartcourse_core.Platform.{Platform}
use smartcourse_core.Platform.Redis.{second}
use smartcourse_core.Config.{SecuritySettings}
use smartcourse_core.Core.Errors.{unexpected}
use smartcourse_core.Core.Security.{create_access_token}
use smartcourse_core.Users.Model.{User, role_value}
use smartcourse_core.Auth.Model.{RefreshToken}
use smartcourse_core.Effects.{
  word, M, ◌>>=◌, ◌>>◌, pure, raise, when, for_each, now, log, draw, query, run_sql, flush,
}

pub record TokenPair (P : Platform) : Type 0 where
  pub access_token : P.Token
  pub refresh_token : String
  pub token_type : String
  pub expires_in : ℕ

abbrev pub day : ℕ
day = 86400 * second

-- `NotificationSender.send(to=…, subject=…, body=…)`
abbrev pub Sender : Platform → Type 0
Sender P = String → String → String → M P (Unit {0})

-- The keys that the functions below share.
abbrev pub register_throttle_key : String → String
register_throttle_key client_ip = append "auth:register_throttle:" client_ip

abbrev pub failed_login_key : String → String
failed_login_key email = append "auth:failed_login:" email

abbrev pub password_reset_key : String → String
password_reset_key token_hash = append "auth:password_reset:" token_hash

-- `RefreshToken.family_id == family_id` or `RefreshToken.user_id == user_id`, the latter unless a
-- family is given.
abbrev pub in_scope : Option ℕ → Option ℕ → RefreshToken → Bool
in_scope (some f) user t = t.family_id == f
in_scope none (some u) t = t.user_id == u
in_scope none none t = false

-- The row after `token.revoked_at = now`, with the update time of its column.
abbrev pub revoked : ℕ → RefreshToken → RefreshToken
revoked t r = record r { revoked_at = some t; updated_at = t }

-- `(family_id is None) != (user_id is None)`
abbrev exactly_one : Option ℕ → Option ℕ → Bool
exactly_one none none = false
exactly_one none (some _) = true
exactly_one (some _) none = true
exactly_one (some _) (some _) = false

module _ {P : Platform} where
  -- `LoggingNotificationSender.send`
  abbrev pub logging_sender : Sender P
  logging_sender to subject body =
      log "notification_stub_sent" (("to", word to) ∷ ("subject", word subject) ∷ [])

  -- `_new_raw_token`
  abbrev pub new_raw_token : M P String
  new_raw_token = draw P.token_urlsafe

  -- `_token_pair`
  unfoldable pub token_pair : User → String → SecuritySettings → M P (TokenPair P)
  token_pair user refresh_raw settings = do
    access_token ← create_access_token user.id (role_value user.role) settings
    pure (record {
      access_token = access_token;
      refresh_token = refresh_raw;
      token_type = "bearer";
      expires_in = settings.access_token_expires_minutes * 60;
    })

  -- `_issue_refresh_token`
  unfoldable pub issue_refresh_token : ℕ → ℕ → SecuritySettings → M P String
  issue_refresh_token user_id family_id settings = do
    raw ← new_raw_token
    t ← now
    token_id ← draw P.uuid4
    flush (
        P.add_token (record {
          id = token_id;
          user_id = user_id;
          family_id = family_id;
          token_hash = P.sha256_hex raw;
          expires_at = t + settings.refresh_token_expires_days * day;
          revoked_at = none;
          replaced_by_id = none;
          created_at = t;
          updated_at = t;
        }))
    pure raw

  -- `_revoke_active_tokens`
  unfoldable pub revoke_active_tokens : Option ℕ → Option ℕ → M P (Unit {0})
  revoke_active_tokens family_id user_id = do
    when (not (exactly_one family_id user_id)) (raise (unexpected "AssertionError"))
    t ← now
    rows ← query (P.select_tokens (λ r. in_scope family_id user_id r && is_none r.revoked_at))
    for_each rows (λ r. run_sql (P.save_token (revoked t r)))
