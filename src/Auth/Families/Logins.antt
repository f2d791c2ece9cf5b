-- ===== src/Auth/Families/Logins.antt =====
-- `login` of src/modules/auth/service.py leaves the refresh tokens sound.
use smartcourse_core.Base.{List, Option, String, [], arith, none, refl, some, ℕ, ◌++◌, ◌+◌, ◌∷◌}
use smartcourse_core.Platform.{Platform}
use smartcourse_core.Auth.Model.{RefreshToken}
use smartcourse_core.Platform.Redis.{Value, number, text}
use smartcourse_core.Config.{SecuritySettings}
use smartcourse_core.Core.Errors.{rate_limited, unauthorized}
use smartcourse_core.Users.Model.{User}
use smartcourse_core.Users.Service.{get_by_email}
use smartcourse_core.Auth.Service.{
  TokenPair, token_pair, login, login_as, check_credentials, locked_out, password_ok, login_failed,
  failed_login_key, admitted,
}
use smartcourse_core.Auth.Issue.{issued}
use smartcourse_core.Auth.Refresh.Rotation.{new_id}
use smartcourse_core.Auth.Families.Active.{Apart, undrawn-absent}
use smartcourse_core.Auth.Families.Parts.{
  Keeps-get_by_email, Keeps-verify_password, Safe-answer, Good-stored,
}
use smartcourse_core.Auth.Families.Insert.{Kept-issue}
use smartcourse_core.Auth.Families.History.{Grown, Grown-first}
use smartcourse_core.Auth.Families.Keeps.{
  Keeps, Safe, Safe-of-Keeps, Keeps-bind, Safe-bind, Keeps-raise_if, Keeps-redis_incr_expire,
  Good-drawn,
}
use smartcourse_core.Effects.{World, ◌>>=◌, ◌>>◌, pure, redis_incr_expire, raise_app, raise_if}

module _ {P : Platform} {base : List RefreshToken} where
  Keeps-login_failed :
      (A : Type 0) (email : String) (settings : SecuritySettings)
      → Keeps {P = P} base (login_failed {A = A} email settings)
  Keeps-login_failed A email settings =
      let k = failed_login_key email in
      let seconds = settings.failed_login_lockout_seconds in
      Keeps-bind (redis_incr_expire k seconds)
        (λ n. raise_app unauthorized "Invalid email or password.")
        (Keeps-redis_incr_expire k seconds) (λ n w g. g)

  Keeps-password_ok :
      (password : String) (found : Option User) → Keeps {P = P} base (password_ok password found)
  Keeps-password_ok password none w g = g
  Keeps-password_ok password (some user) w g =
      Keeps-verify_password password user.hashed_password w g

  Keeps-locked_out : (limit : ℕ) (v : Option Value) → Keeps {P = P} base (locked_out limit v)
  Keeps-locked_out limit none w g = g
  Keeps-locked_out limit (some (number n)) w g = g
  Keeps-locked_out limit (some (text s)) w g = g

  -- `login`, from the check of the credentials on: a new family gets its first token.
  Safe-login_as :
      (found : Option User) (email : String) (settings : SecuritySettings)
      → Apart P
      → Safe {P = P} base (login_as found email settings)
  Safe-login_as none email settings apart w g =
      Safe-of-Keeps (login_failed {A = User × TokenPair P} email settings)
        (Keeps-login_failed (User × TokenPair P) email settings) w g
  Safe-login_as (some user) email settings apart w g =
      let t : World P = record w {
        conn = P.delete w.clock (failed_login_key email) w.conn;
        draws = w.draws + 1;
      } in
      let family = P.uuid4 w.draws in
      let h = Good-drawn w (w.draws + 1) (omega arith) g in
      Kept-issue (λ raw. do tokens ← token_pair user raw settings; pure (user, tokens)) user.id
        family settings t h
        (λ s' added.
          let row = issued P t user.id family settings in
          let rows = (P.view w.session).working.refresh_tokens in
          let first : Grown P base (w.draws + 1) (rows ++ row ∷ []) =
            Grown-first P (w.draws + 1) rows row h.0 (new_id row rows added.1)
              (undrawn-absent P w.draws rows apart g.0.sound.drawn) (w.draws, omega arith, refl) in
          Safe-answer user (P.token_urlsafe t.draws) settings
            (record t { session = s'; draws = t.draws + 1 + 1 })
            (Good-stored t s' (t.draws + 1 + 1) (rows ++ row ∷ []) added.2 (omega arith) first h))

  Safe-check_credentials :
      (email password : String) (settings : SecuritySettings)
      → Apart P
      → Safe {P = P} base (check_credentials email password settings)
  Safe-check_credentials email password settings apart =
      Safe-bind (get_by_email email)
        (λ user. do
          accepted ← password_ok password user
          login_as (admitted user accepted) email settings)
        (Keeps-get_by_email email)
        (λ user.
          Safe-bind (password_ok password user)
            (λ accepted. login_as (admitted user accepted) email settings)
            (Keeps-password_ok password user)
            (λ accepted. Safe-login_as (admitted user accepted) email settings apart))

  pub Safe-login :
      (email password : String) (settings : SecuritySettings)
      → Apart P
      → Safe {P = P} base (login email password settings)
  unfolding login
  Safe-login email password settings apart w =
      Safe-bind
        (locked_out settings.failed_login_max_attempts
          (P.get w.clock (failed_login_key email) w.conn))
        (λ locked. do
          raise_if locked rate_limited "Too many failed login attempts. Try again later."
          check_credentials email password settings)
        (Keeps-locked_out settings.failed_login_max_attempts
          (P.get w.clock (failed_login_key email) w.conn))
        (λ locked.
          Safe-bind
            (raise_if locked rate_limited "Too many failed login attempts. Try again later.")
            (λ _. check_credentials email password settings)
            (Keeps-raise_if locked rate_limited "Too many failed login attempts. Try again later.")
            (λ _. Safe-check_credentials email password settings apart))
        w
