-- ===== src/Auth/Login.antt =====
-- `login` of src/modules/auth/service.py: the lockout and its counter.
use smartcourse_core.Base.{
  ==-refl, Bool, Option, String, [], arith, false, if◌then◌else◌, leb, le→leb, none, refl, some,
  suc, true, ℕ, ◌*◌, ◌+◌, ◌<◌, ◌==◌, ◌∙◌, ◌∷◌, ◌≡◌, ◌≤◌, nat_eq, string_eq,
}
use smartcourse_core.Platform.{Platform}
use smartcourse_core.Platform.Redis.{
  Value, number, text, Entry, second, live, value_of, count_of, deadline_of, expiring,
}
use smartcourse_core.Platform.Crypto.{matches, mismatch}
use smartcourse_core.Config.{SecuritySettings}
use smartcourse_core.Core.Errors.{Exception, app, init_error, rate_limited, unauthorized}
use smartcourse_core.Core.Security.{verify_password}
use smartcourse_core.Users.Model.{User}
use smartcourse_core.Users.Lookups.{users_with, get_by_email-none, get_by_email-some}
use smartcourse_core.Auth.Service.{
  TokenPair, admitted, failed_login_key, locked_out, check_credentials, login_failed, login,
}
use smartcourse_core.Effects.{World, ok, err, raise_if, bind-ok, ◌>>=◌, ◌>>◌}

abbrev pub locked_error : Exception
locked_error =
    app (init_error rate_limited (some "Too many failed login attempts. Try again later.") none)

abbrev pub invalid_login : Exception
invalid_login = app (init_error unauthorized (some "Invalid email or password.") none)

module _ {P : Platform} (email password : String) (w : World P) where
  -- The failed logins that the running window counts.
  abbrev pub failures : Option ℕ
  failures = count_of (live w.clock (P.entry w.conn (failed_login_key email)))

-- The entry that INCR leaves is live, so that EXPIRE finds it.
expiring_counted :
    (d t : ℕ) (v : Value) (o : Option Entry)
    → expiring d (live t (some (record { value = v; deadline = deadline_of (live t o) })))
      ≡ some (record { value = v; deadline = some d })
expiring_counted d t v none = refl
expiring_counted d t v (some e) = ground arith

nested_if :
    {A : Type 0} (b : Bool) (x y z : A)
    → (if b then x else (if b then y else z)) ≡ (if b then x else z)
nested_if true x y z = refl
nested_if false x y z = refl

-- The reasons for which a login is refused.
pub data Refused {P : Platform} (email password : String) (w : World P) : Type 0 where
  unknown : users_with P email w ≡ [] → Refused email password w
  wrong_password :
      (user : User)
      → users_with P email w ≡ user ∷ []
      → P.verify user.hashed_password password ≡ mismatch
      → Refused email password w
  inactive :
      (user : User)
      → users_with P email w ≡ user ∷ []
      → user.is_active ≡ false
      → P.verify user.hashed_password password ≡ matches
      → Refused email password w

admitted-wrong : (user : User) → admitted (some user) false ≡ none
admitted-wrong user = ground arith

admitted-inactive : (user : User) → user.is_active ≡ false → admitted (some user) true ≡ none
admitted-inactive user h = ground arith

module _ {P : Platform} (email password : String) (settings : SecuritySettings) (w : World P) where
  -- An address with as many counted failures as the limit, or more, is refused whatever the
  -- password is, and nothing changes.
  pub login_locked :
      (n : ℕ)
      → value_of (live w.clock (P.entry w.conn (failed_login_key email))) ≡ some (number n)
      → settings.failed_login_max_attempts ≤ n
      → login email password settings w ≡ (err locked_error, w)
  unfolding login
  login_locked n counted many =
      let full = le→leb settings.failed_login_max_attempts n many in
      simp (P.get_lem, counted, full, ◌>>=◌)

  locked_out-value :
      (n : ℕ) (v : Value)
      → count_of (some (record { value = v; deadline = none })) ≡ some n
      → n < settings.failed_login_max_attempts
      → locked_out {P = P} settings.failed_login_max_attempts (some v) w ≡ (ok false, w)
  locked_out-value n (number m) counted few =
      let room : leb settings.failed_login_max_attempts m ≡ false = ground arith in rw room
  locked_out-value n (text s) counted few = cc

  locked_out-entry :
      (n : ℕ) (o : Option Entry)
      → count_of o ≡ some n
      → n < settings.failed_login_max_attempts
      → locked_out {P = P} settings.failed_login_max_attempts (value_of o) w ≡ (ok false, w)
  locked_out-entry n none counted few = refl
  locked_out-entry n (some e) counted few = locked_out-value n e.value counted few

  -- While the count is below the limit, the credentials are checked.
  pub login_open :
      (n : ℕ)
      → failures email password w ≡ some n
      → n < settings.failed_login_max_attempts
      → login email password settings w ≡ check_credentials email password settings w
  unfolding login
  login_open n counted few =
      let passes =
        locked_out-entry n (live w.clock (P.entry w.conn (failed_login_key email))) counted few in
      rw P.get_lem (
        bind-ok
          (locked_out settings.failed_login_max_attempts
            (value_of (live w.clock (P.entry w.conn (failed_login_key email)))))
          (λ locked. do
            raise_if locked rate_limited "Too many failed login attempts. Try again later."
            check_credentials email password settings)
          w passes)

  check_credentials-Refused :
      Refused email password w
      → check_credentials email password settings w ≡ login_failed email settings w
  unfolding verify_password
  check_credentials-Refused (unknown missing) =
      let got = get_by_email-none w email missing in rw (check_credentials, ◌>>=◌, got) (rw got)
  check_credentials-Refused (wrong_password user there wrong) =
      let got = get_by_email-some w email user there in
      rw (check_credentials, ◌>>=◌, got, wrong, admitted-wrong) (simp (got, wrong))
  check_credentials-Refused (inactive user there off right) =
      let got = get_by_email-some w email user there in
      rw (check_credentials, ◌>>=◌, got, right, admitted-inactive user off) (simp (got, right))

  login_failed_lem :
      {n : ℕ} {c : P.Conn}
      → P.incr w.clock (failed_login_key email) w.conn ≡ some (n, c)
      → login_failed {P = P} {A = User × TokenPair P} email settings w ≡ (
        err invalid_login,
        record w {
          conn = P.expire w.clock (failed_login_key email) settings.failed_login_lockout_seconds c;
        },
      )
  login_failed_lem incremented = simp (incremented, ◌>>=◌, ◌>>◌)

  -- A refused login counts as one more failure, and starts the window of the lockout anew.
  pub failed_login_counts :
      (n : ℕ)
      → failures email password w ≡ some n
      → n < settings.failed_login_max_attempts
      → Refused email password w
      → let (r, w') = login email password settings w in
        (r ≡ err invalid_login)
        × (w'.session ≡ w.session)
        × (w'.clock ≡ w.clock)
        × ((key : String)
            → P.entry w'.conn key ≡ (
                if failed_login_key email == key
                then some (record {
                  value = number (suc n);
                  deadline = some (w.clock + settings.failed_login_lockout_seconds * second);
                })
                else P.entry w.conn key))
  failed_login_counts n counted few refused =
      let (c, incremented, entries) =
        P.incr_lem w.clock (failed_login_key email) w.conn n counted in
      let own_entry = entries (failed_login_key email) in
      rw
        (login_open n counted few
          ∙ check_credentials-Refused refused
          ∙ login_failed_lem incremented)
        (
          refl,
          refl,
          refl,
          λ key.
              rw
                (P.entry-expire w.clock (failed_login_key email)
                  settings.failed_login_lockout_seconds c key)
                (rw (entries key, own_entry, ==-refl (failed_login_key email))
                  (rw (expiring_counted, nested_if) refl)),
        )
