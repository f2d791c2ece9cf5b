-- ===== src/Auth/Lockout.antt =====
-- A series of failed logins of one address, and the lockout that it ends in.
use smartcourse_core.Base.{
  ==-refl, All, List, Option, String, [], ap, arith, inl, inr, length, lt-or-≤, ltb, lt→ltb, none,
  refl, some, suc, true, ℕ, ◌*◌, ◌+◌, ◌<◌, ◌∷◌, ◌≡◌, ◌≤◌,
}
use smartcourse_core.Platform.{Platform}
use smartcourse_core.Platform.Redis.{Value, number, text, Entry, second, live, value_of, count_of}
use smartcourse_core.Platform.Crypto.{mismatch}
use smartcourse_core.Config.{SecuritySettings}
use smartcourse_core.Users.Model.{User}
use smartcourse_core.Users.Lookups.{users_with}
use smartcourse_core.Auth.Service.{failed_login_key, login}
use smartcourse_core.Auth.Login.{
  locked_error, failures, wrong_password, login_locked, failed_login_counts,
}
use smartcourse_core.Effects.{World, err}

value_counted :
    (n : ℕ) (v : Value)
    → count_of (some (record { value = v; deadline = none })) ≡ some n
    → some v ≡ some (number n)
value_counted n (number m) h =
    ap (λ o. elim o [ none ↦ some (number m) | some j ↦ some (number j) ]) h
value_counted n (text s) h = cc

-- A count that is not 0 is a number that is there.
pub count-value :
    (n : ℕ) (o : Option Entry) → count_of o ≡ some n → 1 ≤ n → value_of o ≡ some (number n)
count-value n none h few = ground arith
count-value n (some e) h few = value_counted n e.value h

module _ {P : Platform} (email : String) (settings : SecuritySettings) (user : User) where
  -- The world after a login with each of the passwords, one after the other.
  abbrev pub try_all : List String → World P → World P
  try_all [] w = w
  try_all (p ∷ ps) w = try_all ps (login email p settings w).1

  -- A wrong password counts.
  pub counted_again :
      (n : ℕ) (guess : String) (w : World P)
      → failures email guess w ≡ some n
      → n < settings.failed_login_max_attempts
      → 1 ≤ settings.failed_login_lockout_seconds
      → users_with P email w ≡ user ∷ []
      → P.verify user.hashed_password guess ≡ mismatch
      → (failures email guess (login email guess settings w).1 ≡ some (suc n))
        × (users_with P email (login email guess settings w).1 ≡ user ∷ [])
  counted_again n guess w counted few long one wrong =
      let (refused, session, clock, keys) =
        failed_login_counts email guess settings w n counted few (wrong_password user one wrong) in
      let alive : ltb w.clock (w.clock + settings.failed_login_lockout_seconds * second) ≡ true =
        lt→ltb w.clock (w.clock + settings.failed_login_lockout_seconds * second) (omega arith) in
      (
        rw (clock, keys (failed_login_key email), ==-refl (failed_login_key email), alive) refl,
        rw session one,
      )

  -- After as many wrong passwords as the limit, at one time and however many were counted before,
  -- no password is accepted, the right one included.
  pub guesses_lock :
      (guesses : List String) (n : ℕ) (password : String) (w : World P)
      → failures email password w ≡ some n
      → 1 ≤ settings.failed_login_max_attempts
      → settings.failed_login_max_attempts ≤ n + length guesses
      → 1 ≤ settings.failed_login_lockout_seconds
      → users_with P email w ≡ user ∷ []
      → All (λ p. P.verify user.hashed_password p ≡ mismatch) guesses
      → (login email password settings (try_all guesses w)).0 ≡ err locked_error
  guesses_lock [] n password w counted some_limit enough long one wrong =
      let there =
        count-value n (live w.clock (P.entry w.conn (failed_login_key email))) counted
          (omega arith) in
      ap (λ r. r.0) (login_locked email password settings w n there (omega arith))
  guesses_lock (g ∷ gs) n password w counted some_limit enough long one (wrong_g, wrong) =
      elim (lt-or-≤ n settings.failed_login_max_attempts) [
        | inl few ↦
            let (again, same) = counted_again n g w counted few long one wrong_g in
            guesses_lock gs (suc n) password (login email g settings w).1 again some_limit
              (omega arith) long same wrong
        | inr full ↦
            let there =
              count-value n (live w.clock (P.entry w.conn (failed_login_key email))) counted
                (omega arith) in
            let still = login_locked email g settings w n there full in
            rw still (guesses_lock gs n password w counted some_limit (omega arith) long one wrong)
      ]
