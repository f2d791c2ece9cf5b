-- ===== src/Auth/Reopening.antt =====
-- The lockout of `login` ends: its counter is kept for a window of time only.
use smartcourse_core.Base.{
  ==-refl, All, Bool, List, Option, String, [], arith, false, inl, inr, leb, le→leb, lt-or-≤, none,
  refl, some, suc, true, ℕ, ◌*◌, ◌+◌, ◌∙◌, ◌∷◌, ◌≡◌, ◌≤◌,
}
use smartcourse_core.Platform.{Platform}
use smartcourse_core.Platform.Redis.{Entry, second, live}
use smartcourse_core.Platform.Crypto.{rsa, matches, mismatch}
use smartcourse_core.Config.{SecuritySettings}
use smartcourse_core.Users.Model.{User}
use smartcourse_core.Users.Lookups.{users_with}
use smartcourse_core.Auth.Service.{failed_login_key, login}
use smartcourse_core.Auth.Login.{failures, wrong_password, login_locked, failed_login_counts}
use smartcourse_core.Auth.Lockout.{try_all, counted_again, count-value}
use smartcourse_core.Auth.Refresh.Rotation.{IsNew}
use smartcourse_core.Auth.Success.{first_row, first_pair, login_succeeds}
use smartcourse_core.Effects.{World, ok}

-- Whether an entry is gone at a time, at the latest.
abbrev pub lapses_by : ℕ → Option Entry → Bool
lapses_by t none = true
lapses_by t (some e) = elim e.deadline [ none ↦ false | some d ↦ leb d t ]

lapsed : (t now : ℕ) (o : Option Entry) → lapses_by t o ≡ true → t ≤ now → live now o ≡ none
lapsed t now none h later = refl
lapsed t now (some e) h later = ground arith

abbrev pub lockout_window : SecuritySettings → ℕ
lockout_window settings = settings.failed_login_lockout_seconds * second

module _ {P : Platform} (email : String) (settings : SecuritySettings) (user : User) where
  -- The counter of the address is a number, and it lapses within the window.
  abbrev Passing : World P → Type 0
  Passing w =
      ((n : ℕ) × (failures email "" w ≡ some n))
      × (lapses_by (w.clock + lockout_window settings) (P.entry w.conn (failed_login_key email))
          ≡ true)
      × (users_with P email w ≡ user ∷ [])

  guess-Passing :
      (guess : String) (w : World P)
      → Passing w
      → 1 ≤ settings.failed_login_max_attempts
      → 1 ≤ settings.failed_login_lockout_seconds
      → P.verify user.hashed_password guess ≡ mismatch
      → Passing (login email guess settings w).1
        × ((login email guess settings w).1.clock ≡ w.clock)
  guess-Passing guess w ((n, counted), ends, one) some_limit long wrong =
      elim (lt-or-≤ n settings.failed_login_max_attempts) [
        | inl few ↦
            let (again, same) =
              counted_again email settings user n guess w counted few long one wrong in
            let (refused, session, clock, keys) =
              failed_login_counts email guess settings w n counted few
                (wrong_password user one wrong) in
            (
              (
                (suc n, again),
                rw (clock, keys (failed_login_key email), ==-refl (failed_login_key email))
                    (le→leb (w.clock + lockout_window settings) (w.clock + lockout_window settings)
                      (omega arith)),
                same,
              ),
              clock,
            )
        | inr full ↦
            let there =
              count-value n (live w.clock (P.entry w.conn (failed_login_key email))) counted
                (omega arith) in
            rw (login_locked email guess settings w n there full) (((n, counted), ends, one), refl)
      ]

  guesses-Passing :
      (guesses : List String) (w : World P)
      → Passing w
      → 1 ≤ settings.failed_login_max_attempts
      → 1 ≤ settings.failed_login_lockout_seconds
      → All (λ p. P.verify user.hashed_password p ≡ mismatch) guesses
      → Passing (try_all email settings user guesses w)
        × ((try_all email settings user guesses w).clock ≡ w.clock)
  guesses-Passing [] w passing some_limit long wrong = (passing, refl)
  guesses-Passing (g ∷ gs) w passing some_limit long (wrong_g, wrong) =
      let (next, clock) = guess-Passing g w passing some_limit long wrong_g in
      let (last, last_clock) =
        guesses-Passing gs (login email g settings w).1 next some_limit long wrong in
      (last, last_clock ∙ clock)

  -- However many wrong passwords came in, and whether they locked the address or not: once the
  -- window of the lockout has passed since the last of them, the right password of the active
  -- account is accepted, provided that the key loads and the new row is new.
  pub lockout_ends :
      (guesses : List String) (n wait : ℕ) (password : String) (w : World P) (k : P.Private)
      → failures email "" w ≡ some n
      → lapses_by (w.clock + lockout_window settings) (P.entry w.conn (failed_login_key email))
        ≡ true
      → 1 ≤ settings.failed_login_max_attempts
      → 1 ≤ settings.failed_login_lockout_seconds
      → lockout_window settings ≤ wait
      → users_with P email w ≡ user ∷ []
      → user.is_active ≡ true
      → All (λ p. P.verify user.hashed_password p ≡ mismatch) guesses
      → P.verify user.hashed_password password ≡ matches
      → P.private_pem settings.jwt_private_key_path ≡ rsa k
      → let tried = try_all email settings user guesses w in
        let v : World P = record tried { clock = tried.clock + wait } in
        IsNew (first_row email password settings v user k) (P.view v.session).working
        → (login email password settings v).0
          ≡ ok (user, first_pair email password settings v user k)
  lockout_ends guesses n wait password w k counted ends some_limit long passed one active wrong
        right key new =
      let tried = try_all email settings user guesses w in
      let v : World P = record tried { clock = tried.clock + wait } in
      let ((counted_last, ends_last, one_last), clock) =
        guesses-Passing guesses w ((n, counted), ends, one) some_limit long wrong in
      let gone : live v.clock (P.entry v.conn (failed_login_key email)) ≡ none =
        lapsed (tried.clock + lockout_window settings) v.clock
          (P.entry tried.conn (failed_login_key email)) ends_last (omega arith) in
      let none_counted : failures email password v ≡ some 0 = rw gone refl in
      (login_succeeds email password settings v user k 0 none_counted some_limit one_last active
        right key new).0
