-- ===== src/Auth/Registration.antt =====
-- `register` of src/modules/auth/service.py, with its throttle.
use Prim.Native.String.{◌++◌ as append}
use smartcourse_core.Base.{
  Bool, Option, String, [], any, arith, false, if◌then◌else◌, inl, inr, is_none, leb, le→leb,
  lt-or-≤, ltb, none, not, refl, some, suc, true, ℕ, ◌++◌, ◌+◌, ◌<◌, ◌==◌, ◌||◌, ◌∙◌, ◌∷◌, ◌≡◌, ◌≤◌,
  ◌⊎◌, nat_eq, string_eq,
}
use smartcourse_core.Platform.{Platform}
use smartcourse_core.Platform.Redis.{live, count_of}
use smartcourse_core.Platform.Orm.{insert_user}
use smartcourse_core.Platform.Crypto.{matches}
use smartcourse_core.Config.{SecuritySettings}
use smartcourse_core.Core.Errors.{Exception, app, init_error, rate_limited, conflict}
use smartcourse_core.Core.Security.{hash_password}
use smartcourse_core.Users.Model.{User, UserRole}
use smartcourse_core.Users.Service.{get_by_email, create_user}
use smartcourse_core.Users.Lookups.{users_with, get_by_email-none, get_by_email-some}
use smartcourse_core.Auth.Service.{register_throttle_key, register, logging_sender}
use smartcourse_core.Auth.Issue.{map-eq-some}
use smartcourse_core.Effects.{
  World, M, ok, err, when, raise_if, redis_incr, redis_write, pure, bind-ok, ◌>>=◌, ◌>>◌,
}

abbrev pub throttled_error : Exception
throttled_error =
    app (init_error rate_limited (some "Too many registration attempts from this address.") none)

abbrev pub conflict_error : Exception
conflict_error = app (init_error conflict (some "An account with this email already exists.") none)

module _ {P : Platform} (email password full_name : String) (role : UserRole) (client_ip : String)
    (settings : SecuritySettings) (w : World P) (n : ℕ) where
  -- The attempts of the address that are counted.
  abbrev pub attempts : Option ℕ
  attempts = count_of (live w.clock (P.entry w.conn (register_throttle_key client_ip)))

  -- The world after the throttle has counted.
  abbrev counted_world : P.Conn → World P
  counted_world c = record w {
    conn = if suc n == 1 then P.expire w.clock (register_throttle_key client_ip) 3600 c else c;
  }

  -- The account that is made, with the next draws for its salt and its id.
  abbrev pub new_user : User
  new_user = record {
    id = P.uuid4 (w.draws + 1);
    email = email;
    hashed_password = P.hash w.draws password;
    full_name = full_name;
    role = role;
    is_active = true;
    created_at = w.clock;
    updated_at = w.clock;
  }

  stepped :
      (b : Bool) (c : P.Conn)
      → when {P = P} b
          (redis_write (λ t. P.expire t (register_throttle_key client_ip) 3600))
          (record w { conn = c })
        ≡ (
          ok tt,
          record w {
            conn = if b then P.expire w.clock (register_throttle_key client_ip) 3600 c else c;
          },
        )
  stepped true c = refl
  stepped false c = refl

  -- `register` from the creation of the account, from the check of its address, and from that of
  -- the throttle on.
  abbrev create_account : M P User
  create_account = do
    hashed ← hash_password password
    user ← create_user email hashed full_name role
    logging_sender email "Welcome to SmartCourse" (append (append "Welcome, " full_name) "!")
    pure user

  abbrev check_address : Option User → M P User
  check_address existing = do
    raise_if (not (is_none existing)) conflict "An account with this email already exists."
    create_account

  abbrev check_limit : ℕ → M P User
  check_limit made = do
    raise_if (ltb settings.register_throttle_per_hour made) rate_limited
        "Too many registration attempts from this address."
    existing ← get_by_email email
    check_address existing

  create_account-some :
      (v : World P) (s' : P.Session)
      → let user : User = record {
        id = P.uuid4 (v.draws + 1);
        email = email;
        hashed_password = P.hash v.draws password;
        full_name = full_name;
        role = role;
        is_active = true;
        created_at = v.clock;
        updated_at = v.clock;
      } in
        P.add_user user v.session ≡ some s'
        → ((create_account v).0 ≡ ok user)
          × ((create_account v).1.session ≡ s')
          × ((create_account v).1.clock ≡ v.clock)
          × ((create_account v).1.conn ≡ v.conn)
  unfolding hash_password create_user
  create_account-some v s' added = simp (added, ◌>>=◌, ◌>>◌) (refl, refl, refl, refl)

  -- What the throttle leaves of the other keys.
  counted_keys :
      (b : Bool) (c : P.Conn) (key : String)
      → (register_throttle_key client_ip == key) ≡ false
      → P.entry (if b then P.expire w.clock (register_throttle_key client_ip) 3600 c else c) key
        ≡ P.entry c key
  counted_keys true c key other =
      P.entry-expire w.clock (register_throttle_key client_ip) 3600 c key ∙ rw other refl
  counted_keys false c key other = refl

  register-counted :
      attempts ≡ some n
      → (c : P.Conn) × (register email password full_name role client_ip settings logging_sender w
          ≡ check_limit (suc n) (counted_world c))
        × ((key : String)
            → (register_throttle_key client_ip == key) ≡ false
            → P.entry (counted_world c).conn key ≡ P.entry w.conn key)
  unfolding register
  register-counted counted =
      let (c, incremented, entries) =
        P.incr_lem w.clock (register_throttle_key client_ip) w.conn n counted in
      let step : redis_incr {P = P} (register_throttle_key client_ip) w
          ≡ (ok (suc n), record w { conn = c }) =
        simp (incremented, redis_incr) in
      (
        c,
        bind-ok {A = ℕ} (redis_incr (register_throttle_key client_ip))
              (λ made. do
                when (made == 1)
                    (redis_write (λ t. P.expire t (register_throttle_key client_ip) 3600))
                check_limit made)
              w step
            ∙ bind-ok
                (when (suc n == 1)
                  (redis_write (λ t. P.expire t (register_throttle_key client_ip) 3600)))
                (λ _. check_limit (suc n)) (record w { conn = c }) (stepped (suc n == 1) c),
        λ key other. counted_keys (suc n == 1) c key other ∙ entries key ∙ rw other refl,
      )

  -- An address that has used up its attempts of the hour is refused before the database is read.
  register_throttled :
      attempts ≡ some n
      → settings.register_throttle_per_hour ≤ n
      → ((register email password full_name role client_ip settings logging_sender w).0
          ≡ err throttled_error)
        × ((register email password full_name role client_ip settings logging_sender w).1.session
            ≡ w.session)
  register_throttled counted many =
      let (c, reached, _) = register-counted counted in
      let over : ltb settings.register_throttle_per_hour (suc n) ≡ true = ground arith in
      rw (reached, over) (refl, refl)

  -- An e-mail address that is taken is refused, and the database is left alone.
  register_conflict :
      (user : User)
      → attempts ≡ some n
      → n < settings.register_throttle_per_hour
      → users_with P email w ≡ user ∷ []
      → ((register email password full_name role client_ip settings logging_sender w).0
          ≡ err conflict_error)
        × ((register email password full_name role client_ip settings logging_sender w).1.session
            ≡ w.session)
  register_conflict user counted few taken =
      let (c, reached, _) = register-counted counted in
      let under : ltb settings.register_throttle_per_hour (suc n) ≡ false = ground arith in
      let done =
        bind-ok (get_by_email email) check_address (counted_world c)
          (get_by_email-some (counted_world c) email user taken) in
      rw (reached, under) (rw done (refl, refl))

  -- A client that has used up its attempts of the hour is refused, whatever the address, and so is,
  -- with another error, an address that has an account. The database is left alone.
  pub register_refused :
      (user : User)
      → attempts ≡ some n
      → (settings.register_throttle_per_hour ≤ n) ⊎ (users_with P email w ≡ user ∷ [])
      → let (r, v) = register email password full_name role client_ip settings logging_sender w in
        (r
          ≡ err (
              if leb settings.register_throttle_per_hour n
              then throttled_error
              else conflict_error))
        × (v.session ≡ w.session)
  register_refused user counted why = elim (lt-or-≤ n settings.register_throttle_per_hour) [
    | inr many ↦
        let full = le→leb settings.register_throttle_per_hour n many in
        rw full (register_throttled counted many)
    | inl few ↦
        let room : leb settings.register_throttle_per_hour n ≡ false = ground arith in
        elim why [
          | inl many ↦ absurd (omega arith)
          | inr taken ↦ rw room (register_conflict user counted few taken)
        ]
  ]

  -- The registration of a new address, with what it leaves of the clock and of the other keys.
  pub register_made :
      attempts ≡ some n
      → n < settings.register_throttle_per_hour
      → users_with P email w ≡ []
      → any (λ v. v.id == new_user.id || v.email == email) (P.view w.session).working.users ≡ false
      → let (r, v) = register email password full_name role client_ip settings logging_sender w in
        (r ≡ ok new_user)
        × (P.view v.session ≡ record (P.view w.session) {
          working = record (P.view w.session).working {
            users = (P.view w.session).working.users ++ new_user ∷ [];
          };
        })
        × (v.clock ≡ w.clock)
        × ((key : String)
            → (register_throttle_key client_ip == key) ≡ false
            → P.entry v.conn key ≡ P.entry w.conn key)
  register_made counted few free new =
      let (c, reached, keys) = register-counted counted in
      let under : ltb settings.register_throttle_per_hour (suc n) ≡ false = ground arith in
      let db = (P.view w.session).working in
      let inserted : insert_user new_user db
          ≡ some (record db { users = db.users ++ new_user ∷ [] }) =
        rw new in
      let (s', added, seen) =
        map-eq-some P.view (P.add_user new_user w.session)
          {b = record (P.view w.session) {
            working = record db { users = db.users ++ new_user ∷ [] };
          }}
          (P.add_user_lem new_user w.session ∙ rw inserted refl) in
      let (made, session, clock, conn) = create_account-some (counted_world c) s' added in
      let done =
        bind-ok (get_by_email email) check_address (counted_world c)
          (get_by_email-none (counted_world c) email free) in
      rw (reached, under)
        (rw done (made, rw (session, seen) refl, clock, λ key other. rw conn (keys key other)))

  -- A new address gets one new account, which is active and has the role that was asked for; its
  -- password is stored as a hash that verifies.
  pub register_creates :
      attempts ≡ some n
      → n < settings.register_throttle_per_hour
      → users_with P email w ≡ []
      → any (λ v. v.id == new_user.id || v.email == email) (P.view w.session).working.users ≡ false
      → ((register email password full_name role client_ip settings logging_sender w).0
          ≡ ok new_user)
        × (P.view
              (register email password full_name role client_ip settings logging_sender w).1.session
            ≡ record (P.view w.session) {
              working = record (P.view w.session).working {
                users = (P.view w.session).working.users ++ new_user ∷ [];
              };
            })
        × (P.verify new_user.hashed_password password ≡ matches)
  register_creates counted few free new =
      let (made, seen, _, _) = register_made counted few free new in
      (made, seen, P.verify-hash w.draws password)
