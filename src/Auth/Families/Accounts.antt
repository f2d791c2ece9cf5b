-- ===== src/Auth/Families/Accounts.antt =====
-- `register`, `forgot_password` and `reset_password` of src/modules/auth/service.py leave the
-- refresh tokens sound.
use smartcourse_core.Base.{
  Bool-cases, List, Option, Option-cases, String, [], any, arith, inl, inr, is_none, ltb, none, not,
  some, true, ℕ, ◌*◌, ◌++◌, ◌+◌, ◌==◌, ◌||◌, ◌∙◌, ◌∷◌, nat_eq, string_eq,
}
use smartcourse_core.Platform.{Platform}
use smartcourse_core.Auth.Model.{RefreshToken}
use smartcourse_core.Platform.Redis.{Value, number, text}
use smartcourse_core.Config.{SecuritySettings}
use smartcourse_core.Core.Errors.{rate_limited, conflict}
use smartcourse_core.Core.Security.{hash_password}
use smartcourse_core.Users.Model.{User, UserRole}
use smartcourse_core.Users.Service.{create_user, get_by_email, get_by_id}
use smartcourse_core.Auth.Service.{
  Sender, register, forgot_password, reset_password, reset_user_id, set_password, send_reset,
  register_throttle_key, password_reset_key, revoke_active_tokens,
}
use smartcourse_core.Auth.Families.Parts.{Keeps-get_by_email, Keeps-get_by_id, Keeps-revoke_user}
use smartcourse_core.Auth.Families.Keeps.{
  Keeps, Keeps-bind, Keeps-draw, Keeps-when, Keeps-raise_if, Keeps-redis_incr, Keeps-returned,
  Keeps-save_user, Good-drawn,
}
use Prim.Native.String.{◌++◌ as append}
use smartcourse_core.Auth.Issue.{map-eq-some}
use smartcourse_core.Auth.Families.Insert.{map-eq-none}
use smartcourse_core.Effects.{
  M, ◌>>=◌, ◌>>◌, pure, redis_incr, redis_write, redis_getdel, raise_if, run_sql, now, when, flush,
}

module _ {P : Platform} {base : List RefreshToken} where
  pub Keeps-hash_password : (password : String) → Keeps {P = P} base (hash_password password)
  unfolding hash_password
  Keeps-hash_password password = Keeps-draw (λ salt. P.hash salt password)

  Keeps-add_user : (user : User) → Keeps {P = P} base (flush {P = P} (P.add_user user))
  Keeps-add_user user w g =
      let db = (P.view w.session).working in
      elim (Bool-cases (any (λ v. v.id == user.id || v.email == user.email) db.users)) [
        | inl h ↦
            let refused =
              map-eq-none P.view (P.add_user user w.session)
                (P.add_user_lem user w.session ∙ rw h) in
            rw refused g
        | inr h ↦
            let (s', added, seen) =
              map-eq-some P.view (P.add_user user w.session)
                {b = record (P.view w.session) {
                  working = record db { users = db.users ++ user ∷ [] };
                }}
                (P.add_user_lem user w.session ∙ rw h) in
            rw (added, seen) g
      ]

  pub Keeps-create_user :
      (email hashed full_name : String) (role : UserRole)
      → Keeps {P = P} base (create_user email hashed full_name role)
  unfolding create_user
  Keeps-create_user email hashed full_name role w g =
      let user : User = record {
        id = P.uuid4 w.draws;
        email = email;
        hashed_password = hashed;
        full_name = full_name;
        role = role;
        is_active = true;
        created_at = w.clock;
        updated_at = w.clock;
      } in
      Keeps-returned (flush (P.add_user user)) (λ _. user) (Keeps-add_user user)
        (record w { draws = w.draws + 1 }) (Good-drawn w (w.draws + 1) (omega arith) g)

module _ {P : Platform} {base : List RefreshToken} (email password full_name : String)
    (role : UserRole) (settings : SecuritySettings) (send : Sender P)
    (sent : (to subject body : String) → Keeps base (send to subject body)) where
  -- The last parts of `register`, each with the next one at its end.
  abbrev welcome : User → M P User
  welcome user = do
    send email "Welcome to SmartCourse" (append (append "Welcome, " full_name) "!")
    pure user

  abbrev create : String → M P User
  create hashed = do user ← create_user email hashed full_name role; welcome user

  abbrev check_address : Option User → M P User
  check_address existing = do
    raise_if (not (is_none existing)) conflict "An account with this email already exists."
    hashed ← hash_password password
    create hashed

  abbrev check_limit : ℕ → M P User
  check_limit attempts = do
    raise_if (ltb settings.register_throttle_per_hour attempts) rate_limited
        "Too many registration attempts from this address."
    existing ← get_by_email email
    check_address existing

  Keeps-create : (hashed : String) → Keeps base (create hashed)
  Keeps-create hashed =
      Keeps-bind (create_user email hashed full_name role) welcome
        (Keeps-create_user email hashed full_name role)
        (λ user.
          Keeps-returned
            (send email "Welcome to SmartCourse" (append (append "Welcome, " full_name) "!"))
            (λ _. user)
            (sent email "Welcome to SmartCourse" (append (append "Welcome, " full_name) "!")))

  Keeps-check_address : (existing : Option User) → Keeps base (check_address existing)
  Keeps-check_address existing =
      Keeps-bind
        (raise_if (not (is_none existing)) conflict "An account with this email already exists.")
        (λ _. hash_password password >>= create)
        (Keeps-raise_if (not (is_none existing)) conflict
          "An account with this email already exists.")
        (λ _.
          Keeps-bind (hash_password password) create (Keeps-hash_password password) Keeps-create)

  Keeps-check_limit : (attempts : ℕ) → Keeps base (check_limit attempts)
  Keeps-check_limit attempts =
      Keeps-bind
        (raise_if (ltb settings.register_throttle_per_hour attempts) rate_limited
          "Too many registration attempts from this address.")
        (λ _. get_by_email email >>= check_address)
        (Keeps-raise_if (ltb settings.register_throttle_per_hour attempts) rate_limited
          "Too many registration attempts from this address.")
        (λ _.
          Keeps-bind (get_by_email email) check_address (Keeps-get_by_email email)
            Keeps-check_address)

  pub Keeps-register :
      (client_ip : String)
      → Keeps base (register email password full_name role client_ip settings send)
  unfolding register
  Keeps-register client_ip =
      let key = register_throttle_key client_ip in
      Keeps-bind (redis_incr key)
        (λ attempts. do
          when (attempts == 1) (redis_write (λ t. P.expire t key 3600))
          check_limit attempts)
        (Keeps-redis_incr key)
        (λ attempts.
          Keeps-bind (when (attempts == 1) (redis_write (λ t. P.expire t key 3600)))
            (λ _. check_limit attempts)
            (Keeps-when (attempts == 1) (redis_write (λ t. P.expire t key 3600)) (λ w g. g))
            (λ _. Keeps-check_limit attempts))

  Keeps-send_reset : (found : Option User) → Keeps base (send_reset found email settings send)
  Keeps-send_reset none w g = g
  Keeps-send_reset (some user) w g =
      sent email "Reset your SmartCourse password"
        (append "Reset token: " (P.token_urlsafe w.draws))
        (record w {
          draws = w.draws + 1;
          conn =
              P.set w.clock (password_reset_key (P.sha256_hex (P.token_urlsafe w.draws)))
                (text (P.str_uuid user.id)) (settings.password_reset_token_expires_minutes * 60)
                w.conn;
        })
        (Good-drawn w (w.draws + 1) (omega arith) g)

  pub Keeps-forgot_password : Keeps base (forgot_password email settings send)
  unfolding forgot_password
  Keeps-forgot_password =
      Keeps-bind (get_by_email email) (λ user. send_reset user email settings send)
        (Keeps-get_by_email email) Keeps-send_reset

module _ {P : Platform} {base : List RefreshToken} where
  Keeps-set_password :
      (found : Option User) (new_password : String)
      → Keeps {P = P} base (set_password found new_password)
  Keeps-set_password none new_password w g = g
  Keeps-set_password (some user) new_password w g =
      Keeps-bind (hash_password new_password)
        (λ hashed. do
          t ← now
          run_sql (P.save_user (record user { hashed_password = hashed; updated_at = t }))
          revoke_active_tokens none (some user.id))
        (Keeps-hash_password new_password)
        (λ hashed v.
          Keeps-bind
            (run_sql (P.save_user (record user { hashed_password = hashed; updated_at = v.clock })))
            (λ _. revoke_active_tokens none (some user.id))
            (Keeps-save_user (record user { hashed_password = hashed; updated_at = v.clock }))
            (λ _. Keeps-revoke_user user.id) v)
        w g

  Keeps-parsed : (s : String) → Keeps {P = P} base (reset_user_id (some (text s)))
  Keeps-parsed s w g = elim (Option-cases (P.parse_uuid s)) [
    | inl h ↦ rw (reset_user_id, h) g
    | inr (i, h) ↦ rw (reset_user_id, h) g
  ]

  Keeps-reset_user_id : (v : Option Value) → Keeps {P = P} base (reset_user_id v)
  Keeps-reset_user_id none w g = g
  Keeps-reset_user_id (some (number n)) w g = g
  Keeps-reset_user_id (some (text s)) w g = Keeps-parsed s w g

  pub Keeps-reset_password :
      (token new_password : String) → Keeps {P = P} base (reset_password token new_password)
  unfolding reset_password
  Keeps-reset_password token new_password =
      Keeps-bind (redis_getdel (password_reset_key (P.sha256_hex token)))
        (λ raw_id. do
          user_id ← reset_user_id raw_id
          user ← get_by_id user_id
          set_password user new_password)
        (λ w g. g)
        (λ raw_id.
          Keeps-bind (reset_user_id raw_id)
            (λ user_id. do user ← get_by_id user_id; set_password user new_password)
            (Keeps-reset_user_id raw_id)
            (λ user_id.
              Keeps-bind (get_by_id user_id) (λ user. set_password user new_password)
                (Keeps-get_by_id user_id) (λ user. Keeps-set_password user new_password)))
