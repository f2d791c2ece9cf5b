-- ===== src/Auth/Forgot.antt =====
-- `forgot_password` of src/modules/auth/service.py, and the reset that follows it.
use Prim.Native.String.{◌++◌ as append}
use smartcourse_core.Base.{
  ==-refl, String, [], ap, lt→ltb, none, refl, some, ◌*◌, ◌+◌, ◌<◌, ◌∙◌, ◌∷◌, ◌≡◌, nat_eq,
  string_eq,
}
use smartcourse_core.Platform.{Platform}
use smartcourse_core.Platform.Redis.{text, second, live, value_of}
use smartcourse_core.Config.{SecuritySettings}
use smartcourse_core.Users.Model.{User}
use smartcourse_core.Users.Service.{get_by_email}
use smartcourse_core.Users.Lookups.{users_with, user_row, get_by_email-none, get_by_email-some}
use smartcourse_core.Auth.Service.{
  Sender, in_scope, send_reset, forgot_password, reset_password, logging_sender,
}
use smartcourse_core.Auth.Revoke.{DistinctIds, revoke_where}
use smartcourse_core.Platform.Orm.{Database, replace_user}
use smartcourse_core.Platform.Crypto.{matches}
use smartcourse_core.Auth.Password.{reset_key, reset_sets_password}
use smartcourse_core.Db.Postgres.{in_transaction}
use smartcourse_core.Effects.{World, ok, bind-ok}

-- The sessions that `forgot_password` is asked for: no account has the address, or one has it.
pub data Asked {P : Platform} (email : String) (w : World P) : Type 0 where
  nobody : users_with P email w ≡ [] → Asked email w
  somebody : (user : User) → users_with P email w ≡ user ∷ [] → Asked email w

module _ {P : Platform} (email : String) (settings : SecuritySettings) (w : World P) where
  forgot-nobody :
      users_with P email w ≡ [] → forgot_password email settings logging_sender w ≡ (ok tt, w)
  unfolding forgot_password
  forgot-nobody h =
      bind-ok (get_by_email email) (λ user. send_reset user email settings logging_sender) w
        (get_by_email-none w email h)

  forgot-somebody :
      (user : User)
      → users_with P email w ≡ user ∷ []
      → forgot_password email settings logging_sender w
        ≡ send_reset (some user) email settings logging_sender w
  unfolding forgot_password
  forgot-somebody user h =
      bind-ok (get_by_email email) (λ user. send_reset user email settings logging_sender) w
        (get_by_email-some w email user h)

  -- The caller is not told whether an account has the address: the answer is the same, and the
  -- database is left alone.
  pub forgot_tells_nothing :
      Asked email w
      → ((forgot_password email settings logging_sender w).0 ≡ ok tt)
        × ((forgot_password email settings logging_sender w).1.session ≡ w.session)
  forgot_tells_nothing (nobody h) = rw (forgot-nobody h) (refl, refl)
  forgot_tells_nothing (somebody user h) = rw (forgot-somebody user h) (refl, refl)

module _ {P : Platform} (email : String) (settings : SecuritySettings) (send : Sender P)
    (w : World P) (user : User) where
  -- The token that is drawn, and the world in which it is sent.
  abbrev pub drawn_token : String
  drawn_token = P.token_urlsafe w.draws

  abbrev pub token_stored : World P
  token_stored = record w {
    draws = w.draws + 1;
    conn =
        P.set w.clock (reset_key drawn_token w) (text (P.str_uuid user.id))
          (settings.password_reset_token_expires_minutes * 60) w.conn;
  }

  forgot_sends :
      users_with P email w ≡ user ∷ []
      → forgot_password email settings send w
        ≡ send email "Reset your SmartCourse password"
            (append "Reset token: " drawn_token)
            token_stored
  unfolding forgot_password
  forgot_sends one =
      bind-ok (get_by_email email) (λ found. send_reset found email settings send) w
        (get_by_email-some w email user one)

  -- An account that has the address is sent a token, whatever sends it. Until the token expires,
  -- and as long as its entry in Redis is left alone and the user is there, a reset with it gives
  -- that user the new password, which verifies, and revokes the active refresh tokens of that user;
  -- all of it is committed.
  pub forgot_then_reset :
      (changed : User) (new_password : String) (later : World P)
      → users_with P email w ≡ user ∷ []
      → P.entry later.conn (reset_key drawn_token w)
        ≡ P.entry token_stored.conn (reset_key drawn_token w)
      → later.clock < w.clock + settings.password_reset_token_expires_minutes * 60 * second
      → user_row P user.id later ≡ some changed
      → changed.id ≡ user.id
      → DistinctIds (P.view later.session).working.refresh_tokens
      → let db = (P.view later.session).working in
        let reset : User = record changed {
          hashed_password = P.hash later.draws new_password;
          updated_at = later.clock;
        } in
        let after : Database = record db {
          users = replace_user reset db.users;
          refresh_tokens =
              revoke_where (in_scope none (some changed.id)) later.clock db.refresh_tokens;
        } in
        let (r, v) = in_transaction (reset_password drawn_token new_password) later in
        (forgot_password email settings send w
          ≡ send email "Reset your SmartCourse password"
              (append "Reset token: " drawn_token)
              token_stored)
        × (r ≡ ok tt)
        × (P.view v.session ≡ record { working = after; stored = after })
        × (P.verify reset.hashed_password new_password ≡ matches)
  forgot_then_reset changed new_password later one same soon known id distinct =
      let key = reset_key drawn_token w in
      let alive =
        lt→ltb later.clock (w.clock + settings.password_reset_token_expires_minutes * 60 * second)
          soon in
      let there : value_of (live later.clock (P.entry later.conn key))
          ≡ some (text (P.str_uuid changed.id)) =
        rw (same, P.entry-set, ==-refl key, alive, id) refl in
      let (answered, seen, verifies) =
        reset_sets_password drawn_token later changed new_password there
          (ap (λ i. user_row P i later) id ∙ known) distinct in
      (forgot_sends one, answered, seen, verifies)
