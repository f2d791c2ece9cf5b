-- ===== src/Auth/Password.antt =====
-- The reset of a password: `forgot_password` and `reset_password` of src/modules/auth/service.py.
use smartcourse_core.Base.{
  ==-refl, Option, Option-cases, String, ap, inl, inr, none, refl, some, ℕ, ◌+◌, ◌∙◌, ◌≡◌, nat_eq,
  string_eq,
}
use smartcourse_core.Platform.{Platform}
use smartcourse_core.Platform.Redis.{Value, number, text, Entry, live, value_of}
use smartcourse_core.Platform.Orm.{Database, replace_user}
use smartcourse_core.Core.Errors.{Exception, unexpected, app, init_error, unauthorized}
use smartcourse_core.Core.Security.{hash_password}
use smartcourse_core.Platform.Crypto.{matches}
use smartcourse_core.Users.Model.{User}
use smartcourse_core.Users.Service.{get_by_id}
use smartcourse_core.Users.Lookups.{user_row, get_by_id_lem}
use smartcourse_core.Auth.Service.{
  in_scope, password_reset_key, reset_user_id, set_password, reset_password,
}
use smartcourse_core.Auth.Revoke.{
  DistinctIds, revoke_where, after_revoke, view-after_revoke, revoke_user,
}
use smartcourse_core.Db.Postgres.{in_transaction}
use smartcourse_core.Db.Transactions.{in_transaction-ok}
use smartcourse_core.Effects.{World, M, bind-err, bind-ok, ok, err, ◌>>=◌, ◌>>◌}

abbrev pub reset_refused : Exception
reset_refused = app (init_error unauthorized (some "Invalid or expired reset token.") none)

-- The row after a reset.
abbrev pub with_password : (P : Platform) → World P → String → User → User
with_password P w new_password user = record user {
  hashed_password = P.hash w.draws new_password;
  updated_at = w.clock;
}

module _ {P : Platform} (token : String) (w : World P) where
  abbrev pub reset_key : String
  reset_key = password_reset_key (P.sha256_hex token)

  abbrev pub reset_entry : Option Entry
  reset_entry = live w.clock (P.entry w.conn reset_key)

  reset_none :
      (new_password : String)
      → value_of reset_entry ≡ none
      → ((reset_password token new_password w).0 ≡ err reset_refused)
        × ((reset_password token new_password w).1.session ≡ w.session)
  unfolding reset_password
  reset_none new_password missing = simp (P.getdel_value, missing, ◌>>=◌, ◌>>◌) (refl, refl)

  set_password-conn :
      (o : Option User) (new_password : String) (v : World P)
      → (set_password o new_password v).1.conn ≡ v.conn
  unfolding hash_password
  set_password-conn none new_password v = refl
  set_password-conn (some user) new_password v = rw (◌>>=◌, ◌>>◌, revoke_user) refl

  -- What follows GETDEL.
  abbrev reset_rest : Option Value → String → M P (Unit {0})
  reset_rest raw_id new_password = do
    user_id ← reset_user_id raw_id
    user ← get_by_id user_id
    set_password user new_password

  reset_rest-text :
      (text_id new_password : String) (i : ℕ) (v : World P)
      → P.parse_uuid text_id ≡ some i
      → reset_rest (some (text text_id)) new_password v
        ≡ set_password (user_row P i v) new_password v
  reset_rest-text text_id new_password i v h =
      bind-ok {A = ℕ} (reset_user_id (some (text text_id)))
        (λ user_id. do user ← get_by_id user_id; set_password user new_password) v {a = i}
        (rw (reset_user_id, h) refl)
      ∙ bind-ok (get_by_id i) (λ user. set_password user new_password) v (get_by_id_lem v i)

  reset_rest-conn :
      (o : Option Value) (new_password : String) (v : World P)
      → (reset_rest o new_password v).1.conn ≡ v.conn
  reset_rest-conn none new_password v = refl
  reset_rest-conn (some (number n)) new_password v = refl
  reset_rest-conn (some (text s)) new_password v = elim (Option-cases (P.parse_uuid s)) [
    | inl h ↦
        ap (λ r. r.1.conn)
          (bind-err {A = ℕ} (reset_user_id (some (text s)))
            (λ user_id. do user ← get_by_id user_id; set_password user new_password) v
            {e = unexpected "ValueError"} {w' = v} (rw (reset_user_id, h) refl))
    | inr (i, h) ↦
        rw (reset_rest-text s new_password i v h)
          (set_password-conn (user_row P i v) new_password v)
  ]

  -- Whatever comes of it, `reset_password` leaves nothing behind its token.
  reset_password-conn :
      (new_password : String)
      → (reset_password token new_password w).1.conn ≡ (P.getdel w.clock reset_key w.conn).1
  unfolding reset_password
  reset_password-conn new_password =
      reset_rest-conn (P.getdel w.clock reset_key w.conn).0 new_password
        (record w { conn = (P.getdel w.clock reset_key w.conn).1 })

  reset_rest-some :
      (user : User) (new_password : String) (v : World P)
      → user_row P user.id v ≡ some user
      → reset_rest (some (text (P.str_uuid user.id))) new_password v ≡ (
        ok tt,
        record v {
          draws = v.draws + 1;
          session =
              after_revoke none (some user.id) (record v {
                session = P.save_user (with_password P v new_password user) v.session;
              });
        },
      )
  unfolding hash_password
  reset_rest-some user new_password v known =
      reset_rest-text (P.str_uuid user.id) new_password user.id v (P.parse_uuid-str_uuid user.id)
      ∙ rw known (rw (◌>>=◌, ◌>>◌, revoke_user) refl)

  reset_some :
      (user : User) (new_password : String)
      → value_of reset_entry ≡ some (text (P.str_uuid user.id))
      → user_row P user.id w ≡ some user
      → reset_password token new_password w ≡ (
        ok tt,
        record w {
          conn = (P.getdel w.clock reset_key w.conn).1;
          draws = w.draws + 1;
          session =
              after_revoke none (some user.id) (record w {
                session = P.save_user (with_password P w new_password user) w.session;
              });
        },
      )
  unfolding reset_password
  reset_some user new_password there known =
      let v : World P = record w { conn = (P.getdel w.clock reset_key w.conn).1 } in
      ap (λ o. reset_rest o new_password v) (P.getdel_value w.clock reset_key w.conn ∙ there)
      ∙ reset_rest-some user new_password v known

  -- A reset token that is known gives its user the new password, which verifies, and revokes every
  -- active refresh token of that user and of no one else; all of it is committed.
  pub reset_sets_password :
      (user : User) (new_password : String)
      → value_of reset_entry ≡ some (text (P.str_uuid user.id))
      → user_row P user.id w ≡ some user
      → DistinctIds (P.view w.session).working.refresh_tokens
      → let db = (P.view w.session).working in
        let changed = with_password P w new_password user in
        let after : Database = record db {
          users = replace_user changed db.users;
          refresh_tokens = revoke_where (in_scope none (some user.id)) w.clock db.refresh_tokens;
        } in
        ((in_transaction (reset_password token new_password) w).0 ≡ ok tt)
        × (P.view (in_transaction (reset_password token new_password) w).1.session
            ≡ record { working = after; stored = after })
        × (P.verify changed.hashed_password new_password ≡ matches)
  reset_sets_password user new_password there known distinct =
      let v : World P = record w {
        session = P.save_user (with_password P w new_password user) w.session;
      } in
      let saved = P.view-save_user (with_password P w new_password user) w.session in
      let burnt = view-after_revoke none (some user.id) v (rw saved distinct) in
      let done = reset_some user new_password there known in
      rw (in_transaction-ok (reset_password token new_password) w tt (ap (λ x. x.0) done))
        (refl, rw (done, P.view-commit, burnt, saved), P.verify-hash w.draws new_password)

module _ {P : Platform} (token : String) (w : World P) where
  -- A reset token works once: after one call of `reset_password` with it, whatever that came to,
  -- another call is refused, and leaves the session as it is.
  pub reset_once :
      (first second_try : String) (later : World P)
      → later.conn ≡ (reset_password token first w).1.conn
      → ((reset_password token second_try later).0 ≡ err reset_refused)
        × ((reset_password token second_try later).1.session ≡ later.session)
  reset_once first second_try later same =
      let gone : P.entry later.conn (reset_key token w) ≡ none =
        rw (same, reset_password-conn token w first, P.entry-getdel, ==-refl (reset_key token w))
          refl in
      reset_none token later second_try (rw gone refl)
