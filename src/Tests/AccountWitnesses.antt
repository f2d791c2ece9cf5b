-- ===== src/Tests/AccountWitnesses.antt =====
-- The theorems on accounts at the small database.
use Prim.Native.String.{◌++◌ as append}
use smartcourse_core.Platform.Orm.{Database}
use smartcourse_core.Base.{
  String, [], arith, if◌then◌else◌, inr, refl, some, true, ◌*◌, ◌+◌, ◌==◌, ◌∷◌, ◌≡◌, nat_eq,
  string_eq,
}
use smartcourse_core.Platform.Redis.{number, second}
use smartcourse_core.Platform.Crypto.{matches}
use smartcourse_core.Config.{default_security}
use smartcourse_core.Users.Model.{User, instructor, student}
use smartcourse_core.Auth.Service.{
  revoked, login, failed_login_key, register, logging_sender, reset_password, forgot_password,
}
use smartcourse_core.Users.Service.{get_by_email}
use smartcourse_core.Auth.Login.{invalid_login, wrong_password, failed_login_counts}
use smartcourse_core.Auth.Password.{reset_refused, with_password, reset_sets_password, reset_once}
use smartcourse_core.Auth.Forgot.{nobody, forgot_tells_nothing, forgot_then_reset, token_stored}
use smartcourse_core.Auth.Registration.{conflict_error, register_refused, register_creates}
use smartcourse_core.Db.Postgres.{in_transaction}
use smartcourse_core.Effects.{World, ok, err}
use smartcourse_core.Tests.Memory.{memory}
use smartcourse_core.Tests.Worlds.{
  ann, bob, rotated_away, current, of_bob, tables, world, start_time,
}

failed_login_counts_example :
    let (r, w') = login "ann@x.org" "guess" default_security world in
    (r ≡ err invalid_login)
    × (w'.session ≡ world.session)
    × (w'.clock ≡ start_time)
    × ((key : String)
        → w'.conn key ≡ (
            if failed_login_key "ann@x.org" == key
            then some (record { value = number 3; deadline = some (start_time + 300 * second) })
            else world.conn key))
failed_login_counts_example =
    failed_login_counts {P = memory} "ann@x.org" "guess" default_security world 2 refl (omega arith)
      (wrong_password ann refl refl)

reset_sets_password_example :
    ((in_transaction (reset_password "reset" "new-secret") world).0 ≡ ok tt)
    × ((in_transaction (reset_password "reset" "new-secret") world).1.session ≡ record {
      working = record tables {
        users = with_password memory world "new-secret" ann ∷ bob ∷ [];
        refresh_tokens = rotated_away ∷ revoked start_time current ∷ of_bob ∷ [];
      };
      stored = record tables {
        users = with_password memory world "new-secret" ann ∷ bob ∷ [];
        refresh_tokens = rotated_away ∷ revoked start_time current ∷ of_bob ∷ [];
      };
    })
    × (memory.verify "new-secret" "new-secret" ≡ matches)
reset_sets_password_example =
    reset_sets_password {P = memory} "reset" world ann "new-secret" refl refl
      (refl, (refl, (refl, tt)))

abbrev after_reset : World memory
after_reset = record (reset_password "reset" "new-secret" world).1 { clock = start_time + second }

reset_once_example :
    ((reset_password "reset" "newer-secret" after_reset).0 ≡ err reset_refused)
    × ((reset_password "reset" "newer-secret" after_reset).1.session ≡ after_reset.session)
reset_once_example =
    reset_once {P = memory} "reset" world "new-secret" "newer-secret" after_reset refl

forgot_tells_nothing_example :
    ((forgot_password "nobody@x.org" default_security logging_sender world).0 ≡ ok tt)
    × ((forgot_password "nobody@x.org" default_security logging_sender world).1.session
        ≡ world.session)
forgot_tells_nothing_example =
    forgot_tells_nothing {P = memory} "nobody@x.org" default_security world (nobody refl)

abbrev mail_read : World memory
mail_read = record (forgot_password "ann@x.org" default_security logging_sender world).1 {
  clock = start_time + 100 * second;
}

forgot_then_reset_example :
    let token = memory.token_urlsafe 50 in
    let reset : User = record ann {
      hashed_password = "new-secret";
      updated_at = mail_read.clock;
    } in
    let after : Database = record tables {
      users = reset ∷ bob ∷ [];
      refresh_tokens = rotated_away ∷ revoked mail_read.clock current ∷ of_bob ∷ [];
    } in
    let (r, v) = in_transaction {P = memory} (reset_password token "new-secret") mail_read in
    (forgot_password "ann@x.org" default_security logging_sender world
      ≡ logging_sender "ann@x.org" "Reset your SmartCourse password"
          (append "Reset token: " token)
          (token_stored "ann@x.org" default_security logging_sender world ann))
    × (r ≡ ok tt)
    × (v.session ≡ record { working = after; stored = after })
    × (memory.verify "new-secret" "new-secret" ≡ matches)
unfolding forgot_password get_by_email
forgot_then_reset_example =
    forgot_then_reset {P = memory} "ann@x.org" default_security logging_sender world ann ann
      "new-secret" mail_read refl refl (omega arith) refl refl (refl, (refl, (refl, tt)))

register_refused_example :
    ((register "ann@x.org" "secret-e" "Eve" student "home" default_security logging_sender world).0
      ≡ err conflict_error)
    × ((register "ann@x.org" "secret-e" "Eve" student "home" default_security logging_sender
          world).1.session
        ≡ world.session)
register_refused_example =
    register_refused {P = memory} "ann@x.org" "secret-e" "Eve" student "home" default_security world
      0 ann refl (inr refl)

abbrev eve : User
eve = record {
  id = 51;
  email = "eve@x.org";
  hashed_password = "secret-e";
  full_name = "Eve";
  role = instructor;
  is_active = true;
  created_at = start_time;
  updated_at = start_time;
}

register_creates_example :
    ((register "eve@x.org" "secret-e" "Eve" instructor "home" default_security logging_sender
        world).0
      ≡ ok eve)
    × ((register "eve@x.org" "secret-e" "Eve" instructor "home" default_security logging_sender
          world).1.session
        ≡ record { working = record tables { users = ann ∷ bob ∷ eve ∷ [] }; stored = tables })
    × (memory.verify "secret-e" "secret-e" ≡ matches)
register_creates_example =
    register_creates {P = memory} "eve@x.org" "secret-e" "Eve" instructor "home" default_security
      world 0 refl (omega arith) refl refl
