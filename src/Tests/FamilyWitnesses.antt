-- ===== src/Tests/FamilyWitnesses.antt =====
-- The theorems on the families of refresh tokens at concrete inputs.
use smartcourse_core.Base.{[], arith, nat_beq_iff, none, refl, some, ◌*◌, ◌+◌, ◌/◌, ◌∷◌, ◌≡◌, ◌≤◌}
use smartcourse_core.Config.{default_security, default_settings, failed}
use smartcourse_core.Auth.Service.{
  login, register, logging_sender, refresh_tokens, refresh_row, issue_refresh_token, token_pair,
}
use smartcourse_core.Core.Security.{
  create_access_token, load_private_key, verify_password, hash_password,
}
use smartcourse_core.Users.Service.{get_by_id, get_by_email, create_user}
use smartcourse_core.Auth.Schemas.{RegisterBody, LoginBody}
use smartcourse_core.Auth.Routes.{register_route, login_route, refresh_route}
use smartcourse_core.Auth.Families.Active.{active}
use smartcourse_core.Auth.Families.Reach.{
  here, after, registers, logs_in, refreshes, waits, Reach-single_active, Reach-rows_stay,
}
use smartcourse_core.Auth.Refresh.Race.{stale_refresh_forks}
use smartcourse_core.Auth.Refresh.Rotation.{rotated_pair}
use smartcourse_core.Auth.Families.Active.{Sound}
use smartcourse_core.Auth.Families.History.{Grows}
use smartcourse_core.Auth.Lockout.{try_all}
use smartcourse_core.Auth.Success.{first_pair}
use smartcourse_core.Auth.Reopening.{lockout_ends}
use smartcourse_core.Platform.Redis.{second}
use smartcourse_core.Core.Dependencies.{get_current_user}
use smartcourse_core.Users.Model.{User, student}
use smartcourse_core.Auth.Journey.{joined, joiner, registered_logs_in}
use smartcourse_core.Db.Postgres.{in_transaction}
use smartcourse_core.Effects.{World, ok}
use smartcourse_core.Tests.Memory.{memory}
use smartcourse_core.Tests.Worlds.{ann, current, start_time, tables, world}

-- The world without rows.
abbrev empty_world : World memory
empty_world = record world {
  session = record {
    working = record { users = []; refresh_tokens = []; courses = [] };
    stored = record { users = []; refresh_tokens = []; courses = [] };
  };
}

abbrev eve : RegisterBody
eve = record {
  email = some "eve@x.org";
  password = some "secret-e";
  full_name = some "Eve";
  role = none;
}

abbrev eve_again : LoginBody
eve_again = record { email = some "eve@x.org"; password = some "secret-e" }

-- Eve registers, logs in, waits, and refreshes with a token that no one knows.
abbrev registered : World memory
registered =
    (register_route {P = memory} eve (some "1.2.3.4") (default_settings failed) empty_world).1

abbrev logged_in : World memory
logged_in = (login_route {P = memory} eve_again (default_settings failed) registered).1

abbrev later : World memory
later = record logged_in { clock = logged_in.clock + 60 }

abbrev refreshed : World memory
refreshed = (refresh_route {P = memory} (some "unknown") (default_settings failed) later).1

Reach-single_active_example :
    (active 3 refreshed.session.stored.refresh_tokens ≤ 1)
    × (active 3 refreshed.session.working.refresh_tokens ≤ 1)
Reach-single_active_example =
    Reach-single_active {P = memory} (λ m n e. e) {start = empty_world} {w = refreshed} (refl, refl)
      (after
        (after
          (after (after here (registers eve (some "1.2.3.4") (default_settings failed) empty_world))
            (logs_in eve_again (default_settings failed) registered))
          (waits 60 logged_in))
        (refreshes (some "unknown") (default_settings failed) later))
      3

-- The world after the first of two requests that have both read the token of Ann.
abbrev first_done : World memory
first_done = (in_transaction {P = memory} (refresh_row (some current) default_security) world).1

stale_refresh_forks_example :
    ((in_transaction {P = memory} (refresh_row (some current) default_security) world).0
      ≡ ok (ann, rotated_pair "one" default_security world current ann tt))
    × ((in_transaction {P = memory} (refresh_row (some current) default_security) first_done).0
        ≡ ok (ann, rotated_pair "one" default_security first_done current ann tt))
    × (2
        ≤ active 7
            (in_transaction {P = memory}
              (refresh_row (some current) default_security)
              first_done).1.session.stored.refresh_tokens)
unfolding in_transaction issue_refresh_token token_pair create_access_token load_private_key
    get_by_id
stale_refresh_forks_example =
    stale_refresh_forks {P = memory} "one" default_security current ann tt world refl refl
      (omega arith) refl refl refl refl refl

-- The tokens of the world, with families of early draws.
tokens_Sound : Sound memory 50 tables.refresh_tokens
tokens_Sound = record {
  distinct = (refl, (refl, (refl, tt)));
  drawn = ((7, omega arith, refl), ((7, omega arith, refl), ((8, omega arith, refl), tt)));
  single = λ family. ground (arith, nat_beq_iff 7 family, nat_beq_iff 8 family);
}

-- The token of Ann is exchanged, and then someone presents the old one.
abbrev exchanged : World memory
exchanged = (refresh_route {P = memory} (some "one") (default_settings failed) world).1

abbrev replayed : World memory
replayed = (refresh_route {P = memory} (some "one") (default_settings failed) exchanged).1

Reach-rows_stay_example : Grows tables.refresh_tokens replayed.session.stored.refresh_tokens
Reach-rows_stay_example =
    Reach-rows_stay {P = memory} (λ m n e. e) {start = world} {w = replayed} refl tokens_Sound
      (after (after here (refreshes (some "one") (default_settings failed) world))
        (refreshes (some "one") (default_settings failed) exchanged))

lockout_ends_example :
    let tried =
      try_all {P = memory} "ann@x.org" default_security ann ("a" ∷ "b" ∷ "c" ∷ []) world in
    let v : World memory = record tried { clock = tried.clock + 900 * second } in
    (login "ann@x.org" "secret-a" default_security v).0
    ≡ ok (ann, first_pair "ann@x.org" "secret-a" default_security v ann tt)
unfolding login get_by_email verify_password
lockout_ends_example =
    lockout_ends {P = memory} "ann@x.org" default_security ann ("a" ∷ "b" ∷ "c" ∷ []) 2
      (900 * second) "secret-a" world tt refl refl (omega arith) (omega arith) (omega arith) refl
      refl (refl, (refl, (refl, tt))) refl refl refl

-- Eve registers and logs in, and makes a request within the time of the token.
abbrev eve_joined : World memory
eve_joined =
    joined {P = memory} "eve@x.org" "secret-e" "Eve" student "home" default_security world 0

abbrev eve_user : User
eve_user = joiner {P = memory} "eve@x.org" "secret-e" "Eve" student "home" default_security world 0

registered_logs_in_example :
    let pair =
      first_pair {P = memory} "eve@x.org" "secret-e" default_security eve_joined eve_user tt in
    ((register {P = memory} "eve@x.org" "secret-e" "Eve" student "home" default_security
        logging_sender world).0
      ≡ ok eve_user)
    × ((login {P = memory} "eve@x.org" "secret-e" default_security eve_joined).0
        ≡ ok (eve_user, pair))
    × (get_current_user {P = memory} (some pair.access_token) default_security world ≡ (
      ok (record {
        id = eve_user.id;
        role = "student";
        jti = memory.str_uuid (memory.uuid4 55);
        expires_at = start_time / second + default_security.access_token_expires_minutes * 60;
      }),
      world,
    ))
unfolding register login get_by_email hash_password create_user verify_password
registered_logs_in_example =
    registered_logs_in {P = memory} "eve@x.org" "secret-e" "Eve" student "home" default_security
      world 0 0 tt world refl (omega arith) refl refl refl (omega arith) refl refl refl
      (omega arith) refl
