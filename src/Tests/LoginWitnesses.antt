-- ===== src/Tests/LoginWitnesses.antt =====
-- The theorems on logins, registrations, admins and the discovery of routers at concrete inputs.
use Prim.Native.String.{◌++◌ as append}
use smartcourse_core.Base.{String, [], arith, false, none, refl, some, true, ◌∷◌, ◌≡◌}
use smartcourse_core.Platform.Crypto.{Claims, matches}
use smartcourse_core.Config.{failed, default_security, default_settings}
use smartcourse_core.Core.Errors.{app, forbidden, init_error}
use smartcourse_core.Core.Dependencies.{get_current_user}
use smartcourse_core.Core.Security.{decode_access_token, load_public_key}
use smartcourse_core.Courses.Schemas.{CourseBody}
use smartcourse_core.Courses.Routes.{create_course_route}
use smartcourse_core.Courses.Creation.{create_refused}
use smartcourse_core.Users.Model.{User, admin}
use smartcourse_core.Auth.Schemas.{RegisterBody, register_request}
use smartcourse_core.Auth.Service.{failed_login_key, login}
use smartcourse_core.Auth.Login.{locked_error}
use smartcourse_core.Auth.Lockout.{try_all, guesses_lock}
use smartcourse_core.Auth.Bodies.{is_accepted, register_request_lem}
use smartcourse_core.Auth.Success.{first_row, first_pair, login_succeeds}
use smartcourse_core.Scripts.CreateAdmin.{create_admin}
use smartcourse_core.Scripts.Admins.{admin_created}
use smartcourse_core.Effects.{ok, err}
use smartcourse_core.Tests.Memory.{memory}
use smartcourse_core.Tests.Worlds.{
  ann, bob, rotated_away, current, of_bob, tables, world, start_time,
}

login_succeeds_example :
    let (r, w') = login "ann@x.org" "secret-a" default_security world in
    (r ≡ ok (ann, first_pair "ann@x.org" "secret-a" default_security world ann tt))
    × (w'.session ≡ record {
      working = record tables {
        refresh_tokens =
            rotated_away
            ∷ current
            ∷ of_bob
            ∷ first_row "ann@x.org" "secret-a" default_security world ann tt
            ∷ [];
      };
      stored = tables;
    })
    × (w'.conn (failed_login_key "ann@x.org") ≡ none)
login_succeeds_example =
    login_succeeds {P = memory} "ann@x.org" "secret-a" default_security world ann tt 2 refl
      (omega arith) refl refl refl refl refl

-- Two failures are counted before; after three guesses the right password is refused.
guesses_lock_example :
    (login "ann@x.org" "secret-a" default_security
      (try_all "ann@x.org" default_security ann ("a" ∷ "b" ∷ "c" ∷ []) world)).0
    ≡ err locked_error
guesses_lock_example =
    guesses_lock {P = memory} "ann@x.org" default_security ann ("a" ∷ "b" ∷ "c" ∷ []) 2 "secret-a"
      world refl (omega arith) (omega arith) (omega arith) refl (refl, (refl, (refl, tt)))

abbrev as_admin : RegisterBody
as_admin = record {
  email = some "eve@x.org";
  password = some "secret-e";
  full_name = some "Eve";
  role = some "admin";
}

register_request_lem_example : is_accepted (register_request {P = memory} as_admin world).0 ≡ false
register_request_lem_example = register_request_lem {P = memory} world as_admin

abbrev repr : String → String
repr s = append "'" (append s "'")

abbrev root_user : User
root_user = record {
  id = 51;
  email = "root@x.org";
  hashed_password = "secret-r";
  full_name = "Root";
  role = admin;
  is_active = true;
  created_at = start_time;
  updated_at = start_time;
}

admin_created_example :
    ((create_admin {P = memory} repr "root@x.org" "Root" "secret-r" world).0 ≡ ok root_user)
    × ((create_admin {P = memory} repr "root@x.org" "Root" "secret-r" world).1.session ≡ record {
      working = record tables { users = ann ∷ bob ∷ root_user ∷ [] };
      stored = record tables { users = ann ∷ bob ∷ root_user ∷ [] };
    })
    × (memory.verify "secret-r" "secret-r" ≡ matches)
admin_created_example =
    admin_created {P = memory} repr "root@x.org" "Root" "secret-r" world refl refl

-- A student's token, 10 seconds old.
abbrev student_claims : Claims
student_claims = record {
  sub = "1";
  role = some "student";
  type = "access";
  jti = "j";
  iat = 990;
  exp = 1890;
}

abbrev a_course : CourseBody
a_course = record { title = some "Sets"; description = some "On sets."; level = none }

create_refused_example :
    create_course_route {P = memory} a_course
      (some (student_claims, tt))
      (default_settings failed)
      world
    ≡ (err (app (init_error forbidden (some "Requires one of roles: instructor") none)), world)
unfolding get_current_user decode_access_token load_public_key
create_refused_example =
    create_refused {P = memory} a_course (some (student_claims, tt)) (default_settings failed) world
      (record { id = 1; role = "student"; jti = "j"; expires_at = 1890 }) refl refl
