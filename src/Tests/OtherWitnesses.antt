-- ===== src/Tests/OtherWitnesses.antt =====
-- The theorems on courses, requests, health, start-up and keys at concrete inputs.
use smartcourse_core.Base.{
  All, List, Option, String, [], arith, false, if◌then◌else◌, length, none, refl, some, true, ◌==◌,
  ◌∷◌, ◌≡◌, nat_eq, string_eq,
}
use smartcourse_core.Config.{Settings, SecuritySettings, failed, default_settings, default_security}
use smartcourse_core.Core.Errors.{app, conflict, init_error, unexpected}
use smartcourse_core.Core.Handlers.{handle}
use smartcourse_core.Core.Statuses.{app_response, handle-app}
use smartcourse_core.Core.Middleware.{
  Message, response_start, Scope, AsgiApp, request_id_header, request_context,
}
use smartcourse_core.Core.Requests.{CarriesId, request_line, request_context_lem}
use smartcourse_core.Courses.Model.{Course, archived}
use smartcourse_core.Courses.Service.{public_course, list_courses, update_course, archive_course}
use smartcourse_core.Courses.Pages.{follow, follow_lists_all}
use smartcourse_core.Courses.Changes.{
  course_row, forbidden_error, change_refused, update_changes_one, archive_changes_one,
}
use smartcourse_core.Health.Service.{Probes, returned, timed_out}
use smartcourse_core.Health.Routes.{health}
use smartcourse_core.Health.Answers.{health_fresh, health_cached}
use smartcourse_core.App.{Servers, run_lifespan, shut_down}
use smartcourse_core.App.Startup.{is_empty, lifespan_lem}
use smartcourse_core.Db.Postgres.{engine_of}
use smartcourse_core.Db.Process.{Process, answers, raises, get_mongo, get_redis, RedisHandle}
use smartcourse_core.Scripts.GenerateDevKeys.{private_key, Disk, generate_dev_keys}
use smartcourse_core.Scripts.Keys.{keys_generated}
use smartcourse_core.Effects.{ok, err, pure}
use smartcourse_core.Tests.Memory.{memory}
use smartcourse_core.Tests.Worlds.{logic, sets, types, tables, world, start_time}

-- Courses, one to a page: of two that were created at one time, the one with the higher id is first.
follow_lists_all_example :
    follow (list_courses {P = memory} none none none 1) 4 none world
    ≡ (ok (public_course types ∷ public_course sets ∷ public_course logic ∷ []), world)
follow_lists_all_example =
    follow_lists_all {P = memory} none none none 0 world (refl, (refl, (refl, tt))) 3 (omega arith)

change_refused_example :
    (update_course {P = memory} 2 1 "student" (some "Mine") none none world ≡ (
      err (forbidden_error "Only the owning instructor or an admin can update this course"),
      world,
    ))
    × (archive_course {P = memory} 2 1 "student" world ≡ (
      err (forbidden_error "Only the owning instructor or an admin can archive this course"),
      world,
    ))
change_refused_example =
    change_refused {P = memory} 2 1 "student" (some "Mine") none none world sets refl refl refl

abbrev renamed : Course
renamed = record sets { title = "Set theory"; updated_at = start_time }

update_changes_one_example :
    let after =
      (update_course {P = memory} 2 2 "instructor" (some "Set theory") none none world).1 in
    ((update_course {P = memory} 2 2 "instructor" (some "Set theory") none none world).0
      ≡ ok renamed)
    × (after.session ≡ record {
      working = record tables { courses = logic ∷ renamed ∷ types ∷ [] };
      stored = tables;
    })
    × (course_row memory 2 after ≡ some renamed)
update_changes_one_example =
    update_changes_one {P = memory} 2 2 "instructor" (some "Set theory") none none world sets refl
      refl

abbrev shelved : Course
shelved = record sets { status = archived; updated_at = start_time }

archive_changes_one_example :
    let after = (archive_course {P = memory} 2 9 "admin" world).1 in
    ((archive_course {P = memory} 2 9 "admin" world).0 ≡ ok shelved)
    × (shelved.status ≡ archived)
    × (after.session ≡ record {
      working = record tables { courses = logic ∷ shelved ∷ types ∷ [] };
      stored = tables;
    })
    × (course_row memory 2 after ≡ some shelved)
archive_changes_one_example =
    archive_changes_one {P = memory} 2 9 "admin" none none none world sets refl refl

handle-app_example :
    handle {P = memory} (app (init_error conflict none none)) world
    ≡ (ok (app_response conflict none none none), world)
handle-app_example = handle-app {P = memory} world conflict none none

-- A request that names its id, to an application that answers 204 and then raises.
abbrev scope : Scope memory
scope = record {
  type = "http";
  method = "GET";
  path = "/";
  headers = λ name. if name == request_id_header then some "r-1" else none;
}

abbrev no_headers : String → Option String
no_headers name = none

abbrev half_done : AsgiApp memory
half_done = pure (response_start 204 no_headers ∷ [], err (unexpected "ConnectionResetError"))

request_context_lem_example :
    (sent : List (Message memory)) × (request_context half_done scope world ≡ (
      ok (sent, err (unexpected "ConnectionResetError")),
      record world { logs = request_line scope 204 ∷ [] },
    ))
    × All (CarriesId memory "r-1") sent
    × (length sent ≡ 1)
request_context_lem_example =
    request_context_lem half_done scope world (record world { request_id = some "r-1" }) "r-1"
      (response_start 204 no_headers ∷ []) (err (unexpected "ConnectionResetError")) refl refl refl

abbrev settings : Settings
settings = default_settings failed

abbrev all_well : Probes
all_well = record { postgres = returned 10; mongo = returned 20; redis = returned 30 }

abbrev mongo_slow : Probes
mongo_slow = record all_well { mongo = timed_out }

health_fresh_example :
    let r = (health settings 100 mongo_slow []).0 in
    (r.status_code ≡ 503) × (r.content.status ≡ "error")
health_fresh_example = health_fresh settings 100 mongo_slow

health_cached_example :
    health settings 200 mongo_slow (health settings 100 all_well []).1
    ≡ health settings 100 all_well []
health_cached_example = health_cached settings 100 200 all_well mongo_slow (omega arith)

abbrev servers : Servers
servers = record {
  beanie = answers;
  select_one = answers;
  mongo_ping = raises "timeout";
  redis_ping = answers;
}

abbrev blank : Process
blank = record {
  postgres = record { engine = none; session_factory = none };
  mongo_client = none;
  mongo_database = none;
  redis_client = none;
  closed = [];
}

lifespan_lem_example :
    let (p', warnings) = run_lifespan settings servers blank in
    (p'.postgres.session_factory ≡ some (engine_of settings.postgres))
    × (get_mongo p' ≡ some "smartcourse")
    × ((r : RedisHandle) × (get_redis p' ≡ some r))
    × (is_empty warnings ≡ false)
    × ((shut_down p').closed ≡ "postgres" ∷ "mongo" ∷ "redis" ∷ [])
lifespan_lem_example = lifespan_lem settings servers blank

abbrev empty_disk : Disk
empty_disk = record { files = λ _. none; folders = λ _. false; writable = λ _. true }

abbrev apart_keys : SecuritySettings
apart_keys = record default_security { jwt_public_key_path = "elsewhere/jwt_public.pem" }

-- The folder of the public key is missing: the private key stays readable by everyone.
keys_generated_example :
    let (done, after) = generate_dev_keys apart_keys 420 2 empty_disk in
    (done ≡ false)
    × (after.files "secrets/jwt_private.pem"
        ≡ some (record { content = private_key 2; mode = 420 }))
unfolding generate_dev_keys
keys_generated_example =
    keys_generated apart_keys 420 2 empty_disk refl refl refl refl "secrets/jwt_private.pem"
