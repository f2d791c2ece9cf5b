-- ===== src/Auth/Families/CourseRoutes.antt =====
-- The routes of src/modules/courses/routes.py and `me` leave the refresh tokens sound.
use smartcourse_core.Base.{List, Option, [], none, some, ℕ, ◌∷◌}
use smartcourse_core.Platform.{Platform}
use smartcourse_core.Auth.Model.{RefreshToken}
use smartcourse_core.Config.{Settings}
use smartcourse_core.Core.Response.{Envelope, CursorPage}
use smartcourse_core.Core.Handlers.{JsonResponse}
use smartcourse_core.Core.Dependencies.{CurrentUser, get_current_user, require_roles}
use smartcourse_core.Users.Model.{User}
use smartcourse_core.Users.Service.{get_by_id}
use smartcourse_core.Auth.Schemas.{UserPublic, public_user}
use smartcourse_core.Auth.Routes.{me_route, user_or_404}
use smartcourse_core.Courses.Model.{Course}
use smartcourse_core.Courses.Schemas.{
  CourseBody, CourseUpdate, ListQuery, course_create, course_update, level_of, status_of_text,
  optional_member, search_field, limit_field,
}
use smartcourse_core.Courses.Service.{
  CoursePublic, public_course, create_course, get_course_or_404, update_course, archive_course,
}
use smartcourse_core.Courses.Routes.{
  create_course_route, list_courses_route, get_course_route, update_course_route,
  archive_course_route, list_of, respond,
}
use smartcourse_core.Db.Postgres.{in_transaction}
use smartcourse_core.Auth.Families.Keeps.{Keeps, Keeps-bind, Keeps-in_transaction, Safe-of-Keeps}
use smartcourse_core.Auth.Families.Requests.{Keeps-get_current_user}
use smartcourse_core.Auth.Families.Routes.{answered, Keeps-answered}
use smartcourse_core.Auth.Families.Courses.{
  Keeps-create_course, Keeps-get_course_or_404, Keeps-update_course, Keeps-archive_course,
  Keeps-require_roles, Keeps-course_create, Keeps-course_update, Keeps-list_of,
}
use smartcourse_core.Effects.{M, ◌>>=◌}

module _ {P : Platform} {base : List RefreshToken} where
  -- A route that keeps the tokens sound at each of its steps.
  Keeps-route : {A : Type 0} (m : M P A) → Keeps base m → Keeps {P = P} base (in_transaction m)
  Keeps-route m kept = Keeps-in_transaction m (Safe-of-Keeps m kept)

  -- The reply with the course that a step gave.
  Keeps-course_answered :
      (status : ℕ) (m : M P Course)
      → Keeps base m
      → Keeps base (m >>= λ course. answered status (public_course course))
  Keeps-course_answered status m kept =
      Keeps-bind m (λ course. answered status (public_course course)) kept
        (λ course. Keeps-answered CoursePublic status (public_course course))

module _ {P : Platform} where
  created : CourseBody → CurrentUser → M P (JsonResponse (Envelope CoursePublic))
  created raw u = course_create raw >>= λ body.
      create_course body.title body.description body.level u.id >>= λ course.
      answered 201 (public_course course)

module _ {P : Platform} {base : List RefreshToken} where
  Keeps-created : (raw : CourseBody) (u : CurrentUser) → Keeps {P = P} base (created raw u)
  unfolding created
  Keeps-created raw u =
      Keeps-bind (course_create raw)
        (λ body. create_course body.title body.description body.level u.id >>= λ course.
          answered 201 (public_course course))
        (Keeps-course_create raw)
        (λ body.
          Keeps-course_answered 201 (create_course body.title body.description body.level u.id)
            (Keeps-create_course body.title body.description body.level u.id))

  pub Keeps-create_course_route :
      (raw : CourseBody) (credentials : Option P.Token) (settings : Settings)
      → Keeps {P = P} base (create_course_route raw credentials settings)
  unfolding create_course_route created
  Keeps-create_course_route raw credentials settings =
      let roles = "instructor" ∷ [] in
      let who = get_current_user credentials settings.security in
      let rest = λ (caller : CurrentUser). require_roles roles caller >>= created raw in
      Keeps-route (who >>= rest) (
        Keeps-bind who rest (Keeps-get_current_user credentials settings.security) (λ caller.
          Keeps-bind (require_roles roles caller) (created raw) (Keeps-require_roles roles caller)
            (Keeps-created raw)))

  pub Keeps-list_courses_route :
      (asked : ListQuery P) → Keeps {P = P} base (list_courses_route asked)
  unfolding list_courses_route
  Keeps-list_courses_route asked =
      let page =
        list_of (search_field asked.q) (optional_member level_of asked.level)
          (optional_member status_of_text asked.status) (limit_field asked.limit) asked.cursor in
      Keeps-route (page >>= answered 200) (
        Keeps-bind page (answered 200)
          (Keeps-list_of (search_field asked.q) (optional_member level_of asked.level)
            (optional_member status_of_text asked.status) (limit_field asked.limit) asked.cursor)
          (Keeps-answered (CursorPage P CoursePublic) 200))

  pub Keeps-get_course_route : (course_id : ℕ) → Keeps {P = P} base (get_course_route course_id)
  unfolding get_course_route
  Keeps-get_course_route course_id =
      Keeps-route (get_course_or_404 course_id >>= λ course. answered 200 (public_course course)) (
        Keeps-course_answered 200 (get_course_or_404 course_id) (Keeps-get_course_or_404 course_id))

  pub Keeps-update_course_route :
      (course_id : ℕ) (raw : CourseBody) (credentials : Option P.Token) (settings : Settings)
      → Keeps {P = P} base (update_course_route course_id raw credentials settings)
  unfolding update_course_route
  Keeps-update_course_route course_id raw credentials settings =
      let who = get_current_user credentials settings.security in
      let change : CurrentUser → CourseUpdate → M P Course =
        λ u body. update_course course_id u.id u.role body.title body.description body.level in
      let reply : Course → M P (JsonResponse (Envelope CoursePublic)) =
        λ course. answered 200 (public_course course) in
      let rest : CurrentUser → M P (JsonResponse (Envelope CoursePublic)) =
        λ u. course_update raw >>= λ body. change u body >>= reply in
      Keeps-route (who >>= rest) (
        Keeps-bind who rest (Keeps-get_current_user credentials settings.security) (λ u.
          Keeps-bind (course_update raw) (λ body. change u body >>= reply) (Keeps-course_update raw)
            (λ body.
              Keeps-course_answered 200 (change u body) (
                Keeps-update_course course_id u.id u.role body.title body.description body.level))))

  pub Keeps-archive_course_route :
      (course_id : ℕ) (credentials : Option P.Token) (settings : Settings)
      → Keeps {P = P} base (archive_course_route course_id credentials settings)
  unfolding archive_course_route
  Keeps-archive_course_route course_id credentials settings =
      let who = get_current_user credentials settings.security in
      let rest : CurrentUser → M P (JsonResponse (Unit {0})) =
        λ u. archive_course course_id u.id u.role >>= λ _. respond 204 tt in
      Keeps-route (who >>= rest) (
        Keeps-bind who rest (Keeps-get_current_user credentials settings.security) (λ u.
          Keeps-bind (archive_course course_id u.id u.role) (λ _. respond 204 tt)
            (Keeps-archive_course course_id u.id u.role) (λ _ w g. g)))

  Keeps-user_or_404 : (found : Option User) → Keeps {P = P} base (user_or_404 found)
  Keeps-user_or_404 none w g = g
  Keeps-user_or_404 (some u) w g = g

  pub Keeps-me_route :
      (credentials : Option P.Token) (settings : Settings)
      → Keeps {P = P} base (me_route credentials settings)
  unfolding me_route get_by_id
  Keeps-me_route credentials settings =
      let who = get_current_user credentials settings.security in
      let shown : Option User → M P (JsonResponse (Envelope UserPublic)) =
        λ found. user_or_404 found >>= λ user. answered 200 (public_user user) in
      Keeps-route (who >>= λ u. get_by_id u.id >>= shown) (
        Keeps-bind who (λ u. get_by_id u.id >>= shown)
          (Keeps-get_current_user credentials settings.security)
          (λ u.
            Keeps-bind (get_by_id u.id) shown (λ w g. g)
              (λ found.
                Keeps-bind (user_or_404 found) (λ user. answered 200 (public_user user))
                  (Keeps-user_or_404 found)
                  (λ user. Keeps-answered UserPublic 200 (public_user user)))))
