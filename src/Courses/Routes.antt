-- ===== src/Courses/Routes.antt =====
-- src/modules/courses/routes.py. A handler runs in the transaction of `get_session`; the user of the
-- token is found before the body is refused.
use smartcourse_core.Base.{Option, String, [], ℕ, ◌++◌, ◌∷◌}
use smartcourse_core.Platform.{Platform}
use smartcourse_core.Config.{Settings}
use smartcourse_core.Core.Errors.{invalid_request}
use smartcourse_core.Core.Dependencies.{get_current_user, require_roles}
use smartcourse_core.Core.Handlers.{JsonResponse}
use smartcourse_core.Core.Response.{Envelope, CursorPage, success}
use smartcourse_core.Core.Validation.{Checked, good, query_errors_of}
use smartcourse_core.Courses.Model.{CourseLevel, CourseStatus}
use smartcourse_core.Courses.Schemas.{
  CourseBody, course_create, course_update, ListQuery, level_of, status_of_text, optional_member,
  limit_field, search_field,
}
use smartcourse_core.Courses.Service.{
  CoursePublic, public_course, create_course, list_courses, get_course_or_404, update_course,
  archive_course,
}
use smartcourse_core.Db.Postgres.{in_transaction}
use smartcourse_core.Effects.{M, ◌>>=◌, ◌>>◌, pure, raise}

module _ {P : Platform} where
  abbrev pub respond : {A : Type 0} → ℕ → A → M P (JsonResponse A)
  respond status_code content = pure (record { status_code = status_code; content = content })

  unfoldable pub create_course_route :
      CourseBody → Option P.Token → Settings → M P (JsonResponse (Envelope CoursePublic))
  unfolding in_transaction
  create_course_route raw credentials settings = in_transaction (do
    caller ← get_current_user credentials settings.security
    current_user ← require_roles ("instructor" ∷ []) caller
    body ← course_create raw
    course ← create_course body.title body.description body.level current_user.id
    content ← success (public_course course)
    respond 201 content)

  abbrev pub list_of :
      Checked (Option String)
      → Checked (Option CourseLevel)
      → Checked (Option CourseStatus)
      → Checked ℕ
      → Option P.Base64
      → M P (CursorPage P CoursePublic)
  list_of (good q) (good level) (good status) (good limit) cursor =
      list_courses q level status limit cursor
  list_of q level status limit cursor = raise (
      invalid_request (
        query_errors_of "q" q
        ++ (query_errors_of "level" level
            ++ (query_errors_of "status" status ++ query_errors_of "limit" limit))))

  unfoldable pub list_courses_route :
      ListQuery P → M P (JsonResponse (Envelope (CursorPage P CoursePublic)))
  unfolding in_transaction
  list_courses_route query = in_transaction (do
    page ←
        list_of (search_field query.q) (optional_member level_of query.level)
          (optional_member status_of_text query.status) (limit_field query.limit) query.cursor
    content ← success page
    respond 200 content)

  unfoldable pub get_course_route : ℕ → M P (JsonResponse (Envelope CoursePublic))
  unfolding in_transaction
  get_course_route course_id = in_transaction (do
    course ← get_course_or_404 course_id
    content ← success (public_course course)
    respond 200 content)

  unfoldable pub update_course_route :
      ℕ → CourseBody → Option P.Token → Settings → M P (JsonResponse (Envelope CoursePublic))
  unfolding in_transaction
  update_course_route course_id raw credentials settings = in_transaction (do
    current_user ← get_current_user credentials settings.security
    body ← course_update raw
    course ←
        update_course course_id current_user.id current_user.role body.title body.description
          body.level
    content ← success (public_course course)
    respond 200 content)

  unfoldable pub archive_course_route :
      ℕ → Option P.Token → Settings → M P (JsonResponse (Unit {0}))
  unfolding in_transaction
  archive_course_route course_id credentials settings = in_transaction (do
    current_user ← get_current_user credentials settings.security
    archive_course course_id current_user.id current_user.role
    respond 204 tt)
