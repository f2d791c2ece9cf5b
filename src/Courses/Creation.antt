-- ===== src/Courses/Creation.antt =====
-- The creation of a course by src/modules/courses/routes.py: who may create one, and what it is.
use smartcourse_core.Base.{
  Option, [], ap, false, none, some, ◌==◌, ◌∙◌, ◌∷◌, ◌≡◌, nat_eq, string_eq,
}
use smartcourse_core.Platform.{Platform}
use smartcourse_core.Config.{Settings}
use smartcourse_core.Core.Errors.{app, init_error, forbidden}
use smartcourse_core.Core.Dependencies.{CurrentUser, get_current_user, require_roles}
use smartcourse_core.Core.Handlers.{JsonResponse}
use smartcourse_core.Core.Response.{Envelope, success}
use smartcourse_core.Courses.Schemas.{CourseBody, course_create}
use smartcourse_core.Courses.Service.{CoursePublic, public_course, create_course}
use smartcourse_core.Courses.Routes.{create_course_route}
use smartcourse_core.Db.Transactions.{in_transaction-err}
use smartcourse_core.Effects.{World, M, ok, err, pure, bind-ok, bind-err, ◌>>=◌, ◌>>◌}

module _ {P : Platform} (raw : CourseBody) (credentials : Option P.Token) (settings : Settings)
    (w : World P) (caller : CurrentUser) where
  -- The handler once the roles are checked, and once the caller is known.
  abbrev create_for : CurrentUser → M P (JsonResponse (Envelope CoursePublic))
  create_for current_user = do
    body ← course_create raw
    course ← create_course body.title body.description body.level current_user.id
    content ← success (public_course course)
    pure (record { status_code = 201; content = content })

  abbrev check_role : CurrentUser → M P (JsonResponse (Envelope CoursePublic))
  check_role user = require_roles ("instructor" ∷ []) user >>= create_for

  role_refused :
      (caller.role == "instructor") ≡ false
      → require_roles {P = P} ("instructor" ∷ []) caller w
        ≡ (err (app (init_error forbidden (some "Requires one of roles: instructor") none)), w)
  unfolding require_roles
  role_refused other = simp (other, ◌>>=◌, ◌>>◌)

  -- A caller who is no instructor, an admin included, creates no course: the request is refused
  -- whatever its body is, and the transaction is rolled back.
  pub create_refused :
      get_current_user credentials settings.security w ≡ (ok caller, w)
      → (caller.role == "instructor") ≡ false
      → create_course_route raw credentials settings w ≡ (
        err (app (init_error forbidden (some "Requires one of roles: instructor") none)),
        record w { session = P.rollback w.session },
      )
  unfolding create_course_route
  create_refused known other =
      let ran =
        bind-ok (get_current_user credentials settings.security) check_role w known
        ∙ bind-err (require_roles ("instructor" ∷ []) caller) create_for w (role_refused other) in
      in_transaction-err (get_current_user credentials settings.security >>= check_role) w _
        (ap (λ r. r.0) ran)
      ∙ ap
          (λ r. (
            err (app (init_error forbidden (some "Requires one of roles: instructor") none)),
            record r.1 { session = P.rollback r.1.session },
          ))
          ran
