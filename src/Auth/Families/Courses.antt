-- ===== src/Auth/Families/Courses.antt =====
-- The service functions of src/modules/courses/service.py leave the refresh tokens sound.
use Prim.Native.String.{◌++◌ as append}
use smartcourse_core.Base.{
  Bool, Bool-cases, List, Option, String, [], any, arith, false, if◌then◌else◌, inl, inr, none, not,
  some, true, ℕ, ◌&&◌, ◌++◌, ◌+◌, ◌==◌, ◌||◌, ◌∙◌, ◌∷◌, nat_eq, string_eq,
}
use smartcourse_core.Platform.{Platform}
use smartcourse_core.Auth.Model.{RefreshToken}
use smartcourse_core.Core.Errors.{unexpected, forbidden}
use smartcourse_core.Core.Response.{lookup, decode_cursor}
use smartcourse_core.Core.Validation.{Checked, good, text_field, optional_field}
use smartcourse_core.Core.Dependencies.{CurrentUser, require_roles, join}
use smartcourse_core.Courses.Model.{Course, CourseLevel, CourseStatus, archived, draft}
use smartcourse_core.Courses.Schemas.{
  CourseBody, course_create, create_of, course_update, update_of, level_of, default_level,
  optional_member,
}
use smartcourse_core.Courses.Service.{
  create_course, course_or_404, get_course_or_404, read_position, decoded_position, position_of,
  list_courses, update_course, archive_course, can_modify, stamped, updated, selects, is_after,
  page_of,
}
use smartcourse_core.Courses.Routes.{list_of}
use smartcourse_core.Platform.Orm.{has_user}
use smartcourse_core.Auth.Issue.{map-eq-some}
use smartcourse_core.Auth.Families.Insert.{map-eq-none}
use smartcourse_core.Auth.Families.Requests.{Keeps-or_raise}
use smartcourse_core.Auth.Families.Keeps.{
  Keeps, Keeps-bind, Keeps-query, Keeps-raise_if, Keeps-returned, Good-drawn,
}
use smartcourse_core.Effects.{M, ◌>>=◌, ◌>>◌, pure, or_raise, raise_if, now, query, run_sql, flush}

module _ {P : Platform} {base : List RefreshToken} where
  Keeps-add_course : (course : Course) → Keeps {P = P} base (flush {P = P} (P.add_course course))
  Keeps-add_course course w g =
      let db = (P.view w.session).working in
      elim (Bool-cases
        (not (has_user course.instructor_id db) || any (λ d. d.id == course.id) db.courses)) [
          | inl h ↦
              let refused =
                map-eq-none P.view (P.add_course course w.session)
                  (P.add_course_lem course w.session ∙ rw h) in
              rw refused g
          | inr h ↦
              let (s', added, seen) =
                map-eq-some P.view (P.add_course course w.session)
                  {b = record (P.view w.session) {
                    working = record db { courses = db.courses ++ course ∷ [] };
                  }}
                  (P.add_course_lem course w.session ∙ rw h) in
              rw (added, seen) g
        ]

  pub Keeps-create_course :
      (title description : String) (level : CourseLevel) (instructor_id : ℕ)
      → Keeps {P = P} base (create_course title description level instructor_id)
  unfolding create_course
  Keeps-create_course title description level instructor_id w g =
      let course : Course = record {
        id = P.uuid4 w.draws;
        title = title;
        description = description;
        level = level;
        status = draft;
        instructor_id = instructor_id;
        created_at = w.clock;
        updated_at = w.clock;
      } in
      Keeps-returned (flush (P.add_course course)) (λ _. course) (Keeps-add_course course)
        (record w { draws = w.draws + 1 }) (Good-drawn w (w.draws + 1) (omega arith) g)

  Keeps-course_or_404 : (found : Option Course) → Keeps {P = P} base (course_or_404 found)
  Keeps-course_or_404 none w g = g
  Keeps-course_or_404 (some c) w g = g

  pub Keeps-get_course_or_404 : (i : ℕ) → Keeps {P = P} base (get_course_or_404 i)
  unfolding get_course_or_404
  Keeps-get_course_or_404 i =
      Keeps-bind (query (P.get_course i)) course_or_404 (Keeps-query (P.get_course i))
        Keeps-course_or_404

module _ {P : Platform} where
  -- A change of a course by one who may make it.
  abbrev change : (Course → Course) → Course → M P Course
  change f course = do
    t ← now
    let new = stamped t course (f course)
    run_sql (P.save_course new)
    pure new

module _ {P : Platform} {base : List RefreshToken} where
  Keeps-changed :
      (f : Course → Course) (allowed : Bool) (message : String) (course : Course)
      → Keeps {P = P} base (raise_if (not allowed) forbidden message >> change f course)
  Keeps-changed f allowed message course =
      Keeps-bind (raise_if (not allowed) forbidden message) (λ _. change f course)
        (Keeps-raise_if (not allowed) forbidden message)
        (λ _ w g. rw (P.view-save_course (stamped w.clock course (f course)) w.session) g)

  pub Keeps-update_course :
      (course_id current_user_id : ℕ) (role : String) (title description : Option String)
      (level : Option CourseLevel)
      → Keeps {P = P} base (update_course course_id current_user_id role title description level)
  unfolding update_course
  Keeps-update_course course_id current_user_id role title description level =
      let message : String = "Only the owning instructor or an admin can update this course" in
      Keeps-bind (get_course_or_404 course_id)
        (λ course.
          raise_if (not (can_modify course current_user_id role)) forbidden message
          >> change (updated title description level) course)
        (Keeps-get_course_or_404 course_id)
        (λ course.
          Keeps-changed (updated title description level) (can_modify course current_user_id role)
            message course)

  pub Keeps-archive_course :
      (course_id current_user_id : ℕ) (role : String)
      → Keeps {P = P} base (archive_course course_id current_user_id role)
  unfolding archive_course
  Keeps-archive_course course_id current_user_id role =
      let message : String = "Only the owning instructor or an admin can archive this course" in
      let put_away : Course → Course = λ c. record c { status = archived } in
      Keeps-bind (get_course_or_404 course_id)
        (λ course.
          raise_if (not (can_modify course current_user_id role)) forbidden message
          >> change put_away course)
        (Keeps-get_course_or_404 course_id)
        (λ course. Keeps-changed put_away (can_modify course current_user_id role) message course)

  pub Keeps-require_roles :
      (roles : List String) (u : CurrentUser) → Keeps {P = P} base (require_roles roles u)
  unfolding require_roles
  Keeps-require_roles roles u =
      let allowed = any (λ r. u.role == r) roles in
      let message : String = append "Requires one of roles: " (join roles) in
      Keeps-returned (raise_if (not allowed) forbidden message) (λ _. u)
        (Keeps-raise_if (not allowed) forbidden message)

  Keeps-create_of :
      (t d : Checked String) (l : Checked CourseLevel) → Keeps {P = P} base (create_of t d l)
  Keeps-create_of (good t) (good d) (good l) w g = g
  Keeps-create_of t d l w g = g

  pub Keeps-course_create : (b : CourseBody) → Keeps {P = P} base (course_create b)
  unfolding course_create
  Keeps-course_create b =
      Keeps-create_of (text_field 1 255 b.title) (text_field 1 10000 b.description)
        (default_level (optional_member level_of b.level))

  Keeps-update_of :
      (t d : Checked (Option String)) (l : Checked (Option CourseLevel))
      → Keeps {P = P} base (update_of t d l)
  Keeps-update_of (good t) (good d) (good l) w g = g
  Keeps-update_of t d l w g = g

  pub Keeps-course_update : (b : CourseBody) → Keeps {P = P} base (course_update b)
  unfolding course_update
  Keeps-course_update b =
      Keeps-update_of (optional_field 1 255 b.title) (optional_field 1 10000 b.description)
        (optional_member level_of b.level)

  Keeps-read_position :
      (position : List (String × String)) → Keeps {P = P} base (read_position position)
  Keeps-read_position position =
      Keeps-bind (or_raise (lookup "created_at" position) (unexpected "KeyError"))
        (λ created_text. do
          created_at ← or_raise (P.fromisoformat created_text) (unexpected "ValueError")
          id_text ← or_raise (lookup "id" position) (unexpected "KeyError")
          course_id ← or_raise (P.parse_uuid id_text) (unexpected "ValueError")
          pure (some (created_at, course_id)))
        (Keeps-or_raise (lookup "created_at" position) (unexpected "KeyError"))
        (λ created_text.
          Keeps-bind (or_raise (P.fromisoformat created_text) (unexpected "ValueError"))
            (λ created_at. do
              id_text ← or_raise (lookup "id" position) (unexpected "KeyError")
              course_id ← or_raise (P.parse_uuid id_text) (unexpected "ValueError")
              pure (some (created_at, course_id)))
            (Keeps-or_raise (P.fromisoformat created_text) (unexpected "ValueError"))
            (λ created_at.
              Keeps-bind (or_raise (lookup "id" position) (unexpected "KeyError"))
                (λ id_text. do
                  course_id ← or_raise (P.parse_uuid id_text) (unexpected "ValueError")
                  pure (some (created_at, course_id)))
                (Keeps-or_raise (lookup "id" position) (unexpected "KeyError"))
                (λ id_text.
                  Keeps-returned (or_raise (P.parse_uuid id_text) (unexpected "ValueError"))
                    (λ course_id. some (created_at, course_id))
                    (Keeps-or_raise (P.parse_uuid id_text) (unexpected "ValueError")))))

  Keeps-decoded_position : (cursor : P.Base64) → Keeps {P = P} base (decoded_position cursor)
  unfolding decode_cursor
  Keeps-decoded_position cursor =
      Keeps-bind (decode_cursor cursor) read_position
        (Keeps-bind (or_raise (P.b64decode cursor) (unexpected "ValueError"))
          (λ raw. or_raise (P.loads raw) (unexpected "ValueError"))
          (Keeps-or_raise (P.b64decode cursor) (unexpected "ValueError"))
          (λ raw. Keeps-or_raise (P.loads raw) (unexpected "ValueError")))
        Keeps-read_position

  Keeps-if :
      {A : Type 0} (b : Bool) (m n : M P A)
      → Keeps base m
      → Keeps base n
      → Keeps base (if b then m else n)
  Keeps-if true m n k l = k
  Keeps-if false m n k l = l

  Keeps-position_of : (cursor : Option P.Base64) → Keeps {P = P} base (position_of cursor)
  Keeps-position_of none = λ w g. g
  Keeps-position_of (some cursor) =
      Keeps-if (P.is_empty cursor) (pure none) (decoded_position cursor) (λ w g. g)
        (Keeps-decoded_position cursor)

  Keeps-list_courses :
      (q : Option String) (level : Option CourseLevel) (status : Option CourseStatus) (limit : ℕ)
      (cursor : Option P.Base64)
      → Keeps {P = P} base (list_courses q level status limit cursor)
  unfolding list_courses
  Keeps-list_courses q level status limit cursor =
      let rows : Option (ℕ × ℕ) → M P (List Course) = λ position.
        query
          (P.select_courses (λ c. selects P q level status c && is_after position c) (limit + 1)) in
      Keeps-bind (position_of cursor) (λ position. rows position >>= λ r. pure (page_of P limit r))
        (Keeps-position_of cursor)
        (λ position. Keeps-returned (rows position) (page_of P limit) (λ w g. g))

  pub Keeps-list_of :
      (q : Checked (Option String)) (level : Checked (Option CourseLevel))
      (status : Checked (Option CourseStatus)) (limit : Checked ℕ) (cursor : Option P.Base64)
      → Keeps {P = P} base (list_of q level status limit cursor)
  Keeps-list_of (good q) (good level) (good status) (good limit) cursor w g =
      Keeps-list_courses q level status limit cursor w g
  Keeps-list_of q level status limit cursor w g = g
