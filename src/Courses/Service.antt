-- ===== src/Courses/Service.antt =====
-- src/modules/courses/service.py.
use Prim.Native.String.{◌++◌ as append}
use smartcourse_core.Base.{
  Bool, List, Option, String, [], false, if◌then◌else◌, last?, length, ltb, map, none, not, some,
  take, true, ℕ, ◌&&◌, ◌+◌, ◌==◌, ◌||◌, ◌∷◌, nat_eq, string_eq,
}
use smartcourse_core.Platform.{Platform}
use smartcourse_core.Core.Errors.{unexpected, not_found, forbidden}
use smartcourse_core.Core.Response.{CursorPage, lookup, encode_cursor, decode_cursor}
use smartcourse_core.Courses.Model.{
  Course, CourseLevel, level_value, CourseStatus, draft, archived, status_value,
}
use smartcourse_core.Effects.{
  M, ◌>>=◌, ◌>>◌, pure, raise_app, raise_if, or_raise, now, draw, query, run_sql, flush,
}

-- src/modules/courses/schemas.py: the public form of a course.
pub record CoursePublic : Type 0 where
  pub id : ℕ
  pub title : String
  pub description : String
  pub level : CourseLevel
  pub status : CourseStatus
  pub instructor_id : ℕ
  pub created_at : ℕ
  pub updated_at : ℕ

-- `CoursePublic.model_validate(row, from_attributes=True)`
abbrev pub public_course : Course → CoursePublic
public_course c = record {
  id = c.id;
  title = c.title;
  description = c.description;
  level = c.level;
  status = c.status;
  instructor_id = c.instructor_id;
  created_at = c.created_at;
  updated_at = c.updated_at;
}

abbrev pub admin_role : String
admin_role = "admin"

-- `_can_modify`
abbrev pub can_modify : Course → ℕ → String → Bool
can_modify c current_user_id role = role == admin_role || c.instructor_id == current_user_id

-- `value if value is not None else old`
abbrev pub or_else {ℓ} : {A : Type ℓ} → Option A → A → A
or_else none old = old
or_else (some a) old = a

-- The attributes that the update sets.
abbrev pub updated : Option String → Option String → Option CourseLevel → Course → Course
updated title description level c = record c {
  title = or_else title c.title;
  description = or_else description c.description;
  level = or_else level c.level;
}

-- Whether an attribute of the row has changed, so that the flush issues an UPDATE.
abbrev pub is_dirty : Course → Course → Bool
is_dirty old new = not (
    old.title == new.title
    && old.description == new.description
    && level_value old.level == level_value new.level
    && status_value old.status == status_value new.status)

-- `onupdate` of the `updated_at` column
abbrev pub stamped : ℕ → Course → Course → Course
stamped t old new = if is_dirty old new then record new { updated_at = t } else new

-- A truthy text.
abbrev pub given : Option String → Option String
given none = none
given (some s) = if s == "" then none else some s

-- The position of a cursor, and the rows that come after it, newest first.
abbrev pub is_after : Option (ℕ × ℕ) → Course → Bool
is_after none c = true
is_after (some (t, i)) c = ltb c.created_at t || (c.created_at == t && ltb c.id i)

abbrev pub has_level : Option CourseLevel → Course → Bool
has_level none c = true
has_level (some l) c = level_value c.level == level_value l

abbrev pub has_status : Option CourseStatus → Course → Bool
has_status none c = true
has_status (some s) c = status_value c.status == status_value s

abbrev pub has_title : Platform → Option String → Course → Bool
has_title P none c = true
has_title P (some q) c = P.ilike c.title (append "%" (append q "%"))

-- The filters of a listing.
abbrev pub selects :
    Platform → Option String → Option CourseLevel → Option CourseStatus → Course → Bool
selects P q level status c = has_title P (given q) c && has_level level c && has_status status c

-- The cursor after the last row of a page.
abbrev pub cursor_of : (P : Platform) → Course → P.Base64
cursor_of P c =
    encode_cursor P (("created_at", P.isoformat c.created_at) ∷ ("id", P.str_uuid c.id) ∷ [])

-- `if has_more and rows`
abbrev pub next_cursor : (P : Platform) → Bool → List Course → Option P.Base64
next_cursor P false rows = none
next_cursor P true rows = elim (last? rows) [ none ↦ none | some c ↦ some (cursor_of P c) ]

abbrev pub page_of : (P : Platform) → ℕ → List Course → CursorPage P CoursePublic
page_of P limit rows =
    let has_more = ltb limit (length rows) in
    let shown = take limit rows in
    record {
      items = map public_course shown;
      next_cursor = next_cursor P has_more shown;
      has_more = has_more;
    }

module _ {P : Platform} where
  unfoldable pub create_course : String → String → CourseLevel → ℕ → M P Course
  create_course title description level instructor_id = do
    course_id ← draw P.uuid4
    t ← now
    let course : Course = record {
      id = course_id;
      title = title;
      description = description;
      level = level;
      status = draft;
      instructor_id = instructor_id;
      created_at = t;
      updated_at = t;
    }
    flush (P.add_course course)
    pure course

  abbrev pub course_or_404 : Option Course → M P Course
  course_or_404 none = raise_app not_found "Course not found"
  course_or_404 (some c) = pure c

  unfoldable pub get_course_or_404 : ℕ → M P Course
  get_course_or_404 course_id = do found ← query (P.get_course course_id); course_or_404 found

  -- `datetime.fromisoformat(position["created_at"])` and `uuid.UUID(position["id"])`
  abbrev pub read_position : List (String × String) → M P (Option (ℕ × ℕ))
  read_position position = do
    created_text ← or_raise (lookup "created_at" position) (unexpected "KeyError")
    created_at ← or_raise (P.fromisoformat created_text) (unexpected "ValueError")
    id_text ← or_raise (lookup "id" position) (unexpected "KeyError")
    course_id ← or_raise (P.parse_uuid id_text) (unexpected "ValueError")
    pure (some (created_at, course_id))

  abbrev pub decoded_position : P.Base64 → M P (Option (ℕ × ℕ))
  decoded_position cursor = do position ← decode_cursor cursor; read_position position

  -- `if cursor:`
  abbrev pub position_of : Option P.Base64 → M P (Option (ℕ × ℕ))
  position_of none = pure none
  position_of (some cursor) = if P.is_empty cursor then pure none else decoded_position cursor

  unfoldable pub list_courses :
      Option String
      → Option CourseLevel
      → Option CourseStatus
      → ℕ
      → Option P.Base64
      → M P (CursorPage P CoursePublic)
  unfolding decode_cursor
  list_courses q level status limit cursor = do
    position ← position_of cursor
    rows ←
        query
          (P.select_courses (λ c. selects P q level status c && is_after position c) (limit + 1))
    pure (page_of P limit rows)

  unfoldable pub update_course :
      ℕ → ℕ → String → Option String → Option String → Option CourseLevel → M P Course
  unfolding get_course_or_404
  update_course course_id current_user_id role title description level = do
    course ← get_course_or_404 course_id
    raise_if (not (can_modify course current_user_id role)) forbidden
        "Only the owning instructor or an admin can update this course"
    t ← now
    let new = stamped t course (updated title description level course)
    run_sql (P.save_course new)
    pure new

  unfoldable pub archive_course : ℕ → ℕ → String → M P Course
  unfolding get_course_or_404
  archive_course course_id current_user_id role = do
    course ← get_course_or_404 course_id
    raise_if (not (can_modify course current_user_id role)) forbidden
        "Only the owning instructor or an admin can archive this course"
    t ← now
    let new = stamped t course (record course { status = archived })
    run_sql (P.save_course new)
    pure new
