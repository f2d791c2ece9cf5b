-- ===== src/Courses/Schemas.antt =====
-- src/modules/courses/schemas.py: the bodies of the requests, and the query of a listing.
use Prim.Native.String.{count as count_characters}
use smartcourse_core.Base.{
  Option, String, if◌then◌else◌, ltb, none, some, ℕ, ◌++◌, ◌==◌, nat_eq, string_eq,
}
use smartcourse_core.Platform.{Platform}
use smartcourse_core.Core.Errors.{invalid_request}
use smartcourse_core.Core.Validation.{Checked, good, bad, errors_of, text_field, optional_field}
use smartcourse_core.Courses.Model.{
  CourseLevel, beginner, intermediate, advanced, CourseStatus, draft, published, archived,
}
use smartcourse_core.Effects.{M, pure, raise}

pub record CourseBody : Type 0 where
  pub title : Option String
  pub description : Option String
  pub level : Option String

pub record CourseCreate : Type 0 where
  pub title : String
  pub description : String
  pub level : CourseLevel

pub record CourseUpdate : Type 0 where
  pub title : Option String
  pub description : Option String
  pub level : Option CourseLevel

pub record ListQuery (P : Platform) : Type 0 where
  pub q : Option String
  pub level : Option String
  pub status : Option String
  pub limit : Option ℕ
  pub cursor : Option P.Base64

-- The member with a value.
abbrev pub level_of : String → Option CourseLevel
level_of s =
    if s == "beginner"
    then some beginner
    else if s == "intermediate"
    then some intermediate
    else if s == "advanced"
    then some advanced
    else none

abbrev pub status_of_text : String → Option CourseStatus
status_of_text s =
    if s == "draft"
    then some draft
    else if s == "published"
    then some published
    else if s == "archived"
    then some archived
    else none

abbrev member : {A : Type 0} → Option A → Checked (Option A)
member none = bad "enum"
member (some a) = good (some a)

abbrev pub optional_member : {A : Type 0} → (String → Option A) → Option String → Checked (Option A)
optional_member f none = good none
optional_member f (some s) = member (f s)

abbrev pub default_level : Checked (Option CourseLevel) → Checked CourseLevel
default_level (good none) = good beginner
default_level (good (some l)) = good l
default_level (bad kind) = bad kind

-- `int = Query(default=20, ge=1, le=100)`
abbrev pub limit_field : Option ℕ → Checked ℕ
limit_field none = good 20
limit_field (some n) =
    if ltb n 1
    then bad "greater_than_equal"
    else if ltb 100 n
    then bad "less_than_equal"
    else good n

-- `str | None = Query(default=None, max_length=255)`
abbrev pub search_field : Option String → Checked (Option String)
search_field none = good none
search_field (some s) =
    if ltb 255 (count_characters s) then bad "string_too_long" else good (some s)

module _ {P : Platform} where
  abbrev pub create_of : Checked String → Checked String → Checked CourseLevel → M P CourseCreate
  create_of (good t) (good d) (good l) = pure (record { title = t; description = d; level = l })
  create_of t d l =
      raise (
        invalid_request (errors_of "title" t ++ (errors_of "description" d ++ errors_of "level" l)))

  unfoldable pub course_create : CourseBody → M P CourseCreate
  course_create b =
      create_of (text_field 1 255 b.title) (text_field 1 10000 b.description)
        (default_level (optional_member level_of b.level))

  abbrev pub update_of :
      Checked (Option String)
      → Checked (Option String)
      → Checked (Option CourseLevel)
      → M P CourseUpdate
  update_of (good t) (good d) (good l) = pure (record { title = t; description = d; level = l })
  update_of t d l =
      raise (
        invalid_request (errors_of "title" t ++ (errors_of "description" d ++ errors_of "level" l)))

  unfoldable pub course_update : CourseBody → M P CourseUpdate
  course_update b =
      update_of (optional_field 1 255 b.title) (optional_field 1 10000 b.description)
        (optional_member level_of b.level)
