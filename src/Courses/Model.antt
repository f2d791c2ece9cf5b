-- ===== src/Courses/Model.antt =====
-- src/modules/courses/models.py.
use smartcourse_core.Base.{String, ℕ}

pub data CourseLevel : Type 0 where
  beginner intermediate advanced : CourseLevel

pub data CourseStatus : Type 0 where
  draft published archived : CourseStatus

abbrev pub level_value : CourseLevel → String
level_value beginner = "beginner"
level_value intermediate = "intermediate"
level_value advanced = "advanced"

abbrev pub status_value : CourseStatus → String
status_value draft = "draft"
status_value published = "published"
status_value archived = "archived"

pub record Course : Type 0 where
  pub id : ℕ
  pub title : String
  pub description : String
  pub level : CourseLevel
  pub status : CourseStatus
  pub instructor_id : ℕ
  pub created_at : ℕ
  pub updated_at : ℕ
