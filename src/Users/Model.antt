-- ===== src/Users/Model.antt =====
-- src/modules/users/models.py, with the columns of the mixins of src/db/base.py. A UUID is the
-- number that it stands for, an instant is in microseconds since the epoch.
use smartcourse_core.Base.{Bool, String, ℕ}

pub data UserRole : Type 0 where
  student instructor admin : UserRole

-- The member's value, which the column stores (`values_callable`) and a `StrEnum` compares by.
abbrev pub role_value : UserRole → String
role_value student = "student"
role_value instructor = "instructor"
role_value admin = "admin"

pub record User : Type 0 where
  pub id : ℕ
  pub email : String
  pub hashed_password : String
  pub full_name : String
  pub role : UserRole
  pub is_active : Bool
  pub created_at : ℕ
  pub updated_at : ℕ
