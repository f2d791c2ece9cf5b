-- ===== src/Migrations/Versions.antt =====
-- migrations/postgres/versions: the statements of each `upgrade` and `downgrade`.
use smartcourse_core.Base.{Bool, List, Option, String, [], false, none, some, true, ◌∷◌}
use smartcourse_core.Migrations.Ddl.{
  ColumnType, string, text, uuid, timestamptz, boolean, enum, Column, primary_key, foreign_key,
  Table, Index, Op, create_table, drop_table, create_index, drop_index, drop_enum,
}

-- A revision with the one below it.
pub record Migration : Type 0 where
  pub revision : String
  pub down_revision : Option String
  pub upgrade : List Op
  pub downgrade : List Op

-- `sa.Column(name, type, nullable=False)`
abbrev pub column : String → ColumnType → Column
column name type = record { name = name; type = type; nullable = false }

abbrev pub nullable_column : String → ColumnType → Column
nullable_column name type = record { name = name; type = type; nullable = true }

-- An index on one column.
abbrev pub index_on : String → String → String → Bool → Index
index_on name table column unique = record {
  name = name;
  table = table;
  columns = column ∷ [];
  unique = unique;
}

-- 856057a1ea54_baseline.py
abbrev pub baseline : Migration
baseline = record { revision = "856057a1ea54"; down_revision = none; upgrade = []; downgrade = [] }

abbrev pub users_table : Table
users_table = record {
  name = "users";
  columns =
      column "email" (string 255)
      ∷ column "hashed_password" (string 255)
      ∷ column "full_name" (string 255)
      ∷ column "role" (enum "user_role" ("student" ∷ "instructor" ∷ "admin" ∷ []))
      ∷ column "is_active" boolean
      ∷ column "id" uuid
      ∷ column "created_at" timestamptz
      ∷ column "updated_at" timestamptz
      ∷ [];
  constraints = primary_key "id" "pk_users" ∷ [];
}

abbrev pub refresh_tokens_table : Table
refresh_tokens_table = record {
  name = "refresh_tokens";
  columns =
      column "user_id" uuid
      ∷ column "family_id" uuid
      ∷ column "token_hash" (string 64)
      ∷ column "expires_at" timestamptz
      ∷ nullable_column "revoked_at" timestamptz
      ∷ nullable_column "replaced_by_id" uuid
      ∷ column "id" uuid
      ∷ column "created_at" timestamptz
      ∷ column "updated_at" timestamptz
      ∷ [];
  constraints =
      foreign_key "replaced_by_id" "refresh_tokens" "id"
        "fk_refresh_tokens_replaced_by_id_refresh_tokens" (some "SET NULL")
      ∷ foreign_key "user_id" "users" "id" "fk_refresh_tokens_user_id_users" (some "CASCADE")
      ∷ primary_key "id" "pk_refresh_tokens"
      ∷ [];
}

-- a8ef86b23e0c_add_users_and_refresh_tokens_tables.py
abbrev pub add_users_and_refresh_tokens : Migration
add_users_and_refresh_tokens = record {
  revision = "a8ef86b23e0c";
  down_revision = some "856057a1ea54";
  upgrade =
      create_table users_table
      ∷ create_index (index_on "ix_users_email" "users" "email" true)
      ∷ create_table refresh_tokens_table
      ∷ create_index (index_on "ix_refresh_tokens_family_id" "refresh_tokens" "family_id" false)
      ∷ create_index (index_on "ix_refresh_tokens_token_hash" "refresh_tokens" "token_hash" true)
      ∷ create_index (index_on "ix_refresh_tokens_user_id" "refresh_tokens" "user_id" false)
      ∷ [];
  downgrade =
      drop_index "ix_refresh_tokens_user_id" "refresh_tokens"
      ∷ drop_index "ix_refresh_tokens_token_hash" "refresh_tokens"
      ∷ drop_index "ix_refresh_tokens_family_id" "refresh_tokens"
      ∷ drop_table "refresh_tokens"
      ∷ drop_index "ix_users_email" "users"
      ∷ drop_table "users"
      ∷ drop_enum "user_role"
      ∷ [];
}

abbrev pub courses_table : Table
courses_table = record {
  name = "courses";
  columns =
      column "title" (string 255)
      ∷ column "description" text
      ∷ column "level" (enum "course_level" ("beginner" ∷ "intermediate" ∷ "advanced" ∷ []))
      ∷ column "status" (enum "course_status" ("draft" ∷ "published" ∷ "archived" ∷ []))
      ∷ column "instructor_id" uuid
      ∷ column "id" uuid
      ∷ column "created_at" timestamptz
      ∷ column "updated_at" timestamptz
      ∷ [];
  constraints =
      foreign_key "instructor_id" "users" "id" "fk_courses_instructor_id_users" none
      ∷ primary_key "id" "pk_courses"
      ∷ [];
}

-- 5b286c6a5bb9_add_courses_table.py
abbrev pub add_courses : Migration
add_courses = record {
  revision = "5b286c6a5bb9";
  down_revision = some "a8ef86b23e0c";
  upgrade =
      create_table courses_table
      ∷ create_index (index_on "ix_courses_instructor_id" "courses" "instructor_id" false)
      ∷ create_index (index_on "ix_courses_title" "courses" "title" false)
      ∷ [];
  downgrade =
      drop_index "ix_courses_title" "courses"
      ∷ drop_index "ix_courses_instructor_id" "courses"
      ∷ drop_table "courses"
      ∷ drop_enum "course_status"
      ∷ drop_enum "course_level"
      ∷ [];
}
