-- ===== src/Tests/Worlds.antt =====
-- A small database: two students, an instructor, their tokens and three courses.
use smartcourse_core.Base.{
  Option, String, [], if◌then◌else◌, none, some, true, ℕ, ◌*◌, ◌+◌, ◌==◌, ◌∷◌, nat_eq, string_eq,
}
use smartcourse_core.Platform.Redis.{number, text, second}
use smartcourse_core.Platform.Orm.{Database}
use smartcourse_core.Users.Model.{User, student, instructor}
use smartcourse_core.Auth.Model.{RefreshToken}
use smartcourse_core.Auth.Service.{failed_login_key, password_reset_key, register_throttle_key}
use smartcourse_core.Courses.Model.{Course, beginner, draft}
use smartcourse_core.Effects.{World}
use smartcourse_core.Tests.Memory.{memory, Keys}

abbrev pub start_time : ℕ
start_time = 1000000000

abbrev pub ann : User
ann = record {
  id = 1;
  email = "ann@x.org";
  hashed_password = "secret-a";
  full_name = "Ann";
  role = student;
  is_active = true;
  created_at = 5;
  updated_at = 5;
}

abbrev pub bob : User
bob = record {
  id = 2;
  email = "bob@x.org";
  hashed_password = "secret-b";
  full_name = "Bob";
  role = instructor;
  is_active = true;
  created_at = 6;
  updated_at = 6;
}

-- A refresh token: its id, user, family and raw text.
abbrev pub token_row : ℕ → ℕ → ℕ → String → Option ℕ → RefreshToken
token_row i user family raw revoked_at = record {
  id = i;
  user_id = user;
  family_id = family;
  token_hash = raw;
  expires_at = start_time + 100 * second;
  revoked_at = revoked_at;
  replaced_by_id = none;
  created_at = 10;
  updated_at = 10;
}

abbrev pub rotated_away : RefreshToken
rotated_away = token_row 1 1 7 "zero" (some 900)

abbrev pub current : RefreshToken
current = token_row 2 1 7 "one" none

abbrev pub of_bob : RefreshToken
of_bob = token_row 3 2 8 "two" none

abbrev pub course_row_of : ℕ → String → ℕ → Course
course_row_of i title created_at = record {
  id = i;
  title = title;
  description = "";
  level = beginner;
  status = draft;
  instructor_id = 2;
  created_at = created_at;
  updated_at = created_at;
}

abbrev pub logic : Course
logic = course_row_of 1 "Logic" 20

abbrev pub sets : Course
sets = course_row_of 2 "Sets" 20

abbrev pub types : Course
types = course_row_of 3 "Types" 30

abbrev pub tables : Database
tables = record {
  users = ann ∷ bob ∷ [];
  refresh_tokens = rotated_away ∷ current ∷ of_bob ∷ [];
  courses = logic ∷ sets ∷ types ∷ [];
}

-- Two failed logins of Ann are counted, and she may reset her password by "reset".
abbrev pub keys : Keys
keys k =
    if k == failed_login_key "ann@x.org"
    then some (record { value = number 2; deadline = some (start_time + second) })
    else if k == failed_login_key "bob@x.org"
    then some (record { value = number 9; deadline = some (start_time + second) })
    else if k == password_reset_key "reset"
    then some (record { value = text "1"; deadline = some (start_time + 60 * second) })
    else if k == register_throttle_key "busy"
    then some (record { value = number 10; deadline = some (start_time + 60 * second) })
    else none

abbrev pub world : World memory
world = record {
  session = record { working = tables; stored = tables };
  conn = keys;
  clock = start_time;
  draws = 50;
  logs = [];
  request_id = none;
}
