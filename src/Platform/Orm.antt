-- ===== src/Platform/Orm.antt =====
-- The SQLAlchemy session over PostgreSQL as the program uses it: the rows that the transaction
-- sees, and those that are committed.
use mathlib.Core.Option
use smartcourse_core.Base.{
  Bool, List, Option, [], any, filter, head?, if◌then◌else◌, ltb, none, not, some, take, ℕ, ◌&&◌,
  ◌++◌, ◌==◌, ◌||◌, ◌∷◌, ◌≡◌, nat_eq, string_eq,
}
use smartcourse_core.Base.Rows.{replace_row}
use smartcourse_core.Users.Model.{User}
use smartcourse_core.Auth.Model.{RefreshToken}
use smartcourse_core.Courses.Model.{Course}

pub record Database : Type 0 where
  pub users : List User
  pub refresh_tokens : List RefreshToken
  pub courses : List Course

pub record Transaction : Type 0 where
  pub working : Database
  pub stored : Database

abbrev pub has_user : ℕ → Database → Bool
has_user i db = any (λ u. u.id == i) db.users

-- An INSERT under the primary keys, the unique indexes and the foreign keys of the migrations;
-- none is an IntegrityError.
abbrev pub insert_user : User → Database → Option Database
insert_user u db =
    if any (λ v. v.id == u.id || v.email == u.email) db.users
    then none
    else some (record db { users = db.users ++ u ∷ [] })

abbrev pub insert_token : RefreshToken → Database → Option Database
insert_token t db =
    if not (has_user t.user_id db)
      || any (λ r. r.id == t.id || r.token_hash == t.token_hash) db.refresh_tokens
    then none
    else some (record db { refresh_tokens = db.refresh_tokens ++ t ∷ [] })

abbrev pub insert_course : Course → Database → Option Database
insert_course c db =
    if not (has_user c.instructor_id db) || any (λ d. d.id == c.id) db.courses
    then none
    else some (record db { courses = db.courses ++ c ∷ [] })

-- An UPDATE of the row with the same primary key.
abbrev pub replace_user : User → List User → List User
replace_user = replace_row (λ x. x.id)

abbrev pub replace_token : RefreshToken → List RefreshToken → List RefreshToken
replace_token = replace_row (λ x. x.id)

abbrev pub replace_course : Course → List Course → List Course
replace_course = replace_row (λ x. x.id)

-- One statement of a session changes the rows that its transaction sees, and no committed ones.
abbrev pub with_working : Transaction → Option Database → Option Transaction
with_working t none = none
with_working t (some db) = some (record t { working = db })

abbrev pub with_tokens : Transaction → List RefreshToken → Transaction
with_tokens t rows = record t { working = record t.working { refresh_tokens = rows } }

-- ORDER BY created_at DESC, id DESC
abbrev pub is_newer : Course → Course → Bool
is_newer c d = ltb d.created_at c.created_at || (c.created_at == d.created_at && ltb d.id c.id)

abbrev pub insert_newest : Course → List Course → List Course
insert_newest c [] = c ∷ []
insert_newest c (d ∷ l) = if is_newer c d then c ∷ d ∷ l else d ∷ insert_newest c l

abbrev pub newest_first : List Course → List Course
newest_first [] = []
newest_first (c ∷ l) = insert_newest c (newest_first l)

pub record OrmSession : Type 1 where
  pub Session : Type 0
  pub view : Session → Transaction
  pub select_users : (User → Bool) → Session → List User
  pub select_tokens : (RefreshToken → Bool) → Session → List RefreshToken
  pub select_courses : (Course → Bool) → ℕ → Session → List Course
  pub get_user : ℕ → Session → Option User
  pub get_course : ℕ → Session → Option Course
  pub add_user : User → Session → Option Session
  pub add_token : RefreshToken → Session → Option Session
  pub add_course : Course → Session → Option Session
  pub save_user : User → Session → Session
  pub save_token : RefreshToken → Session → Session
  pub save_course : Course → Session → Session
  pub commit : Session → Session
  pub rollback : Session → Session
  pub select_users_lem :
      (p : User → Bool) (s : Session) → select_users p s ≡ filter p (view s).working.users
  pub select_tokens_lem :
      (p : RefreshToken → Bool) (s : Session)
      → select_tokens p s ≡ filter p (view s).working.refresh_tokens
  pub select_courses_lem :
      (p : Course → Bool) (n : ℕ) (s : Session)
      → select_courses p n s ≡ take n (filter p (newest_first (view s).working.courses))
  pub get_user_lem :
      (i : ℕ) (s : Session) → get_user i s ≡ head? (filter (λ u. u.id == i) (view s).working.users)
  pub get_course_lem :
      (i : ℕ) (s : Session)
      → get_course i s ≡ head? (filter (λ c. c.id == i) (view s).working.courses)
  pub add_user_lem :
      (u : User) (s : Session)
      → Option.map view (add_user u s) ≡ with_working (view s) (insert_user u (view s).working)
  pub add_token_lem :
      (t : RefreshToken) (s : Session)
      → Option.map view (add_token t s) ≡ with_working (view s) (insert_token t (view s).working)
  pub add_course_lem :
      (c : Course) (s : Session)
      → Option.map view (add_course c s) ≡ with_working (view s) (insert_course c (view s).working)
  pub view-save_user :
      (u : User) (s : Session)
      → view (save_user u s) ≡ record (view s) {
        working = record (view s).working { users = replace_user u (view s).working.users };
      }
  pub view-save_token :
      (t : RefreshToken) (s : Session)
      → view (save_token t s) ≡ record (view s) {
        working = record (view s).working {
          refresh_tokens = replace_token t (view s).working.refresh_tokens;
        };
      }
  pub view-save_course :
      (c : Course) (s : Session)
      → view (save_course c s) ≡ record (view s) {
        working = record (view s).working { courses = replace_course c (view s).working.courses };
      }
  pub view-commit : (s : Session) → view (commit s) ≡ record (view s) { stored = (view s).working }
  pub view-rollback :
      (s : Session) → view (rollback s) ≡ record (view s) { working = (view s).stored }
