-- ===== src/Courses/Changes.antt =====
-- `update_course` and `archive_course` of src/modules/courses/service.py: who may change a course,
-- and what a change leaves.
use mathlib.Core.Path.{subst}
use smartcourse_core.Base.{
  ==-refl, Bool, List, Option, String, [], arith, false, filter, head?, if◌then◌else◌, none, refl,
  some, true, ℕ, ◌&&◌, ◌==◌, ◌||◌, ◌∙◌, ◌∷◌, ◌≡◌, nat_eq, string_eq,
}
use smartcourse_core.Platform.{Platform}
use smartcourse_core.Platform.Orm.{replace_course}
use smartcourse_core.Core.Errors.{Exception, app, init_error, forbidden}
use smartcourse_core.Courses.Model.{Course, CourseLevel, level_value, status_value, archived}
use smartcourse_core.Courses.Service.{
  or_else, can_modify, updated, stamped, get_course_or_404, update_course, archive_course,
}
use smartcourse_core.Effects.{World, ok, err, ◌>>=◌, ◌>>◌}

abbrev pub course_row : (P : Platform) → ℕ → World P → Option Course
course_row P i w = head? (filter (λ c. c.id == i) (P.view w.session).working.courses)

abbrev pub forbidden_error : String → Exception
forbidden_error message = app (init_error forbidden (some message) none)

-- A course that the flush stamps keeps its id.
stamped-id : (t : ℕ) (old new : Course) → (stamped t old new).id ≡ new.id
stamped-id t old new = ground arith

stamped-status : (t : ℕ) (old new : Course) → (stamped t old new).status ≡ new.status
stamped-status t old new = ground arith

head-id :
    (i : ℕ) (l : List Course) {c : Course} → head? (filter (λ d. d.id == i) l) ≡ some c → c.id ≡ i
head-id i [] h = cc
head-id i (d ∷ l) {c} h = ground (arith, head-id i l {c = c})

-- The row that was saved is the row that is found.
saved-found :
    (i : ℕ) (u : Course) (l : List Course) {c : Course}
    → u.id ≡ i
    → head? (filter (λ d. d.id == i) l) ≡ some c
    → head? (filter (λ d. d.id == i) (replace_course u l)) ≡ some u
saved-found i u [] id h = cc
saved-found i u (d ∷ l) {c} id h = ground (arith, saved-found i u l {c = c})

-- What the flush stamps, attribute by attribute.
stamped_parts :
    (t : ℕ) (c : Course) (title description : String) (level : CourseLevel) (a b d : Bool)
    → (c.title == title) ≡ a
    → (c.description == description) ≡ b
    → (level_value c.level == level_value level) ≡ d
    → stamped t c (record c { title = title; description = description; level = level })
      ≡ record c {
        title = title;
        description = description;
        level = level;
        updated_at = if a && (b && d) then c.updated_at else t;
      }
stamped_parts t c title description level a b d ea eb ed =
    let es = ==-refl (status_value c.status) in ground (arith, ea, eb, ed, es)

-- The value that is given, or the old one.
abbrev pub given_or {ℓ} : {A : Type ℓ} → Option A → A → A
given_or o old = elim o [ none ↦ old | some a ↦ a ]

or_else-given_or : {A : Type 0} (o : Option A) (old : A) → or_else o old ≡ given_or o old
or_else-given_or none old = refl
or_else-given_or (some a) old = refl

-- Whether a value of a text that is given is the old one.
abbrev pub same_text : Option String → String → Bool
same_text o old = elim o [ none ↦ true | some a ↦ old == a ]

abbrev pub same_level : Option CourseLevel → CourseLevel → Bool
same_level o old = elim o [ none ↦ true | some l ↦ level_value old == level_value l ]

or_else-same_text : (o : Option String) (old : String) → (old == or_else o old) ≡ same_text o old
or_else-same_text none old = ==-refl old
or_else-same_text (some a) old = refl

or_else-same_level :
    (o : Option CourseLevel) (old : CourseLevel)
    → (level_value old == level_value (or_else o old)) ≡ same_level o old
or_else-same_level none old = ==-refl (level_value old)
or_else-same_level (some a) old = refl

module _ {P : Platform} (course_id current_user_id : ℕ) (role : String)
    (title description : Option String) (level : Option CourseLevel) (w : World P)
    (course : Course) where
  got : course_row P course_id w ≡ some course → get_course_or_404 course_id w ≡ (ok course, w)
  unfolding get_course_or_404
  got there = rw (get_course_or_404, ◌>>=◌, P.get_course_lem, there) refl

  abbrev pub new_course : Course
  new_course = stamped w.clock course (updated title description level course)

  update_refused :
      course_row P course_id w ≡ some course
      → can_modify course current_user_id role ≡ false
      → update_course course_id current_user_id role title description level w
        ≡ (err (forbidden_error "Only the owning instructor or an admin can update this course"), w)
  unfolding update_course
  update_refused there not_theirs = simp (got there, not_theirs, ◌>>=◌, ◌>>◌)

  archive_refused :
      course_row P course_id w ≡ some course
      → can_modify course current_user_id role ≡ false
      → archive_course course_id current_user_id role w ≡ (
        err (forbidden_error "Only the owning instructor or an admin can archive this course"),
        w,
      )
  unfolding archive_course
  archive_refused there not_theirs = simp (got there, not_theirs, ◌>>=◌, ◌>>◌)

  -- Only an admin and the instructor of the course change it: for a user of any other role who is
  -- not the instructor of the course, an update and an archiving are refused, each with its message,
  -- and nothing of the world changes.
  pub change_refused :
      course_row P course_id w ≡ some course
      → (role == "admin") ≡ false
      → (course.instructor_id == current_user_id) ≡ false
      → (update_course course_id current_user_id role title description level w ≡ (
        err (forbidden_error "Only the owning instructor or an admin can update this course"),
        w,
      ))
        × (archive_course course_id current_user_id role w ≡ (
          err (forbidden_error "Only the owning instructor or an admin can archive this course"),
          w,
        ))
  change_refused there no_admin not_theirs =
      let refused : can_modify course current_user_id role ≡ false =
        rw (no_admin, not_theirs) refl in
      (update_refused there refused, archive_refused there refused)

  -- The course with the attributes that are given, and the time of the change if it is one.
  abbrev pub edited : Course
  edited = record course {
    title = given_or title course.title;
    description = given_or description course.description;
    level = given_or level course.level;
    updated_at =
        if same_text title course.title
          && (same_text description course.description && same_level level course.level)
        then course.updated_at
        else w.clock;
  }

  new_course-edited : new_course ≡ edited
  new_course-edited =
      stamped_parts w.clock course (or_else title course.title)
        (or_else description course.description) (or_else level course.level)
        (same_text title course.title) (same_text description course.description)
        (same_level level course.level) (or_else-same_text title course.title)
        (or_else-same_text description course.description) (or_else-same_level level course.level)
      ∙ rw
          (
            or_else-given_or title course.title,
            or_else-given_or description course.description,
            or_else-given_or level course.level,
          )
          refl

  -- The update returned the course, saved it and no other, and finds it afterwards.
  abbrev pub Saves : Course → Type 0
  Saves new =
      let (r, after) = update_course course_id current_user_id role title description level w in
      (r ≡ ok new)
      × (P.view after.session ≡ record (P.view w.session) {
        working = record (P.view w.session).working {
          courses = replace_course new (P.view w.session).working.courses;
        };
      })
      × (course_row P course_id after ≡ some new)

  update-Saves :
      course_row P course_id w ≡ some course
      → can_modify course current_user_id role ≡ true
      → Saves new_course
  unfolding update_course
  update-Saves there theirs =
      simp (got there, theirs, ◌>>=◌, ◌>>◌)
        (
          refl,
          P.view-save_course new_course w.session,
          rw (P.view-save_course new_course w.session) (
              saved-found course_id new_course (P.view w.session).working.courses
                (stamped-id w.clock course (updated title description level course)
                  ∙ head-id course_id (P.view w.session).working.courses there)
                there),
        )

  -- An update by an admin or the instructor of the course sets each attribute that is given and
  -- leaves the others as they are, in the row of the course and in no other; the time of the update
  -- is set if an attribute changes. The course is found so afterwards.
  pub update_changes_one :
      course_row P course_id w ≡ some course
      → (role == "admin" || course.instructor_id == current_user_id) ≡ true
      → let after = (update_course course_id current_user_id role title description level w).1 in
        ((update_course course_id current_user_id role title description level w).0 ≡ ok edited)
        × (P.view after.session ≡ record (P.view w.session) {
          working = record (P.view w.session).working {
            courses = replace_course edited (P.view w.session).working.courses;
          };
        })
        × (course_row P course_id after ≡ some edited)
  update_changes_one there theirs = subst Saves new_course-edited (update-Saves there theirs)

  abbrev pub archived_course : Course
  archived_course = stamped w.clock course (record course { status = archived })

  -- An archiving by one who may do it sets the status of the course, in its row and in no other,
  -- and the course is found so afterwards.
  pub archive_changes_one :
      course_row P course_id w ≡ some course
      → can_modify course current_user_id role ≡ true
      → let after = (archive_course course_id current_user_id role w).1 in
        ((archive_course course_id current_user_id role w).0 ≡ ok archived_course)
        × (archived_course.status ≡ archived)
        × (P.view after.session ≡ record (P.view w.session) {
          working = record (P.view w.session).working {
            courses = replace_course archived_course (P.view w.session).working.courses;
          };
        })
        × (course_row P course_id after ≡ some archived_course)
  unfolding archive_course
  archive_changes_one there theirs =
      simp (got there, theirs, ◌>>=◌, ◌>>◌)
        (
          refl,
          stamped-status w.clock course (record course { status = archived }),
          P.view-save_course archived_course w.session,
          rw (P.view-save_course archived_course w.session) (
              saved-found course_id archived_course (P.view w.session).working.courses
                (stamped-id w.clock course (record course { status = archived })
                  ∙ head-id course_id (P.view w.session).working.courses there)
                there),
        )
