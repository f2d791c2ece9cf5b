-- ===== src/Auth/Families/Reach.antt =====
-- Any sequence of requests to the routes of src/modules/auth/routes.py and
-- src/modules/courses/routes.py, from an empty table of refresh tokens: each request runs in a
-- transaction of its own.
use smartcourse_core.Base.{List, Option, String, [], ap, arith, ℕ, ◌+◌, ◌≡◌, ◌≤◌}
use smartcourse_core.Platform.{Platform}
use smartcourse_core.Auth.Model.{RefreshToken}
use smartcourse_core.Config.{Settings}
use smartcourse_core.Auth.Schemas.{RegisterBody, LoginBody, ResetPasswordBody}
use smartcourse_core.Auth.Routes.{
  register_route, login_route, refresh_route, logout_route, forgot_password_route,
  reset_password_route, me_route,
}
use smartcourse_core.Courses.Schemas.{CourseBody, ListQuery}
use smartcourse_core.Courses.Routes.{
  create_course_route, list_courses_route, get_course_route, update_course_route,
  archive_course_route,
}
use smartcourse_core.Auth.Families.CourseRoutes.{
  Keeps-create_course_route, Keeps-list_courses_route, Keeps-get_course_route,
  Keeps-update_course_route, Keeps-archive_course_route, Keeps-me_route,
}
use smartcourse_core.Auth.Families.Active.{Apart, Sound, Sound-nil, active}
use smartcourse_core.Auth.Families.History.{Grown, Grows, Grows-refl}
use smartcourse_core.Auth.Families.Branches.{stored_rows}
use smartcourse_core.Auth.Families.Automaton.{Settled}
use smartcourse_core.Auth.Families.Keeps.{Good, Good-drawn}
use smartcourse_core.Auth.Families.Routes.{
  Keeps-register_route, Keeps-login_route, Keeps-refresh_route, Keeps-logout_route,
  Keeps-forgot_password_route, Keeps-reset_password_route,
}
use smartcourse_core.Effects.{World}

-- One request, however it ends, or time that passes, or a random value that another process draws.
pub data Step {P : Platform} : World P → World P → Type 0 where
  registers :
      (raw : RegisterBody) (client : Option String) (settings : Settings) (w : World P)
      → Step w (register_route raw client settings w).1
  logs_in :
      (raw : LoginBody) (settings : Settings) (w : World P) → Step w (login_route raw settings w).1
  refreshes :
      (raw : Option String) (settings : Settings) (w : World P)
      → Step w (refresh_route raw settings w).1
  logs_out :
      (raw : Option String) (credentials : Option P.Token) (settings : Settings) (w : World P)
      → Step w (logout_route raw credentials settings w).1
  forgets :
      (raw : Option String) (settings : Settings) (w : World P)
      → Step w (forgot_password_route raw settings w).1
  resets : (raw : ResetPasswordBody) (w : World P) → Step w (reset_password_route raw w).1
  asks_me :
      (credentials : Option P.Token) (settings : Settings) (w : World P)
      → Step w (me_route credentials settings w).1
  creates_course :
      (raw : CourseBody) (credentials : Option P.Token) (settings : Settings) (w : World P)
      → Step w (create_course_route raw credentials settings w).1
  lists_courses : (asked : ListQuery P) (w : World P) → Step w (list_courses_route asked w).1
  gets_course : (course_id : ℕ) (w : World P) → Step w (get_course_route course_id w).1
  updates_course :
      (course_id : ℕ) (raw : CourseBody) (credentials : Option P.Token) (settings : Settings)
      (w : World P)
      → Step w (update_course_route course_id raw credentials settings w).1
  archives_course :
      (course_id : ℕ) (credentials : Option P.Token) (settings : Settings) (w : World P)
      → Step w (archive_course_route course_id credentials settings w).1
  waits : (time : ℕ) (w : World P) → Step w (record w { clock = w.clock + time })
  draws : (n : ℕ) (w : World P) → Step w (record w { draws = w.draws + n })

pub data Reach {P : Platform} (start : World P) : World P → Type 0 where
  here : Reach start start
  after : {v w : World P} → Reach start v → Step v w → Reach start w

-- No refresh token was stored yet.
abbrev pub NoTokens : {P : Platform} → World P → Type 0
NoTokens {P} w =
    ((P.view w.session).working.refresh_tokens ≡ [])
    × ((P.view w.session).stored.refresh_tokens ≡ [])

module _ {P : Platform} (apart : Apart P) where
  Step-Good : {base : List RefreshToken} {v w : World P} → Step v w → Good base v → Good base w
  Step-Good (registers raw client settings v) g = Keeps-register_route raw client settings v g
  Step-Good (logs_in raw settings v) g = Keeps-login_route raw settings apart v g
  Step-Good (refreshes raw settings v) g = Keeps-refresh_route raw settings v g
  Step-Good (logs_out raw credentials settings v) g =
      Keeps-logout_route raw credentials settings v g
  Step-Good (forgets raw settings v) g = Keeps-forgot_password_route raw settings v g
  Step-Good (resets raw v) g = Keeps-reset_password_route raw v g
  Step-Good (asks_me credentials settings v) g = Keeps-me_route credentials settings v g
  Step-Good (creates_course raw credentials settings v) g =
      Keeps-create_course_route raw credentials settings v g
  Step-Good (lists_courses asked v) g = Keeps-list_courses_route asked v g
  Step-Good (gets_course course_id v) g = Keeps-get_course_route course_id v g
  Step-Good (updates_course course_id raw credentials settings v) g =
      Keeps-update_course_route course_id raw credentials settings v g
  Step-Good (archives_course course_id credentials settings v) g =
      Keeps-archive_course_route course_id credentials settings v g
  Step-Good (waits time v) g = g
  Step-Good (draws n v) g = Good-drawn v (v.draws + n) (omega arith) g

  Reach-Good :
      {base : List RefreshToken} {start w : World P} → Good base start → Reach start w → Good base w
  Reach-Good good here = good
  Reach-Good good (after before step) = Step-Good step (Reach-Good good before)

  NoTokens-Good : (start : World P) → NoTokens start → Good [] start
  NoTokens-Good start empty =
      let nothing : Grown P [] start.draws [] = record {
        sound = Sound-nil P start.draws;
        grows = tt;
      } in
      rw (empty.0, empty.1) (nothing, nothing)

  -- From an empty table of refresh tokens, after any sequence of requests to the routes of
  -- authentication and of courses, each in its own transaction, whether they return or raise, no family has more than one active token, among the
  -- committed rows and among those that the session sees, provided that random UUIDs do not repeat.
  pub Reach-single_active :
      {start w : World P}
      → NoTokens start
      → Reach start w
      → (family : ℕ)
      → (active family (P.view w.session).stored.refresh_tokens ≤ 1)
        × (active family (P.view w.session).working.refresh_tokens ≤ 1)
  Reach-single_active {start} empty reached family =
      let g = Reach-Good (NoTokens-Good start empty) reached in
      (g.1.sound.single family, g.0.sound.single family)

  -- From a table that is sound and has no change that is not committed, after any sequence of
  -- requests to the routes of authentication and of courses, each in its own transaction, whether
  -- they return or raise, every committed row of a refresh token is still there, in its place. It is
  -- the same, or it was active and is now revoked: no row is deleted, and none is active again or
  -- gets another time of revocation. Random UUIDs are taken not to repeat.
  pub Reach-rows_stay :
      {start w : World P}
      → Settled start
      → Sound P start.draws (stored_rows start)
      → Reach start w
      → Grows (stored_rows start) (stored_rows w)
  Reach-rows_stay {start} settled sound reached =
      let g : Grown P (stored_rows start) start.draws (stored_rows start) = record {
        sound = sound;
        grows = Grows-refl (stored_rows start);
      } in
      let good : Good (stored_rows start) start = rw (ap (λ x. x.refresh_tokens) settled) (g, g) in
      (Reach-Good good reached).1.grows
