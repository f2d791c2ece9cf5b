-- ===== src/Migrations/History.antt =====
-- The whole history of migrations/postgres/versions, up to its head and down to its base again.
use smartcourse_core.Base.{
  Bool, List, Option, [], ap, false, none, refl, some, sym, true, ◌++◌, ◌∙◌, ◌∷◌, ◌≡◌,
}
use smartcourse_core.Migrations.Ddl.{Op, Schema, Catalog, apply, put_table}
use smartcourse_core.Migrations.Versions.{
  baseline, add_users_and_refresh_tokens, add_courses, users_table, refresh_tokens_table, index_on,
}
use smartcourse_core.Migrations.RoundTrip.{
  run, seen, seen-run, apply_all, NoTable, NoIndex, NoEnum, courses_schema, users_schema,
}

abbrev pub upgrade_to_head : List Op
upgrade_to_head = baseline.upgrade ++ (add_users_and_refresh_tokens.upgrade ++ add_courses.upgrade)

abbrev pub downgrade_to_base : List Op
downgrade_to_base =
    add_courses.downgrade ++ (add_users_and_refresh_tokens.downgrade ++ baseline.downgrade)

abbrev then_apply : List Op → Option Schema → Option Schema
then_apply ops none = none
then_apply ops (some s) = apply_all ops s

apply_step :
    (ops more : List Op) (o : Option Schema)
    → ((t : Schema) → apply_all (ops ++ more) t ≡ then_apply more (apply_all ops t))
    → elim o [ none ↦ none | some t ↦ apply_all (ops ++ more) t ]
      ≡ then_apply more (elim o [ none ↦ none | some t ↦ apply_all ops t ])
apply_step ops more none rest = refl
apply_step ops more (some t) rest = rest t

apply_all-append :
    (ops more : List Op) (s : Schema)
    → apply_all (ops ++ more) s ≡ then_apply more (apply_all ops s)
apply_all-append [] more s = refl
apply_all-append (op ∷ ops) more s = apply_step ops more (apply op s) (apply_all-append ops more)

seen-some :
    (c : Catalog) (r : Bool × c.State) {t : Schema}
    → seen c r ≡ some t
    → (r.0 ≡ true) × (c.view r.1 ≡ t)
seen-some c (true, s) h = (refl, cc)
seen-some c (false, s) h = cc

-- Whether none of the names that the revisions make is there, or referred to.
pub record IsFresh (s : Schema) : Type 0 where
  pub no_users : NoTable "users" s
  pub no_tokens : NoTable "refresh_tokens" s
  pub no_courses : NoTable "courses" s
  pub no_email : NoIndex "ix_users_email" s
  pub no_family : NoIndex "ix_refresh_tokens_family_id" s
  pub no_hash : NoIndex "ix_refresh_tokens_token_hash" s
  pub no_user : NoIndex "ix_refresh_tokens_user_id" s
  pub no_instructor : NoIndex "ix_courses_instructor_id" s
  pub no_title : NoIndex "ix_courses_title" s
  pub no_role : NoEnum "user_role" s
  pub no_level : NoEnum "course_level" s
  pub no_status : NoEnum "course_status" s

-- The schema between the two revisions.
abbrev after_users : Schema → Schema
after_users s = record {
  tables = refresh_tokens_table ∷ users_table ∷ s.tables;
  indexes =
      index_on "ix_refresh_tokens_user_id" "refresh_tokens" "user_id" false
      ∷ index_on "ix_refresh_tokens_token_hash" "refresh_tokens" "token_hash" true
      ∷ index_on "ix_refresh_tokens_family_id" "refresh_tokens" "family_id" false
      ∷ index_on "ix_users_email" "users" "email" true
      ∷ s.indexes;
  enums = record { name = "user_role"; labels = "student" ∷ "instructor" ∷ "admin" ∷ [] } ∷ s.enums;
}

users_upgraded :
    (s : Schema)
    → IsFresh s
    → apply_all add_users_and_refresh_tokens.upgrade s ≡ some (after_users s)
users_upgraded s f =
    rw (apply_all, apply, f.no_users.0, put_table, f.no_role.0)
      (rw (apply_all, apply, f.no_email)
        (rw (apply_all, apply, f.no_tokens.0)
          (rw (apply_all, apply, f.no_family)
            (rw (apply_all, apply, f.no_hash) (rw (apply_all, apply, f.no_user) refl)))))

history_schema :
    (s : Schema) → IsFresh s → apply_all (upgrade_to_head ++ downgrade_to_base) s ≡ some s
history_schema s f =
    let users = add_users_and_refresh_tokens in
    let there_and_back = add_courses.upgrade ++ add_courses.downgrade in
    let up = users_upgraded s f in
    let courses =
      courses_schema (after_users s) refl f.no_courses f.no_instructor f.no_title f.no_level
        f.no_status in
    let back : apply_all users.downgrade (after_users s) ≡ some s =
      sym (apply_all-append users.upgrade users.downgrade s ∙ ap (then_apply users.downgrade) up)
      ∙ users_schema s f.no_users f.no_tokens f.no_email f.no_family f.no_hash f.no_user
          f.no_role in
    apply_all-append users.upgrade (there_and_back ++ users.downgrade) s
    ∙ ap (then_apply (there_and_back ++ users.downgrade)) up
    ∙ apply_all-append there_and_back users.downgrade (after_users s)
    ∙ ap (then_apply users.downgrade) courses
    ∙ back

-- Where nothing has the names that the revisions make or refers to them, the database can be
-- upgraded to the head of the history and downgraded to its base again without a trace, in one
-- transaction: every statement succeeds in its order, although PostgreSQL drops no table that a
-- foreign key refers to and no type that a column uses. The three tables, their six indexes and the
-- three enum types are gone.
pub history_round_trip :
    (c : Catalog) (s : c.State)
    → IsFresh (c.view s)
    → let (done, s') = run c (upgrade_to_head ++ downgrade_to_base) s in
      (done ≡ true) × (c.view s' ≡ c.view s)
history_round_trip c s fresh =
    let ops = upgrade_to_head ++ downgrade_to_base in
    let back = seen-run c ops s ∙ history_schema (c.view s) fresh in seen-some c (run c ops s) back
