-- ===== src/Migrations/RoundTrip.antt =====
-- The upgrade and the downgrade of each revision of migrations/postgres/versions, one after the
-- other.
use smartcourse_core.Base.{
  Bool, List, Option, String, [], any, ap, arith, false, filter, if◌then◌else◌, none, not, refl,
  some, true, ◌++◌, ◌==◌, ◌∙◌, ◌∷◌, ◌≡◌, nat_eq, string_eq,
}
use smartcourse_core.Migrations.Ddl.{
  Op, Schema, Catalog, apply, put_table, has_table, is_referrer, uses_enum,
}
use smartcourse_core.Migrations.Versions.{add_users_and_refresh_tokens, add_courses}

-- The statements in turn; the first that fails ends the run, and the transaction is as it left it.
abbrev pub run : (c : Catalog) → List Op → c.State → Bool × c.State
run c [] s = (true, s)
run c (op ∷ ops) s =
    let (done, s') = c.execute op s in let rest = run c ops s' in if done then rest else (false, s')

-- What the transaction sees after a run that succeeded.
abbrev pub seen : (c : Catalog) → Bool × c.State → Option Schema
seen c r = if r.0 then some (c.view r.1) else none

abbrev pub apply_all : List Op → Schema → Option Schema
apply_all [] s = some s
apply_all (op ∷ ops) s = elim (apply op s) [ none ↦ none | some s' ↦ apply_all ops s' ]

-- One step, and what comes after it.
map-step :
    (c : Catalog) (ops : List Op) (done : Bool) (s : c.State) (p : Option Schema)
    → seen c (run c ops s) ≡ apply_all ops (c.view s)
    → seen c (done, s) ≡ p
    → seen c (let rest = run c ops s in if done then rest else (false, s))
      ≡ elim p [ none ↦ none | some t ↦ apply_all ops t ]
map-step c ops false s none rest h = refl
map-step c ops false s (some t) rest h = cc
map-step c ops true s none rest h = cc
map-step c ops true s (some t) rest h =
    rest ∙ ap (λ q. elim q [ none ↦ none | some u ↦ apply_all ops u ]) h

pub seen-run :
    (c : Catalog) (ops : List Op) (s : c.State) → seen c (run c ops s) ≡ apply_all ops (c.view s)
seen-run c [] s = refl
seen-run c (op ∷ ops) s =
    let (done, s') = c.execute op s in
    map-step c ops done s' (apply op (c.view s)) (seen-run c ops s') (c.execute_lem op s)

kept-step :
    (c : Catalog) (ops : List Op) (done : Bool) (s : c.State)
    → c.stored (run c ops s).1 ≡ c.stored s
    → c.stored (let rest = run c ops s in if done then rest else (false, s)).1 ≡ c.stored s
kept-step c ops true s h = h
kept-step c ops false s h = refl

-- A run commits nothing.
pub stored-run : (c : Catalog) (ops : List Op) (s : c.State) → c.stored (run c ops s).1 ≡ c.stored s
stored-run c [] s = refl
stored-run c (op ∷ ops) s =
    let (done, s') = c.execute op s in
    kept-step c ops done s' (stored-run c ops s') ∙ c.execute-stored op s

filter-absent :
    {A : Type 0} (p : A → Bool) (l : List A) → any p l ≡ false → filter (λ x. not (p x)) l ≡ l
filter-absent p [] h = refl
filter-absent p (x ∷ l) h = ground (arith, filter-absent p l)

-- No table, no index of it, and no foreign key of another to it.
abbrev pub NoTable : String → Schema → Type 0
NoTable name s =
    (has_table s.tables name ≡ false)
    × (any (λ i. i.table == name) s.indexes ≡ false)
    × (any (is_referrer name) s.tables ≡ false)

abbrev pub NoIndex : String → Schema → Type 0
NoIndex name s = any (λ i. i.name == name) s.indexes ≡ false

-- No enum type, and no column of it.
abbrev pub NoEnum : String → Schema → Type 0
NoEnum name s =
    (any (λ e. e.name == name) s.enums ≡ false) × (any (uses_enum name) s.tables ≡ false)

pub courses_schema :
    (s : Schema)
    → has_table s.tables "users" ≡ true
    → NoTable "courses" s
    → NoIndex "ix_courses_instructor_id" s
    → NoIndex "ix_courses_title" s
    → NoEnum "course_level" s
    → NoEnum "course_status" s
    → apply_all (add_courses.upgrade ++ add_courses.downgrade) s ≡ some s
courses_schema s users (no_table, no_use, no_key) no_a no_b (no_level, no_level_use)
      (no_status, no_status_use) =
    let ta = filter-absent (λ t. t.name == "courses") s.tables no_table in
    let ia = filter-absent (λ i. i.table == "courses") s.indexes no_use in
    let ib = filter-absent (λ i. i.name == "ix_courses_instructor_id") s.indexes no_a in
    let ic = filter-absent (λ i. i.name == "ix_courses_title") s.indexes no_b in
    let ea = filter-absent (λ e. e.name == "course_level") s.enums no_level in
    let eb = filter-absent (λ e. e.name == "course_status") s.enums no_status in
    rw (apply_all, apply, no_table, users, put_table, no_level, no_status)
      (rw (apply_all, apply, no_a)
        (rw (apply_all, apply, no_b)
          (rw (apply_all, apply, ic)
            (simp (no_key, no_status_use, ta, ib, ia, eb) (rw (no_level_use, ea) refl)))))

pub users_schema :
    (s : Schema)
    → NoTable "users" s
    → NoTable "refresh_tokens" s
    → NoIndex "ix_users_email" s
    → NoIndex "ix_refresh_tokens_family_id" s
    → NoIndex "ix_refresh_tokens_token_hash" s
    → NoIndex "ix_refresh_tokens_user_id" s
    → NoEnum "user_role" s
    → apply_all (add_users_and_refresh_tokens.upgrade ++ add_users_and_refresh_tokens.downgrade) s
      ≡ some s
users_schema s (no_users, no_use, no_key) (no_tokens, no_use_tokens, no_key_tokens) no_email
      no_family no_hash no_user (no_role, no_role_use) =
    let ta = filter-absent (λ t. t.name == "users") s.tables no_users in
    let tb = filter-absent (λ t. t.name == "refresh_tokens") s.tables no_tokens in
    let ia = filter-absent (λ i. i.table == "users") s.indexes no_use in
    let ib = filter-absent (λ i. i.table == "refresh_tokens") s.indexes no_use_tokens in
    let ic = filter-absent (λ i. i.name == "ix_users_email") s.indexes no_email in
    let ie = filter-absent (λ i. i.name == "ix_refresh_tokens_family_id") s.indexes no_family in
    let ih = filter-absent (λ i. i.name == "ix_refresh_tokens_token_hash") s.indexes no_hash in
    let ig = filter-absent (λ i. i.name == "ix_refresh_tokens_user_id") s.indexes no_user in
    let ea = filter-absent (λ e. e.name == "user_role") s.enums no_role in
    rw (apply_all, apply, no_users, put_table, no_role)
      (rw (apply_all, apply, no_email)
        (rw (apply_all, apply, no_tokens)
          (rw (apply_all, apply, no_family)
            (rw (apply_all, apply, no_hash)
              (rw (apply_all, apply, no_user)
                (rw (apply_all, apply, ig)
                  (simp (no_key, no_key_tokens, no_role_use, tb, ta, ih, ie, ib, ic, ia, ea))))))))
