-- ===== src/Tests/SchemaWitnesses.antt =====
-- The theorems on the migrations at a small catalogue.
use smartcourse_core.Base.{
  Bool, Option, [], false, if◌then◌else◌, none, refl, some, true, ◌++◌, ◌∷◌, ◌≡◌,
}
use smartcourse_core.Migrations.Ddl.{Schema, Catalog, apply}
use smartcourse_core.Migrations.RoundTrip.{run}
use smartcourse_core.Migrations.History.{
  IsFresh, upgrade_to_head, downgrade_to_base, history_round_trip,
}

-- A connection: what its transaction sees, and what is committed.
pub record Session : Type 0 where
  pub view : Schema
  pub stored : Schema

abbrev moved_to : Session → Option Schema → Bool × Session
moved_to s none = (false, s)
moved_to s (some t) = (true, record s { view = t })

moved_to-view :
    (s : Session) (o : Option Schema)
    → let (done, s') = moved_to s o in (if done then some s'.view else none) ≡ o
moved_to-view s none = refl
moved_to-view s (some t) = refl

moved_to-stored : (s : Session) (o : Option Schema) → (moved_to s o).1.stored ≡ s.stored
moved_to-stored s none = refl
moved_to-stored s (some t) = refl

abbrev catalog : Catalog
catalog = record {
  State = Session;
  view = λ s. s.view;
  stored = λ s. s.stored;
  begin = λ s. record { view = s.stored; stored = s.stored };
  commit = λ s. record { view = s.view; stored = s.view };
  rollback = λ s. record { view = s.stored; stored = s.stored };
  execute = λ op s. moved_to s (apply op s.view);
  execute_lem = λ op s. moved_to-view s (apply op s.view);
  execute-stored = λ op s. moved_to-stored s (apply op s.view);
  view-begin = λ s. refl;
  stored-begin = λ s. refl;
  view-commit = λ s. refl;
  stored-commit = λ s. refl;
  view-rollback = λ s. refl;
  stored-rollback = λ s. refl;
}

-- Another program's table is there.
abbrev other : Schema
other = record {
  tables = record { name = "audit"; columns = []; constraints = [] } ∷ [];
  indexes =
      record { name = "ix_audit_at"; table = "audit"; columns = "at" ∷ []; unique = false } ∷ [];
  enums = record { name = "audit_kind"; labels = "read" ∷ [] } ∷ [];
}

other-IsFresh : IsFresh other
other-IsFresh = record {
  no_users = (refl, refl, refl);
  no_tokens = (refl, refl, refl);
  no_courses = (refl, refl, refl);
  no_email = refl;
  no_family = refl;
  no_hash = refl;
  no_user = refl;
  no_instructor = refl;
  no_title = refl;
  no_role = (refl, refl);
  no_level = (refl, refl);
  no_status = (refl, refl);
}

abbrev connected : Session
connected = record { view = other; stored = other }

history_round_trip_example :
    let (done, s') = run catalog (upgrade_to_head ++ downgrade_to_base) connected in
    (done ≡ true) × (s'.view ≡ other)
history_round_trip_example = history_round_trip catalog connected other-IsFresh
