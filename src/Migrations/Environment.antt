-- ===== src/Migrations/Environment.antt =====
-- migrations/postgres/env.py: the revisions that Alembic has chosen run in one transaction, on a
-- connection of their own or, offline, as a script.
use smartcourse_core.Base.{
  Bool, List, String, [], ap, false, if◌then◌else◌, map, refl, true, ℕ, ◌++◌, ◌+◌, ◌-◌, ◌∷◌, ◌≡◌,
}
use smartcourse_core.Migrations.Ddl.{Op, Catalog}
use smartcourse_core.Migrations.RoundTrip.{run}

-- `with context.begin_transaction(): context.run_migrations()`: the transaction is committed after
-- the last statement, and rolled back where one raises.
abbrev finished : (c : Catalog) → Bool × c.State → Bool × c.State
finished c (true, s) = (true, c.commit s)
finished c (false, s) = (false, c.rollback s)

unfoldable pub do_run_migrations : (c : Catalog) → List Op → c.State → Bool × c.State
do_run_migrations c ops s = finished c (run c ops (c.begin s))

-- An engine without a pool: the connections that are open, and whether it was disposed of.
pub record Connectable : Type 0 where
  pub url : String
  pub connections : ℕ
  pub disposed : Bool

abbrev pub connect : Connectable → Connectable
connect e = record e { connections = e.connections + 1 }

abbrev pub close : Connectable → Connectable
close e = record e { connections = e.connections - 1 }

-- `connectable.connect()` may fail; else the connection is closed after the migrations, also where
-- they raise, and `dispose` is reached only where nothing raises.
unfoldable pub run_migrations_online :
    (c : Catalog) → String → Bool → List Op → c.State → (Bool × c.State) × Connectable
unfolding do_run_migrations
run_migrations_online c url reachable ops s =
    let engine : Connectable = record { url = url; connections = 0; disposed = false } in
    let ran = do_run_migrations c ops s in
    let left = close (connect engine) in
    if reachable
    then (ran, if ran.0 then record left { disposed = true } else left)
    else ((false, s), engine)

-- Offline, each statement is written to the script, between BEGIN and COMMIT, and none is executed.
pub data Line : Type 0 where
  begin commit : Line
  statement : Op → Line

unfoldable pub run_migrations_offline : List Op → List Line
run_migrations_offline ops = begin ∷ (map statement ops ++ commit ∷ [])

-- What the script does when a client executes it: the statements between BEGIN and COMMIT, or, if
-- one fails, nothing.
abbrev pub statements : List Line → List Op
statements [] = []
statements (begin ∷ l) = statements l
statements (commit ∷ l) = statements l
statements (statement op ∷ l) = op ∷ statements l

statements-script : (ops : List Op) → statements (map statement ops ++ commit ∷ []) ≡ ops
statements-script [] = refl
statements-script (op ∷ ops) = ap (λ l. op ∷ l) (statements-script ops)
