-- ===== src/Migrations/Ddl.antt =====
-- The statements of the migrations (alembic.op and sa.Enum), and what the PostgreSQL documentation
-- says of each: a name that is taken, and one that is missing, are errors.
use smartcourse_core.Base.{
  Bool, List, Option, String, [], any, filter, if◌then◌else◌, none, not, some, true, ℕ, ◌&&◌, ◌==◌,
  ◌||◌, ◌∷◌, ◌≡◌, nat_eq, string_eq,
}

pub data ColumnType : Type 0 where
  string : ℕ → ColumnType
  text uuid timestamptz boolean : ColumnType
  enum : String → List String → ColumnType

pub record Column : Type 0 where
  pub name : String
  pub type : ColumnType
  pub nullable : Bool

pub data Constraint : Type 0 where
  primary_key : String → String → Constraint
  -- the column, the table and column that it refers to, the name, and ON DELETE
  foreign_key : String → String → String → String → Option String → Constraint

pub record Table : Type 0 where
  pub name : String
  pub columns : List Column
  pub constraints : List Constraint

pub record Index : Type 0 where
  pub name : String
  pub table : String
  pub columns : List String
  pub unique : Bool

pub data Op : Type 0 where
  create_table : Table → Op
  drop_table : String → Op
  create_index : Index → Op
  drop_index : String → String → Op
  -- `sa.Enum(name=…).drop(bind, checkfirst=True)`
  drop_enum : String → Op

pub record Enum : Type 0 where
  pub name : String
  pub labels : List String

pub record Schema : Type 0 where
  pub tables : List Table
  pub indexes : List Index
  pub enums : List Enum

-- The enum types that a CREATE TABLE creates for its columns, before the table.
abbrev pub enums_of : List Column → List Enum
enums_of [] = []
enums_of (c ∷ l) =
    let rest = enums_of l in
    elim c.type [
      | string n ↦ rest
      | text ↦ rest
      | uuid ↦ rest
      | timestamptz ↦ rest
      | boolean ↦ rest
      | enum name labels ↦ record { name = name; labels = labels } ∷ rest
    ]

-- New objects come first.
abbrev pub add_enums : List Enum → List Enum → Option (List Enum)
add_enums [] l = some l
add_enums (e ∷ es) l =
    let rest = add_enums es (e ∷ l) in if any (λ f. f.name == e.name) l then none else rest

abbrev pub put_table : Table → Schema → Option (List Enum) → Option Schema
put_table t s none = none
put_table t s (some enums) = some (record s { tables = t ∷ s.tables; enums = enums })

abbrev pub without_table : String → List Table → List Table
without_table name = filter (λ t. not (t.name == name))

abbrev pub without_index : String → List Index → List Index
without_index name = filter (λ i. not (i.name == name))

abbrev pub without_enum : String → List Enum → List Enum
without_enum name = filter (λ e. not (e.name == name))

-- The tables that the foreign keys of a table refer to.
abbrev pub referred : List Constraint → List String
referred [] = []
referred (primary_key column name ∷ l) = referred l
referred (foreign_key column table target name on_delete ∷ l) = table ∷ referred l

-- Another table has a foreign key to the table of that name.
abbrev pub is_referrer : String → Table → Bool
is_referrer name t = not (t.name == name) && any (λ r. r == name) (referred t.constraints)

-- A column of the table is of the enum type of that name.
abbrev pub uses_enum : String → Table → Bool
uses_enum name t = any (λ e. e.name == name) (enums_of t.columns)

abbrev pub has_table : List Table → String → Bool
has_table tables name = any (λ t. t.name == name) tables

-- Whether every table that is referred to is there.
abbrev pub all_there : List Table → List String → Bool
all_there tables [] = true
all_there tables (name ∷ l) = has_table tables name && all_there tables l

-- DROP TABLE drops the indexes of the table with it, and leaves its enum types. Without CASCADE, a
-- table that a foreign key of another refers to, and a type that a column uses, are not dropped. A
-- foreign key needs the table that it refers to, which may be the one that is created.
abbrev pub apply : Op → Schema → Option Schema
apply (create_table t) s =
    if has_table s.tables t.name || not (all_there (t ∷ s.tables) (referred t.constraints))
    then none
    else put_table t s (add_enums (enums_of t.columns) s.enums)
apply (drop_table name) s =
    if has_table s.tables name && not (any (is_referrer name) s.tables)
    then some (record s {
      tables = without_table name s.tables;
      indexes = filter (λ i. not (i.table == name)) s.indexes;
    })
    else none
apply (create_index i) s =
    if any (λ j. j.name == i.name) s.indexes || not (has_table s.tables i.table)
    then none
    else some (record s { indexes = i ∷ s.indexes })
apply (drop_index name table) s =
    if any (λ i. i.name == name) s.indexes
    then some (record s { indexes = without_index name s.indexes })
    else none
apply (drop_enum name) s =
    if any (uses_enum name) s.tables
    then none
    else some (record s { enums = without_enum name s.enums })

-- A connection to PostgreSQL: the schema that its transaction sees, and the one that is committed.
-- A statement takes effect in the transaction, or fails and leaves it to be rolled back; BEGIN
-- starts from what is committed.
pub record Catalog : Type 1 where
  pub State : Type 0
  pub view : State → Schema
  pub stored : State → Schema
  pub begin : State → State
  pub commit : State → State
  pub rollback : State → State
  pub execute : Op → State → Bool × State
  pub execute_lem :
      (op : Op) (s : State)
      → let (done, s') = execute op s in (if done then some (view s') else none) ≡ apply op (view s)
  pub execute-stored : (op : Op) (s : State) → stored (execute op s).1 ≡ stored s
  pub view-begin : (s : State) → view (begin s) ≡ stored s
  pub stored-begin : (s : State) → stored (begin s) ≡ stored s
  pub view-commit : (s : State) → view (commit s) ≡ view s
  pub stored-commit : (s : State) → stored (commit s) ≡ view s
  pub view-rollback : (s : State) → view (rollback s) ≡ stored s
  pub stored-rollback : (s : State) → stored (rollback s) ≡ stored s
