-- ===== src/Migrations/Ddl.antt =====
-- The operations of alembic that the migrations of alembic/versions call, as data.
use agentis_backend.Prelude.{
  ◌≡◌, refl, ℕ, String, Bool, true, false, Option, none, some, List, [], ◌∷◌,
}

pub data ColumnType : Type 0 where
  uuid timestamp_tz json big_integer integer boolean : ColumnType
  string : (length : Option ℕ) → ColumnType
  enum : (name : String) → (values : List String) → ColumnType

pub record Column : Type 0 where
  pub name : String
  pub type : ColumnType
  pub nullable : Bool
  pub server_default : Option String

-- sa.Column with nullable=False, with nullable=True, and with the time of insertion as its default
abbrev pub required : String → ColumnType → Column
required name type = record { name = name; type = type; nullable = false; server_default = none }

abbrev pub optional : String → ColumnType → Column
optional name type = record { name = name; type = type; nullable = true; server_default = none }

abbrev pub stamped : String → Column
stamped name = record {
  name = name;
  type = timestamp_tz;
  nullable = false;
  server_default = some "now()";
}

pub data Constraint : Type 0 where
  primary_key : (columns : List String) → Constraint
  unique_together : (name : Option String) → (columns : List String) → Constraint
  foreign_key : (columns targets : List String) → (ondelete : Option String) → Constraint

pub record Table : Type 0 where
  pub name : String
  pub columns : List Column
  pub constraints : List Constraint

pub record Index : Type 0 where
  pub name : String
  pub table : String
  pub columns : List String
  pub unique : Bool
  pub where_text : Option String

-- An index of columns, not unique and of all rows; one of the rows that are not deleted.
abbrev pub index_on : (table name : String) → (columns : List String) → Index
index_on table name columns = record {
  name = name;
  table = table;
  columns = columns;
  unique = false;
  where_text = none;
}

abbrev pub where_live : Index → Index
where_live i = record i { where_text = some "deleted_at IS NULL" }

-- A table with the indexes that are declared beside it.
pub record Declared : Type 0 where
  pub table : Table
  pub indexes : List Index

pub data Op : Type 0 where
  create_table : Table → Op
  create_index : Index → Op
  drop_index : (name table : String) → Op
  drop_table : (name : String) → Op

-- What alembic and the database make of each operation, on the tables and indexes of a database; `none` is an
-- exception.
pub record Database (S : Type 0) : Type 0 where
  pub run : Op → S → Option S

abbrev pub then_run : {S : Type 0} → (S → Option S) → Option S → Option S
then_run f none = none
then_run f (some s) = f s

pub then_run-eq_some :
    {S : Type 0} (f : S → Option S) (r : Option S) (s' : S)
    → then_run f r ≡ some s'
    → (t : S) × (r ≡ some t) × (f t ≡ some s')
then_run-eq_some f none s' e = cc
then_run-eq_some f (some t) s' e = (t, refl, e)

-- A migration is its operations, one after the other, until one fails.
unfoldable pub migrate : {S : Type 0} → Database S → List Op → S → Option S
migrate db [] s = some s
migrate db (op ∷ ops) s = then_run (migrate db ops) (db.run op s)

-- env.py's do_run_migrations, on the operations of the migrations that are due: they run in one transaction,
-- which a failure rolls back.
abbrev pub in_transaction : {S : Type 0} → S → Option S → Bool × S
in_transaction s none = (false, s)
in_transaction s (some s') = (true, s')

unfoldable pub do_run_migrations : {S : Type 0} → Database S → List Op → S → Bool × S
unfolding migrate
do_run_migrations db ops s = in_transaction s (migrate db ops s)
