-- ===== src/Migration.antt =====
-- The schema of the database as the migrations of apps/api/alembic build it: the operations of
-- Alembic that they use, on the tables that there are, the newest first.
pub mod Tables
pub mod Upgrade
pub mod Downgrade
pub mod Reverse
pub mod Undo
use relationship_os.Base.{
  ℕ, String, Bool, true, false, ◌&&◌, ◌||◌, not, Option, none, some, List, [], ◌∷◌, ◌++◌, ◌==◌,
  select, contains, update_where, exists_row, if◌then◌else◌,
}

pub data ColumnType : Type 0 where
  text datetime boolean integer : ColumnType
  varchar : ℕ → ColumnType
  enumeration : String → List String → ColumnType

-- A name, a type, and whether NULL is allowed.
pub data Column : Type 0 where
  column : String → ColumnType → Bool → Column

-- A foreign key is on the `id` of the table that it names, and deletes with it.
pub data Constraint : Type 0 where
  primary_key : String → Constraint
  unique : List String → Constraint
  foreign_key : String → String → Constraint

pub record Index : Type 0 where
  pub name : String
  pub columns : List String
  pub is_unique : Bool

pub record Table : Type 0 where
  pub name : String
  pub columns : List Column
  pub constraints : List Constraint
  pub indexes : List Index

abbrev pub Schema : Type 0
Schema = List Table

pub data Op : Type 0 where
  create_table : String → List Column → List Constraint → Op
  create_index : String → String → List String → Bool → Op
  drop_index : String → String → Op
  drop_table : String → Op

abbrev pub is_table : String → Table → Bool
is_table name t = t.name == name

abbrev pub is_index : String → Index → Bool
is_index name i = i.name == name

abbrev pub has_table : String → Schema → Bool
has_table name = exists_row (is_table name)

-- An index has its name in the whole database.
abbrev pub has_index : String → Schema → Bool
has_index name = exists_row (λ t. exists_row (is_index name) t.indexes)

abbrev pub refers_to : String → Constraint → Bool
refers_to name (foreign_key col table) = table == name
refers_to name _ = false

abbrev pub is_referenced : String → Schema → Bool
is_referenced name = exists_row (λ t. exists_row (refers_to name) t.constraints)

-- The tables that the foreign keys name are there.
abbrev pub resolves : Schema → Constraint → Bool
resolves s (foreign_key col table) = has_table table s
resolves s _ = true

abbrev pub all_resolve : Schema → List Constraint → Bool
all_resolve s [] = true
all_resolve s (c ∷ cs) = resolves s c && all_resolve s cs

abbrev pub add_index : Index → Table → Table
add_index i t = record t { indexes = t.indexes ++ (i ∷ []) }

abbrev pub remove_index : String → Table → Table
remove_index name t = record t { indexes = select (λ i. not (is_index name i)) t.indexes }

-- `none` where the database refuses the operation.
unfoldable pub apply : Op → Schema → Option Schema
apply (create_table name columns constraints) s =
    if has_table name s || not (all_resolve s constraints)
    then none
    else some
        (record { name = name; columns = columns; constraints = constraints; indexes = [] } ∷ s)
apply (create_index name table columns is_unique) s =
    if has_index name s || not (has_table table s)
    then none
    else some (
        update_where (is_table table)
          (add_index (record { name = name; columns = columns; is_unique = is_unique })) s)
apply (drop_index name table) s =
    if exists_row (λ t. is_table table t && exists_row (is_index name) t.indexes) s
    then some (update_where (is_table table) (remove_index name) s)
    else none
apply (drop_table name) s =
    if not (has_table name s) || is_referenced name s
    then none
    else some (select (λ t. not (is_table name t)) s)

unfoldable pub run : List Op → Schema → Option Schema
unfolding apply
run [] s = some s
run (op ∷ ops) s = elim (apply op s) [ none ↦ none | some s' ↦ run ops s' ]

-- The types that an operation creates, where the database has types of enumerations.
abbrev pub enum_names : List Column → List String
enum_names [] = []
enum_names (column name (enumeration type values) nullable ∷ columns) = type ∷ enum_names columns
enum_names (column name _ nullable ∷ columns) = enum_names columns

abbrev pub created_types : Op → List String
created_types (create_table name columns constraints) = enum_names columns
created_types _ = []

abbrev any_in : List String → List String → Bool
any_in [] types = false
any_in (x ∷ xs) types = contains types x || any_in xs types

-- A database: its tables and its types of enumerations.
pub record Database : Type 0 where
  pub tables : Schema
  pub types : List String

-- `has_enums` says whether the database has such types, as PostgreSQL does and SQLite does not. The
-- operations that drop a table are told its name alone, and drop no type.
unfoldable pub execute : Bool → Op → Database → Option Database
unfolding apply
execute has_enums op d =
    if has_enums && any_in (created_types op) d.types then none else elim (apply op d.tables) [
      | none ↦ none
      | some tables ↦ some (record {
        tables = tables;
        types = if has_enums then created_types op ++ d.types else d.types;
      })
    ]

unfoldable pub migrate : Bool → List Op → Database → Option Database
unfolding execute
migrate has_enums [] d = some d
migrate has_enums (op ∷ ops) d = elim (execute has_enums op d) [
  | none ↦ none
  | some d' ↦ migrate has_enums ops d'
]
