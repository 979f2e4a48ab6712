-- ===== src/Migrations/Ddl.antt =====
-- The part of a PostgreSQL schema that alembic/versions/ touches, and the effect of each `op` call on
-- it. A statement that PostgreSQL refuses raises. The order of tables and of indexes has no meaning.
use python_typescript_wiki_b.Base.{
  Bool, true, false, ◌&&◌, ◌||◌, not, Option, none, some, List, [], ◌∷◌, ◌++◌, any, find?, same,
  if◌then◌else◌, ℕ,
}
use python_typescript_wiki_b.Text.{Str}
use python_typescript_wiki_b.Errors.{database_error, Result, ok, raised, ◌>>=◌, ◌>>◌}

pub data ColumnType : Type 0 where
  integer big_integer date_time uuid : ColumnType
  string : ℕ → ColumnType

pub record Column : Type 0 where
  pub name : Str
  pub type : ColumnType
  pub nullable : Bool
  pub server_default : Option Str

pub record ForeignKey : Type 0 where
  pub columns : List Str
  pub table : Str
  pub referred : List Str

pub record UniqueConstraint : Type 0 where
  pub name : Str
  pub columns : List Str

pub record Table : Type 0 where
  pub name : Str
  pub columns : List Column
  pub primary_key : List Str
  pub foreign_keys : List ForeignKey
  pub unique_constraints : List UniqueConstraint

pub record Index : Type 0 where
  pub name : Str
  pub table : Str
  pub columns : List Str
  pub unique : Bool

pub record Schema : Type 0 where
  pub tables : List Table
  pub indexes : List Index

abbrev pub names_table : Str → Table → Bool
names_table name t = same name t.name

abbrev pub names_column : Str → Column → Bool
names_column name c = same name c.name

abbrev pub names_index : Str → Index → Bool
names_index name i = same name i.name

abbrev pub names_unique : Str → UniqueConstraint → Bool
names_unique name u = same name u.name

-- Tables, indexes and the indexes behind unique constraints share one space of names.
unfoldable pub named_by_table : Str → List Table → Bool
unfolding any
named_by_table name tables =
    any (λ t. names_table name t || any (names_unique name) t.unique_constraints) tables

unfoldable pub named_by_index : Str → List Index → Bool
unfolding any
named_by_index name indexes = any (names_index name) indexes

-- A foreign key of another table refers to the table.
unfoldable pub referred_by : Str → List Table → Bool
unfolding any
referred_by name tables =
    any (λ t. not (names_table name t) && any (λ k. same name k.table) t.foreign_keys) tables

-- A foreign key of another table refers to the column.
unfoldable pub column_referred_by : Str → Str → List Table → Bool
unfolding any
column_referred_by name column tables =
    any
      (λ t.
        not (names_table name t)
        && any (λ k. same name k.table && any (same column) k.referred) t.foreign_keys)
      tables

unfoldable pub indexed_by : Str → List Index → Bool
unfolding any
indexed_by name indexes = any (λ i. same name i.table) indexes

-- Every one of the names is a column of the table.
unfoldable pub has_columns : List Str → List Column → Bool
unfolding any
has_columns [] columns = true
has_columns (c ∷ cs) columns = any (names_column c) columns && has_columns cs columns

abbrev pub refuse : {A : Type 0} → Result A
refuse = raised database_error

abbrev pub check : Bool → Result (Unit {0})
check true = ok tt
check false = refuse

abbrev on_found : List Table → Option Table → (Table → Result (Unit {0})) → Result (Unit {0})
on_found tables none f = refuse
on_found tables (some t) f = f t

-- The columns that the keys of a new table refer to are there.
unfoldable pub check_foreign_keys : List Table → List ForeignKey → Result (Unit {0})
unfolding find? has_columns
check_foreign_keys tables [] = ok tt
check_foreign_keys tables (k ∷ ks) = do
  on_found tables (find? (names_table k.table) tables) λ t. check (has_columns k.referred t.columns)
  check_foreign_keys tables ks

-- The first table of the name, changed or refused.
unfoldable pub change_table : Str → (Table → Result Table) → List Table → Result (List Table)
change_table name f [] = refuse
change_table name f (t ∷ ts) =
    let rest = change_table name f ts in
    if names_table name t then (do t' ← f t; ok (t' ∷ ts)) else (do ts' ← rest; ok (t ∷ ts'))

unfoldable pub change_column : Str → (Column → Column) → List Column → Result (List Column)
change_column name f [] = refuse
change_column name f (c ∷ cs) =
    let rest = change_column name f cs in
    if names_column name c then ok (f c ∷ cs) else (do cs' ← rest; ok (c ∷ cs'))

-- Without the elements that pass the test.
unfoldable pub without {ℓ} : {A : Type ℓ} → (A → Bool) → List A → List A
without p [] = []
without p (x ∷ xs) = let rest = without p xs in if p x then rest else x ∷ rest

module _ (s : Schema) where
  -- `op.create_table`
  unfoldable pub create_table : Table → Result Schema
  unfolding named_by_table named_by_index check_foreign_keys
  create_table t = do
    check (not (named_by_table t.name s.tables) && not (named_by_index t.name s.indexes))
    check_foreign_keys s.tables t.foreign_keys
    ok (record s { tables = t ∷ s.tables })

  -- `op.drop_table`: the indexes of the table go with it.
  unfoldable pub drop_table : Str → Result Schema
  unfolding any referred_by without
  drop_table name = do
    check (any (names_table name) s.tables && not (referred_by name s.tables))
    ok (record {
      tables = without (names_table name) s.tables;
      indexes = without (λ i. same name i.table) s.indexes;
    })

  abbrev on_table : Str → (Table → Result Table) → Result Schema
  on_table name f = do tables ← change_table name f s.tables; ok (record s { tables = tables })

  -- `op.add_column`
  unfoldable pub add_column : Str → Column → Result Schema
  unfolding change_table any
  add_column table c = on_table table λ t. (do
    check (not (any (names_column c.name) t.columns))
    ok (record t { columns = t.columns ++ c ∷ [] }))

  -- `op.drop_column`: the keys and indexes that use the column go with it.
  unfoldable pub drop_column : Str → Str → Result Schema
  unfolding change_table any without column_referred_by
  drop_column table name = do
    check (not (column_referred_by table name s.tables))
    tables ←
        change_table table
          (λ t. (do
            check (any (names_column name) t.columns)
            ok (record t {
              columns = without (names_column name) t.columns;
              primary_key = if any (same name) t.primary_key then [] else t.primary_key;
              foreign_keys = without (λ k. any (same name) k.columns) t.foreign_keys;
              unique_constraints = without (λ u. any (same name) u.columns) t.unique_constraints;
            })))
          s.tables
    ok (record {
      tables = tables;
      indexes = without (λ i. same table i.table && any (same name) i.columns) s.indexes;
    })

  -- `op.alter_column(..., nullable=...)` and `op.alter_column(..., type_=...)`
  unfoldable pub alter_nullable : Str → Str → Bool → Result Schema
  unfolding change_table change_column
  alter_nullable table name nullable = on_table table λ t. (do
    columns ← change_column name (λ c. record c { nullable = nullable }) t.columns
    ok (record t { columns = columns }))

  unfoldable pub alter_type : Str → Str → ColumnType → Result Schema
  unfolding change_table change_column
  alter_type table name type = on_table table λ t. (do
    columns ← change_column name (λ c. record c { type = type }) t.columns
    ok (record t { columns = columns }))

  -- `op.create_index`
  unfoldable pub create_index : Index → Result Schema
  unfolding named_by_table named_by_index find? has_columns
  create_index i = do
    check (not (named_by_table i.name s.tables) && not (named_by_index i.name s.indexes))
    on_found s.tables (find? (names_table i.table) s.tables)
        λ t. check (has_columns i.columns t.columns)
    ok (record s { indexes = i ∷ s.indexes })

  -- `op.drop_index`: the name alone says which.
  unfoldable pub drop_index : Str → Result Schema
  unfolding named_by_index without
  drop_index name = do
    check (named_by_index name s.indexes)
    ok (record s { indexes = without (names_index name) s.indexes })

  -- `op.create_unique_constraint`
  unfoldable pub create_unique_constraint : Str → UniqueConstraint → Result Schema
  unfolding named_by_table named_by_index change_table has_columns
  create_unique_constraint table u = do
    check (not (named_by_table u.name s.tables) && not (named_by_index u.name s.indexes))
    on_table table λ t. (do
      check (has_columns u.columns t.columns)
      ok (record t { unique_constraints = u ∷ t.unique_constraints }))

  -- `op.drop_constraint(..., type_="unique")`
  unfoldable pub drop_constraint : Str → Str → Result Schema
  unfolding change_table any without
  drop_constraint name table = on_table table λ t. (do
    check (any (names_unique name) t.unique_constraints)
    ok (record t { unique_constraints = without (names_unique name) t.unique_constraints }))
