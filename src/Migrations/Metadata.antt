-- ===== src/Migrations/Metadata.antt =====
-- app/models.py as SQLAlchemy's metadata: the tables, keys and indexes that the models declare, and
-- when a schema agrees with them.
use python_typescript_wiki_b.Base.{
  ℕ, Bool, true, false, ◌&&◌, not, Option, none, some, List, [], ◌∷◌, ◌++◌, map, ◌==◌, any, all,
  find?, same, if◌then◌else◌,
}
use python_typescript_wiki_b.Text.{Str, codes}
use python_typescript_wiki_b.Migrations.Ddl.{
  ColumnType, integer, big_integer, date_time, uuid, string, Column, ForeignKey, Table, Index,
  Schema, names_table,
}
use python_typescript_wiki_b.Migrations.Versions.{key_to}

-- `name: Mapped[...] = mapped_column(...)`; `optional` is `Mapped[T | None]`, and `foreign_key` the
-- table whose `id` it refers to.
pub record MappedColumn : Type 0 where
  pub name : Str
  pub type : ColumnType
  pub optional : Bool
  pub primary_key : Bool
  pub unique : Bool
  pub index : Bool
  pub server_default : Option Str
  pub foreign_key : Option Str

pub record Model : Type 0 where
  pub tablename : Str
  pub columns : List MappedColumn

abbrev pub mapped : Str → ColumnType → MappedColumn
mapped name type = record {
  name = name;
  type = type;
  optional = false;
  primary_key = false;
  unique = false;
  index = false;
  server_default = none;
  foreign_key = none;
}

abbrev pub nullable_text : Str → ℕ → MappedColumn
nullable_text name n = record (mapped name (string n)) { optional = true }

abbrev pub now_column : Str → MappedColumn
now_column name = record (mapped name date_time) { server_default = some (codes "now()") }

abbrev pub key_column : Str → ColumnType → MappedColumn
key_column name type = record (mapped name type) { primary_key = true }

abbrev pub tmp_model : Model
tmp_model = record { tablename = codes "tmp"; columns = key_column (codes "id") integer ∷ [] }

abbrev pub user_model : Model
user_model = record {
  tablename = codes "users";
  columns =
      key_column (codes "id") integer
      ∷ record (mapped (codes "telegram_id") big_integer) { unique = true }
      ∷ nullable_text (codes "username") 255
      ∷ nullable_text (codes "first_name") 255
      ∷ nullable_text (codes "last_name") 255
      ∷ nullable_text (codes "photo_url") 1024
      ∷ nullable_text (codes "permission") 64
      ∷ now_column (codes "created_at")
      ∷ now_column (codes "updated_at")
      ∷ now_column (codes "last_login_at")
      ∷ [];
}

abbrev pub session_model : Model
session_model = record {
  tablename = codes "sessions";
  columns =
      key_column (codes "id") uuid
      ∷ record (mapped (codes "user_id") integer) {
        foreign_key = some (codes "users");
        index = true;
      }
      ∷ record (mapped (codes "token_hash") (string 64)) { unique = true; index = true }
      ∷ mapped (codes "expires_at") date_time
      ∷ record (mapped (codes "revoked_at") date_time) { optional = true }
      ∷ now_column (codes "created_at")
      ∷ now_column (codes "updated_at")
      ∷ [];
}

abbrev pub space_model : Model
space_model = record {
  tablename = codes "spaces";
  columns =
      key_column (codes "id") uuid
      ∷ mapped (codes "name") (string 255)
      ∷ record (mapped (codes "deleted_at") date_time) { optional = true }
      ∷ record (mapped (codes "delete_scheduled_at") date_time) { optional = true }
      ∷ [];
}

abbrev pub space_membership_model : Model
space_membership_model = record {
  tablename = codes "space_memberships";
  columns =
      record (key_column (codes "user_id") integer) { foreign_key = some (codes "users") }
      ∷ record (key_column (codes "space_id") uuid) { foreign_key = some (codes "spaces") }
      ∷ mapped (codes "role") (string 64)
      ∷ [];
}

-- `Base.metadata`
abbrev pub metadata : List Model
metadata = tmp_model ∷ user_model ∷ session_model ∷ space_model ∷ space_membership_model ∷ []

-- What a model asks of the database.
abbrev declared_column : MappedColumn → Column
declared_column c = record {
  name = c.name;
  type = c.type;
  nullable = c.optional;
  server_default = c.server_default;
}

abbrev declared_primary_key : List MappedColumn → List Str
declared_primary_key [] = []
declared_primary_key (c ∷ cs) =
    let rest = declared_primary_key cs in if c.primary_key then c.name ∷ rest else rest

abbrev cons_key : Str → Option Str → List ForeignKey → List ForeignKey
cons_key name none keys = keys
cons_key name (some table) keys = key_to name table ∷ keys

abbrev declared_foreign_keys : List MappedColumn → List ForeignKey
declared_foreign_keys [] = []
declared_foreign_keys (c ∷ cs) = cons_key c.name c.foreign_key (declared_foreign_keys cs)

-- `unique=True` is a constraint of its own unless the column has an index, which is unique then.
abbrev declared_unique : List MappedColumn → List (List Str)
declared_unique [] = []
declared_unique (c ∷ cs) =
    let rest = declared_unique cs in if c.unique && not c.index then (c.name ∷ []) ∷ rest else rest

abbrev declared_indexes : Str → List MappedColumn → List Index
declared_indexes table [] = []
declared_indexes table (c ∷ cs) =
    let rest = declared_indexes table cs in
    if c.index
    then record {
      name = codes "ix_" ++ (table ++ b'_' ∷ c.name);
      table = table;
      columns = c.name ∷ [];
      unique = c.unique;
    }
      ∷ rest
    else rest

-- Comparisons, without regard to order where the database has none.
abbrev same_bool : Bool → Bool → Bool
same_bool true b = b
same_bool false b = not b

abbrev same_type : ColumnType → ColumnType → Bool
same_type integer integer = true
same_type big_integer big_integer = true
same_type date_time date_time = true
same_type uuid uuid = true
same_type (string m) (string n) = m == n
same_type _ _ = false

abbrev same_option : Option Str → Option Str → Bool
same_option none none = true
same_option (some a) (some b) = same a b
same_option _ _ = false

abbrev same_texts : List Str → List Str → Bool
same_texts [] [] = true
same_texts (a ∷ xs) (b ∷ ys) = same a b && same_texts xs ys
same_texts _ _ = false

abbrev same_column : Column → Column → Bool
same_column a b =
    same a.name b.name
    && same_type a.type b.type
    && same_bool a.nullable b.nullable
    && same_option a.server_default b.server_default

abbrev same_key : ForeignKey → ForeignKey → Bool
same_key a b =
    same_texts a.columns b.columns && same a.table b.table && same_texts a.referred b.referred

abbrev same_index : Index → Index → Bool
same_index a b = same a.name b.name && same_texts a.columns b.columns && same_bool a.unique b.unique

unfoldable pub same_set : {A : Type 0} → (A → A → Bool) → List A → List A → Bool
unfolding any all
same_set eq xs ys = all (λ a. any (eq a) ys) xs && all (λ b. any (eq b) xs) ys

unfoldable pub indexes_of : Str → List Index → List Index
indexes_of table [] = []
indexes_of table (i ∷ is) =
    let rest = indexes_of table is in if same table i.table then i ∷ rest else rest

module _ (m : Model) where
  abbrev agrees_with : List Index → Table → Bool
  agrees_with indexes t =
      same_set same_column t.columns (map declared_column m.columns)
      && same_texts t.primary_key (declared_primary_key m.columns)
      && same_set same_key t.foreign_keys (declared_foreign_keys m.columns)
      && same_set same_texts (map (λ u. u.columns) t.unique_constraints) (declared_unique m.columns)
      && same_set same_index (indexes_of m.tablename indexes)
          (declared_indexes m.tablename m.columns)

  -- The table of the model is there and is as the model says: columns with their types, NULLs and
  -- defaults, keys, unique columns, and indexes with their names.
  unfoldable pub agrees : Schema → Bool
  unfolding find? same_set indexes_of
  agrees s = elim (find? (names_table m.tablename) s.tables) [
    | none ↦ false
    | some t ↦ agrees_with s.indexes t
  ]
