-- ===== src/Migrations/Versions.antt =====
-- alembic/versions/: the five revisions, each with its upgrade and its downgrade.
use python_typescript_wiki_b.Base.{Bool, true, false, Option, none, some, List, [], ◌∷◌}
use python_typescript_wiki_b.Text.{Str, codes}
use python_typescript_wiki_b.Errors.{Result, ◌>>=◌}
use python_typescript_wiki_b.Migrations.Ddl.{
  ColumnType, integer, big_integer, date_time, uuid, string, Column, ForeignKey, UniqueConstraint,
  Table, Index, Schema, create_table, drop_table, add_column, drop_column, alter_nullable,
  alter_type, create_index, drop_index, create_unique_constraint, drop_constraint,
}

-- `sa.Column(name, type, nullable=...)`
abbrev pub column : Str → ColumnType → Bool → Column
column name type nullable = record {
  name = name;
  type = type;
  nullable = nullable;
  server_default = none;
}

-- `sa.Column(name, sa.DateTime(timezone=True), server_default=sa.text("now()"), nullable=False)`
abbrev pub stamped : Str → Column
stamped name = record {
  name = name;
  type = date_time;
  nullable = false;
  server_default = some (codes "now()");
}

-- A foreign key of one column to `id` of another table.
abbrev pub key_to : Str → Str → ForeignKey
key_to name table = record { columns = name ∷ []; table = table; referred = codes "id" ∷ [] }

abbrev pub index_on : Str → Str → Str → Bool → Index
index_on name table column unique = record {
  name = name;
  table = table;
  columns = column ∷ [];
  unique = unique;
}

-- 0001_create_tmp_table.py
abbrev pub tmp_table : Table
tmp_table = record {
  name = codes "tmp";
  columns = column (codes "id") integer false ∷ [];
  primary_key = codes "id" ∷ [];
  foreign_keys = [];
  unique_constraints = [];
}

unfoldable pub upgrade_0001 : Schema → Result Schema
unfolding create_table
upgrade_0001 s = create_table s tmp_table

unfoldable pub downgrade_0001 : Schema → Result Schema
unfolding drop_table
downgrade_0001 s = drop_table s (codes "tmp")

-- 0002_create_users_table.py
abbrev pub users_table : Table
users_table = record {
  name = codes "users";
  columns =
      column (codes "id") integer false
      ∷ column (codes "telegram_id") big_integer false
      ∷ column (codes "username") (string 255) false
      ∷ column (codes "first_name") (string 255) true
      ∷ column (codes "last_name") (string 255) true
      ∷ column (codes "photo_url") (string 1024) true
      ∷ column (codes "permission") (string 64) true
      ∷ stamped (codes "created_at")
      ∷ stamped (codes "updated_at")
      ∷ [];
  primary_key = codes "id" ∷ [];
  foreign_keys = [];
  unique_constraints =
      record { name = codes "uq_users_telegram_id"; columns = codes "telegram_id" ∷ [] } ∷ [];
}

unfoldable pub upgrade_0002 : Schema → Result Schema
unfolding create_table
upgrade_0002 s = create_table s users_table

unfoldable pub downgrade_0002 : Schema → Result Schema
unfolding drop_table
downgrade_0002 s = drop_table s (codes "users")

-- 0003_add_last_login_at.py
unfoldable pub upgrade_0003 : Schema → Result Schema
unfolding add_column alter_nullable
upgrade_0003 s = do
  s1 ← add_column s (codes "users") (stamped (codes "last_login_at"))
  alter_nullable s1 (codes "users") (codes "username") true

unfoldable pub downgrade_0003 : Schema → Result Schema
unfolding alter_nullable drop_column
downgrade_0003 s = do
  s1 ← alter_nullable s (codes "users") (codes "username") false
  drop_column s1 (codes "users") (codes "last_login_at")

-- 0004_create_sessions_table.py; PostgreSQL names the constraint of `unique=True`.
abbrev pub token_hash_key : UniqueConstraint
token_hash_key = record {
  name = codes "sessions_token_hash_key";
  columns = codes "token_hash" ∷ [];
}

abbrev pub sessions_table : Table
sessions_table = record {
  name = codes "sessions";
  columns =
      column (codes "id") uuid false
      ∷ column (codes "user_id") big_integer false
      ∷ column (codes "token_hash") (string 64) false
      ∷ column (codes "expires_at") date_time false
      ∷ column (codes "revoked_at") date_time true
      ∷ stamped (codes "created_at")
      ∷ stamped (codes "updated_at")
      ∷ [];
  primary_key = codes "id" ∷ [];
  foreign_keys = key_to (codes "user_id") (codes "users") ∷ [];
  unique_constraints = token_hash_key ∷ [];
}

abbrev pub user_id_index : Index
user_id_index = index_on (codes "ix_sessions_user_id") (codes "sessions") (codes "user_id") false

abbrev pub expires_at_index : Index
expires_at_index =
    index_on (codes "ix_sessions_expires_at") (codes "sessions") (codes "expires_at") false

abbrev pub revoked_at_index : Index
revoked_at_index =
    index_on (codes "ix_sessions_revoked_at") (codes "sessions") (codes "revoked_at") false

unfoldable pub upgrade_0004 : Schema → Result Schema
unfolding create_table create_index
upgrade_0004 s = do
  s1 ← create_table s sessions_table
  s2 ← create_index s1 user_id_index
  s3 ← create_index s2 expires_at_index
  create_index s3 revoked_at_index

unfoldable pub downgrade_0004 : Schema → Result Schema
unfolding drop_index drop_table
downgrade_0004 s = do
  s1 ← drop_index s (codes "ix_sessions_revoked_at")
  s2 ← drop_index s1 (codes "ix_sessions_expires_at")
  s3 ← drop_index s2 (codes "ix_sessions_user_id")
  drop_table s3 (codes "sessions")

-- 0005_create_spaces.py
abbrev pub spaces_table : Table
spaces_table = record {
  name = codes "spaces";
  columns =
      column (codes "id") uuid false
      ∷ column (codes "name") (string 255) false
      ∷ column (codes "deleted_at") date_time true
      ∷ column (codes "delete_scheduled_at") date_time true
      ∷ [];
  primary_key = codes "id" ∷ [];
  foreign_keys = [];
  unique_constraints = [];
}

abbrev pub space_memberships_table : Table
space_memberships_table = record {
  name = codes "space_memberships";
  columns =
      column (codes "user_id") integer false
      ∷ column (codes "space_id") uuid false
      ∷ column (codes "role") (string 64) false
      ∷ [];
  primary_key = codes "user_id" ∷ codes "space_id" ∷ [];
  foreign_keys =
      key_to (codes "space_id") (codes "spaces") ∷ key_to (codes "user_id") (codes "users") ∷ [];
  unique_constraints = [];
}

abbrev pub token_hash_index : Index
token_hash_index =
    index_on (codes "ix_sessions_token_hash") (codes "sessions") (codes "token_hash") true

unfoldable pub upgrade_0005 : Schema → Result Schema
unfolding create_table alter_type drop_index drop_constraint create_index
upgrade_0005 s = do
  s1 ← create_table s spaces_table
  s2 ← create_table s1 space_memberships_table
  s3 ← alter_type s2 (codes "sessions") (codes "user_id") integer
  s4 ← drop_index s3 (codes "ix_sessions_expires_at")
  s5 ← drop_index s4 (codes "ix_sessions_revoked_at")
  s6 ← drop_constraint s5 (codes "sessions_token_hash_key") (codes "sessions")
  create_index s6 token_hash_index

unfoldable pub downgrade_0005 : Schema → Result Schema
unfolding drop_index create_unique_constraint create_index alter_type drop_table
downgrade_0005 s = do
  s1 ← drop_index s (codes "ix_sessions_token_hash")
  s2 ← create_unique_constraint s1 (codes "sessions") token_hash_key
  s3 ← create_index s2 revoked_at_index
  s4 ← create_index s3 expires_at_index
  s5 ← alter_type s4 (codes "sessions") (codes "user_id") big_integer
  s6 ← drop_table s5 (codes "space_memberships")
  drop_table s6 (codes "spaces")

-- `revision` and `down_revision` of a file, with its two functions.
pub record Revision : Type 0 where
  pub revision : Str
  pub down_revision : Option Str
  pub upgrade : Schema → Result Schema
  pub downgrade : Schema → Result Schema

abbrev pub versions : List Revision
versions =
    record {
      revision = codes "0001_create_tmp_table";
      down_revision = none;
      upgrade = upgrade_0001;
      downgrade = downgrade_0001;
    }
    ∷ record {
      revision = codes "0002_create_users_table";
      down_revision = some (codes "0001_create_tmp_table");
      upgrade = upgrade_0002;
      downgrade = downgrade_0002;
    }
    ∷ record {
      revision = codes "0003_add_last_login_at";
      down_revision = some (codes "0002_create_users_table");
      upgrade = upgrade_0003;
      downgrade = downgrade_0003;
    }
    ∷ record {
      revision = codes "0004_create_sessions_table";
      down_revision = some (codes "0003_add_last_login_at");
      upgrade = upgrade_0004;
      downgrade = downgrade_0004;
    }
    ∷ record {
      revision = codes "0005_create_spaces";
      down_revision = some (codes "0004_create_sessions_table");
      upgrade = upgrade_0005;
      downgrade = downgrade_0005;
    }
    ∷ []
