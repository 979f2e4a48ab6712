-- ===== src/Migrations/States.antt =====
-- The schemas between the revisions of alembic/versions/, on top of what else is in the database.
use python_typescript_wiki_b.Base.{
  ◌≡◌, refl, Bool, true, false, List, [], ◌∷◌, ◌++◌, any, find?, same, All, arith,
}
use python_typescript_wiki_b.Text.{Str, codes}
use python_typescript_wiki_b.Errors.{ok}
use python_typescript_wiki_b.Migrations.Ddl
use python_typescript_wiki_b.Migrations.Ddl.{
  string, integer, Table, ForeignKey, Index, Schema, named_by_table, named_by_index, referred_by,
  indexed_by, column_referred_by, without, names_table, names_index, create_table, add_column,
  alter_nullable, alter_type, create_index, drop_index, drop_constraint, check_foreign_keys,
  has_columns, change_table, change_column,
}
use python_typescript_wiki_b.Migrations.Versions.{
  column, stamped, tmp_table, users_table, sessions_table, spaces_table, space_memberships_table,
  user_id_index, expires_at_index, revoked_at_index, token_hash_index, upgrade_0001, upgrade_0002,
  upgrade_0003, upgrade_0004, upgrade_0005,
}

abbrev pub own_tables : List Str
own_tables =
    codes "tmp" ∷ codes "users" ∷ codes "sessions" ∷ codes "spaces" ∷ codes "space_memberships" ∷ []

abbrev pub own_names : List Str
own_names =
    codes "uq_users_telegram_id"
    ∷ codes "sessions_token_hash_key"
    ∷ codes "ix_sessions_user_id"
    ∷ codes "ix_sessions_expires_at"
    ∷ codes "ix_sessions_revoked_at"
    ∷ codes "ix_sessions_token_hash"
    ∷ []

abbrev pub IsFree : Schema → Str → Type 0
IsFree s n = (named_by_table n s.tables ≡ false) × (named_by_index n s.indexes ≡ false)

-- Nothing in the schema has a name that the revisions use, or refers to one of their tables.
pub record IsFresh (s : Schema) : Type 0 where
  pub free : All (IsFree s) (own_tables ++ own_names)
  pub unused :
      All (λ n. (referred_by n s.tables ≡ false) × (indexed_by n s.indexes ≡ false)) own_tables

-- `users` with `last_login_at` and a `username` that may be null.
abbrev pub users_table_0003 : Table
users_table_0003 = record users_table {
  columns =
      column (codes "id") integer false
      ∷ column (codes "telegram_id") Ddl.big_integer false
      ∷ column (codes "username") (string 255) true
      ∷ column (codes "first_name") (string 255) true
      ∷ column (codes "last_name") (string 255) true
      ∷ column (codes "photo_url") (string 1024) true
      ∷ column (codes "permission") (string 64) true
      ∷ stamped (codes "created_at")
      ∷ stamped (codes "updated_at")
      ∷ stamped (codes "last_login_at")
      ∷ [];
}

-- `sessions` with an INTEGER for `user_id`, and without the constraint.
abbrev pub sessions_table_0005 : Table
sessions_table_0005 = record sessions_table {
  columns =
      column (codes "id") Ddl.uuid false
      ∷ column (codes "user_id") integer false
      ∷ column (codes "token_hash") (string 64) false
      ∷ column (codes "expires_at") Ddl.date_time false
      ∷ column (codes "revoked_at") Ddl.date_time true
      ∷ stamped (codes "created_at")
      ∷ stamped (codes "updated_at")
      ∷ [];
  unique_constraints = [];
}

module _ (s : Schema) where
  abbrev pub at_0001 : Schema
  at_0001 = record s { tables = tmp_table ∷ s.tables }

  abbrev pub at_0002 : Schema
  at_0002 = record s { tables = users_table ∷ tmp_table ∷ s.tables }

  abbrev pub at_0003 : Schema
  at_0003 = record s { tables = users_table_0003 ∷ tmp_table ∷ s.tables }

  abbrev pub at_0004 : Schema
  at_0004 = record {
    tables = sessions_table ∷ users_table_0003 ∷ tmp_table ∷ s.tables;
    indexes = revoked_at_index ∷ expires_at_index ∷ user_id_index ∷ s.indexes;
  }

  abbrev pub at_0005 : Schema
  at_0005 = record {
    tables =
        space_memberships_table ∷ spaces_table ∷ sessions_table_0005 ∷ users_table_0003 ∷ tmp_table
        ∷ s.tables;
    indexes = token_hash_index ∷ user_id_index ∷ s.indexes;
  }

-- The elements that a test does not meet stay.
pub without-none : {A : Type 0} (p : A → Bool) (xs : List A) → any p xs ≡ false → without p xs ≡ xs
unfolding any without
without-none p [] h = refl
without-none p (x ∷ xs) h = ground (arith, without-none p xs)

module _ (s : Schema) (f : IsFresh s) where
  pub key-IsFree : IsFree s (codes "sessions_token_hash_key")
  key-IsFree = f.free.1.1.1.1.1.1.0

  pub sessions-IsFree : IsFree s (codes "sessions")
  sessions-IsFree = f.free.1.1.0

  pub spaces-IsFree : IsFree s (codes "spaces")
  spaces-IsFree = f.free.1.1.1.0

  pub memberships-IsFree : IsFree s (codes "space_memberships")
  memberships-IsFree = f.free.1.1.1.1.0

  pub ix_user-IsFree : IsFree s (codes "ix_sessions_user_id")
  ix_user-IsFree = f.free.1.1.1.1.1.1.1.0

  pub ix_expires-IsFree : IsFree s (codes "ix_sessions_expires_at")
  ix_expires-IsFree = f.free.1.1.1.1.1.1.1.1.0

  pub ix_revoked-IsFree : IsFree s (codes "ix_sessions_revoked_at")
  ix_revoked-IsFree = f.free.1.1.1.1.1.1.1.1.1.0

  pub ix_hash-IsFree : IsFree s (codes "ix_sessions_token_hash")
  ix_hash-IsFree = f.free.1.1.1.1.1.1.1.1.1.1.0

  pub upgrade_0001_lem : upgrade_0001 s ≡ ok (at_0001 s)
  unfolding upgrade_0001 create_table check_foreign_keys
  upgrade_0001_lem = rw (f.free.0.0, f.free.0.1) refl

  pub upgrade_0002_lem : upgrade_0002 (at_0001 s) ≡ ok (at_0002 s)
  unfolding upgrade_0002 create_table check_foreign_keys named_by_table any same
  upgrade_0002_lem = rw (f.free.1.0.0, f.free.1.0.1) refl

  pub upgrade_0003_lem : upgrade_0003 (at_0002 s) ≡ ok (at_0003 s)
  unfolding upgrade_0003 add_column alter_nullable change_table change_column any same
  upgrade_0003_lem = refl

  pub upgrade_0004_lem : upgrade_0004 (at_0003 s) ≡ ok (at_0004 s)
  unfolding upgrade_0004 create_table create_index check_foreign_keys named_by_table named_by_index
      any find? same has_columns
  upgrade_0004_lem =
      rw
        (
          sessions-IsFree.0, sessions-IsFree.1, ix_user-IsFree.0, ix_user-IsFree.1,
          ix_expires-IsFree.0, ix_expires-IsFree.1, ix_revoked-IsFree.0, ix_revoked-IsFree.1,
        )
        refl

  pub upgrade_0005_lem : upgrade_0005 (at_0004 s) ≡ ok (at_0005 s)
  unfolding upgrade_0005 create_table create_index check_foreign_keys named_by_table named_by_index
      alter_type change_table change_column drop_index drop_constraint without any find? same
      has_columns
  upgrade_0005_lem =
      rw
        (
          spaces-IsFree.0,
          spaces-IsFree.1,
          memberships-IsFree.0,
          memberships-IsFree.1,
          without-none (names_index (codes "ix_sessions_expires_at")) s.indexes ix_expires-IsFree.1,
          without-none (names_index (codes "ix_sessions_revoked_at")) s.indexes ix_revoked-IsFree.1,
          ix_hash-IsFree.0,
          ix_hash-IsFree.1,
        )
        refl
