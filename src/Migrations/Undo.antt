-- ===== src/Migrations/Undo.antt =====
-- The downgrades of alembic/versions/, from the schemas that the upgrades reach.
use python_typescript_wiki_b.Base.{◌≡◌, refl, false, ◌&&◌, List, [], ◌∷◌, any, find?, same, arith}
use python_typescript_wiki_b.Text.{Str, codes}
use python_typescript_wiki_b.Errors.{ok}
use python_typescript_wiki_b.Migrations.Ddl.{
  Table, Index, ForeignKey, Schema, named_by_table, named_by_index, referred_by, indexed_by,
  column_referred_by, without, names_table, names_index, drop_table, drop_column, alter_nullable,
  alter_type, create_index, drop_index, create_unique_constraint, has_columns, change_table,
  change_column,
}
use python_typescript_wiki_b.Migrations.Versions.{
  downgrade_0001, downgrade_0002, downgrade_0003, downgrade_0004, downgrade_0005, user_id_index,
  expires_at_index, revoked_at_index,
}
use python_typescript_wiki_b.Migrations.States.{
  IsFresh, IsFree, ix_expires-IsFree, ix_hash-IsFree, ix_revoked-IsFree, ix_user-IsFree, key-IsFree,
  memberships-IsFree, sessions-IsFree, spaces-IsFree, at_0001, at_0002, at_0003, at_0004, at_0005,
  without-none,
}

-- After the downgrade of 0005 the indexes of `sessions` are in another order.
abbrev pub back_at_0004 : Schema → Schema
back_at_0004 s = record (at_0004 s) {
  indexes = expires_at_index ∷ revoked_at_index ∷ user_id_index ∷ s.indexes;
}

without-names_table :
    (name : Str) (tables : List Table)
    → named_by_table name tables ≡ false
    → without (names_table name) tables ≡ tables
unfolding named_by_table any without
without-names_table name [] h = refl
without-names_table name (t ∷ ts) h = ground (arith, without-names_table name ts)

-- A table that no other table refers to has no column that another table refers to.
any-&& :
    (name column : Str) (ks : List ForeignKey)
    → any (λ k. same name k.table) ks ≡ false
    → any (λ k. same name k.table && any (same column) k.referred) ks ≡ false
unfolding any
any-&& name column [] h = refl
any-&& name column (k ∷ ks) h = ground (arith, any-&& name column ks)

column_referred_by-none :
    (name column : Str) (tables : List Table)
    → referred_by name tables ≡ false
    → column_referred_by name column tables ≡ false
unfolding referred_by column_referred_by any
column_referred_by-none name column [] h = refl
column_referred_by-none name column (t ∷ ts) h =
    ground (arith, any-&& name column t.foreign_keys, column_referred_by-none name column ts)

module _ (s : Schema) (name : Str) where
  tables_stay : IsFree s name → without (names_table name) s.tables ≡ s.tables
  tables_stay free = without-names_table name s.tables free.0

  named_index_stays : IsFree s name → without (names_index name) s.indexes ≡ s.indexes
  unfolding named_by_index
  named_index_stays free = without-none (names_index name) s.indexes free.1

  table_indexes_stay :
      indexed_by name s.indexes ≡ false → without (λ i. same name i.table) s.indexes ≡ s.indexes
  unfolding indexed_by
  table_indexes_stay h = without-none (λ i. same name i.table) s.indexes h

  column_indexes_stay :
      (column : Str) (is : List Index)
      → indexed_by name is ≡ false
      → without (λ i. same name i.table && any (same column) i.columns) is ≡ is
  unfolding indexed_by any without
  column_indexes_stay column [] h = refl
  column_indexes_stay column (i ∷ is) h = ground (arith, column_indexes_stay column is)

module _ (s : Schema) (f : IsFresh s) where
  pub downgrade_0001_lem : downgrade_0001 (at_0001 s) ≡ ok s
  unfolding downgrade_0001 drop_table referred_by any same without
  downgrade_0001_lem =
      rw
        (
          f.unused.0.0,
          tables_stay s (codes "tmp") f.free.0,
          table_indexes_stay s (codes "tmp") f.unused.0.1,
        )
        refl

  pub downgrade_0002_lem : downgrade_0002 (at_0002 s) ≡ ok (at_0001 s)
  unfolding downgrade_0002 drop_table referred_by any same without
  downgrade_0002_lem =
      rw
        (
          f.unused.1.0.0,
          tables_stay s (codes "users") f.free.1.0,
          table_indexes_stay s (codes "users") f.unused.1.0.1,
        )
        refl

  pub downgrade_0003_lem : downgrade_0003 (at_0003 s) ≡ ok (at_0002 s)
  unfolding downgrade_0003 drop_column alter_nullable change_table change_column column_referred_by
      any same without
  downgrade_0003_lem =
      rw
        (
          column_referred_by-none (codes "users") (codes "last_login_at") s.tables f.unused.1.0.0,
          column_indexes_stay s (codes "users") (codes "last_login_at") s.indexes f.unused.1.0.1,
        )
        refl

  pub downgrade_0004_lem : downgrade_0004 (at_0004 s) ≡ ok (at_0003 s)
  unfolding downgrade_0004 drop_index drop_table named_by_index referred_by any same without
  downgrade_0004_lem =
      rw
        (
          named_index_stays s (codes "ix_sessions_revoked_at") (ix_revoked-IsFree s f),
          named_index_stays s (codes "ix_sessions_expires_at") (ix_expires-IsFree s f),
          named_index_stays s (codes "ix_sessions_user_id") (ix_user-IsFree s f),
          f.unused.1.1.0.0,
          tables_stay s (codes "sessions") (sessions-IsFree s f),
          table_indexes_stay s (codes "sessions") f.unused.1.1.0.1,
        )
        refl

  pub downgrade_0004_back : downgrade_0004 (back_at_0004 s) ≡ ok (at_0003 s)
  unfolding downgrade_0004 drop_index drop_table named_by_index referred_by any same without
  downgrade_0004_back =
      rw
        (
          named_index_stays s (codes "ix_sessions_revoked_at") (ix_revoked-IsFree s f),
          named_index_stays s (codes "ix_sessions_expires_at") (ix_expires-IsFree s f),
          named_index_stays s (codes "ix_sessions_user_id") (ix_user-IsFree s f),
          f.unused.1.1.0.0,
          tables_stay s (codes "sessions") (sessions-IsFree s f),
          table_indexes_stay s (codes "sessions") f.unused.1.1.0.1,
        )
        refl

  pub downgrade_0005_lem : downgrade_0005 (at_0005 s) ≡ ok (back_at_0004 s)
  unfolding downgrade_0005 drop_index create_unique_constraint create_index alter_type drop_table
      named_by_table named_by_index referred_by change_table change_column has_columns any find?
      same without
  downgrade_0005_lem =
      rw
        (
          named_index_stays s (codes "ix_sessions_token_hash") (ix_hash-IsFree s f),
          (key-IsFree s f).0,
          (key-IsFree s f).1,
          (ix_revoked-IsFree s f).0,
          (ix_revoked-IsFree s f).1,
          (ix_expires-IsFree s f).0,
          (ix_expires-IsFree s f).1,
          f.unused.1.1.1.1.0.0,
          tables_stay s (codes "space_memberships") (memberships-IsFree s f),
          table_indexes_stay s (codes "space_memberships") f.unused.1.1.1.1.0.1,
          f.unused.1.1.1.0.0,
          tables_stay s (codes "spaces") (spaces-IsFree s f),
          table_indexes_stay s (codes "spaces") f.unused.1.1.1.0.1,
        )
        refl
