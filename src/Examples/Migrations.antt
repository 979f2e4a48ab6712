-- ===== src/Examples/Migrations.antt =====
-- The theorems on the migrations at concrete arguments.
use python_typescript_wiki_b.Base.{
  ◌≡◌, true, false, some, List, [], ◌∷◌, ◌++◌, All, any, same, arith,
}
use python_typescript_wiki_b.Text.{codes}
use python_typescript_wiki_b.Errors.{value_error, ok, raised}
use python_typescript_wiki_b.Migrations.Ddl.{
  Schema, Table, Index, integer, named_by_table, named_by_index, referred_by, indexed_by,
}
use python_typescript_wiki_b.Migrations.Versions.{column, index_on}
use python_typescript_wiki_b.Migrations.Metadata.{agrees, metadata}
use python_typescript_wiki_b.Migrations.States.{IsFresh}
use python_typescript_wiki_b.Migrations.Walk.{Database, step_up, upgrade_by, downgrade_by}
use python_typescript_wiki_b.Migrations.Walk.Head.{
  at_base, reached, upgrade_by-reached, upgrade-head,
}
use python_typescript_wiki_b.Migrations.Walk.RoundTrip.{IsSame, downgrade_by-upgrade_by}

-- A database with a table of somebody else.
abbrev pages_schema : Schema
pages_schema = record {
  tables =
      record {
        name = codes "pages";
        columns = column (codes "id") integer false ∷ [];
        primary_key = codes "id" ∷ [];
        foreign_keys = [];
        unique_constraints = [];
      }
      ∷ [];
  indexes = index_on (codes "ix_pages_id") (codes "pages") (codes "id") false ∷ [];
}

pages-IsFresh : IsFresh pages_schema
unfolding named_by_table named_by_index referred_by indexed_by any same
pages-IsFresh = record { free = ground arith; unused = ground arith }

upgrade-head_example :
    (d : Database) × (upgrade_by 5 (at_base pages_schema) ≡ ok d)
    × (d.version ≡ some (codes "0005_create_spaces"))
    × (step_up d ≡ raised value_error)
    × All (λ m. agrees m d.schema ≡ true) metadata
    × ((tables : List Table) × (d.schema.tables ≡ tables ++ pages_schema.tables))
    × ((indexes : List Index) × (d.schema.indexes ≡ indexes ++ pages_schema.indexes))
upgrade-head_example = upgrade-head pages_schema pages-IsFresh

back_from_head : upgrade_by 1 (reached pages_schema 4) ≡ ok (reached pages_schema 5)
back_from_head = upgrade_by-reached pages_schema pages-IsFresh 1 4 (omega arith)

downgrade_by-upgrade_by_example :
    (d : Database) × (downgrade_by 1 (reached pages_schema 5) ≡ ok d)
    × IsSame d (reached pages_schema 4)
downgrade_by-upgrade_by_example =
    downgrade_by-upgrade_by pages_schema pages-IsFresh 4 1 (reached pages_schema 4)
      (reached pages_schema 5) (omega arith)
      (upgrade_by-reached pages_schema pages-IsFresh 4 0 (omega arith)) back_from_head
