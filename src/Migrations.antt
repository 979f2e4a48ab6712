-- ===== src/Migrations.antt =====
-- alembic/: the schema that the migrations build, revision by revision, and undo.
pub mod Url
pub mod Ddl
pub mod Versions
pub mod States
pub mod Undo
pub mod Metadata
pub mod Walk
