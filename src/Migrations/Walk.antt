-- ===== src/Migrations/Walk.antt =====
-- alembic/env.py, and the steps `alembic upgrade +n` and `alembic downgrade -n` along the revisions.
pub mod Head
pub mod RoundTrip
use python_typescript_wiki_b.Base.{ℕ, zero, suc, Bool, false, Option, none, some, List, find?, same}
use python_typescript_wiki_b.Text.{Str}
use python_typescript_wiki_b.Errors.{value_error, Exc, Result, ok, raised, ◌>>=◌}
use python_typescript_wiki_b.Migrations.Ddl.{Schema}
use python_typescript_wiki_b.Migrations.Versions.{Revision, versions}

-- The schema, and the revision in the table `alembic_version`.
pub record Database : Type 0 where
  pub schema : Schema
  pub version : Option Str

abbrev is_version : Option Str → Option Str → Bool
is_version none none = Bool.true
is_version (some a) (some b) = same a b
is_version _ _ = false

-- The revision behind the current one, and the current one itself.
abbrev pub next_revision : Option Str → Option Revision
next_revision version = find? (λ r. is_version version r.down_revision) versions

abbrev pub current_revision : Option Str → Option Revision
current_revision version = find? (λ r. is_version version (some r.revision)) versions

abbrev up_by : Schema → Option Revision → Result Database
up_by s none = raised value_error
up_by s (some r) = do s' ← r.upgrade s; ok (record { schema = s'; version = some r.revision })

abbrev down_by : Schema → Option Revision → Result Database
down_by s none = raised value_error
down_by s (some r) = do s' ← r.downgrade s; ok (record { schema = s'; version = r.down_revision })

unfoldable pub step_up : Database → Result Database
unfolding find?
step_up d = up_by d.schema (next_revision d.version)

unfoldable pub step_down : Database → Result Database
unfolding find?
step_down d = down_by d.schema (current_revision d.version)

unfoldable pub upgrade_by : ℕ → Database → Result Database
unfolding step_up
upgrade_by zero d = ok d
upgrade_by (suc n) d = do d' ← step_up d; upgrade_by n d'

unfoldable pub downgrade_by : ℕ → Database → Result Database
unfolding step_down
downgrade_by zero d = ok d
downgrade_by (suc n) d = do d' ← step_down d; downgrade_by n d'

abbrev settled : Database → Result Database → Result (Unit {0}) × Database
settled d (ok d') = (ok tt, d')
settled d (raised e) = (raised e, d)

-- `run_migrations_online`: the steps run in one transaction.
unfoldable pub run_migrations_online :
    (Database → Result Database) → Database → Result (Unit {0}) × Database
run_migrations_online run_migrations d = settled d (run_migrations d)
