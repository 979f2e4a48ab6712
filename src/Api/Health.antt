-- ===== src/Api/Health.antt =====
-- The two routes that app/main.py declares itself.
use python_typescript_wiki_b.Base.{ℕ, Bool, ◌==◌}
use python_typescript_wiki_b.Text.{Str, codes}
use python_typescript_wiki_b.Errors.{ok}
use python_typescript_wiki_b.Outside.{Env}
use python_typescript_wiki_b.App.{App, Statement, ◌>>=◌, ◌>>◌, pure, run_sql}
use python_typescript_wiki_b.Api.Http.{get_connection}

-- `GET /`
unfoldable pub root : App Str
root = pure (codes "Hello World")

-- `SELECT 1`
abbrev pub select_one : Statement ℕ
select_one now db = (ok 1, db)

-- `GET /health/db`
unfoldable pub health_db : Env → App Bool
health_db env = do get_connection env; value ← run_sql env select_one; pure (value == 1)
