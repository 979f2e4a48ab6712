-- ===== src/Services/Spaces.antt =====
-- app/services/space_service.py.
use python_typescript_wiki_b.Base.{ℕ}
use python_typescript_wiki_b.Text.{Str}
use python_typescript_wiki_b.Outside.{Env}
use python_typescript_wiki_b.App.{App}
use python_typescript_wiki_b.Repositories.Spaces

unfoldable pub create_space : Env → Str → ℕ → App ℕ
create_space env name user_id = Spaces.create_space env name user_id
