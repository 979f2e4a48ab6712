-- ===== src/Services/Users.antt =====
-- app/services/user_service.py.
use python_typescript_wiki_b.Base.{ℕ, List}
use python_typescript_wiki_b.Text.{Str}
use python_typescript_wiki_b.Outside.{Env}
use python_typescript_wiki_b.App.{App}
use python_typescript_wiki_b.Repositories.Users.{UserProfile, search_by_username}

unfoldable pub search_users : Env → Str → ℕ → App (List UserProfile)
search_users env query limit = search_by_username env query limit
