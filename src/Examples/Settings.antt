-- ===== src/Examples/Settings.antt =====
-- An environment of variables for the tests.
use python_typescript_wiki_b.Base.{
  ℕ, ◌∷◌, [], Option, ◌-◌, ◌&&◌, leb, if◌then◌else◌, ◌≡◌, refl, none, some, same,
}
use python_typescript_wiki_b.Base.Int.{pos}
use python_typescript_wiki_b.Text.{split, codes, strip}
use python_typescript_wiki_b.Errors.{ok}
use python_typescript_wiki_b.Config.{
  Settings, Variables, env_required, env_int_required, read_origins, get_settings,
}

-- The digits of ASCII.
abbrev pub ascii_decimal : ℕ → Option ℕ
ascii_decimal c = if leb b'0' c && leb c b'9' then some (c - b'0') else none

-- An environment with all required variables.
abbrev pub test_variables : Variables
test_variables name =
    if same name (codes "TOKEN_TTL_SECONDS")
    then some (codes " 86_400 ")
    else if same name (codes "SESSION_TTL_SECONDS")
    then some (codes "+3600")
    else if same name (codes "CORS_ORIGINS")
    then some (codes "http://a, http://b")
    else some (codes "local")

abbrev pub test_settings : Settings
test_settings = record {
  oauth_name_application_id = codes "local";
  oauth_name_secret_key = codes "local";
  token_ttl_seconds = pos 86400;
  session_ttl_seconds = pos 3600;
  cors_origins = codes "http://a" ∷ codes "http://b" ∷ [];
}

pub settings_run : get_settings ascii_decimal test_variables ≡ ok test_settings
unfolding get_settings env_required env_int_required read_origins same strip split
settings_run = refl
