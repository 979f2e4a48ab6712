-- ===== src/Services/Auth.antt =====
-- app/services/auth_service.py.
pub mod Verified
use python_typescript_wiki_b.Base.{Bool}
use python_typescript_wiki_b.Text.{Str}
use python_typescript_wiki_b.Outside.{Env}
use python_typescript_wiki_b.App.{App, ◌>>=◌, pure, or_raise, internal}
use python_typescript_wiki_b.Token
use python_typescript_wiki_b.Token.{TokenPayload, TokenService}
use python_typescript_wiki_b.Repositories.Users.{UserProfile, UserFields, upsert_user}

unfoldable pub fields_of : TokenPayload → UserFields
fields_of payload = record {
  telegram_id = payload.telegram_id;
  username = payload.username;
  first_name = payload.first_name;
  last_name = payload.last_name;
  photo_url = payload.photo_url;
  permission = payload.permission;
}

-- `AuthService.verify_token`: the profile, and whether the user is new.
unfoldable pub verify_token : Env → TokenService → Str → App (UserProfile × Bool)
unfolding fields_of
verify_token env service token = do
  payload ← Token.verify_token env service token
  or_raise internal (upsert_user env (fields_of payload))
