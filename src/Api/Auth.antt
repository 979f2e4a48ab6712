-- ===== src/Api/Auth.antt =====
-- app/api/v1/routes/auth.py and app/api/v1/schemas/auth.py.
use python_typescript_wiki_b.Base.{ℕ, Bool, Option, none, if◌then◌else◌}
use python_typescript_wiki_b.Base.Int.{ℤ}
use python_typescript_wiki_b.Text.{Str, strip, is_empty}
use python_typescript_wiki_b.Outside.{Env}
use python_typescript_wiki_b.App.{App, ◌>>=◌, pure, raise}
use python_typescript_wiki_b.Token.{TokenService}
use python_typescript_wiki_b.Repositories.Users.{UserProfile}
use python_typescript_wiki_b.Services.Auth
use python_typescript_wiki_b.Api.Http.{Body, body_field}
use python_typescript_wiki_b.Api.Bearer.{bad_request}

pub record TokenUserResponse : Type 0 where
  pub telegram_id : ℤ
  pub username : Option Str
  pub created_at : ℕ
  pub last_login_at : ℕ

pub record TokenVerifyResponse : Type 0 where
  pub created : Bool
  pub user : TokenUserResponse

-- `TokenUserResponse.model_validate(user)`
unfoldable pub token_user : UserProfile → TokenUserResponse
token_user user = record {
  telegram_id = user.telegram_id;
  username = user.username;
  created_at = user.created_at;
  last_login_at = user.last_login_at;
}

-- `token = body.token.strip()`, refused if it is empty.
unfoldable pub stripped_token : Str → App Str
unfolding strip
stripped_token token = if is_empty (strip token) then raise bad_request else pure (strip token)

-- `POST /token`
unfoldable pub verify_token : Env → TokenService → Body → App TokenVerifyResponse
unfolding token_user stripped_token
verify_token env service body = do
  raw ← body_field env 1 none body
  token ← stripped_token raw
  (user, created) ← Auth.verify_token env service token
  pure (record { created = created; user = token_user user })
