-- ===== src/Api/Users.antt =====
-- app/api/v1/routes/users.py and app/api/v1/schemas/users.py.
pub mod Bounds
use python_typescript_wiki_b.Base.{ℕ, ◌&&◌, Option, none, some, List, map, leb, ltb, if◌then◌else◌}
use python_typescript_wiki_b.Base.Int.{ℤ, pos, negsuc}
use python_typescript_wiki_b.Text.{Str}
use python_typescript_wiki_b.Errors.{request_validation_error, Result, ok, raised}
use python_typescript_wiki_b.Outside.{Env}
use python_typescript_wiki_b.App.{App, ◌>>=◌, ◌>>◌, pure, lift}
use python_typescript_wiki_b.Repositories.Users.{UserProfile}
use python_typescript_wiki_b.Services.Sessions
use python_typescript_wiki_b.Services.Sessions.{SessionService}
use python_typescript_wiki_b.Services.Users
use python_typescript_wiki_b.Api.Http.{Request, within, get_connection}
use python_typescript_wiki_b.Api.Bearer.{extract_bearer_token}

pub record UserSearchResult : Type 0 where
  pub telegram_id : ℤ
  pub username : Option Str
  pub photo_url : Option Str

pub record UserSearchResponse : Type 0 where
  pub users : List UserSearchResult

-- The query parameter `limit`: left out, no integer, or an integer.
pub data Limit : Type 0 where
  default not_integer : Limit
  number : ℤ → Limit

-- `Query(gt=0, le=100)`, and 20 if it is left out.
unfoldable pub limit_value : Limit → Result ℕ
limit_value default = ok 20
limit_value not_integer = raised request_validation_error
limit_value (number (pos n)) =
    if ltb 0 n && leb n 100 then ok n else raised request_validation_error
limit_value (number (negsuc n)) = raised request_validation_error

-- `Query(min_length=3, max_length=64)`
unfoldable pub query_value : Option Str → Result Str
query_value none = raised request_validation_error
query_value (some q) = if within 3 (some 64) q then ok q else raised request_validation_error

unfoldable pub search_result : UserProfile → UserSearchResult
search_result user = record {
  telegram_id = user.telegram_id;
  username = user.username;
  photo_url = user.photo_url;
}

-- `GET /users/search`
unfoldable pub search_users :
    Env → SessionService → Request → Option Str → Limit → App UserSearchResponse
search_users env service request q limit = do
  get_connection env
  query ← lift (query_value q)
  count ← lift (limit_value limit)
  session_token ← lift (extract_bearer_token request.authorization)
  Sessions.get_session env service session_token
  users ← Users.search_users env query count
  pure (record { users = map search_result users })
