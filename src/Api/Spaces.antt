-- ===== src/Api/Spaces.antt =====
-- app/api/v1/routes/spaces.py and app/api/v1/schemas/spaces.py.
pub mod Posted
use python_typescript_wiki_b.Base.{ℕ, some, if◌then◌else◌}
use python_typescript_wiki_b.Text.{Str, strip, is_empty}
use python_typescript_wiki_b.Outside.{Env}
use python_typescript_wiki_b.App.{App, ◌>>=◌, ◌>>◌, pure, raise, lift}
use python_typescript_wiki_b.Services.Sessions
use python_typescript_wiki_b.Services.Sessions.{SessionService}
use python_typescript_wiki_b.Services.Spaces
use python_typescript_wiki_b.Api.Http.{Request, Body, body_field}
use python_typescript_wiki_b.Api.Bearer.{extract_bearer_token, bad_request}

pub record SpaceCreateResponse : Type 0 where
  pub id : ℕ

-- A name of spaces alone is refused.
unfoldable pub named : Str → App (Unit {0})
unfolding strip
named name = if is_empty (strip name) then raise bad_request else pure tt

-- `POST /spaces`: the name is stored as it came.
unfoldable pub create_space : Env → SessionService → Request → Body → App SpaceCreateResponse
create_space env service request body = do
  name ← body_field env 1 (some 255) body
  session_token ← lift (extract_bearer_token request.authorization)
  session_data ← Sessions.get_session env service session_token
  named name
  space_id ← Spaces.create_space env name session_data.user.id
  pure (record { id = space_id })
