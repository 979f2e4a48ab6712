-- ===== src/Api/Sessions.antt =====
-- app/api/v1/routes/session.py and app/api/v1/schemas/session.py.
use python_typescript_wiki_b.Base.{ℕ, Bool, true, false, Option, none, some}
use python_typescript_wiki_b.Text.{Str}
use python_typescript_wiki_b.Outside.{Env}
use python_typescript_wiki_b.App.{App, ◌>>=◌, ◌>>◌, pure, raise, internal, lift}
use python_typescript_wiki_b.Services.Sessions
use python_typescript_wiki_b.Services.Sessions.{SessionData, SessionService}
use python_typescript_wiki_b.Api.Http.{Request, Body, body_field, get_connection}
use python_typescript_wiki_b.Api.Bearer.{extract_bearer_token}
use python_typescript_wiki_b.Api.Auth.{TokenUserResponse, token_user, stripped_token}

pub record SessionCreateResponse : Type 0 where
  pub authenticated : Bool
  pub session_token : Str
  pub expires_at : ℕ
  pub user : TokenUserResponse

pub record SessionStatusResponse : Type 0 where
  pub authenticated : Bool
  pub expires_at : ℕ
  pub user : TokenUserResponse

pub record SessionLogoutResponse : Type 0 where
  pub authenticated : Bool

-- The end of `create_session`: a session without a token would be an error.
abbrev pub created : SessionData → Option Str → App SessionCreateResponse
created d none = raise internal
created d (some session_token) = pure (record {
  authenticated = true;
  session_token = session_token;
  expires_at = d.expires_at;
  user = token_user d.user;
})

unfoldable pub status_of : SessionData → SessionStatusResponse
status_of d = record { authenticated = true; expires_at = d.expires_at; user = token_user d.user }

module _ (env : Env) (service : SessionService) where
  -- `POST /session`
  unfoldable pub create_session : Body → App SessionCreateResponse
  create_session body = do
    raw ← body_field env 1 none body
    token ← stripped_token raw
    d ← Sessions.create_session env service token
    created d d.session_token

  -- `GET /session`
  unfoldable pub get_session : Request → App SessionStatusResponse
  get_session request = do
    get_connection env
    session_token ← lift (extract_bearer_token request.authorization)
    d ← Sessions.get_session env service session_token
    pure (status_of d)

  -- `POST /session/refresh`
  unfoldable pub refresh_session : Request → App SessionStatusResponse
  refresh_session request = do
    get_connection env
    session_token ← lift (extract_bearer_token request.authorization)
    d ← Sessions.refresh_session env service session_token
    pure (status_of d)

  -- `DELETE /session`
  unfoldable pub delete_session : Request → App SessionLogoutResponse
  delete_session request = do
    get_connection env
    session_token ← lift (extract_bearer_token request.authorization)
    Sessions.revoke_session env service session_token
    pure (record { authenticated = false })
