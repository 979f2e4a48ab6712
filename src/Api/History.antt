-- ===== src/Api/History.antt =====
-- Histories of requests to the application of app/main.py.
pub mod Keeps
pub mod Invariants
use python_typescript_wiki_b.Base.{
  ℕ, ◌≡◌, refl, sym, ap, ◌∙◌, subst, Bool, true, false, Option, none, some, List, [], ◌∷◌,
  if◌then◌else◌,
}
use python_typescript_wiki_b.Text.{Str, strip, is_empty}
use python_typescript_wiki_b.Errors.{
  Exc, app_error, http_exception, request_validation_error, rate_limit_error, Result, ok, raised,
}
use python_typescript_wiki_b.Db.{Db}
use python_typescript_wiki_b.Outside.{Env}
use python_typescript_wiki_b.App.{World, App, ◌>>=◌, internal, pure, raise, lift, run_sql, nothing}
use python_typescript_wiki_b.Services.Sessions.{SessionService, SessionData}
use python_typescript_wiki_b.Api.Http.{
  Request, Body, malformed, absent, given, Response, get_connection, within, body_field, serve,
}
use python_typescript_wiki_b.Api.Http.Pipeline.{trace_of, conclude, serve_lem}
use python_typescript_wiki_b.Api.Bearer.{extract_bearer_token, bad_request}
use python_typescript_wiki_b.Api.Auth as AuthRoutes
use python_typescript_wiki_b.Api.Auth.{stripped_token}
use python_typescript_wiki_b.Api.Sessions as SessionRoutes
use python_typescript_wiki_b.Api.Spaces as SpaceRoutes
use python_typescript_wiki_b.Api.Health.{root, health_db}
use python_typescript_wiki_b.Api.Users as UserRoutes
use python_typescript_wiki_b.Api.Users.{Limit}

-- The routes that `create_app` mounts, with what each reads besides the headers.
pub data Call : Type 0 where
  post_token post_session post_spaces : Body → Call
  get_session refresh_session delete_session get_root get_health : Call
  get_users_search : Option Str → Limit → Call

module _ (env : Env) (service : SessionService) where
  -- One request, served to its end.
  unfoldable pub step : Request → Call → World → World
  step request (post_token body) w =
      (serve env request 200 (AuthRoutes.verify_token env service.tokens body) w).1
  step request (post_session body) w =
      (serve env request 200 (SessionRoutes.create_session env service body) w).1
  step request (post_spaces body) w =
      (serve env request 201 (SpaceRoutes.create_space env service request body) w).1
  step request get_session w =
      (serve env request 200 (SessionRoutes.get_session env service request) w).1
  step request refresh_session w =
      (serve env request 200 (SessionRoutes.refresh_session env service request) w).1
  step request delete_session w =
      (serve env request 200 (SessionRoutes.delete_session env service request) w).1
  step request (get_users_search q limit) w =
      (serve env request 200 (UserRoutes.search_users env service request q limit) w).1
  step request get_root w = (serve env request 200 root w).1
  step request get_health w = (serve env request 200 (health_db env) w).1

  unfoldable pub run : List (Request × Call) → World → World
  unfolding step
  run [] w = w
  run ((request, call) ∷ history) w = run history (step request call w)
