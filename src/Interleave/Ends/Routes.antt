-- ===== src/Interleave/Ends/Routes.antt =====
-- How many atoms the routes of app/api/v1/routes/ and app/main.py need.
use python_typescript_wiki_b.Base.{Option, none, some}
use python_typescript_wiki_b.Text.{Str}
use python_typescript_wiki_b.Outside.{Env}
use python_typescript_wiki_b.Services.Sessions.{SessionService}
use python_typescript_wiki_b.Api.Http.{Body, Request}
use python_typescript_wiki_b.Api.Bearer.{extract_bearer_token}
use python_typescript_wiki_b.Api.Users.{Limit, query_value, limit_value}
use python_typescript_wiki_b.Interleave.Prog.{connect, probe, search, create_space}
use python_typescript_wiki_b.Interleave.Programs as P
use python_typescript_wiki_b.Interleave.Ends.Rules.{Ended, Takes, Takes-more, Takes-act, Takes-bind}
use python_typescript_wiki_b.Interleave.Ends.Answers.{
  ends_at_once, authenticate-Takes, create_session-Takes, get_session-Takes, refresh_session-Takes,
  revoke_session-Takes, body_field-Takes, stripped_token-Takes, named-Takes, created-Takes,
}

module _ (env : Env) (service : SessionService) (request : Request) where
  pub post_token-Takes : (body : Body) → Takes env Ended 8 (P.post_token env service request body)
  unfolding P.post_token
  post_token-Takes body = Takes-more env 4 (
      Takes-bind env (body_field-Takes env 1 none body) λ raw.
        Takes-bind env (stripped_token-Takes env raw) λ token.
          Takes-bind env (authenticate-Takes env service.tokens token)
            λ (user, is_new). ends_at_once env _)

  pub post_session-Takes :
      (body : Body) → Takes env Ended 8 (P.post_session env service request body)
  unfolding P.post_session
  post_session-Takes body = Takes-bind env (body_field-Takes env 1 none body) λ raw.
      Takes-bind env (stripped_token-Takes env raw) λ token.
        Takes-bind env (create_session-Takes env service token)
          λ d. created-Takes env d d.session_token

  pub get_status-Takes : Takes env Ended 8 (P.get_status env service request)
  unfolding P.get_status
  get_status-Takes = Takes-more env 4 (
      Takes-bind env (Takes-act env connect) λ _.
        Takes-bind env (ends_at_once env (extract_bearer_token request.authorization))
          λ token. Takes-bind env (get_session-Takes env service token) λ d. ends_at_once env _)

  pub post_refresh-Takes : Takes env Ended 8 (P.post_refresh env service request)
  unfolding P.post_refresh
  post_refresh-Takes = Takes-more env 1 (
      Takes-bind env (Takes-act env connect) λ _.
        Takes-bind env (ends_at_once env (extract_bearer_token request.authorization))
          λ token. Takes-bind env (refresh_session-Takes env service token) λ d. ends_at_once env _)

  pub delete_session-Takes : Takes env Ended 8 (P.delete_session env service request)
  unfolding P.delete_session
  delete_session-Takes = Takes-more env 3 (
      Takes-bind env (Takes-act env connect) λ _.
        Takes-bind env (ends_at_once env (extract_bearer_token request.authorization))
          λ token. Takes-bind env (revoke_session-Takes env service token) λ _. ends_at_once env _)

  pub post_spaces-Takes : (body : Body) → Takes env Ended 8 (P.post_spaces env service request body)
  unfolding P.post_spaces
  post_spaces-Takes body = Takes-more env 3 (
      Takes-bind env (body_field-Takes env 1 (some 255) body) λ name.
        Takes-bind env (ends_at_once env (extract_bearer_token request.authorization)) λ token.
          Takes-bind env (get_session-Takes env service token) λ d.
            Takes-bind env (named-Takes env name) λ _.
              Takes-bind env (Takes-act env (create_space name d.user.id)) λ id. ends_at_once env _)

  pub search_users-Takes :
      (q : Option Str) (limit : Limit)
      → Takes env Ended 8 (P.search_users env service request q limit)
  unfolding P.search_users
  search_users-Takes q limit = Takes-more env 3 (
      Takes-bind env (Takes-act env connect) λ _.
        Takes-bind env (ends_at_once env (query_value q)) λ query.
          Takes-bind env (ends_at_once env (limit_value limit)) λ count.
            Takes-bind env (ends_at_once env (extract_bearer_token request.authorization)) λ token.
              Takes-bind env (get_session-Takes env service token) λ _.
                Takes-bind env (Takes-act env (search query count)) λ users. ends_at_once env _)

pub root-Takes : (env : Env) → Takes env Ended 8 P.root
unfolding P.root
root-Takes env = Takes-more env 8 (ends_at_once env _)

pub health_db-Takes : (env : Env) → Takes env Ended 8 P.health_db
unfolding P.health_db
health_db-Takes env = Takes-more env 6 (
    Takes-bind env (Takes-act env connect)
      λ _. Takes-bind env (Takes-act env probe) λ value. ends_at_once env _)
