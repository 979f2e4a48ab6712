-- ===== src/Interleave/Exec/Routes.antt =====
-- A task that runs alone serves its request.
use python_typescript_wiki_b.Base.{ℕ, Option, none, some}
use python_typescript_wiki_b.Text.{Str, strip, is_empty}
use python_typescript_wiki_b.Errors.{request_validation_error}
use python_typescript_wiki_b.Outside.{Env}
use python_typescript_wiki_b.App
use python_typescript_wiki_b.App.{World, App, internal}
use python_typescript_wiki_b.Services.Sessions.{SessionService, SessionData}
use python_typescript_wiki_b.Services.Spaces as Spaces
use python_typescript_wiki_b.Services.Users as Users
use python_typescript_wiki_b.Api.Http
use python_typescript_wiki_b.Api.Http.{Body, malformed, absent, given, within, Request, Response}
use python_typescript_wiki_b.Api.Bearer.{extract_bearer_token, bad_request}
use python_typescript_wiki_b.Api.Auth as AuthRoutes
use python_typescript_wiki_b.Api.Sessions as SessionRoutes
use python_typescript_wiki_b.Api.Spaces as SpaceRoutes
use python_typescript_wiki_b.Api.Users as UserRoutes
use python_typescript_wiki_b.Api.Users.{Limit, query_value, limit_value}
use python_typescript_wiki_b.Api.Health as Health
use python_typescript_wiki_b.Interleave.Prog
use python_typescript_wiki_b.Interleave.Prog.{
  connect, probe, search, create_space, read_clock, draw_uuid, Prog, exec, exec-follow, follow,
  Runs, Runs-act, Runs-lift, Runs-pure, Runs-raise, Runs-if, Runs-bind,
}
use python_typescript_wiki_b.Interleave.Programs as P
use python_typescript_wiki_b.Interleave.Exec.{
  authenticate-Runs, create_session-Runs, get_session-Runs, refresh_session-Runs,
  revoke_session-Runs,
}

module _ (env : Env) where
  connect-Runs : Runs env (Prog.act connect) (Http.get_connection env)
  unfolding Http.get_connection
  connect-Runs = Runs-act env connect

  body_field-Runs :
      (lo : ℕ) (hi : Option ℕ) (body : Body)
      → Runs env (P.body_field lo hi body) (Http.body_field env lo hi body)
  unfolding P.body_field Http.body_field
  body_field-Runs lo hi malformed = Runs-raise env request_validation_error
  body_field-Runs lo hi absent =
      Runs-bind env connect-Runs λ _. Runs-raise env request_validation_error
  body_field-Runs lo hi (given s) =
      Runs-bind env connect-Runs λ _.
        Runs-if env (within lo hi s) (Runs-pure env s) (Runs-raise env request_validation_error)

  stripped_token-Runs : (t : Str) → Runs env (P.stripped_token t) (AuthRoutes.stripped_token t)
  unfolding P.stripped_token AuthRoutes.stripped_token
  stripped_token-Runs t =
      Runs-if env (is_empty (strip t)) (Runs-raise env bad_request) (Runs-pure env (strip t))

  named-Runs : (name : Str) → Runs env (P.named name) (SpaceRoutes.named name)
  unfolding P.named SpaceRoutes.named
  named-Runs name =
      Runs-if env (is_empty (strip name)) (Runs-raise env bad_request) (Runs-pure env tt)

  created-Runs :
      (d : SessionData) (o : Option Str) → Runs env (P.created d o) (SessionRoutes.created d o)
  created-Runs d none = Runs-raise env internal
  created-Runs d (some t) = Runs-pure env _

  pub root-Runs : Runs env P.root Health.root
  unfolding P.root Health.root
  root-Runs = Runs-pure env _

  pub health_db-Runs : Runs env P.health_db (Health.health_db env)
  unfolding P.health_db Health.health_db
  health_db-Runs =
      Runs-bind env connect-Runs λ _. Runs-bind env (Runs-act env probe) λ v. Runs-pure env _

  module _ (service : SessionService) (request : Request) where
    bearer-Runs :
        Runs env
          (Prog.lift (extract_bearer_token request.authorization))
          (App.lift (extract_bearer_token request.authorization))
    bearer-Runs = Runs-lift env (extract_bearer_token request.authorization)

    pub post_token-Runs :
        (body : Body)
        → Runs env
            (P.post_token env service request body)
            (AuthRoutes.verify_token env service.tokens body)
    unfolding P.post_token AuthRoutes.verify_token
    post_token-Runs body = Runs-bind env (body_field-Runs 1 none body) λ raw.
        Runs-bind env (stripped_token-Runs raw) λ token.
          Runs-bind env (authenticate-Runs env service.tokens token)
            λ (user, is_new). Runs-pure env _

    pub post_session-Runs :
        (body : Body)
        → Runs env
            (P.post_session env service request body)
            (SessionRoutes.create_session env service body)
    unfolding P.post_session SessionRoutes.create_session
    post_session-Runs body = Runs-bind env (body_field-Runs 1 none body) λ raw.
        Runs-bind env (stripped_token-Runs raw) λ token.
          Runs-bind env (create_session-Runs env service token) λ d. created-Runs d d.session_token

    pub get_status-Runs :
        Runs env (P.get_status env service request) (SessionRoutes.get_session env service request)
    unfolding P.get_status SessionRoutes.get_session
    get_status-Runs = Runs-bind env connect-Runs λ _.
        Runs-bind env bearer-Runs
          λ t. Runs-bind env (get_session-Runs env service t) λ d. Runs-pure env _

    pub post_refresh-Runs :
        Runs env
          (P.post_refresh env service request)
          (SessionRoutes.refresh_session env service request)
    unfolding P.post_refresh SessionRoutes.refresh_session
    post_refresh-Runs = Runs-bind env connect-Runs λ _.
        Runs-bind env bearer-Runs
          λ t. Runs-bind env (refresh_session-Runs env service t) λ d. Runs-pure env _

    pub delete_session-Runs :
        Runs env
          (P.delete_session env service request)
          (SessionRoutes.delete_session env service request)
    unfolding P.delete_session SessionRoutes.delete_session
    delete_session-Runs = Runs-bind env connect-Runs λ _.
        Runs-bind env bearer-Runs
          λ t. Runs-bind env (revoke_session-Runs env service t) λ d. Runs-pure env _

    pub post_spaces-Runs :
        (body : Body)
        → Runs env
            (P.post_spaces env service request body)
            (SpaceRoutes.create_space env service request body)
    unfolding P.post_spaces SpaceRoutes.create_space Spaces.create_space
    post_spaces-Runs body = Runs-bind env (body_field-Runs 1 (some 255) body) λ name.
        Runs-bind env bearer-Runs λ t. Runs-bind env (get_session-Runs env service t) λ d.
          Runs-bind env (named-Runs name)
            λ _. Runs-bind env (Runs-act env (create_space name d.user.id)) λ id. Runs-pure env _

    pub search_users-Runs :
        (q : Option Str) (limit : Limit)
        → Runs env
            (P.search_users env service request q limit)
            (UserRoutes.search_users env service request q limit)
    unfolding P.search_users UserRoutes.search_users Users.search_users
    search_users-Runs q limit = Runs-bind env connect-Runs λ _.
        Runs-bind env (Runs-lift env (query_value q)) λ query.
          Runs-bind env (Runs-lift env (limit_value limit)) λ count. Runs-bind env bearer-Runs λ t.
            Runs-bind env (get_session-Runs env service t)
              λ d. Runs-bind env (Runs-act env (search query count)) λ users. Runs-pure env _
