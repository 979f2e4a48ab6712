-- ===== src/Api/History/Keeps.antt =====
-- What every statement keeps, every request and every history of requests keeps.
use python_typescript_wiki_b.Base.{ℕ, ◌≡◌, refl, sym, subst, Option, none, some, List, [], ◌∷◌}
use python_typescript_wiki_b.Text.{Str}
use python_typescript_wiki_b.Errors.{
  app_error, http_exception, request_validation_error, rate_limit_error, Result, ok, raised,
}
use python_typescript_wiki_b.Db.{Db}
use python_typescript_wiki_b.Outside.{Env}
use python_typescript_wiki_b.App.{World, App, ◌>>=◌, internal, lift, run_sql, nothing}
use python_typescript_wiki_b.App.Laws.{
  Keeps, Keeps-pure, Keeps-raise, Keeps-lift, Keeps-bind, Keeps-if, Keeps-run_sql,
}
use python_typescript_wiki_b.Services.Auth
use python_typescript_wiki_b.Services.Sessions
use python_typescript_wiki_b.Services.Sessions.{SessionService, SessionData}
use python_typescript_wiki_b.Services.Spaces
use python_typescript_wiki_b.Services.Users
use python_typescript_wiki_b.Services.Keeps.{
  IsStable, auth-Keeps, create_session-Keeps, get_session-Keeps, refresh_session-Keeps,
  revoke_session-Keeps, spaces-Keeps, users-Keeps,
}
use python_typescript_wiki_b.Api.Http.{
  Request, Body, malformed, absent, given, get_connection, within, body_field, serve,
}
use python_typescript_wiki_b.Api.Http.Pipeline.{trace_of, conclude, serve_lem}
use python_typescript_wiki_b.Api.Bearer.{extract_bearer_token, bad_request}
use python_typescript_wiki_b.Api.Auth as AuthRoutes
use python_typescript_wiki_b.Api.Auth.{stripped_token}
use python_typescript_wiki_b.Api.Sessions as SessionRoutes
use python_typescript_wiki_b.Api.Spaces as SpaceRoutes
use python_typescript_wiki_b.Api.Health.{root, health_db, select_one}
use python_typescript_wiki_b.Api.Users as UserRoutes
use python_typescript_wiki_b.Api.Users.{Limit}
use python_typescript_wiki_b.Api.History.{
  Call, post_token, post_session, post_spaces, get_session, refresh_session, delete_session,
  get_users_search, get_root, get_health, step, run,
}

-- The parts of a route around its service.
module _ (env : Env) where
  db-trace_of : (request : Request) (w : World) → (trace_of env request w).1.db ≡ w.db
  db-trace_of request w = go request.x_trace_id
    where
      go :
          (o : Option Str)
          → (trace_of env (record { x_trace_id = o; authorization = none }) w).1.db ≡ w.db
      go none = refl
      go (some []) = refl
      go (some (c ∷ s)) = refl

  db-conclude :
      {A : Type 0} (status : ℕ) (t : Str) (r : Result A) (w : World)
      → (conclude env status t r w).1.db ≡ w.db
  db-conclude status t (ok a) w = refl
  db-conclude status t (raised (app_error s c)) w = refl
  db-conclude status t (raised (http_exception s)) w = refl
  db-conclude status t (raised request_validation_error) w = refl
  db-conclude status t (raised rate_limit_error) w = refl
  db-conclude status t (raised e) w = refl

module _ {P : Db → Type 0} (env : Env) where
  serve-Keeps :
      {A : Type 0} (request : Request) (status : ℕ) (route : App A)
      → Keeps P route
      → Keeps P (serve env request status route)
  serve-Keeps request status route k = record {
    at = λ w h.
        let (t, start) = trace_of env request w in
        let (r, end) = route start in
        subst (λ x. P x.1.db) (sym (serve_lem env request status route w))
          (subst P (sym (db-conclude env status t r end))
            (k.at start (subst P (sym (db-trace_of env request w)) h)));
  }

  get_connection-Keeps : Keeps P (get_connection env)
  unfolding get_connection
  get_connection-Keeps = Keeps-run_sql env nothing (λ now db h. h)

  body_field-Keeps : (lo : ℕ) (hi : Option ℕ) (body : Body) → Keeps P (body_field env lo hi body)
  unfolding body_field
  body_field-Keeps lo hi malformed = Keeps-raise request_validation_error
  body_field-Keeps lo hi absent =
      Keeps-bind (get_connection env) _ get_connection-Keeps
        λ _. Keeps-raise request_validation_error
  body_field-Keeps lo hi (given s) =
      Keeps-bind (get_connection env) _ get_connection-Keeps
        λ _. Keeps-if (within lo hi s) _ _ (Keeps-pure s) (Keeps-raise request_validation_error)

  stripped_token-Keeps : (s : Str) → Keeps P (stripped_token s)
  unfolding stripped_token
  stripped_token-Keeps s = Keeps-if _ _ _ (Keeps-raise bad_request) (Keeps-pure _)

  created-Keeps : (d : SessionData) (o : Option Str) → Keeps P (SessionRoutes.created d o)
  created-Keeps d none = Keeps-raise internal
  created-Keeps d (some t) = Keeps-pure _

  named-Keeps : (s : Str) → Keeps P (SpaceRoutes.named s)
  unfolding SpaceRoutes.named
  named-Keeps s = Keeps-if _ _ _ (Keeps-raise bad_request) (Keeps-pure tt)

  bearer-Keeps :
      {A : Type 0} (request : Request) (f : Str → App A)
      → ((t : Str) → Keeps P (f t))
      → Keeps P (lift (extract_bearer_token request.authorization) >>= f)
  bearer-Keeps request f h =
      Keeps-bind (lift (extract_bearer_token request.authorization)) f (Keeps-lift _) h

-- The routes, on tables whose property every statement keeps.
module _ {P : Db → Type 0} (stable : IsStable P) (env : Env) (service : SessionService)
    (request : Request) where
  post_token-Keeps : (body : Body) → Keeps P (AuthRoutes.verify_token env service.tokens body)
  unfolding AuthRoutes.verify_token
  post_token-Keeps body =
      Keeps-bind (body_field env 1 none body) _ (body_field-Keeps env 1 none body) λ raw.
        Keeps-bind (stripped_token raw) _ (stripped_token-Keeps env raw) λ token.
          Keeps-bind (Auth.verify_token env service.tokens token) _
            (auth-Keeps stable env service.tokens token) λ (user, created). Keeps-pure _

  post_session-Keeps : (body : Body) → Keeps P (SessionRoutes.create_session env service body)
  unfolding SessionRoutes.create_session
  post_session-Keeps body =
      Keeps-bind (body_field env 1 none body) _ (body_field-Keeps env 1 none body) λ raw.
        Keeps-bind (stripped_token raw) _ (stripped_token-Keeps env raw) λ token.
          Keeps-bind (Sessions.create_session env service token) _
            (create_session-Keeps stable env service token) λ d. created-Keeps env d d.session_token

  get_session_route-Keeps : Keeps P (SessionRoutes.get_session env service request)
  unfolding SessionRoutes.get_session
  get_session_route-Keeps = Keeps-bind (get_connection env) _ (get_connection-Keeps env) λ _.
      bearer-Keeps env request _ λ t.
        Keeps-bind (Sessions.get_session env service t) _ (get_session-Keeps env service t)
          λ d. Keeps-pure _

  refresh_session_route-Keeps : Keeps P (SessionRoutes.refresh_session env service request)
  unfolding SessionRoutes.refresh_session
  refresh_session_route-Keeps = Keeps-bind (get_connection env) _ (get_connection-Keeps env) λ _.
      bearer-Keeps env request _ λ t.
        Keeps-bind (Sessions.refresh_session env service t) _
          (refresh_session-Keeps stable env service t) λ d. Keeps-pure _

  delete_session-Keeps : Keeps P (SessionRoutes.delete_session env service request)
  unfolding SessionRoutes.delete_session
  delete_session-Keeps = Keeps-bind (get_connection env) _ (get_connection-Keeps env) λ _.
      bearer-Keeps env request _ λ t.
        Keeps-bind (Sessions.revoke_session env service t) _
          (revoke_session-Keeps stable env service t) λ d. Keeps-pure _

  post_spaces-Keeps : (body : Body) → Keeps P (SpaceRoutes.create_space env service request body)
  unfolding SpaceRoutes.create_space
  post_spaces-Keeps body =
      Keeps-bind (body_field env 1 (some 255) body) _ (body_field-Keeps env 1 (some 255) body)
        λ name. bearer-Keeps env request _ λ t.
          Keeps-bind (Sessions.get_session env service t) _ (get_session-Keeps env service t) λ d.
            Keeps-bind (SpaceRoutes.named name) _ (named-Keeps env name) λ _.
              Keeps-bind (Spaces.create_space env name d.user.id) _
                (spaces-Keeps stable env name d.user.id) λ id. Keeps-pure _

  search_users-Keeps :
      (q : Option Str) (limit : Limit)
      → Keeps P (UserRoutes.search_users env service request q limit)
  unfolding UserRoutes.search_users
  search_users-Keeps q limit = Keeps-bind (get_connection env) _ (get_connection-Keeps env) λ _.
      Keeps-bind (lift (UserRoutes.query_value q)) _ (Keeps-lift _) λ query.
        Keeps-bind (lift (UserRoutes.limit_value limit)) _ (Keeps-lift _) λ count.
          bearer-Keeps env request _ λ t.
            Keeps-bind (Sessions.get_session env service t) _ (get_session-Keeps env service t) λ d.
              Keeps-bind (Users.search_users env query count) _ (users-Keeps env query count)
                λ users. Keeps-pure _

  root-Keeps : Keeps P root
  unfolding root
  root-Keeps = Keeps-pure _

  health_db-Keeps : Keeps P (health_db env)
  unfolding health_db
  health_db-Keeps = Keeps-bind (get_connection env) _ (get_connection-Keeps env) λ _.
      Keeps-bind (run_sql env select_one) _ (Keeps-run_sql env select_one (λ now db h. h))
        λ v. Keeps-pure _

  pub step-Keeps : (call : Call) (w : World) → P w.db → P (step env service request call w).db
  unfolding step
  step-Keeps (post_token body) = (serve-Keeps env request 200 _ (post_token-Keeps body)).at
  step-Keeps (post_session body) = (serve-Keeps env request 200 _ (post_session-Keeps body)).at
  step-Keeps (post_spaces body) = (serve-Keeps env request 201 _ (post_spaces-Keeps body)).at
  step-Keeps get_session = (serve-Keeps env request 200 _ get_session_route-Keeps).at
  step-Keeps refresh_session = (serve-Keeps env request 200 _ refresh_session_route-Keeps).at
  step-Keeps delete_session = (serve-Keeps env request 200 _ delete_session-Keeps).at
  step-Keeps (get_users_search q limit) =
      (serve-Keeps env request 200 _ (search_users-Keeps q limit)).at
  step-Keeps get_root = (serve-Keeps env request 200 _ root-Keeps).at
  step-Keeps get_health = (serve-Keeps env request 200 _ health_db-Keeps).at

-- What every statement keeps, every history keeps.
pub run-Keeps :
    {P : Db → Type 0}
    → IsStable P
    → (env : Env) (service : SessionService) (history : List (Request × Call)) (w : World) → P w.db
    → P (run env service history w).db
unfolding run
run-Keeps stable env service [] w h = h
run-Keeps stable env service ((request, call) ∷ history) w h =
    run-Keeps stable env service history (step env service request call w)
      (step-Keeps stable env service request call w h)
