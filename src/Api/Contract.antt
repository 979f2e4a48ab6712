-- ===== src/Api/Contract.antt =====
-- When every error that a route answers with is in its table RESPONSES.
pub mod Auth
pub mod Session
pub mod Spaces
use python_typescript_wiki_b.Base.{
  ℕ, ◌≡◌, refl, ap, inl, inr, Bool, true, false, Option, none, some, [], ◌∷◌, arith, if◌then◌else◌,
}
use python_typescript_wiki_b.Text.{Str, strip}
use python_typescript_wiki_b.Errors.{
  ErrorCode, validation_error, session_missing, session_expired, rate_limit_exceeded,
  internal_error, Exc, app_error, http_exception, request_validation_error, rate_limit_error,
  Result, ok, raised, ErrorResponse, code_of_status,
}
use python_typescript_wiki_b.Outside.{Env}
use python_typescript_wiki_b.App.{
  World, App, ◌>>=◌, ◌>>◌, internal, pure, raise, lift, observe, run_sql, nothing,
}
use python_typescript_wiki_b.App.Laws.{
  Permits, RaisesOnly, RaisesOnly-pure, RaisesOnly-raise, RaisesOnly-lift, RaisesOnly-bind,
  RaisesOnly-run_sql, RaisesOnly-if,
}
use python_typescript_wiki_b.Token.{TokenService}
use python_typescript_wiki_b.Services.Sessions.{SessionService}
use python_typescript_wiki_b.Services.Raises.{
  Unexpected, auth-raises, create_session-raises, get_session-raises, refresh_session-raises,
  revoke_session-raises, spaces-raises, users-raises,
}
use python_typescript_wiki_b.Api.Http.{
  Request, Body, malformed, absent, given, Content, success, failure, Response, get_connection,
  within, body_field, serve,
}
use python_typescript_wiki_b.Api.Http.Pipeline.{trace_of, conclude, serve_lem}
use python_typescript_wiki_b.Api.Bearer.{extract_bearer_token, no_session, bad_request}
use python_typescript_wiki_b.Api.Responses.{
  Responses, Documents, auth_responses, session_responses, spaces_responses, users_responses,
}
use python_typescript_wiki_b.Api.Auth as AuthRoutes
use python_typescript_wiki_b.Api.Auth.{stripped_token}
use python_typescript_wiki_b.Api.Sessions as SessionRoutes
use python_typescript_wiki_b.Api.Spaces as SpaceRoutes
use python_typescript_wiki_b.Api.Users as UserRoutes
use python_typescript_wiki_b.Api.Users.{Limit, default, not_integer, number}
use python_typescript_wiki_b.Base.Int.{pos, negsuc}

-- The answer that the handlers give to an exception is in the table.
abbrev pub IsDocumented : Responses → Exc → Type 0
IsDocumented table (app_error status code) = Documents table status code
IsDocumented table (http_exception status) = Documents table status (code_of_status status)
IsDocumented table request_validation_error = Documents table 400 validation_error
IsDocumented table rate_limit_error = Documents table 429 rate_limit_exceeded
IsDocumented table e = Documents table 500 internal_error

-- A response of success with the route's own status, or an error of the table.
abbrev pub IsAnswer : {A : Type 0} → Responses → ℕ → ℕ → Content A → Type 0
IsAnswer table expected status (success a) = status ≡ expected
IsAnswer table expected status (failure e) = Documents table status e.message

abbrev Answers : {A : Type 0} → Responses → ℕ → Result (Response A) → Type 0
Answers table expected (ok r) = IsAnswer table expected r.status r.content
Answers table expected (raised e) = ⊥

module _ {A : Type 0} (env : Env) (table : Responses)
    (listed : Documents table 500 internal_error) where
  conclude-IsAnswer :
      (status : ℕ) (t : Str) (r : Result A) (w : World)
      → Permits (IsDocumented table) r
      → IsAnswer table status
          (conclude env status t r w).0.status
          (conclude env status t r w).0.content
  conclude-IsAnswer status t (ok a) w h = refl
  conclude-IsAnswer status t (raised (app_error s c)) w h = h
  conclude-IsAnswer status t (raised (http_exception s)) w h = h
  conclude-IsAnswer status t (raised request_validation_error) w h = h
  conclude-IsAnswer status t (raised rate_limit_error) w h = h
  conclude-IsAnswer status t (raised e) w h = listed

  pub serve-IsAnswer :
      (request : Request) (status : ℕ) (route : App A)
      → RaisesOnly (IsDocumented table) route
      → (w : World)
      → (response : Response A) × ((serve env request status route w).0 ≡ ok response)
        × IsAnswer table status response.status response.content
  serve-IsAnswer request status route h w =
      let (t, start) = trace_of env request w in
      let (r, end) = route start in
      (
        (conclude env status t r end).0,
        ap (λ x. x.0) (serve_lem env request status route w),
        conclude-IsAnswer status t r end (h.at start),
      )

-- The parts of a route that come before its service.
module _ {E : Exc → Type 0} (env : Env) (u : Unexpected E)
    (invalid : E request_validation_error) where
  pub get_connection-raises : RaisesOnly E (get_connection env)
  unfolding get_connection
  get_connection-raises = RaisesOnly-run_sql env nothing u.database (λ now db. tt)

  pub body_field-raises :
      (lo : ℕ) (hi : Option ℕ) (body : Body) → RaisesOnly E (body_field env lo hi body)
  unfolding body_field
  body_field-raises lo hi malformed = RaisesOnly-raise request_validation_error invalid
  body_field-raises lo hi absent =
      RaisesOnly-bind (get_connection env) _ get_connection-raises
        λ _. RaisesOnly-raise request_validation_error invalid
  body_field-raises lo hi (given s) =
      RaisesOnly-bind (get_connection env) _ get_connection-raises λ _.
        RaisesOnly-if (within lo hi s) _ _ (RaisesOnly-pure s)
          (RaisesOnly-raise request_validation_error invalid)

  module _ (bad : E bad_request) where
    pub stripped_token-raises : (s : Str) → RaisesOnly E (stripped_token s)
    unfolding stripped_token
    stripped_token-raises s =
        RaisesOnly-if _ _ _ (RaisesOnly-raise bad_request bad) (RaisesOnly-pure _)

    pub named-raises : (s : Str) → RaisesOnly E (SpaceRoutes.named s)
    unfolding SpaceRoutes.named
    named-raises s = RaisesOnly-if _ _ _ (RaisesOnly-raise bad_request bad) (RaisesOnly-pure tt)

    pub bearer-raises :
        E no_session → (o : Option Str) → RaisesOnly E (lift (extract_bearer_token o))
    unfolding extract_bearer_token
    bearer-raises n none = RaisesOnly-lift _ n
    bearer-raises n (some h) = RaisesOnly-lift _ (ground (arith, bad, n))

    pub query-raises : (o : Option Str) → RaisesOnly E (lift (UserRoutes.query_value o))
    unfolding UserRoutes.query_value
    query-raises none = RaisesOnly-lift _ invalid
    query-raises (some q) = RaisesOnly-lift _ (ground (arith, invalid))

    pub limit-raises : (l : Limit) → RaisesOnly E (lift (UserRoutes.limit_value l))
    unfolding UserRoutes.limit_value
    limit-raises default = RaisesOnly-lift _ tt
    limit-raises not_integer = RaisesOnly-lift _ invalid
    limit-raises (number (pos n)) = RaisesOnly-lift _ (ground (arith, invalid))
    limit-raises (number (negsuc n)) = RaisesOnly-lift _ invalid

-- The request is answered, with success or with an error of the table.
abbrev pub IsAnswered : {A : Type 0} → Responses → ℕ → Env → Request → App A → World → Type 0
IsAnswered {A} table status env request route w =
    (response : Response A) × ((serve env request status route w).0 ≡ ok response)
    × IsAnswer table status response.status response.content
