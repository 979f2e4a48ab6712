-- ===== src/Interleave/Server.antt =====
-- Handlers and middleware of app/main.py and app/core/errors.py as programs, and a whole request.
use python_typescript_wiki_b.Base.{ℕ, Bool, none, some, [], ◌∷◌}
use python_typescript_wiki_b.Text.{Str, hex_number}
use python_typescript_wiki_b.Errors.{
  ErrorCode, validation_error, rate_limit_exceeded, internal_error, ErrorResponse, code_of_status,
  app_error, http_exception, request_validation_error, rate_limit_error, Result, ok, raised,
}
use python_typescript_wiki_b.Timestamp.{utc_timestamp}
use python_typescript_wiki_b.Outside.{Env}
use python_typescript_wiki_b.Services.Sessions.{SessionService}
use python_typescript_wiki_b.App
use python_typescript_wiki_b.App.{App}
use python_typescript_wiki_b.Api.Http
use python_typescript_wiki_b.Api.Auth as AuthRoutes
use python_typescript_wiki_b.Api.Sessions as SessionRoutes
use python_typescript_wiki_b.Api.Spaces as SpaceRoutes
use python_typescript_wiki_b.Api.Users as UserRoutes
use python_typescript_wiki_b.Api.Health.{root, health_db}
use python_typescript_wiki_b.Api.Http.{Request, success, failure, Response}
use python_typescript_wiki_b.Api.Auth.{TokenVerifyResponse}
use python_typescript_wiki_b.Api.Sessions.{
  SessionCreateResponse, SessionStatusResponse, SessionLogoutResponse,
}
use python_typescript_wiki_b.Api.Spaces.{SpaceCreateResponse}
use python_typescript_wiki_b.Api.Users.{UserSearchResponse}
use python_typescript_wiki_b.Api.History.{
  Call, post_token, post_session, post_spaces, get_session, refresh_session, delete_session,
  get_users_search, get_root, get_health,
}
use python_typescript_wiki_b.Interleave.Prog.{
  read_clock, draw_uuid, Prog, act, follow, ◌>>=◌, pure, raise,
}
use python_typescript_wiki_b.Interleave.Programs as P

unfoldable pub get_or_create_trace_id : Request → Prog Str
get_or_create_trace_id request = elim request.x_trace_id [
  | none ↦ (do n ← act draw_uuid; pure (hex_number 32 n))
  | some [] ↦ (do n ← act draw_uuid; pure (hex_number 32 n))
  | some (c ∷ s) ↦ pure (c ∷ s)
]

unfoldable pub error_payload : ErrorCode → Prog ErrorResponse
error_payload code = do
  now ← act read_clock
  pure (record { message = code; timestamp = utc_timestamp now })

module _ {A : Type 0} where
  abbrev pub error_response : ℕ → ErrorCode → Prog (Response A)
  error_response status code = do
    payload ← error_payload code
    pure (record { status = status; content = failure payload; trace_id = none })

  abbrev pub handle : ℕ → Result A → Prog (Response A)
  handle status (ok a) = pure (record { status = status; content = success a; trace_id = none })
  handle status (raised (app_error code message)) = error_response code message
  handle status (raised (http_exception code)) = error_response code (code_of_status code)
  handle status (raised request_validation_error) = error_response 400 validation_error
  handle status (raised rate_limit_error) = error_response 429 rate_limit_exceeded
  handle status (raised e) = raise e

  unfoldable pub trace_id_middleware : Request → Prog (Response A) → Prog (Response A)
  trace_id_middleware request call_next = do
    trace_id ← get_or_create_trace_id request
    response ← call_next
    pure (record response { trace_id = some trace_id })

  abbrev pub catch_all : Result (Response A) → Prog (Response A)
  catch_all (ok response) = pure response
  catch_all (raised e) = error_response 500 internal_error

  unfoldable pub serve : Request → ℕ → Prog A → Prog (Response A)
  unfolding trace_id_middleware follow code_of_status
  serve request status route =
      follow (trace_id_middleware request (follow route (handle status))) catch_all

-- The response of a request, by its route.
pub data Reply : Type 0 where
  token_reply : Response TokenVerifyResponse → Reply
  login_reply : Response SessionCreateResponse → Reply
  status_reply : Response SessionStatusResponse → Reply
  logout_reply : Response SessionLogoutResponse → Reply
  space_reply : Response SpaceCreateResponse → Reply
  search_reply : Response UserSearchResponse → Reply
  root_reply : Response Str → Reply
  health_reply : Response Bool → Reply

abbrev pub replying : {A : Type 0} → (Response A → Reply) → Prog (Response A) → Prog Reply
replying reply m = m >>= λ response. pure (reply response)

-- The task of one request, from its arrival to its response.
unfoldable pub task : Env → SessionService → Request → Call → Prog Reply
unfolding serve
task env service request (post_token body) =
    replying token_reply (serve request 200 (P.post_token env service request body))
task env service request (post_session body) =
    replying login_reply (serve request 200 (P.post_session env service request body))
task env service request (post_spaces body) =
    replying space_reply (serve request 201 (P.post_spaces env service request body))
task env service request get_session =
    replying status_reply (serve request 200 (P.get_status env service request))
task env service request refresh_session =
    replying status_reply (serve request 200 (P.post_refresh env service request))
task env service request delete_session =
    replying logout_reply (serve request 200 (P.delete_session env service request))
task env service request (get_users_search q limit) =
    replying search_reply (serve request 200 (P.search_users env service request q limit))
task env service request get_root = replying root_reply (serve request 200 P.root)
task env service request get_health = replying health_reply (serve request 200 P.health_db)

-- The same replies, of requests that run without interruption.
abbrev pub answering : {A : Type 0} → (Response A → Reply) → App (Response A) → App Reply
answering reply action = App.◌>>=◌ action λ response. App.pure (reply response)

unfoldable pub answer : Env → SessionService → Request → Call → App Reply
answer env service request (post_token body) =
    answering token_reply
      (Http.serve env request 200 (AuthRoutes.verify_token env service.tokens body))
answer env service request (post_session body) =
    answering login_reply
      (Http.serve env request 200 (SessionRoutes.create_session env service body))
answer env service request (post_spaces body) =
    answering space_reply
      (Http.serve env request 201 (SpaceRoutes.create_space env service request body))
answer env service request get_session =
    answering status_reply
      (Http.serve env request 200 (SessionRoutes.get_session env service request))
answer env service request refresh_session =
    answering status_reply
      (Http.serve env request 200 (SessionRoutes.refresh_session env service request))
answer env service request delete_session =
    answering logout_reply
      (Http.serve env request 200 (SessionRoutes.delete_session env service request))
answer env service request (get_users_search q limit) =
    answering search_reply
      (Http.serve env request 200 (UserRoutes.search_users env service request q limit))
answer env service request get_root = answering root_reply (Http.serve env request 200 root)
answer env service request get_health =
    answering health_reply (Http.serve env request 200 (health_db env))
