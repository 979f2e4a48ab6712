-- ===== src/Examples/Requests.antt =====
-- The theorems on requests at concrete arguments.
use python_typescript_wiki_b.Base.{
  ℕ, ◌≡◌, ◌⊎◌, ◌↔◌, refl, true, false, none, some, List, [], ◌∷◌, ◌-◌, ◌%◌, arith,
}
use python_typescript_wiki_b.Base.Int.{pos}
use python_typescript_wiki_b.Text.{Str, codes, strip, is_empty}
use python_typescript_wiki_b.Timestamp.{utc_timestamp}
use python_typescript_wiki_b.Timestamp.RoundTrip.{read_timestamp-utc_timestamp, read_timestamp}
use python_typescript_wiki_b.Errors.{Exc, ok, raised}
use python_typescript_wiki_b.Api.Bearer.{extract_bearer_token, no_session, bad_request}
use python_typescript_wiki_b.Api.Bearer.Grammar.{IsBearer, extract_bearer_token_lem}
use python_typescript_wiki_b.Repositories.WellFormed.{IsWellFormed, IsWellFormed-empty}
use python_typescript_wiki_b.Services.Sessions.{expired, get_session}
use python_typescript_wiki_b.Api.Http.{Request, given, serve}
use python_typescript_wiki_b.Api.Http.Pipeline.{trace_of, conclude, serve_lem}
use python_typescript_wiki_b.Api.Responses.{
  auth_responses, session_responses, spaces_responses, users_responses,
}
use python_typescript_wiki_b.Api.Contract.{IsAnswered}
use python_typescript_wiki_b.Api.Contract.Auth.{token_contract}
use python_typescript_wiki_b.Api.Contract.Session.{session_contract}
use python_typescript_wiki_b.Api.Contract.Spaces.{spaces_contract, users_contract}
use python_typescript_wiki_b.Api.Auth as AuthRoutes
use python_typescript_wiki_b.Api.Sessions as SessionRoutes
use python_typescript_wiki_b.Api.Spaces as SpaceRoutes
use python_typescript_wiki_b.Api.Users as UserRoutes
use python_typescript_wiki_b.Api.Users.{number}
use python_typescript_wiki_b.Api.History.{Call, post_session, post_spaces, refresh_session, run}
use python_typescript_wiki_b.Api.History.Invariants.{run-IsWellFormed, revoke_session-run}
use python_typescript_wiki_b.Examples.{test_env, test_tokens, test_service, first_world}
use python_typescript_wiki_b.Examples.Runs.{test_token, logged_in, logged_out, logout_runs}

abbrev session_token : Str
session_token = codes "secretD"

-- A request with the session's token, and one without.
abbrev bearer_request : Request
bearer_request = record { x_trace_id = none; authorization = some (codes "Bearer secretD") }

abbrev bare_request : Request
bare_request = record { x_trace_id = some (codes "trace"); authorization = none }

abbrev test_history : List (Request × Call)
test_history =
    (bearer_request, refresh_session)
    ∷ (bare_request, post_session (given test_token))
    ∷ (bearer_request, post_spaces (given (codes "notes")))
    ∷ []

revoke_session-run_example :
    (get_session test_env test_service session_token
      (record { db = (run test_env test_service test_history logged_out).db; tick = 50 })).0
    ≡ raised expired
revoke_session-run_example =
    revoke_session-run test_env test_service session_token logged_in logged_out logout_runs
      test_history
      (record { db = (run test_env test_service test_history logged_out).db; tick = 50 }) refl refl
      refl

run-IsWellFormed_example : IsWellFormed (run test_env test_service test_history first_world).db
run-IsWellFormed_example =
    run-IsWellFormed test_env test_service test_history first_world IsWellFormed-empty

token_contract_example :
    IsAnswered auth_responses 200 test_env bare_request
      (AuthRoutes.verify_token test_env test_tokens (given test_token))
      first_world
token_contract_example =
    token_contract test_env test_tokens bare_request (given test_token) first_world

session_contract_example :
    IsAnswered session_responses 200 test_env bearer_request
      (SessionRoutes.create_session test_env test_service (given test_token))
      logged_in
    × IsAnswered session_responses 200 test_env bearer_request
        (SessionRoutes.get_session test_env test_service bearer_request)
        logged_in
    × IsAnswered session_responses 200 test_env bearer_request
        (SessionRoutes.refresh_session test_env test_service bearer_request)
        logged_in
    × IsAnswered session_responses 200 test_env bearer_request
        (SessionRoutes.delete_session test_env test_service bearer_request)
        logged_in
session_contract_example =
    session_contract test_env test_service bearer_request (given test_token) logged_in

spaces_contract_example :
    IsAnswered spaces_responses 201 test_env bearer_request
      (SpaceRoutes.create_space test_env test_service bearer_request (given (codes "notes")))
      logged_in
spaces_contract_example =
    spaces_contract test_env test_service bearer_request (given (codes "notes")) logged_in

users_contract_example :
    IsAnswered users_responses 200 test_env bearer_request
      (UserRoutes.search_users test_env test_service bearer_request
        (some (codes "ann"))
        (number (pos 5)))
      logged_in
users_contract_example =
    users_contract test_env test_service bearer_request (some (codes "ann")) (number (pos 5))
      logged_in

serve_example :
    serve test_env bare_request 200
      (SessionRoutes.get_session test_env test_service bare_request)
      first_world
    ≡ (let (t, start) = trace_of test_env bare_request first_world in
        let (r, end) = SessionRoutes.get_session test_env test_service bare_request start in
        let (response, last) = conclude test_env 200 t r end in (ok response, last))
serve_example =
    serve_lem test_env bare_request 200
      (SessionRoutes.get_session test_env test_service bare_request) first_world

extract_bearer_token_example :
    ((extract_bearer_token (some (codes "bEaReR  x ")) ≡ ok (codes "x"))
      ↔ IsBearer (codes "bEaReR  x ") (codes "x"))
    × (extract_bearer_token none ≡ raised no_session)
    × ((e : Exc)
        → extract_bearer_token (some (codes "bEaReR  x ")) ≡ raised e
        → ((is_empty (strip (codes "bEaReR  x ")) ≡ true) × (e ≡ no_session))
          ⊎ ((is_empty (strip (codes "bEaReR  x ")) ≡ false) × (e ≡ bad_request)))
extract_bearer_token_example = extract_bearer_token_lem (codes "bEaReR  x ") (codes "x")

-- A leap day: 2024-02-29T12:34:56.000789, in microseconds.
abbrev leap_day : ℕ
leap_day = 63844806896000789

timestamp_runs : utc_timestamp leap_day ≡ codes "2024-02-29T12:34:56Z"
unfolding utc_timestamp
timestamp_runs = refl

read_timestamp-utc_timestamp_example :
    read_timestamp (utc_timestamp leap_day) ≡ some (leap_day - leap_day % 1000000)
read_timestamp-utc_timestamp_example = read_timestamp-utc_timestamp leap_day (omega arith)
