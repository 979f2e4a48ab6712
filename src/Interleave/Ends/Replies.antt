-- ===== src/Interleave/Ends/Replies.antt =====
-- Every task of app/main.py ends with a response, within eleven turns of its own.
use python_typescript_wiki_b.Base.{ℕ, ◌≤◌, ◌≡◌, Option, none, some, List, [], ◌∷◌}
use python_typescript_wiki_b.Text.{Str}
use python_typescript_wiki_b.Errors.{
  Result, ok, raised, app_error, http_exception, request_validation_error, rate_limit_error,
  ErrorCode,
}
use python_typescript_wiki_b.Outside.{Env}
use python_typescript_wiki_b.App.{World, observe}
use python_typescript_wiki_b.Services.Sessions.{SessionService}
use python_typescript_wiki_b.Api.Http.{Request, Response}
use python_typescript_wiki_b.Api.History.{
  Call, post_token, post_session, post_spaces, get_session, refresh_session, delete_session,
  get_users_search, get_root, get_health,
}
use python_typescript_wiki_b.Interleave.Prog.{
  read_clock, draw_uuid, Prog, done, act, follow, ◌>>=◌, on_value,
}
use python_typescript_wiki_b.Interleave.Server as S
use python_typescript_wiki_b.Interleave.Server.{Reply, task, replying}
use python_typescript_wiki_b.Interleave.Schedule.{run_schedule}
use python_typescript_wiki_b.Interleave.Ensures.{task_at}
use python_typescript_wiki_b.Interleave.Ends.{turns_of, run_schedule-Ends}
use python_typescript_wiki_b.Interleave.Ends.Rules.{
  Ended, Returned, Takes, Takes-more, Takes-done, Takes-act, Takes-follow, Takes-bind,
}
use python_typescript_wiki_b.Interleave.Ends.Answers.{ends_at_once}
use python_typescript_wiki_b.Interleave.Ends.Routes.{
  post_token-Takes, post_session-Takes, get_status-Takes, post_refresh-Takes, delete_session-Takes,
  post_spaces-Takes, search_users-Takes, root-Takes, health_db-Takes,
}

abbrev no_headers : Request
no_headers = record { x_trace_id = none; authorization = none }

module _ (env : Env) where
  fresh_trace_id-Takes : Takes env Ended 1 (S.get_or_create_trace_id no_headers)
  unfolding S.get_or_create_trace_id
  fresh_trace_id-Takes = Takes-bind env (Takes-act env draw_uuid) λ n. ends_at_once env _

  given_trace_id-Takes :
      (o : Option Str)
      → Takes env Ended 1
          (S.get_or_create_trace_id (record { x_trace_id = o; authorization = none }))
  unfolding S.get_or_create_trace_id
  given_trace_id-Takes none = fresh_trace_id-Takes
  given_trace_id-Takes (some []) = fresh_trace_id-Takes
  given_trace_id-Takes (some (c ∷ s)) = Takes-more env 1 (ends_at_once env _)

  get_or_create_trace_id-Takes :
      (request : Request) → Takes env Ended 1 (S.get_or_create_trace_id request)
  unfolding S.get_or_create_trace_id
  get_or_create_trace_id-Takes request = given_trace_id-Takes request.x_trace_id

  module _ {A : Type 0} where
    error_response-Takes :
        (status : ℕ) (code : ErrorCode) → Takes env Ended 1 (S.error_response {A = A} status code)
    unfolding S.error_payload
    error_response-Takes status code =
        Takes-bind env (Takes-bind env (Takes-act env read_clock) λ now. ends_at_once env _)
          λ payload. ends_at_once env _

    handle-Takes : (status : ℕ) (r : Result A) → Takes env Ended 1 (S.handle status r)
    handle-Takes status (ok a) = Takes-more env 1 (ends_at_once env _)
    handle-Takes status (raised (app_error code message)) = error_response-Takes _ _
    handle-Takes status (raised (http_exception code)) = error_response-Takes _ _
    handle-Takes status (raised request_validation_error) = error_response-Takes _ _
    handle-Takes status (raised rate_limit_error) = error_response-Takes _ _
    handle-Takes status (raised e) = Takes-more env 1 (ends_at_once env _)

    -- The last handler never raises: reading the clock does not fail.
    catch_all-Takes : (r : Result (Response A)) → Takes env Returned 1 (S.catch_all r)
    unfolding S.error_payload act follow ◌>>=◌ observe
    catch_all-Takes (ok response) = Takes-more env 1 (Takes-done env _ tt)
    catch_all-Takes (raised e) = record { ends = λ w. tt }

    serve-Takes :
        (request : Request) (status : ℕ) (route : Prog A)
        → Takes env Ended 8 route
        → Takes env Returned 11 (S.serve request status route)
    unfolding S.serve S.trace_id_middleware
    serve-Takes request status route h =
        Takes-follow env
          (Takes-bind env (get_or_create_trace_id-Takes request) λ trace_id.
            Takes-bind env (Takes-follow env h λ r _. handle-Takes status r)
              λ response. ends_at_once env _)
          λ r _. catch_all-Takes r

    replied-Takes :
        (reply : Response A → Reply) (r : Result (Response A))
        → Returned r
        → Takes env Returned 0 (on_value (λ response. done (ok (reply response))) r)
    replied-Takes reply (ok response) h = Takes-done env _ tt
    replied-Takes reply (raised e) h = absurd h

    replying-Takes :
        (reply : Response A → Reply) (request : Request) (status : ℕ) (route : Prog A)
        → Takes env Ended 8 route
        → Takes env Returned 11 (replying reply (S.serve request status route))
    unfolding ◌>>=◌
    replying-Takes reply request status route h =
        Takes-follow env (serve-Takes request status route h) (replied-Takes reply)

  module _ (service : SessionService) (request : Request) where
    task-Takes : (call : Call) → Takes env Returned 11 (task env service request call)
    unfolding task
    task-Takes (post_token body) =
        replying-Takes _ _ _ _ (post_token-Takes env service request body)
    task-Takes (post_session body) =
        replying-Takes _ _ _ _ (post_session-Takes env service request body)
    task-Takes (post_spaces body) =
        replying-Takes _ _ _ _ (post_spaces-Takes env service request body)
    task-Takes get_session = replying-Takes _ _ _ _ (get_status-Takes env service request)
    task-Takes refresh_session = replying-Takes _ _ _ _ (post_refresh-Takes env service request)
    task-Takes delete_session = replying-Takes _ _ _ _ (delete_session-Takes env service request)
    task-Takes (get_users_search q limit) =
        replying-Takes _ _ _ _ (search_users-Takes env service request q limit)
    task-Takes get_root = replying-Takes _ _ _ _ (root-Takes env)
    task-Takes get_health = replying-Takes _ _ _ _ (health_db-Takes env)

value_of_outcome :
    {A : Type 0} (o : Option (Prog A)) (r : Result A)
    → o ≡ some (done r)
    → Returned r
    → (a : A) × (o ≡ some (done (ok a)))
value_of_outcome o (ok a) e h = (a, e)
value_of_outcome o (raised x) e h = absurd h

-- Whatever other tasks there are and whatever they do in between, a request answered by a task that
-- gets at least eleven turns of a schedule has its response by the schedule's end: its task has
-- ended, and not with an exception.
pub task-run_schedule :
    (env : Env) (service : SessionService) (request : Request) (call : Call)
    (tasks : List (Prog Reply)) (n : ℕ) (schedule : List ℕ) (w : World)
    → task_at n tasks ≡ some (task env service request call)
    → 11 ≤ turns_of n schedule
    → (reply : Reply) × (task_at n (run_schedule env schedule tasks w).0 ≡ some (done (ok reply)))
task-run_schedule env service request call tasks n schedule w e le =
    let (r, q, holds) =
      run_schedule-Ends env Returned schedule n 11 tasks w (task env service request call) e
        (task-Takes env service request call).ends le in
    value_of_outcome _ r q holds
