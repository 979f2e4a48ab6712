-- ===== src/Interleave/Alone.antt =====
-- A task that runs without interruption does what its request does.
pub mod Login
use python_typescript_wiki_b.Base.{ℕ, ◌≡◌, refl, ap, ◌∙◌, Option, none, some, [], ◌∷◌}
use python_typescript_wiki_b.Text.{Str, hex_number}
use python_typescript_wiki_b.Errors.{
  ErrorCode, validation_error, rate_limit_exceeded, internal_error, code_of_status, app_error,
  http_exception, request_validation_error, rate_limit_error, Result, ok, raised,
}
use python_typescript_wiki_b.Outside.{Env}
use python_typescript_wiki_b.App
use python_typescript_wiki_b.App.{World, App}
use python_typescript_wiki_b.Services.Sessions.{SessionService}
use python_typescript_wiki_b.Api.Http
use python_typescript_wiki_b.Api.Http.{Request, Response}
use python_typescript_wiki_b.Api.History.{
  Call, post_token, post_session, post_spaces, get_session, refresh_session, delete_session,
  get_users_search, get_root, get_health, step,
}
use python_typescript_wiki_b.Interleave.Prog
use python_typescript_wiki_b.Interleave.Prog.{
  read_clock, draw_uuid, Prog, act, follow, exec, exec-follow, Runs, Runs-act, Runs-pure,
  Runs-raise, Runs-bind,
}
use python_typescript_wiki_b.Interleave.Server as S
use python_typescript_wiki_b.Interleave.Server.{Reply, replying, answering, task, answer}
use python_typescript_wiki_b.Interleave.Exec.Routes.{
  post_token-Runs, post_session-Runs, get_status-Runs, post_refresh-Runs, delete_session-Runs,
  post_spaces-Runs, search_users-Runs, root-Runs, health_db-Runs,
}

module _ {A B : Type 0} (env : Env) where
  Runs-follow :
      {m : Prog A} {m' : App A} {f : Result A → Prog B} {f' : Result A → App B}
      → Runs env m m'
      → ((r : Result A) → Runs env (f r) (f' r))
      → Runs env (follow m f) (λ w. let (r, w') = m' w in f' r w')
  Runs-follow {m} {f = f} h k = record {
    eq = (λ i w. exec-follow env m f w i) ∙ (λ i w. let (r, w') = h.eq i w in (k r).eq i w');
  }

module _ (env : Env) where
  fresh_trace_id-Runs :
      Runs env
        (Prog.◌>>=◌ (act draw_uuid) λ n. Prog.pure (hex_number 32 n))
        (App.observe (λ t. hex_number 32 (env.uuid t)))
  unfolding exec act follow Prog.◌>>=◌ App.observe
  fresh_trace_id-Runs = record { eq = refl }

  get_or_create_trace_id-Runs :
      (o : Option Str)
      → Runs env
          (S.get_or_create_trace_id (record { x_trace_id = o; authorization = none }))
          (Http.get_or_create_trace_id env (record { x_trace_id = o; authorization = none }))
  unfolding S.get_or_create_trace_id Http.get_or_create_trace_id
  get_or_create_trace_id-Runs none = fresh_trace_id-Runs
  get_or_create_trace_id-Runs (some []) = fresh_trace_id-Runs
  get_or_create_trace_id-Runs (some (c ∷ s)) = Runs-pure env (c ∷ s)

  trace_id-Runs :
      (request : Request)
      → Runs env (S.get_or_create_trace_id request) (Http.get_or_create_trace_id env request)
  unfolding S.get_or_create_trace_id Http.get_or_create_trace_id
  trace_id-Runs request = get_or_create_trace_id-Runs request.x_trace_id

  module _ {A : Type 0} where
    error_response-Runs :
        (status : ℕ) (code : ErrorCode)
        → Runs env (S.error_response {A = A} status code) (Http.error_response env status code)
    unfolding S.error_payload Http.error_payload
    error_response-Runs status code =
        Runs-bind env (Runs-bind env (Runs-act env read_clock) λ now. Runs-pure env _)
          λ payload. Runs-pure env _

    handle-Runs :
        (status : ℕ) (r : Result A) → Runs env (S.handle status r) (Http.handle env status r)
    handle-Runs status (ok a) = Runs-pure env _
    handle-Runs status (raised (app_error s c)) = error_response-Runs s c
    handle-Runs status (raised (http_exception s)) = error_response-Runs s (code_of_status s)
    handle-Runs status (raised request_validation_error) = error_response-Runs 400 validation_error
    handle-Runs status (raised rate_limit_error) = error_response-Runs 429 rate_limit_exceeded
    handle-Runs status (raised e) = Runs-raise env e

    catch_all-Runs : (r : Result (Response A)) → Runs env (S.catch_all r) (Http.catch_all env r)
    catch_all-Runs (ok response) = Runs-pure env response
    catch_all-Runs (raised e) = error_response-Runs 500 internal_error

    serve-Runs :
        (request : Request) (status : ℕ) {m : Prog A} {route : App A}
        → Runs env m route
        → Runs env (S.serve request status m) (Http.serve env request status route)
    unfolding S.serve S.trace_id_middleware Http.serve Http.with_handlers Http.trace_id_middleware
        Http.server_errors
    serve-Runs request status h =
        Runs-follow env
          (Runs-bind env (trace_id-Runs request) λ trace_id.
            Runs-bind env (Runs-follow env h (handle-Runs status)) λ response. Runs-pure env _)
          catch_all-Runs

    replying-Runs :
        (reply : Response A → Reply) {m : Prog (Response A)} {action : App (Response A)}
        → Runs env m action
        → Runs env (replying reply m) (answering reply action)
    replying-Runs reply h = Runs-bind env h λ response. Runs-pure env (reply response)

    world-continue :
        (reply : Response A → Reply) (r : Result (Response A)) (w : World)
        → (App.continue r (λ response. App.pure (reply response)) w).1 ≡ w
    unfolding App.pure
    world-continue reply (ok a) w = refl
    world-continue reply (raised e) w = refl

    -- Naming the reply does not touch the world.
    world-answering :
        (reply : Response A → Reply) (action : App (Response A)) (w : World)
        → (answering reply action w).1 ≡ (action w).1
    unfolding App.◌>>=◌
    world-answering reply action w = world-continue reply (action w).0 (action w).1

  module _ (service : SessionService) (request : Request) where
    task-Runs :
        (call : Call) → Runs env (task env service request call) (answer env service request call)
    unfolding task answer
    task-Runs (post_token body) =
        replying-Runs S.token_reply
          (serve-Runs request 200 (post_token-Runs env service request body))
    task-Runs (post_session body) =
        replying-Runs S.login_reply
          (serve-Runs request 200 (post_session-Runs env service request body))
    task-Runs (post_spaces body) =
        replying-Runs S.space_reply
          (serve-Runs request 201 (post_spaces-Runs env service request body))
    task-Runs get_session =
        replying-Runs S.status_reply (serve-Runs request 200 (get_status-Runs env service request))
    task-Runs refresh_session =
        replying-Runs S.status_reply
          (serve-Runs request 200 (post_refresh-Runs env service request))
    task-Runs delete_session =
        replying-Runs S.logout_reply
          (serve-Runs request 200 (delete_session-Runs env service request))
    task-Runs (get_users_search q limit) =
        replying-Runs S.search_reply
          (serve-Runs request 200 (search_users-Runs env service request q limit))
    task-Runs get_root = replying-Runs S.root_reply (serve-Runs request 200 (root-Runs env))
    task-Runs get_health =
        replying-Runs S.health_reply (serve-Runs request 200 (health_db-Runs env))

    world-answer :
        (call : Call) (w : World)
        → (answer env service request call w).1 ≡ step env service request call w
    unfolding answer step
    world-answer (post_token body) w = world-answering S.token_reply _ w
    world-answer (post_session body) w = world-answering S.login_reply _ w
    world-answer (post_spaces body) w = world-answering S.space_reply _ w
    world-answer get_session w = world-answering S.status_reply _ w
    world-answer refresh_session w = world-answering S.status_reply _ w
    world-answer delete_session w = world-answering S.logout_reply _ w
    world-answer (get_users_search q limit) w = world-answering S.search_reply _ w
    world-answer get_root w = world-answering S.root_reply _ w
    world-answer get_health w = world-answering S.health_reply _ w

    -- The task of a request, run from its arrival to its response without interruption, gives the
    -- reply of the request's route, middleware and handlers, and leaves the world as the request
    -- does, for each of the nine routes.
    pub exec-task :
        (call : Call) (w : World)
        → (exec env (task env service request call) w ≡ answer env service request call w)
          × ((exec env (task env service request call) w).1 ≡ step env service request call w)
    exec-task call w =
        let runs = ap (λ (f : App Reply). f w) (task-Runs call).eq in
        (runs, ap (λ x. x.1) runs ∙ world-answer call w)
