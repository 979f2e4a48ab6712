-- ===== src/Interleave/Logout/Final.antt =====
-- The whole task of DELETE /api/v1/session, from the header to the response.
use python_typescript_wiki_b.Base.{ℕ, suc, ◌≡◌, refl, sym, subst, ◌∙◌, false, some, List}
use python_typescript_wiki_b.Text.{Str}
use python_typescript_wiki_b.Errors.{
  Result, ok, raised, app_error, http_exception, request_validation_error, rate_limit_error,
  code_of_status, validation_error, rate_limit_exceeded, internal_error, ErrorCode,
}
use python_typescript_wiki_b.Db.{Db}
use python_typescript_wiki_b.Outside.{Env}
use python_typescript_wiki_b.App.{World}
use python_typescript_wiki_b.Services.Sessions.{SessionService, hash_token, expired}
use python_typescript_wiki_b.Services.Sessions as Sessions
use python_typescript_wiki_b.Services.Sessions.View.{get_session-eq-view}
use python_typescript_wiki_b.Services.Sessions.Lifecycle.{IsRevoked}
use python_typescript_wiki_b.Services.Sessions.Revoked.{IsStable-IsRevoked, view-IsRevoked}
use python_typescript_wiki_b.Services.Keeps.{IsStable}
use python_typescript_wiki_b.Api.Http.{Request, Content, success, failure, Response}
use python_typescript_wiki_b.Api.Bearer.{extract_bearer_token}
use python_typescript_wiki_b.Api.Sessions.{SessionLogoutResponse}
use python_typescript_wiki_b.Api.History.{delete_session}
use python_typescript_wiki_b.Interleave.Prog.{connect, Prog, act, done}
use python_typescript_wiki_b.Interleave.Programs as P
use python_typescript_wiki_b.Interleave.Server as S
use python_typescript_wiki_b.Interleave.Server.{Reply, logout_reply, task, replying}
use python_typescript_wiki_b.Interleave.Schedule.{run_schedule}
use python_typescript_wiki_b.Interleave.Ensures.{task_at, ends_in}
use python_typescript_wiki_b.Interleave.Ensures.Rules.{
  Ensures, OnOk, Anything, IsStable-Anything, Ensures-done, Ensures-quiet, Ensures-bind,
  Ensures-follow, Ensures-fact,
}
use python_typescript_wiki_b.Interleave.Logout.{revoke_session-Ensures}

module _ (hash : Str) where
  -- A success says that the row is revoked; an error says nothing.
  abbrev Said : {A : Type 0} → Content A → Db → Type 0
  Said (success a) db = IsRevoked hash db
  Said (failure e) db = Unit

  abbrev Answered : {A : Type 0} → Response A → Db → Type 0
  Answered response db = Said response.content db

  abbrev Replied : Reply → Db → Type 0
  Replied (logout_reply response) db = Answered response db
  Replied _ db = Unit

  IsStable-Said : {A : Type 0} (c : Content A) → IsStable (Said c)
  IsStable-Said (success a) = IsStable-IsRevoked hash
  IsStable-Said (failure e) = IsStable-Anything

  module _ (env : Env) where
    error_response-Ensures :
        {A : Type 0} (status : ℕ) (code : ErrorCode)
        → Ensures env Anything (S.error_response {A = A} status code) (OnOk Answered)
    error_response-Ensures status code =
        Ensures-bind env (Ensures-quiet env IsStable-Anything (S.error_payload code))
          λ payload. Ensures-done env IsStable-Anything _ (λ db h. tt)

    handle-Ensures :
        {A : Type 0} (status : ℕ) (r : Result A)
        → Ensures env (OnOk (λ a. IsRevoked hash) r) (S.handle status r) (OnOk Answered)
    handle-Ensures status (ok a) = Ensures-done env (IsStable-IsRevoked hash) _ (λ db h. h)
    handle-Ensures status (raised (app_error s c)) = error_response-Ensures s c
    handle-Ensures status (raised (http_exception s)) = error_response-Ensures s (code_of_status s)
    handle-Ensures status (raised request_validation_error) =
        error_response-Ensures 400 validation_error
    handle-Ensures status (raised rate_limit_error) = error_response-Ensures 429 rate_limit_exceeded
    handle-Ensures status (raised e) = Ensures-done env IsStable-Anything _ (λ db h. tt)

    catch_all-Ensures :
        {A : Type 0} (r : Result (Response A))
        → Ensures env (OnOk Answered r) (S.catch_all r) (OnOk Answered)
    catch_all-Ensures (ok response) =
        Ensures-done env (IsStable-Said response.content) _ (λ db h. h)
    catch_all-Ensures (raised e) = error_response-Ensures 500 internal_error

    serve-Ensures :
        {A : Type 0} (request : Request) (status : ℕ) (route : Prog A)
        → Ensures env Anything route (OnOk (λ a. IsRevoked hash))
        → Ensures env Anything (S.serve request status route) (OnOk Answered)
    unfolding S.serve S.trace_id_middleware
    serve-Ensures request status route h =
        Ensures-follow env
          (Ensures-bind env (Ensures-quiet env IsStable-Anything (S.get_or_create_trace_id request))
            λ trace_id.
              Ensures-bind env (Ensures-follow env h (handle-Ensures status))
                λ response. Ensures-done env (IsStable-Said response.content) _ (λ db k. k))
          catch_all-Ensures

    module _ (service : SessionService) (request : Request) (token : Str)
        (extracted : extract_bearer_token request.authorization ≡ ok token)
        (hashed : hash_token env token ≡ ok hash) where
      delete_session-Ensures :
          Ensures env Anything (P.delete_session env service request) (OnOk (λ a. IsRevoked hash))
      unfolding P.delete_session
      delete_session-Ensures =
          Ensures-bind env (Ensures-quiet env IsStable-Anything (act connect)) λ _.
            Ensures-bind env {X = λ t db. (t ≡ token) × Anything db}
              (Ensures-done env IsStable-Anything (extract_bearer_token request.authorization)
                (λ db h. rw extracted (refl, h)))
              λ t. Ensures-fact env (t ≡ token) λ e.
                Ensures-bind env (rw e (revoke_session-Ensures hash env service token hashed))
                  λ _. Ensures-done env (IsStable-IsRevoked hash) _ (λ db h. h)

      task-Ensures : Ensures env Anything (task env service request delete_session) (OnOk Replied)
      unfolding task
      task-Ensures =
          Ensures-bind env
            (serve-Ensures request 200 (P.delete_session env service request)
              delete_session-Ensures)
            λ response. Ensures-done env (IsStable-Said response.content) _ (λ db h. h)

      -- Among any tasks, each at any point of its work, let one be the task of a logout that has just
      -- arrived, with a header that holds the token. Under every schedule, once that task has
      -- answered with success, `get_session` raises SESSION_EXPIRED for the token on the tables as
      -- they are then or at any later turn, while the database answers its two statements.
      pub logout-run_schedule :
          (schedule : List ℕ) (n : ℕ) (tasks : List (Prog Reply)) (w : World)
          → task_at n tasks ≡ some (task env service request delete_session)
          → (response : Response SessionLogoutResponse) (body : SessionLogoutResponse)
          → task_at n (run_schedule env schedule tasks w).0
            ≡ some (done (ok (logout_reply response)))
          → response.content ≡ success body
          → (later : World) → later.db ≡ (run_schedule env schedule tasks w).1.db
          → env.fault later.tick ≡ false
          → env.fault (suc (suc later.tick)) ≡ false
          → (Sessions.get_session env service token later).0 ≡ raised expired
      logout-run_schedule schedule n tasks w arrived response body ended succeeded later same_db f
            g =
          let revoked =
            subst (λ c. Said c (run_schedule env schedule tasks w).1.db) succeeded
              (ends_in env (OnOk Replied) schedule n tasks w arrived (task-Ensures.at w.db tt)
                ended) in
          get_session-eq-view env service token later f g
          ∙ view-IsRevoked hash env token _ later.db hashed
              (subst (IsRevoked hash) (sym same_db) revoked)
