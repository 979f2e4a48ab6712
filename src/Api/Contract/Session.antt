-- ===== src/Api/Contract/Session.antt =====
-- Errors of the routes of app/api/v1/routes/session.py.
use python_typescript_wiki_b.Base.{refl, inl, inr, Option, none, some}
use python_typescript_wiki_b.Text.{Str}
use python_typescript_wiki_b.Errors.{
  validation_error, session_missing, session_expired, internal_error,
}
use python_typescript_wiki_b.Outside.{Env}
use python_typescript_wiki_b.App.{World, App, ◌>>=◌, ◌>>◌, internal, lift}
use python_typescript_wiki_b.App.Laws.{
  RaisesOnly, RaisesOnly-pure, RaisesOnly-raise, RaisesOnly-bind,
}
use python_typescript_wiki_b.Services.Sessions
use python_typescript_wiki_b.Services.Sessions.{SessionService}
use python_typescript_wiki_b.Services.Raises.{
  Unexpected, create_session-raises, get_session-raises, refresh_session-raises,
  revoke_session-raises,
}
use python_typescript_wiki_b.Api.Http.{Request, Body, get_connection, body_field}
use python_typescript_wiki_b.Api.Bearer.{extract_bearer_token}
use python_typescript_wiki_b.Api.Responses.{Documents, session_responses}
use python_typescript_wiki_b.Api.Auth.{stripped_token}
use python_typescript_wiki_b.Api.Sessions as SessionRoutes
use python_typescript_wiki_b.Api.Contract.{
  IsDocumented, IsAnswered, serve-IsAnswer, get_connection-raises, body_field-raises,
  stripped_token-raises, bearer-raises,
}

module _ (env : Env) (service : SessionService) (request : Request) where
  session_listed : Documents session_responses 500 internal_error
  session_listed = inr (inr (inl (refl, inl refl)))

  session_bad : Documents session_responses 400 validation_error
  session_bad = inl (refl, inl refl)

  session_unexpected : Unexpected (IsDocumented session_responses)
  session_unexpected = record {
    database = session_listed;
    value = session_listed;
    overflow = session_listed;
    internal_ = session_listed;
  }

  missing_listed : Documents session_responses 401 session_missing
  missing_listed = inr (inl (refl, inl refl))

  expired_listed : Documents session_responses 401 session_expired
  expired_listed = inr (inl (refl, inr (inl refl)))

  created-raises :
      (d : Sessions.SessionData) (o : Option Str)
      → RaisesOnly (IsDocumented session_responses) (SessionRoutes.created d o)
  created-raises d none = RaisesOnly-raise internal session_listed
  created-raises d (some t) = RaisesOnly-pure _

  create_session-raises_listed :
      (body : Body)
      → RaisesOnly (IsDocumented session_responses) (SessionRoutes.create_session env service body)
  unfolding SessionRoutes.create_session
  create_session-raises_listed body =
      RaisesOnly-bind (body_field env 1 none body) _
        (body_field-raises env session_unexpected session_bad 1 none body)
        λ raw.
          RaisesOnly-bind (stripped_token raw) _
            (stripped_token-raises env session_unexpected session_bad session_bad raw)
            λ token.
              RaisesOnly-bind (Sessions.create_session env service token) _
                (create_session-raises session_unexpected env
                  (inr (inl (refl, inr (inr (inl refl))))) service token)
                λ d. created-raises d d.session_token

  with_session :
      {A : Type 0} (f : Str → App A)
      → ((t : Str) → RaisesOnly (IsDocumented session_responses) (f t))
      → RaisesOnly
          (IsDocumented session_responses)
          (do get_connection env; t ← lift (extract_bearer_token request.authorization); f t)
  with_session f h =
      RaisesOnly-bind (get_connection env) _
        (get_connection-raises env session_unexpected session_bad)
        λ _.
          RaisesOnly-bind (lift (extract_bearer_token request.authorization)) _
            (bearer-raises env session_unexpected session_bad session_bad missing_listed
              request.authorization)
            h

  -- The four routes of a session, whatever the request, the tables and the failures around it, are
  -- answered, with 200 or with an error of their table RESPONSES.
  pub session_contract :
      (body : Body) (w : World)
      → IsAnswered session_responses 200 env request
          (SessionRoutes.create_session env service body)
          w
        × IsAnswered session_responses 200 env request
            (SessionRoutes.get_session env service request)
            w
        × IsAnswered session_responses 200 env request
            (SessionRoutes.refresh_session env service request)
            w
        × IsAnswered session_responses 200 env request
            (SessionRoutes.delete_session env service request)
            w
  unfolding SessionRoutes.get_session SessionRoutes.refresh_session SessionRoutes.delete_session
  session_contract body w = (
    serve-IsAnswer env session_responses session_listed request 200 _
        (create_session-raises_listed body) w,
    serve-IsAnswer env session_responses session_listed request 200 _
        (with_session _ λ t.
          RaisesOnly-bind (Sessions.get_session env service t) _
            (get_session-raises session_unexpected env missing_listed expired_listed service t)
            λ d. RaisesOnly-pure _)
        w,
    serve-IsAnswer env session_responses session_listed request 200 _
        (with_session _ λ t.
          RaisesOnly-bind (Sessions.refresh_session env service t) _
            (refresh_session-raises session_unexpected env missing_listed expired_listed service t)
            λ d. RaisesOnly-pure _)
        w,
    serve-IsAnswer env session_responses session_listed request 200 _
        (with_session _ λ t.
          RaisesOnly-bind (Sessions.revoke_session env service t) _
            (revoke_session-raises session_unexpected env missing_listed expired_listed service t)
            λ _. RaisesOnly-pure _)
        w,
  )
