-- ===== src/Api/Contract/Spaces.antt =====
-- Errors of the routes of app/api/v1/routes/spaces.py and users.py.
use python_typescript_wiki_b.Base.{refl, inl, inr, Option, some}
use python_typescript_wiki_b.Text.{Str}
use python_typescript_wiki_b.Errors.{
  validation_error, session_missing, session_expired, internal_error,
}
use python_typescript_wiki_b.Outside.{Env}
use python_typescript_wiki_b.App.{World, lift}
use python_typescript_wiki_b.App.Laws.{RaisesOnly-pure, RaisesOnly-bind}
use python_typescript_wiki_b.Services.Sessions
use python_typescript_wiki_b.Services.Sessions.{SessionService}
use python_typescript_wiki_b.Services.Spaces
use python_typescript_wiki_b.Services.Users
use python_typescript_wiki_b.Services.Raises.{
  Unexpected, get_session-raises, spaces-raises, users-raises,
}
use python_typescript_wiki_b.Api.Http.{Request, Body, get_connection, body_field}
use python_typescript_wiki_b.Api.Bearer.{extract_bearer_token}
use python_typescript_wiki_b.Api.Responses.{Documents, spaces_responses, users_responses}
use python_typescript_wiki_b.Api.Spaces as SpaceRoutes
use python_typescript_wiki_b.Api.Users as UserRoutes
use python_typescript_wiki_b.Api.Users.{Limit, default, not_integer, number}
use python_typescript_wiki_b.Api.Contract.{
  IsDocumented, IsAnswered, serve-IsAnswer, get_connection-raises, body_field-raises, named-raises,
  bearer-raises, query-raises, limit-raises,
}

module _ (env : Env) (service : SessionService) (request : Request) where
  -- The tables of the two other route modules are one.
  spaces_listed : Documents spaces_responses 500 internal_error
  spaces_listed = inr (inr (inl (refl, inl refl)))

  spaces_bad : Documents spaces_responses 400 validation_error
  spaces_bad = inl (refl, inl refl)

  spaces_missing : Documents spaces_responses 401 session_missing
  spaces_missing = inr (inl (refl, inl refl))

  spaces_expired : Documents spaces_responses 401 session_expired
  spaces_expired = inr (inl (refl, inr (inl refl)))

  spaces_unexpected : Unexpected (IsDocumented spaces_responses)
  spaces_unexpected = record {
    database = spaces_listed;
    value = spaces_listed;
    overflow = spaces_listed;
    internal_ = spaces_listed;
  }

  -- `POST /spaces`, whatever the request, the tables and the failures around it, is answered, with
  -- 201 or with an error of its table RESPONSES.
  pub spaces_contract :
      (body : Body) (w : World)
      → IsAnswered spaces_responses 201 env request
          (SpaceRoutes.create_space env service request body)
          w
  unfolding SpaceRoutes.create_space
  spaces_contract body =
      let u = spaces_unexpected in
      let bad = spaces_bad in
      serve-IsAnswer env spaces_responses spaces_listed request 201 _ (
        RaisesOnly-bind (body_field env 1 (some 255) body) _
          (body_field-raises env u bad 1 (some 255) body)
          λ name.
            RaisesOnly-bind (lift (extract_bearer_token request.authorization)) _
              (bearer-raises env u bad bad spaces_missing request.authorization)
              λ t.
                RaisesOnly-bind (Sessions.get_session env service t) _
                  (get_session-raises u env spaces_missing spaces_expired service t)
                  λ d.
                    RaisesOnly-bind (SpaceRoutes.named name) _ (named-raises env u bad bad name)
                      λ _.
                        RaisesOnly-bind (Spaces.create_space env name d.user.id) _
                          (spaces-raises u env name d.user.id) λ id. RaisesOnly-pure _)

  -- `GET /users/search`, whatever the request, the tables and the failures around it, is answered,
  -- with 200 or with an error of its table RESPONSES.
  pub users_contract :
      (q : Option Str) (limit : Limit) (w : World)
      → IsAnswered users_responses 200 env request
          (UserRoutes.search_users env service request q limit)
          w
  unfolding UserRoutes.search_users
  users_contract q limit =
      let u = spaces_unexpected in
      let bad = spaces_bad in
      serve-IsAnswer env users_responses spaces_listed request 200 _ (
        RaisesOnly-bind (get_connection env) _ (get_connection-raises env u bad) λ _.
          RaisesOnly-bind (lift (UserRoutes.query_value q)) _ (query-raises env u bad bad q)
            λ query.
              RaisesOnly-bind (lift (UserRoutes.limit_value limit)) _
                (limit-raises env u bad bad limit)
                λ count.
                  RaisesOnly-bind (lift (extract_bearer_token request.authorization)) _
                    (bearer-raises env u bad bad spaces_missing request.authorization)
                    λ t.
                      RaisesOnly-bind (Sessions.get_session env service t) _
                        (get_session-raises u env spaces_missing spaces_expired service t)
                        λ d.
                          RaisesOnly-bind (Users.search_users env query count) _
                            (users-raises u env query count) λ users. RaisesOnly-pure _)
