-- ===== src/Api/Contract/Auth.antt =====
-- Errors of the routes of app/api/v1/routes/auth.py.
use python_typescript_wiki_b.Base.{refl, inl, inr, none}
use python_typescript_wiki_b.Errors.{validation_error, internal_error}
use python_typescript_wiki_b.Outside.{Env}
use python_typescript_wiki_b.App.{World}
use python_typescript_wiki_b.App.Laws.{RaisesOnly-pure, RaisesOnly-bind}
use python_typescript_wiki_b.Token.{TokenService}
use python_typescript_wiki_b.Services.Auth
use python_typescript_wiki_b.Services.Raises.{Unexpected, auth-raises}
use python_typescript_wiki_b.Api.Http.{Request, Body, body_field}
use python_typescript_wiki_b.Api.Responses.{Documents, auth_responses}
use python_typescript_wiki_b.Api.Auth as AuthRoutes
use python_typescript_wiki_b.Api.Auth.{stripped_token}
use python_typescript_wiki_b.Api.Contract.{
  IsDocumented, IsAnswered, serve-IsAnswer, body_field-raises, stripped_token-raises,
}

module _ (env : Env) (service : TokenService) (request : Request) (body : Body) where
  auth_listed : Documents auth_responses 500 internal_error
  auth_listed = inr (inr (inl (refl, inl refl)))

  auth_bad : Documents auth_responses 400 validation_error
  auth_bad = inl (refl, inl refl)

  auth_unexpected : Unexpected (IsDocumented auth_responses)
  auth_unexpected = record {
    database = auth_listed;
    value = auth_listed;
    overflow = auth_listed;
    internal_ = auth_listed;
  }

  -- `POST /token`, whatever the body, the tables and the failures around it, is answered, with 200
  -- or with an error of its table RESPONSES.
  pub token_contract :
      (w : World)
      → IsAnswered auth_responses 200 env request (AuthRoutes.verify_token env service body) w
  unfolding AuthRoutes.verify_token
  token_contract =
      let u = auth_unexpected in
      serve-IsAnswer env auth_responses auth_listed request 200 _ (
        RaisesOnly-bind (body_field env 1 none body) _
          (body_field-raises env u auth_bad 1 none body)
          λ raw.
            RaisesOnly-bind (stripped_token raw) _
              (stripped_token-raises env u auth_bad auth_bad raw)
              λ token.
                RaisesOnly-bind (Auth.verify_token env service token) _
                  (auth-raises u env (inr (inl (refl, inl refl))) service token)
                  λ (user, created). RaisesOnly-pure _)
