-- ===== src/Interleave/Programs.antt =====
-- The routes of app/api/v1/routes/ and app/main.py and the services below them as programs of atoms.
use python_typescript_wiki_b.Base.{
  ℕ, Bool, true, false, Option, none, some, map, ◌==◌, if◌then◌else◌,
}
use python_typescript_wiki_b.Base.Int.{ℤ}
use python_typescript_wiki_b.Text.{Str, codes, strip, is_empty}
use python_typescript_wiki_b.Errors.{request_validation_error}
use python_typescript_wiki_b.App.{internal, add_seconds}
use python_typescript_wiki_b.Outside.{Env}
use python_typescript_wiki_b.Token.{TokenPayload, TokenService, read_token, check_age}
use python_typescript_wiki_b.Repositories.Users.{UserProfile}
use python_typescript_wiki_b.Repositories.Sessions.{SessionRecord}
use python_typescript_wiki_b.Services.Auth.{fields_of}
use python_typescript_wiki_b.Services.Sessions.{
  SessionData, SessionService, missing, hash_token, judge_record,
}
use python_typescript_wiki_b.Api.Http.{Request, Body, malformed, absent, given, within}
use python_typescript_wiki_b.Api.Bearer.{extract_bearer_token, bad_request}
use python_typescript_wiki_b.Api.Auth.{TokenVerifyResponse, token_user}
use python_typescript_wiki_b.Api.Sessions.{
  SessionCreateResponse, SessionStatusResponse, SessionLogoutResponse, status_of,
}
use python_typescript_wiki_b.Api.Spaces.{SpaceCreateResponse}
use python_typescript_wiki_b.Api.Users.{
  Limit, UserSearchResponse, limit_value, query_value, search_result,
}
use python_typescript_wiki_b.Interleave.Prog.{
  Atom, read_clock, draw_uuid, draw_secret, connect, probe, upsert, find_user, search,
  insert_session, find_session, renew, create_space, Prog, act, follow, ◌>>=◌, ◌>>◌, lift, pure,
  raise, or_raise,
}
use python_typescript_wiki_b.Interleave.Prog

-- The services.
module _ (env : Env) where
  unfoldable pub verify_token : TokenService → Str → Prog TokenPayload
  verify_token service token = do
    payload ← lift (read_token env service token)
    moment ← act read_clock
    lift (check_age env service payload moment)

  unfoldable pub authenticate : TokenService → Str → Prog (UserProfile × Bool)
  authenticate service token = do
    payload ← verify_token service token
    or_raise internal do now ← act read_clock; act (upsert (fields_of payload) now)

  unfoldable pub ensure_active : SessionRecord → Prog (Unit {0})
  ensure_active r = do now ← act read_clock; lift (judge_record r now)

  unfoldable pub expires_at : ℤ → Prog ℕ
  expires_at ttl_seconds = do now ← act read_clock; lift (add_seconds now ttl_seconds)

  abbrev pub found_active : Option SessionRecord → Prog SessionRecord
  found_active none = raise missing
  found_active (some r) = ensure_active r >>= λ _. pure r

  unfoldable pub get_session_record : Str → Prog SessionRecord
  get_session_record session_token = do
    token_hash ← lift (hash_token env session_token)
    found ← act (find_session token_hash)
    found_active found

  abbrev pub found_user : Option UserProfile → Prog UserProfile
  found_user none = raise internal
  found_user (some user) = pure user

  unfoldable pub get_user : SessionRecord → Prog UserProfile
  get_user r = do user ← act (find_user r.user_id); found_user user

  abbrev pub renewed : Option SessionRecord → Prog (Unit {0})
  renewed none = raise missing
  renewed (some _) = pure tt

  module _ (service : SessionService) where
    unfoldable pub create_session : Str → Prog SessionData
    create_session token = do
      (user, _) ← authenticate service.tokens token
      session_token ← act draw_secret
      token_hash ← lift (hash_token env session_token)
      moment ← expires_at service.ttl_seconds
      or_raise internal
          do session_id ← act draw_uuid; act (insert_session session_id user.id token_hash moment)
      pure (record { user = user; expires_at = moment; session_token = some session_token })

    unfoldable pub get_session : Str → Prog SessionData
    get_session session_token = do
      r ← get_session_record session_token
      user ← get_user r
      pure (record { user = user; expires_at = r.expires_at; session_token = none })

    unfoldable pub refresh_session : Str → Prog SessionData
    refresh_session session_token = do
      r ← get_session_record session_token
      moment ← expires_at service.ttl_seconds
      updated ← or_raise internal do
        token_hash ← lift (hash_token env session_token)
        now ← act read_clock
        act (renew token_hash moment now)
      renewed updated
      user ← get_user r
      pure (record { user = user; expires_at = moment; session_token = none })

    unfoldable pub revoke_session : Str → Prog (Unit {0})
    revoke_session session_token = do
      r ← get_session_record session_token
      now ← act read_clock
      or_raise internal do
        token_hash ← lift (hash_token env session_token)
        act (Prog.revoke_session token_hash now)

-- The routes.
abbrev checked : ℕ → Option ℕ → Body → Prog Str
checked lo hi malformed = raise request_validation_error
checked lo hi absent = raise request_validation_error
checked lo hi (given s) = if within lo hi s then pure s else raise request_validation_error

unfoldable pub body_field : ℕ → Option ℕ → Body → Prog Str
body_field lo hi malformed = raise request_validation_error
body_field lo hi body = do act connect; checked lo hi body

unfoldable pub stripped_token : Str → Prog Str
unfolding strip
stripped_token token = if is_empty (strip token) then raise bad_request else pure (strip token)

abbrev pub created : SessionData → Option Str → Prog SessionCreateResponse
created d none = raise internal
created d (some session_token) = pure (record {
  authenticated = true;
  session_token = session_token;
  expires_at = d.expires_at;
  user = token_user d.user;
})

unfoldable pub named : Str → Prog (Unit {0})
unfolding strip
named name = if is_empty (strip name) then raise bad_request else pure tt

unfoldable pub root : Prog Str
root = pure (codes "Hello World")

unfoldable pub health_db : Prog Bool
health_db = do act connect; value ← act probe; pure (value == 1)

module _ (env : Env) (service : SessionService) (request : Request) where
  unfoldable pub post_token : Body → Prog TokenVerifyResponse
  post_token body = do
    raw ← body_field 1 none body
    token ← stripped_token raw
    (user, is_new) ← authenticate env service.tokens token
    pure (record { created = is_new; user = token_user user })

  unfoldable pub post_session : Body → Prog SessionCreateResponse
  post_session body = do
    raw ← body_field 1 none body
    token ← stripped_token raw
    d ← create_session env service token
    created d d.session_token

  unfoldable pub get_status : Prog SessionStatusResponse
  get_status = do
    act connect
    session_token ← lift (extract_bearer_token request.authorization)
    d ← get_session env service session_token
    pure (status_of d)

  unfoldable pub post_refresh : Prog SessionStatusResponse
  post_refresh = do
    act connect
    session_token ← lift (extract_bearer_token request.authorization)
    d ← refresh_session env service session_token
    pure (status_of d)

  unfoldable pub delete_session : Prog SessionLogoutResponse
  delete_session = do
    act connect
    session_token ← lift (extract_bearer_token request.authorization)
    revoke_session env service session_token
    pure (record { authenticated = false })

  unfoldable pub post_spaces : Body → Prog SpaceCreateResponse
  post_spaces body = do
    name ← body_field 1 (some 255) body
    session_token ← lift (extract_bearer_token request.authorization)
    session_data ← get_session env service session_token
    named name
    space_id ← act (create_space name session_data.user.id)
    pure (record { id = space_id })

  unfoldable pub search_users : Option Str → Limit → Prog UserSearchResponse
  search_users q limit = do
    act connect
    query ← lift (query_value q)
    count ← lift (limit_value limit)
    session_token ← lift (extract_bearer_token request.authorization)
    get_session env service session_token
    users ← act (search query count)
    pure (record { users = map search_result users })
