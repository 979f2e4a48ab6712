-- ===== src/Examples/Bounds.antt =====
-- The theorems on bounds at concrete arguments.
use python_typescript_wiki_b.Base.{
  ℕ, suc, ◌≡◌, ◌≤◌, refl, none, some, [], ◌∷◌, all, any, find?, same, length,
}
use python_typescript_wiki_b.Base.Int.{pos, ◌-ℤ◌}
use python_typescript_wiki_b.Text.{
  Str, codes, strip, hex, is_space, lstrip, rstrip, partition, lower,
}
use python_typescript_wiki_b.Errors.{ok}
use python_typescript_wiki_b.Db.{
  User, empty_db, fits_bigint, fits_integer, fits_nullable, fits_varchar,
}
use python_typescript_wiki_b.Json.{get}
use python_typescript_wiki_b.App.{
  World, ◌>>=◌, lift, observe, pure, run_sql, or_raise, add_seconds, transaction,
}
use python_typescript_wiki_b.MockOauth.{dump_request}
use python_typescript_wiki_b.Codec.Base64.{
  b64encode, b64decode, decode_token, char_of, value_of, scan,
}
use python_typescript_wiki_b.Codec.Pkcs7.{pkcs7_unpad}
use python_typescript_wiki_b.Codec.Utf8.{utf8_encode, utf8_decode}
use python_typescript_wiki_b.Token
use python_typescript_wiki_b.Token.{
  read_token, parse_payload, validate_payload, check_age, check_code, decrypt, open_payload,
}
use python_typescript_wiki_b.Repositories.Like.{ilike, matches, items}
use python_typescript_wiki_b.Repositories.Users.{
  profile_of, new_user, fits_users, upsert_row, upsert_statement, upsert_user, select_user,
  get_by_id, username_matches, keep, search_statement, search_by_username,
}
use python_typescript_wiki_b.Repositories.Users.Search.{Member}
use python_typescript_wiki_b.Repositories.Limits.{IsFitting}
use python_typescript_wiki_b.Repositories.Sessions as SessionRepo
use python_typescript_wiki_b.Repositories.Sessions.{
  admits_session, insert_session, new_session, row_to_session, select_session, get_by_token_hash,
}
use python_typescript_wiki_b.Services.Auth
use python_typescript_wiki_b.Services.Auth.{fields_of}
use python_typescript_wiki_b.Services.Sessions
use python_typescript_wiki_b.Services.Sessions.{
  SessionData, create_session, get_session_record, ensure_active, judge_record, get_user,
  expires_at, hash_token,
}
use python_typescript_wiki_b.Services.Users
use python_typescript_wiki_b.Api.Http.{Request, given, get_connection, body_field}
use python_typescript_wiki_b.Api.Bearer.{extract_bearer_token, split_header}
use python_typescript_wiki_b.Api.Users.{
  number, UserSearchResult, UserSearchResponse, limit_value, query_value, search_result,
  search_users,
}
use python_typescript_wiki_b.Repositories.Spaces as SpaceRepo
use python_typescript_wiki_b.Repositories.Spaces.{insert_space, insert_membership}
use python_typescript_wiki_b.Services.Spaces
use python_typescript_wiki_b.Api.Spaces as Routes
use python_typescript_wiki_b.Api.Spaces.{named}
use python_typescript_wiki_b.Api.Spaces.Posted.{IsPosted, create_space-IsPosted}
use python_typescript_wiki_b.Services.Sessions.Held.{IsSessionAt}
use python_typescript_wiki_b.Api.Users.Bounds.{Allows, listed, search_users_bounds}
use python_typescript_wiki_b.Examples.{test_env, test_service}
use python_typescript_wiki_b.Examples.Runs.{logged_in}

abbrev bearer_request : Request
bearer_request = record { x_trace_id = none; authorization = some (codes "Bearer secretD") }

abbrev search_response : UserSearchResponse
search_response = record {
  users = record { telegram_id = pos 42; username = some (codes "ann"); photo_url = none } ∷ [];
}

abbrev searched : World
searched =
    (search_users test_env test_service bearer_request (some (codes "ann")) (number (pos 5))
      logged_in).1

search_runs :
    search_users test_env test_service bearer_request
      (some (codes "ann"))
      (number (pos 5))
      logged_in
    ≡ (ok search_response, searched)
unfolding search_users get_connection query_value limit_value extract_bearer_token split_header
    partition lower Sessions.get_session get_session_record get_by_token_hash select_session
    ensure_active judge_record get_user get_by_id select_user Users.search_users search_by_username
    search_statement username_matches keep ilike matches items search_result create_session ◌>>=◌
    Auth.verify_token Token.verify_token lift read_token decode_token all b64encode same pkcs7_unpad
    utf8_decode parse_payload validate_payload get dump_request observe check_age add_seconds
    or_raise pure run_sql ◌-ℤ◌ any find? b64decode char_of scan value_of utf8_encode fits_bigint
    fits_integer fits_nullable fits_varchar admits_session SessionRepo.create_session insert_session
    new_session row_to_session fits_users new_user profile_of upsert_row upsert_statement
    upsert_user fields_of expires_at hash_token hex strip is_space lstrip rstrip check_code decrypt
    open_payload
search_runs = refl

search_users_bounds_example :
    (token : Str) × (query : Str) × (n : ℕ) × (extract_bearer_token bearer_request.authorization
      ≡ ok token)
    × IsSessionAt test_env token (test_env.clock (suc (suc logged_in.tick))) logged_in.db
    × (some (codes "ann") ≡ some query)
    × (3 ≤ length query)
    × (length query ≤ 64)
    × Allows (number (pos 5)) n
    × (length search_response.users ≤ n)
    × ((u : UserSearchResult)
        → Member u search_response.users
        → (row : User) × Member row logged_in.db.users × (u ≡ listed row))
    × (searched.db ≡ logged_in.db)
search_users_bounds_example =
    search_users_bounds test_env test_service bearer_request (some (codes "ann")) (number (pos 5))
      logged_in searched search_runs

pub empty-IsFitting : IsFitting empty_db
empty-IsFitting = record { users = tt; sessions = tt; spaces = tt; memberships = tt }

abbrev posted : World
posted =
    (Routes.create_space test_env test_service bearer_request (given (codes "notes")) logged_in).1

posted_runs :
    Routes.create_space test_env test_service bearer_request (given (codes "notes")) logged_in
    ≡ (ok (record { id = 112 }), posted)
unfolding Routes.create_space body_field named Spaces.create_space SpaceRepo.create_space
    transaction insert_space insert_membership get_connection extract_bearer_token split_header
    partition lower Sessions.get_session get_session_record get_by_token_hash select_session
    ensure_active judge_record get_user get_by_id select_user create_session ◌>>=◌ Auth.verify_token
    Token.verify_token lift read_token decode_token all b64encode same pkcs7_unpad utf8_decode
    parse_payload validate_payload get dump_request observe check_age add_seconds or_raise pure
    run_sql ◌-ℤ◌ any find? b64decode char_of scan value_of utf8_encode fits_bigint fits_integer
    fits_nullable fits_varchar admits_session SessionRepo.create_session insert_session new_session
    row_to_session fits_users new_user profile_of upsert_row upsert_statement upsert_user fields_of
    expires_at hash_token hex strip is_space lstrip rstrip check_code decrypt open_payload
posted_runs = refl

create_space-IsPosted_example :
    IsPosted test_env bearer_request (given (codes "notes")) logged_in posted.db 112
create_space-IsPosted_example =
    create_space-IsPosted test_env test_service bearer_request (given (codes "notes")) logged_in
      posted posted_runs
