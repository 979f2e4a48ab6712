-- ===== src/Examples/Runs.antt =====
-- Runs of the services on the tables of the tests.
use python_typescript_wiki_b.Base.{
  ◌≡◌, refl, none, some, ◌++◌, replicate, all, any, find?, same, true,
}
use python_typescript_wiki_b.Base.Int.{pos, ◌-ℤ◌}
use python_typescript_wiki_b.Text.{Str, codes, strip, hex, is_space, lstrip, rstrip}
use python_typescript_wiki_b.Errors.{Result, ok, raised}
use python_typescript_wiki_b.MockOauth.Issue.{payload_of}
use python_typescript_wiki_b.Db.{
  Db, empty_db, fits_bigint, fits_integer, fits_nullable, fits_varchar,
}
use python_typescript_wiki_b.Json.{get}
use python_typescript_wiki_b.App.{
  World, ◌>>=◌, lift, observe, pure, run_sql, or_raise, add_seconds, after,
}
use python_typescript_wiki_b.MockOauth.{dump_request}
use python_typescript_wiki_b.Codec.Base64.{
  b64encode, b64decode, decode_token, char_of, value_of, scan,
}
use python_typescript_wiki_b.Codec.Pkcs7.{pkcs7_unpad, oauth_invalid}
use python_typescript_wiki_b.Codec.Utf8.{utf8_encode, utf8_decode}
use python_typescript_wiki_b.Token
use python_typescript_wiki_b.Token.{
  TokenPayload, make_token_service, read_token, parse_payload, validate_payload, check_age,
  check_code, decrypt, open_payload,
}
use python_typescript_wiki_b.Repositories.Users.{
  UserProfile, profile_of, new_user, fits_users, upsert_row, upsert_statement, upsert_user,
  select_user, get_by_id,
}
use python_typescript_wiki_b.Repositories.Sessions as SessionRepo
use python_typescript_wiki_b.Repositories.Sessions.{
  admits_session, insert_session, new_session, row_to_session, select_session, get_by_token_hash,
  update_where, revoke_statement, update_expiry_statement,
}
use python_typescript_wiki_b.Services.Auth
use python_typescript_wiki_b.Services.Auth.{fields_of}
use python_typescript_wiki_b.Services.Sessions.{
  SessionData, create_session, revoke_session, refresh_session, get_session_record, ensure_active,
  judge_record, get_user, expires_at, hash_token,
}
use python_typescript_wiki_b.Examples.{
  test_request, test_env, test_tokens, test_service, first_world,
}

abbrev pub test_raw : Str
test_raw = replicate 16 7 ++ (replicate 32 7 ++ (codes "{payload}" ++ replicate 7 7))

abbrev pub test_token : Str
test_token = b64encode test_raw

abbrev pub login : Result SessionData × World
login = create_session test_env test_service test_token first_world

abbrev pub login_data : SessionData
login_data = record {
  user = record {
    id = 1;
    telegram_id = pos 42;
    username = some (codes "ann");
    first_name = none;
    last_name = none;
    photo_url = none;
    permission = some (codes "rw");
    created_at = 63835596801000000;
    last_login_at = 63835596801000000;
  };
  expires_at = 63835600404000000;
  session_token = some (codes "secretD");
}

pub login_runs : login ≡ (ok login_data, login.1)
unfolding create_session ◌>>=◌ Auth.verify_token Token.verify_token lift read_token decode_token all
    b64encode same pkcs7_unpad utf8_decode parse_payload validate_payload get dump_request observe
    check_age add_seconds or_raise pure run_sql ◌-ℤ◌ any find? b64decode char_of scan value_of
    utf8_encode fits_bigint fits_integer fits_nullable fits_varchar admits_session
    SessionRepo.create_session insert_session new_session row_to_session fits_users new_user
    profile_of upsert_row upsert_statement upsert_user fields_of expires_at hash_token hex strip
    is_space lstrip rstrip check_code decrypt open_payload
login_runs = refl

abbrev pub logged_in : World
logged_in = login.1

pub logout_runs :
    revoke_session test_env test_service (codes "secretD") logged_in
    ≡ (ok tt, (revoke_session test_env test_service (codes "secretD") logged_in).1)
unfolding revoke_session get_session_record get_by_token_hash select_session ensure_active
    judge_record SessionRepo.revoke revoke_statement update_where create_session ◌>>=◌
    Auth.verify_token Token.verify_token lift read_token decode_token all b64encode same pkcs7_unpad
    utf8_decode parse_payload validate_payload get dump_request observe check_age add_seconds
    or_raise pure run_sql ◌-ℤ◌ any find? b64decode char_of scan value_of utf8_encode fits_bigint
    fits_integer fits_nullable fits_varchar admits_session SessionRepo.create_session insert_session
    new_session row_to_session fits_users new_user profile_of upsert_row upsert_statement
    upsert_user fields_of expires_at hash_token hex strip is_space lstrip rstrip check_code decrypt
    open_payload
logout_runs = refl

abbrev pub logged_out : World
logged_out = (revoke_session test_env test_service (codes "secretD") logged_in).1

-- The session's user and expiry after a refresh.
abbrev pub refreshed_data : SessionData
refreshed_data = record {
  user = login_data.user;
  expires_at = 63835600409000000;
  session_token = none;
}

abbrev pub refreshed : World
refreshed = (refresh_session test_env test_service (codes "secretD") logged_in).1

pub refresh_runs :
    refresh_session test_env test_service (codes "secretD") logged_in
    ≡ (ok refreshed_data, refreshed)
unfolding refresh_session get_session_record get_by_token_hash select_session ensure_active
    judge_record SessionRepo.update_expiry update_expiry_statement update_where get_user get_by_id
    select_user create_session ◌>>=◌ Auth.verify_token Token.verify_token lift read_token
    decode_token all b64encode same pkcs7_unpad utf8_decode parse_payload validate_payload get
    dump_request observe check_age add_seconds or_raise pure run_sql ◌-ℤ◌ any find? b64decode
    char_of scan value_of utf8_encode fits_bigint fits_integer fits_nullable fits_varchar
    admits_session SessionRepo.create_session insert_session new_session row_to_session fits_users
    new_user profile_of upsert_row upsert_statement upsert_user fields_of expires_at hash_token hex
    strip is_space lstrip rstrip check_code decrypt open_payload
refresh_runs = refl

-- The payload of the token of the tests, and the world after reading it.
abbrev pub verified_payload : TokenPayload
verified_payload = payload_of test_request (pos 1700000000)

abbrev pub token_world : World
token_world = after first_world

pub token_runs :
    Token.verify_token test_env test_tokens test_token first_world
    ≡ (ok verified_payload, token_world)
unfolding create_session ◌>>=◌ Auth.verify_token Token.verify_token lift read_token decode_token all
    b64encode same pkcs7_unpad utf8_decode parse_payload validate_payload get dump_request observe
    check_age add_seconds or_raise pure run_sql ◌-ℤ◌ any find? b64decode char_of scan value_of
    utf8_encode fits_bigint fits_integer fits_nullable fits_varchar admits_session
    SessionRepo.create_session insert_session new_session row_to_session fits_users new_user
    profile_of upsert_row upsert_statement upsert_user fields_of expires_at hash_token hex strip
    is_space lstrip rstrip check_code decrypt open_payload
token_runs = refl

pub refusal_runs :
    (Token.verify_token test_env test_tokens (codes "AAAA") first_world).0 ≡ raised oauth_invalid
unfolding create_session ◌>>=◌ Auth.verify_token Token.verify_token lift read_token decode_token all
    b64encode same pkcs7_unpad utf8_decode parse_payload validate_payload get dump_request observe
    check_age add_seconds or_raise pure run_sql ◌-ℤ◌ any find? b64decode char_of scan value_of
    utf8_encode fits_bigint fits_integer fits_nullable fits_varchar admits_session
    SessionRepo.create_session insert_session new_session row_to_session fits_users new_user
    profile_of upsert_row upsert_statement upsert_user fields_of expires_at hash_token hex strip
    is_space lstrip rstrip check_code decrypt open_payload
refusal_runs = refl

abbrev pub auth_world : World
auth_world = (Auth.verify_token test_env test_tokens test_token first_world).1

pub auth_runs :
    Auth.verify_token test_env test_tokens test_token first_world
    ≡ (ok (login_data.user, true), auth_world)
unfolding create_session ◌>>=◌ Auth.verify_token Token.verify_token lift read_token decode_token all
    b64encode same pkcs7_unpad utf8_decode parse_payload validate_payload get dump_request observe
    check_age add_seconds or_raise pure run_sql ◌-ℤ◌ any find? b64decode char_of scan value_of
    utf8_encode fits_bigint fits_integer fits_nullable fits_varchar admits_session
    SessionRepo.create_session insert_session new_session row_to_session fits_users new_user
    profile_of upsert_row upsert_statement upsert_user fields_of expires_at hash_token hex strip
    is_space lstrip rstrip check_code decrypt open_payload
auth_runs = refl

-- The tables after an upsert, and the profile that it returns.
abbrev pub upserted_db : Db × UserProfile
upserted_db = (
  (upsert_statement (fields_of verified_payload) 77 78 empty_db).1,
  record login_data.user { created_at = 77; last_login_at = 77 },
)

pub upsert_runs :
    upsert_statement (fields_of verified_payload) 77 78 empty_db
    ≡ (ok (upserted_db.1, true), upserted_db.0)
unfolding create_session ◌>>=◌ Auth.verify_token Token.verify_token lift read_token decode_token all
    b64encode same pkcs7_unpad utf8_decode parse_payload validate_payload get dump_request observe
    check_age add_seconds or_raise pure run_sql ◌-ℤ◌ any find? b64decode char_of scan value_of
    utf8_encode fits_bigint fits_integer fits_nullable fits_varchar admits_session
    SessionRepo.create_session insert_session new_session row_to_session fits_users new_user
    profile_of upsert_row upsert_statement upsert_user fields_of expires_at hash_token hex strip
    is_space lstrip rstrip check_code decrypt open_payload
upsert_runs = refl

pub key_runs : make_token_service test_env (codes "app") (codes "secret") (pos 300) ≡ ok test_tokens
unfolding make_token_service utf8_encode
key_runs = refl
