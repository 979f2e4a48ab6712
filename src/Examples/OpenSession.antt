-- ===== src/Examples/OpenSession.antt =====
-- The session of the tests, while it is open.
use python_typescript_wiki_b.Base.{
  ◌==◌, arith, ◌≡◌, refl, none, some, replicate, all, any, find?, same, true,
}
use python_typescript_wiki_b.Base.Int.{pos, ◌-ℤ◌}
use python_typescript_wiki_b.Text.{Str, codes, strip, hex, is_space, lstrip, rstrip}
use python_typescript_wiki_b.Errors.{ok}
use python_typescript_wiki_b.Db.{
  User, Session, fits_bigint, fits_integer, fits_nullable, fits_varchar,
}
use python_typescript_wiki_b.Json.{get}
use python_typescript_wiki_b.App.{World, ◌>>=◌, lift, observe, pure, run_sql, or_raise, add_seconds}
use python_typescript_wiki_b.MockOauth.{dump_request}
use python_typescript_wiki_b.Codec.Base64.{
  b64encode, b64decode, decode_token, char_of, value_of, scan,
}
use python_typescript_wiki_b.Codec.Pkcs7.{pkcs7_unpad}
use python_typescript_wiki_b.Codec.Utf8.{utf8_encode, utf8_decode}
use python_typescript_wiki_b.Token
use python_typescript_wiki_b.Token.{
  TokenPayload, make_token_service, read_token, parse_payload, validate_payload, check_age,
  check_code, decrypt, open_payload,
}
use python_typescript_wiki_b.Repositories.Users.{
  profile_of, new_user, fits_users, upsert_row, upsert_statement, upsert_user,
}
use python_typescript_wiki_b.Repositories.Sessions as SessionRepo
use python_typescript_wiki_b.Repositories.Sessions.{
  admits_session, insert_session, new_session, row_to_session, select_session, get_by_token_hash,
  update_where, revoke_statement, update_expiry_statement,
}
use python_typescript_wiki_b.Repositories.Sessions.Rows.{row_of}
use python_typescript_wiki_b.Services.Auth
use python_typescript_wiki_b.Services.Sessions.Returns.{IsOpen}
use python_typescript_wiki_b.Services.Auth.{fields_of}
use python_typescript_wiki_b.Services.Sessions.{create_session, expires_at, hash_token}
use python_typescript_wiki_b.Examples.{test_env, test_tokens, test_service, first_world}
use python_typescript_wiki_b.Examples.Runs.{login_data, logged_in, auth_world, test_token}

-- The session of the login, its user and its hash.
abbrev pub test_hash : Str
test_hash = replicate 64 52

abbrev pub test_user : User
test_user = record {
  id = 1;
  telegram_id = pos 42;
  username = some (codes "ann");
  first_name = none;
  last_name = none;
  photo_url = none;
  permission = some (codes "rw");
  created_at = 63835596801000000;
  updated_at = 63835596801000000;
  last_login_at = 63835596801000000;
}

abbrev pub open_world : World
open_world = record { db = logged_in.db; tick = 7 }

pub test_open : IsOpen test_env test_service (codes "secretD") open_world
unfolding create_session ◌>>=◌ Auth.verify_token Token.verify_token lift read_token decode_token all
    b64encode same pkcs7_unpad utf8_decode parse_payload validate_payload get dump_request observe
    check_age add_seconds or_raise pure run_sql ◌-ℤ◌ any find? b64decode char_of scan value_of
    utf8_encode fits_bigint fits_integer fits_nullable fits_varchar admits_session
    SessionRepo.create_session insert_session new_session row_to_session fits_users new_user
    profile_of upsert_row upsert_statement upsert_user fields_of expires_at hash_token hex strip
    is_space lstrip rstrip check_code decrypt open_payload
test_open = record {
  bytes = codes "secretD";
  encoded = refl;
  row = new_session 105 1 test_hash 63835600404000000 63835596806000000;
  found = refl;
  unrevoked = refl;
  alive = omega arith;
  answers = refl;
}

pub user_there : find? (λ u. u.id == test_open.row.user_id) logged_in.db.users ≡ some test_user
unfolding test_open create_session ◌>>=◌ Auth.verify_token Token.verify_token lift read_token
    decode_token all b64encode same pkcs7_unpad utf8_decode parse_payload validate_payload get
    dump_request observe check_age add_seconds or_raise pure run_sql ◌-ℤ◌ any find? b64decode
    char_of scan value_of utf8_encode fits_bigint fits_integer fits_nullable fits_varchar
    admits_session SessionRepo.create_session insert_session new_session row_to_session fits_users
    new_user profile_of upsert_row upsert_statement upsert_user fields_of expires_at hash_token hex
    strip is_space lstrip rstrip check_code decrypt open_payload
user_there = refl

-- The world behind the verification of the token.
abbrev pub verified_world : World
verified_world = record { db = auth_world.db; tick = 3 }

pub verified_runs :
    Auth.verify_token test_env test_tokens test_token first_world
    ≡ (ok (login_data.user, true), verified_world)
unfolding create_session ◌>>=◌ Auth.verify_token Token.verify_token lift read_token decode_token all
    b64encode same pkcs7_unpad utf8_decode parse_payload validate_payload get dump_request observe
    check_age add_seconds or_raise pure run_sql ◌-ℤ◌ any find? b64decode char_of scan value_of
    utf8_encode fits_bigint fits_integer fits_nullable fits_varchar admits_session
    SessionRepo.create_session insert_session new_session row_to_session fits_users new_user
    profile_of upsert_row upsert_statement upsert_user fields_of expires_at hash_token hex strip
    is_space lstrip rstrip check_code decrypt open_payload
verified_runs = refl

-- What the login draws: the secret is ASCII, and neither its digest nor the id is that of a session.
pub secret_runs : utf8_encode (codes "secretD") ≡ some (codes "secretD")
unfolding utf8_encode
secret_runs = refl

pub new_id_runs :
    find? (λ (row : Session). row.id == test_env.uuid 5) verified_world.db.sessions ≡ none
unfolding create_session ◌>>=◌ Auth.verify_token Token.verify_token lift read_token decode_token all
    b64encode same pkcs7_unpad utf8_decode parse_payload validate_payload get dump_request observe
    check_age add_seconds or_raise pure run_sql ◌-ℤ◌ any find? b64decode char_of scan value_of
    utf8_encode fits_bigint fits_integer fits_nullable fits_varchar admits_session
    SessionRepo.create_session insert_session new_session row_to_session fits_users new_user
    profile_of upsert_row upsert_statement upsert_user fields_of expires_at hash_token hex strip
    is_space lstrip rstrip check_code decrypt open_payload
new_id_runs = refl

pub new_hash_runs : row_of (hex (test_env.crypto.sha256 (codes "secretD"))) verified_world.db ≡ none
unfolding create_session ◌>>=◌ Auth.verify_token Token.verify_token lift read_token decode_token all
    b64encode same pkcs7_unpad utf8_decode parse_payload validate_payload get dump_request observe
    check_age add_seconds or_raise pure run_sql ◌-ℤ◌ any find? b64decode char_of scan value_of
    utf8_encode fits_bigint fits_integer fits_nullable fits_varchar admits_session
    SessionRepo.create_session insert_session new_session row_to_session fits_users new_user
    profile_of upsert_row upsert_statement upsert_user fields_of expires_at hash_token hex strip
    is_space lstrip rstrip check_code decrypt open_payload
new_hash_runs = refl
