-- ===== src/Examples/Interleaved.antt =====
-- The theorems on interleaved tasks at concrete arguments: a refresh that has passed its checks when a
-- logout of the same session arrives.
use python_typescript_wiki_b.Base.{
  ℕ, ◌≡◌, refl, true, false, some, List, [], ◌∷◌, all, any, find?, same, replicate, arith,
}
use python_typescript_wiki_b.Base.Int.{pos, ◌-ℤ◌}
use python_typescript_wiki_b.Text.{
  Str, codes, strip, hex, is_space, lstrip, rstrip, partition, lower,
}
use python_typescript_wiki_b.Errors.{ok, raised}
use python_typescript_wiki_b.Db.{fits_bigint, fits_integer, fits_nullable, fits_varchar}
use python_typescript_wiki_b.Json.{get}
use python_typescript_wiki_b.App
use python_typescript_wiki_b.App.{World, observe, run_sql, or_raise, add_seconds}
use python_typescript_wiki_b.MockOauth.{dump_request}
use python_typescript_wiki_b.Codec.Base64.{
  b64encode, b64decode, decode_token, char_of, value_of, scan,
}
use python_typescript_wiki_b.Codec.Pkcs7.{pkcs7_unpad}
use python_typescript_wiki_b.Codec.Utf8.{utf8_encode, utf8_decode}
use python_typescript_wiki_b.Token
use python_typescript_wiki_b.Token.{
  read_token, parse_payload, validate_payload, check_age, check_code, decrypt, open_payload,
}
use python_typescript_wiki_b.Repositories.Users.{
  profile_of, new_user, fits_users, upsert_row, upsert_statement, upsert_user, select_user,
  get_by_id,
}
use python_typescript_wiki_b.Repositories.WellFormed.{IsWellFormed, IsWellFormed-empty}
use python_typescript_wiki_b.Repositories.Limits.{IsFitting}
use python_typescript_wiki_b.Repositories.Sessions as SessionRepo
use python_typescript_wiki_b.Repositories.Sessions.{
  admits_session, insert_session, new_session, row_to_session, select_session, get_by_token_hash,
  update_where, update_expiry_statement, revoke_statement,
}
use python_typescript_wiki_b.Services.Auth
use python_typescript_wiki_b.Services.Auth.{fields_of}
use python_typescript_wiki_b.Services.Sessions
use python_typescript_wiki_b.Services.Sessions.{
  create_session, judge_record, expires_at, hash_token, expired,
}
use python_typescript_wiki_b.Api.Http.{Request, Response, success, given}
use python_typescript_wiki_b.Api.Bearer.{extract_bearer_token, split_header}
use python_typescript_wiki_b.Api.Sessions.{SessionLogoutResponse, SessionCreateResponse}
use python_typescript_wiki_b.Api.History.{post_session, refresh_session, delete_session}
use python_typescript_wiki_b.Interleave.Prog
use python_typescript_wiki_b.Interleave.Prog.{Prog, done, exec}
use python_typescript_wiki_b.Interleave.Programs as P
use python_typescript_wiki_b.Interleave.Server as S
use python_typescript_wiki_b.Interleave.Server.{Reply, logout_reply, login_reply, task}
use python_typescript_wiki_b.Interleave.Schedule.{resume, turn, run_schedule}
use python_typescript_wiki_b.Interleave.Schedule.Invariants.{run_schedule-IsWellFormed}
use python_typescript_wiki_b.Interleave.Ensures.{task_at}
use python_typescript_wiki_b.Interleave.Alone.Login.{get_session-login_task}
use python_typescript_wiki_b.Api.Auth.{token_user}
use python_typescript_wiki_b.Interleave.Ends.Replies.{task-run_schedule}
use python_typescript_wiki_b.Interleave.Logout.Final.{logout-run_schedule}
use python_typescript_wiki_b.Examples.{test_env, test_service, first_world}
use python_typescript_wiki_b.Examples.Bounds.{empty-IsFitting}
use python_typescript_wiki_b.Examples.Runs.{test_token, logged_in}

abbrev logout_request : Request
logout_request = record {
  x_trace_id = some (codes "trace");
  authorization = some (codes "Bearer secretD");
}

abbrev two_tasks : List (Prog Reply)
two_tasks =
    task test_env test_service logout_request delete_session
    ∷ task test_env test_service logout_request refresh_session
    ∷ []

-- The refresh looks the session up, then the logout runs to its end, then the refresh goes on.
abbrev crossing : List ℕ
crossing = 1 ∷ 1 ∷ 1 ∷ 0 ∷ 0 ∷ 0 ∷ 1 ∷ 0 ∷ 0 ∷ 1 ∷ 1 ∷ 1 ∷ 1 ∷ []

abbrev logout_body : SessionLogoutResponse
logout_body = record { authenticated = false }

abbrev logout_response : Response SessionLogoutResponse
logout_response = record {
  status = 200;
  content = success logout_body;
  trace_id = some (codes "trace");
}

crossing_runs :
    task_at 0 (run_schedule test_env crossing two_tasks logged_in).0
    ≡ some (done (ok (logout_reply logout_response)))
unfolding run_schedule turn resume task S.serve S.trace_id_middleware S.get_or_create_trace_id
    Prog.follow Prog.◌>>=◌ Prog.act Prog.or_raise P.delete_session P.post_refresh P.revoke_session
    P.refresh_session P.get_session_record P.ensure_active P.expires_at P.get_user
    extract_bearer_token split_header partition lower get_by_token_hash select_session judge_record
    SessionRepo.revoke revoke_statement update_expiry_statement update_where get_by_id select_user
    create_session App.◌>>=◌ App.lift App.pure Auth.verify_token Token.verify_token read_token
    decode_token all b64encode same pkcs7_unpad utf8_decode parse_payload validate_payload get
    dump_request observe check_age add_seconds or_raise run_sql ◌-ℤ◌ any find? b64decode char_of
    scan value_of utf8_encode fits_bigint fits_integer fits_nullable fits_varchar admits_session
    SessionRepo.create_session insert_session new_session row_to_session fits_users new_user
    profile_of upsert_row upsert_statement upsert_user fields_of expires_at hash_token hex strip
    is_space lstrip rstrip check_code decrypt open_payload
crossing_runs = refl

abbrev session_hash : Str
session_hash = hex (replicate 32 68)

hash_runs : hash_token test_env (codes "secretD") ≡ ok session_hash
unfolding hash_token utf8_encode
hash_runs = refl

bearer_runs : extract_bearer_token logout_request.authorization ≡ ok (codes "secretD")
unfolding extract_bearer_token split_header partition lower strip is_space lstrip rstrip same
bearer_runs = refl

logout-run_schedule_example :
    (Sessions.get_session test_env test_service
      (codes "secretD")
      (record { db = (run_schedule test_env crossing two_tasks logged_in).1.db; tick = 50 })).0
    ≡ raised expired
logout-run_schedule_example =
    logout-run_schedule session_hash test_env test_service logout_request (codes "secretD")
      bearer_runs hash_runs crossing 0 two_tasks logged_in refl logout_response logout_body
      crossing_runs refl
      (record { db = (run_schedule test_env crossing two_tasks logged_in).1.db; tick = 50 }) refl
      refl refl

-- Two logins of the same user that take turns.
abbrev two_logins : List (Prog Reply)
two_logins =
    task test_env test_service logout_request (post_session (given test_token))
    ∷ task test_env test_service logout_request (post_session (given test_token))
    ∷ []

abbrev turns : List ℕ
turns = 0 ∷ 1 ∷ 0 ∷ 1 ∷ 0 ∷ 1 ∷ 0 ∷ 1 ∷ 0 ∷ 1 ∷ 0 ∷ 1 ∷ 0 ∷ 1 ∷ 0 ∷ 1 ∷ []

run_schedule-IsWellFormed_example :
    IsWellFormed (run_schedule test_env turns two_logins first_world).1.db
    × IsFitting (run_schedule test_env turns two_logins first_world).1.db
run_schedule-IsWellFormed_example =
    run_schedule-IsWellFormed test_env turns two_logins first_world IsWellFormed-empty
      empty-IsFitting

-- Eleven turns for the logout, with turns of the refresh in between.
abbrev long_enough : List ℕ
long_enough = 1 ∷ 1 ∷ 0 ∷ 0 ∷ 1 ∷ 0 ∷ 0 ∷ 0 ∷ 1 ∷ 0 ∷ 0 ∷ 0 ∷ 1 ∷ 1 ∷ 0 ∷ 0 ∷ 0 ∷ []

task-run_schedule_example :
    (reply : Reply) × (task_at 0 (run_schedule test_env long_enough two_tasks logged_in).0
      ≡ some (done (ok reply)))
task-run_schedule_example =
    task-run_schedule test_env test_service logout_request delete_session two_tasks 0 long_enough
      logged_in refl (omega arith)

abbrev login_body : SessionCreateResponse
login_body = record {
  authenticated = true;
  session_token = codes "secretE";
  expires_at = 63835600405000000;
  user = record {
    telegram_id = pos 42;
    username = some (codes "ann");
    created_at = 63835596802000000;
    last_login_at = 63835596802000000;
  };
}

abbrev login_response : Response SessionCreateResponse
login_response = record {
  status = 200;
  content = success login_body;
  trace_id = some (codes "trace");
}

abbrev login_world : World
login_world =
    (exec test_env (task test_env test_service logout_request (post_session (given test_token)))
      first_world).1

login_task_runs :
    exec test_env
      (task test_env test_service logout_request (post_session (given test_token)))
      first_world
    ≡ (ok (login_reply login_response), login_world)
unfolding run_schedule turn resume task S.serve S.trace_id_middleware S.get_or_create_trace_id
    Prog.follow Prog.◌>>=◌ Prog.act Prog.or_raise P.delete_session P.post_refresh P.revoke_session
    P.refresh_session P.get_session_record P.ensure_active P.expires_at P.get_user
    extract_bearer_token split_header partition lower get_by_token_hash select_session judge_record
    SessionRepo.revoke revoke_statement update_expiry_statement update_where get_by_id select_user
    create_session App.◌>>=◌ App.lift App.pure Auth.verify_token Token.verify_token read_token
    decode_token all b64encode same pkcs7_unpad utf8_decode parse_payload validate_payload get
    dump_request observe check_age add_seconds or_raise run_sql ◌-ℤ◌ any find? b64decode char_of
    scan value_of utf8_encode fits_bigint fits_integer fits_nullable fits_varchar admits_session
    SessionRepo.create_session insert_session new_session row_to_session fits_users new_user
    profile_of upsert_row upsert_statement upsert_user fields_of expires_at hash_token hex strip
    is_space lstrip rstrip check_code decrypt open_payload P.post_session P.authenticate
    P.verify_token P.create_session P.body_field P.stripped_token token_user exec
login_task_runs = refl

get_session-login_task_example :
    (d : Sessions.SessionData) × ((Sessions.get_session test_env test_service
        (codes "secretE")
        (record { db = login_world.db; tick = 50 })).0
      ≡ ok d)
    × (d.expires_at ≡ 63835600405000000)
    × (login_body.user ≡ record {
      telegram_id = d.user.telegram_id;
      username = d.user.username;
      created_at = d.user.created_at;
      last_login_at = d.user.last_login_at;
    })
get_session-login_task_example =
    get_session-login_task test_env test_service logout_request (given test_token) first_world
      login_world login_body IsWellFormed-empty login_task_runs refl
      (record { db = login_world.db; tick = 50 }) refl refl refl (omega arith)
