-- ===== src/Examples/Services.antt =====
-- The theorems on services and repositories at concrete arguments.
use python_typescript_wiki_b.Base.{
  ◌≤◌, ◌<◌, ◌≡◌, ◌≢◌, refl, true, none, some, List, [], ◌∷◌, ◌++◌, arith, length, map, same, all,
  if◌then◌else◌,
}
use python_typescript_wiki_b.Text.{Str, codes, hex}
use python_typescript_wiki_b.Errors.{ok}
use python_typescript_wiki_b.Db.{User, empty_db, is_storable}
use python_typescript_wiki_b.App.{after}
use python_typescript_wiki_b.Token
use python_typescript_wiki_b.Token.{TokenPayload, unix_seconds, make_token_service, decrypt}
use python_typescript_wiki_b.Repositories.Users.{UserProfile, profile_of, search_statement}
use python_typescript_wiki_b.Repositories.Users.Search.{Member, IsHit, search_lem}
use python_typescript_wiki_b.Repositories.Users.Upsert.{IsUpsert, upsert_statement-IsUpsert}
use python_typescript_wiki_b.Repositories.Spaces.{create_space}
use python_typescript_wiki_b.Repositories.Spaces.Atomic.{Outcome, create_space_lem}
use python_typescript_wiki_b.Repositories.Sessions.Rows.{row_of}
use python_typescript_wiki_b.Repositories.WellFormed.{IsWellFormed-empty}
use python_typescript_wiki_b.Services.Auth.{fields_of}
use python_typescript_wiki_b.Services.Auth.Verified.{carried, auth_lem}
use python_typescript_wiki_b.Services.Sessions
use python_typescript_wiki_b.Services.Sessions.Returns.{
  hash_of, create_session-returns, refresh_session-returns, revoke_session-returns,
}
use python_typescript_wiki_b.Services.Sessions.{
  create_session, revoke_session, expired, hash_token, get_session,
}
use python_typescript_wiki_b.Repositories.Users.Expected.{shown}
use python_typescript_wiki_b.Services.Sessions.Lifecycle.{IsRevoked, revoke_session_lem}
use python_typescript_wiki_b.Services.Sessions.Created.{IsLogin, create_session_lem}
use python_typescript_wiki_b.Services.Sessions.Refreshed.{IsRefresh, refresh_session_lem}
use python_typescript_wiki_b.Services.Sessions.RoundTrip.{get_session-create_session}
use python_typescript_wiki_b.Examples.{test_env, test_tokens, test_service, first_world}
use python_typescript_wiki_b.Examples.OpenSession.{
  test_user, open_world, test_open, user_there, verified_world, verified_runs, secret_runs,
  new_id_runs, new_hash_runs,
}
use python_typescript_wiki_b.Examples.Runs.{
  test_token, login_data, logged_in, login_runs, logged_out, logout_runs, refreshed_data, refreshed,
  refresh_runs, verified_payload, auth_runs, auth_world, upsert_runs, upserted_db,
}

abbrev session_token : Str
session_token = codes "secretD"

get_session-create_session_example :
    (get_session test_env test_service session_token (record { db = logged_in.db; tick = 7 })).0
    ≡ ok (record {
      user = login_data.user;
      expires_at = login_data.expires_at;
      session_token = none;
    })
get_session-create_session_example =
    get_session-create_session test_env test_service test_token first_world logged_in session_token
      IsWellFormed-empty login_runs refl (record { db = logged_in.db; tick = 7 }) refl refl refl
      (omega arith)

create_space_example :
    Outcome
      (codes "notes")
      1
      logged_in.db
      (create_space test_env (codes "notes") 1 logged_in).0
      (create_space test_env (codes "notes") 1 logged_in).1.db
create_space_example = create_space_lem test_env (codes "notes") 1 logged_in

auth_example :
    (payload : TokenPayload) × (Token.verify_token test_env test_tokens test_token first_world
      ≡ (ok payload, after first_world))
    × IsUpsert (carried payload) (test_env.clock 1) empty_db auth_world.db login_data.user true
auth_example =
    auth_lem test_env test_tokens test_token first_world auth_world IsWellFormed-empty auth_runs

upsert_statement-IsUpsert_example :
    IsUpsert (fields_of verified_payload) 77 empty_db upserted_db.0 upserted_db.1 true
upsert_statement-IsUpsert_example =
    upsert_statement-IsUpsert (fields_of verified_payload) 77 empty_db IsWellFormed-empty 78
      upsert_runs

create_session_example : IsLogin test_env test_service test_token first_world logged_in login_data
create_session_example =
    create_session_lem test_env test_service test_token first_world logged_in login_runs

refresh_session_example :
    IsRefresh test_env test_service session_token logged_in refreshed refreshed_data
refresh_session_example =
    refresh_session_lem test_env test_service session_token logged_in refreshed refresh_runs

revoke_session_example :
    (hash : Str) × (hash_token test_env session_token ≡ ok hash)
    × IsRevoked hash logged_out.db
    × ((other : Str) → other ≢ hash → row_of other logged_out.db ≡ row_of other logged_in.db)
    × (logged_out.db.users ≡ logged_in.db.users)
revoke_session_example =
    revoke_session_lem test_env test_service session_token logged_in logged_out logout_runs

storable_runs : all is_storable (codes "nn") ≡ true
unfolding all
storable_runs = refl

search_example :
    (found : List UserProfile) × (search_statement (λ c. c) (codes "nn") 5 0 logged_in.db
      ≡ (ok found, logged_in.db))
    × (length found ≤ 5)
    × ((q : UserProfile)
        → Member q found
        → (row : User) × Member row logged_in.db.users
          × (q ≡ profile_of row)
          × IsHit (λ c. c) (codes "nn") row)
    × (length found < 5
        → (row : User) → Member row logged_in.db.users
        → IsHit (λ c. c) (codes "nn") row
        → Member (profile_of row) found)
search_example = search_lem (λ c. c) (codes "nn") 5 0 logged_in.db (ground arith) storable_runs

revoke_session-returns_example : revoke_session test_env test_service session_token open_world ≡ (
  ok tt,
  record {
    db = record logged_in.db {
      sessions =
          map
            (λ row.
              if same row.token_hash (hash_of test_env test_service test_open)
              then record row {
                revoked_at = some (test_env.clock 9);
                updated_at = test_env.clock 9;
              }
              else row)
            logged_in.db.sessions;
    };
    tick = 11;
  },
)
revoke_session-returns_example =
    revoke_session-returns test_env test_service session_token open_world test_open refl

create_session-returns_example : create_session test_env test_service test_token first_world ≡ (
  ok (record {
    user = login_data.user;
    expires_at = 63835600404000000;
    session_token = some session_token;
  }),
  record {
    db = record verified_world.db {
      sessions =
          verified_world.db.sessions
          ++ record {
            id = 105;
            user_id = 1;
            token_hash = hex (test_env.crypto.sha256 session_token);
            expires_at = 63835600404000000;
            revoked_at = none;
            created_at = test_env.db_clock 6;
            updated_at = test_env.db_clock 6;
          }
            ∷ [];
    };
    tick = 7;
  },
)
create_session-returns_example =
    create_session-returns test_env test_service test_token first_world verified_world
      login_data.user true session_token 3600 IsWellFormed-empty verified_runs secret_runs refl
      (ground arith) new_id_runs new_hash_runs refl (omega arith) refl

refresh_session-returns_example :
    Sessions.refresh_session test_env test_service session_token open_world ≡ (
      ok (record { user = shown test_user; expires_at = 63835600409000000; session_token = none }),
      record {
        db = record logged_in.db {
          sessions =
              map
                (λ row.
                  if same row.token_hash (hash_of test_env test_service test_open)
                  then record row { expires_at = 63835600409000000; updated_at = test_env.clock 10 }
                  else row)
                logged_in.db.sessions;
        };
        tick = 13;
      },
    )
refresh_session-returns_example =
    refresh_session-returns test_env test_service session_token open_world test_open test_user 3600
      refl (omega arith) user_there refl refl
