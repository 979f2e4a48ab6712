-- ===== src/Services/Sessions/Returns.antt =====
-- When the operations of app/services/session_service.py return, and with which tables: each row is
-- written out.
use mathlib.Core.Option
use python_typescript_wiki_b.Base.{
  ℕ, suc, ◌+◌, ◌*◌, ◌++◌, ◌∷◌, List, [], ◌<◌, ◌≤◌, ◌≡◌, refl, Bool, true, false, none, some, map,
  arith, leb, ◌==◌, if◌then◌else◌, same, find?, all, length, All,
}
use python_typescript_wiki_b.Base.Int.{pos}
use python_typescript_wiki_b.Base.Search.{any_of-find?-none, any_of-find?-some}
use python_typescript_wiki_b.Text.{Str, Bytes, hex}
use python_typescript_wiki_b.Text.Laws.{length-hex}
use python_typescript_wiki_b.Errors.{ok}
use python_typescript_wiki_b.Db.{User, Session, Db, is_storable, fits_varchar}
use python_typescript_wiki_b.Outside.{Env}
use python_typescript_wiki_b.App.{
  World, ◌>>=◌, lift, observe, pure, or_raise, run_sql, add_seconds, datetime_max,
}
use python_typescript_wiki_b.Codec.Utf8.{utf8_encode}
use python_typescript_wiki_b.Repositories.Users.{UserProfile, profile_of, get_by_id, select_user}
use python_typescript_wiki_b.Repositories.Users.Expected.{shown}
use python_typescript_wiki_b.Repositories.Users.Upsert.{row_with_id}
use python_typescript_wiki_b.Repositories.Sessions as SessionRepo
use python_typescript_wiki_b.Repositories.Sessions.{
  has_hash, row_to_session, get_by_token_hash, select_session, revoke, revoke_statement,
  update_where, set_expiry, update_expiry, update_expiry_statement, admits_session, insert_session,
  new_session,
}
use python_typescript_wiki_b.Repositories.Sessions.Rows.{row_of, find?-update_where}
use python_typescript_wiki_b.Repositories.WellFormed.{IsWellFormed}
use python_typescript_wiki_b.Services.Auth.{verify_token}
use python_typescript_wiki_b.Services.Auth.Verified.{auth_lem}
use python_typescript_wiki_b.Services.Sessions.{
  SessionService, hash_token, judge_record, ensure_active, get_session_record, get_user, expires_at,
  create_session, refresh_session, revoke_session,
}

-- Hexadecimal digits are characters that the column `token_hash` can hold.
all-hex : (bs : Bytes) → All (λ b. b < 256) bs → all is_storable (hex bs) ≡ true
unfolding all hex
all-hex [] h = refl
all-hex (b ∷ bs) h = ground (arith, all-hex bs h.1)

hex-fits : (bs : Bytes) → length bs ≡ 32 → All (λ b. b < 256) bs → fits_varchar 64 (hex bs) ≡ true
unfolding fits_varchar
hex-fits bs count small = rw (all-hex bs small) (ground (arith, length-hex bs))

find?-map_where :
    (h : Str) (set : Session → Session)
    → ((r : Session) → (set r).token_hash ≡ r.token_hash)
    → (rows : List Session)
    → find? (has_hash h) (map (λ row. if has_hash h row then set row else row) rows)
      ≡ Option.map set (find? (has_hash h) rows)
unfolding update_where
find?-map_where h set keeps rows = find?-update_where h set keeps rows

module _ (env : Env) (service : SessionService) where
  hash_token-eq :
      (token : Str) (bytes : Bytes)
      → utf8_encode token ≡ some bytes
      → hash_token env token ≡ ok (hex (env.crypto.sha256 bytes))
  unfolding hash_token
  hash_token-eq token bytes h = rw h refl

  add_seconds-eq :
      (now ttl : ℕ)
      → service.ttl_seconds ≡ pos ttl
      → now + ttl * 1000000 ≤ datetime_max
      → add_seconds now service.ttl_seconds ≡ ok (now + ttl * 1000000)
  unfolding add_seconds
  add_seconds-eq now ttl is_ttl h = rw is_ttl (ground (arith, h))

  -- A token whose digest has a row that is not revoked and ends later than the clock reads, while the
  -- database answers.
  pub record IsOpen (token : Str) (w : World) : Type 0 where
    pub bytes : Bytes
    pub encoded : utf8_encode token ≡ some bytes
    pub row : Session
    pub found : row_of (hex (env.crypto.sha256 bytes)) w.db ≡ some row
    pub unrevoked : row.revoked_at ≡ none
    pub alive : env.clock (suc w.tick) < row.expires_at
    pub answers : env.fault w.tick ≡ false

  abbrev pub hash_of : {token : Str} {w : World} → IsOpen token w → Str
  hash_of o = hex (env.crypto.sha256 o.bytes)

  get_session_record-IsOpen :
      (token : Str) (w : World) (o : IsOpen token w)
      → get_session_record env token w
        ≡ (ok (row_to_session o.row), record { db = w.db; tick = suc (suc w.tick) })
  unfolding get_session_record get_by_token_hash select_session ◌>>=◌ lift observe run_sql
      ensure_active judge_record pure row_to_session
  get_session_record-IsOpen token w o =
      let late : leb o.row.expires_at (env.clock (suc w.tick)) ≡ false = ground (arith, o.alive) in
      rw (hash_token-eq token o.bytes o.encoded, o.answers, o.found, o.unrevoked, late) refl

  -- For a token whose digest has a row that is not revoked and ends later than the clock reads, while
  -- the database answers the two statements, `revoke_session` returns, in four events. Rows of the
  -- digest then hold its second reading of the clock as the moment of their revocation and of their
  -- last change, and keep their other columns; everything else in the tables is as it was.
  pub revoke_session-returns :
      (token : Str) (w : World) (o : IsOpen token w)
      → env.fault (suc (suc (suc w.tick))) ≡ false
      → revoke_session env service token w ≡ (
        ok tt,
        record {
          db = record w.db {
            sessions =
                map
                  (λ row.
                    if same row.token_hash (hash_of o)
                    then record row {
                      revoked_at = some (env.clock (suc (suc w.tick)));
                      updated_at = env.clock (suc (suc w.tick));
                    }
                    else row)
                  w.db.sessions;
          };
          tick = suc (suc (suc (suc w.tick)));
        },
      )
  unfolding revoke_session ◌>>=◌ lift observe run_sql revoke revoke_statement or_raise update_where
  revoke_session-returns token w o f =
      rw (get_session_record-IsOpen token w o, hash_token-eq token o.bytes o.encoded, f) refl

  admits-fresh :
      (id user_id : ℕ) (bytes : Bytes) (db : Db) {user : User}
      → length (env.crypto.sha256 bytes) ≡ 32
      → All (λ b. b < 256) (env.crypto.sha256 bytes)
      → find? (λ (row : Session). row.id == id) db.sessions ≡ none
      → row_of (hex (env.crypto.sha256 bytes)) db ≡ none
      → row_with_id user_id db ≡ some user
      → admits_session id user_id (hex (env.crypto.sha256 bytes)) db ≡ true
  unfolding admits_session
  admits-fresh id user_id bytes db count small new_id new_hash there =
      rw
        (
          any_of-find?-none (λ row. row.id == id) db.sessions new_id,
          any_of-find?-none _ db.sessions new_hash,
          hex-fits (env.crypto.sha256 bytes) count small,
          any_of-find?-some (λ u. u.id == user_id) db.users there,
        )
        refl

  -- On well-formed tables, when the oauth token is verified, the secret that is drawn is UTF-8 text
  -- whose digest has 32 bytes, neither the digest nor the id that is drawn is that of a session, the
  -- TTL after the clock's reading is a `datetime`, and the database answers the insert,
  -- `create_session` returns the verified user, that expiry and the secret. The tables gain one row,
  -- of that user, with the digest in hexadecimal and that expiry, not revoked.
  pub create_session-returns :
      (token : Str) (w w1 : World) (user : UserProfile) (created : Bool) (bytes : Bytes) (ttl : ℕ)
      → IsWellFormed w.db
      → verify_token env service.tokens token w ≡ (ok (user, created), w1)
      → utf8_encode (env.secret w1.tick) ≡ some bytes
      → length (env.crypto.sha256 bytes) ≡ 32
      → All (λ b. b < 256) (env.crypto.sha256 bytes)
      → find? (λ (row : Session). row.id == env.uuid (suc (suc w1.tick))) w1.db.sessions ≡ none
      → row_of (hex (env.crypto.sha256 bytes)) w1.db ≡ none
      → service.ttl_seconds ≡ pos ttl
      → env.clock (suc w1.tick) + ttl * 1000000 ≤ datetime_max
      → env.fault (suc (suc (suc w1.tick))) ≡ false
      → create_session env service token w ≡ (
        ok (record {
          user = user;
          expires_at = env.clock (suc w1.tick) + ttl * 1000000;
          session_token = some (env.secret w1.tick);
        }),
        record {
          db = record w1.db {
            sessions =
                w1.db.sessions
                ++ record {
                  id = env.uuid (suc (suc w1.tick));
                  user_id = user.id;
                  token_hash = hex (env.crypto.sha256 bytes);
                  expires_at = env.clock (suc w1.tick) + ttl * 1000000;
                  revoked_at = none;
                  created_at = env.db_clock (suc (suc (suc w1.tick)));
                  updated_at = env.db_clock (suc (suc (suc w1.tick)));
                }
                  ∷ [];
          };
          tick = suc (suc (suc (suc w1.tick)));
        },
      )
  unfolding create_session ◌>>=◌ lift observe run_sql or_raise pure expires_at
      SessionRepo.create_session insert_session new_session
  create_session-returns token w w1 user created bytes ttl v verified encoded count small new_id
        new_hash is_ttl early f =
      let (_, _, upsert) = auth_lem env service.tokens token w w1 v verified in
      rw
        (
          verified,
          hash_token-eq (env.secret w1.tick) bytes encoded,
          add_seconds-eq (env.clock (suc w1.tick)) ttl is_ttl early,
          admits-fresh (env.uuid (suc (suc w1.tick))) user.id bytes w1.db count small new_id
              new_hash upsert.by_id,
          f,
        )
        refl

  -- For a token whose digest has a row that is not revoked and ends later than the clock reads, and
  -- whose user is there, if the TTL after the clock's second reading is a `datetime` and the database
  -- answers the three statements, `refresh_session` returns the user and that expiry, in six events.
  -- Rows of the digest then have that expiry, and the third reading as the moment of their last
  -- change, and keep their other columns; everything else in the tables is as it was.
  pub refresh_session-returns :
      (token : Str) (w : World) (o : IsOpen token w) (user : User) (ttl : ℕ)
      → service.ttl_seconds ≡ pos ttl
      → env.clock (suc (suc w.tick)) + ttl * 1000000 ≤ datetime_max
      → row_with_id o.row.user_id w.db ≡ some user
      → env.fault (suc (suc (suc (suc w.tick)))) ≡ false
      → env.fault (suc (suc (suc (suc (suc w.tick))))) ≡ false
      → refresh_session env service token w ≡ (
        ok (record {
          user = shown user;
          expires_at = env.clock (suc (suc w.tick)) + ttl * 1000000;
          session_token = none;
        }),
        record {
          db = record w.db {
            sessions =
                map
                  (λ row.
                    if same row.token_hash (hash_of o)
                    then record row {
                      expires_at = env.clock (suc (suc w.tick)) + ttl * 1000000;
                      updated_at = env.clock (suc (suc (suc w.tick)));
                    }
                    else row)
                  w.db.sessions;
          };
          tick = suc (suc (suc (suc (suc (suc w.tick)))));
        },
      )
  unfolding refresh_session ◌>>=◌ lift observe run_sql or_raise pure expires_at update_expiry
      update_expiry_statement get_user get_by_id select_user row_to_session update_where profile_of
  refresh_session-returns token w o user ttl is_ttl early there f g =
      let set =
        set_expiry (env.clock (suc (suc w.tick)) + ttl * 1000000)
          (env.clock (suc (suc (suc w.tick)))) in
      rw
        (
          get_session_record-IsOpen token w o,
          add_seconds-eq (env.clock (suc (suc w.tick))) ttl is_ttl early,
          hash_token-eq token o.bytes o.encoded,
          f,
          find?-map_where (hash_of o) set (λ r. refl) w.db.sessions,
          o.found,
          g,
          there,
        )
        refl
