-- ===== src/Repositories/Sessions.antt =====
-- app/repositories/sessions.py, and the session record of app/services/models.py.
pub mod Rows
use mathlib.Core.Option
use python_typescript_wiki_b.Base.{
  ℕ, Bool, true, false, ◌&&◌, ◌||◌, not, Option, none, some, List, [], ◌∷◌, ◌++◌, map, ◌==◌,
  if◌then◌else◌, same, find?, any,
}
use python_typescript_wiki_b.Text.{Str}
use python_typescript_wiki_b.Errors.{database_error, Result, ok, raised}
use python_typescript_wiki_b.Db.{User, Session, Db, fits_varchar}
use python_typescript_wiki_b.Outside.{Env}
use python_typescript_wiki_b.App.{App, World, ◌>>=◌, observe, pure, run_sql, Statement}

-- `SessionRecord`
pub record SessionRecord : Type 0 where
  pub id : ℕ
  pub user_id : ℕ
  pub expires_at : ℕ
  pub revoked_at : Option ℕ

-- `_row_to_session`
unfoldable pub row_to_session : Session → SessionRecord
row_to_session row = record {
  id = row.id;
  user_id = row.user_id;
  expires_at = row.expires_at;
  revoked_at = row.revoked_at;
}

abbrev pub has_hash : Str → Session → Bool
has_hash token_hash row = same row.token_hash token_hash

unfoldable pub new_session : ℕ → ℕ → Str → ℕ → ℕ → Session
new_session session_id user_id token_hash expires_at now = record {
  id = session_id;
  user_id = user_id;
  token_hash = token_hash;
  expires_at = expires_at;
  revoked_at = none;
  created_at = now;
  updated_at = now;
}

-- The primary key, the unique index on the hash, its length, and the foreign key to `users`.
unfoldable pub admits_session : ℕ → ℕ → Str → Db → Bool
unfolding find? any
admits_session session_id user_id token_hash db =
    not (any (λ row. row.id == session_id) db.sessions)
    && not (any (has_hash token_hash) db.sessions)
    && fits_varchar 64 token_hash
    && any (λ u. u.id == user_id) db.users

unfoldable pub insert_session : ℕ → ℕ → Str → ℕ → Statement SessionRecord
unfolding admits_session new_session row_to_session
insert_session session_id user_id token_hash expires_at now db =
    let row = new_session session_id user_id token_hash expires_at now in
    if admits_session session_id user_id token_hash db
    then (ok (row_to_session row), record db { sessions = db.sessions ++ row ∷ [] })
    else (raised database_error, db)

unfoldable pub select_session : Str → Statement (Option SessionRecord)
unfolding find? row_to_session
select_session token_hash now db =
    (ok (Option.map row_to_session (find? (has_hash token_hash) db.sessions)), db)

-- `UPDATE sessions SET … WHERE token_hash = $1`
unfoldable pub update_where : Str → (Session → Session) → List Session → List Session
update_where token_hash set rows =
    map (λ row. if has_hash token_hash row then set row else row) rows

abbrev pub set_expiry : ℕ → ℕ → Session → Session
set_expiry expires_at now row = record row { expires_at = expires_at; updated_at = now }

unfoldable pub update_expiry_statement : Str → ℕ → ℕ → Statement (Option SessionRecord)
unfolding find? row_to_session update_where
update_expiry_statement token_hash expires_at now server_now db =
    let rows = update_where token_hash (set_expiry expires_at now) db.sessions in
    (
      ok (Option.map row_to_session (find? (has_hash token_hash) rows)),
      record db { sessions = rows },
    )

abbrev pub set_revoked : ℕ → Session → Session
set_revoked revoked_at row = record row { revoked_at = some revoked_at; updated_at = revoked_at }

unfoldable pub revoke_statement : Str → ℕ → Statement (Unit {0})
unfolding update_where
revoke_statement token_hash revoked_at now db =
    (ok tt, record db { sessions = update_where token_hash (set_revoked revoked_at) db.sessions })

module _ (env : Env) where
  unfoldable pub create_session : ℕ → ℕ → Str → ℕ → App SessionRecord
  create_session session_id user_id token_hash expires_at =
      run_sql env (insert_session session_id user_id token_hash expires_at)

  unfoldable pub get_by_token_hash : Str → App (Option SessionRecord)
  get_by_token_hash token_hash = run_sql env (select_session token_hash)

  unfoldable pub update_expiry : Str → ℕ → App (Option SessionRecord)
  update_expiry token_hash expires_at = do
    now ← observe env.clock
    run_sql env (update_expiry_statement token_hash expires_at now)

  unfoldable pub revoke : Str → ℕ → App (Unit {0})
  revoke token_hash revoked_at = run_sql env (revoke_statement token_hash revoked_at)
