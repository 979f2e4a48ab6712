-- ===== src/Repositories/Sessions/Rows.antt =====
-- What the statements of the session table do to the row of a hash, and to the rows of others.
use mathlib.Core.Option
use python_typescript_wiki_b.Base.{
  ℕ, ◌≡◌, refl, ◌∙◌, ◌≢◌, true, false, Option, some, List, [], ◌∷◌, ◌++◌, arith, ◌==◌, same_iff,
  same_refl, find?, any,
}
use python_typescript_wiki_b.Base.Search.{
  find?-append_none, find?-none_of_any, find?-one, find?-append_one_ne,
}
use python_typescript_wiki_b.Text.{Str}
use python_typescript_wiki_b.Errors.{ok}
use python_typescript_wiki_b.Db.{Session, Db}
use python_typescript_wiki_b.Outside.{Env}
use python_typescript_wiki_b.App.{World, observe}
use python_typescript_wiki_b.App.Laws.{>>=-eq-ok, observe-eq-ok, run_sql-eq-ok}
use python_typescript_wiki_b.Repositories.Sessions.{
  SessionRecord, row_to_session, has_hash, new_session, admits_session, insert_session,
  update_where, select_session, set_expiry, update_expiry_statement, set_revoked, revoke_statement,
  create_session, get_by_token_hash, update_expiry, revoke,
}

-- The row of a hash.
abbrev pub row_of : Str → Db → Option Session
row_of h db = find? (has_hash h) db.sessions

module _ (h : Str) (set : Session → Session)
    (keeps : (r : Session) → (set r).token_hash ≡ r.token_hash) where
  -- An update by a hash maps the row of the hash.
  pub find?-update_where :
      (rows : List Session)
      → find? (has_hash h) (update_where h set rows) ≡ Option.map set (find? (has_hash h) rows)
  unfolding update_where find?
  find?-update_where [] = refl
  find?-update_where (r ∷ rows) = ground (arith, keeps r, find?-update_where rows)

  -- It leaves the row of another hash alone.
  pub find?-update_where_ne :
      (other : Str)
      → other ≢ h
      → (rows : List Session)
      → find? (has_hash other) (update_where h set rows) ≡ find? (has_hash other) rows
  unfolding update_where find?
  find?-update_where_ne other ne [] = refl
  find?-update_where_ne other ne (r ∷ rows) = ground (
    arith,
    keeps r,
    same_iff r.token_hash h,
    same_iff r.token_hash other,
    find?-update_where_ne other ne rows,
  )

  module _ (db db' : Db)
      (written : db' ≡ record db { sessions = update_where h set db.sessions }) where
    pub row_of-update_where :
        (row : Session) → row_of h db ≡ some row → row_of h db' ≡ some (set row)
    row_of-update_where row found = rw (written, find?-update_where db.sessions, found) refl

    pub row_of-update_where_ne : (other : Str) → other ≢ h → row_of other db' ≡ row_of other db
    row_of-update_where_ne other ne = rw written (find?-update_where_ne other ne db.sessions)

    pub users-update_where : db'.users ≡ db.users
    users-update_where = rw written refl

-- A session that is inserted is the row of its hash, and the other rows are as they were.
module _ (id user_id : ℕ) (h : Str) (expires now : ℕ) (db db' : Db) {r : SessionRecord}
    (inserted : insert_session id user_id h expires now db ≡ (ok r, db')) where
  pub insert_session-db :
      db' ≡ record db { sessions = db.sessions ++ new_session id user_id h expires now ∷ [] }
  unfolding insert_session
  insert_session-db = ground arith

  pub insert_session-admits : admits_session id user_id h db ≡ true
  unfolding insert_session
  insert_session-admits = ground arith

  insert_session-fresh : any (has_hash h) db.sessions ≡ false
  unfolding admits_session
  insert_session-fresh = ground (arith, insert_session-admits)

  pub insert_session-user : any (λ u. u.id == user_id) db.users ≡ true
  unfolding admits_session
  insert_session-user = ground (arith, insert_session-admits)

  pub row_of-insert_session : row_of h db' ≡ some (new_session id user_id h expires now)
  unfolding new_session
  row_of-insert_session = rw insert_session-db (
      find?-append_none (has_hash h) db.sessions _
        (find?-none_of_any (has_hash h) db.sessions insert_session-fresh)
      ∙ find?-one (has_hash h) _ (same_refl h))

  pub row_of-insert_session_ne : (other : Str) → other ≢ h → row_of other db' ≡ row_of other db
  unfolding new_session
  row_of-insert_session_ne other ne = rw insert_session-db (
      find?-append_one_ne (has_hash other) db.sessions (new_session id user_id h expires now)
        (ground (arith, same_iff h other)))

-- What a successful call of each method returns and leaves in the tables.
module _ (env : Env) (hash : Str) (w w' : World) where
  pub get_by_token_hash-eq-ok :
      {o : Option SessionRecord}
      → get_by_token_hash env hash w ≡ (ok o, w')
      → (Option.map row_to_session (row_of hash w.db) ≡ o) × (w'.db ≡ w.db)
  unfolding get_by_token_hash select_session
  get_by_token_hash-eq-ok h =
      let (done, _, _) = run_sql-eq-ok env (select_session hash) w h in (ground arith, ground arith)

  pub revoke-eq-ok :
      (moment : ℕ) {u : Unit {0}}
      → revoke env hash moment w ≡ (ok u, w')
      → w'.db ≡ record w.db { sessions = update_where hash (set_revoked moment) w.db.sessions }
  unfolding revoke revoke_statement
  revoke-eq-ok moment h =
      let (done, _, _) = run_sql-eq-ok env (revoke_statement hash moment) w h in ground arith

  pub update_expiry-eq-ok :
      (moment : ℕ) {o : Option SessionRecord}
      → update_expiry env hash moment w ≡ (ok o, w')
      → w'.db ≡ record w.db {
        sessions = update_where hash (set_expiry moment (env.clock w.tick)) w.db.sessions;
      }
  unfolding update_expiry update_expiry_statement
  update_expiry-eq-ok moment h =
      let (now, w1, read, ran) = >>=-eq-ok (observe env.clock) _ w h in
      let (at_clock, moved) = observe-eq-ok env.clock w read in
      let (done, _, _) = run_sql-eq-ok env (update_expiry_statement hash moment now) w1 ran in
      ground arith

  pub create_session-eq-ok :
      (id user_id moment : ℕ) {r : SessionRecord}
      → create_session env id user_id hash moment w ≡ (ok r, w')
      → insert_session id user_id hash moment (env.db_clock w.tick) w.db ≡ (ok r, w'.db)
  unfolding create_session
  create_session-eq-ok id user_id moment h =
      (run_sql-eq-ok env (insert_session id user_id hash moment) w h).0
