-- ===== src/Services/Sessions/Lifecycle.antt =====
-- The life of a session: what each successful operation finds in the tables, and what the tables say
-- of its token afterwards.
use mathlib.Core.Option
use python_typescript_wiki_b.Base.{
  ℕ, suc, ◌<◌, ◌≡◌, refl, sym, ap, subst, ◌∙◌, ◌≢◌, Option, none, some, arith,
}
use mathlib.Core.Path.{subst₂}
use python_typescript_wiki_b.Text.{Str}
use python_typescript_wiki_b.Errors.{Result, ok, ok-injective}
use python_typescript_wiki_b.Db.{Session, Db}
use python_typescript_wiki_b.Outside.{Env}
use python_typescript_wiki_b.App.{World, internal, lift, observe, raise}
use python_typescript_wiki_b.App.Laws.{
  >>=-eq-ok, lift-eq-ok, observe-eq-ok, pure-eq-ok, or_raise-eq-ok, run_sql-eq-ok,
}
use python_typescript_wiki_b.Repositories.Sessions.{
  SessionRecord, row_to_session, get_by_token_hash, select_session, set_revoked,
}
use python_typescript_wiki_b.Repositories.Sessions.Rows.{
  row_of, row_of-update_where, row_of-update_where_ne, users-update_where, get_by_token_hash-eq-ok,
  revoke-eq-ok,
}
use python_typescript_wiki_b.Services.Sessions.{
  SessionService, hash_token, judge_record, ensure_active, found_active, get_session_record,
  revoke_session,
}
use python_typescript_wiki_b.Services.Keeps.{get_session_record-Keeps}

-- The row of a token that has passed `_get_session_record` at some moment.
pub record IsLive (env : Env) (token : Str) (db : Db) (r : SessionRecord) : Type 0 where
  pub hash : Str
  pub hashed : hash_token env token ≡ ok hash
  pub row : Session
  pub found : row_of hash db ≡ some row
  pub recorded : r ≡ row_to_session row
  pub unrevoked : row.revoked_at ≡ none

module _ (env : Env) where
  judge_record_sound :
      (row : Session) (now : ℕ) {u : Unit {0}}
      → judge_record (row_to_session row) now ≡ ok u
      → (row.revoked_at ≡ none) × (now < row.expires_at)
  unfolding judge_record row_to_session
  judge_record_sound row now h = (ground arith, ground arith)

  found_active_sound :
      (o : Option Session) (w w' : World) {r : SessionRecord}
      → found_active env (Option.map row_to_session o) w ≡ (ok r, w')
      → (row : Session) × (o ≡ some row)
        × (r ≡ row_to_session row)
        × (row.revoked_at ≡ none)
        × (env.clock w.tick < row.expires_at)
  unfolding ensure_active raise
  found_active_sound none w w' h = absurd (cc)
  found_active_sound (some row) w w' h =
      let (_, w1, judged, ended) = >>=-eq-ok (ensure_active env (row_to_session row)) _ w h in
      let (now, w2, read, lifted) = >>=-eq-ok (observe env.clock) _ w judged in
      let (passed, _) = lift-eq-ok _ w2 lifted in
      let (at_clock, _) = observe-eq-ok env.clock w read in
      let (unrevoked, alive) = judge_record_sound row now passed in
      (row, refl, sym (pure-eq-ok _ w1 ended).0, unrevoked, rw at_clock alive)

  -- A record that is read has a row, which ends later than the clock read behind the statement.
  pub get_session_record_alive :
      (token : Str) (w w' : World) {r : SessionRecord}
      → get_session_record env token w ≡ (ok r, w')
      → (live : IsLive env token w.db r) × (w'.db ≡ w.db)
        × (env.clock (suc w.tick) < live.row.expires_at)
  unfolding get_session_record get_by_token_hash
  get_session_record_alive token w w' h =
      let (hash, w1, hashing, after_hash) = >>=-eq-ok (lift (hash_token env token)) _ w h in
      let (hashed, stay) = lift-eq-ok _ w hashing in
      let (o, w2, selecting, checking) = >>=-eq-ok (get_by_token_hash env hash) _ w1 after_hash in
      let (record_eq, _) = get_by_token_hash-eq-ok env hash w1 w2 selecting in
      let (_, _, ticked) = run_sql-eq-ok env (select_session hash) w1 selecting in
      let at_clock : w2.tick ≡ suc w.tick = ticked ∙ ap (λ x. suc x.tick) stay in
      let (row, found, recorded, unrevoked, alive) =
        found_active_sound (row_of hash w1.db) w2 w' (rw record_eq checking) in
      (
        record {
          hash = hash;
          hashed = hashed;
          row = row;
          found = subst (λ v. row_of hash v.db ≡ some row) stay found;
          recorded = recorded;
          unrevoked = unrevoked;
        },
        ap (λ (x : Result SessionRecord × World). x.1.db) (sym h)
            ∙ (get_session_record-Keeps {P = λ db. db ≡ w.db} env token).at w refl,
        subst (λ n. env.clock n < row.expires_at) at_clock alive,
      )

  pub get_session_record_sound :
      (token : Str) (w w' : World) {r : SessionRecord}
      → get_session_record env token w ≡ (ok r, w')
      → IsLive env token w.db r × (w'.db ≡ w.db)
  get_session_record_sound token w w' h =
      let (live, stay, _) = get_session_record_alive token w w' h in (live, stay)

-- A session that was logged out: its row is there, and revoked.
pub record IsRevoked (hash : Str) (db : Db) : Type 0 where
  pub row : Session
  pub found : row_of hash db ≡ some row
  pub moment : ℕ
  pub revoked : row.revoked_at ≡ some moment

module _ (env : Env) (service : SessionService) (token : Str) where
  -- After a successful logout the row of the token's hash is revoked, and the rows of other hashes
  -- are as they were.
  pub revoke_session_lem :
      (w w' : World) {u : Unit {0}}
      → revoke_session env service token w ≡ (ok u, w')
      → (hash : Str) × (hash_token env token ≡ ok hash)
        × IsRevoked hash w'.db
        × ((other : Str) → other ≢ hash → row_of other w'.db ≡ row_of other w.db)
        × (w'.db.users ≡ w.db.users)
  unfolding revoke_session
  revoke_session_lem w w' h =
      let (r, w1, recording, after_record) = >>=-eq-ok (get_session_record env token) _ w h in
      let (live, stay) = get_session_record_sound env token w w1 recording in
      let (now, w2, reading, after_clock) = >>=-eq-ok (observe env.clock) _ w1 after_record in
      let (_, moved) = observe-eq-ok env.clock w1 reading in
      let (hash, w3, hashing, revoking) =
        >>=-eq-ok (lift (hash_token env token)) _ w2 (or_raise-eq-ok internal _ w2 after_clock) in
      let (hashed, stay') = lift-eq-ok _ w2 hashing in
      let same_db : w3.db ≡ w.db = ap (λ v. v.db) stay' ∙ ap (λ v. v.db) moved ∙ stay in
      let written = revoke-eq-ok env hash w3 w' now revoking in
      let same_hash : live.hash ≡ hash = ok-injective (sym live.hashed ∙ hashed) in
      let found : row_of hash w3.db ≡ some live.row =
        subst₂ (λ k db. row_of k db ≡ some live.row) same_hash (sym same_db) live.found in
      (
        hash,
        hashed,
        record {
          row = set_revoked now live.row;
          found =
              row_of-update_where hash (set_revoked now) (λ r. refl) w3.db w'.db written live.row
                found;
          moment = now;
          revoked = refl;
        },
        λ other ne.
            row_of-update_where_ne hash (set_revoked now) (λ r. refl) w3.db w'.db written other ne
            ∙ ap (row_of other) same_db,
        users-update_where hash (set_revoked now) (λ r. refl) w3.db w'.db written
            ∙ ap (λ db. db.users) same_db,
      )
