-- ===== src/Services/Sessions/Created.antt =====
-- What logging in and refreshing leave behind for the session's token.

use python_typescript_wiki_b.Base.{
  ℕ, suc, ◌≡◌, refl, sym, ap, subst, ◌∙◌, ◌≢◌, Bool, true, none, some, ◌==◌, any,
}
use python_typescript_wiki_b.Base.Int.{ℤ}
use python_typescript_wiki_b.Text.{Str}
use python_typescript_wiki_b.Errors.{ok, ok-injective}
use python_typescript_wiki_b.Db.{Session, Db}
use python_typescript_wiki_b.Outside.{Env}
use python_typescript_wiki_b.App.{
  App, World, after, internal, lift, observe, pure, or_raise, ◌>>=◌, ◌>>◌, add_seconds,
}
use python_typescript_wiki_b.App.Laws.{
  >>=-eq-ok, lift-eq-ok, observe-eq-ok, pure-eq-ok, or_raise-eq-ok,
}
use python_typescript_wiki_b.Repositories.Users.{UserProfile}
use python_typescript_wiki_b.Repositories.Sessions as SessionRepo
use python_typescript_wiki_b.Repositories.Sessions.{
  SessionRecord, row_to_session, set_expiry, update_expiry, insert_session, new_session,
}
use python_typescript_wiki_b.Repositories.Sessions.Rows.{
  row_of, create_session-eq-ok, row_of-insert_session, row_of-insert_session_ne, insert_session-db,
  insert_session-user,
}
use python_typescript_wiki_b.Services.Auth.{verify_token}
use python_typescript_wiki_b.Services.Sessions.{
  SessionData, SessionService, hash_token, expires_at, create_session,
}

module _ (env : Env) (ttl : ℤ) where
  -- `_expires_at` adds the TTL to its reading of the clock.
  pub expires_at-eq-ok :
      (w w' : World) {moment : ℕ}
      → expires_at env ttl w ≡ (ok moment, w')
      → (add_seconds (env.clock w.tick) ttl ≡ ok moment) × (w' ≡ after w)
  unfolding expires_at
  expires_at-eq-ok w w' {moment} h =
      let (now, w1, read, lifted) = >>=-eq-ok (observe env.clock) _ w h in
      let (at_clock, moved) = observe-eq-ok env.clock w read in
      let (added, stay) = lift-eq-ok _ w1 lifted in
      (subst (λ n. add_seconds n ttl ≡ ok moment) (sym at_clock) added, stay ∙ moved)

-- The row that a token has in the tables: not revoked, of this user, with this expiry.
pub record HasSession (env : Env) (token : Str) (user_id moment : ℕ) (db : Db) : Type 0 where
  pub hash : Str
  pub hashed : hash_token env token ≡ ok hash
  pub row : Session
  pub found : row_of hash db ≡ some row
  pub unrevoked : row.revoked_at ≡ none
  pub of_user : row.user_id ≡ user_id
  pub expires : row.expires_at ≡ moment

module _ (env : Env) (service : SessionService) where
  abbrev keep_session : UserProfile → Str → Str → ℕ → App SessionData
  keep_session user t h moment = do
    or_raise internal do id ← observe env.uuid; SessionRepo.create_session env id user.id h moment
    pure (record { user = user; expires_at = moment; session_token = some t })

  -- The tail of `create_session`, from where the hash and the expiry are known.
  keep_session_lem :
      (user : UserProfile) (t h : Str) (moment : ℕ) (w w' : World) {d : SessionData}
      → hash_token env t ≡ ok h
      → keep_session user t h moment w ≡ (ok d, w')
      → (record { user = user; expires_at = moment; session_token = some t } ≡ d)
        × HasSession env t user.id moment w'.db
        × (any (λ u. u.id == user.id) w.db.users ≡ true)
        × (w'.db.users ≡ w.db.users)
        × ((other : Str) → other ≢ h → row_of other w'.db ≡ row_of other w.db)
  keep_session_lem user t h moment w w' hashed p =
      let (r, w1, storing, ended) = >>=-eq-ok (or_raise internal _) _ w p in
      let (result, stay) = pure-eq-ok _ w1 ended in
      let (id, w2, drawing, inserting) =
        >>=-eq-ok (observe env.uuid) _ w (or_raise-eq-ok internal _ w storing) in
      let (_, moved) = observe-eq-ok env.uuid w drawing in
      let inserted = create_session-eq-ok env h w2 w1 id user.id moment inserting in
      let now = env.db_clock w2.tick in
      let same_db : w2.db ≡ w.db = ap (λ v. v.db) moved in
      let end_db : w'.db ≡ w1.db = ap (λ v. v.db) stay in
      let written = insert_session-db id user.id h moment now w2.db w1.db inserted in
      (
        result,
        record {
          hash = h;
          hashed = hashed;
          row = new_session id user.id h moment now;
          found =
              ap (row_of h) end_db
              ∙ row_of-insert_session id user.id h moment now w2.db w1.db inserted;
          unrevoked = unfold new_session in refl;
          of_user = unfold new_session in refl;
          expires = unfold new_session in refl;
        },
        subst (λ db. any (λ u. u.id == user.id) db.users ≡ true) same_db
            (insert_session-user id user.id h moment now w2.db w1.db inserted),
        ap (λ db. db.users) end_db ∙ ap (λ db. db.users) written ∙ ap (λ db. db.users) same_db,
        λ other ne.
            ap (row_of other) end_db
            ∙ row_of-insert_session_ne id user.id h moment now w2.db w1.db inserted other ne
            ∙ ap (row_of other) same_db,
      )

  -- A login that succeeded: the oauth token named the user, the session token is the secret that was
  -- drawn, its row is that user's and ends the TTL after a reading of the clock, and the rows of other
  -- tokens are as they were.
  pub record IsLogin (token : Str) (w w' : World) (d : SessionData) : Type 0 where
    pub session_token : Str
    pub returned : d.session_token ≡ some session_token
    pub session : HasSession env session_token d.user.id d.expires_at w'.db
    pub created : Bool
    pub between : World
    pub verified : verify_token env service.tokens token w ≡ (ok (d.user, created), between)
    pub drawn : session_token ≡ env.secret between.tick
    pub timed : add_seconds (env.clock (suc between.tick)) service.ttl_seconds ≡ ok d.expires_at
    pub has_user : any (λ u. u.id == d.user.id) between.db.users ≡ true
    pub users : w'.db.users ≡ between.db.users
    pub others : (other : Str) → other ≢ session.hash → row_of other w'.db ≡ row_of other between.db

  -- Whatever the token and the tables, when `create_session` returns, the oauth token was verified
  -- and named the returned user, the returned session token is the secret that was drawn, its hash
  -- has a row in the tables, not revoked, of that user and with the returned expiry, which is the
  -- TTL after a reading of the clock, and the users and the rows of other hashes are as they were
  -- behind the verification.
  pub create_session_lem :
      (token : Str) (w w' : World) {d : SessionData}
      → create_session env service token w ≡ (ok d, w')
      → IsLogin token w w' d
  unfolding create_session
  create_session_lem token w w' p =
      let ((user, created), w1, verifying, after_user) =
        >>=-eq-ok (verify_token env service.tokens token) _ w p in
      let (t, w2, drawing, after_secret) = >>=-eq-ok (observe env.secret) _ w1 after_user in
      let (drawn, moved) = observe-eq-ok env.secret w1 drawing in
      let (h, w3, hashing, after_hash) = >>=-eq-ok (lift (hash_token env t)) _ w2 after_secret in
      let (hashed, stay) = lift-eq-ok _ w2 hashing in
      let (moment, w4, timing, storing) =
        >>=-eq-ok (expires_at env service.ttl_seconds) _ w3 after_hash in
      let (timed, moved') = expires_at-eq-ok env service.ttl_seconds w3 w4 timing in
      let (result, session, has_user, users, others) =
        keep_session_lem user t h moment w4 w' hashed storing in
      let same_db : w4.db ≡ w1.db =
        ap (λ v. v.db) moved' ∙ ap (λ v. v.db) stay ∙ ap (λ v. v.db) moved in
      let clock_tick : w3.tick ≡ suc w1.tick = ap (λ v. v.tick) stay ∙ ap (λ v. v.tick) moved in
      subst (IsLogin token w w') result (record {
        session_token = t;
        returned = refl;
        session = session;
        created = created;
        between = w1;
        verified = verifying;
        drawn = sym drawn;
        timed =
            subst (λ n. add_seconds (env.clock n) service.ttl_seconds ≡ ok moment) clock_tick timed;
        has_user = subst (λ db. any (λ u. u.id == user.id) db.users ≡ true) same_db has_user;
        users = users ∙ ap (λ db. db.users) same_db;
        others = λ other ne.
            others other (λ e. ne (e ∙ ok-injective (sym hashed ∙ session.hashed)))
            ∙ ap (row_of other) same_db;
      })
