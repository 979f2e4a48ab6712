-- ===== src/Services/Sessions/Held.antt =====
-- Which session a request holds that `get_session` of app/services/session_service.py has let pass.
use mathlib.Core.Option
use python_typescript_wiki_b.Base.{
  ℕ, suc, ◌<◌, ◌≡◌, refl, sym, ap, ◌∙◌, none, some, arith, ◌==◌, ==_iff, find?, Option,
}
use python_typescript_wiki_b.Base.Search.{find?-holds}
use python_typescript_wiki_b.Text.{Str, Bytes, hex}
use python_typescript_wiki_b.Errors.{ok}
use python_typescript_wiki_b.Db.{User, Session, Db}
use python_typescript_wiki_b.Outside.{Env}
use python_typescript_wiki_b.App.{World, raise}
use python_typescript_wiki_b.App.Laws.{>>=-eq-ok, pure-eq-ok, run_sql-eq-ok}
use python_typescript_wiki_b.Codec.Utf8.{utf8_encode}
use python_typescript_wiki_b.Repositories.Users.{UserProfile, profile_of, select_user, get_by_id}
use python_typescript_wiki_b.Repositories.Sessions.{SessionRecord, row_to_session}
use python_typescript_wiki_b.Repositories.Sessions.Rows.{row_of}
use python_typescript_wiki_b.Services.Sessions.{
  SessionData, SessionService, get_session_record, found_user, get_user, get_session,
}
use python_typescript_wiki_b.Services.Sessions.Lifecycle.{get_session_record_alive}
use python_typescript_wiki_b.Services.Sessions.View.{hash_token_sound}
use python_typescript_wiki_b.Services.Keeps.{get_session-Keeps}

-- The session of a token at a reading of the clock: the row of the token's digest, not revoked, and
-- with its end to come.
pub record IsSessionAt (env : Env) (token : Str) (now : ℕ) (db : Db) : Type 0 where
  pub bytes : Bytes
  pub encoded : utf8_encode token ≡ some bytes
  pub row : Session
  pub found : row_of (hex (env.crypto.sha256 bytes)) db ≡ some row
  pub unrevoked : row.revoked_at ≡ none
  pub alive : now < row.expires_at

module _ (env : Env) where
  found_user_sound :
      (o : Option User) (id : ℕ) (w w' : World) {user : UserProfile}
      → ((u : User) → o ≡ some u → u.id ≡ id)
      → found_user env (Option.map profile_of o) w ≡ (ok user, w')
      → user.id ≡ id
  unfolding raise profile_of
  found_user_sound none id w w' there h = absurd (cc)
  found_user_sound (some u) id w w' there h =
      sym (ap (λ p. p.id) (pure-eq-ok (profile_of u) w h).0) ∙ there u refl

  get_user_sound :
      (r : SessionRecord) (w w' : World) {user : UserProfile}
      → get_user env r w ≡ (ok user, w')
      → user.id ≡ r.user_id
  unfolding get_user get_by_id select_user
  get_user_sound r w w' {user} h =
      let (o, w1, selecting, finding) = >>=-eq-ok (get_by_id env r.user_id) _ w h in
      let (done, _, _) = run_sql-eq-ok env (select_user r.user_id) w selecting in
      found_user_sound (find? (λ u. u.id == r.user_id) w.db.users) r.user_id w1 w' {user = user}
        (λ u e. (==_iff u.id r.user_id).0 (find?-holds (λ v. v.id == r.user_id) w.db.users u e))
        (ground (arith, done, finding))

  -- A request that `get_session` has let pass holds a session of its tables, and acts for the user of
  -- that session.
  pub get_session-IsSessionAt :
      (service : SessionService) (token : Str) (w w' : World) {d : SessionData}
      → get_session env service token w ≡ (ok d, w')
      → (s : IsSessionAt env token (env.clock (suc w.tick)) w.db) × (d.user.id ≡ s.row.user_id)
  unfolding get_session row_to_session
  get_session-IsSessionAt service token w w' h =
      let (r, w1, recorded, h1) = >>=-eq-ok (get_session_record env token) _ w h in
      let (user, w2, reading, ended) = >>=-eq-ok (get_user env r) _ w1 h1 in
      let (live, _, alive) = get_session_record_alive env token w w1 recorded in
      let (bytes, encoded, digest) = hash_token_sound env token live.hashed in
      (
        record {
          bytes = bytes;
          encoded = encoded;
          row = live.row;
          found = rw digest live.found;
          unrevoked = live.unrevoked;
          alive = alive;
        },
        sym (ap (λ d. d.user.id) (pure-eq-ok _ w2 ended).0)
            ∙ get_user_sound r w1 w2 reading
            ∙ ap (λ x. x.user_id) live.recorded,
      )

  pub db-get_session :
      (service : SessionService) (token : Str) (w w' : World) {d : SessionData}
      → get_session env service token w ≡ (ok d, w')
      → w'.db ≡ w.db
  db-get_session service token w w' h =
      sym (ap (λ x. x.1.db) h)
      ∙ (get_session-Keeps {P = λ db. db ≡ w.db} env service token).at w refl
