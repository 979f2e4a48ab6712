-- ===== src/Services/Sessions/Refreshed.antt =====
-- What a refresh leaves behind for the session's token.
use mathlib.Core.Path.{subst₂}
use python_typescript_wiki_b.Base.{ℕ, ◌≡◌, ◌≢◌, refl, sym, ap, subst, ◌∙◌, some, none}
use python_typescript_wiki_b.Text.{Str}
use python_typescript_wiki_b.Errors.{ok, ok-injective}
use python_typescript_wiki_b.Outside.{Env}
use python_typescript_wiki_b.App.{App, World, internal, lift, or_raise, add_seconds}
use python_typescript_wiki_b.App.Laws.{Keeps, >>=-eq-ok, lift-eq-ok, pure-eq-ok, or_raise-eq-ok}
use python_typescript_wiki_b.Repositories.Sessions.{SessionRecord, set_expiry}
use python_typescript_wiki_b.Repositories.Sessions.Rows.{
  row_of, row_of-update_where, row_of-update_where_ne, users-update_where, update_expiry-eq-ok,
}
use python_typescript_wiki_b.Services.Sessions.{
  SessionData, SessionService, hash_token, get_session_record, get_user, renewed, expires_at,
  refresh_session,
}
use python_typescript_wiki_b.Services.Sessions.Lifecycle.{IsLive, get_session_record_sound}
use python_typescript_wiki_b.Services.Sessions.Created.{HasSession, expires_at-eq-ok}
use python_typescript_wiki_b.Services.Keeps.{get_user-Keeps, renewed-Keeps}

-- An action that keeps every property of the tables leaves them alone.
kept :
    {A : Type 0} (m : App A) (w : World) {a : A} {w' : World}
    → Keeps (λ db. db ≡ w.db) m
    → m w ≡ (ok a, w')
    → w'.db ≡ w.db
kept m w k h = ap (λ x. x.1.db) (sym h) ∙ k.at w refl

module _ (env : Env) (service : SessionService) where
  -- A refresh that succeeded: the token had a row that was not revoked, the same row now ends the TTL
  -- after a reading of the clock, and the rows of other tokens and the users are as they were.
  pub record IsRefresh (token : Str) (w w' : World) (d : SessionData) : Type 0 where
    pub record_ : SessionRecord
    pub live : IsLive env token w.db record_
    pub session : HasSession env token live.row.user_id d.expires_at w'.db
    pub moment : ℕ
    pub timed : add_seconds (env.clock moment) service.ttl_seconds ≡ ok d.expires_at
    pub users : w'.db.users ≡ w.db.users
    pub others : (other : Str) → other ≢ live.hash → row_of other w'.db ≡ row_of other w.db
    pub no_token : d.session_token ≡ none

  -- Whatever the token and the tables, when `refresh_session` returns, the token's hash had a row
  -- that was not revoked; the same user's row ends at the returned expiry, which is the TTL after a
  -- reading of the clock, and is not revoked; the users and the rows of other hashes are as they
  -- were, and no session token is returned.
  pub refresh_session_lem :
      (token : Str) (w w' : World) {d : SessionData}
      → refresh_session env service token w ≡ (ok d, w')
      → IsRefresh token w w' d
  unfolding refresh_session
  refresh_session_lem token w w' {d} p =
      let (r, w1, recording, after_record) = >>=-eq-ok (get_session_record env token) _ w p in
      let (live, stay1) = get_session_record_sound env token w w1 recording in
      let (moment, w2, timing, after_time) =
        >>=-eq-ok (expires_at env service.ttl_seconds) _ w1 after_record in
      let (timed, moved) = expires_at-eq-ok env service.ttl_seconds w1 w2 timing in
      let (updated, w3, updating, after_update) = >>=-eq-ok (or_raise internal _) _ w2 after_time in
      let (hash, w4, hashing, writing) =
        >>=-eq-ok (lift (hash_token env token)) _ w2 (or_raise-eq-ok internal _ w2 updating) in
      let (hashed, stay2) = lift-eq-ok _ w2 hashing in
      let written = update_expiry-eq-ok env hash w4 w3 moment writing in
      let (_, w5, renewing, after_renew) = >>=-eq-ok (renewed env updated) _ w3 after_update in
      let (user, w6, reading, ended) = >>=-eq-ok (get_user env r) _ w5 after_renew in
      let (result, stay3) = pure-eq-ok _ w6 ended in
      let same_db : w4.db ≡ w.db = ap (λ x. x.db) stay2 ∙ ap (λ x. x.db) moved ∙ stay1 in
      let end_db : w'.db ≡ w3.db =
        ap (λ x. x.db) stay3
        ∙ kept (get_user env r) w5 (get_user-Keeps env r) reading
        ∙ kept (renewed env updated) w3 (renewed-Keeps env updated) renewing in
      let now = env.clock w4.tick in
      let same_hash : live.hash ≡ hash = ok-injective (sym live.hashed ∙ hashed) in
      let before : row_of hash w4.db ≡ some live.row =
        subst₂ (λ k db. row_of k db ≡ some live.row) same_hash (sym same_db) live.found in
      subst (IsRefresh token w w') result (record {
        record_ = r;
        live = live;
        session = record {
          hash = hash;
          hashed = hashed;
          row = set_expiry moment now live.row;
          found =
              ap (row_of hash) end_db
              ∙ row_of-update_where hash (set_expiry moment now) (λ s. refl) w4.db w3.db written
                  live.row before;
          unrevoked = live.unrevoked;
          of_user = refl;
          expires = refl;
        };
        moment = w1.tick;
        timed = timed;
        users =
            ap (λ db. db.users) end_db
            ∙ users-update_where hash (set_expiry moment now) (λ s. refl) w4.db w3.db written
            ∙ ap (λ db. db.users) same_db;
        others = λ other ne.
            ap (row_of other) end_db
            ∙ row_of-update_where_ne hash (set_expiry moment now) (λ s. refl) w4.db w3.db written
                other (λ e. ne (e ∙ sym same_hash))
            ∙ ap (row_of other) same_db;
        no_token = refl;
      })
