-- ===== src/Services/Sessions/RoundTrip.antt =====
-- Logging in and then reading the session.

use python_typescript_wiki_b.Base.{
  ℕ, suc, ◌<◌, ◌≡◌, refl, sym, ap, ◌∙◌, false, none, some, arith, true, ltb, ◌==◌, find?,
}
use python_typescript_wiki_b.Text.{Str}
use python_typescript_wiki_b.Errors.{ok}
use python_typescript_wiki_b.Db.{Db}
use python_typescript_wiki_b.Outside.{Env}
use python_typescript_wiki_b.App.{World}
use python_typescript_wiki_b.Repositories.WellFormed.{IsWellFormed}
use python_typescript_wiki_b.Services.Auth.Verified.{auth_lem}
use python_typescript_wiki_b.Services.Sessions.{
  SessionData, SessionService, create_session, get_session,
}
use python_typescript_wiki_b.Services.Sessions.View.{
  view, user_of, data_of, hash_token_sound, get_session-eq-view,
}
use python_typescript_wiki_b.Services.Sessions.Created.{HasSession, create_session_lem}

some_injective : {A : Type 0} {a b : A} → some a ≡ some b → a ≡ b
some_injective h = cc

module _ (env : Env) where
  view-HasSession :
      (token : Str) (user_id moment now : ℕ) (db : Db)
      → HasSession env token user_id moment db
      → now < moment
      → view env token now db ≡ data_of (user_of user_id db) moment
  unfolding view
  view-HasSession token user_id moment now db s early =
      let (bytes, encoded, digest) = hash_token_sound env token s.hashed in
      let alive : ltb now s.row.expires_at ≡ true = ground (arith, s.expires) in
      rw (encoded, digest, s.found, s.unrevoked, alive, s.of_user, s.expires) refl

  -- On well-formed tables, with the session token of a login that returned, `get_session`, as long as
  -- the tables are those that the login left, the database answers and the clock reads less than the
  -- returned expiry, returns the same user and the same expiry.
  pub get_session-create_session :
      (service : SessionService) (token : Str) (w w' : World) {d : SessionData}
      (session_token : Str)
      → IsWellFormed w.db
      → create_session env service token w ≡ (ok d, w')
      → d.session_token ≡ some session_token
      → (later : World) → later.db ≡ w'.db
      → env.fault later.tick ≡ false
      → env.fault (suc (suc later.tick)) ≡ false
      → env.clock (suc later.tick) < d.expires_at
      → (get_session env service session_token later).0
        ≡ ok (record { user = d.user; expires_at = d.expires_at; session_token = none })
  get_session-create_session service token w w' {d} session_token v p returned later same_db f g
        early =
      let login = create_session_lem env service token w w' p in
      let (_, _, upsert) = auth_lem env service.tokens token w login.between v login.verified in
      let now = env.clock (suc later.tick) in
      let same_token : login.session_token ≡ session_token =
        some_injective (sym login.returned ∙ returned) in
      let row_there : user_of d.user.id w'.db ≡ some upsert.row =
        ap (find? (λ u. u.id == d.user.id)) login.users ∙ upsert.by_id in
      get_session-eq-view env service session_token later f g
      ∙ ap (view env session_token now) same_db
      ∙ ap (λ t. view env t now w'.db) (sym same_token)
      ∙ view-HasSession login.session_token d.user.id d.expires_at now w'.db login.session early
      ∙ ap (λ o. data_of o d.expires_at) row_there
      ∙ ap (λ u. ok (record { user = u; expires_at = d.expires_at; session_token = none }))
          (sym upsert.profile)
