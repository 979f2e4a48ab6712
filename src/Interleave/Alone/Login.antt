-- ===== src/Interleave/Alone/Login.antt =====
-- A login over HTTP, from app/main.py down to the tables, and the session that it opens.
use python_typescript_wiki_b.Base.{
  suc, ◌<◌, ◌≡◌, sym, ap, subst, ◌∙◌, Bool-cases, inl, inr, false, Option, none, some, arith,
}
use python_typescript_wiki_b.Text.{Str, strip, is_empty}
use python_typescript_wiki_b.Errors.{ok, ok-injective}
use python_typescript_wiki_b.Outside.{Env}
use python_typescript_wiki_b.App.{World, raise}
use python_typescript_wiki_b.App.Laws.{>>=-eq-ok, pure-eq-ok}
use python_typescript_wiki_b.Repositories.WellFormed.{IsWellFormed}
use python_typescript_wiki_b.Services.Sessions
use python_typescript_wiki_b.Services.Sessions.{SessionData, SessionService}
use python_typescript_wiki_b.Services.Sessions.RoundTrip.{get_session-create_session}
use python_typescript_wiki_b.Api.Http as Http
use python_typescript_wiki_b.Api.Http.{Request, Body, Response, success, body_field}
use python_typescript_wiki_b.Api.Http.Checked.{db-body_field}
use python_typescript_wiki_b.Api.Http.Pipeline.{
  trace_of, conclude, serve_lem, conclude-success, db-trace_of,
}
use python_typescript_wiki_b.Api.Auth.{token_user, stripped_token}
use python_typescript_wiki_b.Api.Sessions.{SessionCreateResponse, created, create_session}
use python_typescript_wiki_b.Api.History.{post_session}
use python_typescript_wiki_b.Interleave.Prog.{exec}
use python_typescript_wiki_b.Interleave.Server.{login_reply, task, answer}
use python_typescript_wiki_b.Interleave.Alone.{exec-task}

created_sound :
    (d : SessionData) (o : Option Str) (w w' : World) {b : SessionCreateResponse}
    → created d o w ≡ (ok b, w')
    → (o ≡ some b.session_token)
      × (d.expires_at ≡ b.expires_at)
      × (token_user d.user ≡ b.user)
      × (w' ≡ w)
unfolding raise
created_sound d none w w' h = absurd (cc)
created_sound d (some t) w w' h =
    let (made, stay) = pure-eq-ok _ w h in
    (ap (λ b. some b.session_token) made, ap (λ b. b.expires_at) made, ap (λ b. b.user) made, stay)

stripped_token-world :
    (raw : Str) (w w' : World) {t : Str} → stripped_token raw w ≡ (ok t, w') → w' ≡ w
unfolding stripped_token raise
stripped_token-world raw w w' h = elim (Bool-cases (is_empty (strip raw))) [
  | inl e ↦ absurd (ground (arith, e, h))
  | inr e ↦ (pure-eq-ok (strip raw) w (rw e at h)).1
]

login_reply-injective :
    {r s : Response SessionCreateResponse} → login_reply r ≡ login_reply s → r ≡ s
login_reply-injective h = cc

module _ (env : Env) (service : SessionService) where
  -- The route has called the service, and made the body of what it returned.
  route_sound :
      (body : Body) (w w' : World) {b : SessionCreateResponse}
      → create_session env service body w ≡ (ok b, w')
      → (token : Str) × (start : World) × (d : SessionData) × (start.db ≡ w.db)
        × (Sessions.create_session env service token start ≡ (ok d, w'))
        × (d.session_token ≡ some b.session_token)
        × (d.expires_at ≡ b.expires_at)
        × (token_user d.user ≡ b.user)
  unfolding create_session
  route_sound body w w' h =
      let (raw, w1, read, h1) = >>=-eq-ok (body_field env 1 none body) _ w h in
      let (token, w2, cut, h2) = >>=-eq-ok (stripped_token raw) _ w1 h1 in
      let (d, w3, login, h3) = >>=-eq-ok (Sessions.create_session env service token) _ w2 h2 in
      let (returned, moment, user, stay) = created_sound d d.session_token w3 w' h3 in
      (
        token,
        w2,
        d,
        ap (λ x. x.db) (stripped_token-world raw w1 w2 cut)
            ∙ db-body_field env 1 none body w w1 read,
        login ∙ ap (λ x. (ok d, x)) (sym stay),
        returned,
        moment,
        user,
      )

  module _ (request : Request) (body : Body) where
    -- A task that answers with a value has run the route to that value.
    task_sound :
        (w w' : World) {response : Response SessionCreateResponse} {b : SessionCreateResponse}
        → exec env (task env service request (post_session body)) w
          ≡ (ok (login_reply response), w')
        → response.content ≡ success b
        → (start : World) × (start.db ≡ w.db) × (create_session env service body start ≡ (ok b, w'))
    unfolding answer
    task_sound w w' {response} {b} h content =
        let answered = sym (exec-task env service request (post_session body) w).0 ∙ h in
        let route = create_session env service body in
        let (made, w1, served, ended) = >>=-eq-ok (Http.serve env request 200 route) _ w answered in
        let (named, stay) = pure-eq-ok (login_reply made) w1 ended in
        let start = (trace_of env request w).1 in
        let t = (trace_of env request w).0 in
        let concluded = sym (serve_lem env request 200 route w) ∙ served in
        let response_eq : (conclude env 200 t (route start).0 (route start).1).0 ≡ response =
          ok-injective (ap (λ x. x.0) concluded) ∙ login_reply-injective named in
        let (value, last) =
          conclude-success env 200 t (route start).0 (route start).1
            (ap (λ r. r.content) response_eq ∙ content) in
        let end : (route start).1 ≡ w' = sym last ∙ ap (λ x. x.1) concluded ∙ sym stay in
        (start, db-trace_of env request w, λ i. (value i, end i))

    -- On well-formed tables, when the task of `POST /session`, run from its arrival to its response
    -- without interruption, answers with a body, then the session token of that body, as long as the
    -- tables are those that the task left, the database answers and the clock reads less than the
    -- body's expiry, is that of a session: `get_session` returns it, with the body's expiry, and with
    -- a user who has the telegram id, the name and the times of the body's user.
    pub get_session-login_task :
        (w w' : World) {response : Response SessionCreateResponse} (b : SessionCreateResponse)
        → IsWellFormed w.db
        → exec env (task env service request (post_session body)) w
          ≡ (ok (login_reply response), w')
        → response.content ≡ success b
        → (later : World) → later.db ≡ w'.db
        → env.fault later.tick ≡ false
        → env.fault (suc (suc later.tick)) ≡ false
        → env.clock (suc later.tick) < b.expires_at
        → (d : SessionData) × ((Sessions.get_session env service b.session_token later).0 ≡ ok d)
          × (d.expires_at ≡ b.expires_at)
          × (b.user ≡ record {
            telegram_id = d.user.telegram_id;
            username = d.user.username;
            created_at = d.user.created_at;
            last_login_at = d.user.last_login_at;
          })
    unfolding token_user
    get_session-login_task w w' b v h content later same_db f g early =
        let (start, start_db, routed) = task_sound w w' h content in
        let (token, begin, d, begin_db, login, returned, moment, user) =
          route_sound body start w' routed in
        (
          record { user = d.user; expires_at = d.expires_at; session_token = none },
          get_session-create_session env service token begin w' b.session_token
              (subst IsWellFormed (sym (begin_db ∙ start_db)) v) login returned later same_db f g
              (subst (λ n. env.clock (suc later.tick) < n) (sym moment) early),
          moment,
          sym user,
        )
