-- ===== src/Interleave/Exec.antt =====
-- A program that runs alone is the service or the route that it stands for.
pub mod Routes
use python_typescript_wiki_b.Base.{
  ℕ, ◌≡◌, refl, sym, ap, ◌∙◌, Option, none, some, if◌then◌else◌, true, false,
}
use python_typescript_wiki_b.Base.Int.{ℤ}
use python_typescript_wiki_b.Text.{Str, strip, is_empty}
use python_typescript_wiki_b.Errors.{Result, ok, raised, request_validation_error}
use python_typescript_wiki_b.Outside.{Env}
use python_typescript_wiki_b.App
use python_typescript_wiki_b.App.{internal, add_seconds}
use python_typescript_wiki_b.Token as Tokens
use python_typescript_wiki_b.Token.{TokenService, read_token, check_age}
use python_typescript_wiki_b.Repositories.Users.{UserProfile, get_by_id, upsert_user}
use python_typescript_wiki_b.Repositories.Sessions as SessionRepo
use python_typescript_wiki_b.Repositories.Sessions.{
  SessionRecord, get_by_token_hash, update_expiry, revoke,
}
use python_typescript_wiki_b.Services.Auth
use python_typescript_wiki_b.Services.Sessions
use python_typescript_wiki_b.Services.Sessions.{
  SessionService, SessionData, hash_token, judge_record,
}
use python_typescript_wiki_b.Api.Http
use python_typescript_wiki_b.Api.Http.{Body, malformed, absent, given, within}
use python_typescript_wiki_b.Interleave.Prog.{
  Atom, read_clock, draw_uuid, draw_secret, connect, insert_session, find_session, find_user, renew,
  upsert, Prog, Runs, Runs-act, Runs-lift, Runs-pure, Runs-raise, Runs-if, Runs-bind, Runs-or_raise,
}
use python_typescript_wiki_b.Interleave.Prog
use python_typescript_wiki_b.Interleave.Programs as P

module _ (env : Env) where
  verify_token-Runs :
      (service : TokenService) (token : Str)
      → Runs env (P.verify_token env service token) (Tokens.verify_token env service token)
  unfolding P.verify_token Tokens.verify_token
  verify_token-Runs service token =
      Runs-bind env (Runs-lift env (read_token env service token)) λ payload.
        Runs-bind env (Runs-act env read_clock)
          λ moment. Runs-lift env (check_age env service payload moment)

  pub authenticate-Runs :
      (service : TokenService) (token : Str)
      → Runs env (P.authenticate env service token) (Auth.verify_token env service token)
  unfolding P.authenticate Auth.verify_token upsert_user
  authenticate-Runs service token = Runs-bind env (verify_token-Runs service token) λ payload.
      Runs-or_raise env internal (
        Runs-bind env (Runs-act env read_clock)
          λ now. Runs-act env (upsert (Auth.fields_of payload) now))

  expires_at-Runs : (ttl : ℤ) → Runs env (P.expires_at env ttl) (Sessions.expires_at env ttl)
  unfolding P.expires_at Sessions.expires_at
  expires_at-Runs ttl =
      Runs-bind env (Runs-act env read_clock) λ now. Runs-lift env (add_seconds now ttl)

  found_active-Runs :
      (o : Option SessionRecord) → Runs env (P.found_active env o) (Sessions.found_active env o)
  unfolding P.ensure_active Sessions.ensure_active
  found_active-Runs none = Runs-raise env Sessions.missing
  found_active-Runs (some r) =
      Runs-bind env
        (Runs-bind env (Runs-act env read_clock) λ now. Runs-lift env (judge_record r now))
        λ _. Runs-pure env r

  get_session_record-Runs :
      (token : Str)
      → Runs env (P.get_session_record env token) (Sessions.get_session_record env token)
  unfolding P.get_session_record Sessions.get_session_record
  get_session_record-Runs token =
      Runs-bind env (Runs-lift env (hash_token env token))
        λ h. Runs-bind env (Runs-act env (find_session h)) found_active-Runs

  found_user-Runs :
      (o : Option UserProfile) → Runs env (P.found_user env o) (Sessions.found_user env o)
  found_user-Runs none = Runs-raise env internal
  found_user-Runs (some user) = Runs-pure env user

  get_user-Runs : (r : SessionRecord) → Runs env (P.get_user env r) (Sessions.get_user env r)
  unfolding P.get_user Sessions.get_user
  get_user-Runs r = Runs-bind env (Runs-act env (find_user r.user_id)) found_user-Runs

  renewed-Runs : (o : Option SessionRecord) → Runs env (P.renewed env o) (Sessions.renewed env o)
  renewed-Runs none = Runs-raise env Sessions.missing
  renewed-Runs (some r) = Runs-pure env tt

  module _ (service : SessionService) (token : Str) where
    pub create_session-Runs :
        Runs env (P.create_session env service token) (Sessions.create_session env service token)
    unfolding P.create_session Sessions.create_session
    create_session-Runs = Runs-bind env (authenticate-Runs service.tokens token) λ (user, _).
        Runs-bind env (Runs-act env draw_secret) λ t.
          Runs-bind env (Runs-lift env (hash_token env t)) λ h.
            Runs-bind env (expires_at-Runs service.ttl_seconds) λ moment.
              Runs-bind env
                (Runs-or_raise env internal (
                  Runs-bind env (Runs-act env draw_uuid)
                    λ id. Runs-act env (insert_session id user.id h moment)))
                λ _. Runs-pure env _

    pub get_session-Runs :
        Runs env (P.get_session env service token) (Sessions.get_session env service token)
    unfolding P.get_session Sessions.get_session
    get_session-Runs =
        Runs-bind env (get_session_record-Runs token)
          λ r. Runs-bind env (get_user-Runs r) λ user. Runs-pure env _

    pub refresh_session-Runs :
        Runs env (P.refresh_session env service token) (Sessions.refresh_session env service token)
    unfolding P.refresh_session Sessions.refresh_session update_expiry
    refresh_session-Runs = Runs-bind env (get_session_record-Runs token) λ r.
        Runs-bind env (expires_at-Runs service.ttl_seconds) λ moment.
          Runs-bind env
            (Runs-or_raise env internal (
              Runs-bind env (Runs-lift env (hash_token env token)) λ h.
                Runs-bind env (Runs-act env read_clock) λ now. Runs-act env (renew h moment now)))
            λ updated.
              Runs-bind env (renewed-Runs updated)
                λ _. Runs-bind env (get_user-Runs r) λ user. Runs-pure env _

    pub revoke_session-Runs :
        Runs env (P.revoke_session env service token) (Sessions.revoke_session env service token)
    unfolding P.revoke_session Sessions.revoke_session
    revoke_session-Runs = Runs-bind env (get_session_record-Runs token) λ r.
        Runs-bind env (Runs-act env read_clock) λ now. Runs-or_raise env internal (
          Runs-bind env (Runs-lift env (hash_token env token))
            λ h. Runs-act env (Prog.revoke_session h now))
