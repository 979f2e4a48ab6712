-- ===== src/Interleave/Ends/Answers.antt =====
-- How many atoms the services of app/services/ need.
use python_typescript_wiki_b.Base.{ℕ, Option, none, some}
use python_typescript_wiki_b.Base.Int.{ℤ}
use python_typescript_wiki_b.Text.{Str, strip, is_empty}
use python_typescript_wiki_b.Errors.{Result}
use python_typescript_wiki_b.Outside.{Env}
use python_typescript_wiki_b.App.{internal}
use python_typescript_wiki_b.Token.{TokenService}
use python_typescript_wiki_b.Repositories.Users.{UserProfile}
use python_typescript_wiki_b.Repositories.Sessions.{SessionRecord}
use python_typescript_wiki_b.Services.Sessions.{SessionService, SessionData, hash_token}
use python_typescript_wiki_b.Api.Http.{Body, malformed, absent, given, within}
use python_typescript_wiki_b.Interleave.Prog
use python_typescript_wiki_b.Interleave.Prog.{
  read_clock, draw_uuid, draw_secret, connect, probe, upsert, find_user, search, insert_session,
  find_session, renew, create_space, Prog, done, act,
}
use python_typescript_wiki_b.Interleave.Programs as P
use python_typescript_wiki_b.Interleave.Ends.Rules.{
  Ended, Takes, Takes-more, Takes-done, Takes-if, Takes-act, Takes-bind, Takes-or_raise,
}

module _ (env : Env) where
  pub ends_at_once : {A : Type 0} (r : Result A) → Takes env Ended 0 (done r)
  ends_at_once r = Takes-done env r tt

  pub authenticate-Takes :
      (service : TokenService) (token : Str) → Takes env Ended 3 (P.authenticate env service token)
  unfolding P.authenticate P.verify_token
  authenticate-Takes service token =
      Takes-bind env
        (Takes-bind env (ends_at_once _)
          λ payload. Takes-bind env (Takes-act env read_clock) λ moment. ends_at_once _)
        λ payload.
          Takes-or_raise env internal
            (Takes-bind env (Takes-act env read_clock) λ now. Takes-act env (upsert _ now))

  expires_at-Takes : (ttl : ℤ) → Takes env Ended 1 (P.expires_at env ttl)
  unfolding P.expires_at
  expires_at-Takes ttl = Takes-bind env (Takes-act env read_clock) λ now. ends_at_once _

  found_active-Takes : (o : Option SessionRecord) → Takes env Ended 1 (P.found_active env o)
  unfolding P.ensure_active
  found_active-Takes none = Takes-more env 1 (ends_at_once _)
  found_active-Takes (some r) =
      Takes-bind env (Takes-bind env (Takes-act env read_clock) λ now. ends_at_once _)
        λ _. ends_at_once _

  get_session_record-Takes : (token : Str) → Takes env Ended 2 (P.get_session_record env token)
  unfolding P.get_session_record
  get_session_record-Takes token =
      Takes-bind env (ends_at_once (hash_token env token))
        λ h. Takes-bind env (Takes-act env (find_session h)) found_active-Takes

  found_user-Takes : (o : Option UserProfile) → Takes env Ended 0 (P.found_user env o)
  found_user-Takes none = ends_at_once _
  found_user-Takes (some user) = ends_at_once _

  get_user-Takes : (r : SessionRecord) → Takes env Ended 1 (P.get_user env r)
  unfolding P.get_user
  get_user-Takes r = Takes-bind env (Takes-act env (find_user r.user_id)) found_user-Takes

  renewed-Takes : (o : Option SessionRecord) → Takes env Ended 0 (P.renewed env o)
  renewed-Takes none = ends_at_once _
  renewed-Takes (some r) = ends_at_once _

  module _ (service : SessionService) (token : Str) where
    pub create_session-Takes : Takes env Ended 7 (P.create_session env service token)
    unfolding P.create_session
    create_session-Takes = Takes-bind env (authenticate-Takes service.tokens token) λ (user, _).
        Takes-bind env (Takes-act env draw_secret) λ t.
          Takes-bind env (ends_at_once (hash_token env t)) λ h.
            Takes-bind env (expires_at-Takes service.ttl_seconds) λ moment.
              Takes-bind env
                (Takes-or_raise env internal (
                  Takes-bind env (Takes-act env draw_uuid)
                    λ id. Takes-act env (insert_session id user.id h moment)))
                λ _. ends_at_once _

    pub get_session-Takes : Takes env Ended 3 (P.get_session env service token)
    unfolding P.get_session
    get_session-Takes =
        Takes-bind env (get_session_record-Takes token)
          λ r. Takes-bind env (get_user-Takes r) λ user. ends_at_once _

    pub refresh_session-Takes : Takes env Ended 6 (P.refresh_session env service token)
    unfolding P.refresh_session
    refresh_session-Takes = Takes-bind env (get_session_record-Takes token) λ r.
        Takes-bind env (expires_at-Takes service.ttl_seconds) λ moment.
          Takes-bind env
            (Takes-or_raise env internal (
              Takes-bind env (ends_at_once (hash_token env token)) λ h.
                Takes-bind env (Takes-act env read_clock)
                  λ now. Takes-act env (renew h moment now)))
            λ updated.
              Takes-bind env (renewed-Takes updated)
                λ _. Takes-bind env (get_user-Takes r) λ user. ends_at_once _

    pub revoke_session-Takes : Takes env Ended 4 (P.revoke_session env service token)
    unfolding P.revoke_session
    revoke_session-Takes = Takes-bind env (get_session_record-Takes token) λ r.
        Takes-bind env (Takes-act env read_clock) λ now. Takes-or_raise env internal (
          Takes-bind env (ends_at_once (hash_token env token))
            λ h. Takes-act env (Prog.revoke_session h now))

  pub body_field-Takes :
      (lo : ℕ) (hi : Option ℕ) (body : Body) → Takes env Ended 1 (P.body_field lo hi body)
  unfolding P.body_field
  body_field-Takes lo hi malformed = Takes-more env 1 (ends_at_once _)
  body_field-Takes lo hi absent = Takes-bind env (Takes-act env connect) λ _. ends_at_once _
  body_field-Takes lo hi (given s) =
      Takes-bind env (Takes-act env connect)
        λ _. Takes-if env (within lo hi s) (ends_at_once _) (ends_at_once _)

  pub stripped_token-Takes : (t : Str) → Takes env Ended 0 (P.stripped_token t)
  unfolding P.stripped_token
  stripped_token-Takes t = Takes-if env (is_empty (strip t)) (ends_at_once _) (ends_at_once _)

  pub named-Takes : (name : Str) → Takes env Ended 0 (P.named name)
  unfolding P.named
  named-Takes name = Takes-if env (is_empty (strip name)) (ends_at_once _) (ends_at_once _)

  pub created-Takes : (d : SessionData) (o : Option Str) → Takes env Ended 0 (P.created d o)
  created-Takes d none = ends_at_once _
  created-Takes d (some t) = ends_at_once _
