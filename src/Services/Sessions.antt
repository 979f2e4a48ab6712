-- ===== src/Services/Sessions.antt =====
-- app/services/session_service.py, and the session data of app/services/models.py.
pub mod View
pub mod Lifecycle
pub mod Revoked
pub mod Created
pub mod RoundTrip
pub mod Refreshed
pub mod Returns
pub mod Held
use python_typescript_wiki_b.Base.{ℕ, Bool, true, false, Option, none, some, leb, if◌then◌else◌}
use python_typescript_wiki_b.Base.Int.{ℤ}
use python_typescript_wiki_b.Text.{Str, hex}
use python_typescript_wiki_b.Errors.{
  Exc, app_error, value_error, session_missing, session_expired, Result, ok, raised, or_else,
}
use python_typescript_wiki_b.Errors
use python_typescript_wiki_b.Outside.{Env}
use python_typescript_wiki_b.App.{
  App, ◌>>=◌, ◌>>◌, pure, raise, or_raise, internal, lift, observe, add_seconds,
}
use python_typescript_wiki_b.Codec.Utf8.{utf8_encode}
use python_typescript_wiki_b.Token.{TokenService}
use python_typescript_wiki_b.Repositories.Users.{UserProfile, get_by_id}
use python_typescript_wiki_b.Repositories.Sessions
use python_typescript_wiki_b.Repositories.Sessions.{
  SessionRecord, get_by_token_hash, update_expiry, revoke,
}
use python_typescript_wiki_b.Services.Auth.{verify_token}

pub record SessionData : Type 0 where
  pub user : UserProfile
  pub expires_at : ℕ
  pub session_token : Option Str

-- The state of a `SessionService`, with that of the `AuthService` below it.
pub record SessionService : Type 0 where
  pub tokens : TokenService
  pub ttl_seconds : ℤ

abbrev pub missing : Exc
missing = app_error 401 session_missing

abbrev pub expired : Exc
expired = app_error 401 session_expired

-- `_hash_token`: hashlib.sha256(token.encode()).hexdigest()
unfoldable pub hash_token : Env → Str → Result Str
hash_token env token =
    Errors.◌>>=◌ (or_else value_error (utf8_encode token))
      λ bytes. ok (hex (env.crypto.sha256 bytes))

-- The tests of `_ensure_active`, for its reading of the clock.
unfoldable pub judge_record : SessionRecord → ℕ → Result (Unit {0})
judge_record r now = elim r.revoked_at [
  | some _ ↦ raised expired
  | none ↦ if leb r.expires_at now then raised expired else ok tt
]

module _ (env : Env) where
  -- `_ensure_active`
  unfoldable pub ensure_active : SessionRecord → App (Unit {0})
  unfolding judge_record
  ensure_active r = do now ← observe env.clock; lift (judge_record r now)

  -- `_expires_at`
  unfoldable pub expires_at : ℤ → App ℕ
  expires_at ttl_seconds = do now ← observe env.clock; lift (add_seconds now ttl_seconds)

  abbrev pub found_active : Option SessionRecord → App SessionRecord
  found_active none = raise missing
  found_active (some r) = ensure_active r >>= λ _. pure r

  -- `_get_session_record`
  unfoldable pub get_session_record : Str → App SessionRecord
  get_session_record session_token = do
    token_hash ← lift (hash_token env session_token)
    found ← get_by_token_hash env token_hash
    found_active found

  abbrev pub found_user : Option UserProfile → App UserProfile
  found_user none = raise internal
  found_user (some user) = pure user

  -- `_get_user`
  unfoldable pub get_user : SessionRecord → App UserProfile
  get_user r = do user ← get_by_id env r.user_id; found_user user

  abbrev pub renewed : Option SessionRecord → App (Unit {0})
  renewed none = raise missing
  renewed (some _) = pure tt

  module _ (service : SessionService) where
    unfoldable pub create_session : Str → App SessionData
    create_session token = do
      (user, _) ← verify_token env service.tokens token
      session_token ← observe env.secret
      token_hash ← lift (hash_token env session_token)
      moment ← expires_at service.ttl_seconds
      or_raise internal do
        session_id ← observe env.uuid
        Sessions.create_session env session_id user.id token_hash moment
      pure (record { user = user; expires_at = moment; session_token = some session_token })

    unfoldable pub get_session : Str → App SessionData
    get_session session_token = do
      r ← get_session_record session_token
      user ← get_user r
      pure (record { user = user; expires_at = r.expires_at; session_token = none })

    unfoldable pub refresh_session : Str → App SessionData
    refresh_session session_token = do
      r ← get_session_record session_token
      moment ← expires_at service.ttl_seconds
      updated ←
          or_raise internal
            do token_hash ← lift (hash_token env session_token); update_expiry env token_hash moment
      renewed updated
      user ← get_user r
      pure (record { user = user; expires_at = moment; session_token = none })

    unfoldable pub revoke_session : Str → App (Unit {0})
    revoke_session session_token = do
      r ← get_session_record session_token
      now ← observe env.clock
      or_raise internal
          do token_hash ← lift (hash_token env session_token); revoke env token_hash now
