-- ===== src/Services/Keeps.antt =====
-- What every statement keeps, every service keeps.
use python_typescript_wiki_b.Base.{ℕ, sym, subst, Option, none, some}
use python_typescript_wiki_b.Base.Int.{ℤ}
use python_typescript_wiki_b.Text.{Str}
use python_typescript_wiki_b.Db.{Db}
use python_typescript_wiki_b.Outside.{Env}
use python_typescript_wiki_b.App.{lift, observe, or_raise, internal, run_sql}
use python_typescript_wiki_b.App.Transactions.{Keeps-transaction}
use python_typescript_wiki_b.App.Laws.{
  Keeps, Keeps-pure, Keeps-raise, Keeps-lift, Keeps-observe, Keeps-or_raise, Keeps-bind,
  Keeps-run_sql,
}
use python_typescript_wiki_b.Token as Tokens
use python_typescript_wiki_b.Token.{TokenService, read_token, check_age}
use python_typescript_wiki_b.Repositories.Users.{
  UserFields, UserProfile, upsert_statement, upsert_user, get_by_id, select_user,
  search_by_username, search_statement,
}
use python_typescript_wiki_b.Repositories.Users.Search.{search_statement-db}
use python_typescript_wiki_b.Repositories.Sessions as SessionRepo
use python_typescript_wiki_b.Repositories.Sessions.{
  SessionRecord, insert_session, select_session, update_expiry_statement, revoke_statement,
  get_by_token_hash, update_expiry, revoke,
}
use python_typescript_wiki_b.Repositories.Spaces as SpaceRepo
use python_typescript_wiki_b.Repositories.Spaces.{insert_space, insert_membership}
use python_typescript_wiki_b.Services.Auth
use python_typescript_wiki_b.Services.Sessions
use python_typescript_wiki_b.Services.Sessions.{
  SessionService, hash_token, judge_record, ensure_active, expires_at, found_active,
  get_session_record, found_user, get_user, renewed, create_session, get_session, refresh_session,
  revoke_session,
}
use python_typescript_wiki_b.Services.Spaces
use python_typescript_wiki_b.Services.Users

-- Reading keeps everything.
module _ {P : Db → Type 0} (env : Env) where
  pub get_by_id-Keeps : (id : ℕ) → Keeps P (get_by_id env id)
  unfolding get_by_id select_user
  get_by_id-Keeps id = Keeps-run_sql env (select_user id) (λ now db h. h)

  pub get_by_token_hash-Keeps : (h : Str) → Keeps P (get_by_token_hash env h)
  unfolding get_by_token_hash select_session
  get_by_token_hash-Keeps h = Keeps-run_sql env (select_session h) (λ now db k. k)

  pub users-Keeps : (q : Str) (n : ℕ) → Keeps P (Users.search_users env q n)
  unfolding Users.search_users search_by_username
  users-Keeps q n =
      Keeps-run_sql env (search_statement env.fold_case q n)
        (λ now db h. subst P (sym (search_statement-db env.fold_case q n now db)) h)

  pub token-Keeps :
      (service : TokenService) (token : Str) → Keeps P (Tokens.verify_token env service token)
  unfolding Tokens.verify_token
  token-Keeps service token =
      Keeps-bind (lift (read_token env service token)) _ (Keeps-lift _)
        λ p. Keeps-bind (observe env.clock) _ (Keeps-observe _) λ m. Keeps-lift _

  expires_at-Keeps : (ttl : ℤ) → Keeps P (expires_at env ttl)
  unfolding expires_at
  expires_at-Keeps ttl = Keeps-bind (observe env.clock) _ (Keeps-observe _) λ now. Keeps-lift _

  found_user-Keeps : (o : Option UserProfile) → Keeps P (found_user env o)
  found_user-Keeps none = Keeps-raise internal
  found_user-Keeps (some p) = Keeps-pure p

  pub get_user-Keeps : (r : SessionRecord) → Keeps P (get_user env r)
  unfolding get_user
  get_user-Keeps r =
      Keeps-bind (get_by_id env r.user_id) _ (get_by_id-Keeps r.user_id) found_user-Keeps

  found_active-Keeps : (o : Option SessionRecord) → Keeps P (found_active env o)
  unfolding ensure_active
  found_active-Keeps none = Keeps-raise Sessions.missing
  found_active-Keeps (some r) =
      Keeps-bind (ensure_active env r) _
        (Keeps-bind (observe env.clock) _ (Keeps-observe _) λ now. Keeps-lift (judge_record r now))
        λ _. Keeps-pure r

  pub get_session_record-Keeps : (token : Str) → Keeps P (get_session_record env token)
  unfolding get_session_record
  get_session_record-Keeps token =
      Keeps-bind (lift (hash_token env token)) _ (Keeps-lift _)
        λ h. Keeps-bind (get_by_token_hash env h) _ (get_by_token_hash-Keeps h) found_active-Keeps

  pub renewed-Keeps : (o : Option SessionRecord) → Keeps P (renewed env o)
  renewed-Keeps none = Keeps-raise Sessions.missing
  renewed-Keeps (some r) = Keeps-pure tt

  pub get_session-Keeps :
      (service : SessionService) (token : Str) → Keeps P (get_session env service token)
  unfolding get_session
  get_session-Keeps service token =
      Keeps-bind (get_session_record env token) _ (get_session_record-Keeps token)
        λ r. Keeps-bind (get_user env r) _ (get_user-Keeps r) λ user. Keeps-pure _

-- Every statement that writes keeps `P`.
pub record IsStable (P : Db → Type 0) : Type 0 where
  pub upserts :
      (f : UserFields) (now server : ℕ) (db : Db) → P db → P (upsert_statement f now server db).1
  pub inserts :
      (id user_id : ℕ) (h : Str) (moment now : ℕ) (db : Db)
      → P db
      → P (insert_session id user_id h moment now db).1
  pub renews :
      (h : Str) (moment now server : ℕ) (db : Db)
      → P db
      → P (update_expiry_statement h moment now server db).1
  pub revokes : (h : Str) (now server : ℕ) (db : Db) → P db → P (revoke_statement h now server db).1
  pub spaces : (name : Str) (id now : ℕ) (db : Db) → P db → P (insert_space name id now db).1
  pub members : (owner id now : ℕ) (db : Db) → P db → P (insert_membership owner id now db).1

module _ {P : Db → Type 0} (stable : IsStable P) (env : Env) where
  upsert_user-Keeps : (f : UserFields) → Keeps P (upsert_user env f)
  unfolding upsert_user
  upsert_user-Keeps f =
      Keeps-bind (observe env.clock) _ (Keeps-observe _)
        λ now. Keeps-run_sql env (upsert_statement f now) (stable.upserts f now)

  pub auth-Keeps :
      (service : TokenService) (token : Str) → Keeps P (Auth.verify_token env service token)
  unfolding Auth.verify_token
  auth-Keeps service token =
      Keeps-bind (Tokens.verify_token env service token) _ (token-Keeps env service token)
        λ p. Keeps-or_raise internal _ (upsert_user-Keeps (Auth.fields_of p))

  pub insert-Keeps :
      (id user_id : ℕ) (h : Str) (m : ℕ) → Keeps P (SessionRepo.create_session env id user_id h m)
  unfolding SessionRepo.create_session
  insert-Keeps id user_id h m = Keeps-run_sql env _ (stable.inserts id user_id h m)

  update_expiry-Keeps : (h : Str) (m : ℕ) → Keeps P (update_expiry env h m)
  unfolding update_expiry
  update_expiry-Keeps h m =
      Keeps-bind (observe env.clock) _ (Keeps-observe _)
        λ now. Keeps-run_sql env (update_expiry_statement h m now) (stable.renews h m now)

  pub revoke-Keeps : (h : Str) (m : ℕ) → Keeps P (revoke env h m)
  unfolding revoke
  revoke-Keeps h m = Keeps-run_sql env (revoke_statement h m) (stable.revokes h m)

  pub spaces-Keeps : (name : Str) (owner : ℕ) → Keeps P (Spaces.create_space env name owner)
  unfolding Spaces.create_space SpaceRepo.create_space
  spaces-Keeps name owner = Keeps-transaction env _ (
      Keeps-bind (observe env.uuid) _ (Keeps-observe _) λ fresh.
        Keeps-bind (run_sql env (insert_space name fresh)) _
          (Keeps-run_sql env (insert_space name fresh) (stable.spaces name fresh))
          λ id.
            Keeps-bind (run_sql env (insert_membership owner id)) _
              (Keeps-run_sql env (insert_membership owner id) (stable.members owner id))
              λ _. Keeps-pure id)

  module _ (service : SessionService) (token : Str) where
    pub create_session-Keeps : Keeps P (create_session env service token)
    unfolding create_session
    create_session-Keeps =
        Keeps-bind (Auth.verify_token env service.tokens token) _ (auth-Keeps service.tokens token)
          λ (user, _). Keeps-bind (observe env.secret) _ (Keeps-observe _) λ t.
            Keeps-bind (lift (hash_token env t)) _ (Keeps-lift _) λ h.
              Keeps-bind (expires_at env service.ttl_seconds) _
                (expires_at-Keeps env service.ttl_seconds)
                λ m.
                  Keeps-bind (or_raise internal _) _
                    (Keeps-or_raise internal _ (
                      Keeps-bind (observe env.uuid) _ (Keeps-observe _)
                        λ id. insert-Keeps id user.id h m))
                    λ _. Keeps-pure _

    pub refresh_session-Keeps : Keeps P (refresh_session env service token)
    unfolding refresh_session
    refresh_session-Keeps =
        Keeps-bind (get_session_record env token) _ (get_session_record-Keeps env token) λ r.
          Keeps-bind (expires_at env service.ttl_seconds) _
            (expires_at-Keeps env service.ttl_seconds)
            λ m.
              Keeps-bind (or_raise internal _) _
                (Keeps-or_raise internal _ (
                  Keeps-bind (lift (hash_token env token)) _ (Keeps-lift _)
                    λ h. update_expiry-Keeps h m))
                λ updated.
                  Keeps-bind (renewed env updated) _ (renewed-Keeps env updated)
                    λ _. Keeps-bind (get_user env r) _ (get_user-Keeps env r) λ user. Keeps-pure _

    pub revoke_session-Keeps : Keeps P (revoke_session env service token)
    unfolding revoke_session
    revoke_session-Keeps =
        Keeps-bind (get_session_record env token) _ (get_session_record-Keeps env token) λ r.
          Keeps-bind (observe env.clock) _ (Keeps-observe _) λ now.
            Keeps-or_raise internal _
              (Keeps-bind (lift (hash_token env token)) _ (Keeps-lift _) λ h. revoke-Keeps h now)
