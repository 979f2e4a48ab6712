-- ===== src/Services/Raises.antt =====
-- The exceptions of the repositories and the services.
use python_typescript_wiki_b.Base.{
  ℕ, ◌≡◌, Option, none, some, arith, refl, find?, all, Bool-cases, inl, inr,
}
use python_typescript_wiki_b.Base.Int.{ℤ, pos, negsuc}
use python_typescript_wiki_b.Text.{Str}
use python_typescript_wiki_b.Errors.{
  Exc, database_error, value_error, overflow_error, Result, ok, raised,
}
use python_typescript_wiki_b.Db.{Db, User, is_storable}
use python_typescript_wiki_b.Outside.{Env}
use python_typescript_wiki_b.App.{World, lift, observe, or_raise, internal, run_sql, add_seconds}
use python_typescript_wiki_b.App.Transactions.{RaisesOnly-transaction}
use python_typescript_wiki_b.App.Laws.{
  Permits, RaisesOnly, RaisesOnly-pure, RaisesOnly-raise, RaisesOnly-lift, RaisesOnly-observe,
  RaisesOnly-or_raise, RaisesOnly-bind, RaisesOnly-run_sql,
}
use python_typescript_wiki_b.Codec.Pkcs7.{oauth_invalid}
use python_typescript_wiki_b.Token
use python_typescript_wiki_b.Token.{TokenService}
use python_typescript_wiki_b.Token.Laws.{verify_token_refusal}
use python_typescript_wiki_b.Repositories.Users.{
  UserFields, UserProfile, upsert_row, upsert_statement, upsert_user, get_by_id, select_user,
  search_by_username, search_statement, has_telegram_id,
}
use python_typescript_wiki_b.Repositories.Sessions.{
  SessionRecord, select_session, get_by_token_hash,
}
use python_typescript_wiki_b.Repositories.Spaces as SpaceRepo
use python_typescript_wiki_b.Repositories.Spaces.{insert_space, insert_membership}
use python_typescript_wiki_b.Services.Auth
use python_typescript_wiki_b.Services.Sessions.{
  SessionService, missing, expired, hash_token, judge_record, ensure_active, expires_at,
  found_active, get_session_record, found_user, get_user, renewed, create_session, get_session,
  refresh_session, revoke_session,
}
use python_typescript_wiki_b.Services.Spaces
use python_typescript_wiki_b.Services.Users

-- The exceptions that can leave a service besides those that it raises for its caller.
pub record Unexpected (E : Exc → Type 0) : Type 0 where
  pub database : E database_error
  pub value : E value_error
  pub overflow : E overflow_error
  pub internal_ : E internal

module _ {E : Exc → Type 0} (u : Unexpected E) (env : Env) where
  upsert_row-Permits :
      (f : UserFields) (now : ℕ) (o : Option User) (db : Db) → Permits E (upsert_row f now o db).0
  unfolding upsert_row
  upsert_row-Permits f now none db = tt
  upsert_row-Permits f now (some old) db = tt

  upsert-Permits :
      (f : UserFields) (now server : ℕ) (db : Db) → Permits E (upsert_statement f now server db).0
  unfolding upsert_statement
  upsert-Permits f now server db = ground (
    arith,
    u.database,
    upsert_row-Permits f now (find? (has_telegram_id f.telegram_id) db.users) db,
  )

  upsert_user-raises : (f : UserFields) → RaisesOnly E (upsert_user env f)
  unfolding upsert_user
  upsert_user-raises f =
      RaisesOnly-bind (observe env.clock) _ (RaisesOnly-observe _)
        λ now. RaisesOnly-run_sql env (upsert_statement f now) u.database (upsert-Permits f now)

  get_by_id-raises : (id : ℕ) → RaisesOnly E (get_by_id env id)
  unfolding get_by_id select_user
  get_by_id-raises id = RaisesOnly-run_sql env (select_user id) u.database (λ now db. tt)

  search-Permits :
      (q : Str) (n now : ℕ) (db : Db) → Permits E (search_statement env.fold_case q n now db).0
  unfolding search_statement
  search-Permits q n now db = elim (Bool-cases (all is_storable q)) [
    | inl e ↦ rw e tt
    | inr e ↦ rw e u.database
  ]

  search_by_username-raises : (q : Str) (n : ℕ) → RaisesOnly E (search_by_username env q n)
  unfolding search_by_username
  search_by_username-raises q n =
      RaisesOnly-run_sql env (search_statement env.fold_case q n) u.database (search-Permits q n)

  get_by_token_hash-raises : (h : Str) → RaisesOnly E (get_by_token_hash env h)
  unfolding get_by_token_hash select_session
  get_by_token_hash-raises h = RaisesOnly-run_sql env (select_session h) u.database (λ now db. tt)

  insert_space-Permits :
      (name : Str) (id now : ℕ) (db : Db) → Permits E (insert_space name id now db).0
  unfolding insert_space
  insert_space-Permits name id now db = ground (arith, u.database)

  insert_membership-Permits : (o id now : ℕ) (db : Db) → Permits E (insert_membership o id now db).0
  unfolding insert_membership
  insert_membership-Permits o id now db = ground (arith, u.database)

  create_space-raises :
      (name : Str) (owner : ℕ) → RaisesOnly E (SpaceRepo.create_space env name owner)
  unfolding SpaceRepo.create_space
  create_space-raises name owner = RaisesOnly-transaction env _ u.database (
      RaisesOnly-bind (observe env.uuid) _ (RaisesOnly-observe _) λ fresh.
        RaisesOnly-bind (run_sql env (insert_space name fresh)) _
          (RaisesOnly-run_sql env (insert_space name fresh) u.database
            (insert_space-Permits name fresh))
          λ id.
            RaisesOnly-bind (run_sql env (insert_membership owner id)) _
              (RaisesOnly-run_sql env (insert_membership owner id) u.database
                (insert_membership-Permits owner id))
              λ _. RaisesOnly-pure id)

  hash_token-Permits : (token : Str) → Permits E (hash_token env token)
  unfolding hash_token
  hash_token-Permits token = ground (arith, u.value)

  expires_at-raises : (ttl : ℤ) → RaisesOnly E (expires_at env ttl)
  unfolding expires_at add_seconds
  expires_at-raises (pos n) =
      RaisesOnly-bind (observe env.clock) _ (RaisesOnly-observe _)
        λ now. RaisesOnly-lift (add_seconds now (pos n)) (ground (arith, u.overflow))
  expires_at-raises (negsuc n) =
      RaisesOnly-bind (observe env.clock) _ (RaisesOnly-observe _)
        λ now. RaisesOnly-lift (add_seconds now (negsuc n)) (ground (arith, u.overflow))

  found_user-raises : (o : Option UserProfile) → RaisesOnly E (found_user env o)
  found_user-raises none = RaisesOnly-raise internal u.internal_
  found_user-raises (some p) = RaisesOnly-pure p

  get_user-raises : (r : SessionRecord) → RaisesOnly E (get_user env r)
  unfolding get_user
  get_user-raises r =
      RaisesOnly-bind (get_by_id env r.user_id) _ (get_by_id-raises r.user_id) found_user-raises

  module _ (invalid : E oauth_invalid) where
    token-raises :
        (service : TokenService) (token : Str) → RaisesOnly E (Token.verify_token env service token)
    token-raises service token = record {
      at = λ w. permits w (Token.verify_token env service token w).0 refl;
    }
      where
        permits :
            (w : World) (r : Result Token.TokenPayload)
            → (Token.verify_token env service token w).0 ≡ r
            → Permits E r
        permits w (ok p) h = tt
        permits w (raised e) h = rw (verify_token_refusal env service token w h).0 invalid

    pub auth-raises :
        (service : TokenService) (token : Str) → RaisesOnly E (Auth.verify_token env service token)
    unfolding Auth.verify_token
    auth-raises service token =
        RaisesOnly-bind (Token.verify_token env service token) _ (token-raises service token)
          λ p. RaisesOnly-or_raise internal _ u.internal_

    pub create_session-raises :
        (service : SessionService) (token : Str) → RaisesOnly E (create_session env service token)
    unfolding create_session
    create_session-raises service token =
        RaisesOnly-bind (Auth.verify_token env service.tokens token) _
          (auth-raises service.tokens token)
          λ (user, _). RaisesOnly-bind (observe env.secret) _ (RaisesOnly-observe _) λ t.
            RaisesOnly-bind (lift (hash_token env t)) _ (RaisesOnly-lift _ (hash_token-Permits t))
              λ h.
                RaisesOnly-bind (expires_at env service.ttl_seconds) _
                  (expires_at-raises service.ttl_seconds)
                  λ m.
                    RaisesOnly-bind (or_raise internal _) _
                      (RaisesOnly-or_raise internal _ u.internal_) λ _. RaisesOnly-pure _

  module _ (no_row : E missing) (too_late : E expired) where
    judge-Permits : (r : SessionRecord) (now : ℕ) → Permits E (judge_record r now)
    unfolding judge_record
    judge-Permits r now = ground (arith, too_late)

    found_active-raises : (o : Option SessionRecord) → RaisesOnly E (found_active env o)
    unfolding ensure_active
    found_active-raises none = RaisesOnly-raise missing no_row
    found_active-raises (some r) =
        RaisesOnly-bind (ensure_active env r) _
          (RaisesOnly-bind (observe env.clock) _ (RaisesOnly-observe _)
            λ now. RaisesOnly-lift (judge_record r now) (judge-Permits r now))
          λ _. RaisesOnly-pure r

    get_session_record-raises : (token : Str) → RaisesOnly E (get_session_record env token)
    unfolding get_session_record
    get_session_record-raises token =
        RaisesOnly-bind (lift (hash_token env token)) _
          (RaisesOnly-lift _ (hash_token-Permits token))
          λ h.
            RaisesOnly-bind (get_by_token_hash env h) _ (get_by_token_hash-raises h)
              found_active-raises

    renewed-raises : (o : Option SessionRecord) → RaisesOnly E (renewed env o)
    renewed-raises none = RaisesOnly-raise missing no_row
    renewed-raises (some r) = RaisesOnly-pure tt

    module _ (service : SessionService) (token : Str) where
      pub get_session-raises : RaisesOnly E (get_session env service token)
      unfolding get_session
      get_session-raises =
          RaisesOnly-bind (get_session_record env token) _ (get_session_record-raises token)
            λ r. RaisesOnly-bind (get_user env r) _ (get_user-raises r) λ user. RaisesOnly-pure _

      pub refresh_session-raises : RaisesOnly E (refresh_session env service token)
      unfolding refresh_session
      refresh_session-raises =
          RaisesOnly-bind (get_session_record env token) _ (get_session_record-raises token) λ r.
            RaisesOnly-bind (expires_at env service.ttl_seconds) _
              (expires_at-raises service.ttl_seconds)
              λ m.
                RaisesOnly-bind (or_raise internal _) _ (RaisesOnly-or_raise internal _ u.internal_)
                  λ updated. RaisesOnly-bind (renewed env updated) _ (renewed-raises updated) λ _.
                    RaisesOnly-bind (get_user env r) _ (get_user-raises r) λ user. RaisesOnly-pure _

      pub revoke_session-raises : RaisesOnly E (revoke_session env service token)
      unfolding revoke_session
      revoke_session-raises =
          RaisesOnly-bind (get_session_record env token) _ (get_session_record-raises token) λ r.
            RaisesOnly-bind (observe env.clock) _ (RaisesOnly-observe _)
              λ now. RaisesOnly-or_raise internal _ u.internal_

  pub spaces-raises : (name : Str) (id : ℕ) → RaisesOnly E (Spaces.create_space env name id)
  unfolding Spaces.create_space
  spaces-raises name id = create_space-raises name id

  pub users-raises : (q : Str) (n : ℕ) → RaisesOnly E (Users.search_users env q n)
  unfolding Users.search_users
  users-raises q n = search_by_username-raises q n
