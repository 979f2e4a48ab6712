-- ===== src/Services/Sessions/View.antt =====
-- What the tables say of a session token, as a function of the moment: the specification of
-- `SessionService.get_session`.
use mathlib.Core.Option
use python_typescript_wiki_b.Base.{
  ℕ, suc, ◌≡◌, refl, ◌∙◌, Bool-cases, inl, inr, true, false, Option, Option-cases, none, some,
  arith, leb, ltb, ◌==◌, find?, if◌then◌else◌,
}
use python_typescript_wiki_b.Text.{Str, Bytes, hex}
use python_typescript_wiki_b.Errors.{
  value_error, Result, ok, raised, or_else, ◌>>=◌, ◌>>◌, ok-injective,
}
use python_typescript_wiki_b.Db.{User, Session, Db}
use python_typescript_wiki_b.Outside.{Env}
use python_typescript_wiki_b.App
use python_typescript_wiki_b.App.{World, after, internal, lift, observe, pure, raise, run_sql}
use python_typescript_wiki_b.Codec.Utf8.{utf8_encode}
use python_typescript_wiki_b.Repositories.Users.Expected.{shown}
use python_typescript_wiki_b.Repositories.Users.{profile_of, get_by_id, select_user}
use python_typescript_wiki_b.Repositories.Sessions.{
  SessionRecord, row_to_session, get_by_token_hash, select_session,
}
use python_typescript_wiki_b.Repositories.Sessions.Rows.{row_of}
use python_typescript_wiki_b.Services.Sessions.{
  SessionData, SessionService, missing, expired, hash_token, judge_record, ensure_active,
  found_active, get_session_record, found_user, get_user, get_session,
}

abbrev pub user_of : ℕ → Db → Option User
user_of id db = find? (λ u. u.id == id) db.users

abbrev pub data_of : Option User → ℕ → Result SessionData
data_of none expires_at = raised internal
data_of (some u) expires_at =
    ok (record { user = shown u; expires_at = expires_at; session_token = none })

-- A row shows its user and its expiry if it is not revoked and expires later than now.
abbrev pub view_row : ℕ → Db → Option Session → Result SessionData
view_row now db none = raised missing
view_row now db (some row) = elim row.revoked_at [
  | some _ ↦ raised expired
  | none ↦
      if ltb now row.expires_at
      then data_of (user_of row.user_id db) row.expires_at
      else raised expired
]

-- The row of the token's bytes is the one of their SHA-256 digest in hexadecimal.
abbrev pub view_encoded : Env → ℕ → Db → Option Bytes → Result SessionData
view_encoded env now db none = raised value_error
view_encoded env now db (some bytes) = view_row now db (row_of (hex (env.crypto.sha256 bytes)) db)

unfoldable pub view : Env → Str → ℕ → Db → Result SessionData
view env token now db = view_encoded env now db (utf8_encode token)

-- A hash that `hash_token` finds is the digest of the token's bytes.
pub hash_token_sound :
    (env : Env) (token : Str) {h : Str}
    → hash_token env token ≡ ok h
    → (bytes : Bytes) × (utf8_encode token ≡ some bytes) × (hex (env.crypto.sha256 bytes) ≡ h)
unfolding hash_token
hash_token_sound env token {h} e = go (utf8_encode token) refl e
  where
    go :
        (o : Option Bytes)
        → utf8_encode token ≡ o
        → (or_else value_error o >>= λ bytes. ok (hex (env.crypto.sha256 bytes))) ≡ ok h
        → (bytes : Bytes) × (utf8_encode token ≡ some bytes) × (hex (env.crypto.sha256 bytes) ≡ h)
    go none q e = absurd (cc)
    go (some bytes) q e = (bytes, q, ok-injective e)

module _ (env : Env) (service : SessionService) where
  run_sql-works :
      {A : Type 0} (stmt : App.Statement A) (w : World)
      → env.fault w.tick ≡ false
      → run_sql env stmt w ≡ (
        (stmt (env.db_clock w.tick) w.db).0,
        record { db = (stmt (env.db_clock w.tick) w.db).1; tick = suc w.tick },
      )
  unfolding run_sql
  run_sql-works stmt w h = rw h refl

  abbrev rest : SessionRecord → App.App SessionData
  rest r =
      App.◌>>=◌ (get_user env r)
        λ user. pure (record { user = user; expires_at = r.expires_at; session_token = none })

  rest-eq-data_of :
      (row : Session) (w : World)
      → env.fault w.tick ≡ false
      → (rest (row_to_session row) w).0 ≡ data_of (user_of row.user_id w.db) row.expires_at
  unfolding get_user get_by_id select_user row_to_session App.◌>>=◌
  rest-eq-data_of row w h =
      rw (run_sql-works (select_user row.user_id) w h) (found (user_of row.user_id w.db))
    where
      found :
          (o : Option User)
          → (App.continue
              (App.continue (ok (Option.map profile_of o)) (found_user env) (after w)).0
              (λ user.
                pure (record { user = user; expires_at = row.expires_at; session_token = none }))
              (App.continue (ok (Option.map profile_of o)) (found_user env) (after w)).1).0
            ≡ data_of o row.expires_at
      found none = refl
      found (some u) = refl

  judged-eq-view_row :
      (row : Session) (w : World) (verdict : Result (Unit {0}))
      → env.fault w.tick ≡ false
      → (App.◌>>=◌ (App.◌>>=◌ (lift verdict) λ _. pure (row_to_session row)) rest w).0
        ≡ (verdict >> data_of (user_of row.user_id w.db) row.expires_at)
  unfolding App.◌>>=◌ lift pure
  judged-eq-view_row row w (ok _) h = rest-eq-data_of row w h
  judged-eq-view_row row w (raised e) h = refl

  judge_record-eq-view_row :
      (row : Session) (now : ℕ) (db : Db)
      → (judge_record (row_to_session row) now >> data_of (user_of row.user_id db) row.expires_at)
        ≡ view_row now db (some row)
  unfolding judge_record row_to_session
  judge_record-eq-view_row row now db = elim (Option-cases row.revoked_at) [
    | inl e ↦ elim (Bool-cases (leb row.expires_at now)) [
      | inl late ↦
          let gone : ltb now row.expires_at ≡ false = ground (arith, late) in
          rw (e, late, gone) refl
      | inr early ↦
          let alive : ltb now row.expires_at ≡ true = ground (arith, early) in
          rw (e, early, alive) refl
    ]
    | inr (moment, e) ↦ rw e refl
  ]

  found-eq-view_row :
      (o : Option Session) (w : World)
      → env.fault (suc w.tick) ≡ false
      → (App.◌>>=◌ (found_active env (Option.map row_to_session o)) rest w).0
        ≡ view_row (env.clock w.tick) w.db o
  unfolding ensure_active App.◌>>=◌ observe raise
  found-eq-view_row none w h = refl
  found-eq-view_row (some row) w h =
      judged-eq-view_row row (after w) (judge_record (row_to_session row) (env.clock w.tick)) h
      ∙ judge_record-eq-view_row row (env.clock w.tick) w.db

  hashed-eq-view :
      (o : Option Bytes) (w : World)
      → env.fault w.tick ≡ false
      → env.fault (suc (suc w.tick)) ≡ false
      → (App.◌>>=◌
          (App.◌>>=◌
            (lift (or_else value_error o >>= λ bytes. ok (hex (env.crypto.sha256 bytes))))
            λ h. App.◌>>=◌ (get_by_token_hash env h) (found_active env))
          rest
          w).0
        ≡ view_encoded env (env.clock (suc w.tick)) w.db o
  unfolding App.◌>>=◌ lift get_by_token_hash select_session
  hashed-eq-view none w f g = refl
  hashed-eq-view (some bytes) w f g =
      let h = hex (env.crypto.sha256 bytes) in
      rw (run_sql-works (select_session h) w f) (found-eq-view_row (row_of h w.db) (after w) g)

  pub get_session-eq-view :
      (token : Str) (w : World)
      → env.fault w.tick ≡ false
      → env.fault (suc (suc w.tick)) ≡ false
      → (get_session env service token w).0 ≡ view env token (env.clock (suc w.tick)) w.db
  unfolding get_session get_session_record hash_token view App.◌>>=◌
  get_session-eq-view token w f g = hashed-eq-view (utf8_encode token) w f g
