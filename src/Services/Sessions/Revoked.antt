-- ===== src/Services/Sessions/Revoked.antt =====
-- A revoked session stays revoked, whatever statements run.
use mathlib.Core.Option
use python_typescript_wiki_b.Base.{
  ℕ, ◌≡◌, refl, ap, ◌∙◌, Bool-cases, Option, inl, inr, none, some, [], ◌∷◌, map, arith,
  if◌then◌else◌, find?, same,
}
use python_typescript_wiki_b.Base.Search.{find?-append_some, find?-map}
use python_typescript_wiki_b.Text.{Str}
use python_typescript_wiki_b.Errors.{ok, raised}
use python_typescript_wiki_b.Db.{User, Session, Db}
use python_typescript_wiki_b.Outside.{Env}
use python_typescript_wiki_b.Repositories.Users.{
  UserFields, fits_users, has_telegram_id, upsert_row, upsert_statement,
}
use python_typescript_wiki_b.Repositories.Sessions.{
  has_hash, new_session, admits_session, insert_session, update_where, set_expiry, set_revoked,
  update_expiry_statement, revoke_statement,
}
use python_typescript_wiki_b.Repositories.Spaces.{insert_space, insert_membership}
use python_typescript_wiki_b.Services.Sessions.{expired, hash_token}
use python_typescript_wiki_b.Services.Sessions.View.{view, hash_token_sound}
use python_typescript_wiki_b.Services.Sessions.Lifecycle.{IsRevoked}
use python_typescript_wiki_b.Services.Keeps.{IsStable}

sessions-upsert_row :
    (f : UserFields) (now : ℕ) (o : Option User) (db : Db)
    → (upsert_row f now o db).1.sessions ≡ db.sessions
unfolding upsert_row
sessions-upsert_row f now none db = refl
sessions-upsert_row f now (some old) db = refl

pub sessions-upsert :
    (f : UserFields) (now server : ℕ) (db : Db)
    → (upsert_statement f now server db).1.sessions ≡ db.sessions
unfolding upsert_statement
sessions-upsert f now server db = elim (Bool-cases (fits_users f db.next_user_id)) [
  | inl e ↦ rw e (sessions-upsert_row f now (find? (has_telegram_id f.telegram_id) db.users) db)
  | inr e ↦ rw e refl
]

pub sessions-insert_space :
    (name : Str) (id now : ℕ) (db : Db) → (insert_space name id now db).1.sessions ≡ db.sessions
unfolding insert_space
sessions-insert_space name id now db = ground arith

pub sessions-insert_membership :
    (owner id now : ℕ) (db : Db) → (insert_membership owner id now db).1.sessions ≡ db.sessions
unfolding insert_membership
sessions-insert_membership owner id now db = ground arith

module _ (hash : Str) where
  IsRevoked-same :
      (db db' : Db) → db'.sessions ≡ db.sessions → IsRevoked hash db → IsRevoked hash db'
  IsRevoked-same db db' e v = record {
    row = v.row;
    found = ap (find? (has_hash hash)) e ∙ v.found;
    moment = v.moment;
    revoked = v.revoked;
  }

  -- An update of sessions that keeps their hashes, and leaves the revoked ones revoked.
  IsRevoked-map :
      (g : Session → Session) (db : Db)
      → ((s : Session) → (g s).token_hash ≡ s.token_hash)
      → ((s : Session) (m : ℕ) → s.revoked_at ≡ some m → (m' : ℕ) × ((g s).revoked_at ≡ some m'))
      → IsRevoked hash db
      → IsRevoked hash (record db { sessions = map g db.sessions })
  IsRevoked-map g db hashes stays v =
      let (m', still) = stays v.row v.moment v.revoked in
      record {
        row = g v.row;
        found =
            find?-map (has_hash hash) g (λ s. ap (λ h. same h hash) (hashes s)) db.sessions
            ∙ ap (Option.map g) v.found;
        moment = m';
        revoked = still;
      }

  IsRevoked-insert :
      (id user_id : ℕ) (h : Str) (moment now : ℕ) (db : Db)
      → IsRevoked hash db
      → IsRevoked hash (insert_session id user_id h moment now db).1
  unfolding insert_session
  IsRevoked-insert id user_id h moment now db v =
      elim (Bool-cases (admits_session id user_id h db)) [
        | inl e ↦ rw e (record {
          row = v.row;
          found =
              find?-append_some (has_hash hash) db.sessions
                (new_session id user_id h moment now ∷ []) v.row v.found;
          moment = v.moment;
          revoked = v.revoked;
        })
        | inr e ↦ rw e v
      ]

  revoke_row :
      (h : Str) (now : ℕ) (s : Session) (m : ℕ)
      → s.revoked_at ≡ some m
      → (m' : ℕ) × ((if has_hash h s then set_revoked now s else s).revoked_at ≡ some m')
  revoke_row h now s m r = elim (Bool-cases (has_hash h s)) [
    | inl e ↦ (now, rw e refl)
    | inr e ↦ (m, rw e r)
  ]

  pub IsStable-IsRevoked : IsStable (IsRevoked hash)
  unfolding update_expiry_statement revoke_statement update_where
  IsStable-IsRevoked = record {
    upserts = λ f now server db v. IsRevoked-same db _ (sessions-upsert f now server db) v;
    inserts = IsRevoked-insert;
    renews = λ h moment now server db v.
        IsRevoked-map (λ s. if has_hash h s then set_expiry moment now s else s) db
          (λ s. ground arith) (λ s m r. (m, ground arith)) v;
    revokes = λ h now server db v.
        IsRevoked-map (λ s. if has_hash h s then set_revoked now s else s) db (λ s. ground arith)
          (revoke_row h now) v;
    spaces = λ name id now db v. IsRevoked-same db _ (sessions-insert_space name id now db) v;
    members =
        λ owner id now db v. IsRevoked-same db _ (sessions-insert_membership owner id now db) v;
  }

  -- A revoked session is expired at every moment.
  pub view-IsRevoked :
      (env : Env) (token : Str) (now : ℕ) (db : Db)
      → hash_token env token ≡ ok hash
      → IsRevoked hash db
      → view env token now db ≡ raised expired
  unfolding view
  view-IsRevoked env token now db hashed v =
      let (bytes, encoded, digest) = hash_token_sound env token hashed in
      rw (encoded, digest, v.found, v.revoked) refl
