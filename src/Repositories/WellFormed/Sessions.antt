-- ===== src/Repositories/WellFormed/Sessions.antt =====
-- The statements of app/repositories/sessions.py keep the constraints.
use python_typescript_wiki_b.Base.{
  ℕ, ◌≡◌, refl, sym, subst, ◌≢◌, Bool-cases, false, inl, inr, [], ◌∷◌, ◌++◌, map, arith, ◌==◌,
  if◌then◌else◌, same_iff, any, All-append,
}
use python_typescript_wiki_b.Base.Distinct.{
  All-imp, All-map, All-not_any, IsDistinct-append, IsDistinct-map,
}
use python_typescript_wiki_b.Text.{Str}
use python_typescript_wiki_b.Db.{Session, Db}
use python_typescript_wiki_b.Repositories.Sessions.{
  has_hash, new_session, admits_session, insert_session, update_where, set_expiry, set_revoked,
  update_expiry_statement, revoke_statement,
}
use python_typescript_wiki_b.Repositories.WellFormed.{IsWellFormed, HasUser}

-- An inserted session has a fresh id and hash, and a user.
append_session-IsWellFormed :
    (row : Session) (db : Db)
    → any (λ s. s.id == row.id) db.sessions ≡ false
    → any (has_hash row.token_hash) db.sessions ≡ false
    → HasUser db row.user_id
    → IsWellFormed db
    → IsWellFormed (record db { sessions = db.sessions ++ row ∷ [] })
append_session-IsWellFormed row db id hash user v = record {
  ids_below = v.ids_below;
  user_ids = v.user_ids;
  telegram_ids = v.telegram_ids;
  session_ids =
      IsDistinct-append (λ (s : Session). s.id) db.sessions row v.session_ids
        (All-imp (λ s. (s.id == row.id) ≡ false) (λ s. s.id ≢ row.id) (λ s h e. ground arith)
          db.sessions (All-not_any (λ s. s.id == row.id) db.sessions id));
  hashes =
      IsDistinct-append (λ (s : Session). s.token_hash) db.sessions row v.hashes
        (All-imp (λ s. has_hash row.token_hash s ≡ false) (λ s. s.token_hash ≢ row.token_hash)
          (λ s h e. ground (arith, same_iff s.token_hash row.token_hash)) db.sessions
          (All-not_any (has_hash row.token_hash) db.sessions hash));
  session_users =
      All-append (λ s. HasUser db s.user_id) db.sessions (row ∷ []) v.session_users (user, tt);
  space_ids = v.space_ids;
  members = v.members;
  member_keys = v.member_keys;
}

pub insert_session-IsWellFormed :
    (id user_id : ℕ) (h : Str) (moment now : ℕ) (db : Db)
    → IsWellFormed db
    → IsWellFormed (insert_session id user_id h moment now db).1
unfolding insert_session
insert_session-IsWellFormed id user_id h moment now db v =
    elim (Bool-cases (admits_session id user_id h db)) [
      | inl e ↦ rw e (
          append_session-IsWellFormed (new_session id user_id h moment now) db
            (unfold new_session admits_session in ground arith)
            (unfold new_session admits_session in ground arith)
            (unfold new_session admits_session in ground arith) v)
      | inr e ↦ rw e v
    ]

-- An update of sessions that keeps their ids, hashes and users.
map_sessions-IsWellFormed :
    (g : Session → Session) (db : Db)
    → ((s : Session) → (g s).id ≡ s.id)
    → ((s : Session) → (g s).token_hash ≡ s.token_hash)
    → ((s : Session) → (g s).user_id ≡ s.user_id)
    → IsWellFormed db
    → IsWellFormed (record db { sessions = map g db.sessions })
map_sessions-IsWellFormed g db ids hashes users v = record {
  ids_below = v.ids_below;
  user_ids = v.user_ids;
  telegram_ids = v.telegram_ids;
  session_ids = IsDistinct-map (λ (s : Session). s.id) g ids db.sessions v.session_ids;
  hashes = IsDistinct-map (λ (s : Session). s.token_hash) g hashes db.sessions v.hashes;
  session_users =
      All-map (λ s. HasUser db s.user_id) g (λ s h. subst (HasUser db) (sym (users s)) h)
        db.sessions v.session_users;
  space_ids = v.space_ids;
  members = v.members;
  member_keys = v.member_keys;
}

module _ (h : Str) (set : Session → Session) (db : Db) (v : IsWellFormed db) where
  abbrev set_where : Session → Session
  set_where s = if has_hash h s then set s else s

  update_where-IsWellFormed :
      ((s : Session) → (set s).id ≡ s.id)
      → ((s : Session) → (set s).token_hash ≡ s.token_hash)
      → ((s : Session) → (set s).user_id ≡ s.user_id)
      → IsWellFormed (record db { sessions = update_where h set db.sessions })
  unfolding update_where
  update_where-IsWellFormed ids hashes users =
      map_sessions-IsWellFormed set_where db (λ s. ground (arith, ids s))
        (λ s. ground (arith, hashes s)) (λ s. ground (arith, users s)) v

pub update_expiry-IsWellFormed :
    (h : Str) (moment now server : ℕ) (db : Db)
    → IsWellFormed db
    → IsWellFormed (update_expiry_statement h moment now server db).1
unfolding update_expiry_statement
update_expiry-IsWellFormed h moment now server db v =
    update_where-IsWellFormed h (set_expiry moment now) db v (λ s. refl) (λ s. refl) (λ s. refl)

pub revoke-IsWellFormed :
    (h : Str) (now server : ℕ) (db : Db)
    → IsWellFormed db
    → IsWellFormed (revoke_statement h now server db).1
unfolding revoke_statement
revoke-IsWellFormed h now server db v =
    update_where-IsWellFormed h (set_revoked now) db v (λ s. refl) (λ s. refl) (λ s. refl)
