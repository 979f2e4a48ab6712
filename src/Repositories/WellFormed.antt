-- ===== src/Repositories/WellFormed.antt =====
-- The constraints of the tables (keys, unique columns, foreign keys), and app/repositories/users.py
-- keeps them.
pub mod Sessions
pub mod Spaces
use python_typescript_wiki_b.Base.{
  ℕ, suc, ◌+◌, ◌<◌, ◌≤◌, ◌≡◌, refl, sym, ap, subst, ◌∙◌, ◌≢◌, Bool, Bool-cases, true, false, ◌&&◌,
  ◌||◌, not, Option, Option-cases, inl, inr, none, some, List, [], ◌∷◌, ◌++◌, map, arith, ◌==◌,
  if◌then◌else◌, same, same_iff, find?, any, All, All-append,
}
use python_typescript_wiki_b.Base.Int.{ℤ, eq_ℤ, eq_ℤ_iff}
use python_typescript_wiki_b.Base.Search.{find?-none-All}
use python_typescript_wiki_b.Base.Distinct.{
  All-imp, All-map, All-not_any, any-append, any-append_one, any-map, IsDistinct, IsDistinct-append,
  IsDistinct-map,
}
use python_typescript_wiki_b.Text.{Str}
use python_typescript_wiki_b.Errors.{Result, ok, raised}
use python_typescript_wiki_b.Db.{User, Session, Space, SpaceMembership, Db, empty_db, fits_varchar}
use python_typescript_wiki_b.Repositories.Users.{
  UserFields, fits_users, new_user, merge_user, has_telegram_id, upsert_row, upsert_statement,
}
use python_typescript_wiki_b.Repositories.Sessions.{
  has_hash, new_session, admits_session, insert_session, update_where, set_expiry, set_revoked,
  update_expiry_statement, revoke_statement,
}
use python_typescript_wiki_b.Repositories.Spaces.{
  insert_space, insert_membership, admits_membership,
}

abbrev pub HasUser : Db → ℕ → Type 0
HasUser db id = any (λ u. u.id == id) db.users ≡ true

abbrev pub HasSpace : Db → ℕ → Type 0
HasSpace db id = any (λ s. s.id == id) db.spaces ≡ true

abbrev pub member_key : SpaceMembership → ℕ × ℕ
member_key m = (m.user_id, m.space_id)

pub record IsWellFormed (db : Db) : Type 0 where
  pub ids_below : All (λ u. u.id < db.next_user_id) db.users
  pub user_ids : IsDistinct (λ (u : User). u.id) db.users
  pub telegram_ids : IsDistinct (λ (u : User). u.telegram_id) db.users
  pub session_ids : IsDistinct (λ (s : Session). s.id) db.sessions
  pub hashes : IsDistinct (λ (s : Session). s.token_hash) db.sessions
  pub session_users : All (λ s. HasUser db s.user_id) db.sessions
  pub space_ids : IsDistinct (λ (s : Space). s.id) db.spaces
  pub members : All (λ m. HasUser db m.user_id × HasSpace db m.space_id) db.memberships
  pub member_keys : IsDistinct member_key db.memberships

pub IsWellFormed-empty : IsWellFormed empty_db
IsWellFormed-empty = record {
  ids_below = tt;
  user_ids = tt;
  telegram_ids = tt;
  session_ids = tt;
  hashes = tt;
  session_users = tt;
  space_ids = tt;
  members = tt;
  member_keys = tt;
}

-- A new user has a fresh id, and a telegram id that no row has.
insert_user-IsWellFormed :
    (f : UserFields) (now : ℕ) (db : Db)
    → find? (has_telegram_id f.telegram_id) db.users ≡ none
    → IsWellFormed db
    → IsWellFormed (record db {
      users = db.users ++ new_user f db.next_user_id now ∷ [];
      next_user_id = suc db.next_user_id;
    })
unfolding new_user
insert_user-IsWellFormed f now db absent v =
    let row = new_user f db.next_user_id now in
    record {
      ids_below =
          All-append (λ u. u.id < suc db.next_user_id) db.users (row ∷ [])
            (All-imp (λ u. u.id < db.next_user_id) (λ u. u.id < suc db.next_user_id)
              (λ u h. omega arith) db.users v.ids_below)
            (omega arith, tt);
      user_ids =
          IsDistinct-append (λ (u : User). u.id) db.users row v.user_ids
            (All-imp (λ u. u.id < db.next_user_id) (λ u. u.id ≢ db.next_user_id)
              (λ u h. omega arith) db.users v.ids_below);
      telegram_ids =
          IsDistinct-append (λ (u : User). u.telegram_id) db.users row v.telegram_ids
            (All-imp (λ u. has_telegram_id f.telegram_id u ≡ false)
              (λ u. u.telegram_id ≢ f.telegram_id)
              (λ u h e. ground (arith, eq_ℤ_iff u.telegram_id f.telegram_id)) db.users
              (find?-none-All (has_telegram_id f.telegram_id) db.users absent));
      session_ids = v.session_ids;
      hashes = v.hashes;
      session_users =
          All-imp (λ s. HasUser db s.user_id)
            (λ s. any (λ u. u.id == s.user_id) (db.users ++ row ∷ []) ≡ true)
            (λ s h. any-append (λ u. u.id == s.user_id) db.users (row ∷ []) h) db.sessions
            v.session_users;
      space_ids = v.space_ids;
      members =
          All-imp (λ m. HasUser db m.user_id × HasSpace db m.space_id)
            (λ m.
              (any (λ u. u.id == m.user_id) (db.users ++ row ∷ []) ≡ true) × HasSpace db m.space_id)
            (λ m h. (any-append (λ u. u.id == m.user_id) db.users (row ∷ []) h.0, h.1))
            db.memberships v.members;
      member_keys = v.member_keys;
    }

-- A change of users that keeps ids and telegram ids.
map_users-IsWellFormed :
    (g : User → User) (n : ℕ) (db : Db)
    → ((u : User) → (g u).id ≡ u.id)
    → ((u : User) → (g u).telegram_id ≡ u.telegram_id)
    → db.next_user_id ≤ n
    → IsWellFormed db
    → IsWellFormed (record db { users = map g db.users; next_user_id = n })
map_users-IsWellFormed g n db ids telegrams le v =
    let has_user : (i : ℕ) → HasUser db i → any (λ u. u.id == i) (map g db.users) ≡ true =
      λ i h. any-map (λ u. u.id == i) g (λ u. ap (λ k. k == i) (ids u)) db.users ∙ h in
    record {
      ids_below =
          All-map (λ u. u.id < n) g (λ u h. omega (arith, ids u)) db.users
            (All-imp (λ u. u.id < db.next_user_id) (λ u. u.id < n) (λ u h. omega arith) db.users
              v.ids_below);
      user_ids = IsDistinct-map (λ (u : User). u.id) g ids db.users v.user_ids;
      telegram_ids =
          IsDistinct-map (λ (u : User). u.telegram_id) g telegrams db.users v.telegram_ids;
      session_ids = v.session_ids;
      hashes = v.hashes;
      session_users =
          All-imp (λ s. HasUser db s.user_id)
            (λ s. any (λ u. u.id == s.user_id) (map g db.users) ≡ true)
            (λ s h. has_user s.user_id h) db.sessions v.session_users;
      space_ids = v.space_ids;
      members =
          All-imp (λ m. HasUser db m.user_id × HasSpace db m.space_id)
            (λ m. (any (λ u. u.id == m.user_id) (map g db.users) ≡ true) × HasSpace db m.space_id)
            (λ m h. (has_user m.user_id h.0, h.1)) db.memberships v.members;
      member_keys = v.member_keys;
    }

abbrev merge_where : UserFields → ℕ → User → User
merge_where f now u = if has_telegram_id f.telegram_id u then merge_user f now u else u

merge_where-id : (f : UserFields) (now : ℕ) (u : User) → (merge_where f now u).id ≡ u.id
unfolding merge_user
merge_where-id f now u = ground arith

merge_where-telegram_id :
    (f : UserFields) (now : ℕ) (u : User) → (merge_where f now u).telegram_id ≡ u.telegram_id
unfolding merge_user
merge_where-telegram_id f now u = ground arith

upsert_row-IsWellFormed :
    (f : UserFields) (now : ℕ) (db : Db) (o : Option User)
    → find? (has_telegram_id f.telegram_id) db.users ≡ o
    → IsWellFormed db
    → IsWellFormed (upsert_row f now o db).1
unfolding upsert_row
upsert_row-IsWellFormed f now db none e v = insert_user-IsWellFormed f now db e v
upsert_row-IsWellFormed f now db (some old) e v =
    map_users-IsWellFormed (merge_where f now) (suc db.next_user_id) db (merge_where-id f now)
      (merge_where-telegram_id f now) (omega arith) v

pub upsert-IsWellFormed :
    (f : UserFields) (now server : ℕ) (db : Db)
    → IsWellFormed db
    → IsWellFormed (upsert_statement f now server db).1
unfolding upsert_statement
upsert-IsWellFormed f now server db v = elim (Bool-cases (fits_users f db.next_user_id)) [
  | inl e ↦
      rw e
        (upsert_row-IsWellFormed f now db (find? (has_telegram_id f.telegram_id) db.users) refl v)
  | inr e ↦ rw e v
]
