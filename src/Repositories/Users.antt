-- ===== src/Repositories/Users.antt =====
-- app/repositories/users.py, and the profile of app/services/models.py.
pub mod Expected
pub mod Upsert
pub mod Search
use mathlib.Core.Option
use python_typescript_wiki_b.Base.{
  ℕ, suc, Bool, true, false, ◌&&◌, not, Option, none, some, List, [], ◌∷◌, ◌++◌, map, ◌==◌,
  if◌then◌else◌, find?, take, all,
}
use python_typescript_wiki_b.Base.Int.{ℤ, eq_ℤ}
use python_typescript_wiki_b.Text.{Str}
use python_typescript_wiki_b.Errors.{database_error, Result, ok, raised}
use python_typescript_wiki_b.Db.{User, Db, fits_nullable, fits_bigint, fits_integer, is_storable}
use python_typescript_wiki_b.Outside.{Env}
use python_typescript_wiki_b.App.{App, World, ◌>>=◌, observe, pure, run_sql, Statement}
use python_typescript_wiki_b.Repositories.Like.{ilike}

-- `UserProfile`
pub record UserProfile : Type 0 where
  pub id : ℕ
  pub telegram_id : ℤ
  pub username : Option Str
  pub first_name : Option Str
  pub last_name : Option Str
  pub photo_url : Option Str
  pub permission : Option Str
  pub created_at : ℕ
  pub last_login_at : ℕ

unfoldable pub profile_of : User → UserProfile
profile_of row = record {
  id = row.id;
  telegram_id = row.telegram_id;
  username = row.username;
  first_name = row.first_name;
  last_name = row.last_name;
  photo_url = row.photo_url;
  permission = row.permission;
  created_at = row.created_at;
  last_login_at = row.last_login_at;
}

-- The keyword arguments of `upsert_user`.
pub record UserFields : Type 0 where
  pub telegram_id : ℤ
  pub username : Option Str
  pub first_name : Option Str
  pub last_name : Option Str
  pub photo_url : Option Str
  pub permission : Option Str

abbrev pub coalesce : {A : Type 0} → Option A → Option A → Option A
coalesce none old = old
coalesce (some new) old = some new

-- The row that the columns' types and the sequence of ids admit.
unfoldable pub fits_users : UserFields → ℕ → Bool
fits_users f next_id =
    fits_integer next_id
    && fits_bigint f.telegram_id
    && fits_nullable 255 f.username
    && fits_nullable 255 f.first_name
    && fits_nullable 255 f.last_name
    && fits_nullable 1024 f.photo_url
    && fits_nullable 64 f.permission

unfoldable pub new_user : UserFields → ℕ → ℕ → User
new_user f next_id now = record {
  id = next_id;
  telegram_id = f.telegram_id;
  username = f.username;
  first_name = f.first_name;
  last_name = f.last_name;
  photo_url = f.photo_url;
  permission = f.permission;
  created_at = now;
  updated_at = now;
  last_login_at = now;
}

-- ON CONFLICT (telegram_id) DO UPDATE SET …
unfoldable pub merge_user : UserFields → ℕ → User → User
merge_user f now old = record old {
  username = coalesce f.username old.username;
  first_name = coalesce f.first_name old.first_name;
  last_name = coalesce f.last_name old.last_name;
  photo_url = coalesce f.photo_url old.photo_url;
  permission = coalesce f.permission old.permission;
  updated_at = now;
  last_login_at = now;
}

abbrev pub has_telegram_id : ℤ → User → Bool
has_telegram_id t row = eq_ℤ row.telegram_id t

-- The sequence of ids moves on for a conflict too.
unfoldable pub upsert_row : UserFields → ℕ → Option User → Db → Result (UserProfile × Bool) × Db
unfolding new_user merge_user profile_of
upsert_row f now none db =
    let row = new_user f db.next_user_id now in
    (
      ok (profile_of row, true),
      record db { users = db.users ++ row ∷ []; next_user_id = suc db.next_user_id },
    )
upsert_row f now (some old) db = (
  ok (profile_of (merge_user f now old), false),
  record db {
    users = map (λ u. if has_telegram_id f.telegram_id u then merge_user f now u else u) db.users;
    next_user_id = suc db.next_user_id;
  },
)

unfoldable pub upsert_statement : UserFields → ℕ → Statement (UserProfile × Bool)
unfolding upsert_row
upsert_statement f now server_now db =
    if fits_users f db.next_user_id
    then upsert_row f now (find? (has_telegram_id f.telegram_id) db.users) db
    else (raised database_error, db)

-- `SELECT … FROM users WHERE id = $1`
unfoldable pub select_user : ℕ → Statement (Option UserProfile)
unfolding profile_of find?
select_user id now db = (ok (Option.map profile_of (find? (λ u. u.id == id) db.users)), db)

-- `username ILIKE $1`, false for NULL
unfoldable pub username_matches : (ℕ → ℕ) → Str → User → Bool
unfolding ilike
username_matches fold query row = elim row.username [
  | none ↦ false
  | some name ↦ ilike fold (b'%' ∷ (query ++ b'%' ∷ [])) name
]

unfoldable pub keep : (User → Bool) → List User → List User
keep p [] = []
keep p (u ∷ us) = let rest = keep p us in if p u then u ∷ rest else rest

-- Without ORDER BY, the rows come in the order of the scan. A query that UTF8 text cannot hold is
-- refused.
unfoldable pub search_statement : (ℕ → ℕ) → Str → ℕ → Statement (List UserProfile)
unfolding username_matches keep profile_of
search_statement fold query limit now db =
    if all is_storable query
    then (ok (map profile_of (take limit (keep (username_matches fold query) db.users))), db)
    else (raised database_error, db)

module _ (env : Env) where
  unfoldable pub upsert_user : UserFields → App (UserProfile × Bool)
  upsert_user f = do now ← observe env.clock; run_sql env (upsert_statement f now)

  unfoldable pub get_by_id : ℕ → App (Option UserProfile)
  get_by_id user_id = run_sql env (select_user user_id)

  unfoldable pub search_by_username : Str → ℕ → App (List UserProfile)
  search_by_username query limit = run_sql env (search_statement env.fold_case query limit)
