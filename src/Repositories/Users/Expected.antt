-- ===== src/Repositories/Users/Expected.antt =====
-- What `upsert_user` and `_row_to_profile` of app/repositories/users.py are to do, field by field and
-- apart from the code's own helpers.
use python_typescript_wiki_b.Base.{ℕ, Option, none, some}
use python_typescript_wiki_b.Db.{User}
use python_typescript_wiki_b.Repositories.Users.{UserProfile, UserFields}

-- The profile that shows a row.
abbrev pub shown : User → UserProfile
shown row = record {
  id = row.id;
  telegram_id = row.telegram_id;
  username = row.username;
  first_name = row.first_name;
  last_name = row.last_name;
  photo_url = row.photo_url;
  permission = row.permission;
  created_at = row.created_at;
  last_login_at = row.last_login_at;
}

-- The row of a user who logs in for the first time.
abbrev pub first_login : UserFields → ℕ → ℕ → User
first_login f id now = record {
  id = id;
  telegram_id = f.telegram_id;
  username = f.username;
  first_name = f.first_name;
  last_name = f.last_name;
  photo_url = f.photo_url;
  permission = f.permission;
  created_at = now;
  updated_at = now;
  last_login_at = now;
}

-- The value that a login gives, and the stored one where it gives none.
abbrev pub given_or : {A : Type 0} → Option A → Option A → Option A
given_or none stored = stored
given_or (some value) stored = some value

-- The row of a user who was there: id, telegram id and the time of creation stay.
abbrev pub next_login : UserFields → ℕ → User → User
next_login f now old = record {
  id = old.id;
  telegram_id = old.telegram_id;
  username = given_or f.username old.username;
  first_name = given_or f.first_name old.first_name;
  last_name = given_or f.last_name old.last_name;
  photo_url = given_or f.photo_url old.photo_url;
  permission = given_or f.permission old.permission;
  created_at = old.created_at;
  updated_at = now;
  last_login_at = now;
}
