-- ===== src/Repositories/Users/Upsert.antt =====
-- What `upsert_user` of app/repositories/users.py leaves in the table.
use mathlib.Core.Option
use python_typescript_wiki_b.Base.{
  ℕ, suc, ◌<◌, ◌≡◌, refl, ap, ◌∙◌, ◌≢◌, subst, Bool, Bool-cases, true, false, Option, inl, inr,
  none, some, [], ◌∷◌, ◌++◌, map, arith, ◌==◌, if◌then◌else◌, find?,
}
use python_typescript_wiki_b.Base.Int.{ℤ, eq_ℤ, eq_ℤ_iff}
use python_typescript_wiki_b.Base.Search.{
  find?-append_none, find?-append_one_ne, find?-one, find?-none_of_All, find?-map, find?-holds,
}
use python_typescript_wiki_b.Base.Distinct.{All-imp, find?-key}
use python_typescript_wiki_b.Text.{Str}
use python_typescript_wiki_b.Errors.{Result, ok, raised}
use python_typescript_wiki_b.Db.{User, Db}
use python_typescript_wiki_b.Repositories.Users.{
  UserProfile, UserFields, profile_of, coalesce, fits_users, new_user, merge_user, has_telegram_id,
  upsert_row, upsert_statement,
}
use python_typescript_wiki_b.Repositories.Users.Expected.{shown, first_login, given_or, next_login}
use python_typescript_wiki_b.Repositories.WellFormed.{IsWellFormed}

-- The row with an id.
abbrev pub row_with_id : ℕ → Db → Option User
row_with_id id db = find? (λ u. u.id == id) db.users

-- The row with a telegram id.
abbrev pub row_with_telegram_id : ℤ → Db → Option User
row_with_telegram_id t db = find? (has_telegram_id t) db.users

-- What an upsert stands for: a new row, or the row of before with the new values that are given.
abbrev pub upserted : UserFields → ℕ → Db → Option User → User
upserted f now db none = first_login f db.next_user_id now
upserted f now db (some old) = next_login f now old

abbrev pub is_none : Option User → Bool
is_none none = true
is_none (some u) = false

-- The outcome of an upsert: the row that it returned, found by its id and by its telegram id, and the
-- rows of other telegram ids as before.
pub record IsUpsert (f : UserFields) (now : ℕ) (db db' : Db) (p : UserProfile) (created : Bool)
    : Type 0 where
  pub row : User
  pub row_eq : row ≡ upserted f now db (row_with_telegram_id f.telegram_id db)
  pub profile : p ≡ shown row
  pub is_new : created ≡ is_none (row_with_telegram_id f.telegram_id db)
  pub by_id : row_with_id p.id db' ≡ some row
  pub by_telegram_id : row_with_telegram_id f.telegram_id db' ≡ some row
  pub others : (t : ℤ) → t ≢ f.telegram_id → row_with_telegram_id t db' ≡ row_with_telegram_id t db

abbrev Outcome : UserFields → ℕ → Db → Result (UserProfile × Bool) × Db → Type 0
Outcome f now db (ok (p, created), db') = IsUpsert f now db db' p created
Outcome f now db (raised e, db') = Unit

coalesce-eq-given_or : (new old : Option Str) → coalesce new old ≡ given_or new old
coalesce-eq-given_or none old = refl
coalesce-eq-given_or (some value) old = refl

merge_user-eq-next_login :
    (f : UserFields) (now : ℕ) (old : User) → merge_user f now old ≡ next_login f now old
unfolding merge_user
merge_user-eq-next_login f now old = λ i. record old {
  username = coalesce-eq-given_or f.username old.username i;
  first_name = coalesce-eq-given_or f.first_name old.first_name i;
  last_name = coalesce-eq-given_or f.last_name old.last_name i;
  photo_url = coalesce-eq-given_or f.photo_url old.photo_url i;
  permission = coalesce-eq-given_or f.permission old.permission i;
  updated_at = now;
  last_login_at = now;
}

abbrev merge_where : UserFields → ℕ → User → User
merge_where f now u = if has_telegram_id f.telegram_id u then merge_user f now u else u

module _ (f : UserFields) (now : ℕ) (db : Db) (v : IsWellFormed db) where
  insert-IsUpsert :
      row_with_telegram_id f.telegram_id db ≡ none
      → IsUpsert f now db
          (record db {
            users = db.users ++ new_user f db.next_user_id now ∷ [];
            next_user_id = suc db.next_user_id;
          })
          (profile_of (new_user f db.next_user_id now))
          true
  unfolding new_user profile_of
  insert-IsUpsert absent =
      let row = new_user f db.next_user_id now in
      record {
        row = row;
        row_eq = rw absent refl;
        profile = refl;
        is_new = rw absent refl;
        by_id =
            find?-append_none (λ u. u.id == row.id) db.users (row ∷ [])
              (find?-none_of_All (λ u. u.id == row.id) db.users
                (All-imp (λ u. u.id < db.next_user_id) (λ u. (u.id == row.id) ≡ false)
                  (λ u h. ground arith) db.users v.ids_below))
            ∙ find?-one (λ u. u.id == row.id) row (ground arith);
        by_telegram_id =
            find?-append_none (has_telegram_id f.telegram_id) db.users (row ∷ []) absent
            ∙ find?-one (has_telegram_id f.telegram_id) row
                ((eq_ℤ_iff f.telegram_id f.telegram_id).1 refl);
        others = λ t ne.
            find?-append_one_ne (has_telegram_id t) db.users row
              (ground (arith, eq_ℤ_iff f.telegram_id t));
      }

  merged_old :
      (old : User)
      → row_with_telegram_id f.telegram_id db ≡ some old
      → ◌≡◌ {A = Option User} (some (merge_where f now old)) (some (merge_user f now old))
  merged_old old found =
      ap (λ b. some (if b then merge_user f now old else old))
        (find?-holds (has_telegram_id f.telegram_id) db.users old found)

  unmerged :
      (t : ℤ)
      → t ≢ f.telegram_id
      → (o : Option User) → row_with_telegram_id t db ≡ o
      → Option.map (merge_where f now) o ≡ o
  unmerged t ne none e = refl
  unmerged t ne (some u) e =
      let h : eq_ℤ u.telegram_id t ≡ true = find?-holds (has_telegram_id t) db.users u e in
      let off : eq_ℤ u.telegram_id f.telegram_id ≡ false =
        ground (arith, eq_ℤ_iff u.telegram_id t, eq_ℤ_iff u.telegram_id f.telegram_id) in
      ap (λ b. some (if b then merge_user f now u else u)) off

  merge-IsUpsert :
      (old : User)
      → row_with_telegram_id f.telegram_id db ≡ some old
      → IsUpsert f now db
          (record db {
            users = map (merge_where f now) db.users;
            next_user_id = suc db.next_user_id;
          })
          (profile_of (merge_user f now old))
          false
  unfolding merge_user profile_of
  merge-IsUpsert old found = record {
    row = merge_user f now old;
    row_eq = merge_user-eq-next_login f now old ∙ rw found refl;
    profile = refl;
    is_new = rw found refl;
    by_id =
        find?-map (λ u. u.id == old.id) (merge_where f now) (λ u. ground arith) db.users
        ∙ ap (Option.map (merge_where f now))
            (find?-key (has_telegram_id f.telegram_id) (λ u. u.id) db.users old v.user_ids found)
        ∙ merged_old old found;
    by_telegram_id =
        find?-map (has_telegram_id f.telegram_id) (merge_where f now) (λ u. ground arith) db.users
        ∙ ap (Option.map (merge_where f now)) found
        ∙ merged_old old found;
    others = λ t ne.
        find?-map (has_telegram_id t) (merge_where f now) (λ u. ground arith) db.users
        ∙ unmerged t ne (row_with_telegram_id t db) refl;
  }

  row-IsUpsert :
      (o : Option User) {p : UserProfile} {created : Bool} {db' : Db}
      → row_with_telegram_id f.telegram_id db ≡ o
      → upsert_row f now o db ≡ (ok (p, created), db')
      → IsUpsert f now db db' p created
  unfolding upsert_row
  row-IsUpsert none found h = subst (Outcome f now db) h (insert-IsUpsert found)
  row-IsUpsert (some old) found h = subst (Outcome f now db) h (merge-IsUpsert old found)

  -- On well-formed tables an upsert that succeeds returns the profile of the new row, or of the old
  -- row with the values that are given in place of its own and the time of this login, and says which
  -- of the two it was; the tables have that row under its id and its telegram id, and the row of every
  -- other telegram id is as it was.
  pub upsert_statement-IsUpsert :
      (server : ℕ) {p : UserProfile} {created : Bool} {db' : Db}
      → upsert_statement f now server db ≡ (ok (p, created), db')
      → IsUpsert f now db db' p created
  unfolding upsert_statement
  upsert_statement-IsUpsert server h = elim (Bool-cases (fits_users f db.next_user_id)) [
    | inl e ↦ row-IsUpsert (row_with_telegram_id f.telegram_id db) refl (rw e at h)
    | inr e ↦ absurd (ground (arith, e))
  ]
