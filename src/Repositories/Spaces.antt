-- ===== src/Repositories/Spaces.antt =====
-- app/repositories/spaces.py.
pub mod Atomic
use python_typescript_wiki_b.Base.{
  ℕ, Bool, true, false, ◌&&◌, not, Option, none, some, List, [], ◌∷◌, ◌++◌, ◌==◌, if◌then◌else◌,
  any,
}
use python_typescript_wiki_b.Text.{Str, codes}
use python_typescript_wiki_b.Errors.{database_error, Result, ok, raised}
use python_typescript_wiki_b.Db.{User, Space, SpaceMembership, Db, fits_varchar}
use python_typescript_wiki_b.Outside.{Env}
use python_typescript_wiki_b.App.{
  App, World, ◌>>=◌, ◌>>◌, observe, pure, run_sql, transaction, Statement,
}

unfoldable pub insert_space : Str → ℕ → Statement ℕ
unfolding any
insert_space name space_id now db =
    if fits_varchar 255 name && not (any (λ s. s.id == space_id) db.spaces)
    then (
      ok space_id,
      record db {
        spaces =
            db.spaces
            ++ record { id = space_id; name = name; deleted_at = none; delete_scheduled_at = none }
              ∷ [];
      },
    )
    else (raised database_error, db)

abbrev pub owner_role : Str
owner_role = codes "owner"

abbrev pub is_membership : ℕ → ℕ → SpaceMembership → Bool
is_membership user_id space_id m = m.user_id == user_id && m.space_id == space_id

-- The foreign keys to `users` and `spaces`, and the primary key.
abbrev pub admits_membership : ℕ → ℕ → Db → Bool
admits_membership owner_id space_id db =
    any (λ u. u.id == owner_id) db.users
    && any (λ s. s.id == space_id) db.spaces
    && not (any (is_membership owner_id space_id) db.memberships)

unfoldable pub insert_membership : ℕ → ℕ → Statement (Unit {0})
unfolding any
insert_membership owner_id space_id now db =
    if admits_membership owner_id space_id db
    then (
      ok tt,
      record db {
        memberships =
            db.memberships
            ++ record { user_id = owner_id; space_id = space_id; role = owner_role } ∷ [];
      },
    )
    else (raised database_error, db)

module _ (env : Env) where
  -- `gen_random_uuid()` is drawn by the server.
  unfoldable pub create_space : Str → ℕ → App ℕ
  create_space name owner_id = transaction env do
    fresh ← observe env.uuid
    space_id ← run_sql env (insert_space name fresh)
    run_sql env (insert_membership owner_id space_id)
    pure space_id
