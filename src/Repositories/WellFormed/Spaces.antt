-- ===== src/Repositories/WellFormed/Spaces.antt =====
-- The statements of app/repositories/spaces.py keep the constraints.
use python_typescript_wiki_b.Base.{
  ℕ, ◌≡◌, ◌≢◌, Bool-cases, true, false, ◌&&◌, not, inl, inr, [], ◌∷◌, ◌++◌, arith, ◌==◌, any,
  All-append,
}
use python_typescript_wiki_b.Base.Distinct.{All-imp, All-not_any, any-append, IsDistinct-append}
use python_typescript_wiki_b.Text.{Str}
use python_typescript_wiki_b.Db.{Space, SpaceMembership, Db, fits_varchar}
use python_typescript_wiki_b.Repositories.Spaces.{
  insert_space, insert_membership, admits_membership,
}
use python_typescript_wiki_b.Repositories.WellFormed.{IsWellFormed, HasUser, HasSpace, member_key}

-- An inserted space has a fresh id.
append_space-IsWellFormed :
    (row : Space) (db : Db)
    → any (λ s. s.id == row.id) db.spaces ≡ false
    → IsWellFormed db
    → IsWellFormed (record db { spaces = db.spaces ++ row ∷ [] })
append_space-IsWellFormed row db id v = record {
  ids_below = v.ids_below;
  user_ids = v.user_ids;
  telegram_ids = v.telegram_ids;
  session_ids = v.session_ids;
  hashes = v.hashes;
  session_users = v.session_users;
  space_ids =
      IsDistinct-append (λ (s : Space). s.id) db.spaces row v.space_ids
        (All-imp (λ s. (s.id == row.id) ≡ false) (λ s. s.id ≢ row.id) (λ s h e. ground arith)
          db.spaces (All-not_any (λ s. s.id == row.id) db.spaces id));
  members =
      All-imp (λ m. HasUser db m.user_id × HasSpace db m.space_id)
        (λ m. HasUser db m.user_id × (any (λ s. s.id == m.space_id) (db.spaces ++ row ∷ []) ≡ true))
        (λ m h. (h.0, any-append (λ s. s.id == m.space_id) db.spaces (row ∷ []) h.1)) db.memberships
        v.members;
  member_keys = v.member_keys;
}

pub insert_space-IsWellFormed :
    (name : Str) (id now : ℕ) (db : Db)
    → IsWellFormed db
    → IsWellFormed (insert_space name id now db).1
unfolding insert_space
insert_space-IsWellFormed name id now db v =
    elim (Bool-cases (fits_varchar 255 name && not (any (λ s. s.id == id) db.spaces))) [
      | inl e ↦ rw e (append_space-IsWellFormed _ db (ground arith) v)
      | inr e ↦ rw e v
    ]

-- An inserted membership names a user and a space that are there, and is the only one for them.
append_member-IsWellFormed :
    (row : SpaceMembership) (db : Db)
    → HasUser db row.user_id
    → HasSpace db row.space_id
    → any (λ m. m.user_id == row.user_id && m.space_id == row.space_id) db.memberships ≡ false
    → IsWellFormed db
    → IsWellFormed (record db { memberships = db.memberships ++ row ∷ [] })
append_member-IsWellFormed row db user space key v = record {
  ids_below = v.ids_below;
  user_ids = v.user_ids;
  telegram_ids = v.telegram_ids;
  session_ids = v.session_ids;
  hashes = v.hashes;
  session_users = v.session_users;
  space_ids = v.space_ids;
  members =
      All-append (λ m. HasUser db m.user_id × HasSpace db m.space_id) db.memberships (row ∷ [])
        v.members ((user, space), tt);
  member_keys = IsDistinct-append member_key db.memberships row v.member_keys (
      All-imp (λ m. (m.user_id == row.user_id && m.space_id == row.space_id) ≡ false)
        (λ m. member_key m ≢ member_key row) (λ m h e. ground arith) db.memberships
        (All-not_any (λ m. m.user_id == row.user_id && m.space_id == row.space_id) db.memberships
          key));
}

pub insert_membership-IsWellFormed :
    (owner id now : ℕ) (db : Db)
    → IsWellFormed db
    → IsWellFormed (insert_membership owner id now db).1
unfolding insert_membership
insert_membership-IsWellFormed owner id now db v =
    elim (Bool-cases (admits_membership owner id db)) [
      | inl e ↦
          rw e (append_member-IsWellFormed _ db (ground arith) (ground arith) (ground arith) v)
      | inr e ↦ rw e v
    ]
