-- ===== src/Repositories/Limits.antt =====
-- Every stored value fits the type of its column in app/models.py, whatever statements run.
use python_typescript_wiki_b.Base.{
  ℕ, ◌≡◌, refl, Bool, Bool-cases, true, ◌&&◌, not, Option, inl, inr, none, some, List, [], ◌∷◌,
  arith, ◌==◌, if◌then◌else◌, find?, any, all, All, All-append,
}
use python_typescript_wiki_b.Base.Distinct.{All-map}
use python_typescript_wiki_b.Text.{Str}
use python_typescript_wiki_b.Db.{
  User, Session, Space, SpaceMembership, Db, fits_varchar, fits_nullable, fits_bigint, fits_integer,
}
use python_typescript_wiki_b.Repositories.Users.{
  UserFields, fits_users, coalesce, new_user, merge_user, has_telegram_id, upsert_row,
  upsert_statement,
}
use python_typescript_wiki_b.Repositories.Sessions.{
  has_hash, new_session, admits_session, insert_session, update_where, set_expiry, set_revoked,
  update_expiry_statement, revoke_statement,
}
use python_typescript_wiki_b.Repositories.Spaces.{
  owner_role, insert_space, insert_membership, admits_membership,
}
use python_typescript_wiki_b.Services.Keeps.{IsStable}

pub record FitsUser (u : User) : Type 0 where
  pub id : fits_integer u.id ≡ true
  pub telegram_id : fits_bigint u.telegram_id ≡ true
  pub username : fits_nullable 255 u.username ≡ true
  pub first_name : fits_nullable 255 u.first_name ≡ true
  pub last_name : fits_nullable 255 u.last_name ≡ true
  pub photo_url : fits_nullable 1024 u.photo_url ≡ true
  pub permission : fits_nullable 64 u.permission ≡ true

abbrev pub FitsSession : Session → Type 0
FitsSession s = (fits_integer s.user_id ≡ true) × (fits_varchar 64 s.token_hash ≡ true)

abbrev pub FitsSpace : Space → Type 0
FitsSpace s = fits_varchar 255 s.name ≡ true

abbrev pub FitsMembership : SpaceMembership → Type 0
FitsMembership m = (fits_integer m.user_id ≡ true) × (fits_varchar 64 m.role ≡ true)

pub record IsFitting (db : Db) : Type 0 where
  pub users : All FitsUser db.users
  pub sessions : All FitsSession db.sessions
  pub spaces : All FitsSpace db.spaces
  pub memberships : All FitsMembership db.memberships

-- An id that a row of `users` has is that of a row that fits.
user_id_fits :
    (id : ℕ) (users : List User)
    → All FitsUser users
    → any (λ u. u.id == id) users ≡ true
    → fits_integer id ≡ true
unfolding any
user_id_fits id [] h e = absurd (cc)
user_id_fits id (u ∷ us) h e = elim (Bool-cases (u.id == id)) [
  | inl q ↦ ground (arith, h.0.id)
  | inr q ↦ user_id_fits id us h.1 (ground arith)
]

coalesce_fits :
    (n : ℕ) (new old : Option Str)
    → fits_nullable n new ≡ true
    → fits_nullable n old ≡ true
    → fits_nullable n (coalesce new old) ≡ true
coalesce_fits n none old h k = k
coalesce_fits n (some s) old h k = h

module _ (f : UserFields) (next now : ℕ) (fits : fits_users f next ≡ true) where
  new_user-FitsUser : FitsUser (new_user f next now)
  unfolding fits_users new_user
  new_user-FitsUser = record {
    id = ground arith;
    telegram_id = ground arith;
    username = ground arith;
    first_name = ground arith;
    last_name = ground arith;
    photo_url = ground arith;
    permission = ground arith;
  }

  merge_user-FitsUser : (u : User) → FitsUser u → FitsUser (merge_user f now u)
  unfolding merge_user new_user
  merge_user-FitsUser u h =
      let new = new_user-FitsUser in
      record {
        id = h.id;
        telegram_id = h.telegram_id;
        username = coalesce_fits 255 f.username u.username new.username h.username;
        first_name = coalesce_fits 255 f.first_name u.first_name new.first_name h.first_name;
        last_name = coalesce_fits 255 f.last_name u.last_name new.last_name h.last_name;
        photo_url = coalesce_fits 1024 f.photo_url u.photo_url new.photo_url h.photo_url;
        permission = coalesce_fits 64 f.permission u.permission new.permission h.permission;
      }

  FitsUser-if : (b : Bool) (u : User) → FitsUser u → FitsUser (if b then merge_user f now u else u)
  FitsUser-if true u h = merge_user-FitsUser u h
  FitsUser-if Bool.false u h = h

upsert_row-IsFitting :
    (f : UserFields) (now : ℕ) (db : Db) (o : Option User)
    → fits_users f db.next_user_id ≡ true
    → IsFitting db
    → IsFitting (upsert_row f now o db).1
unfolding upsert_row
upsert_row-IsFitting f now db none fits v = record {
  users = All-append FitsUser db.users _ v.users (new_user-FitsUser f db.next_user_id now fits, tt);
  sessions = v.sessions;
  spaces = v.spaces;
  memberships = v.memberships;
}
upsert_row-IsFitting f now db (some old) fits v = record {
  users =
      All-map FitsUser _
        (λ u h. FitsUser-if f db.next_user_id now fits (has_telegram_id f.telegram_id u) u h)
        db.users v.users;
  sessions = v.sessions;
  spaces = v.spaces;
  memberships = v.memberships;
}

upsert-IsFitting :
    (f : UserFields) (now server : ℕ) (db : Db)
    → IsFitting db
    → IsFitting (upsert_statement f now server db).1
unfolding upsert_statement
upsert-IsFitting f now server db v = elim (Bool-cases (fits_users f db.next_user_id)) [
  | inl e ↦
      rw e (upsert_row-IsFitting f now db (find? (has_telegram_id f.telegram_id) db.users) e v)
  | inr e ↦ rw e v
]

insert_session-IsFitting :
    (id user_id : ℕ) (h : Str) (moment now : ℕ) (db : Db)
    → IsFitting db
    → IsFitting (insert_session id user_id h moment now db).1
unfolding insert_session new_session admits_session
insert_session-IsFitting id user_id h moment now db v =
    elim (Bool-cases (admits_session id user_id h db)) [
      | inl e ↦ rw e (record {
        users = v.users;
        sessions =
            All-append FitsSession db.sessions _ v.sessions
              ((user_id_fits user_id db.users v.users (ground arith), ground arith), tt);
        spaces = v.spaces;
        memberships = v.memberships;
      })
      | inr e ↦ rw e v
    ]

update_where-FitsSession :
    (h : Str) (set : Session → Session) (rows : List Session)
    → ((s : Session) → FitsSession s → FitsSession (set s))
    → All FitsSession rows
    → All FitsSession (update_where h set rows)
unfolding update_where
update_where-FitsSession h set rows keeps v =
    All-map FitsSession _ (λ s k. go (has_hash h s) s k) rows v
  where
    go : (b : Bool) (s : Session) → FitsSession s → FitsSession (if b then set s else s)
    go true s k = keeps s k
    go Bool.false s k = k

update_expiry-IsFitting :
    (h : Str) (moment now server : ℕ) (db : Db)
    → IsFitting db
    → IsFitting (update_expiry_statement h moment now server db).1
unfolding update_expiry_statement
update_expiry-IsFitting h moment now server db v = record {
  users = v.users;
  sessions = update_where-FitsSession h (set_expiry moment now) db.sessions (λ s k. k) v.sessions;
  spaces = v.spaces;
  memberships = v.memberships;
}

revoke-IsFitting :
    (h : Str) (now server : ℕ) (db : Db)
    → IsFitting db
    → IsFitting (revoke_statement h now server db).1
unfolding revoke_statement
revoke-IsFitting h now server db v = record {
  users = v.users;
  sessions = update_where-FitsSession h (set_revoked now) db.sessions (λ s k. k) v.sessions;
  spaces = v.spaces;
  memberships = v.memberships;
}

insert_space-IsFitting :
    (name : Str) (id now : ℕ) (db : Db) → IsFitting db → IsFitting (insert_space name id now db).1
unfolding insert_space
insert_space-IsFitting name id now db v =
    elim (Bool-cases (fits_varchar 255 name && not (any (λ s. s.id == id) db.spaces))) [
      | inl e ↦ rw e (record {
        users = v.users;
        sessions = v.sessions;
        spaces = All-append FitsSpace db.spaces _ v.spaces (ground arith, tt);
        memberships = v.memberships;
      })
      | inr e ↦ rw e v
    ]

owner_role_fits : fits_varchar 64 owner_role ≡ true
unfolding fits_varchar all
owner_role_fits = refl

insert_membership-IsFitting :
    (owner id now : ℕ) (db : Db) → IsFitting db → IsFitting (insert_membership owner id now db).1
unfolding insert_membership
insert_membership-IsFitting owner id now db v = elim (Bool-cases (admits_membership owner id db)) [
  | inl e ↦ rw e (record {
    users = v.users;
    sessions = v.sessions;
    spaces = v.spaces;
    memberships =
        All-append FitsMembership db.memberships _ v.memberships
          ((user_id_fits owner db.users v.users (ground arith), owner_role_fits), tt);
  })
  | inr e ↦ rw e v
]

pub IsStable-IsFitting : IsStable IsFitting
IsStable-IsFitting = record {
  upserts = upsert-IsFitting;
  inserts = insert_session-IsFitting;
  renews = update_expiry-IsFitting;
  revokes = revoke-IsFitting;
  spaces = insert_space-IsFitting;
  members = insert_membership-IsFitting;
}
