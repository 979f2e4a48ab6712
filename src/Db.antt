-- ===== src/Db.antt =====
-- app/models.py: the rows of the tables, and the checks that PostgreSQL makes of a value before it
-- stores it in a column of these types.
use python_typescript_wiki_b.Base.{
  ℕ, ◌^◌, Bool, true, ◌&&◌, ◌||◌, not, Option, none, some, List, [], ltb, leb, ◌==◌, length, all,
}
use python_typescript_wiki_b.Base.Int.{ℤ, pos, negsuc}
use python_typescript_wiki_b.Text.{Str}

-- Moments are microseconds since 0001-01-01 UTC, Python's `datetime.min`.
pub record User : Type 0 where
  pub id : ℕ
  pub telegram_id : ℤ
  pub username : Option Str
  pub first_name : Option Str
  pub last_name : Option Str
  pub photo_url : Option Str
  pub permission : Option Str
  pub created_at : ℕ
  pub updated_at : ℕ
  pub last_login_at : ℕ

pub record Session : Type 0 where
  pub id : ℕ
  pub user_id : ℕ
  pub token_hash : Str
  pub expires_at : ℕ
  pub revoked_at : Option ℕ
  pub created_at : ℕ
  pub updated_at : ℕ

pub record Space : Type 0 where
  pub id : ℕ
  pub name : Str
  pub deleted_at : Option ℕ
  pub delete_scheduled_at : Option ℕ

pub record SpaceMembership : Type 0 where
  pub user_id : ℕ
  pub space_id : ℕ
  pub role : Str

-- The tables, each in the order in which a scan meets its rows, and the sequence behind `users.id`.
pub record Db : Type 0 where
  pub users : List User
  pub sessions : List Session
  pub spaces : List Space
  pub memberships : List SpaceMembership
  pub next_user_id : ℕ

abbrev pub empty_db : Db
empty_db = record { users = []; sessions = []; spaces = []; memberships = []; next_user_id = 1 }

-- A character that UTF8 text in PostgreSQL can hold: no NUL and no surrogate.
abbrev pub is_storable : ℕ → Bool
is_storable c = not (c == 0) && (ltb c 0xd800 || (ltb 0xdfff c && ltb c 0x110000))

-- `String(length=n)`: at most n characters.
unfoldable pub fits_varchar : ℕ → Str → Bool
fits_varchar n s = leb (length s) n && all is_storable s

unfoldable pub fits_nullable : ℕ → Option Str → Bool
unfolding fits_varchar
fits_nullable n none = true
fits_nullable n (some s) = fits_varchar n s

-- `BigInteger`: 64 bits, signed.
unfoldable pub fits_bigint : ℤ → Bool
fits_bigint (pos n) = ltb n (2 ^ 63)
fits_bigint (negsuc n) = ltb n (2 ^ 63)

-- `Integer` for a number that is not negative: 32 bits, signed.
unfoldable pub fits_integer : ℕ → Bool
fits_integer n = ltb n (2 ^ 31)
