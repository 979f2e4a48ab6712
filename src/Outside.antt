-- ===== src/Outside.antt =====
-- What the application uses and does not implement: clocks, randomness, the database's failures,
-- cryptographic primitives, the JSON codec and pydantic's conversions.
use python_typescript_wiki_b.Base.{ℕ, ◌%◌, ◌<◌, Bool, Option, some, ◌≡◌, length, All}
use python_typescript_wiki_b.Base.Int.{ℤ}
use python_typescript_wiki_b.Text.{Str, Bytes}
use python_typescript_wiki_b.Json.{Json, int, str}

-- hashlib, hmac and Crypto.Cipher.AES.
pub record Crypto : Type 0 where
  pub sha256 : Bytes → Bytes
  -- key, then message
  pub hmac_sha256 : Bytes → Bytes → Bytes
  -- key, iv, text; `none` is the ValueError for a text that is not whole blocks
  pub aes_cbc_encrypt : Bytes → Bytes → Bytes → Option Bytes
  pub aes_cbc_decrypt : Bytes → Bytes → Bytes → Option Bytes

-- The outcome of `json.loads`: a value, `JSONDecodeError`, another `ValueError`, or any other
-- exception.
pub data Loaded : Type 0 where
  loaded : Json → Loaded
  json_decode_error other_value_error other_error : Loaded

pub record JsonLib : Type 0 where
  pub loads : Str → Loaded
  pub loads_bytes : Bytes → Loaded
  pub dumps : Json → Str
  -- pydantic's conversions for a field of type `int`, and of type `str`
  pub to_int : Json → Option ℤ
  pub to_str : Json → Option Str

-- Each event takes the next tick of the world; these say what it meets there.
pub record Env : Type 0 where
  pub crypto : Crypto
  pub json : JsonLib
  -- the reading of the application's clock, and that of the database server
  pub clock : ℕ → ℕ
  pub db_clock : ℕ → ℕ
  pub uuid : ℕ → ℕ
  -- `secrets.token_urlsafe(32)`, and `os.urandom(16)`
  pub secret : ℕ → Str
  pub urandom : ℕ → Bytes
  -- whether the database call raises, without an effect
  pub fault : ℕ → Bool
  -- what ILIKE compares a character by
  pub fold_case : ℕ → ℕ

-- Documented behaviour of the primitives: bytes in the range of a byte, digests of 32 bytes, and a
-- block cipher that decrypts what it encrypted and keeps the length.
pub record IsCrypto (c : Crypto) : Type 0 where
  pub length-sha256 : (m : Bytes) → length (c.sha256 m) ≡ 32
  pub length-hmac : (k m : Bytes) → length (c.hmac_sha256 k m) ≡ 32
  pub hmac-IsBytes : (k m : Bytes) → All (λ b. b < 256) (c.hmac_sha256 k m)
  pub encrypt-total :
      (k iv m : Bytes)
      → length m % 16 ≡ 0
      → All (λ b. b < 256) m
      → (x : Bytes) × (c.aes_cbc_encrypt k iv m ≡ some x)
        × (c.aes_cbc_decrypt k iv x ≡ some m)
        × (length x ≡ length m)
        × All (λ b. b < 256) x

-- Documented behaviour of the codec on a value: `dumps` writes ASCII that `loads` reads back, and
-- pydantic keeps a value that has the field's type.
pub record IsJsonLib (j : JsonLib) (v : Json) : Type 0 where
  pub loads-dumps : j.loads (j.dumps v) ≡ loaded v
  pub dumps-ascii : All (λ c. c < 0x80) (j.dumps v)
  pub to_int-int : (z : ℤ) → j.to_int (int z) ≡ some z
  pub to_str-str : (s : Str) → j.to_str (str s) ≡ some s
