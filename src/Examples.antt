-- ===== src/Examples.antt =====
-- Concrete surroundings for the tests: primitives, a codec, clocks and tables.
pub mod Runs
pub mod Settings
pub mod OpenSession
pub mod Tokens
pub mod Samples
pub mod Bounds
pub mod Interleaved
pub mod Lifespan
pub mod Migrations
pub mod Requests
pub mod Services
use mathlib.Core.Option
use python_typescript_wiki_b.Base.{
  ℕ, zero, suc, ◌+◌, ◌*◌, ◌%◌, ◌<◌, ◌≡◌, refl, ap, Bool, true, false, Option, none, some, List, [],
  ◌∷◌, ◌++◌, arith, ◌==◌, if◌then◌else◌, length, take, replicate, All,
}
use python_typescript_wiki_b.Base.Int.{ℤ, pos, negsuc}
use python_typescript_wiki_b.Text.{Str, Bytes, codes}
use python_typescript_wiki_b.Json.{Json, int, str, obj, Fields}
use python_typescript_wiki_b.Outside.{Crypto, JsonLib, Loaded, loaded, Env, IsCrypto, IsJsonLib}
use python_typescript_wiki_b.Db.{Db, empty_db}
use python_typescript_wiki_b.App.{World}
use python_typescript_wiki_b.Token.{TokenService}
use python_typescript_wiki_b.Services.Sessions.{SessionService}
use python_typescript_wiki_b.MockOauth.{IssueTokenRequest, dump_request}

-- A digest that repeats the last byte, and a cipher that changes nothing.
abbrev last_byte : Bytes → ℕ
last_byte [] = 0
last_byte (b ∷ []) = b % 256
last_byte (b ∷ c ∷ bs) = last_byte (c ∷ bs)

abbrev whole_blocks : Bytes → Option Bytes
whole_blocks m = if length m % 16 == 0 then some m else none

abbrev pub plain_crypto : Crypto
plain_crypto = record {
  sha256 = λ m. replicate 32 (last_byte m);
  hmac_sha256 = λ k m. replicate 32 (last_byte m);
  aes_cbc_encrypt = λ k iv m. whole_blocks m;
  aes_cbc_decrypt = λ k iv m. whole_blocks m;
}

last_byte_below : (m : Bytes) → last_byte m < 256
last_byte_below [] = omega arith
last_byte_below (b ∷ []) = omega arith
last_byte_below (b ∷ c ∷ bs) = last_byte_below (c ∷ bs)

whole_blocks_lem : (m : Bytes) → length m % 16 ≡ 0 → whole_blocks m ≡ some m
whole_blocks_lem m h = ground (arith, h)

below_replicate : (n b : ℕ) → b < 256 → All (λ x. x < 256) (replicate n b)
below_replicate zero b h = tt
below_replicate (suc n) b h = (h, below_replicate n b h)

pub plain_crypto-IsCrypto : IsCrypto plain_crypto
plain_crypto-IsCrypto = record {
  length-sha256 = λ m. refl;
  length-hmac = λ k m. refl;
  hmac-IsBytes = λ k m. below_replicate 32 (last_byte m) (last_byte_below m);
  encrypt-total =
      λ k iv m whole bytes. (m, whole_blocks_lem m whole, whole_blocks_lem m whole, refl, bytes);
}

-- The request to issue whose payload the codec knows.
abbrev pub test_request : IssueTokenRequest
test_request = record {
  telegram_id = pos 42;
  username = some (codes "ann");
  first_name = none;
  last_name = none;
  photo_url = none;
  permission = some (codes "rw");
  created_at = some (pos 1700000000);
}

abbrev pub test_payload : Fields
test_payload = dump_request test_request (pos 1700000000)

abbrev int_of : Json → Option ℤ
int_of (int z) = some z
int_of _ = none

abbrev pub str_of : Json → Option Str
str_of (str s) = some s
str_of _ = none

-- A codec for one value.
abbrev pub test_json : JsonLib
test_json = record {
  loads = λ s. loaded (obj test_payload);
  loads_bytes = λ s. loaded (obj test_payload);
  dumps = λ v. codes "{payload}";
  to_int = int_of;
  to_str = str_of;
}

pub test_json-IsJsonLib : IsJsonLib test_json (obj test_payload)
test_json-IsJsonLib = record {
  loads-dumps = refl;
  dumps-ascii = ground arith;
  to_int-int = λ z. refl;
  to_str-str = λ s. refl;
}

-- 2023-11-14T22:13:20, one second for each event.
abbrev pub test_env : Env
test_env = record {
  crypto = plain_crypto;
  json = test_json;
  clock = λ t. (63835596800 + t) * 1000000;
  db_clock = λ t. (63835596800 + t) * 1000000;
  uuid = λ t. 100 + t;
  secret = λ t. codes "secret" ++ (65 + t % 26) ∷ [];
  urandom = λ t. replicate 16 7;
  fault = λ t. false;
  fold_case = λ c. c;
}

abbrev pub test_tokens : TokenService
test_tokens = record { key = replicate 32 116; ttl_seconds = pos 300 }

abbrev pub test_service : SessionService
test_service = record { tokens = test_tokens; ttl_seconds = pos 3600 }

abbrev pub first_world : World
first_world = record { db = empty_db; tick = 0 }

pub urandom-IsBytes :
    (t : ℕ) → All (λ b. b < 256) (test_env.urandom t) × (length (test_env.urandom t) ≡ 16)
urandom-IsBytes t = (ground arith, refl)
