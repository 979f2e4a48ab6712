-- ===== src/MockOauth/RoundTrip.antt =====
-- The service accepts what the mock issues, and refuses it when its code is damaged.
use python_typescript_wiki_b.Base.{
  ℕ, zero, suc, ◌+◌, ◌-◌, ◌%◌, ◌<◌, ◌≡◌, refl, subst, false, inl, inr, Option-cases, some, ◌∷◌,
  ◌++◌, arith, length, take, drop, length-append, length-replicate, replicate, leb, take-append,
  drop-append, append_assoc, All, All-append, same_refl,
}
use python_typescript_wiki_b.Base.Distinct.{All-imp}
use python_typescript_wiki_b.Base.Int.{ℤ}
use python_typescript_wiki_b.Text.{Str, Bytes}
use python_typescript_wiki_b.Errors.{ok}
use python_typescript_wiki_b.Json.{Json, obj, Fields}
use python_typescript_wiki_b.Outside.{Env, JsonLib, loaded, IsCrypto, IsJsonLib}
use python_typescript_wiki_b.Codec.Base64.{b64encode}
use python_typescript_wiki_b.Codec.Base64.RoundTrip.{IsBytes, decode_token-b64encode}
use python_typescript_wiki_b.Codec.Pkcs7.{pkcs7_pad}
use python_typescript_wiki_b.Codec.Pkcs7.Laws.{pkcs7_unpad-pad, length-pkcs7_pad}
use python_typescript_wiki_b.Codec.Utf8.{utf8_encode, utf8_encode_ascii, utf8_decode_ascii}
use python_typescript_wiki_b.Token.{
  TokenService, make_token_service, parse_payload, check_code, open_payload, decrypt,
}
use python_typescript_wiki_b.MockOauth.{encrypt_payload}

-- Cutting a raw token into its three parts.
module _ (iv code ciphertext : Bytes) (hi : length iv ≡ 16) (hc : length code ≡ 32) where
  take_iv : take 16 (iv ++ (code ++ ciphertext)) ≡ iv
  take_iv = rw (← hi) (take-append iv (code ++ ciphertext))

  drop_iv : drop 16 (iv ++ (code ++ ciphertext)) ≡ code ++ ciphertext
  drop_iv = rw (← hi) (drop-append iv (code ++ ciphertext))

  take_code : take 32 (drop 16 (iv ++ (code ++ ciphertext))) ≡ code
  take_code = rw drop_iv (rw (← hc) (take-append code ciphertext))

  drop_code : drop 48 (iv ++ (code ++ ciphertext)) ≡ ciphertext
  drop_code = rw (← append_assoc) (
      subst (λ n. drop n ((iv ++ code) ++ ciphertext) ≡ ciphertext) {x = length (iv ++ code)}
        {y = 48} (omega (arith, length-append iv code, hi, hc))
        (drop-append (iv ++ code) ciphertext))

  length_parts : length (iv ++ (code ++ ciphertext)) ≡ 48 + length ciphertext
  length_parts = omega (arith, length-append iv (code ++ ciphertext), length-append code ciphertext)

parse_payload_loaded :
    (json : JsonLib) (text : Str) {v : Json}
    → json.loads text ≡ loaded v
    → parse_payload json text ≡ ok v
unfolding parse_payload
parse_payload_loaded json text h = rw (h, parse_payload) refl

past_header : (n : ℕ) → 0 < n → leb (48 + n) 48 ≡ false
past_header n h = ground arith

All-replicate_byte : (n k : ℕ) → k < 256 → All (λ b. b < 256) (replicate n k)
All-replicate_byte zero k h = tt
All-replicate_byte (suc n) k h = (h, All-replicate_byte n k h)

padded_IsBytes :
    (plain : Bytes) → All (λ c. c < 0x80) plain → All (λ b. b < 256) (pkcs7_pad plain 16)
unfolding pkcs7_pad
padded_IsBytes plain h =
    let n = 16 - length plain % 16 in
    All-append _ plain (replicate n n)
      (All-imp (λ c. c < 0x80) (λ b. b < 256) (λ c k. omega arith) plain h)
      (All-replicate_byte n n (omega arith))

padded_not_empty : (plain x : Bytes) → length x ≡ length (pkcs7_pad plain 16) → 0 < length x
unfolding pkcs7_pad
padded_not_empty plain x h =
    let n = 16 - length plain % 16 in
    omega (arith, length-append plain (replicate n n), length-replicate n n)

-- The token is the Base64 of bytes that the service opens to the payload.
pub record IsSealed (env : Env) (service : TokenService) (payload : Fields) (token : Str)
    : Type 0 where
  pub raw : Bytes
  pub bytes : IsBytes raw
  pub encoded : token ≡ b64encode raw
  pub opened : check_code env service raw ≡ ok payload

module _ (env : Env) (crypto : IsCrypto env.crypto) (payload : Fields)
    (json : IsJsonLib env.json (obj payload)) (service : TokenService) (iv : Bytes)
    (iv_IsBytes : IsBytes iv) (length_iv : length iv ≡ 16) where
  -- Behind a code that fits, the padded JSON is opened.
  open_payload_lem :
      (ciphertext : Bytes)
      → env.crypto.aes_cbc_decrypt service.key iv ciphertext
        ≡ some (pkcs7_pad (env.json.dumps (obj payload)) 16)
      → open_payload env service iv ciphertext ≡ ok payload
  unfolding open_payload parse_payload
  open_payload_lem ciphertext h =
      rw
        (
          h,
          pkcs7_unpad-pad (env.json.dumps (obj payload)),
          utf8_decode_ascii _ json.dumps-ascii,
          parse_payload_loaded env.json _ json.loads-dumps,
        )
        refl

  check_code_lem :
      (ciphertext : Bytes)
      → 0 < length ciphertext
      → env.crypto.aes_cbc_decrypt service.key iv ciphertext
        ≡ some (pkcs7_pad (env.json.dumps (obj payload)) 16)
      → check_code env service
          (iv ++ (env.crypto.hmac_sha256 service.key (ciphertext ++ iv) ++ ciphertext))
        ≡ ok payload
  unfolding check_code
  check_code_lem ciphertext long h =
      let code = env.crypto.hmac_sha256 service.key (ciphertext ++ iv) in
      let hc = crypto.length-hmac service.key (ciphertext ++ iv) in
      rw
        (
          take_code iv code ciphertext length_iv hc,
          take_iv iv code ciphertext length_iv hc,
          drop_code iv code ciphertext length_iv hc,
          same_refl code,
          length_parts iv code ciphertext length_iv hc,
          past_header (length ciphertext) long,
        )
        (open_payload_lem ciphertext h)

  sealed :
      (x : Bytes)
      → env.crypto.aes_cbc_decrypt service.key iv x
        ≡ some (pkcs7_pad (env.json.dumps (obj payload)) 16)
      → length x ≡ length (pkcs7_pad (env.json.dumps (obj payload)) 16)
      → IsBytes x
      → IsSealed env service payload
          (b64encode (iv ++ (env.crypto.hmac_sha256 service.key (x ++ iv) ++ x)))
  sealed x dec len x_IsBytes = record {
    raw = iv ++ (env.crypto.hmac_sha256 service.key (x ++ iv) ++ x);
    bytes =
        All-append _ iv _ iv_IsBytes
          (All-append _ _ x (crypto.hmac-IsBytes service.key (x ++ iv)) x_IsBytes);
    encoded = refl;
    opened = check_code_lem x (padded_not_empty _ x len) dec;
  }

-- What the constructor of the service has computed.
pub made_from :
    (env : Env) (application_id secret_key : Str) (ttl : ℤ) {service : TokenService}
    → make_token_service env application_id secret_key ttl ≡ ok service
    → (private_key : Bytes) × (utf8_encode (application_id ++ b':' ∷ secret_key) ≡ some private_key)
      × (env.crypto.sha256 private_key ≡ service.key)
      × (service.ttl_seconds ≡ ttl)
unfolding make_token_service
made_from env app secret ttl h = elim (Option-cases (utf8_encode (app ++ b':' ∷ secret))) [
  | inl e ↦ absurd (ground arith)
  | inr (private_key, e) ↦ (private_key, e, ground arith, ground arith)
]

pub encrypt_payload_sealed :
    (env : Env) (application_id secret_key : Str) (ttl : ℤ) (service : TokenService)
    → IsCrypto env.crypto
    → make_token_service env application_id secret_key ttl ≡ ok service
    → (iv : Bytes) → IsBytes iv
    → length iv ≡ 16
    → (payload : Fields) → IsJsonLib env.json (obj payload)
    → (token : Str) × (encrypt_payload env application_id secret_key iv payload ≡ ok token)
      × IsSealed env service payload token
unfolding encrypt_payload
encrypt_payload_sealed env app secret ttl service crypto made iv iv_IsBytes length_iv payload json =
    let (private_key, encoded, key_eq, _) = made_from env app secret ttl made in
    let plain = env.json.dumps (obj payload) in
    let (x, enc, dec, len, x_IsBytes) =
      crypto.encrypt-total service.key iv (pkcs7_pad plain 16) (length-pkcs7_pad plain)
        (padded_IsBytes plain json.dumps-ascii) in
    (
      b64encode (iv ++ (env.crypto.hmac_sha256 service.key (x ++ iv) ++ x)),
      rw (encoded, utf8_encode_ascii plain json.dumps-ascii, key_eq, enc) refl,
      sealed env crypto payload json service iv iv_IsBytes length_iv x dec len x_IsBytes,
    )

pub decrypt_sealed :
    (env : Env) (service : TokenService) (payload : Fields) (token : Str)
    → IsSealed env service payload token
    → decrypt env service token ≡ ok payload
unfolding decrypt
decrypt_sealed env service payload token s =
    rw (s.encoded, decode_token-b64encode s.raw s.bytes) s.opened

-- For primitives that behave as documented, an iv of 16 bytes, and a codec that reads back what it
-- writes of the payload, the mock makes a token of the payload under the key that the service was
-- made with, and the service's `_decrypt` returns that payload.
pub decrypt-encrypt_payload :
    (env : Env) (application_id secret_key : Str) (ttl : ℤ) (service : TokenService)
    → IsCrypto env.crypto
    → make_token_service env application_id secret_key ttl ≡ ok service
    → (iv : Bytes) → IsBytes iv
    → length iv ≡ 16
    → (payload : Fields) → IsJsonLib env.json (obj payload)
    → (token : Str) × (encrypt_payload env application_id secret_key iv payload ≡ ok token)
      × (decrypt env service token ≡ ok payload)
decrypt-encrypt_payload env app secret ttl service crypto made iv iv_IsBytes length_iv payload
      json =
    let (token, encrypted, s) =
      encrypt_payload_sealed env app secret ttl service crypto made iv iv_IsBytes length_iv payload
        json in
    (token, encrypted, decrypt_sealed env service payload token s)
