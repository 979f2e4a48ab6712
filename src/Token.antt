-- ===== src/Token.antt =====
-- app/services/token_service.py: an oauth.name access token is decrypted, authenticated, parsed and
-- checked for its age.
pub mod Laws
use mathlib.Core.Option
use python_typescript_wiki_b.Base.{
  ℕ, ◌+◌, ◌/◌, Bool, true, false, not, Option, none, some, List, [], ◌∷◌, ◌++◌, leb, ltb, ◌==◌,
  if◌then◌else◌, same, length, take, drop,
}
use python_typescript_wiki_b.Base.Int.{ℤ, sub_ℕ, ◌-ℤ◌, ltb_ℤ}
use python_typescript_wiki_b.Text.{Str, Bytes, codes, count_char, split}
use python_typescript_wiki_b.Errors.{
  Exc, app_error, http_exception, value_error, runtime_error, Result, ok, raised, or_else, ◌>>=◌,
}
use python_typescript_wiki_b.Json.{Json, null, obj, Fields, get}
use python_typescript_wiki_b.Outside.{
  Env, JsonLib, Loaded, loaded, json_decode_error, other_value_error, other_error,
}
use python_typescript_wiki_b.App
use python_typescript_wiki_b.App.{App, lift, observe}
use python_typescript_wiki_b.Codec.Base64.{decode_token, urlsafe_b64decode, pad_b64}
use python_typescript_wiki_b.Codec.Pkcs7.{oauth_invalid, pkcs7_unpad}
use python_typescript_wiki_b.Codec.Utf8.{utf8_encode, utf8_decode}

abbrev pub iv_length : ℕ
iv_length = 16

abbrev pub hmac_length : ℕ
hmac_length = 32

abbrev pub jwt_dot_count : ℕ
jwt_dot_count = 2

pub record TokenPayload : Type 0 where
  pub telegram_id : ℤ
  pub username : Option Str
  pub created_at : ℤ
  pub first_name : Option Str
  pub last_name : Option Str
  pub photo_url : Option Str
  pub permission : Option Str

-- The state of a `TokenService`.
pub record TokenService : Type 0 where
  pub key : Bytes
  pub ttl_seconds : ℤ

-- `TokenService.__init__`; `str.encode` raises for a surrogate.
unfoldable pub make_token_service : Env → Str → Str → ℤ → Result TokenService
make_token_service env application_id secret_key ttl_seconds = do
  private_key ← or_else value_error (utf8_encode (application_id ++ b':' ∷ secret_key))
  ok (record { key = env.crypto.sha256 private_key; ttl_seconds = ttl_seconds })

-- The second of the three parts of `text.split(".", 2)`.
abbrev second : List Str → Str
second (_ ∷ segment ∷ _) = segment
second _ = []

-- A required field that may be null, and one that may be left out too.
abbrev pub nullable : {A : Type 0} → (Json → Option A) → Json → Option (Option A)
nullable convert null = some none
nullable convert v = Option.map some (convert v)

abbrev pub required : {A : Type 0} → (Json → Option A) → Option Json → Option A
required convert none = none
required convert (some v) = convert v

abbrev pub defaulted : {A : Type 0} → (Json → Option A) → Option Json → Option (Option A)
defaulted convert none = some none
defaulted convert (some v) = nullable convert v

abbrev with_value : {A B : Type 0} → Option A → (A → Option B) → Option B
with_value none f = none
with_value (some a) f = f a

module _ (json : JsonLib) where
  -- `json.loads(decoded)` inside the `try` of `_parse_payload`
  read_segment : Bytes → Result Json
  read_segment decoded = elim (json.loads_bytes decoded) [
    | loaded v ↦ ok v
    | json_decode_error ↦ raised oauth_invalid
    | other_value_error ↦ raised oauth_invalid
    | other_error ↦ raised runtime_error
  ]

  abbrev decode_segment : Result Bytes → Result Json
  decode_segment (ok decoded) = read_segment decoded
  decode_segment (raised e) = raised oauth_invalid

  parse_jwt : Str → Result Json
  unfolding read_segment
  parse_jwt text =
      if count_char b'.' text == jwt_dot_count
      then decode_segment (urlsafe_b64decode (pad_b64 (second (split b'.' text))))
      else raised oauth_invalid

  -- `_parse_payload`
  unfoldable pub parse_payload : Str → Result Json
  unfolding parse_jwt
  parse_payload text = elim (json.loads text) [
    | loaded v ↦ ok v
    | json_decode_error ↦ parse_jwt text
    | other_value_error ↦ raised value_error
    | other_error ↦ raised runtime_error
  ]

  -- `TokenPayload.model_validate`; `none` is the ValidationError.
  unfoldable pub validate_payload : Fields → Option TokenPayload
  validate_payload d =
      with_value (required json.to_int (get (codes "telegram_id") d)) λ telegram_id.
        with_value (required (nullable json.to_str) (get (codes "username") d)) λ username.
          with_value (required json.to_int (get (codes "created_at") d)) λ created_at.
            with_value (defaulted json.to_str (get (codes "first_name") d)) λ first_name.
              with_value (defaulted json.to_str (get (codes "last_name") d)) λ last_name.
                with_value (defaulted json.to_str (get (codes "photo_url") d)) λ photo_url.
                  with_value (defaulted json.to_str (get (codes "permission") d)) λ permission.
                    some (record {
                      telegram_id = telegram_id;
                      username = username;
                      created_at = created_at;
                      first_name = first_name;
                      last_name = last_name;
                      photo_url = photo_url;
                      permission = permission;
                    })

-- Any exception of the step becomes `AppError(401, OAUTH_CODE_INVALID)`.
abbrev pub or_invalid : {A : Type 0} → Result A → Result A
or_invalid (ok a) = ok a
or_invalid (raised e) = raised oauth_invalid

-- `except AppError: raise`, then `except Exception`.
abbrev pub app_or_invalid : {A : Type 0} → Result A → Result A
app_or_invalid (ok a) = ok a
app_or_invalid (raised (app_error status code)) = raised (app_error status code)
app_or_invalid (raised e) = raised oauth_invalid

abbrev pub dict_of : Json → Result Fields
dict_of (obj d) = ok d
dict_of _ = raised oauth_invalid

-- `int(time.time())`, for a clock after 1970.
abbrev pub unix_seconds : ℕ → ℤ
unix_seconds moment = sub_ℕ (moment / 1000000) 62135596800

module _ (env : Env) (service : TokenService) where
  -- What `_decrypt` does behind the comparison of the codes.
  unfoldable pub open_payload : Bytes → Bytes → Result Fields
  open_payload iv ciphertext = do
    padded ← or_else value_error (env.crypto.aes_cbc_decrypt service.key iv ciphertext)
    plaintext ← or_invalid (pkcs7_unpad padded)
    text ← or_else oauth_invalid (utf8_decode plaintext)
    payload ← parse_payload env.json text
    dict_of payload

  unfoldable pub check_code : Bytes → Result Fields
  unfolding open_payload
  check_code raw =
      if leb (length raw) (iv_length + hmac_length)
      then raised oauth_invalid
      else let iv = take iv_length raw in
        let expected_hash = take hmac_length (drop iv_length raw) in
        let ciphertext = drop (iv_length + hmac_length) raw in
        if not (same (env.crypto.hmac_sha256 service.key (ciphertext ++ iv)) expected_hash)
        then raised oauth_invalid
        else open_payload iv ciphertext

  -- `_decrypt`
  unfoldable pub decrypt : Str → Result Fields
  unfolding check_code
  decrypt token = do raw ← or_invalid (decode_token token); check_code raw

  -- The `try` statement of `verify_token`.
  unfoldable pub read_token : Str → Result TokenPayload
  unfolding decrypt
  read_token token =
      app_or_invalid
        do payload ← decrypt token; or_else oauth_invalid (validate_payload env.json payload)

  unfoldable pub check_age : TokenPayload → ℕ → Result TokenPayload
  check_age payload moment =
      if ltb_ℤ service.ttl_seconds (unix_seconds moment -ℤ payload.created_at)
      then raised oauth_invalid
      else ok payload

  unfoldable pub verify_token : Str → App TokenPayload
  verify_token token =
      App.◌>>=◌ (lift (read_token token))
        λ payload. App.◌>>=◌ (observe env.clock) λ moment. lift (check_age payload moment)
