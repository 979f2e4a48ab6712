-- ===== src/MockOauth.antt =====
-- mock_oauth/app.py: the local issuer of tokens, which encrypts a payload the way oauth.name does.
pub mod RoundTrip
pub mod Issue
pub mod Tamper
pub mod Samples
use mathlib.Core.Option
use python_typescript_wiki_b.Base.{
  ℕ, zero, suc, ◌+◌, ◌-◌, ◌^◌, ◌%◌, Bool, true, false, Option, none, some, List, [], ◌∷◌, ◌++◌, leb,
  ltb, ◌==◌, if◌then◌else◌, length, take, drop,
}
use python_typescript_wiki_b.Base.Int.{ℤ, pos, eq_ℤ}
use python_typescript_wiki_b.Text.{Str, Bytes, codes}
use python_typescript_wiki_b.Errors.{value_error, Result, ok, raised, or_else, ◌>>=◌}
use python_typescript_wiki_b.Json.{Json, null, int, str, obj, Fields, end, field}
use python_typescript_wiki_b.Outside.{Env}
use python_typescript_wiki_b.App
use python_typescript_wiki_b.App.{App, lift, observe}
use python_typescript_wiki_b.Codec.Base64.{b64encode, b64decode}
use python_typescript_wiki_b.Codec.Pkcs7.{pkcs7_pad}
use python_typescript_wiki_b.Codec.Utf8.{utf8_encode}
use python_typescript_wiki_b.Token.{unix_seconds}

abbrev pub token_header_length : ℕ
token_header_length = 48

pub record IssueTokenRequest : Type 0 where
  pub telegram_id : ℤ
  pub username : Option Str
  pub first_name : Option Str
  pub last_name : Option Str
  pub photo_url : Option Str
  pub permission : Option Str
  pub created_at : Option ℤ

abbrev text_field : Option Str → Json
text_field none = null
text_field (some s) = str s

-- `payload.model_dump()` with the time of issue put in.
unfoldable pub dump_request : IssueTokenRequest → ℤ → Fields
dump_request r created_at = field (codes "telegram_id") (int r.telegram_id) (
    field (codes "username") (text_field r.username) (
      field (codes "first_name") (text_field r.first_name) (
        field (codes "last_name") (text_field r.last_name) (
          field (codes "photo_url") (text_field r.photo_url) (
            field (codes "permission") (text_field r.permission)
              (field (codes "created_at") (int created_at) end))))))

-- `data["created_at"] or int(time.time())`: 0 counts as not given.
unfoldable pub issue_time : Option ℤ → ℕ → ℤ
issue_time none moment = unix_seconds moment
issue_time (some c) moment = if eq_ℤ c (pos 0) then unix_seconds moment else c

module _ (env : Env) (application_id secret_key : Str) where
  -- `_encrypt_payload`, for the iv that is fixed or drawn.
  unfoldable pub encrypt_payload : Bytes → Fields → Result Str
  encrypt_payload iv payload = do
    private_key ← or_else value_error (utf8_encode (application_id ++ b':' ∷ secret_key))
    let key = env.crypto.sha256 private_key
    plaintext ← or_else value_error (utf8_encode (env.json.dumps (obj payload)))
    ciphertext ← or_else value_error (env.crypto.aes_cbc_encrypt key iv (pkcs7_pad plaintext 16))
    let hash_value = env.crypto.hmac_sha256 key (ciphertext ++ iv)
    ok (b64encode (iv ++ (hash_value ++ ciphertext)))

  -- `issue_token`
  unfoldable pub issue_token : IssueTokenRequest → App Str
  issue_token request = App.◌>>=◌ (observe env.clock) λ moment.
      App.◌>>=◌ (observe env.urandom) λ iv.
        lift (encrypt_payload iv (dump_request request (issue_time request.created_at moment)))

-- `mutated[IV_LENGTH] ^= 0xFF`
abbrev pub flip_at : ℕ → Bytes → Bytes
flip_at n [] = []
flip_at zero (b ∷ bs) = (255 - b) ∷ bs
flip_at (suc n) (b ∷ bs) = b ∷ flip_at n bs

abbrev tampered : Str → Result Bytes → Str
tampered token (raised e) = token
tampered token (ok raw) =
    if leb (length raw) token_header_length then token else b64encode (flip_at 16 raw)

-- `_tamper_hmac`
unfoldable pub tamper_hmac : Str → Str
tamper_hmac token = tampered token (b64decode true token)
