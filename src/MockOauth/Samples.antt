-- ===== src/MockOauth/Samples.antt =====
-- mock_oauth/app.py: `token_examples`, the tokens for tests, and the variables that they depend on.
pub mod Tokens
pub mod Judged
use mathlib.Core.Option
use python_typescript_wiki_b.Base.{
  ℕ, Bool, ◌&&◌, ◌||◌, Option, none, some, [], ◌∷◌, ltb, leb, ◌==◌, all, if◌then◌else◌, replicate,
}
use python_typescript_wiki_b.Base.Int.{ℤ, pos, ◌-ℤ◌}
use python_typescript_wiki_b.Text.{Str, codes, strip, is_empty}
use python_typescript_wiki_b.Errors.{value_error, Result, ok, or_else}
use python_typescript_wiki_b.Json.{Json, int, str, Fields, end, field}
use python_typescript_wiki_b.Outside.{Env}
use python_typescript_wiki_b.App.{App, pure, lift, observe, ◌>>=◌}
use python_typescript_wiki_b.Token.{iv_length, unix_seconds}
use python_typescript_wiki_b.Config.{Variables, parse_int}
use python_typescript_wiki_b.MockOauth.{encrypt_payload, tamper_hmac}

-- The tokens by their names in the answer.
pub record TokenExamples : Type 0 where
  pub valid : Str
  pub expired : Str
  pub invalid : Str
  pub invalid_hmac : Str
  pub invalid_base64 : Str
  pub missing_fields : Str
  pub wrong_types : Str

-- The spaces that `int` drops from a text of ASCII.
unfoldable pub is_c_space : ℕ → Bool
is_c_space c = (leb 9 c && leb c 13) || c == 32

unfoldable pub trim_start : Str → Str
trim_start [] = []
trim_start (c ∷ s) = let rest = trim_start s in if is_c_space c then rest else c ∷ s

unfoldable pub trim_end : Str → Str
trim_end [] = []
trim_end (c ∷ s) = let rest = trim_end s in if is_c_space c && is_empty rest then [] else c ∷ rest

-- `int(text)`: spaces around the digits are dropped, those of Unicode unless the text is ASCII.
unfoldable pub int_value : (ℕ → Option ℕ) → Str → Option ℤ
unfolding is_c_space trim_start trim_end
int_value decimal text =
    parse_int decimal
      (if all (λ c. ltb c 0x80) text then trim_end (trim_start text) else strip text)

abbrev default_to : Str → Option Str → Str
default_to default none = default
default_to default (some value) = value

-- `os.getenv(name, default)`
abbrev pub getenv : Variables → Str → Str → Str
getenv variables name default = default_to default (variables name)

-- `payload["telegram_id"]` of the example with wrong types, which has strings in place of integers.
abbrev pub wrong_telegram_id : Json
wrong_telegram_id = str (codes "123")

abbrev pub wrong_created_at : Json
wrong_created_at = str (codes "1690000000")

module _ (variables : Variables) where
  -- The names of `base_payload` behind its `telegram_id`, then `created_at`.
  unfoldable pub base_names : Json → Fields
  base_names created_at =
      field (codes "username") (str (getenv variables (codes "OAUTH_MOCK_USERNAME") (codes "demo")))
        (field (codes "first_name")
          (str (getenv variables (codes "OAUTH_MOCK_FIRST_NAME") (codes "Demo")))
          (field (codes "last_name")
            (str (getenv variables (codes "OAUTH_MOCK_LAST_NAME") (codes "User")))
            (field (codes "photo_url")
              (str (
                getenv variables (codes "OAUTH_MOCK_PHOTO_URL")
                  (codes "https://example.com/photo.png")))
              (field (codes "permission")
                (str (getenv variables (codes "OAUTH_MOCK_PERMISSION") (codes "admin")))
                (field (codes "created_at") created_at end)))))

  -- `dict(base_payload, created_at=...)`, and with another `telegram_id`.
  unfoldable pub sample_payload : Json → Json → Fields
  unfolding base_names
  sample_payload telegram_id created_at =
      field (codes "telegram_id") telegram_id (base_names created_at)

module _ (env : Env) (variables : Variables) where
  -- `_encrypt_payload` with the keys of the environment, and `fixed_iv or os.urandom(IV_LENGTH)`.
  unfoldable pub encrypt_sample : Option ℤ → Fields → App Str
  encrypt_sample fixed_created_at payload =
      let encrypt =
        encrypt_payload env
          (getenv variables (codes "OAUTH_NAME_APPLICATION_ID") (codes "local-app"))
          (getenv variables (codes "OAUTH_NAME_SECRET_KEY") (codes "local-secret")) in
      elim fixed_created_at [
        | some _ ↦ lift (encrypt (replicate iv_length 0) payload)
        | none ↦ (do iv ← observe env.urandom; lift (encrypt iv payload))
      ]

module _ (decimal : ℕ → Option ℕ) (variables : Variables) where
  -- `int(os.getenv(name, default))`
  unfoldable pub getenv_int : Str → Str → Result ℤ
  unfolding int_value
  getenv_int name default = or_else value_error (int_value decimal (getenv variables name default))

  abbrev fixed_moment : Option Str → Result (Option ℤ)
  fixed_moment none = ok none
  fixed_moment (some value) =
      if is_empty (strip value)
      then ok none
      else or_else value_error (Option.map some (int_value decimal value))

  -- `_get_fixed_created_at`
  unfoldable pub get_fixed_created_at : Result (Option ℤ)
  unfolding int_value
  get_fixed_created_at = fixed_moment (variables (codes "OAUTH_MOCK_FIXED_CREATED_AT"))

abbrev pub created_or_now : Option ℤ → ℤ → ℤ
created_or_now none now = now
created_or_now (some created_at) now = created_at

module _ (env : Env) (decimal : ℕ → Option ℕ) (variables : Variables) where
  unfoldable pub token_examples : App TokenExamples
  unfolding getenv_int get_fixed_created_at sample_payload encrypt_sample
  token_examples = do
    moment ← observe env.clock
    ttl_seconds ← lift (getenv_int decimal variables (codes "TOKEN_TTL_SECONDS") (codes "86400"))
    fixed_created_at ← lift (get_fixed_created_at decimal variables)
    telegram_id ←
        lift (getenv_int decimal variables (codes "OAUTH_MOCK_TELEGRAM_ID") (codes "123456"))
    let created_at = created_or_now fixed_created_at (unix_seconds moment)
    let encrypt = encrypt_sample env variables fixed_created_at
    valid ← encrypt (sample_payload variables (int telegram_id) (int created_at))
    expired ←
        encrypt
          (sample_payload variables (int telegram_id) (int ((created_at -ℤ ttl_seconds) -ℤ pos 1)))
    missing_fields ← encrypt (base_names variables (int created_at))
    wrong_types ← encrypt (sample_payload variables wrong_telegram_id wrong_created_at)
    pure (record {
      valid = valid;
      expired = expired;
      invalid = codes "invalid-token";
      invalid_hmac = tamper_hmac valid;
      invalid_base64 = codes "!!!not_base64!!!";
      missing_fields = missing_fields;
      wrong_types = wrong_types;
    })
