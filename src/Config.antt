-- ===== src/Config.antt =====
-- app/core/config.py, and the services that app/api/deps.py makes from the settings.
pub mod Laws
pub mod Cors
use python_typescript_wiki_b.Base.{
  ℕ, suc, ◌+◌, ◌*◌, Bool, true, false, Option, none, some, List, [], ◌∷◌, map, ltb, ◌==◌,
  if◌then◌else◌, ◌||◌, not, same,
}
use python_typescript_wiki_b.Base.Int.{ℤ, pos, negsuc, sub_ℕ}
use python_typescript_wiki_b.Text.{Str, codes, strip, split, is_empty}
use python_typescript_wiki_b.Errors.{runtime_error, Result, ok, raised, or_else, ◌>>=◌}
use python_typescript_wiki_b.Outside.{Env}
use python_typescript_wiki_b.Token.{TokenService, make_token_service}
use python_typescript_wiki_b.Services.Sessions.{SessionService}

pub record Settings : Type 0 where
  pub oauth_name_application_id : Str
  pub oauth_name_secret_key : Str
  pub token_ttl_seconds : ℤ
  pub session_ttl_seconds : ℤ
  pub cors_origins : List Str

-- `os.getenv`
abbrev pub Variables : Type 0
Variables = Str → Option Str

-- The digits of `int(text)`: single underscores may stand between digits, and more than 4300 digits
-- are refused. `decimal` is the value of a decimal digit, of any script.
module _ (decimal : ℕ → Option ℕ) where
  abbrev finish : Bool → ℕ → ℕ → Option ℕ
  finish true count value = none
  finish false count value = if ltb 4300 count then none else some value

  -- Whether a digit has to follow, how many there were, and their value.
  unfoldable pub digits : Bool → ℕ → ℕ → Str → Option ℕ
  digits due count value [] = finish due count value
  digits due count value (c ∷ s) =
      let behind_underscore = digits true count value s in
      if c == b'_'
      then (if due then none else behind_underscore)
      else elim (decimal c) [ none ↦ none | some d ↦ digits false (suc count) (value * 10 + d) s ]

  abbrev minus : Option ℕ → Option ℤ
  minus none = none
  minus (some n) = some (sub_ℕ 0 n)

  abbrev plus : Option ℕ → Option ℤ
  plus none = none
  plus (some n) = some (pos n)

  -- `int(text)` for a text without spaces around it.
  unfoldable pub parse_int : Str → Option ℤ
  unfolding digits
  parse_int [] = none
  parse_int (c ∷ s) =
      if c == b'-'
      then minus (digits true 0 0 s)
      else if c == b'+'
      then plus (digits true 0 0 s)
      else plus (digits true 0 0 (c ∷ s))

abbrev pub present : Option Str → Result Str
present none = raised runtime_error
present (some value) = if is_empty (strip value) then raised runtime_error else ok (strip value)

abbrev pub or_star : Option Str → Str
or_star none = codes "*"
or_star (some value) = value

module _ (variables : Variables) where
  -- `_env_required`
  unfoldable pub env_required : Str → Result Str
  unfolding strip
  env_required name = present (variables name)

  -- `[origin.strip() for origin in os.getenv("CORS_ORIGINS", "*").split(",")]`
  unfoldable pub read_origins : List Str
  unfolding strip split
  read_origins = map strip (split b',' (or_star (variables (codes "CORS_ORIGINS"))))

module _ (decimal : ℕ → Option ℕ) (variables : Variables) where
  -- `_env_int_required`
  unfoldable pub env_int_required : Str → Result ℤ
  unfolding env_required parse_int
  env_int_required name = do
    value ← env_required variables name
    or_else runtime_error (parse_int decimal value)

  -- `get_settings`
  unfoldable pub get_settings : Result Settings
  unfolding read_origins
  get_settings = do
    application_id ← env_required variables (codes "OAUTH_NAME_APPLICATION_ID")
    secret_key ← env_required variables (codes "OAUTH_NAME_SECRET_KEY")
    token_ttl ← env_int_required (codes "TOKEN_TTL_SECONDS")
    session_ttl ← env_int_required (codes "SESSION_TTL_SECONDS")
    ok (record {
      oauth_name_application_id = application_id;
      oauth_name_secret_key = secret_key;
      token_ttl_seconds = token_ttl;
      session_ttl_seconds = session_ttl;
      cors_origins = read_origins variables;
    })

-- `get_token_service`
unfoldable pub get_token_service : Env → Settings → Result TokenService
get_token_service env settings =
    make_token_service env settings.oauth_name_application_id settings.oauth_name_secret_key
      settings.token_ttl_seconds

-- `get_session_service`, with the services below it.
unfoldable pub get_session_service : Env → Settings → Result SessionService
get_session_service env settings = do
  tokens ← get_token_service env settings
  ok (record { tokens = tokens; ttl_seconds = settings.session_ttl_seconds })

-- The arguments of `CORSMiddleware` that depend on the settings.
pub record CorsOptions : Type 0 where
  pub allow_origins : List Str
  pub allow_credentials : Bool

-- `"*" in settings.cors_origins`
unfoldable pub allow_all_origins : List Str → Bool
unfolding same
allow_all_origins [] = false
allow_all_origins (origin ∷ origins) = same origin (codes "*") || allow_all_origins origins

unfoldable pub cors_options : Settings → CorsOptions
unfolding allow_all_origins
cors_options settings = record {
  allow_origins = settings.cors_origins;
  allow_credentials = not (allow_all_origins settings.cors_origins);
}
