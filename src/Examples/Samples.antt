-- ===== src/Examples/Samples.antt =====
-- The theorems on the tokens of `token_examples` at concrete arguments.
use python_typescript_wiki_b.Base.{
  ◌≡◌, refl, Option, none, some, [], arith, same, all, replicate, if◌then◌else◌,
}
use python_typescript_wiki_b.Base.Int.{ℤ, pos, eq_ℤ, ◌-ℤ◌, ltb_ℤ}
use python_typescript_wiki_b.Text.{Str, codes, strip, is_space, lstrip, rstrip}
use python_typescript_wiki_b.Errors.{ok, raised}
use python_typescript_wiki_b.Json.{Json, int, str, obj, get}
use python_typescript_wiki_b.Outside.{JsonLib, loaded, Env, IsJsonLib}
use python_typescript_wiki_b.App.{after}
use python_typescript_wiki_b.Codec.Pkcs7.{oauth_invalid}
use python_typescript_wiki_b.Codec.Utf8.{utf8_encode}
use python_typescript_wiki_b.Config.{Variables, parse_int, digits}
use python_typescript_wiki_b.Token.{TokenService, make_token_service, verify_token, unix_seconds}
use python_typescript_wiki_b.MockOauth.Samples.{
  TokenExamples, getenv_int, get_fixed_created_at, int_value, sample_payload, base_names,
  wrong_telegram_id, wrong_created_at, token_examples,
}
use python_typescript_wiki_b.MockOauth.Samples.Tokens.{sample_user}
use python_typescript_wiki_b.MockOauth.Samples.Judged.{
  verify_token-token_examples, verify_token-wrong_types,
}
use python_typescript_wiki_b.Examples.{
  plain_crypto-IsCrypto, str_of, test_env, first_world, urandom-IsBytes,
}
use python_typescript_wiki_b.Examples.Settings.{ascii_decimal}

-- An environment that only fixes the time of issue.
abbrev fixed_variables : Variables
fixed_variables name =
    if same name (codes "OAUTH_MOCK_FIXED_CREATED_AT") then some (codes " 1700000000\n") else none

abbrev valid_sample : Json
valid_sample = obj (sample_payload fixed_variables (int (pos 123456)) (int (pos 1700000000)))

abbrev expired_sample : Json
expired_sample = obj (sample_payload fixed_variables (int (pos 123456)) (int (pos 1699913599)))

abbrev missing_sample : Json
missing_sample = obj (base_names fixed_variables (int (pos 1700000000)))

abbrev wrong_sample : Json
wrong_sample = obj (sample_payload fixed_variables wrong_telegram_id wrong_created_at)

abbrev name_by_time : Option Json → Str
name_by_time (some (int z)) = if eq_ℤ z (pos 1700000000) then codes "valid" else codes "expired"
name_by_time _ = []

abbrev sample_name : Json → Str
sample_name (obj d) = elim (get (codes "telegram_id") d) [
  | none ↦ codes "missing"
  | some (str s) ↦ codes "wrong"
  | some v ↦ name_by_time (get (codes "created_at") d)
]
sample_name _ = []

abbrev sample_named : Str → Json
sample_named s =
    if same s (codes "valid")
    then valid_sample
    else if same s (codes "expired")
    then expired_sample
    else if same s (codes "missing")
    then missing_sample
    else wrong_sample

-- Integers, and the two strings that the wrong types have.
abbrev lax_int : Json → Option ℤ
lax_int (int z) = some z
lax_int (str s) = if same s (codes "123") then some (pos 123) else some (pos 1690000000)
lax_int _ = none

-- A codec for the four payloads.
abbrev sample_json : JsonLib
sample_json = record {
  loads = λ s. loaded (sample_named s);
  loads_bytes = λ s. loaded (sample_named s);
  dumps = sample_name;
  to_int = lax_int;
  to_str = str_of;
}

abbrev sample_env : Env
sample_env = record test_env { json = sample_json }

abbrev sample_service : TokenService
sample_service = record { key = replicate 32 116; ttl_seconds = pos 86400 }

sample_keys :
    make_token_service sample_env (codes "local-app") (codes "local-secret") (pos 86400)
    ≡ ok sample_service
unfolding make_token_service utf8_encode
sample_keys = refl

valid_codec : IsJsonLib sample_json valid_sample
unfolding sample_payload base_names same get
valid_codec = record {
  loads-dumps = refl;
  dumps-ascii = ground arith;
  to_int-int = λ z. refl;
  to_str-str = λ s. refl;
}

expired_codec : IsJsonLib sample_json expired_sample
unfolding sample_payload base_names same get
expired_codec = record {
  loads-dumps = refl;
  dumps-ascii = ground arith;
  to_int-int = λ z. refl;
  to_str-str = λ s. refl;
}

missing_codec : IsJsonLib sample_json missing_sample
unfolding sample_payload base_names same get
missing_codec = record {
  loads-dumps = refl;
  dumps-ascii = ground arith;
  to_int-int = λ z. refl;
  to_str-str = λ s. refl;
}

wrong_codec : IsJsonLib sample_json wrong_sample
unfolding sample_payload base_names same get
wrong_codec = record {
  loads-dumps = refl;
  dumps-ascii = ground arith;
  to_int-int = λ z. refl;
  to_str-str = λ s. refl;
}

ttl_reads :
    getenv_int ascii_decimal fixed_variables (codes "TOKEN_TTL_SECONDS") (codes "86400")
    ≡ ok (pos 86400)
unfolding getenv_int int_value parse_int digits same all
ttl_reads = refl

fixed_reads : get_fixed_created_at ascii_decimal fixed_variables ≡ ok (some (pos 1700000000))
unfolding get_fixed_created_at int_value parse_int digits same all strip is_space lstrip rstrip
fixed_reads = refl

id_reads :
    getenv_int ascii_decimal fixed_variables (codes "OAUTH_MOCK_TELEGRAM_ID") (codes "123456")
    ≡ ok (pos 123456)
unfolding getenv_int int_value parse_int digits same all
id_reads = refl

verify_token-token_examples_example :
    (t : TokenExamples) × ((token_examples sample_env ascii_decimal fixed_variables first_world).0
      ≡ ok t)
    × (verify_token sample_env sample_service t.valid first_world ≡ (
      (if ltb_ℤ (pos 86400) (unix_seconds (sample_env.clock 0) -ℤ pos 1700000000)
          then raised oauth_invalid
          else ok (sample_user fixed_variables (pos 123456) (pos 1700000000))),
      after first_world,
    ))
    × (verify_token sample_env sample_service t.expired first_world
        ≡ (raised oauth_invalid, after first_world))
    × (verify_token sample_env sample_service t.invalid first_world
        ≡ (raised oauth_invalid, first_world))
    × (verify_token sample_env sample_service t.invalid_hmac first_world
        ≡ (raised oauth_invalid, first_world))
    × (verify_token sample_env sample_service t.invalid_base64 first_world
        ≡ (raised oauth_invalid, first_world))
    × (verify_token sample_env sample_service t.missing_fields first_world
        ≡ (raised oauth_invalid, first_world))
unfolding same ◌-ℤ◌
verify_token-token_examples_example =
    verify_token-token_examples sample_env fixed_variables (pos 86400) sample_service
      plain_crypto-IsCrypto sample_keys urandom-IsBytes ascii_decimal (some (pos 1700000000))
      (pos 123456) first_world ttl_reads fixed_reads id_reads valid_codec expired_codec
      missing_codec wrong_codec first_world (omega arith)

-- The tokens that are made.
sample_answer :
    (t : TokenExamples) × ((token_examples sample_env ascii_decimal fixed_variables first_world).0
      ≡ ok t)
unfolding same ◌-ℤ◌
sample_answer =
    let (t, made, _, _, _, _, _, _) =
      verify_token-token_examples sample_env fixed_variables (pos 86400) sample_service
        plain_crypto-IsCrypto sample_keys urandom-IsBytes ascii_decimal (some (pos 1700000000))
        (pos 123456) first_world ttl_reads fixed_reads id_reads valid_codec expired_codec
        missing_codec wrong_codec first_world (omega arith) in
    (t, made)

verify_token-wrong_types_example :
    verify_token sample_env sample_service sample_answer.0.wrong_types first_world ≡ (
      (if ltb_ℤ (pos 86400) (unix_seconds (sample_env.clock 0) -ℤ pos 1690000000)
          then raised oauth_invalid
          else ok (sample_user fixed_variables (pos 123) (pos 1690000000))),
      after first_world,
    )
unfolding same ◌-ℤ◌
verify_token-wrong_types_example =
    verify_token-wrong_types sample_env fixed_variables (pos 86400) sample_service
      plain_crypto-IsCrypto sample_keys urandom-IsBytes ascii_decimal (some (pos 1700000000))
      (pos 123456) first_world ttl_reads fixed_reads id_reads valid_codec expired_codec
      missing_codec wrong_codec refl refl sample_answer.0 sample_answer.1 first_world
