-- ===== src/Examples/Tokens.antt =====
-- The theorems on codecs, tokens and settings at concrete arguments.
use python_typescript_wiki_b.Base.{
  ℕ, ◌≤◌, ◌≡◌, ◌↔◌, refl, ◌++◌, arith, replicate, if◌then◌else◌, same,
}
use python_typescript_wiki_b.Base.Int.{pos, ◌-ℤ◌, ◌≤ℤ◌, ltb_ℤ}
use python_typescript_wiki_b.Text.{Str, codes}
use python_typescript_wiki_b.Errors.{ok, raised}
use python_typescript_wiki_b.Db.{empty_db}
use python_typescript_wiki_b.App.{World, after}
use python_typescript_wiki_b.Codec.Base64.{b64encode, decode_token}
use python_typescript_wiki_b.Codec.Pkcs7.{pkcs7_unpad, oauth_invalid}
use python_typescript_wiki_b.Codec.Pkcs7.Laws.{pkcs7_unpad_sound}
use python_typescript_wiki_b.Token
use python_typescript_wiki_b.Token.{TokenPayload, unix_seconds, make_token_service, decrypt}
use python_typescript_wiki_b.Token.Laws.{IsAuthentic, verify_token_sound, verify_token_refusal}
use python_typescript_wiki_b.MockOauth.{issue_token, issue_time, encrypt_payload}
use python_typescript_wiki_b.MockOauth.RoundTrip.{decrypt-encrypt_payload}
use python_typescript_wiki_b.MockOauth.{tamper_hmac}
use python_typescript_wiki_b.MockOauth.Tamper.{verify_token-tamper_hmac}
use python_typescript_wiki_b.Config.{get_settings}
use python_typescript_wiki_b.Config.Laws.{IsConfigured, get_settings_lem}
use python_typescript_wiki_b.MockOauth.Issue.{payload_of, verify_token-issue_token}
use python_typescript_wiki_b.Examples.{
  plain_crypto-IsCrypto, test_request, test_payload, test_json-IsJsonLib, test_env, test_tokens,
  first_world, urandom-IsBytes,
}
use python_typescript_wiki_b.Examples.Settings.{ascii_decimal, test_variables, test_settings}
use python_typescript_wiki_b.Examples.Runs.{
  test_raw, test_token, token_runs, token_world, refusal_runs, key_runs,
}

verify_token-issue_token_example :
    (token : Str) × (issue_token test_env (codes "app") (codes "secret") test_request first_world
      ≡ (ok token, after (after first_world)))
    × ((later : World)
        → Token.verify_token test_env test_tokens token later ≡ (
          (if ltb_ℤ (pos 300) (unix_seconds (test_env.clock later.tick) -ℤ pos 1700000000)
              then raised oauth_invalid
              else ok (payload_of test_request (pos 1700000000))),
          after later,
        ))
unfolding issue_time
verify_token-issue_token_example =
    verify_token-issue_token test_env plain_crypto-IsCrypto (codes "app") (codes "secret") (pos 300)
      test_tokens key_runs urandom-IsBytes test_request first_world test_json-IsJsonLib

verify_token_sound_example :
    (raw : _) × (decode_token test_token ≡ ok raw)
    × IsAuthentic test_env test_tokens raw
    × (unix_seconds (test_env.clock 0) -ℤ pos 1700000000 ≤ℤ pos 300)
    × (token_world ≡ after first_world)
verify_token_sound_example =
    verify_token_sound test_env test_tokens test_token first_world token_world token_runs

verify_token_refusal_example :
    (oauth_invalid ≡ oauth_invalid)
    × ((Token.verify_token test_env test_tokens (codes "AAAA") first_world).1.db ≡ empty_db)
verify_token_refusal_example =
    verify_token_refusal test_env test_tokens (codes "AAAA") first_world refusal_runs

decrypt-encrypt_payload_example :
    (token : Str) × (encrypt_payload test_env
        (codes "app")
        (codes "secret")
        (replicate 16 7)
        test_payload
      ≡ ok token)
    × (decrypt test_env test_tokens token ≡ ok test_payload)
decrypt-encrypt_payload_example =
    decrypt-encrypt_payload test_env (codes "app") (codes "secret") (pos 300) test_tokens
      plain_crypto-IsCrypto key_runs (replicate 16 7) (urandom-IsBytes 0).0 refl test_payload
      test_json-IsJsonLib

pkcs7_unpad_sound_example :
    (n : ℕ) × (1 ≤ n) × (n ≤ 16) × (codes "abc" ++ replicate 13 13 ≡ codes "abc" ++ replicate n n)
unfolding pkcs7_unpad same
pkcs7_unpad_sound_example = pkcs7_unpad_sound (codes "abc" ++ replicate 13 13) (codes "abc") refl

verify_token-tamper_hmac_example :
    Token.verify_token test_env test_tokens (tamper_hmac (b64encode test_raw)) first_world
    ≡ (raised oauth_invalid, first_world)
verify_token-tamper_hmac_example =
    verify_token-tamper_hmac test_env test_tokens test_raw (ground arith)
      (record { long = omega arith; code = refl }) first_world

get_settings_example :
    (get_settings ascii_decimal test_variables ≡ ok test_settings)
    ↔ IsConfigured ascii_decimal test_variables test_settings
get_settings_example = get_settings_lem ascii_decimal test_variables test_settings
