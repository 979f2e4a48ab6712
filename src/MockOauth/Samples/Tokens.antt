-- ===== src/MockOauth/Samples/Tokens.antt =====
-- The service on each token of `token_examples` of mock_oauth/app.py, by what the token holds.
use python_typescript_wiki_b.Base.{
  ℕ, ◌≡◌, refl, ap, ◌∙◌, true, Option, none, some, length, replicate, if◌then◌else◌, same, all,
  arith,
}
use python_typescript_wiki_b.Base.Int.{ℤ, pos, ◌-ℤ◌, ◌≤ℤ◌, ltb_ℤ, -ℤ_parts}
use python_typescript_wiki_b.Text.{Str, codes}
use python_typescript_wiki_b.Errors.{ok, raised}
use python_typescript_wiki_b.Json.{Json, int, str, obj, Fields, get}
use python_typescript_wiki_b.Outside.{Env, IsCrypto, IsJsonLib}
use python_typescript_wiki_b.App
use python_typescript_wiki_b.App.{World, App, lift, observe, after, pure}
use python_typescript_wiki_b.Codec.Base64.{decode_token, b64decode, scan, value_of}
use python_typescript_wiki_b.Codec.Base64.RoundTrip.{IsBytes}
use python_typescript_wiki_b.Codec.Pkcs7.{oauth_invalid}
use python_typescript_wiki_b.Config.{Variables}
use python_typescript_wiki_b.Token.{
  TokenPayload, TokenService, make_token_service, validate_payload, decrypt, read_token,
  verify_token, check_age, unix_seconds,
}
use python_typescript_wiki_b.Token.Laws.{verify_token-eq-verdict, verdict, check_code_sound}
use python_typescript_wiki_b.MockOauth.{IssueTokenRequest, dump_request, tamper_hmac}
use python_typescript_wiki_b.MockOauth.RoundTrip.{
  IsSealed, encrypt_payload_sealed, decrypt_sealed, made_from,
}
use python_typescript_wiki_b.MockOauth.Tamper.{verify_token-tamper_hmac}
use python_typescript_wiki_b.MockOauth.Issue.{payload_of, read_token_dumped}
use python_typescript_wiki_b.MockOauth.Samples.{
  getenv, wrong_telegram_id, wrong_created_at, base_names, sample_payload, encrypt_sample,
  created_or_now,
}

zero_iv-IsBytes : IsBytes (replicate 16 0)
zero_iv-IsBytes = ground arith

-- The request whose payload is that of the examples.
abbrev pub sample_request : Variables → ℤ → IssueTokenRequest
sample_request variables telegram_id = record {
  telegram_id = telegram_id;
  username = some (getenv variables (codes "OAUTH_MOCK_USERNAME") (codes "demo"));
  first_name = some (getenv variables (codes "OAUTH_MOCK_FIRST_NAME") (codes "Demo"));
  last_name = some (getenv variables (codes "OAUTH_MOCK_LAST_NAME") (codes "User"));
  photo_url =
      some
        (getenv variables (codes "OAUTH_MOCK_PHOTO_URL") (codes "https://example.com/photo.png"));
  permission = some (getenv variables (codes "OAUTH_MOCK_PERMISSION") (codes "admin"));
  created_at = none;
}

abbrev pub sample_user : Variables → ℤ → ℤ → TokenPayload
sample_user variables telegram_id created_at =
    payload_of (sample_request variables telegram_id) created_at

-- `created_at` of the valid example that is made at a world.
abbrev pub sample_time : Env → Option ℤ → World → ℤ
sample_time env fixed w = created_or_now fixed (unix_seconds (env.clock w.tick))

module _ (env : Env) (service : TokenService) (token : Str) (later : World) where
  pub refused :
      read_token env service token ≡ raised oauth_invalid
      → verify_token env service token later ≡ (raised oauth_invalid, later)
  refused h =
      verify_token-eq-verdict env service token later ∙ ap (λ r. verdict env service r later) h

  pub judged :
      (p : TokenPayload)
      → read_token env service token ≡ ok p
      → verify_token env service token later ≡ (
        (if ltb_ℤ service.ttl_seconds (unix_seconds (env.clock later.tick) -ℤ p.created_at)
            then raised oauth_invalid
            else ok p),
        after later,
      )
  unfolding check_age
  judged p h =
      verify_token-eq-verdict env service token later ∙ ap (λ r. verdict env service r later) h

  -- A payload without `telegram_id` does not validate.
  pub missing_refused :
      (variables : Variables) (created_at : ℤ)
      → IsSealed env service (base_names variables (int created_at)) token
      → read_token env service token ≡ raised oauth_invalid
  unfolding read_token validate_payload get same base_names
  missing_refused variables created_at s =
      rw (decrypt_sealed env service (base_names variables (int created_at)) token s) refl

  -- pydantic reads the two strings as integers.
  pub wrong_types_read :
      (variables : Variables)
      → IsSealed env service (sample_payload variables wrong_telegram_id wrong_created_at) token
      → ((s : Str) → env.json.to_str (str s) ≡ some s)
      → env.json.to_int wrong_telegram_id ≡ some (pos 123)
      → env.json.to_int wrong_created_at ≡ some (pos 1690000000)
      → read_token env service token ≡ ok (sample_user variables (pos 123) (pos 1690000000))
  unfolding read_token validate_payload get same base_names sample_payload
  wrong_types_read variables s strs a b =
      let payload = sample_payload variables wrong_telegram_id wrong_created_at in
      rw
        (
          decrypt_sealed env service payload token s,
          a,
          b,
          strs (getenv variables (codes "OAUTH_MOCK_USERNAME") (codes "demo")),
          strs (getenv variables (codes "OAUTH_MOCK_FIRST_NAME") (codes "Demo")),
          strs (getenv variables (codes "OAUTH_MOCK_LAST_NAME") (codes "User")),
          strs (
              getenv variables (codes "OAUTH_MOCK_PHOTO_URL")
                (codes "https://example.com/photo.png")),
          strs (getenv variables (codes "OAUTH_MOCK_PERMISSION") (codes "admin")),
        )
        refl

module _ (env : Env) (service : TokenService) where
  pub not_base64_refused : read_token env service (codes "!!!not_base64!!!") ≡ raised oauth_invalid
  unfolding read_token decrypt decode_token all b64decode scan value_of
  not_base64_refused = refl

  pub invalid_refused : read_token env service (codes "invalid-token") ≡ raised oauth_invalid
  unfolding read_token decrypt decode_token all b64decode scan value_of
  invalid_refused = refl

  pub tampered_refused :
      (payload : Fields) (token : Str) (later : World)
      → IsSealed env service payload token
      → verify_token env service (tamper_hmac token) later ≡ (raised oauth_invalid, later)
  tampered_refused payload token later s = rw s.encoded (
      verify_token-tamper_hmac env service s.raw s.bytes
        (check_code_sound env service s.raw s.opened) later)

-- A service with the keys of the mock.
module _ (env : Env) (variables : Variables) (ttl : ℤ) (service : TokenService)
    (crypto : IsCrypto env.crypto)
    (made : make_token_service env
        (getenv variables (codes "OAUTH_NAME_APPLICATION_ID") (codes "local-app"))
        (getenv variables (codes "OAUTH_NAME_SECRET_KEY") (codes "local-secret"))
        ttl
      ≡ ok service)
    (random : (t : ℕ) → IsBytes (env.urandom t) × (length (env.urandom t) ≡ 16)) where
  pub encrypt_sample_lem :
      (fixed : Option ℤ) (payload : Fields) (w : World)
      → IsJsonLib env.json (obj payload)
      → (token : Str) × (w' : World) × (encrypt_sample env variables fixed payload w
          ≡ (ok token, w'))
        × IsSealed env service payload token
  unfolding encrypt_sample lift observe App.◌>>=◌
  encrypt_sample_lem none payload w json =
      let (bytes, len) = random w.tick in
      let (token, encrypted, s) =
        encrypt_payload_sealed env _ _ ttl service crypto made (env.urandom w.tick) bytes len
          payload json in
      (token, after w, ap (λ r. (r, after w)) encrypted, s)
  encrypt_sample_lem (some c) payload w json =
      let (token, encrypted, s) =
        encrypt_payload_sealed env _ _ ttl service crypto made (replicate 16 0) zero_iv-IsBytes refl
          payload json in
      (token, w, ap (λ r. (r, w)) encrypted, s)

  expired_aged :
      (created now : ℤ) → created ≤ℤ now → ltb_ℤ ttl (now -ℤ ((created -ℤ ttl) -ℤ pos 1)) ≡ true
  expired_aged created now h = ground (
    arith,
    -ℤ_parts created ttl,
    -ℤ_parts (created -ℤ ttl) (pos 1),
    -ℤ_parts now ((created -ℤ ttl) -ℤ pos 1),
  )

  pub valid_judged :
      (telegram_id created : ℤ) (token : Str) (later : World) {v : Json}
      → IsJsonLib env.json v
      → IsSealed env service (sample_payload variables (int telegram_id) (int created)) token
      → verify_token env service token later ≡ (
        (if ltb_ℤ ttl (unix_seconds (env.clock later.tick) -ℤ created)
            then raised oauth_invalid
            else ok (sample_user variables telegram_id created)),
        after later,
      )
  unfolding dump_request sample_payload
  valid_judged telegram_id created token later json s =
      let (_, _, _, same_ttl) = made_from env _ _ ttl made in
      rw (← same_ttl) (
        judged env service token later (sample_user variables telegram_id created) (
          read_token_dumped env service token (sample_request variables telegram_id) created json
            (decrypt_sealed env service _ token s)))

  pub expired_refused :
      (telegram_id created : ℤ) (token : Str) (later : World) {v : Json}
      → IsJsonLib env.json v
      → IsSealed env service
          (sample_payload variables (int telegram_id) (int ((created -ℤ ttl) -ℤ pos 1)))
          token
      → created ≤ℤ unix_seconds (env.clock later.tick)
      → verify_token env service token later ≡ (raised oauth_invalid, after later)
  expired_refused telegram_id created token later json s h =
      valid_judged telegram_id ((created -ℤ ttl) -ℤ pos 1) token later json s
      ∙ rw (expired_aged created (unix_seconds (env.clock later.tick)) h) refl
