-- ===== src/MockOauth/Samples/Judged.antt =====
-- What the service says of the tokens that `token_examples` of mock_oauth/app.py makes.
use python_typescript_wiki_b.Base.{ℕ, ◌≡◌, refl, sym, ap, ◌∙◌, Option, some, length, if◌then◌else◌}
use python_typescript_wiki_b.Base.Int.{ℤ, pos, ◌-ℤ◌, ◌≤ℤ◌, ltb_ℤ}
use python_typescript_wiki_b.Text.{codes}
use python_typescript_wiki_b.Errors.{Result, ok, raised, ok-injective}
use python_typescript_wiki_b.Json.{int, obj}
use python_typescript_wiki_b.Outside.{Env, IsCrypto, IsJsonLib}
use python_typescript_wiki_b.App
use python_typescript_wiki_b.App.{World, App, lift, observe, after, pure}
use python_typescript_wiki_b.Codec.Base64.RoundTrip.{IsBytes}
use python_typescript_wiki_b.Codec.Pkcs7.{oauth_invalid}
use python_typescript_wiki_b.Config.{Variables}
use python_typescript_wiki_b.Token.{TokenService, make_token_service, verify_token, unix_seconds}
use python_typescript_wiki_b.MockOauth.{tamper_hmac}
use python_typescript_wiki_b.MockOauth.RoundTrip.{IsSealed, made_from}
use python_typescript_wiki_b.MockOauth.Samples.{
  TokenExamples, getenv, wrong_telegram_id, wrong_created_at, base_names, sample_payload,
  getenv_int, get_fixed_created_at, token_examples,
}
use python_typescript_wiki_b.MockOauth.Samples.Tokens.{
  sample_user, sample_time, refused, judged, missing_refused, wrong_types_read, not_base64_refused,
  invalid_refused, tampered_refused, encrypt_sample_lem, valid_judged, expired_refused,
}

module _ {A B : Type 0} where
  >>=-ok :
      (m : App A) (f : A → App B) (w : World) {a : A} {w' : World}
      → m w ≡ (ok a, w')
      → (App.◌>>=◌ m f) w ≡ f a w'
  unfolding App.◌>>=◌
  >>=-ok m f w h = rw h refl

  lift-ok :
      (r : Result A) (f : A → App B) (w : World) {a : A}
      → r ≡ ok a
      → (App.◌>>=◌ (lift r) f) w ≡ f a w
  unfolding App.◌>>=◌ lift
  lift-ok r f w h = rw h refl

  observe-ok :
      (r : ℕ → A) (f : A → App B) (w : World) → (App.◌>>=◌ (observe r) f) w ≡ f (r w.tick) (after w)
  unfolding App.◌>>=◌ observe
  observe-ok r f w = refl

module _ (env : Env) (variables : Variables) (ttl : ℤ) (service : TokenService)
    (crypto : IsCrypto env.crypto)
    (made : make_token_service env
        (getenv variables (codes "OAUTH_NAME_APPLICATION_ID") (codes "local-app"))
        (getenv variables (codes "OAUTH_NAME_SECRET_KEY") (codes "local-secret"))
        ttl
      ≡ ok service)
    (random : (t : ℕ) → IsBytes (env.urandom t) × (length (env.urandom t) ≡ 16)) where
  -- The variables of the examples, read at the world `w`.
  module _ (decimal : ℕ → Option ℕ) (fixed : Option ℤ) (telegram_id : ℤ) (w : World)
      (ttl_read : getenv_int decimal variables (codes "TOKEN_TTL_SECONDS") (codes "86400") ≡ ok ttl)
      (fixed_read : get_fixed_created_at decimal variables ≡ ok fixed)
      (id_read : getenv_int decimal variables (codes "OAUTH_MOCK_TELEGRAM_ID") (codes "123456")
        ≡ ok telegram_id)
      (valid_json : IsJsonLib env.json
        (obj (sample_payload variables (int telegram_id) (int (sample_time env fixed w)))))
      (expired_json : IsJsonLib env.json (
        obj (
          sample_payload variables
            (int telegram_id)
            (int ((sample_time env fixed w -ℤ ttl) -ℤ pos 1)))))
      (missing_json : IsJsonLib env.json
        (obj (base_names variables (int (sample_time env fixed w)))))
      (wrong_json : IsJsonLib env.json
        (obj (sample_payload variables wrong_telegram_id wrong_created_at))) where
    -- The tokens of one answer, by what they hold.
    record IsAnswer (t : TokenExamples) : Type 0 where
      valid :
          IsSealed env service
            (sample_payload variables (int telegram_id) (int (sample_time env fixed w)))
            t.valid
      expired :
          IsSealed env service
            (sample_payload variables
              (int telegram_id)
              (int ((sample_time env fixed w -ℤ ttl) -ℤ pos 1)))
            t.expired
      invalid : t.invalid ≡ codes "invalid-token"
      invalid_hmac : t.invalid_hmac ≡ tamper_hmac t.valid
      invalid_base64 : t.invalid_base64 ≡ codes "!!!not_base64!!!"
      missing :
          IsSealed env service
            (base_names variables (int (sample_time env fixed w)))
            t.missing_fields
      wrong :
          IsSealed env service
            (sample_payload variables wrong_telegram_id wrong_created_at)
            t.wrong_types

    answered :
        (t : TokenExamples) × ((token_examples env decimal variables w).0 ≡ ok t) × IsAnswer t
    unfolding token_examples pure
    answered =
        let encrypt = encrypt_sample_lem env variables ttl service crypto made random in
        let (valid, w1, e1, s1) = encrypt fixed _ (after w) valid_json in
        let (expired, w2, e2, s2) = encrypt fixed _ w1 expired_json in
        let (missing, w3, e3, s3) = encrypt fixed _ w2 missing_json in
        let (wrong, w4, e4, s4) = encrypt fixed _ w3 wrong_json in
        (
          _,
          ap (λ x. x.0)
              (observe-ok env.clock _ w
                ∙ lift-ok _ _ (after w) ttl_read
                ∙ lift-ok _ _ (after w) fixed_read
                ∙ lift-ok _ _ (after w) id_read
                ∙ >>=-ok _ _ (after w) e1
                ∙ >>=-ok _ _ w1 e2
                ∙ >>=-ok _ _ w2 e3
                ∙ >>=-ok _ _ w3 e4),
          record {
            valid = s1;
            expired = s2;
            invalid = refl;
            invalid_hmac = refl;
            invalid_base64 = refl;
            missing = s3;
            wrong = s4;
          },
        )

    -- For primitives that behave as documented, random bytes that are 16, a codec that reads back the
    -- four payloads, variables that are integers where `int` reads them, and a service that has the
    -- mock's keys and TTL, `token_examples` answers. At any moment that is not before the
    -- `created_at` of the answer, the service takes `valid` as the configured user unless it is older
    -- than the TTL, and refuses each of `expired`, `invalid`, `invalid_hmac`, `invalid_base64` and
    -- `missing_fields` with OAUTH_CODE_INVALID.
    pub verify_token-token_examples :
        (later : World)
        → sample_time env fixed w ≤ℤ unix_seconds (env.clock later.tick)
        → (t : TokenExamples) × ((token_examples env decimal variables w).0 ≡ ok t)
          × (verify_token env service t.valid later ≡ (
            (if ltb_ℤ ttl (unix_seconds (env.clock later.tick) -ℤ sample_time env fixed w)
                then raised oauth_invalid
                else ok (sample_user variables telegram_id (sample_time env fixed w))),
            after later,
          ))
          × (verify_token env service t.expired later ≡ (raised oauth_invalid, after later))
          × (verify_token env service t.invalid later ≡ (raised oauth_invalid, later))
          × (verify_token env service t.invalid_hmac later ≡ (raised oauth_invalid, later))
          × (verify_token env service t.invalid_base64 later ≡ (raised oauth_invalid, later))
          × (verify_token env service t.missing_fields later ≡ (raised oauth_invalid, later))
    verify_token-token_examples later h =
        let (t, made_t, a) = answered in
        let created = sample_time env fixed w in
        (
          t,
          made_t,
          valid_judged env variables ttl service crypto made random telegram_id created t.valid
              later valid_json a.valid,
          expired_refused env variables ttl service crypto made random telegram_id created t.expired
              later expired_json a.expired h,
          rw a.invalid (refused env service _ later (invalid_refused env service)),
          rw a.invalid_hmac (tampered_refused env service _ t.valid later a.valid),
          rw a.invalid_base64 (refused env service _ later (not_base64_refused env service)),
          refused env service t.missing_fields later
              (missing_refused env service t.missing_fields later variables created a.missing),
        )

    -- For primitives that behave as documented, random bytes that are 16, a codec that reads back the
    -- four payloads, variables that are integers where `int` reads them, and a service that has the
    -- mock's keys and TTL: if pydantic reads the strings "123" and "1690000000" as the integers that
    -- they show, the service takes the token `wrong_types` of an answer as user 123 of the moment
    -- 1690000000, and refuses it with OAUTH_CODE_INVALID only when that moment is longer ago than the
    -- TTL.
    pub verify_token-wrong_types :
        env.json.to_int wrong_telegram_id ≡ some (pos 123)
        → env.json.to_int wrong_created_at ≡ some (pos 1690000000)
        → (t : TokenExamples) → (token_examples env decimal variables w).0 ≡ ok t
        → (later : World)
        → verify_token env service t.wrong_types later ≡ (
          (if ltb_ℤ ttl (unix_seconds (env.clock later.tick) -ℤ pos 1690000000)
              then raised oauth_invalid
              else ok (sample_user variables (pos 123) (pos 1690000000))),
          after later,
        )
    verify_token-wrong_types id_int created_int t run later =
        let (t', made_t, a) = answered in
        let (_, _, _, same_ttl) = made_from env _ _ ttl made in
        rw (ok-injective (sym run ∙ made_t), ← same_ttl)
          (judged env service t'.wrong_types later
            (sample_user variables (pos 123) (pos 1690000000))
            (wrong_types_read env service t'.wrong_types later variables a.wrong
              valid_json.to_str-str id_int created_int))
