-- ===== src/MockOauth/Issue.antt =====
-- Tokens from the issue endpoint, at the service.
use python_typescript_wiki_b.Base.{
  ℕ, ◌≡◌, refl, ap, ◌∙◌, Option, none, some, length, if◌then◌else◌, same,
}
use python_typescript_wiki_b.Base.Int.{ℤ, ◌-ℤ◌, ltb_ℤ}
use python_typescript_wiki_b.Text.{Str}
use python_typescript_wiki_b.Errors.{ok, raised}
use python_typescript_wiki_b.Json.{Json, obj, get}
use python_typescript_wiki_b.Outside.{Env, JsonLib, IsCrypto, IsJsonLib}
use python_typescript_wiki_b.App
use python_typescript_wiki_b.App.{World, App, lift, observe, after}
use python_typescript_wiki_b.Codec.Base64.RoundTrip.{IsBytes}
use python_typescript_wiki_b.Codec.Pkcs7.{oauth_invalid}
use python_typescript_wiki_b.Token.{
  TokenPayload, TokenService, make_token_service, validate_payload, nullable, decrypt, read_token,
  verify_token, check_age, unix_seconds,
}
use python_typescript_wiki_b.Token.Laws.{verify_token-eq-verdict, verdict}
use python_typescript_wiki_b.MockOauth.{
  IssueTokenRequest, text_field, dump_request, issue_time, issue_token,
}
use python_typescript_wiki_b.MockOauth.RoundTrip.{decrypt-encrypt_payload}

-- The payload that a request to issue stands for.
abbrev pub payload_of : IssueTokenRequest → ℤ → TokenPayload
payload_of r created_at = record {
  telegram_id = r.telegram_id;
  username = r.username;
  created_at = created_at;
  first_name = r.first_name;
  last_name = r.last_name;
  photo_url = r.photo_url;
  permission = r.permission;
}

nullable-text_field :
    (json : JsonLib) {v : Json}
    → IsJsonLib json v
    → (o : Option Str) → nullable json.to_str (text_field o) ≡ some o
nullable-text_field json laws none = refl
nullable-text_field json laws (some s) = rw (laws.to_str-str s) refl

validate_payload-dump_request :
    (json : JsonLib) {v : Json}
    → IsJsonLib json v
    → (r : IssueTokenRequest) (created_at : ℤ)
    → validate_payload json (dump_request r created_at) ≡ some (payload_of r created_at)
unfolding validate_payload dump_request get same
validate_payload-dump_request json laws r c =
    rw
      (
        laws.to_int-int r.telegram_id,
        nullable-text_field json laws r.username,
        laws.to_int-int c,
        nullable-text_field json laws r.first_name,
        nullable-text_field json laws r.last_name,
        nullable-text_field json laws r.photo_url,
        nullable-text_field json laws r.permission,
      )
      refl

module _ (env : Env) where
  pub read_token_dumped :
      (service : TokenService) (token : Str) (r : IssueTokenRequest) (created_at : ℤ)
      → {v : Json} → IsJsonLib env.json v
      → decrypt env service token ≡ ok (dump_request r created_at)
      → read_token env service token ≡ ok (payload_of r created_at)
  unfolding read_token
  read_token_dumped service token r c json h =
      rw (h, validate_payload-dump_request env.json json r c) refl

  -- For primitives that behave as documented, random bytes that are 16, and a codec that reads back
  -- what it writes of the payload, the mock issues a token for every request. The service that has
  -- the same application and secret reads it at any later moment as the request's payload, with the
  -- time of issue in place of a missing or zero `created_at`, and refuses it exactly when it is
  -- older than the TTL.
  pub verify_token-issue_token :
      IsCrypto env.crypto
      → (application_id secret_key : Str) (ttl : ℤ) (service : TokenService)
      → make_token_service env application_id secret_key ttl ≡ ok service
      → ((t : ℕ) → IsBytes (env.urandom t) × (length (env.urandom t) ≡ 16))
      → (request : IssueTokenRequest) (w : World)
      → IsJsonLib env.json
          (obj (dump_request request (issue_time request.created_at (env.clock w.tick))))
      → (token : Str) × (issue_token env application_id secret_key request w
          ≡ (ok token, after (after w)))
        × ((later : World)
            → verify_token env service token later ≡ (
              (if ltb_ℤ service.ttl_seconds (
                    unix_seconds (env.clock later.tick)
                    -ℤ issue_time request.created_at (env.clock w.tick))
                  then raised oauth_invalid
                  else ok (payload_of request (issue_time request.created_at (env.clock w.tick)))),
              after later,
            ))
  unfolding issue_token App.◌>>=◌ lift observe check_age
  verify_token-issue_token crypto app secret ttl service made random request w json =
      let (iv_IsBytes, length_iv) = random (after w).tick in
      let created = issue_time request.created_at (env.clock w.tick) in
      let (token, encrypted, decrypted) =
        decrypt-encrypt_payload env app secret ttl service crypto made (env.urandom (after w).tick)
          iv_IsBytes length_iv (dump_request request created) json in
      (
        token,
        ap (λ r. (r, after (after w))) encrypted,
        λ later.
            verify_token-eq-verdict env service token later
            ∙ ap (λ r. verdict env service r later)
                (read_token_dumped service token request created json decrypted),
      )
