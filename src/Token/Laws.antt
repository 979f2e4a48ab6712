-- ===== src/Token/Laws.antt =====
-- What a verified token has passed, and how a refused one is refused.
use python_typescript_wiki_b.Base.{
  ℕ, ◌<◌, ◌≡◌, refl, sym, ap, ◌∙◌, subst, ◌⊎◌, inl, inr, Option, none, some, ◌++◌, arith,
  eq_of_same, length, take, drop,
}
use python_typescript_wiki_b.Base.Int.{◌-ℤ◌, ◌≤ℤ◌}
use python_typescript_wiki_b.Text.{Str, Bytes}
use python_typescript_wiki_b.Errors.{
  Exc, app_error, value_error, runtime_error, Result, ok, raised, or_else, ◌>>=◌, >>=-eq-ok,
}
use python_typescript_wiki_b.Json.{Json, obj, Fields}
use python_typescript_wiki_b.Outside.{Env, JsonLib}
use python_typescript_wiki_b.App
use python_typescript_wiki_b.App.{World, after, lift, observe}
use python_typescript_wiki_b.Codec.Base64.{decode_token}
use python_typescript_wiki_b.Codec.Pkcs7.{oauth_invalid, pkcs7_unpad}
use python_typescript_wiki_b.Codec.Utf8.{utf8_decode}
use python_typescript_wiki_b.Token.{
  TokenPayload, TokenService, parse_payload, or_invalid, app_or_invalid, dict_of, open_payload,
  check_code, decrypt, read_token, unix_seconds, check_age, verify_token,
}

-- The exceptions that leave `_decrypt`: its own, or one that is no `AppError`.
abbrev IsTokenExc : Exc → Type 0
IsTokenExc e = (e ≡ oauth_invalid) ⊎ ((e ≡ value_error) ⊎ (e ≡ runtime_error))

abbrev Refuses : {A : Type 0} → Result A → Type 0
Refuses (ok a) = Unit
Refuses (raised e) = IsTokenExc e

Refuses-bind :
    {A B : Type 0} (r : Result A) (f : A → Result B)
    → Refuses r
    → ((a : A) → Refuses (f a))
    → Refuses (r >>= f)
Refuses-bind (ok a) f h k = k a
Refuses-bind (raised e) f h k = h

Refuses-or_invalid : {A : Type 0} (r : Result A) → Refuses (or_invalid r)
Refuses-or_invalid (ok a) = tt
Refuses-or_invalid (raised e) = inl refl

Refuses-or_else_oauth : {A : Type 0} (o : Option A) → Refuses (or_else oauth_invalid o)
Refuses-or_else_oauth none = inl refl
Refuses-or_else_oauth (some a) = tt

Refuses-or_else_value : {A : Type 0} (o : Option A) → Refuses (or_else value_error o)
Refuses-or_else_value none = inr (inl refl)
Refuses-or_else_value (some a) = tt

Refuses-parse_payload : (json : JsonLib) (text : Str) → Refuses (parse_payload json text)
unfolding parse_payload
Refuses-parse_payload json text = ground arith

Refuses-dict_of : (v : Json) → Refuses (dict_of v)
Refuses-dict_of (obj d) = tt
Refuses-dict_of v = inl refl

ruleset refusals = (
  Refuses-bind, Refuses-or_invalid, Refuses-or_else_oauth, Refuses-or_else_value,
  Refuses-parse_payload, Refuses-dict_of,
)

app_or_invalid-eq-ok : {A : Type 0} (r : Result A) {a : A} → app_or_invalid r ≡ ok a → r ≡ ok a
app_or_invalid-eq-ok (ok a) h = h
app_or_invalid-eq-ok (raised (app_error s c)) h = cc
app_or_invalid-eq-ok (raised e) h = cc

module _ (env : Env) (service : TokenService) where
  Refuses-open_payload : (iv ciphertext : Bytes) → Refuses (open_payload env service iv ciphertext)
  unfolding open_payload
  Refuses-open_payload iv ciphertext =
      Refuses-bind (or_else value_error (env.crypto.aes_cbc_decrypt service.key iv ciphertext)) _
        (Refuses-or_else_value _)
        λ padded.
          Refuses-bind (or_invalid (pkcs7_unpad padded)) _ (Refuses-or_invalid _) λ plaintext.
            Refuses-bind (or_else oauth_invalid (utf8_decode plaintext)) _ (Refuses-or_else_oauth _)
              λ text.
                Refuses-bind (parse_payload env.json text) dict_of
                  (Refuses-parse_payload env.json text) Refuses-dict_of

  Refuses-check_code : (raw : Bytes) → Refuses (check_code env service raw)
  unfolding check_code
  Refuses-check_code raw = ground (arith, Refuses-open_payload (take 16 raw) (drop 48 raw))

  Refuses-decrypt : (token : Str) → Refuses (decrypt env service token)
  unfolding decrypt
  Refuses-decrypt token =
      Refuses-bind (or_invalid (decode_token token)) _ (Refuses-or_invalid _) Refuses-check_code

  refusal_is_invalid :
      {A : Type 0} (r : Result A) {e : Exc}
      → Refuses r
      → app_or_invalid r ≡ raised e
      → e ≡ oauth_invalid
  refusal_is_invalid (ok a) h p = cc
  refusal_is_invalid (raised (app_error s c)) h p = ground arith
  refusal_is_invalid (raised e') h p = ground arith

  read_token_refusal :
      (token : Str) {e : Exc} → read_token env service token ≡ raised e → e ≡ oauth_invalid
  unfolding read_token
  read_token_refusal token h =
      refusal_is_invalid _
        (Refuses-bind (decrypt env service token) _ (Refuses-decrypt token)
          λ d. Refuses-or_else_oauth _)
        h

  check_age_refusal :
      (p : TokenPayload) (moment : ℕ) {e : Exc}
      → check_age env service p moment ≡ raised e
      → e ≡ oauth_invalid
  unfolding check_age
  check_age_refusal p moment h = ground arith

  -- A payload that is not too old passes unchanged.
  check_age_sound :
      (p q : TokenPayload) (moment : ℕ)
      → check_age env service p moment ≡ ok q
      → (p ≡ q) × (unix_seconds moment -ℤ p.created_at ≤ℤ service.ttl_seconds)
  unfolding check_age
  check_age_sound p q moment h = (ground arith, ground arith)

  -- The two ways through `verify_token`: refused before the clock is read, or judged by it.
  abbrev pub verdict : Result TokenPayload → World → Result TokenPayload × World
  verdict (raised e) w = (raised e, w)
  verdict (ok p) w = (check_age env service p (env.clock w.tick), after w)

  pub verify_token-eq-verdict :
      (token : Str) (w : World)
      → verify_token env service token w ≡ verdict (read_token env service token) w
  unfolding verify_token App.◌>>=◌ lift observe
  verify_token-eq-verdict token w = go (read_token env service token)
    where
      go :
          (r : Result TokenPayload)
          → (App.◌>>=◌
                (lift r)
                λ p. App.◌>>=◌ (observe env.clock) λ m. lift (check_age env service p m))
              w
            ≡ verdict r w
      go (ok p) = refl
      go (raised e) = refl

  verdict_refusal :
      (r : Result TokenPayload) (w : World) {e : Exc}
      → ((e' : Exc) → r ≡ raised e' → e' ≡ oauth_invalid)
      → (verdict r w).0 ≡ raised e
      → (e ≡ oauth_invalid) × ((verdict r w).1.db ≡ w.db)
  verdict_refusal (ok p) w h q = (check_age_refusal p (env.clock w.tick) q, refl)
  verdict_refusal (raised e') w h q = (h _ q, refl)

  -- Whatever the token, a refusal is `AppError(401, OAUTH_CODE_INVALID)`, and the tables are
  -- untouched.
  pub verify_token_refusal :
      (token : Str) (w : World) {e : Exc}
      → (verify_token env service token w).0 ≡ raised e
      → (e ≡ oauth_invalid) × ((verify_token env service token w).1.db ≡ w.db)
  verify_token_refusal token w h = rw (verify_token-eq-verdict token w) (
      verdict_refusal (read_token env service token) w (λ e' q. read_token_refusal token q)
        (rw (verify_token-eq-verdict token w) at h))

  -- The bytes behind a token are an iv, a code and a ciphertext, and the code is that of the rest.
  pub record IsAuthentic (raw : Bytes) : Type 0 where
    pub long : 48 < length raw
    pub code :
        env.crypto.hmac_sha256 service.key (drop 48 raw ++ take 16 raw) ≡ take 32 (drop 16 raw)

  pub check_code_sound :
      (raw : Bytes) {d : Fields} → check_code env service raw ≡ ok d → IsAuthentic raw
  unfolding check_code
  check_code_sound raw h = record { long = ground arith; code = eq_of_same _ _ (ground arith) }

  decrypt_sound :
      (r : Result Bytes) {d : Fields}
      → (or_invalid r >>= check_code env service) ≡ ok d
      → (raw : Bytes) × (r ≡ ok raw) × IsAuthentic raw
  decrypt_sound (ok raw) h = (raw, refl, check_code_sound raw h)
  decrypt_sound (raised e) h = cc

  read_token_sound :
      (token : Str) {p : TokenPayload}
      → read_token env service token ≡ ok p
      → (raw : Bytes) × (decode_token token ≡ ok raw) × IsAuthentic raw
  unfolding read_token decrypt
  read_token_sound token h =
      let (d, opened, _) = >>=-eq-ok (decrypt env service token) _ (app_or_invalid-eq-ok _ h) in
      decrypt_sound (decode_token token) opened

  verdict_sound :
      (r : Result TokenPayload) (w w' : World) {p : TokenPayload}
      → verdict r w ≡ (ok p, w')
      → (r ≡ ok p)
        × (unix_seconds (env.clock w.tick) -ℤ p.created_at ≤ℤ service.ttl_seconds)
        × (w' ≡ after w)
  verdict_sound (ok q) w w' {p} h =
      let (same', young) = check_age_sound q p (env.clock w.tick) (ap (λ x. x.0) h) in
      (
        ap ok same',
        subst (λ x. unix_seconds (env.clock w.tick) -ℤ x.created_at ≤ℤ service.ttl_seconds) same'
            young,
        sym (ap (λ x. x.1) h),
      )
  verdict_sound (raised e) w w' h = cc

  -- A token that is accepted decodes to an iv, a code and a ciphertext whose code is the keyed hash
  -- of ciphertext and iv, and its age at the clock's reading is at most the TTL. The call reads the
  -- clock once and leaves the tables alone.
  pub verify_token_sound :
      (token : Str) (w w' : World) {p : TokenPayload}
      → verify_token env service token w ≡ (ok p, w')
      → (raw : Bytes) × (decode_token token ≡ ok raw)
        × IsAuthentic raw
        × (unix_seconds (env.clock w.tick) -ℤ p.created_at ≤ℤ service.ttl_seconds)
        × (w' ≡ after w)
  verify_token_sound token w w' h =
      let (read, young, moved) =
        verdict_sound (read_token env service token) w w'
          (sym (verify_token-eq-verdict token w) ∙ h) in
      let (raw, decoded, authentic) = read_token_sound token read in
      (raw, decoded, authentic, young, moved)
