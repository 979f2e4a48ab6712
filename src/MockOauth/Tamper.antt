-- ===== src/MockOauth/Tamper.antt =====
-- The service refuses what `_tamper_hmac` of mock_oauth/app.py makes of an authentic token.
use python_typescript_wiki_b.Base.{
  ℕ, zero, suc, ◌<◌, ◌≡◌, refl, ap, ◌∙◌, true, false, [], ◌∷◌, arith, length, take, drop, leb, same,
  length-drop,
}
use python_typescript_wiki_b.Text.{Bytes}
use python_typescript_wiki_b.Errors.{raised}
use python_typescript_wiki_b.Outside.{Env}
use python_typescript_wiki_b.App.{World}
use python_typescript_wiki_b.Codec.Base64.{b64encode}
use python_typescript_wiki_b.Codec.Base64.RoundTrip.{
  IsBytes, b64decode-b64encode, decode_token-b64encode,
}
use python_typescript_wiki_b.Codec.Pkcs7.{oauth_invalid}
use python_typescript_wiki_b.Token.{TokenService, check_code, decrypt, read_token, verify_token}
use python_typescript_wiki_b.Token.Laws.{IsAuthentic, verdict, verify_token-eq-verdict}
use python_typescript_wiki_b.MockOauth.{flip_at, tamper_hmac}

length-flip_at : (n : ℕ) (bs : Bytes) → length (flip_at n bs) ≡ length bs
length-flip_at n [] = refl
length-flip_at zero (b ∷ bs) = refl
length-flip_at (suc n) (b ∷ bs) = ap suc (length-flip_at n bs)

take-flip_at : (n : ℕ) (bs : Bytes) → take n (flip_at n bs) ≡ take n bs
take-flip_at zero [] = refl
take-flip_at zero (b ∷ bs) = refl
take-flip_at (suc n) [] = refl
take-flip_at (suc n) (b ∷ bs) = ap (λ l. b ∷ l) (take-flip_at n bs)

drop-flip_at : (n : ℕ) (bs : Bytes) → drop n (flip_at n bs) ≡ flip_at 0 (drop n bs)
drop-flip_at zero bs = refl
drop-flip_at (suc n) [] = refl
drop-flip_at (suc n) (b ∷ bs) = drop-flip_at n bs

drop-flip_at_past : (n k : ℕ) (bs : Bytes) → n < k → drop k (flip_at n bs) ≡ drop k bs
drop-flip_at_past n zero bs h = absurd (omega arith)
drop-flip_at_past n (suc k) [] h = refl
drop-flip_at_past zero (suc k) (b ∷ bs) h = refl
drop-flip_at_past (suc n) (suc k) (b ∷ bs) h = drop-flip_at_past n k bs (omega arith)

flip_at-IsBytes : (n : ℕ) (bs : Bytes) → IsBytes bs → IsBytes (flip_at n bs)
flip_at-IsBytes n [] h = tt
flip_at-IsBytes zero (b ∷ bs) h = (omega arith, h.1)
flip_at-IsBytes (suc n) (b ∷ bs) h = (h.0, flip_at-IsBytes n bs h.1)

-- A code whose first byte is flipped is another code.
same-flip : (xs : Bytes) → 0 < length xs → same (take 32 xs) (take 32 (flip_at 0 xs)) ≡ false
unfolding same
same-flip [] h = absurd (omega arith)
same-flip (x ∷ xs) h = ground arith

module _ (env : Env) (service : TokenService) where
  check_code-flip_at :
      (raw : Bytes)
      → IsAuthentic env service raw
      → check_code env service (flip_at 16 raw) ≡ raised oauth_invalid
  unfolding check_code
  check_code-flip_at raw a =
      let long : leb (length (flip_at 16 raw)) 48 ≡ false =
        ground (arith, a.long, length-flip_at 16 raw) in
      rw
        (
          long,
          take-flip_at 16 raw,
          drop-flip_at 16 raw,
          drop-flip_at_past 16 48 raw (omega arith),
          a.code,
          same-flip (drop 16 raw) (omega (arith, a.long, length-drop 16 raw)),
        )
        refl

  -- For the Base64 of bytes that are authentic for the service, the service refuses what
  -- `_tamper_hmac` makes of it with OAUTH_CODE_INVALID, at every moment.
  pub verify_token-tamper_hmac :
      (raw : Bytes)
      → IsBytes raw
      → IsAuthentic env service raw
      → (w : World)
      → verify_token env service (tamper_hmac (b64encode raw)) w ≡ (raised oauth_invalid, w)
  unfolding read_token decrypt tamper_hmac
  verify_token-tamper_hmac raw bytes a w =
      let short : leb (length raw) 48 ≡ false = ground (arith, a.long) in
      verify_token-eq-verdict env service (tamper_hmac (b64encode raw)) w
      ∙ ap (λ r. verdict env service r w) {y = raised oauth_invalid}
          (rw
            (
              b64decode-b64encode true raw bytes,
              short,
              decode_token-b64encode (flip_at 16 raw) (flip_at-IsBytes 16 raw bytes),
              check_code-flip_at raw a,
            )
            refl)
