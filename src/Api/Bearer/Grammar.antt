-- ===== src/Api/Bearer/Grammar.antt =====
-- Which headers `_extract_bearer_token` accepts.
use python_typescript_wiki_b.Base.{
  ℕ, ◌≡◌, ◌≢◌, refl, sym, ap, ◌∙◌, subst, ◌↔◌, ◌⊎◌, inl, inr, Bool, true, false, none, some, [],
  ◌∷◌, ◌++◌, arith, if◌then◌else◌, eq_of_same, same_iff,
}
use python_typescript_wiki_b.Text.{
  Str, codes, strip, lstrip, rstrip, partition, lower, lower_char, is_empty, is_space,
}
use python_typescript_wiki_b.Text.Laws.{
  Without, partition-Without, partition-join, partition-append,
}
use python_typescript_wiki_b.Errors.{Exc, Result, ok, raised}
use python_typescript_wiki_b.Api.Bearer.{
  no_session, bad_request, split_header, extract_bearer_token,
}

-- `bearer` in any case, a space, and the token with spaces around it.
pub record IsBearer (header token : Str) : Type 0 where
  pub scheme : Str
  pub credentials : Str
  pub joined : header ≡ scheme ++ b' ' ∷ credentials
  pub one_word : Without b' ' scheme
  pub is_bearer : lower scheme ≡ codes "bearer"
  pub stripped : strip credentials ≡ token
  pub not_empty : is_empty token ≡ false

split_header_sound :
    (scheme credentials token : Str)
    → split_header (scheme, credentials) ≡ ok token
    → (lower scheme ≡ codes "bearer") × (strip credentials ≡ token) × (is_empty token ≡ false)
unfolding split_header
split_header_sound scheme credentials token h =
    (eq_of_same (lower scheme) (codes "bearer") (ground arith), ground arith, ground arith)

strip_visible : (c : ℕ) (s : Str) → is_space c ≡ false → is_empty (strip (c ∷ s)) ≡ false
unfolding strip lstrip rstrip
strip_visible c s h = ground (arith, h)

b_visible : (c : ℕ) → lower_char c ≡ b'b' → is_space c ≡ false
unfolding lower_char is_space
b_visible c h = ground arith

header_visible :
    (scheme credentials : Str)
    → lower scheme ≡ codes "bearer"
    → is_empty (strip (scheme ++ b' ' ∷ credentials)) ≡ false
unfolding lower
header_visible [] credentials h = absurd (cc)
header_visible (c ∷ scheme) credentials h =
    strip_visible c (scheme ++ b' ' ∷ credentials) (b_visible c (cc))

split_header_complete :
    (scheme credentials token : Str)
    → lower scheme ≡ codes "bearer"
    → strip credentials ≡ token
    → is_empty token ≡ false
    → split_header (scheme, credentials) ≡ ok token
unfolding split_header
split_header_complete scheme credentials token is_bearer stripped not_empty =
    ground (arith, same_iff (lower scheme) (codes "bearer"), is_bearer, stripped, not_empty)

split_header-refusal :
    (parts : Str × Str) {e : Exc} → split_header parts ≡ raised e → e ≡ bad_request
unfolding split_header
split_header-refusal (scheme, credentials) h = ground arith

guard-ok :
    (b : Bool) (r : Result Str) {token : Str}
    → (if b then raised no_session else r) ≡ ok token
    → r ≡ ok token
guard-ok true r h = absurd (cc)
guard-ok false r h = h

guard-raised :
    (b : Bool) (r : Result Str) {e : Exc}
    → (r ≡ raised e → e ≡ bad_request)
    → (if b then raised no_session else r) ≡ raised e
    → ((b ≡ true) × (e ≡ no_session)) ⊎ ((b ≡ false) × (e ≡ bad_request))
guard-raised true r k h = inl (refl, cc)
guard-raised false r k h = inr (refl, k h)

no_empty_credentials :
    (credentials token : Str)
    → strip credentials ≡ token
    → is_empty token ≡ false
    → credentials ≢ []
unfolding strip lstrip rstrip
no_empty_credentials [] token stripped not_empty e = ground (arith, stripped, not_empty)
no_empty_credentials (c ∷ s) token stripped not_empty e = cc

extract_bearer_token_sound :
    (header token : Str) → extract_bearer_token (some header) ≡ ok token → IsBearer header token
unfolding extract_bearer_token
extract_bearer_token_sound header token h =
    let (scheme, credentials) = partition b' ' header in
    let (is_bearer, stripped, not_empty) =
      split_header_sound scheme credentials token (guard-ok (is_empty (strip header)) _ h) in
    record {
      scheme = scheme;
      credentials = credentials;
      joined =
          sym (
            partition-join b' ' header (no_empty_credentials credentials token stripped not_empty));
      one_word = partition-Without b' ' header;
      is_bearer = is_bearer;
      stripped = stripped;
      not_empty = not_empty;
    }

extract_bearer_token_complete :
    (header token : Str) → IsBearer header token → extract_bearer_token (some header) ≡ ok token
unfolding extract_bearer_token
extract_bearer_token_complete header token b =
    subst (λ h. extract_bearer_token (some h) ≡ ok token) (sym b.joined)
      (ap
          (λ x.
            if x
            then raised no_session
            else split_header (partition b' ' (b.scheme ++ b' ' ∷ b.credentials)))
          (header_visible b.scheme b.credentials b.is_bearer)
        ∙ ap split_header (partition-append b' ' b.scheme b.credentials b.one_word)
        ∙ split_header_complete b.scheme b.credentials token b.is_bearer b.stripped b.not_empty)

-- The extraction gives a token exactly for the headers of the form `bearer` (in any case), a space,
-- and credentials that are the token, not empty, with spaces around it. Otherwise it raises
-- SESSION_MISSING without a header or for a blank one, and VALIDATION_ERROR for any other.
pub extract_bearer_token_lem :
    (header token : Str)
    → ((extract_bearer_token (some header) ≡ ok token) ↔ IsBearer header token)
      × (extract_bearer_token none ≡ raised no_session)
      × ((e : Exc)
          → extract_bearer_token (some header) ≡ raised e
          → ((is_empty (strip header) ≡ true) × (e ≡ no_session))
            ⊎ ((is_empty (strip header) ≡ false) × (e ≡ bad_request)))
unfolding extract_bearer_token
extract_bearer_token_lem header token = (
  (extract_bearer_token_sound header token, extract_bearer_token_complete header token),
  refl,
  λ e. guard-raised (is_empty (strip header)) _ (split_header-refusal (partition b' ' header)),
)
