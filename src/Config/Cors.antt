-- ===== src/Config/Cors.antt =====
-- app/main.py: when the middleware for other origins allows credentials.
use python_typescript_wiki_b.Base.{
  ℕ, ◌≡◌, ◌≢◌, refl, sym, ap, ◌↔◌, Bool-cases, true, not, Option, inl, inr, List, [], ◌∷◌, map,
  same, same_iff, All, arith,
}
use python_typescript_wiki_b.Text.{Str, codes, strip, split}
use python_typescript_wiki_b.Errors.{ok, >>=-eq-ok, ok-injective}
use python_typescript_wiki_b.Config.{
  Settings, Variables, env_required, env_int_required, or_star, read_origins, get_settings,
  allow_all_origins, cors_options,
}

-- No origin is `*`, whatever was done to the parts to make origins of them.
allow_all_origins-map :
    (f : Str → Str) (parts : List Str)
    → (not (allow_all_origins (map f parts)) ≡ true) ↔ All (λ part. f part ≢ codes "*") parts
unfolding allow_all_origins
allow_all_origins-map f [] = (λ h. tt, λ h. refl)
allow_all_origins-map f (part ∷ parts) =
    let (sound, complete) = allow_all_origins-map f parts in
    elim (Bool-cases (same (f part) (codes "*"))) [
      | inl e ↦
          (λ h. absurd (ground arith), λ h. absurd (h.0 ((same_iff (f part) (codes "*")).0 e)))
      | inr e ↦ (
        λ h. (λ q. ground (arith, e, (same_iff (f part) (codes "*")).1 q), sound (rw e at h)),
        λ h. rw e (complete h.1),
      )
    ]

module _ (decimal : ℕ → Option ℕ) (variables : Variables) where
  origins-get_settings :
      (s : Settings)
      → get_settings decimal variables ≡ ok s
      → s.cors_origins ≡ read_origins variables
  unfolding get_settings
  origins-get_settings s h =
      let (_, _, h1) = >>=-eq-ok (env_required variables (codes "OAUTH_NAME_APPLICATION_ID")) _ h in
      let (_, _, h2) = >>=-eq-ok (env_required variables (codes "OAUTH_NAME_SECRET_KEY")) _ h1 in
      let (_, _, h3) =
        >>=-eq-ok (env_int_required decimal variables (codes "TOKEN_TTL_SECONDS")) _ h2 in
      let (_, _, h4) =
        >>=-eq-ok (env_int_required decimal variables (codes "SESSION_TTL_SECONDS")) _ h3 in
      ap (λ x. x.cors_origins) (sym (ok-injective h4))

  -- With the settings that `get_settings` returns, the middleware allows credentials exactly when no
  -- part of CORS_ORIGINS between commas is `*` between spaces; a variable that is not set is one `*`.
  pub cors_options-get_settings :
      (s : Settings)
      → get_settings decimal variables ≡ ok s
      → ((cors_options s).allow_credentials ≡ true)
        ↔ All
            (λ part. strip part ≢ codes "*")
            (split b',' (or_star (variables (codes "CORS_ORIGINS"))))
  unfolding cors_options read_origins
  cors_options-get_settings s h =
      rw (origins-get_settings s h)
        (allow_all_origins-map strip (split b',' (or_star (variables (codes "CORS_ORIGINS")))))
