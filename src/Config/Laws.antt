-- ===== src/Config/Laws.antt =====
-- Which environments app/core/config.py accepts, and with which settings.
use python_typescript_wiki_b.Base.{
  ℕ, ◌≡◌, ◌≢◌, refl, sym, ap, ◌∙◌, subst, ◌↔◌, Bool-cases, true, false, Option, inl, inr, none,
  some, List, [], ◌∷◌, ◌++◌, map, arith, ◌==◌, ==_iff, All,
}
use python_typescript_wiki_b.Base.Int.{ℤ}
use python_typescript_wiki_b.Text.{Str, codes, strip, split, grow, is_empty}
use python_typescript_wiki_b.Text.Laws.{Without}
use python_typescript_wiki_b.Errors.{runtime_error, ok, or_else, >>=-eq-ok, ok-injective}
use python_typescript_wiki_b.Config.{
  Settings, Variables, present, env_required, env_int_required, parse_int, or_star, read_origins,
  get_settings,
}

-- The texts joined by a separator.
abbrev pub join : ℕ → List Str → Str
join sep [] = []
join sep (part ∷ []) = part
join sep (part ∷ next ∷ parts) = part ++ sep ∷ join sep (next ∷ parts)

or_else_sound : {A : Type 0} (o : Option A) {a : A} → or_else runtime_error o ≡ ok a → o ≡ some a
or_else_sound none h = absurd (cc)
or_else_sound (some a) h = cc

-- Splitting at a separator is the only way to take the text apart there.
join-grow : (sep c : ℕ) (parts : List Str) → join sep (grow c parts) ≡ c ∷ join sep parts
join-grow sep c [] = refl
join-grow sep c (p ∷ []) = refl
join-grow sep c (p ∷ q ∷ parts) = refl

grow_not_empty : (c : ℕ) (parts : List Str) → (p : Str) × (ps : List Str) × (grow c parts ≡ p ∷ ps)
grow_not_empty c [] = (c ∷ [], [], refl)
grow_not_empty c (p ∷ parts) = (c ∷ p, parts, refl)

split_not_empty : (sep : ℕ) (s : Str) → (p : Str) × (ps : List Str) × (split sep s ≡ p ∷ ps)
unfolding split
split_not_empty sep [] = ([], [], refl)
split_not_empty sep (c ∷ s) = elim (Bool-cases (c == sep)) [
  | inl e ↦ rw e ([], split sep s, refl)
  | inr e ↦ rw e (grow_not_empty c (split sep s))
]

join-split : (sep : ℕ) (s : Str) → join sep (split sep s) ≡ s
unfolding split
join-split sep [] = refl
join-split sep (c ∷ s) = elim (Bool-cases (c == sep)) [
  | inl e ↦
      let (p, ps, q) = split_not_empty sep s in
      let inner : join sep ([] ∷ split sep s) ≡ sep ∷ s =
        ap (λ l. join sep ([] ∷ l)) q
        ∙ ap (λ t. sep ∷ t) (ap (join sep) (sym q) ∙ join-split sep s) in
      let at_sep : sep ≡ c = sym ((==_iff c sep).0 e) in rw e (inner ∙ ap (λ x. x ∷ s) at_sep)
  | inr e ↦ rw e (join-grow sep c (split sep s) ∙ ap (λ t. c ∷ t) (join-split sep s))
]

grow-Without :
    (sep c : ℕ) (parts : List Str)
    → c ≢ sep
    → All (Without sep) parts
    → All (Without sep) (grow c parts)
grow-Without sep c [] ne h = ((ne, tt), tt)
grow-Without sep c (p ∷ parts) ne (h, hs) = ((ne, h), hs)

split-Without : (sep : ℕ) (s : Str) → All (Without sep) (split sep s)
unfolding split
split-Without sep [] = (tt, tt)
split-Without sep (c ∷ s) = elim (Bool-cases (c == sep)) [
  | inl e ↦ rw e (tt, split-Without sep s)
  | inr e ↦ rw e (grow-Without sep c (split sep s) (ground arith) (split-Without sep s))
]

join-cons :
    (sep c : ℕ) (p : Str) (parts : List Str) → join sep ((c ∷ p) ∷ parts) ≡ c ∷ join sep (p ∷ parts)
join-cons sep c p [] = refl
join-cons sep c p (q ∷ parts) = refl

split-join :
    (sep : ℕ) (parts : List Str) (p : Str)
    → All (Without sep) (p ∷ parts)
    → split sep (join sep (p ∷ parts)) ≡ p ∷ parts
unfolding split
split-join sep [] [] h = refl
split-join sep (q ∷ parts) [] h =
    let here : (sep == sep) ≡ true = ground arith in
    rw here (ap (λ l. [] ∷ l) (split-join sep parts q h.1))
split-join sep parts (c ∷ p) ((ne, h), hs) =
    let off : (c == sep) ≡ false = ground (arith, ne) in
    ap (split sep) (join-cons sep c p parts) ∙ rw off (ap (grow c) (split-join sep parts p (h, hs)))

split-join_any :
    (sep : ℕ) (parts : List Str)
    → All (Without sep) parts
    → parts ≢ []
    → split sep (join sep parts) ≡ parts
split-join_any sep [] h ne = absurd (ne refl)
split-join_any sep (p ∷ parts) h ne = split-join sep parts p h

cons_not_empty : {p : Str} {ps : List Str} → p ∷ ps ≢ []
cons_not_empty h = cc

module _ (decimal : ℕ → Option ℕ) (variables : Variables) where
  -- A variable that is set, to more than spaces.
  pub record IsVariable (name value : Str) : Type 0 where
    pub raw : Str
    pub there : variables name ≡ some raw
    pub stripped : strip raw ≡ value
    pub not_blank : is_empty value ≡ false

  pub record IsInteger (name : Str) (value : ℤ) : Type 0 where
    pub text : Str
    pub set : IsVariable name text
    pub parsed : parse_int decimal text ≡ some value

  -- The settings that the environment stands for.
  pub record IsConfigured (s : Settings) : Type 0 where
    pub application_id : IsVariable (codes "OAUTH_NAME_APPLICATION_ID") s.oauth_name_application_id
    pub secret_key : IsVariable (codes "OAUTH_NAME_SECRET_KEY") s.oauth_name_secret_key
    pub token_ttl : IsInteger (codes "TOKEN_TTL_SECONDS") s.token_ttl_seconds
    pub session_ttl : IsInteger (codes "SESSION_TTL_SECONDS") s.session_ttl_seconds
    pub parts : List Str
    pub joined : join b',' parts ≡ or_star (variables (codes "CORS_ORIGINS"))
    pub whole : All (Without b',') parts
    pub some_part : parts ≢ []
    pub origins : s.cors_origins ≡ map strip parts

  present_sound :
      (o : Option Str) {value : Str}
      → present o ≡ ok value
      → (raw : Str) × (o ≡ some raw) × (strip raw ≡ value) × (is_empty value ≡ false)
  present_sound none h = absurd (cc)
  present_sound (some raw) h = (raw, refl, ground arith, ground arith)

  env_required_sound :
      (name : Str) {value : Str} → env_required variables name ≡ ok value → IsVariable name value
  unfolding env_required
  env_required_sound name h =
      let (raw, there, stripped, not_blank) = present_sound (variables name) h in
      record { raw = raw; there = there; stripped = stripped; not_blank = not_blank }

  env_required_complete :
      (name value : Str) → IsVariable name value → env_required variables name ≡ ok value
  unfolding env_required
  env_required_complete name value s = rw (s.there, s.stripped, s.not_blank) refl

  env_int_required_sound :
      (name : Str) {value : ℤ}
      → env_int_required decimal variables name ≡ ok value
      → IsInteger name value
  unfolding env_int_required
  env_int_required_sound name h =
      let (text, found, parsed) = >>=-eq-ok (env_required variables name) _ h in
      record {
        text = text;
        set = env_required_sound name found;
        parsed = or_else_sound (parse_int decimal text) parsed;
      }

  env_int_required_complete :
      (name : Str) (value : ℤ)
      → IsInteger name value
      → env_int_required decimal variables name ≡ ok value
  unfolding env_int_required
  env_int_required_complete name value i =
      rw (env_required_complete name i.text i.set, i.parsed) refl

  configured : (s : Settings) → get_settings decimal variables ≡ ok s → IsConfigured s
  unfolding get_settings read_origins
  configured s h =
      let (application_id, a, h1) =
        >>=-eq-ok (env_required variables (codes "OAUTH_NAME_APPLICATION_ID")) _ h in
      let (secret_key, b, h2) =
        >>=-eq-ok (env_required variables (codes "OAUTH_NAME_SECRET_KEY")) _ h1 in
      let (token_ttl, c, h3) =
        >>=-eq-ok (env_int_required decimal variables (codes "TOKEN_TTL_SECONDS")) _ h2 in
      let (session_ttl, d, h4) =
        >>=-eq-ok (env_int_required decimal variables (codes "SESSION_TTL_SECONDS")) _ h3 in
      let value = or_star (variables (codes "CORS_ORIGINS")) in
      subst IsConfigured (ok-injective h4) (record {
        application_id = env_required_sound (codes "OAUTH_NAME_APPLICATION_ID") a;
        secret_key = env_required_sound (codes "OAUTH_NAME_SECRET_KEY") b;
        token_ttl = env_int_required_sound (codes "TOKEN_TTL_SECONDS") c;
        session_ttl = env_int_required_sound (codes "SESSION_TTL_SECONDS") d;
        parts = split b',' value;
        joined = join-split b',' value;
        whole = split-Without b',' value;
        some_part = λ e. let (p, ps, q) = split_not_empty b',' value in cons_not_empty (sym q ∙ e);
        origins = refl;
      })

  accepted : (s : Settings) → IsConfigured s → get_settings decimal variables ≡ ok s
  unfolding get_settings read_origins
  accepted s i =
      rw
        (
          env_required_complete (codes "OAUTH_NAME_APPLICATION_ID") s.oauth_name_application_id
              i.application_id,
          env_required_complete (codes "OAUTH_NAME_SECRET_KEY") s.oauth_name_secret_key
              i.secret_key,
          env_int_required_complete (codes "TOKEN_TTL_SECONDS") s.token_ttl_seconds i.token_ttl,
          env_int_required_complete (codes "SESSION_TTL_SECONDS") s.session_ttl_seconds
              i.session_ttl,
        )
        (ap (λ l. ok (record s { cors_origins = l }))
          (ap (λ t. map strip (split b',' t)) (sym i.joined)
            ∙ ap (map strip) (split-join_any b',' i.parts i.whole i.some_part)
            ∙ sym i.origins))

  -- `get_settings` returns exactly the settings of an environment that is configured: the four required
  -- variables are set to more than spaces, the two TTLs are integers, and the origins are the parts of
  -- CORS_ORIGINS (`*` if it is not set) between commas, each without the spaces around it.
  pub get_settings_lem : (s : Settings) → (get_settings decimal variables ≡ ok s) ↔ IsConfigured s
  get_settings_lem s = (configured s, accepted s)
