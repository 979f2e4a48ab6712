-- ===== src/Repositories/Like/Infix.antt =====
-- When `ILIKE '%query%'` is a search for the query inside of the text.
use python_typescript_wiki_b.Base.{
  ℕ, ◌≡◌, ◌≢◌, refl, ap, ◌↔◌, Bool-cases, inl, inr, true, List, [], ◌∷◌, ◌++◌, map, arith, All,
}
use mathlib.Core.Path.{ap₂}
use python_typescript_wiki_b.Text.{Str}
use python_typescript_wiki_b.Repositories.Like.{
  Item, any_text, exactly, backslash, items, matches, ilike,
}

-- A character that stands for itself in a pattern.
abbrev pub IsPlain : ℕ → Type 0
IsPlain c = (c ≢ b'%') × (c ≢ b'_') × (c ≢ backslash)

-- The text has a part that equals the query, character by character under `fold`.
abbrev pub Contains : (ℕ → ℕ) → Str → Str → Type 0
Contains fold query s =
    (before part behind : Str) × (s ≡ before ++ (part ++ behind)) × (map fold part ≡ map fold query)

abbrev pub StartsWith : (ℕ → ℕ) → Str → Str → Type 0
StartsWith fold query s =
    (part : Str) × (behind : Str) × (s ≡ part ++ behind) × (map fold part ≡ map fold query)

abbrev literal : Str → List Item
literal [] = any_text ∷ []
literal (c ∷ q) = exactly c ∷ literal q

items-plain : (q : Str) → All IsPlain q → items (q ++ b'%' ∷ []) ≡ literal q
unfolding items
items-plain [] h = refl
items-plain (c ∷ []) h = ground arith
items-plain (c ∷ d ∷ q) h = ground (arith, items-plain (d ∷ q) h.1)

items-pattern : (q : Str) → All IsPlain q → items (b'%' ∷ (q ++ b'%' ∷ [])) ≡ any_text ∷ literal q
unfolding items
items-pattern [] h = refl
items-pattern (c ∷ q) h = ap (λ p. any_text ∷ p) (items-plain (c ∷ q) h)

module _ (fold : ℕ → ℕ) where
  rest_matches : (s : Str) → matches fold (any_text ∷ []) s ≡ true
  unfolding matches
  rest_matches [] = refl
  rest_matches (c ∷ s) = ground (arith, rest_matches s)

  literal_sound : (q s : Str) → matches fold (literal q) s ≡ true → StartsWith fold q s
  unfolding matches
  literal_sound [] s h = ([], s, refl, refl)
  literal_sound (c ∷ q) [] h = absurd (cc)
  literal_sound (c ∷ q) (d ∷ s) h =
      let (part, behind, e, m) = literal_sound q s (ground arith) in
      (d ∷ part, behind, ap (λ t. d ∷ t) e, ap₂ (λ x y. x ∷ y) (ground arith) m)

  literal_complete :
      (q part behind : Str)
      → map fold part ≡ map fold q
      → matches fold (literal q) (part ++ behind) ≡ true
  unfolding matches
  literal_complete [] [] behind m = rest_matches behind
  literal_complete [] (d ∷ part) behind m = absurd (cc)
  literal_complete (c ∷ q) [] behind m = absurd (cc)
  literal_complete (c ∷ q) (d ∷ part) behind m =
      let tail : map fold part ≡ map fold q = cc in
      let head : fold d ≡ fold c = cc in ground (arith, head, literal_complete q part behind tail)

  any_text_sound : (q s : Str) → matches fold (any_text ∷ literal q) s ≡ true → Contains fold q s
  unfolding matches
  any_text_sound q [] h =
      let (part, behind, e, m) = literal_sound q [] h in ([], part, behind, e, m)
  any_text_sound q (c ∷ s) h = elim (Bool-cases (matches fold (literal q) (c ∷ s))) [
    | inl e ↦ let (part, behind, e', m) = literal_sound q (c ∷ s) e in ([], part, behind, e', m)
    | inr e ↦
        let (before, part, behind, e', m) = any_text_sound q s (ground (arith, e)) in
        (c ∷ before, part, behind, ap (λ t. c ∷ t) e', m)
  ]

  any_text-here :
      (q t : Str) → matches fold (literal q) t ≡ true → matches fold (any_text ∷ literal q) t ≡ true
  unfolding matches
  any_text-here q [] h = h
  any_text-here q (c ∷ t) h = rw (h, matches) refl

  any_text_complete :
      (q before part behind : Str)
      → map fold part ≡ map fold q
      → matches fold (any_text ∷ literal q) (before ++ (part ++ behind)) ≡ true
  unfolding matches
  any_text_complete q [] part behind m =
      any_text-here q (part ++ behind) (literal_complete q part behind m)
  any_text_complete q (b ∷ before) part behind m =
      ground (arith, any_text_complete q before part behind m)

  -- For a query without `%`, `_` and backslash, `ILIKE '%query%'` holds exactly of the texts that
  -- contain the query, up to `fold`.
  pub ilike_iff :
      (query s : Str)
      → All IsPlain query
      → (ilike fold (b'%' ∷ (query ++ b'%' ∷ [])) s ≡ true) ↔ Contains fold query s
  unfolding ilike
  ilike_iff query s plain = rw (items-pattern query plain) (
    any_text_sound query s,
    λ (before, part, behind, e, m). rw e (any_text_complete query before part behind m),
  )
