-- ===== src/Repositories/Like.antt =====
-- `column ILIKE pattern` of PostgreSQL: `%` stands for any text, `_` for any character, and a
-- backslash takes the next character for itself. Characters are compared by `fold`.
pub mod Infix
use python_typescript_wiki_b.Base.{
  ℕ, Bool, true, false, ◌&&◌, ◌||◌, List, [], ◌∷◌, ◌==◌, if◌then◌else◌,
}
use python_typescript_wiki_b.Text.{Str}

-- One item of a pattern.
pub data Item : Type 0 where
  any_text any_char : Item
  exactly : ℕ → Item

abbrev pub backslash : ℕ
backslash = 92

-- The items of a pattern. A backslash at the end, which PostgreSQL refuses, does not occur: the
-- patterns of the application end in `%`.
unfoldable pub items : Str → List Item
items [] = []
items (c ∷ []) = (if c == b'%' then any_text else if c == b'_' then any_char else exactly c) ∷ []
items (c ∷ d ∷ s) =
    let escaped = exactly d ∷ items s in
    let rest = items (d ∷ s) in
    if c == backslash
    then escaped
    else (if c == b'%' then any_text else if c == b'_' then any_char else exactly c) ∷ rest

module _ (fold : ℕ → ℕ) where
  unfoldable pub matches : List Item → Str → Bool
  matches [] [] = true
  matches [] (c ∷ s) = false
  matches (any_text ∷ p) [] = matches p []
  matches (any_text ∷ p) (c ∷ s) = elim (matches p (c ∷ s)) [
    | true ↦ true
    | false ↦ matches (any_text ∷ p) s
  ]
  matches (any_char ∷ p) [] = false
  matches (any_char ∷ p) (c ∷ s) = matches p s
  matches (exactly d ∷ p) [] = false
  matches (exactly d ∷ p) (c ∷ s) = fold c == fold d && matches p s

  unfoldable pub ilike : Str → Str → Bool
  unfolding items matches
  ilike pattern' s = matches (items pattern') s
