-- ===== src/Base/Search.antt =====
-- Laws of the search for the first element that passes a test.
use mathlib.Core.Option
use python_typescript_wiki_b.Base.{
  ◌≡◌, refl, Bool, true, false, none, some, List, [], ◌∷◌, ◌++◌, map, arith, find?, any, All,
  Bool-cases, inl, inr,
}

module _ {ℓ} {A : Type ℓ} (p : A → Bool) where
  pub find?-append_none : (xs ys : List A) → find? p xs ≡ none → find? p (xs ++ ys) ≡ find? p ys
  unfolding find?
  find?-append_none [] ys h = refl
  find?-append_none (x ∷ xs) ys h = ground (arith, find?-append_none xs ys)

  pub find?-append_some :
      (xs ys : List A) (x : A) → find? p xs ≡ some x → find? p (xs ++ ys) ≡ some x
  unfolding find?
  find?-append_some [] ys x h = cc
  find?-append_some (y ∷ xs) ys x h = ground (arith, find?-append_some xs ys x)

  pub find?-none_of_any : (xs : List A) → any p xs ≡ false → find? p xs ≡ none
  unfolding find? any
  find?-none_of_any [] h = refl
  find?-none_of_any (x ∷ xs) h = ground (arith, find?-none_of_any xs)

  pub find?-some_of_any : (xs : List A) → any p xs ≡ true → (x : A) × (find? p xs ≡ some x)
  unfolding find? any
  find?-some_of_any [] h = absurd (cc)
  find?-some_of_any (x ∷ xs) h = elim (Bool-cases (p x)) [
    | inl e ↦ (x, rw (e, find?) refl)
    | inr e ↦ let (y, q) = find?-some_of_any xs (ground arith) in (y, rw (e, find?) q)
  ]

  pub any_of-find?-none : (xs : List A) → find? p xs ≡ none → any p xs ≡ false
  unfolding find? any
  any_of-find?-none [] h = refl
  any_of-find?-none (x ∷ xs) h = ground (arith, any_of-find?-none xs)

  pub any_of-find?-some : (xs : List A) {x : A} → find? p xs ≡ some x → any p xs ≡ true
  unfolding find? any
  any_of-find?-some [] h = absurd (cc)
  any_of-find?-some (y ∷ xs) h = elim (Bool-cases (p y)) [
    | inl e ↦ rw e refl
    | inr e ↦ rw e (any_of-find?-some xs (rw (e, find?) at h))
  ]

  pub find?-holds : (xs : List A) (x : A) → find? p xs ≡ some x → p x ≡ true
  unfolding find?
  find?-holds [] x h = cc
  find?-holds (y ∷ xs) x h = ground (arith, find?-holds xs x)

  -- No element passes where the search finds none.
  pub find?-none-All : (xs : List A) → find? p xs ≡ none → All (λ x. p x ≡ false) xs
  unfolding find?
  find?-none-All [] h = tt
  find?-none-All (x ∷ xs) h = ground (arith, find?-none-All xs)

  pub find?-none_of_All : (xs : List A) → All (λ x. p x ≡ false) xs → find? p xs ≡ none
  unfolding find?
  find?-none_of_All [] h = refl
  find?-none_of_All (x ∷ xs) h = ground (arith, find?-none_of_All xs)

  -- A change that keeps the test maps what is found.
  pub find?-map :
      (f : A → A)
      → ((x : A) → p (f x) ≡ p x)
      → (xs : List A) → find? p (map f xs) ≡ Option.map f (find? p xs)
  unfolding find?
  find?-map f keeps [] = refl
  find?-map f keeps (x ∷ xs) = ground (arith, keeps x, find?-map f keeps xs)

  pub find?-one : (x : A) → p x ≡ true → find? p (x ∷ []) ≡ some x
  unfolding find?
  find?-one x h = rw (h, find?) refl

  pub find?-append_one_ne :
      (xs : List A) (x : A) → p x ≡ false → find? p (xs ++ x ∷ []) ≡ find? p xs
  unfolding find?
  find?-append_one_ne [] x h = rw (h, find?) refl
  find?-append_one_ne (y ∷ xs) x h = ground (arith, find?-append_one_ne xs x)
