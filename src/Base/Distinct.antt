-- ===== src/Base/Distinct.antt =====
-- Lists whose elements have distinct keys.

use python_typescript_wiki_b.Base.{
  ◌≡◌, refl, sym, ◌∙◌, ◌≢◌, Bool, true, false, some, List, [], ◌∷◌, ◌++◌, map, arith, find?, any,
  All, All-append, ℕ, ◌==◌, Bool-cases, inl, inr, subst,
}

module _ {A : Type 0} where
  pub All-imp : (P Q : A → Type 0) → ((x : A) → P x → Q x) → (xs : List A) → All P xs → All Q xs
  All-imp P Q f [] h = tt
  All-imp P Q f (x ∷ xs) h = (f x h.0, All-imp P Q f xs h.1)

  pub All-map :
      (P : A → Type 0) (f : A → A)
      → ((x : A) → P x → P (f x))
      → (xs : List A) → All P xs
      → All P (map f xs)
  All-map P f k [] h = tt
  All-map P f k (x ∷ xs) h = (k x h.0, All-map P f k xs h.1)

  pub All-not_any : (p : A → Bool) (xs : List A) → any p xs ≡ false → All (λ x. p x ≡ false) xs
  unfolding any
  All-not_any p [] h = tt
  All-not_any p (x ∷ xs) h = ground (arith, All-not_any p xs)

  pub any-append : (p : A → Bool) (xs ys : List A) → any p xs ≡ true → any p (xs ++ ys) ≡ true
  unfolding any
  any-append p [] ys h = absurd (cc)
  any-append p (x ∷ xs) ys h = ground (arith, any-append p xs ys)

  pub any-append_one :
      (p : A → Bool) (xs : List A) (x : A) → p x ≡ true → any p (xs ++ x ∷ []) ≡ true
  unfolding any
  any-append_one p [] x h = ground arith
  any-append_one p (y ∷ xs) x h = ground (arith, any-append_one p xs x)

  pub any-map :
      (p : A → Bool) (f : A → A)
      → ((x : A) → p (f x) ≡ p x)
      → (xs : List A) → any p (map f xs) ≡ any p xs
  unfolding any
  any-map p f k [] = refl
  any-map p f k (x ∷ xs) = ground (arith, k x, any-map p f k xs)

module _ {A K : Type 0} (key : A → K) where
  abbrev pub IsDistinct : List A → Type 0
  IsDistinct [] = Unit
  IsDistinct (x ∷ xs) = All (λ y. key y ≢ key x) xs × IsDistinct xs

  pub IsDistinct-append :
      (xs : List A) (x : A)
      → IsDistinct xs
      → All (λ y. key y ≢ key x) xs
      → IsDistinct (xs ++ x ∷ [])
  IsDistinct-append [] x d h = (tt, tt)
  IsDistinct-append (y ∷ xs) x d h = (
    All-append (λ z. key z ≢ key y) xs (x ∷ []) d.0 ((λ e. h.0 (sym e)), tt),
    IsDistinct-append xs x d.1 h.1,
  )

  All-map_ne :
      (f : A → A)
      → ((x : A) → key (f x) ≡ key x)
      → (a : A) (xs : List A) → All (λ y. key y ≢ key a) xs
      → All (λ y. key y ≢ key (f a)) (map f xs)
  All-map_ne f k a [] h = tt
  All-map_ne f k a (x ∷ xs) h = ((λ e. h.0 (sym (k x) ∙ e ∙ k a)), All-map_ne f k a xs h.1)

  pub IsDistinct-map :
      (f : A → A)
      → ((x : A) → key (f x) ≡ key x)
      → (xs : List A) → IsDistinct xs
      → IsDistinct (map f xs)
  IsDistinct-map f k [] d = tt
  IsDistinct-map f k (x ∷ xs) d = (All-map_ne f k x xs d.0, IsDistinct-map f k xs d.1)

module _ {A : Type 0} (p : A → Bool) where
  pub All-find? : (P : A → Type 0) (xs : List A) (x : A) → All P xs → find? p xs ≡ some x → P x
  unfolding find?
  All-find? P [] x a h = absurd (cc)
  All-find? P (y ∷ xs) x (a, rest) h = elim (Bool-cases (p y)) [
    | inl e ↦ subst P (ground (arith, e)) a
    | inr e ↦ All-find? P xs x rest (ground (arith, e))
  ]

  -- Among distinct keys, what one test finds is found by its key.
  pub find?-key :
      (key : A → ℕ) (xs : List A) (x : A)
      → IsDistinct key xs
      → find? p xs ≡ some x
      → find? (λ y. key y == key x) xs ≡ some x
  unfolding find?
  find?-key key [] x d h = absurd (cc)
  find?-key key (y ∷ xs) x (apart, d) h = elim (Bool-cases (p y)) [
    | inl e ↦ ground (arith, e)
    | inr e ↦
        let later : find? p xs ≡ some x = ground (arith, e) in
        let ne : (key y == key x) ≡ false =
          ground (arith, All-find? (λ z. key z ≢ key y) xs x apart later) in
        rw (ne, find?) (find?-key key xs x d later)
  ]
