-- ===== src/Repositories/Users/Search.antt =====
-- What `search_by_username` of app/repositories/users.py returns.
use python_typescript_wiki_b.Base.{
  ℕ, zero, suc, subst, Option-cases, ◌≤◌, ◌<◌, ◌≡◌, refl, sym, ap, ◌∙◌, ◌⊎◌, ◌↔◌, Bool, Bool-cases,
  inl, inr, true, all, some, List, [], ◌∷◌, map, arith, length, take, All,
}
use python_typescript_wiki_b.Text.{Str}
use python_typescript_wiki_b.Errors.{ok, ok-injective}
use python_typescript_wiki_b.Db.{User, Db, is_storable}
use python_typescript_wiki_b.Repositories.Like.Infix.{IsPlain, Contains, ilike_iff}
use python_typescript_wiki_b.Repositories.Users.{
  UserProfile, profile_of, username_matches, keep, search_statement,
}

some_injective : {A : Type 0} {a b : A} → some a ≡ some b → a ≡ b
some_injective h = cc

-- The element is in the list.
abbrev pub Member : {A : Type 0} → A → List A → Type 0
Member a [] = ⊥
Member a (x ∷ xs) = (a ≡ x) ⊎ Member a xs

-- The user has a name, and it contains the query.
abbrev pub IsHit : (ℕ → ℕ) → Str → User → Type 0
IsHit fold query row = (name : Str) × (row.username ≡ some name) × Contains fold query name

pub Member-map :
    {A B : Type 0} (f : A → B) (a : A) (xs : List A) → Member a xs → Member (f a) (map f xs)
Member-map f a [] h = h
Member-map f a (x ∷ xs) (inl e) = inl (ap f e)
Member-map f a (x ∷ xs) (inr h) = inr (Member-map f a xs h)

take_short : {A : Type 0} (n : ℕ) (xs : List A) → length (take n xs) < n → take n xs ≡ xs
take_short zero xs h = absurd (omega arith)
take_short (suc n) [] h = refl
take_short (suc n) (x ∷ xs) h = ap (λ l. x ∷ l) (take_short n xs (omega arith))

pub length-take_le : {A : Type 0} (n : ℕ) (xs : List A) → length (take n xs) ≤ n
length-take_le zero xs = omega arith
length-take_le (suc n) [] = omega arith
length-take_le (suc n) (x ∷ xs) = omega (arith, length-take_le n xs)

pub length-map : {A B : Type 0} (f : A → B) (xs : List A) → length (map f xs) ≡ length xs
length-map f [] = refl
length-map f (x ∷ xs) = ap suc (length-map f xs)

module _ (p : User → Bool) where
  keep_complete :
      (row : User) (rows : List User) → Member row rows → p row ≡ true → Member row (keep p rows)
  unfolding keep
  keep_complete row [] h e = h
  keep_complete row (r ∷ rows) (inl same_row) e =
      let passes : p r ≡ true = ap p (sym same_row) ∙ e in rw passes (inl same_row)
  keep_complete row (r ∷ rows) (inr h) e =
      let later = keep_complete row rows h e in
      elim (Bool-cases (p r)) [ inl passes ↦ rw passes (inr later) | inr fails ↦ rw fails later ]

  pub keep_sound :
      (row : User) (rows : List User) → Member row (keep p rows) → Member row rows × (p row ≡ true)
  unfolding keep
  keep_sound row [] h = absurd h
  keep_sound row (r ∷ rows) h = elim (Bool-cases (p r)) [
    | inl passes ↦ kept passes (keep_sound row rows) (rw passes at h)
    | inr fails ↦ let (m, e) = keep_sound row rows (rw fails at h) in (inr m, e)
  ]
    where
      kept :
          p r ≡ true
          → (Member row (keep p rows) → Member row rows × (p row ≡ true))
          → Member row (r ∷ keep p rows)
          → Member row (r ∷ rows) × (p row ≡ true)
      kept passes later (inl e) = (inl e, ap p e ∙ passes)
      kept passes later (inr k) = let (m, e) = later k in (inr m, e)

-- An element of a list that was cut and mapped comes from the list.
pub Member-map-take :
    {A B : Type 0} (f : A → B) (n : ℕ) (xs : List A) (b : B)
    → Member b (map f (take n xs))
    → (a : A) × Member a xs × (b ≡ f a)
Member-map-take f zero xs b h = absurd h
Member-map-take f (suc n) [] b h = absurd h
Member-map-take f (suc n) (x ∷ xs) b (inl e) = (x, inl refl, e)
Member-map-take f (suc n) (x ∷ xs) b (inr h) =
    let (a, m, e) = Member-map-take f n xs b h in (a, inr m, e)

username_matches_iff :
    (fold : ℕ → ℕ) (query : Str) (row : User)
    → All IsPlain query
    → (username_matches fold query row ≡ true) ↔ IsHit fold query row
unfolding username_matches
username_matches_iff fold query row plain = elim (Option-cases row.username) [
  | inl e ↦ rw e ((λ h. absurd (cc)), λ (name, named, _). absurd (cc))
  | inr (name, e) ↦
      let (sound, complete) = ilike_iff fold query name plain in
      rw e (
        (λ h. (name, refl, sound h)),
        λ (other, named, inside).
            complete (subst (Contains fold query) (some_injective (sym named)) inside),
      )
]

-- A search only reads, and what it finds are profiles of the first rows that match.
module _ (fold : ℕ → ℕ) (query : Str) (limit now : ℕ) (db : Db) where
  pub search_statement-db : (search_statement fold query limit now db).1 ≡ db
  unfolding search_statement
  search_statement-db = elim (Bool-cases (all is_storable query)) [
    | inl e ↦ rw e refl
    | inr e ↦ rw e refl
  ]

  pub search_statement-eq-ok :
      {found : List UserProfile} {db' : Db}
      → search_statement fold query limit now db ≡ (ok found, db')
      → map profile_of (take limit (keep (username_matches fold query) db.users)) ≡ found
  unfolding search_statement
  search_statement-eq-ok h = elim (Bool-cases (all is_storable query)) [
    | inl e ↦ ok-injective (ap (λ x. x.0) (rw e at h))
    | inr e ↦ absurd (ground (arith, e, h))
  ]

-- A search, for a query without `%`, `_` and backslash that UTF8 text can hold, returns at most
-- `limit` profiles, each of a user whose name contains the query up to case folding, and, when it
-- returns fewer than `limit`, the profile of every such user. The tables are as they were.
pub search_lem :
    (fold : ℕ → ℕ) (query : Str) (limit now : ℕ) (db : Db)
    → All IsPlain query
    → all is_storable query ≡ true
    → (found : List UserProfile) × (search_statement fold query limit now db ≡ (ok found, db))
      × (length found ≤ limit)
      × ((q : UserProfile)
          → Member q found
          → (row : User) × Member row db.users × (q ≡ profile_of row) × IsHit fold query row)
      × (length found < limit
          → (row : User) → Member row db.users
          → IsHit fold query row
          → Member (profile_of row) found)
unfolding search_statement
search_lem fold query limit now db plain storable =
    let test = username_matches fold query in
    let hits = keep test db.users in
    let count = length-map profile_of (take limit hits) in
    (
      map profile_of (take limit hits),
      rw storable refl,
      omega (arith, count, length-take_le limit hits),
      λ q h.
          let (row, kept, e) = Member-map-take profile_of limit hits q h in
          let (there, passes) = keep_sound test row db.users kept in
          (row, there, e, (username_matches_iff fold query row plain).0 passes),
      λ short row there hit.
          subst (λ l. Member (profile_of row) (map profile_of l))
            (sym (take_short limit hits (omega (arith, count, short))))
            (Member-map profile_of row hits (
              keep_complete test row db.users there
                ((username_matches_iff fold query row plain).1 hit))),
    )
