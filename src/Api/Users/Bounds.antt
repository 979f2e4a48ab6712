-- ===== src/Api/Users/Bounds.antt =====
-- app/api/v1/routes/users.py: how much a search answers with, and from where.
use mathlib.Core.Path.{subst₂}
use python_typescript_wiki_b.Base.{
  ℕ, suc, ◌≤◌, ◌≡◌, ◌⊎◌, ◌&&◌, ltb, leb, Bool-cases, refl, sym, ap, ◌∙◌, inl, inr, Option, none,
  some, List, [], ◌∷◌, map, arith, length, take,
}
use python_typescript_wiki_b.Base.Int.{pos, negsuc}
use python_typescript_wiki_b.Text.{Str}
use python_typescript_wiki_b.Errors.{ok}
use python_typescript_wiki_b.Db.{User, Db}
use python_typescript_wiki_b.Outside.{Env}
use python_typescript_wiki_b.App.{World, lift}
use python_typescript_wiki_b.App.Laws.{>>=-eq-ok, lift-eq-ok, pure-eq-ok, run_sql-eq-ok}
use python_typescript_wiki_b.Repositories.Users.{
  UserProfile, profile_of, username_matches, keep, search_statement, search_by_username,
}
use python_typescript_wiki_b.Repositories.Users.Search.{
  Member, Member-map-take, length-map, length-take_le, keep_sound, search_statement-db,
  search_statement-eq-ok,
}
use python_typescript_wiki_b.Services.Sessions
use python_typescript_wiki_b.Services.Sessions.{SessionService, SessionData, get_session_record}
use python_typescript_wiki_b.Services.Users
use python_typescript_wiki_b.Services.Sessions.Held.{
  IsSessionAt, get_session-IsSessionAt, db-get_session,
}
use python_typescript_wiki_b.Api.Http.Checked.{get_connection-eq-ok}
use python_typescript_wiki_b.Api.Http.{Request, get_connection}
use python_typescript_wiki_b.Api.Bearer.{extract_bearer_token}
use python_typescript_wiki_b.Api.Users.{
  UserSearchResponse, UserSearchResult, Limit, default, not_integer, number, limit_value,
  query_value, search_result, search_users,
}

-- The limits that a request may name, and the one without a name.
abbrev pub Allows : Limit → ℕ → Type 0
Allows limit n = ((limit ≡ default) × (n ≡ 20)) ⊎ ((limit ≡ number (pos n)) × (1 ≤ n) × (n ≤ 100))

limit_value-Allows : (limit : Limit) {n : ℕ} → limit_value limit ≡ ok n → Allows limit n
unfolding limit_value
limit_value-Allows default h = inl (refl, ground arith)
limit_value-Allows not_integer h = absurd (cc)
limit_value-Allows (number (pos m)) {n} h = elim (Bool-cases (ltb 0 m && leb m 100)) [
  | inl e ↦
      let same_n : m ≡ n = ground (arith, e) in
      inr (ap (λ k. number (pos k)) same_n, ground (arith, e), ground (arith, e))
  | inr e ↦ absurd (ground (arith, e))
]
limit_value-Allows (number (negsuc m)) h = absurd (cc)

-- What an answer shows of a row.
abbrev pub listed : User → UserSearchResult
listed row = record {
  telegram_id = row.telegram_id;
  username = row.username;
  photo_url = row.photo_url;
}

query_value_sound :
    (q : Option Str) {query : Str}
    → query_value q ≡ ok query
    → (q ≡ some query) × (3 ≤ length query) × (length query ≤ 64)
unfolding query_value
query_value_sound none h = absurd (cc)
query_value_sound (some s) h = (ground arith, ground arith, ground arith)

-- The rows that a statement finds are rows of the table.
search_statement_bound :
    (fold : ℕ → ℕ) (query : Str) (limit now : ℕ) (db : Db) {found : List UserProfile} {db' : Db}
    → search_statement fold query limit now db ≡ (ok found, db')
    → (db' ≡ db)
      × (length found ≤ limit)
      × ((p : UserProfile)
          → Member p found
          → (row : User) × Member row db.users × (p ≡ profile_of row))
search_statement_bound fold query limit now db {found} h =
    let test = username_matches fold query in
    let hits = keep test db.users in
    let found_eq = search_statement-eq-ok fold query limit now db h in
    (
      sym (ap (λ x. x.1) h) ∙ search_statement-db fold query limit now db,
      rw (← found_eq)
          (omega (arith, length-map profile_of (take limit hits), length-take_le limit hits)),
      λ p m.
          let (row, kept, e) = Member-map-take profile_of limit hits p (rw (← found_eq) at m) in
          (row, (keep_sound test row db.users kept).0, e),
    )

-- The answer made of found profiles.
Member-search_result :
    (found : List UserProfile) (users : List User)
    → ((p : UserProfile) → Member p found → (row : User) × Member row users × (p ≡ profile_of row))
    → (u : UserSearchResult) → Member u (map search_result found)
    → (row : User) × Member row users × (u ≡ listed row)
unfolding search_result profile_of
Member-search_result [] users rows u h = absurd h
Member-search_result (p ∷ ps) users rows u (inl e) =
    let (row, there, same_row) = rows p (inl refl) in (row, there, e ∙ ap search_result same_row)
Member-search_result (p ∷ ps) users rows u (inr h) =
    Member-search_result ps users (λ p' m. rows p' (inr m)) u h

answer_bounds :
    (found : List UserProfile) (response : UserSearchResponse) (n : ℕ) (db start : Db)
    → record { users = map search_result found } ≡ response
    → db ≡ start
    → length found ≤ n
    → ((p : UserProfile)
        → Member p found
        → (row : User) × Member row db.users × (p ≡ profile_of row))
    → (length response.users ≤ n)
      × ((u : UserSearchResult)
          → Member u response.users
          → (row : User) × Member row start.users × (u ≡ listed row))
answer_bounds found response n db start made unchanged count rows =
    rw (← made, ← unchanged)
      (
        omega (arith, length-map search_result found, count),
        Member-search_result found db.users rows,
      )

module _ (env : Env) (service : SessionService) (request : Request) (q : Option Str)
    (limit : Limit) where
  -- `GET /users/search` that returns has found a bearer token in the request whose digest has a row in
  -- the tables, not revoked and with an end later than the clock's reading in this request, a query of
  -- 3 to 64 characters and a limit of 1 to 100, or none, for 20. It answers with at most `limit`
  -- users, each with the telegram id, name and photo of a row of the table, and leaves the tables as
  -- they were.
  pub search_users_bounds :
      (w w' : World) {response : UserSearchResponse}
      → search_users env service request q limit w ≡ (ok response, w')
      → (token : Str) × (query : Str) × (n : ℕ) × (extract_bearer_token request.authorization
          ≡ ok token)
        × IsSessionAt env token (env.clock (suc (suc w.tick))) w.db
        × (q ≡ some query)
        × (3 ≤ length query)
        × (length query ≤ 64)
        × Allows limit n
        × (length response.users ≤ n)
        × ((u : UserSearchResult)
            → Member u response.users
            → (row : User) × Member row w.db.users × (u ≡ listed row))
        × (w'.db ≡ w.db)
  unfolding search_users get_connection Users.search_users search_by_username
  search_users_bounds w w' {response} h =
      let (_, w1, connected, h1) = >>=-eq-ok (get_connection env) _ w h in
      let (query, w2, queried, h2) = >>=-eq-ok (lift (query_value q)) _ w1 h1 in
      let (n, w3, limited, h3) = >>=-eq-ok (lift (limit_value limit)) _ w2 h2 in
      let (token, w4, extracted, h4) =
        >>=-eq-ok (lift (extract_bearer_token request.authorization)) _ w3 h3 in
      let (d, w5, active, h5) = >>=-eq-ok (Sessions.get_session env service token) _ w4 h4 in
      let (users, w6, found, h6) = >>=-eq-ok (Users.search_users env query n) _ w5 h5 in
      let (_, w2_eq) = lift-eq-ok (query_value q) w1 queried in
      let (_, w3_eq) = lift-eq-ok (limit_value limit) w2 limited in
      let (_, w4_eq) = lift-eq-ok (extract_bearer_token request.authorization) w3 extracted in
      let (made, w6_eq) = pure-eq-ok _ w6 h6 in
      let (ran, _, _) = run_sql-eq-ok env (search_statement env.fold_case query n) w5 found in
      let (db_eq, count, rows) =
        search_statement_bound env.fold_case query n (env.db_clock w5.tick) w5.db ran in
      let unchanged : w5.db ≡ w.db =
        db-get_session env service token w4 w5 active
        ∙ ap (λ x. x.db) (w4_eq ∙ w3_eq ∙ w2_eq)
        ∙ (get_connection-eq-ok env w w1 connected).0 in
      let (is_query, long, short) = query_value_sound q (lift-eq-ok (query_value q) w1 queried).0 in
      let bounds = answer_bounds users response n w5.db w.db made unchanged count rows in
      let is_limit = (lift-eq-ok (limit_value limit) w2 limited).0 in
      (
        token,
        query,
        n,
        (lift-eq-ok (extract_bearer_token request.authorization) w3 extracted).0,
        subst₂ (λ n x. IsSessionAt env token (env.clock n) x)
            (ap (λ x. suc x.tick) (w4_eq ∙ w3_eq ∙ w2_eq)
              ∙ ap suc (get_connection-eq-ok env w w1 connected).1)
            (ap (λ x. x.db) (w4_eq ∙ w3_eq ∙ w2_eq) ∙ (get_connection-eq-ok env w w1 connected).0)
            (get_session-IsSessionAt env service token w4 w5 active).0,
        is_query,
        long,
        short,
        limit_value-Allows limit is_limit,
        bounds.0,
        bounds.1,
        ap (λ x. x.db) w6_eq ∙ db_eq ∙ unchanged,
      )
