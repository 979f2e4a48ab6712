-- ===== src/Api/Http/Checked.antt =====
-- What a connection that was acquired and a body that was accepted say of a request.
use python_typescript_wiki_b.Base.{
  ℕ, suc, ◌≤◌, ◌≡◌, sym, ap, ◌∙◌, Bool-cases, inl, inr, Option, some, arith, length,
}
use python_typescript_wiki_b.Text.{Str}
use python_typescript_wiki_b.Errors.{ok}
use python_typescript_wiki_b.Outside.{Env}
use python_typescript_wiki_b.App.{World, nothing, raise}
use python_typescript_wiki_b.App.Laws.{>>=-eq-ok, pure-eq-ok, run_sql-eq-ok}
use python_typescript_wiki_b.Api.Http.{
  Body, malformed, absent, given, within, get_connection, body_field, checked,
}

module _ (env : Env) (w w' : World) where
  pub get_connection-eq-ok :
      {u : Unit {0}} → get_connection env w ≡ (ok u, w') → (w'.db ≡ w.db) × (w'.tick ≡ suc w.tick)
  unfolding get_connection
  get_connection-eq-ok h =
      let (done, _, ticked) = run_sql-eq-ok env nothing w h in (sym (ap (λ x. x.1) done), ticked)

module _ (env : Env) (lo hi : ℕ) where
  checked_sound :
      (body : Body) (w w' : World) {s : Str}
      → checked env lo (some hi) body w ≡ (ok s, w')
      → (body ≡ given s) × (lo ≤ length s) × (length s ≤ hi) × (w' ≡ w)
  unfolding raise
  checked_sound malformed w w' h = absurd (cc)
  checked_sound absent w w' h = absurd (cc)
  checked_sound (given t) w w' h = elim (Bool-cases (within lo (some hi) t)) [
    | inl e ↦
        let (same_text, stay) = pure-eq-ok t w (rw e at h) in
        (ap given same_text, ground (arith, e, same_text), ground (arith, e, same_text), stay)
    | inr e ↦ absurd (ground (arith, e, h))
  ]

  -- A field that was accepted stood in the body, with a length within its bounds, and one event, the
  -- acquiring of the connection, has passed.
  pub body_field_sound :
      (body : Body) (w w' : World) {s : Str}
      → body_field env lo (some hi) body w ≡ (ok s, w')
      → (body ≡ given s)
        × (lo ≤ length s)
        × (length s ≤ hi)
        × (w'.db ≡ w.db)
        × (w'.tick ≡ suc w.tick)
  unfolding body_field raise
  body_field_sound malformed w w' h = absurd (cc)
  body_field_sound absent w w' h =
      let (_, w1, _, h1) = >>=-eq-ok (get_connection env) _ w h in absurd (cc)
  body_field_sound (given t) w w' h =
      let (_, w1, connected, h1) = >>=-eq-ok (get_connection env) _ w h in
      let (same_db, ticked) = get_connection-eq-ok env w w1 connected in
      let (in_body, low, high, stay) = checked_sound (given t) w1 w' h1 in
      (in_body, low, high, ap (λ x. x.db) stay ∙ same_db, ap (λ x. x.tick) stay ∙ ticked)

module _ (env : Env) (lo : ℕ) (hi : Option ℕ) where
  checked-world :
      (body : Body) (w w' : World) {s : Str} → checked env lo hi body w ≡ (ok s, w') → w' ≡ w
  unfolding raise
  checked-world malformed w w' h = absurd (cc)
  checked-world absent w w' h = absurd (cc)
  checked-world (given t) w w' h = elim (Bool-cases (within lo hi t)) [
    | inl e ↦ (pure-eq-ok t w (rw e at h)).1
    | inr e ↦ absurd (ground (arith, e, h))
  ]

  -- Reading the body leaves the tables alone.
  pub db-body_field :
      (body : Body) (w w' : World) {s : Str}
      → body_field env lo hi body w ≡ (ok s, w')
      → w'.db ≡ w.db
  unfolding body_field raise
  db-body_field malformed w w' h = absurd (cc)
  db-body_field absent w w' h =
      let (_, w1, _, h1) = >>=-eq-ok (get_connection env) _ w h in absurd (cc)
  db-body_field (given t) w w' h =
      let (_, w1, connected, h1) = >>=-eq-ok (get_connection env) _ w h in
      ap (λ x. x.db) (checked-world (given t) w1 w' h1)
      ∙ (get_connection-eq-ok env w w1 connected).0
