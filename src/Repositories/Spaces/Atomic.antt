-- ===== src/Repositories/Spaces/Atomic.antt =====
-- `create_space` of app/repositories/spaces.py does all of its work or none.
use python_typescript_wiki_b.Base.{
  ℕ, ◌≡◌, refl, sym, ap, ◌∙◌, subst, true, false, none, [], ◌∷◌, ◌++◌, arith, ◌==◌, any,
}
use python_typescript_wiki_b.Text.{Str}
use python_typescript_wiki_b.Errors.{Result, ok, raised}
use python_typescript_wiki_b.Db.{Db}
use python_typescript_wiki_b.Outside.{Env}
use python_typescript_wiki_b.App.{App, World, ◌>>=◌, ◌>>◌, observe, pure, run_sql}
use python_typescript_wiki_b.App.Laws.{>>=-eq-ok, observe-eq-ok, pure-eq-ok, run_sql-eq-ok}
use python_typescript_wiki_b.App.Transactions.{transaction_raised, transaction-eq-ok}
use python_typescript_wiki_b.Repositories.Spaces.{
  insert_space, insert_membership, owner_role, create_space,
}

-- The tables with a new space and its owner.
abbrev pub with_space : Str → ℕ → ℕ → Db → Db
with_space name owner_id space_id db = record db {
  spaces =
      db.spaces
      ++ record { id = space_id; name = name; deleted_at = none; delete_scheduled_at = none } ∷ [];
  memberships =
      db.memberships ++ record { user_id = owner_id; space_id = space_id; role = owner_role } ∷ [];
}

abbrev pub Outcome : Str → ℕ → Db → Result ℕ → Db → Type 0
Outcome name owner_id db (ok id) db' =
    (db' ≡ with_space name owner_id id db)
    × (any (λ s. s.id == id) db.spaces ≡ false)
    × (any (λ u. u.id == owner_id) db.users ≡ true)
Outcome name owner_id db (raised e) db' = db' ≡ db

insert_space-eq-ok :
    (name : Str) (id now : ℕ) (db db' : Db) {i : ℕ}
    → insert_space name id now db ≡ (ok i, db')
    → (id ≡ i)
      × (any (λ s. s.id == id) db.spaces ≡ false)
      × (db' ≡ record db {
        spaces =
            db.spaces
            ++ record { id = id; name = name; deleted_at = none; delete_scheduled_at = none } ∷ [];
      })
unfolding insert_space
insert_space-eq-ok name id now db db' h = (ground arith, ground arith, ground arith)

insert_membership-eq-ok :
    (owner id now : ℕ) (db db' : Db) {u : Unit {0}}
    → insert_membership owner id now db ≡ (ok u, db')
    → (any (λ u. u.id == owner) db.users ≡ true)
      × (db' ≡ record db {
        memberships =
            db.memberships ++ record { user_id = owner; space_id = id; role = owner_role } ∷ [];
      })
unfolding insert_membership
insert_membership-eq-ok owner id now db db' h = (ground arith, ground arith)

module _ (env : Env) (name : Str) (owner_id : ℕ) where
  abbrev block : App ℕ
  block = do
    fresh ← observe env.uuid
    space_id ← run_sql env (insert_space name fresh)
    run_sql env (insert_membership owner_id space_id)
    pure space_id

  abbrev store : ℕ → Db → Db
  store id db = record db {
    spaces =
        db.spaces
        ++ record { id = id; name = name; deleted_at = none; delete_scheduled_at = none } ∷ [];
  }

  abbrev join : ℕ → Db → Db
  join id db = record db {
    memberships =
        db.memberships ++ record { user_id = owner_id; space_id = id; role = owner_role } ∷ [];
  }

  block_lem :
      (w w' : World) {id : ℕ} → block w ≡ (ok id, w') → Outcome name owner_id w.db (ok id) w'.db
  block_lem w w' {id} h =
      let (fresh, w1, drawing, inserting) = >>=-eq-ok (observe env.uuid) _ w h in
      let (_, moved) = observe-eq-ok env.uuid w drawing in
      let (space_id, w2, stored, joining) =
        >>=-eq-ok (run_sql env (insert_space name fresh)) _ w1 inserting in
      let (space_done, _, _) = run_sql-eq-ok env (insert_space name fresh) w1 stored in
      let (named, unused, space_db) = insert_space-eq-ok name fresh _ w1.db w2.db space_done in
      let (_, w3, joined, ended) =
        >>=-eq-ok (run_sql env (insert_membership owner_id space_id)) _ w2 joining in
      let (member_done, _, _) = run_sql-eq-ok env (insert_membership owner_id space_id) w2 joined in
      let (owner, member_db) =
        insert_membership-eq-ok owner_id space_id _ w2.db w3.db member_done in
      let (result, stay) = pure-eq-ok space_id w3 ended in
      let same_db : w1.db ≡ w.db = ap (λ x. x.db) moved in
      (
        ap (λ x. x.db) stay
            ∙ member_db
            ∙ ap (join space_id) space_db
            ∙ ap (λ d. join space_id (store fresh d)) same_db
            ∙ ap (λ i. join space_id (store i w.db)) named
            ∙ ap (λ i. join i (store i w.db)) result,
        subst (λ i. any (λ s. s.id == i) w.db.spaces ≡ false) (named ∙ result)
            (subst (λ d. any (λ s. s.id == fresh) d.spaces ≡ false) same_db unused),
        subst (λ d. any (λ u. u.id == owner_id) d.users ≡ true) same_db
            (subst (λ d. any (λ u. u.id == owner_id) d.users ≡ true) space_db owner),
      )

  create_space-Outcome :
      (w w' : World) (r : Result ℕ)
      → create_space env name owner_id w ≡ (r, w')
      → Outcome name owner_id w.db r w'.db
  unfolding create_space
  create_space-Outcome w w' (raised e) h =
      ap (λ x. x.1.db) (sym h) ∙ transaction_raised env block w (ap (λ x. x.0) h)
  create_space-Outcome w w' (ok id) h =
      let (start, end, began, ran, ended) = transaction-eq-ok env block w h in
      subst (λ d. Outcome name owner_id d (ok id) w'.db) began
        (subst (Outcome name owner_id start.db (ok id)) (sym ended) (block_lem start end ran))

  -- `create_space` either raises and leaves the tables as they were, or returns an id that no space
  -- had, for an owner who is a user, and the tables gain that space and its owner's membership and
  -- nothing else, whichever of the statements of its transaction fail.
  pub create_space_lem :
      (w : World)
      → Outcome name owner_id w.db
          (create_space env name owner_id w).0
          (create_space env name owner_id w).1.db
  create_space_lem w = create_space-Outcome w _ _ refl
