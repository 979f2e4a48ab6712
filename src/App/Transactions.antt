-- ===== src/App/Transactions.antt =====
-- `async with connection.transaction()`: all of the block's work, or none.
use python_typescript_wiki_b.Base.{◌≡◌, refl, sym, ap, ◌∙◌}
use python_typescript_wiki_b.Errors.{Exc, database_error, Result, ok, raised}
use python_typescript_wiki_b.Db.{Db}
use python_typescript_wiki_b.Outside.{Env}
use python_typescript_wiki_b.App.{
  World, App, pure, ◌>>=◌, ◌>>◌, run_sql, transaction, settle, nothing,
}
use python_typescript_wiki_b.App.Laws.{
  Permits, Keeps, Keeps-pure, Keeps-bind, Keeps-run_sql, RaisesOnly, RaisesOnly-pure,
  RaisesOnly-bind, RaisesOnly-run_sql, >>=-eq-ok, pure-eq-ok, run_sql-eq-ok,
}

-- A transaction that raises leaves the tables as they were.
module _ {A : Type 0} where
  settle_raised :
      (old : Db) (r : Result A) (w : World) {e : Exc}
      → (settle old (r, w)).0 ≡ raised e
      → (settle old (r, w)).1.db ≡ old
  settle_raised old (ok a) w h = cc
  settle_raised old (raised e) w h = refl

  pub transaction_raised :
      (env : Env) (m : App A) (w : World) {e : Exc}
      → (transaction env m w).0 ≡ raised e
      → (transaction env m w).1.db ≡ w.db
  unfolding transaction
  transaction_raised env m w h =
      let block = (do run_sql env nothing; a ← m; run_sql env nothing; pure a) w in
      settle_raised w.db block.0 block.1 h

  settle_keeps :
      (P : Db → Type 0) (old : Db) (r : Result A) (w : World)
      → P old
      → P w.db
      → P (settle old (r, w)).1.db
  settle_keeps P old (ok a) w h k = k
  settle_keeps P old (raised e) w h k = h

  settle_permits :
      (E : Exc → Type 0) (old : Db) (r : Result A) (w : World)
      → Permits E r
      → Permits E (settle old (r, w)).0
  settle_permits E old (ok a) w h = tt
  settle_permits E old (raised e) w h = h

module _ {A : Type 0} (env : Env) (m : App A) where
  pub Keeps-transaction : {P : Db → Type 0} → Keeps P m → Keeps P (transaction env m)
  unfolding transaction
  Keeps-transaction {P} k =
      let inner =
        Keeps-bind (run_sql env nothing) _ (Keeps-run_sql env nothing (λ now db h. h)) λ _.
          Keeps-bind m _ k λ a.
            Keeps-bind (run_sql env nothing) _ (Keeps-run_sql {P = P} env nothing (λ now db h. h))
              λ _. Keeps-pure a in
      record { at = λ w h. settle_keeps P w.db _ _ h (inner.at w h) }

  pub RaisesOnly-transaction :
      {E : Exc → Type 0} → E database_error → RaisesOnly E m → RaisesOnly E (transaction env m)
  unfolding transaction
  RaisesOnly-transaction {E} d k =
      let quiet = RaisesOnly-run_sql {E = E} env nothing d (λ now db. tt) in
      let inner = RaisesOnly-bind (run_sql env nothing) _ quiet λ _.
        RaisesOnly-bind m _ k
          λ a. RaisesOnly-bind (run_sql env nothing) _ quiet λ _. RaisesOnly-pure a in
      record { at = λ w. settle_permits E w.db _ _ (inner.at w) }

nothing-db :
    (env : Env) (w w' : World) {u : Unit {0}} → run_sql env nothing w ≡ (ok u, w') → w'.db ≡ w.db
nothing-db env w w' h = let (done, _, _) = run_sql-eq-ok env nothing w h in sym (ap (λ x. x.1) done)

module _ {A : Type 0} where
  settle_ok :
      (old : Db) (r : Result A) (w : World) {a : A} {w' : World}
      → settle old (r, w) ≡ (ok a, w')
      → ◌≡◌ {A = Result A × World} (r, w) (ok a, w')
  settle_ok old (ok a) w h = h
  settle_ok old (raised e) w h = cc

  -- A transaction that succeeds has run its block with success, and left the tables as the block did.
  pub transaction-eq-ok :
      (env : Env) (m : App A) (w : World) {a : A} {w' : World}
      → transaction env m w ≡ (ok a, w')
      → (start : World) × (end : World) × (start.db ≡ w.db)
        × (m start ≡ (ok a, end))
        × (w'.db ≡ end.db)
  unfolding transaction
  transaction-eq-ok env m w {a} {w'} h =
      let (_, w1, began, inside) = >>=-eq-ok (run_sql env nothing) _ w (settle_ok w.db _ _ h) in
      let (b, w2, ran, after_block) = >>=-eq-ok m _ w1 inside in
      let (_, w3, committed, ended) = >>=-eq-ok (run_sql env nothing) _ w2 after_block in
      let (same_value, stay) = pure-eq-ok b w3 ended in
      (
        w1,
        w2,
        nothing-db env w w1 began,
        ran ∙ ap (λ x. (ok x, w2)) same_value,
        ap (λ x. x.db) stay ∙ nothing-db env w2 w3 committed,
      )
