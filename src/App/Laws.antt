-- ===== src/App/Laws.antt =====
-- Rules for actions: what a successful action has gone through, invariants, possible exceptions.
use python_typescript_wiki_b.Base.{
  ℕ, Bool, true, false, suc, ◌≡◌, refl, sym, ap, arith, if◌then◌else◌,
}
use mathlib.Core.Path.{ap₂}
use python_typescript_wiki_b.Errors.{Exc, database_error, Result, ok, raised}
use python_typescript_wiki_b.Db.{Db}
use python_typescript_wiki_b.Outside.{Env}
use python_typescript_wiki_b.App.{
  World, App, after, pure, raise, continue, ◌>>=◌, or_raise, lift, observe, run_sql, Statement,
  replace,
}

module _ {A B : Type 0} where
  continue-ok :
      (r : Result A) (f : A → App B) (w : World) {b : B} {w' : World}
      → continue r f w ≡ (ok b, w')
      → (a : A) × (◌≡◌ {A = Result A × World} (r, w) (ok a, w)) × (f a w ≡ (ok b, w'))
  continue-ok (ok a) f w h = (a, refl, h)
  continue-ok (raised e) f w h = cc

  -- A block that succeeded ran its first action with success, and the rest from where that ended.
  pub >>=-eq-ok :
      (m : App A) (f : A → App B) (w : World) {b : B} {w' : World}
      → (m >>= f) w ≡ (ok b, w')
      → (a : A) × (between : World) × (m w ≡ (ok a, between)) × (f a between ≡ (ok b, w'))
  unfolding ◌>>=◌
  >>=-eq-ok m f w h = let (a, e, rest) = continue-ok (m w).0 f (m w).1 h in (a, (m w).1, e, rest)

module _ {A : Type 0} where
  pub lift-eq-ok :
      (r : Result A) (w : World) {a : A} {w' : World}
      → lift r w ≡ (ok a, w')
      → (r ≡ ok a) × (w' ≡ w)
  unfolding lift
  lift-eq-ok r w h = (ap (λ x. x.0) h, sym (ap (λ x. x.1) h))

  pub observe-eq-ok :
      (f : ℕ → A) (w : World) {a : A} {w' : World}
      → observe f w ≡ (ok a, w')
      → (f w.tick ≡ a) × (w' ≡ after w)
  unfolding observe
  observe-eq-ok f w h = (ground arith, sym (ap (λ x. x.1) h))

  pub pure-eq-ok :
      (b : A) (w : World) {a : A} {w' : World} → pure b w ≡ (ok a, w') → (b ≡ a) × (w' ≡ w)
  unfolding pure
  pure-eq-ok b w h = (ground arith, sym (ap (λ x. x.1) h))

  replace-eq-ok : (error : Exc) (r : Result A) {a : A} → replace error r ≡ ok a → r ≡ ok a
  replace-eq-ok error (ok b) h = h
  replace-eq-ok error (raised e) h = cc

  pub or_raise-eq-ok :
      (error : Exc) (m : App A) (w : World) {a : A} {w' : World}
      → or_raise error m w ≡ (ok a, w')
      → m w ≡ (ok a, w')
  unfolding or_raise
  or_raise-eq-ok error m w h =
      ap₂ (λ r v. (r, v)) (replace-eq-ok error (m w).0 (ap (λ x. x.0) h)) (ap (λ x. x.1) h)

  -- A statement that succeeded was not failed by the server, and changed the tables as it says.
  pub run_sql-eq-ok :
      (env : Env) (stmt : Statement A) (w : World) {a : A} {w' : World}
      → run_sql env stmt w ≡ (ok a, w')
      → (stmt (env.db_clock w.tick) w.db ≡ (ok a, w'.db))
        × (env.fault w.tick ≡ false)
        × (w'.tick ≡ suc w.tick)
  unfolding run_sql
  run_sql-eq-ok env stmt w h = (ground arith, ground arith, ground arith)

-- What a pure computation may raise.
abbrev pub Permits : {A : Type 0} → (Exc → Type 0) → Result A → Type 0
Permits E (ok a) = Unit
Permits E (raised e) = E e

-- Every exception of the action is in `E`.
pub record RaisesOnly {A : Type 0} (E : Exc → Type 0) (m : App A) : Type 0 where
  pub at : (w : World) → Permits E (m w).0

-- `P` holds of the tables after the action if it held before, whether the action returns or raises.
pub record Keeps {A : Type 0} (P : Db → Type 0) (m : App A) : Type 0 where
  pub at : (w : World) → P w.db → P (m w).1.db

Permits-replace :
    {A : Type 0} (E : Exc → Type 0) (error : Exc) (r : Result A)
    → E error
    → Permits E (replace error r)
Permits-replace E error (ok a) h = tt
Permits-replace E error (raised e) h = h

module _ {A : Type 0} {E : Exc → Type 0} where
  pub RaisesOnly-pure : (a : A) → RaisesOnly E (pure a)
  unfolding pure
  RaisesOnly-pure a = record { at = λ w. tt }

  pub RaisesOnly-raise : (e : Exc) → E e → RaisesOnly E (raise {A = A} e)
  unfolding raise
  RaisesOnly-raise e h = record { at = λ w. h }

  pub RaisesOnly-lift : (r : Result A) → Permits E r → RaisesOnly E (lift r)
  unfolding lift
  RaisesOnly-lift r h = record { at = λ w. h }

  pub RaisesOnly-observe : (f : ℕ → A) → RaisesOnly E (observe f)
  unfolding observe
  RaisesOnly-observe f = record { at = λ w. tt }

  pub RaisesOnly-if :
      (b : Bool) (m n : App A) → RaisesOnly E m → RaisesOnly E n → RaisesOnly E (if b then m else n)
  RaisesOnly-if true m n hm hn = hm
  RaisesOnly-if false m n hm hn = hn

  pub RaisesOnly-run_sql :
      (env : Env) (stmt : Statement A)
      → E database_error
      → ((now : ℕ) (db : Db) → Permits E (stmt now db).0)
      → RaisesOnly E (run_sql env stmt)
  unfolding run_sql
  RaisesOnly-run_sql env stmt h k = record {
    at = λ w. ground (arith, k (env.db_clock w.tick) w.db);
  }

  pub RaisesOnly-or_raise : (error : Exc) (m : App A) → E error → RaisesOnly E (or_raise error m)
  unfolding or_raise
  RaisesOnly-or_raise error m h = record { at = λ w. Permits-replace E error (m w).0 h }

module _ {A B : Type 0} {E : Exc → Type 0} where
  RaisesOnly-continue :
      (r : Result A) (f : A → App B) (w : World)
      → Permits E r
      → ((a : A) → RaisesOnly E (f a))
      → Permits E (continue r f w).0
  RaisesOnly-continue (ok a) f w h k = (k a).at w
  RaisesOnly-continue (raised e) f w h k = h

  pub RaisesOnly-bind :
      (m : App A) (f : A → App B)
      → RaisesOnly E m
      → ((a : A) → RaisesOnly E (f a))
      → RaisesOnly E (m >>= f)
  unfolding ◌>>=◌
  RaisesOnly-bind m f hm hf = record {
    at = λ w. RaisesOnly-continue (m w).0 f (m w).1 (hm.at w) hf;
  }

module _ {A : Type 0} {P : Db → Type 0} where
  pub Keeps-pure : (a : A) → Keeps P (pure a)
  unfolding pure
  Keeps-pure a = record { at = λ w h. h }

  pub Keeps-raise : (e : Exc) → Keeps P (raise {A = A} e)
  unfolding raise
  Keeps-raise e = record { at = λ w h. h }

  pub Keeps-lift : (r : Result A) → Keeps P (lift r)
  unfolding lift
  Keeps-lift r = record { at = λ w h. h }

  pub Keeps-observe : (f : ℕ → A) → Keeps P (observe f)
  unfolding observe
  Keeps-observe f = record { at = λ w h. h }

  pub Keeps-if : (b : Bool) (m n : App A) → Keeps P m → Keeps P n → Keeps P (if b then m else n)
  Keeps-if true m n hm hn = hm
  Keeps-if false m n hm hn = hn

  pub Keeps-run_sql :
      (env : Env) (stmt : Statement A)
      → ((now : ℕ) (db : Db) → P db → P (stmt now db).1)
      → Keeps P (run_sql env stmt)
  unfolding run_sql
  Keeps-run_sql env stmt k = record { at = λ w h. ground (arith, k (env.db_clock w.tick) w.db h) }

  pub Keeps-or_raise : (error : Exc) (m : App A) → Keeps P m → Keeps P (or_raise error m)
  unfolding or_raise
  Keeps-or_raise error m k = record { at = λ w h. k.at w h }

module _ {A B : Type 0} {P : Db → Type 0} where
  Keeps-continue :
      (r : Result A) (f : A → App B) (w : World)
      → P w.db
      → ((a : A) → Keeps P (f a))
      → P (continue r f w).1.db
  Keeps-continue (ok a) f w h k = (k a).at w h
  Keeps-continue (raised e) f w h k = h

  pub Keeps-bind :
      (m : App A) (f : A → App B) → Keeps P m → ((a : A) → Keeps P (f a)) → Keeps P (m >>= f)
  unfolding ◌>>=◌
  Keeps-bind m f hm hf = record { at = λ w h. Keeps-continue (m w).0 f (m w).1 (hm.at w h) hf }

pub ruleset keeps_rules =
    (Keeps-pure, Keeps-raise, Keeps-lift, Keeps-observe, Keeps-if, Keeps-or_raise, Keeps-bind)

pub ruleset raises_rules = (
  RaisesOnly-pure, RaisesOnly-raise, RaisesOnly-lift, RaisesOnly-observe, RaisesOnly-if,
  RaisesOnly-or_raise, RaisesOnly-bind,
)
