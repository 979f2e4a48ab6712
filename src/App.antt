-- ===== src/App.antt =====
-- Requests as actions on the state of the world: they read clocks, run database statements and may
-- raise. What was committed before an exception stays committed.
pub mod Laws
pub mod Transactions
use python_typescript_wiki_b.Base.{
  ℕ, suc, ◌+◌, ◌-◌, ◌*◌, Bool, true, false, Option, none, some, List, leb, if◌then◌else◌,
}
use python_typescript_wiki_b.Base.Int.{ℤ, pos, negsuc}
use python_typescript_wiki_b.Text.{Str}
use python_typescript_wiki_b.Errors.{
  Exc, app_error, database_error, overflow_error, Result, ok, raised, internal_error,
}
use python_typescript_wiki_b.Db.{Db}
use python_typescript_wiki_b.Outside.{Env}

pub record World : Type 0 where
  pub db : Db
  -- how many events have happened
  pub tick : ℕ

abbrev pub App : Type 0 → Type 0
App A = World → Result A × World

abbrev pub after : World → World
after w = record w { tick = suc w.tick }

module _ {A : Type 0} where
  unfoldable pub pure : A → App A
  pure a w = (ok a, w)

  unfoldable pub raise : Exc → App A
  raise e w = (raised e, w)

module _ {A B : Type 0} where
  abbrev pub continue : Result A → (A → App B) → App B
  continue (ok a) f w = f a w
  continue (raised e) f w = (raised e, w)

  infixl 10 ◌>>=◌ ◌>>◌
  unfoldable pub ◌>>=◌ : App A → (A → App B) → App B
  unfolding pure raise
  ◌>>=◌ m f w = let (r, w') = m w in continue r f w'

  abbrev pub ◌>>◌ : App A → App B → App B
  m >> n = m >>= λ _. n

-- `try: ... except Exception as exc: raise error from exc`
module _ {A : Type 0} (error : Exc) where
  abbrev pub replace : Result A → Result A
  replace (ok a) = ok a
  replace (raised e) = raised error

  unfoldable pub or_raise : App A → App A
  or_raise m w = let (r, w') = m w in (replace r, w')

abbrev pub internal : Exc
internal = app_error 500 internal_error

-- A pure computation that may raise.
unfoldable pub lift : {A : Type 0} → Result A → App A
lift r w = (r, w)

-- `datetime.now(timezone.utc)`, and other reads of the outside world.
unfoldable pub observe : {A : Type 0} → (ℕ → A) → App A
observe f w = (ok (f w.tick), after w)

-- A statement: the server may fail it, and then it has no effect.
abbrev pub Statement : Type 0 → Type 0
Statement A = ℕ → Db → Result A × Db

unfoldable pub run_sql : {A : Type 0} → Env → Statement A → App A
run_sql env stmt w =
    let (r, db') = stmt (env.db_clock w.tick) w.db in
    if env.fault w.tick
    then (raised database_error, after w)
    else (r, record { db = db'; tick = suc w.tick })

-- A call that has no effect on the tables, such as BEGIN.
abbrev pub nothing : Statement (Unit {0})
nothing now db = (ok tt, db)

-- `async with connection.transaction()`: BEGIN, the block, then COMMIT or ROLLBACK. Whatever fails,
-- the tables are as before.

abbrev settle : {A : Type 0} → Db → Result A × World → Result A × World
settle old (ok a, w) = (ok a, w)
settle old (raised e, w) = (raised e, record w { db = old })

module _ {A : Type 0} (env : Env) where
  unfoldable pub transaction : App A → App A
  unfolding run_sql ◌>>=◌
  transaction m w = settle w.db ((do run_sql env nothing; a ← m; run_sql env nothing; pure a) w)

-- The largest `datetime`: 9999-12-31T23:59:59.999999.
abbrev pub datetime_max : ℕ
datetime_max = 315537897599999999

-- `now + timedelta(seconds=n)`, an OverflowError outside of the range of `datetime`.
unfoldable pub add_seconds : ℕ → ℤ → Result ℕ
add_seconds now (pos n) =
    if leb (now + n * 1000000) datetime_max then ok (now + n * 1000000) else raised overflow_error
add_seconds now (negsuc n) =
    if leb (suc n * 1000000) now then ok (now - suc n * 1000000) else raised overflow_error
