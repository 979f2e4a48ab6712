-- ===== src/Lifespan.antt =====
-- The pool of app/db.py over the life of the application: `lifespan` of app/main.py and the
-- connections that requests take and give back.
pub mod Serving
use mathlib.Core.Option
use python_typescript_wiki_b.Base.{ℕ, zero, suc, Option, none, some, List, [], ◌∷◌}
use python_typescript_wiki_b.Text.{Str}
use python_typescript_wiki_b.Errors.{runtime_error, attribute_error, Result, ok, raised}
use python_typescript_wiki_b.Config.{Variables}
use python_typescript_wiki_b.Migrations.Url.{get_database_url}

-- What the code calls of asyncpg: `create_pool(dsn, min_size, max_size)`, and `acquire`, `release`,
-- `close` of a pool, which change it.
pub record Asyncpg (Pool Connection : Type 0) : Type 0 where
  pub create_pool : Str → ℕ → ℕ → Result Pool
  pub acquire : Pool → Result Connection × Pool
  pub release : Connection → Pool → Pool
  pub close : Pool → Result (Unit {0}) × Pool

-- `app.state`, with the attribute that startup sets.
pub record AppState (Pool : Type 0) : Type 0 where
  pub db_pool : Option Pool

-- A request that asks for a connection, or the end of the request that holds the n-th one.
pub data Event : Type 0 where
  arrives : Event
  leaves : ℕ → Event

module _ {Pool Connection : Type 0} (asyncpg : Asyncpg Pool Connection) where
  unfoldable pub create_pool : Variables → Result Pool
  create_pool variables = asyncpg.create_pool (get_database_url variables) 1 10

  unfoldable pub close_pool : Pool → Result (Unit {0}) × Pool
  close_pool pool = asyncpg.close pool

  abbrev pub started : Result Pool → AppState Pool → Result (Unit {0}) × AppState Pool
  started (ok pool) state = (ok tt, record { db_pool = some pool })
  started (raised e) state = (raised e, state)

  -- `lifespan` before its `yield`.
  unfoldable pub startup : Variables → AppState Pool → Result (Unit {0}) × AppState Pool
  unfolding create_pool
  startup variables state = started (create_pool variables) state

  -- `lifespan` behind its `yield`: `None` has no method `close`.
  abbrev pub closed_with : Option Pool → Result (Unit {0}) × AppState Pool
  unfolding close_pool
  closed_with none = (raised attribute_error, record { db_pool = none })
  closed_with (some pool) = let (r, pool') = close_pool pool in (r, record { db_pool = some pool' })

  unfoldable pub shutdown : AppState Pool → Result (Unit {0}) × AppState Pool
  unfolding close_pool
  shutdown state = closed_with state.db_pool

  abbrev pub taken : Option Pool → Result Connection × AppState Pool
  taken none = (raised runtime_error, record { db_pool = none })
  taken (some pool) = let (r, pool') = asyncpg.acquire pool in (r, record { db_pool = some pool' })

  -- `get_connection` up to its `yield`, with a RuntimeError where there is no pool.
  unfoldable pub enter_connection : AppState Pool → Result Connection × AppState Pool
  enter_connection state = taken state.db_pool

  -- `get_connection` behind its `yield`, where `async with` gives the connection back, whether the
  -- route has returned or raised.
  unfoldable pub leave_connection : Connection → AppState Pool → AppState Pool
  leave_connection c state = record {
    db_pool = Option.map (λ pool. asyncpg.release c pool) state.db_pool;
  }

  abbrev pub hold : Result Connection → List Connection → List Connection
  hold (ok c) held = c ∷ held
  hold (raised e) held = held

  -- The n-th connection goes back to the pool.
  unfoldable pub leave_at : ℕ → AppState Pool → List Connection → AppState Pool × List Connection
  unfolding leave_connection
  leave_at n state [] = (state, [])
  leave_at zero state (c ∷ held) = (leave_connection c state, held)
  leave_at (suc n) state (c ∷ held) =
      let (state', held') = leave_at n state held in (state', c ∷ held')

  unfoldable pub serve_event :
      Event → AppState Pool → List Connection → AppState Pool × List Connection
  unfolding enter_connection leave_at
  serve_event arrives state held = let (r, state') = enter_connection state in (state', hold r held)
  serve_event (leaves n) state held = leave_at n state held

  -- The application between startup and shutdown, with the connections that requests hold.
  unfoldable pub serve_events :
      List Event → AppState Pool → List Connection → AppState Pool × List Connection
  unfolding serve_event
  serve_events [] state held = (state, held)
  serve_events (e ∷ es) state held =
      let (state', held') = serve_event e state held in serve_events es state' held'
