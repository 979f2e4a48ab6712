-- ===== src/Examples/Lifespan.antt =====
-- The pool at a concrete driver, which counts its connections.
use python_typescript_wiki_b.Base.{
  ℕ, suc, ◌-◌, ◌≡◌, refl, Bool, true, false, none, some, List, [], ◌∷◌, arith, length, ltb,
  if◌then◌else◌,
}
use python_typescript_wiki_b.Errors.{database_error, runtime_error, ok, raised}
use python_typescript_wiki_b.Config.{Variables}
use python_typescript_wiki_b.Lifespan.{
  Asyncpg, AppState, Event, arrives, leaves, create_pool, startup, enter_connection,
  leave_connection, leave_at, serve_event, serve_events,
}
use python_typescript_wiki_b.Lifespan.Serving.{IsAsyncpg, AtHand, serve_events-startup}

record CountingPool : Type 0 where
  out : ℕ
  size : ℕ
  shut : Bool

-- A connection is named by how many were out before it.
abbrev counting : Asyncpg CountingPool ℕ
counting = record {
  create_pool = λ dsn lo hi. ok (record { out = 0; size = hi; shut = false });
  acquire = λ p.
      if ltb p.out p.size
      then (ok p.out, record p { out = suc p.out })
      else (raised database_error, p);
  release = λ c p. record p { out = p.out - 1 };
  close = λ p. (ok tt, record p { shut = true });
}

counting-IsAsyncpg : IsAsyncpg counting
counting-IsAsyncpg = record {
  leased = λ p. p.out;
  max_size = λ p. p.size;
  is_closed = λ p. p.shut;
  create_law = λ dsn lo hi p h. ground (arith, h);
  acquire_law = λ p. ground arith;
  acquire_bound = λ p h. ground arith;
  release_law = λ c p. (refl, refl, refl);
}

abbrev no_pool : AppState CountingPool
no_pool = record { db_pool = none }

abbrev fresh_pool : AppState CountingPool
fresh_pool = record { db_pool = some (record { out = 0; size = 10; shut = false }) }

abbrev no_variables : Variables
no_variables = λ name. none

startup_runs : startup counting no_variables no_pool ≡ (ok tt, fresh_pool)
unfolding startup create_pool
startup_runs = refl

missing_runs : (enter_connection counting no_pool).0 ≡ raised runtime_error
unfolding enter_connection
missing_runs = refl

-- Two requests at once, the first of which ends, and a third one.
abbrev visits : List Event
visits = arrives ∷ arrives ∷ leaves 1 ∷ arrives ∷ []

visits_runs : (serve_events counting visits fresh_pool []).1 ≡ 1 ∷ 1 ∷ []
unfolding serve_events serve_event enter_connection leave_at leave_connection
visits_runs = refl

serve_events-startup_example :
    AtHand counting counting-IsAsyncpg
      (serve_events counting visits fresh_pool []).0
      (length (serve_events counting visits fresh_pool []).1)
serve_events-startup_example =
    serve_events-startup counting counting-IsAsyncpg no_variables no_pool fresh_pool visits
      startup_runs
