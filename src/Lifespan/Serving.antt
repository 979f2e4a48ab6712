-- ===== src/Lifespan/Serving.antt =====
-- The pool while the application serves.
use mathlib.Core.Option
use python_typescript_wiki_b.Base.{
  ℕ, zero, suc, ◌+◌, ◌-◌, ◌≤◌, ◌≡◌, refl, ap, subst, ◌∙◌, Bool, false, Option, none, some, List, [],
  ◌∷◌, arith, length,
}
use python_typescript_wiki_b.Text.{Str}
use python_typescript_wiki_b.Errors.{Result, ok, raised}
use python_typescript_wiki_b.Config.{Variables}
use python_typescript_wiki_b.Lifespan.{
  Asyncpg, AppState, Event, arrives, leaves, create_pool, close_pool, startup, shutdown,
  enter_connection, leave_connection, leave_at, hold, taken, started, serve_event, serve_events,
}

-- How many connections are out after a call of `acquire`.
abbrev pub counted : {A : Type 0} → Result A → ℕ → ℕ
counted (ok a) n = suc n
counted (raised e) n = n

-- asyncpg's documented behaviour: a pool starts with no connection out, counts those that are, and
-- never has more of them than its `max_size`. Neither
-- `acquire` nor `release` closes it.
pub record IsAsyncpg {Pool Connection : Type 0} (asyncpg : Asyncpg Pool Connection) : Type 0 where
  pub leased : Pool → ℕ
  pub max_size : Pool → ℕ
  pub is_closed : Pool → Bool
  pub create_law :
      (dsn : Str) (lo hi : ℕ) (p : Pool)
      → asyncpg.create_pool dsn lo hi ≡ ok p
      → (leased p ≡ 0) × (max_size p ≡ hi) × (is_closed p ≡ false)
  pub acquire_law :
      (p : Pool)
      → (leased (asyncpg.acquire p).1 ≡ counted (asyncpg.acquire p).0 (leased p))
        × (max_size (asyncpg.acquire p).1 ≡ max_size p)
        × (is_closed (asyncpg.acquire p).1 ≡ is_closed p)
  pub acquire_bound : (p : Pool) → leased p ≤ max_size p → leased (asyncpg.acquire p).1 ≤ max_size p
  pub release_law :
      (c : Connection) (p : Pool)
      → (leased (asyncpg.release c p) ≡ leased p - 1)
        × (max_size (asyncpg.release c p) ≡ max_size p)
        × (is_closed (asyncpg.release c p) ≡ is_closed p)

module _ {Pool Connection : Type 0} (asyncpg : Asyncpg Pool Connection)
    (laws : IsAsyncpg asyncpg) where
  -- The pool is there and open, and the connections out are those that requests hold.
  abbrev Holds : Option Pool → ℕ → Type 0
  Holds none n = ⊥
  Holds (some p) n =
      (laws.leased p ≡ n) × (n ≤ 10) × (laws.max_size p ≡ 10) × (laws.is_closed p ≡ false)

  released-Holds :
      (c : Connection) (pool : Option Pool) (n : ℕ)
      → Holds pool (suc n)
      → Holds (Option.map (λ p. asyncpg.release c p) pool) n
  released-Holds c none n h = h
  released-Holds c (some p) n (out, few, limit, opened) =
      let (a, b, d) = laws.release_law c p in
      (omega (arith, a, out), omega (arith, few), b ∙ limit, d ∙ opened)

  -- A request that ends gives its connection back, `m` others being out.
  leave_at-Holds :
      (n m : ℕ) (state : AppState Pool) (held : List Connection)
      → Holds state.db_pool (m + length held)
      → Holds
          (leave_at asyncpg n state held).0.db_pool
          (m + length (leave_at asyncpg n state held).1)
  unfolding leave_at leave_connection
  leave_at-Holds n m state [] h = h
  leave_at-Holds zero m state (c ∷ held) h =
      released-Holds c state.db_pool (m + length held) (subst (Holds state.db_pool) (omega arith) h)
  leave_at-Holds (suc n) m state (c ∷ held) h =
      subst (Holds (leave_at asyncpg n state held).0.db_pool) (omega arith)
        (leave_at-Holds n (suc m) state held (subst (Holds state.db_pool) (omega arith) h))

  length-hold :
      (r : Result Connection) (held : List Connection)
      → counted r (length held) ≡ length (hold asyncpg r held)
  length-hold (ok c) held = refl
  length-hold (raised e) held = refl

  taken-Holds :
      (pool : Option Pool) (held : List Connection)
      → Holds pool (length held)
      → Holds (taken asyncpg pool).1.db_pool (length (hold asyncpg (taken asyncpg pool).0 held))
  taken-Holds none held h = h
  taken-Holds (some p) held (out, few, limit, opened) =
      let (a, b, d) = laws.acquire_law p in
      let exact =
        a ∙ ap (counted (asyncpg.acquire p).0) out ∙ length-hold (asyncpg.acquire p).0 held in
      (
        exact,
        omega (arith, laws.acquire_bound p (omega (arith, out, few, limit)), exact, limit),
        b ∙ limit,
        d ∙ opened,
      )

  serve_event-Holds :
      (e : Event) (state : AppState Pool) (held : List Connection)
      → Holds state.db_pool (length held)
      → Holds
          (serve_event asyncpg e state held).0.db_pool
          (length (serve_event asyncpg e state held).1)
  unfolding serve_event enter_connection
  serve_event-Holds arrives state held h = taken-Holds state.db_pool held h
  serve_event-Holds (leaves n) state held h =
      subst (Holds (leave_at asyncpg n state held).0.db_pool) (omega arith)
        (leave_at-Holds n 0 state held (subst (Holds state.db_pool) (omega arith) h))

  serve_events-Holds :
      (es : List Event) (state : AppState Pool) (held : List Connection)
      → Holds state.db_pool (length held)
      → Holds
          (serve_events asyncpg es state held).0.db_pool
          (length (serve_events asyncpg es state held).1)
  unfolding serve_events
  serve_events-Holds [] state held h = h
  serve_events-Holds (e ∷ es) state held h =
      serve_events-Holds es (serve_event asyncpg e state held).0
        (serve_event asyncpg e state held).1 (serve_event-Holds e state held h)

  started-Holds :
      (r : Result Pool) (before state : AppState Pool)
      → ((p : Pool) → r ≡ ok p → Holds (some p) 0)
      → started asyncpg r before ≡ (ok tt, state)
      → Holds state.db_pool 0
  started-Holds (ok p) before state fresh h =
      subst (λ x. Holds x 0) (ap (λ x. x.1.db_pool) h) (fresh p refl)
  started-Holds (raised e) before state fresh h = absurd (cc)

  startup-Holds :
      (variables : Variables) (before state : AppState Pool)
      → startup asyncpg variables before ≡ (ok tt, state)
      → Holds state.db_pool 0
  unfolding startup create_pool
  startup-Holds variables before state h =
      started-Holds (create_pool asyncpg variables) before state
        (λ p e. let (a, b, d) = laws.create_law _ 1 10 p e in (a, omega arith, b, d)) h

  -- A pool that is there decides what requests and shutdown meet.
  unfoldable pub AtHand : AppState Pool → ℕ → Type 0
  AtHand state n =
      (p : Pool) × (state.db_pool ≡ some p)
      × (laws.leased p ≡ n)
      × (n ≤ 10)
      × (laws.is_closed p ≡ false)
      × ((enter_connection asyncpg state).0 ≡ (asyncpg.acquire p).0)
      × (shutdown asyncpg state
          ≡ ((asyncpg.close p).0, record { db_pool = some (asyncpg.close p).1 }))

  Holds-AtHand : (pool : Option Pool) (n : ℕ) → Holds pool n → AtHand (record { db_pool = pool }) n
  unfolding AtHand enter_connection shutdown close_pool
  Holds-AtHand none n h = absurd h
  Holds-AtHand (some p) n (out, few, limit, opened) = (p, refl, out, few, opened, refl, refl)

  -- After a startup that succeeds, whatever requests come and go, in any order, the pool is there and
  -- open: a request that asks for a connection gets what the pool's `acquire` gives, and no
  -- RuntimeError for a pool that is missing; the pool's connections that are out are exactly those of
  -- the requests under way, at most ten; and shutdown closes this pool.
  pub serve_events-startup :
      (variables : Variables) (before state : AppState Pool) (events : List Event)
      → startup asyncpg variables before ≡ (ok tt, state)
      → AtHand
          (serve_events asyncpg events state []).0
          (length (serve_events asyncpg events state []).1)
  serve_events-startup variables before state events h =
      Holds-AtHand (serve_events asyncpg events state []).0.db_pool
        (length (serve_events asyncpg events state []).1)
        (serve_events-Holds events state [] (startup-Holds variables before state h))
