-- ===== src/Api/Http/Pipeline.antt =====
-- What the handlers and the middleware make of the outcome of a route.
use python_typescript_wiki_b.Base.{ℕ, ◌≡◌, refl, Option, none, some, [], ◌∷◌, arith}
use python_typescript_wiki_b.Text.{Str, hex_number}
use python_typescript_wiki_b.Errors.{
  ErrorCode, validation_error, rate_limit_exceeded, internal_error, app_error, http_exception,
  request_validation_error, rate_limit_error, Result, ok, raised, code_of_status,
}
use python_typescript_wiki_b.Timestamp.{utc_timestamp}
use python_typescript_wiki_b.Outside.{Env}
use python_typescript_wiki_b.App.{World, App, after, ◌>>=◌, pure, raise, observe}
use python_typescript_wiki_b.Api.Http.{
  Request, success, failure, Response, get_or_create_trace_id, error_payload, handle, with_handlers,
  trace_id_middleware, server_errors, serve,
}

module _ (env : Env) where
  abbrev trace_from : Option Str → World → Str × World
  trace_from none w = (hex_number 32 (env.uuid w.tick), after w)
  trace_from (some []) w = (hex_number 32 (env.uuid w.tick), after w)
  trace_from (some (c ∷ s)) w = (c ∷ s, w)

  -- The trace id of a request, and the world in which its route starts: the client's id if it sent
  -- one that is not empty, otherwise a fresh one.
  abbrev pub trace_of : Request → World → Str × World
  trace_of request w = trace_from request.x_trace_id w

  get_or_create_trace_id-eq :
      (request : Request) (w : World)
      → get_or_create_trace_id env request w ≡ (ok (trace_of request w).0, (trace_of request w).1)
  unfolding get_or_create_trace_id observe pure
  get_or_create_trace_id-eq request w = ground arith

  -- The moment of an error, as its body prints it.
  abbrev moment : World → Str
  moment w = utc_timestamp (env.clock w.tick)

  module _ {A : Type 0} where
    abbrev error_at : ℕ → ErrorCode → Option Str → World → Response A × World
    error_at status code trace_id w = (
      record {
        status = status;
        content = failure (record { message = code; timestamp = moment w });
        trace_id = trace_id;
      },
      after w,
    )

    -- The response for an outcome: the handled errors and successes carry the trace id, and any
    -- other exception is a 500 without it.
    abbrev pub conclude : ℕ → Str → Result A → World → Response A × World
    conclude status t (ok a) w =
        (record { status = status; content = success a; trace_id = some t }, w)
    conclude status t (raised (app_error s c)) w = error_at s c (some t) w
    conclude status t (raised (http_exception s)) w = error_at s (code_of_status s) (some t) w
    conclude status t (raised request_validation_error) w = error_at 400 validation_error (some t) w
    conclude status t (raised rate_limit_error) w = error_at 429 rate_limit_exceeded (some t) w
    conclude status t (raised e) w = error_at 500 internal_error none w

    conclude_outcome :
        (status : ℕ) (t : Str) (r : Result A) (w : World)
        → server_errors env
            (λ w'.
              (handle env status r >>= λ response. pure (record response { trace_id = some t })) w')
            w
          ≡ (ok (conclude status t r w).0, (conclude status t r w).1)
    unfolding server_errors pure raise error_payload observe ◌>>=◌
    conclude_outcome status t (ok a) w = refl
    conclude_outcome status t (raised (app_error s c)) w = refl
    conclude_outcome status t (raised (http_exception s)) w = refl
    conclude_outcome status t (raised request_validation_error) w = refl
    conclude_outcome status t (raised rate_limit_error) w = refl
    conclude_outcome status t (raised e) w = refl

    -- Whatever a route does, its request is answered, and by this response: the route runs once, in
    -- the world behind the choice of the trace id, and its outcome decides.
    pub serve_lem :
        (request : Request) (status : ℕ) (route : App A) (w : World)
        → serve env request status route w ≡ (
            let (t, start) = trace_of request w in
            let (r, end) = route start in
            let (response, last) = conclude status t r end in (ok response, last))
    unfolding serve trace_id_middleware with_handlers server_errors ◌>>=◌
    serve_lem request status route w =
        let (t, start) = trace_of request w in
        rw (get_or_create_trace_id-eq request w)
          (conclude_outcome status t (route start).0 (route start).1)

    -- A response with a value is that of a route that returned it.
    pub conclude-success :
        (status : ℕ) (t : Str) (r : Result A) (w : World) {a : A}
        → (conclude status t r w).0.content ≡ success a
        → (r ≡ ok a) × ((conclude status t r w).1 ≡ w)
    conclude-success status t (ok a) w h = (cc, refl)
    conclude-success status t (raised (app_error s c)) w h = absurd (cc)
    conclude-success status t (raised (http_exception s)) w h = absurd (cc)
    conclude-success status t (raised request_validation_error) w h = absurd (cc)
    conclude-success status t (raised rate_limit_error) w h = absurd (cc)
    conclude-success status t (raised e) w h = absurd (cc)

  db-trace_from : (o : Option Str) (w : World) → (trace_from o w).1.db ≡ w.db
  db-trace_from none w = refl
  db-trace_from (some []) w = refl
  db-trace_from (some (c ∷ s)) w = refl

  -- Choosing a trace id leaves the tables alone.
  pub db-trace_of : (request : Request) (w : World) → (trace_of request w).1.db ≡ w.db
  db-trace_of request w = db-trace_from request.x_trace_id w
