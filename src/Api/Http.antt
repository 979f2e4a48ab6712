-- ===== src/Api/Http.antt =====
-- app/core/trace.py, the handlers of app/core/errors.py and the middleware of app/main.py: how the
-- outcome of a route becomes a response.
pub mod Pipeline
pub mod Checked
use python_typescript_wiki_b.Base.{
  ℕ, ◌-◌, ◌%◌, Bool, true, false, ◌&&◌, Option, none, some, [], ◌∷◌, leb, if◌then◌else◌, length,
}
use python_typescript_wiki_b.Text.{Str, hex_number}
use python_typescript_wiki_b.Errors.{
  ErrorCode, validation_error, rate_limit_exceeded, internal_error, Exc, app_error, http_exception,
  request_validation_error, rate_limit_error, Result, ok, raised, ErrorResponse, code_of_status,
}
use python_typescript_wiki_b.Timestamp.{utc_timestamp}
use python_typescript_wiki_b.Outside.{Env}
use python_typescript_wiki_b.App.{World, App, ◌>>=◌, ◌>>◌, pure, raise, observe, run_sql, nothing}

-- The headers that the application reads.
pub record Request : Type 0 where
  pub x_trace_id : Option Str
  pub authorization : Option Str

-- A JSON body: no JSON at all, a field that is absent or not text, or the field's text.
pub data Body : Type 0 where
  malformed absent : Body
  given : Str → Body

pub data Content (A : Type 0) : Type 0 where
  success : A → Content A
  failure : ErrorResponse → Content A

pub record Response (A : Type 0) : Type 0 where
  pub status : ℕ
  pub content : Content A
  pub trace_id : Option Str

-- `min_length` and `max_length`.
abbrev pub within : ℕ → Option ℕ → Str → Bool
within lo none s = leb lo (length s)
within lo (some hi) s = leb lo (length s) && leb (length s) hi

module _ (env : Env) where
  -- `get_connection`: a pooled connection, which may not be had. Lifespan has the pool behind it.
  unfoldable pub get_connection : App (Unit {0})
  get_connection = run_sql env nothing

  abbrev pub checked : ℕ → Option ℕ → Body → App Str
  checked lo hi malformed = raise request_validation_error
  checked lo hi absent = raise request_validation_error
  checked lo hi (given s) = if within lo hi s then pure s else raise request_validation_error

  -- A required text field with `min_length` and `max_length`. The body is parsed before the
  -- dependencies run, and its fields are checked after them.
  unfoldable pub body_field : ℕ → Option ℕ → Body → App Str
  body_field lo hi malformed = raise request_validation_error
  body_field lo hi body = do get_connection; checked lo hi body

  -- `get_or_create_trace_id`: an empty header counts as none.
  unfoldable pub get_or_create_trace_id : Request → App Str
  get_or_create_trace_id request = elim request.x_trace_id [
    | none ↦ observe (λ t. hex_number 32 (env.uuid t))
    | some [] ↦ observe (λ t. hex_number 32 (env.uuid t))
    | some (c ∷ s) ↦ pure (c ∷ s)
  ]

  -- `_error_payload`
  unfoldable pub error_payload : ErrorCode → App ErrorResponse
  error_payload code = do
    now ← observe env.clock
    pure (record { message = code; timestamp = utc_timestamp now })

  module _ {A : Type 0} where
    abbrev pub error_response : ℕ → ErrorCode → App (Response A)
    error_response status code = do
      payload ← error_payload code
      pure (record { status = status; content = failure payload; trace_id = none })

    -- The handlers that `app.add_exception_handler` registers for the framework's exceptions and
    -- for `AppError`.
    abbrev pub handle : ℕ → Result A → App (Response A)
    handle status (ok a) = pure (record { status = status; content = success a; trace_id = none })
    handle status (raised (app_error code message)) = error_response code message
    handle status (raised (http_exception code)) = error_response code (code_of_status code)
    handle status (raised request_validation_error) = error_response 400 validation_error
    handle status (raised rate_limit_error) = error_response 429 rate_limit_exceeded
    handle status (raised e) = raise e

    unfoldable pub with_handlers : ℕ → App A → App (Response A)
    unfolding error_payload code_of_status ◌>>=◌ observe
    with_handlers status route w = let (r, w') = route w in handle status r w'

    -- `trace_id_middleware`
    unfoldable pub trace_id_middleware : Request → App (Response A) → App (Response A)
    trace_id_middleware request call_next = do
      trace_id ← get_or_create_trace_id request
      response ← call_next
      pure (record response { trace_id = some trace_id })

    abbrev pub catch_all : Result (Response A) → App (Response A)
    catch_all (ok response) = pure response
    catch_all (raised e) = error_response 500 internal_error

    -- `unhandled_exception_handler`, which the framework runs outside of all other middleware.
    unfoldable pub server_errors : App (Response A) → App (Response A)
    unfolding error_payload ◌>>=◌ observe
    server_errors app w = let (r, w') = app w in catch_all r w'

    -- A request from its arrival to its response; `status` is that of success.
    unfoldable pub serve : Request → ℕ → App A → App (Response A)
    unfolding with_handlers trace_id_middleware server_errors get_or_create_trace_id
    serve request status route =
        server_errors (trace_id_middleware request (with_handlers status route))
