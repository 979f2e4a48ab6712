-- ===== src/Errors.antt =====
-- app/core/errors.py: the error codes, the exceptions that the application raises, and the reply
-- body that every handler builds. Handlers that read the clock are in Api/Http.
use python_typescript_wiki_b.Base.{ℕ, if◌then◌else◌, ◌==◌, ◌≡◌, refl, Option, none, some}
use python_typescript_wiki_b.Text.{Str}

pub data ErrorCode : Type 0 where
  validation_error oauth_code_invalid oauth_state_invalid session_missing session_expired :
      ErrorCode
  rate_limit_exceeded internal_error : ErrorCode

-- What a call can raise: the application's own `AppError`, the framework's exceptions, and the
-- Python exceptions that the code or its libraries raise otherwise.
pub data Exc : Type 0 where
  app_error : ℕ → ErrorCode → Exc
  http_exception : ℕ → Exc
  request_validation_error rate_limit_error : Exc
  database_error runtime_error overflow_error value_error attribute_error : Exc

pub data Result {ℓ} (A : Type ℓ) : Type ℓ where
  ok : A → Result A
  raised : Exc → Result A

-- `{status: "error", message, timestamp}`. The constant marker `status` is the type itself.
pub record ErrorResponse : Type 0 where
  pub message : ErrorCode
  pub timestamp : Str

-- The table of `http_exception_handler`.
unfoldable pub code_of_status : ℕ → ErrorCode
code_of_status status =
    if status == 400
    then validation_error
    else if status == 401
    then oauth_code_invalid
    else if status == 422
    then validation_error
    else if status == 429
    then rate_limit_exceeded
    else internal_error

module _ {A B : Type 0} where
  infixl 10 ◌>>=◌ ◌>>◌
  abbrev pub ◌>>=◌ : Result A → (A → Result B) → Result B
  ok a >>= f = f a
  raised e >>= f = raised e

  abbrev pub ◌>>◌ : Result A → Result B → Result B
  r >> s = r >>= λ _. s

-- `None`, or a failed conversion, where the code raises.
abbrev pub or_else : {A : Type 0} → Exc → Option A → Result A
or_else e none = raised e
or_else e (some a) = ok a

-- A chain that succeeded succeeded in its first step.
pub >>=-eq-ok :
    {A B : Type 0} (r : Result A) (f : A → Result B) {b : B}
    → (r >>= f) ≡ ok b
    → (a : A) × (r ≡ ok a) × (f a ≡ ok b)
>>=-eq-ok (ok a) f h = (a, refl, h)
>>=-eq-ok (raised e) f h = cc

pub ok-injective {ℓ} : {A : Type ℓ} {a b : A} → ok a ≡ ok b → a ≡ b
ok-injective h = cc
