-- ===== src/Api/Responses.antt =====
-- The tables RESPONSES of the routes: the statuses and codes of the errors that each one documents.
use python_typescript_wiki_b.Base.{ℕ, List, [], ◌∷◌, ◌≡◌, ◌⊎◌}
use python_typescript_wiki_b.Errors.{
  ErrorCode, validation_error, oauth_code_invalid, session_missing, session_expired, internal_error,
}

abbrev pub Responses : Type 0
Responses = List (ℕ × List ErrorCode)

abbrev pub auth_responses : Responses
auth_responses =
    (400, validation_error ∷ []) ∷ (401, oauth_code_invalid ∷ []) ∷ (500, internal_error ∷ []) ∷ []

abbrev pub session_responses : Responses
session_responses =
    (400, validation_error ∷ [])
    ∷ (401, session_missing ∷ session_expired ∷ oauth_code_invalid ∷ [])
    ∷ (500, internal_error ∷ [])
    ∷ []

abbrev pub spaces_responses : Responses
spaces_responses =
    (400, validation_error ∷ [])
    ∷ (401, session_missing ∷ session_expired ∷ [])
    ∷ (500, internal_error ∷ [])
    ∷ []

abbrev pub users_responses : Responses
users_responses =
    (400, validation_error ∷ [])
    ∷ (401, session_missing ∷ session_expired ∷ [])
    ∷ (500, internal_error ∷ [])
    ∷ []

-- The table has an entry for the status, and the entry lists the code.
abbrev pub Among : ErrorCode → List ErrorCode → Type 0
Among code [] = ⊥
Among code (c ∷ cs) = (code ≡ c) ⊎ Among code cs

abbrev pub Documents : Responses → ℕ → ErrorCode → Type 0
Documents [] status code = ⊥
Documents ((s, codes) ∷ table) status code =
    ((status ≡ s) × Among code codes) ⊎ Documents table status code
