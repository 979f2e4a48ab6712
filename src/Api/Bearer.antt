-- ===== src/Api/Bearer.antt =====
-- `_extract_bearer_token`, which app/api/v1/routes/session.py, spaces.py and users.py each declare.
pub mod Grammar
use python_typescript_wiki_b.Base.{
  Bool, true, false, ◌||◌, not, Option, none, some, if◌then◌else◌, same, Bool-cases,
}
use python_typescript_wiki_b.Text.{Str, codes, strip, partition, lower, is_empty}
use python_typescript_wiki_b.Errors.{
  Exc, app_error, validation_error, session_missing, Result, ok, raised,
}

abbrev pub no_session : Exc
no_session = app_error 401 session_missing

abbrev pub bad_request : Exc
bad_request = app_error 400 validation_error

unfoldable pub split_header : Str × Str → Result Str
unfolding lower strip same
split_header (scheme, credentials) =
    if not (same (lower scheme) (codes "bearer")) || is_empty (strip credentials)
    then raised bad_request
    else ok (strip credentials)

unfoldable pub extract_bearer_token : Option Str → Result Str
unfolding split_header partition lower strip same
extract_bearer_token none = raised no_session
extract_bearer_token (some header) =
    if is_empty (strip header) then raised no_session else split_header (partition b' ' header)
