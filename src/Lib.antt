-- ===== src/Lib.antt =====
-- The backend of the wiki: users who log in with oauth.name tokens, their sessions, their spaces.
--
-- How the program works. A request passes app/main.py (middleware and handlers), a route of
-- app/api/v1/routes/, a service of app/services/ and the repositories of app/repositories/, which run
-- SQL on the tables of app/models.py. TokenService decrypts and checks the token of the issuer;
-- mock_oauth/app.py is an issuer for local use.
--
-- Files and what they model:
--   Base, Text: tests, lists, integers, Python's `str` as code points.
--   Errors: app/core/errors.py, its codes and exceptions; `Result` is a value or an exception.
--   Timestamp: _utc_timestamp of app/core/errors.py, with the calendar of `datetime`.
--   Db: app/models.py, rows and limits of columns. Repositories/WellFormed: the constraints.
--   Json, Outside: JSON values, and the parameters: clocks, uuid4, token_urlsafe, urandom, the
--     failures of the database, SHA-256, HMAC, AES-CBC, the json library, pydantic's conversions
--     to int and str, and the folding of case in ILIKE.
--   App: actions on the world (`World`: tables and a count of events), `run_sql` for a statement,
--     `transaction` for asyncpg's; App/Laws and App/Transactions have the rules for them.
--   Lifespan: app/db.py and `lifespan` of app/main.py, over the calls of asyncpg as a parameter.
--   Codec: Base64, PKCS#7 and UTF-8 of app/services/token_service.py and mock_oauth/app.py.
--   Config: app/core/config.py, the services that app/api/deps.py makes of the settings, and the
--     settings of CORS in app/main.py.
--   Token: TokenService. MockOauth: issue_token, _encrypt_payload, _tamper_hmac; MockOauth/Samples:
--     token_examples.
--   Migrations/Url: the database that app/db.py and alembic/env.py connect to. Migrations/Ddl,
--     Versions: the schema, the calls of `op`, the revisions of alembic/versions/. Walk: steps along
--     them. Metadata: app/models.py as metadata. States, Undo: the schemas between revisions.
--   Repositories/Users, Sessions, Spaces: one function for each SQL statement, one for each method;
--     Repositories/Like is a matcher for ILIKE. Users/Expected has what an upsert is to store, field
--     by field. Repositories/Limits: every value fits its column.
--   Services/Auth, Sessions, Spaces, Users: the services, by the names of their methods
--     (`get_session_record` is _get_session_record). Services/Sessions/View specifies get_session,
--     and the files beside it follow a session's life.
--   Api/Http, Bearer, Responses, Auth, Sessions, Spaces, Users, Health: middleware, handlers, header
--     parsing, RESPONSES tables and routes. Api/History: sequences of requests.
--   Services/Sessions/Held: the session that a request holds. Api/Users/Bounds: what a search answers
--     with. Api/Spaces/Posted: which requests make a space, and which.
--   Interleave: requests in flight at once. Prog is a request as the sequence of its awaits, Programs
--     and Server the routes in this form, Exec and Alone their agreement with Services and Api, which
--     Alone/Login uses, Schedule the turns that tasks take, Ensures what a task ensures among others,
--     Logout its use, Ends how many turns a task needs.
--   Examples: concrete surroundings and the theorems at concrete arguments.
--
-- How state and time are modelled. Moments are microseconds since 0001-01-01 UTC. Every event (a
-- clock, a random value, a statement) takes the next tick, and `Env` says what it meets at that tick:
-- two readings need not agree, and clocks may go backwards. A statement that the server fails has no
-- effect on the tables; the theorems hold for every choice of failures unless they exclude some.
-- Requests of Api/History run one after the other; those of Interleave take turns at every statement
-- and clock, with a transaction as one turn, since its rows are seen by others when it commits. There
-- is no fuel: all recursion is on lists, programs, and the number of migrations. LIMIT without ORDER
-- BY takes the rows in the order of the table. A failed insert leaves `users_id_seq` alone in the
-- model; numbers are only compared, so gaps do not matter.
--
-- What is not modelled: logging, JSON encoding of responses with the moments in them, the CORS
-- middleware and the rate limiter (libraries), the repositories that app/api/deps.py makes for each
-- request, and the effect of migrations on rows.
pub mod Base
pub mod Text
pub mod Timestamp
pub mod Errors
pub mod Db
pub mod Json
pub mod Lifespan
pub mod Outside
pub mod App
pub mod Codec
pub mod Token
pub mod Config
pub mod MockOauth
pub mod Repositories
pub mod Services
pub mod Api
pub mod Examples
pub mod Migrations
pub mod Interleave
