-- ===== src/Api.antt =====
-- app/api/v1/ and app/main.py: requests, routes, exception handlers and middleware.
pub mod Http
pub mod Bearer
pub mod Responses
pub mod Auth
pub mod Sessions
pub mod Spaces
pub mod Users
pub mod Health
pub mod Contract
pub mod History
